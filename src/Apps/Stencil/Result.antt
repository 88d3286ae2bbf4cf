-- ===== src/Apps/Stencil/Result.antt =====
-- What the case of stencil holds.
use mathlib.Core.Path.{subst}
use mathlib.Core.List.{append-nil}
use simtix.Base.{
  ℕ, zero, suc, ◌+◌, ◌*◌, ◌/◌, ◌%◌, ◌<◌, ◌≡◌, refl, sym, ap, ◌∙◌, List, [], ◌∷◌, ◌++◌, some, false,
  ◌==◌, if◌then◌else◌, Bool-cases, inl, inr, length,
}
use simtix.Base.Int.{ints}
use simtix.Kernels.{Kernel, slot_of}
use simtix.Ddr.Case.{Case, Launch, numbered, new_case}
use simtix.Random.{Rng, IsRandom, rand_f32}
use simtix.Apps.Gen.{Config, Run, draw, draws, assert}
use simtix.Apps.Logic.{
  Holds, Expects, IsBlock, IsBlock-Grows, IsValid, Grows, Grows-refl, Grows-trans, Grows-of_same,
  Holds-Grows, Ensures, ensures, Ensures-bind, Ensures-run, Ensures-weaken, lift_run, listed_next,
  alloc_words-Ensures, Launches, launch-Ensures, expect-Ensures, new_case-IsValid, length-draws,
  length-ints, build-Ensures,
}
use simtix.Apps.Inputs.{AllUnit, draws-AllUnit}
use simtix.Apps.Stencil.Sweep.{points}
use simtix.Apps.Stencil.Sweeps.{IsSweep, sweep-IsSweep}
use simtix.Apps.Stencil.{
  buffer, stride, stencil_params, stencil_launch, sweeps_from, stencil_body, stencil,
}

abbrev stencil_kernel : ℕ → Kernel
stencil_kernel rows = if rows == 0 then Kernel.stencil else Kernel.stencil_rb

abbrev stencil_threads : ℕ → ℕ → ℕ → ℕ
stencil_threads h w rows = if rows == 0 then h * w else h / rows * w

-- The strips of the strip kernel.
abbrev FitsStrips : ℕ → ℕ → Type 0
FitsStrips h rows = (rows == 0) ≡ false → (rows % 2 ≡ 0) × (h % rows ≡ 0)

module _ (cfg : Config) (h w rows slot a b : ℕ) where
  abbrev sweep_launch : ℕ → ℕ → Launch
  sweep_launch t p = record {
    tag = numbered "stencil" t;
    slot = slot;
    params = p;
    threads = stencil_threads h w rows;
    blk = 0;
  }

  -- In the case c: the launches that sweep `left` times from the grid `cur`, numbered from t, and the
  -- grid that the last leaves.
  pub data SweptBy (c : Case) : ℕ → ℕ → List ℕ → List Launch → List ℕ → Type 0 where
    swept : {t : ℕ} {cur : List ℕ} → SweptBy c 0 t cur [] cur
    step :
        {left t : ℕ} {cur last : List ℕ} (p : ℕ) (nxt : List ℕ) (ls : List Launch)
        → IsBlock c p (stencil_params cfg w rows a b t)
        → IsSweep cur (stride cfg w) (points cfg.lanes (stride cfg w) w 0 h) nxt
        → SweptBy c left (t + 1) nxt ls last
        → SweptBy c (suc left) t cur (sweep_launch t p ∷ ls) last

  SweptBy-Grows :
      {c d : Case} {left t : ℕ} {cur last : List ℕ} {ls : List Launch}
      → SweptBy c left t cur ls last
      → Grows c d
      → SweptBy d left t cur ls last
  SweptBy-Grows swept g = swept
  SweptBy-Grows (step p nxt ls h s rest) g =
      step p nxt ls (IsBlock-Grows h g) s (SweptBy-Grows rest g)

module _ (R : Rng) (cfg : Config) (h w rows slot : ℕ) (lanes : 0 < cfg.lanes)
    (found : slot_of cfg.slots (stencil_kernel rows) ≡ some slot) (fits : FitsStrips h rows) where
  stencil_launch-Ensures :
      (a b t : ℕ) (r : Run R.State)
      → IsValid r.case
      → Ensures
          (λ _ r'.
            Launches r
              (numbered "stencil" t)
              slot
              (stencil_params cfg w rows a b t)
              (stencil_threads h w rows)
              0
              r')
          (stencil_launch R cfg h w rows a b t r)
  unfolding stencil_launch assert
  stencil_launch-Ensures a b t r v = elim (Bool-cases (rows == 0)) [
    | inl plain ↦
        rw (plain, stencil_launch)
          (launch-Ensures cfg (numbered "stencil" t) Kernel.stencil _ (h * w) 0 slot r v
            (rw plain at found))
    | inr strips ↦
        let (e, f) = fits strips in
        rw (strips, e, f, assert, stencil_launch)
          (launch-Ensures cfg (numbered "stencil" t) Kernel.stencil_rb _ (h / rows * w) 0 slot r v
            (rw strips at found))
  ]

  record Swept (r : Run R.State) (left a b t : ℕ) (cur last : List ℕ) (r' : Run R.State)
      : Type 0 where
    launched : List Launch
    valid : IsValid r'.case
    grows : Grows r.case r'.case
    same_gold : r'.case.gold ≡ r.case.gold
    listed : r'.case.launches ≡ r.case.launches ++ launched
    plan : SweptBy cfg h w rows slot a b r'.case left t cur launched last
    same_length : length last ≡ length cur

  sweeps_from-Ensures :
      (left a b t : ℕ) (cur : List ℕ) (r : Run R.State)
      → length cur ≡ (h + 2) * stride cfg w
      → AllUnit cur
      → IsValid r.case
      → Ensures
          (λ last r'. Swept r left a b t cur last r')
          (sweeps_from R cfg h w rows left a b t cur r)
  unfolding sweeps_from
  sweeps_from-Ensures zero a b t cur r len unit v = ensures (record {
    launched = [];
    valid = v;
    grows = Grows-refl r.case;
    same_gold = refl;
    listed = sym (append-nil r.case.launches);
    plan = swept;
    same_length = refl;
  })
  sweeps_from-Ensures (suc left) a b t cur r len unit v =
      Ensures-bind (stencil_launch-Ensures a b t r v) λ _ r1 L.
        let (nxt, e, s) = sweep-IsSweep cfg.lanes h w cur lanes len unit in
        Ensures-run _ (lift_run r1 e) (
          Ensures-weaken
            (sweeps_from-Ensures left a b (t + 1) nxt r1 (s.same_length ∙ len) s.bounded L.valid)
            λ last r2 S. record {
              launched = sweep_launch cfg h w rows slot a b t L.block ∷ S.launched;
              valid = S.valid;
              grows = Grows-trans L.grows S.grows;
              same_gold = S.same_gold ∙ L.same_gold;
              listed =
                  listed_next r.case.launches (sweep_launch cfg h w rows slot a b t L.block)
                    S.launched L.listed S.listed;
              plan =
                  step L.block nxt S.launched (IsBlock-Grows (record { holds = L.holds }) S.grows) s
                    S.plan;
              same_length = S.same_length ∙ s.same_length;
            })

-- A case that sweeps the grid `sweeps` times.
pub record IsStencil (cfg : Config) (h w rows slot sweeps : ℕ) (c : Case) (grid : List ℕ)
    : Type 0 where
  pub a : ℕ
  pub b : ℕ
  pub last : List ℕ
  pub valid : IsValid c
  pub first : Holds c a (ints grid)
  pub second : Holds c b (ints grid)
  pub plan : SweptBy cfg h w rows slot a b c sweeps 0 grid c.launches last
  pub expected : Expects c (buffer a b sweeps) (ints last)

-- For every source that draws numbers between -1.0 and 1.0, `stencil` gives a case, whatever the
-- sizes and the number of sweeps: it is well formed, it holds the grid drawn in both buffers, it has
-- one launch per sweep between the buffers in turn, and it expects in the buffer written last the
-- grid that the sweeps leave, each of which rounds the mean of every inner point's neighbourhood and
-- keeps all else. There is at least one lane, the
-- kernel has a slot, and the strip kernel needs an even number of rows that divides h.
pub stencil-IsStencil :
    (R : Rng) (cfg : Config) (h w rows sweeps slot : ℕ) (s : R.State)
    → IsRandom R
    → 0 < cfg.lanes
    → slot_of cfg.slots (stencil_kernel rows) ≡ some slot
    → FitsStrips h rows
    → (c : Case) × (s' : R.State) × (stencil R cfg h w rows sweeps s ≡ some (c, s'))
      × IsStencil cfg h w rows slot sweeps c (draws ((h + 2) * stride cfg w) (rand_f32 R) s).0
unfolding stencil stencil_body draw
stencil-IsStencil R cfg h w rows sweeps slot s law lanes found fits =
    build-Ensures R {P = λ _ r. IsStencil cfg h w rows slot sweeps r.case grid}
      (stencil_body R cfg h w rows sweeps) (new_case _ (h ∷ w ∷ sweeps ∷ [])) s
      (Ensures-bind
        (alloc_words-Ensures (length grid) (some (ints grid)) _ (new_case-IsValid _ _)
          (length-ints grid))
        λ a r1 A.
          Ensures-bind
            (alloc_words-Ensures (length grid) (some (ints grid)) _ A.valid (length-ints grid))
            λ b r2 B.
              Ensures-bind
                (sweeps_from-Ensures R cfg h w rows slot lanes found fits sweeps a b 0 grid r2 len
                  (draws-AllUnit R law _ s) B.valid)
                λ last r3 S.
                  Ensures-weaken
                    (expect-Ensures (buffer a b sweeps) (ints last) (ints grid) r3 S.valid
                      (in_buffer a b r3
                        (Holds-Grows a (ints grid) A.holds (Grows-trans B.grows S.grows))
                        (Holds-Grows b (ints grid) B.holds S.grows))
                      (length-ints last ∙ S.same_length ∙ sym (length-ints grid)))
                    λ _ r4 E.
                      let same = Grows-of_same {c = r3.case} {d = r4.case} E.same_img in
                      record {
                        a = a;
                        b = b;
                        last = last;
                        valid = E.valid;
                        first =
                            Holds-Grows a (ints grid) A.holds
                              (Grows-trans B.grows (Grows-trans S.grows same));
                        second = Holds-Grows b (ints grid) B.holds (Grows-trans S.grows same);
                        plan =
                            subst (λ l. SweptBy cfg h w rows slot a b r4.case sweeps 0 grid l last)
                              (sym (
                                E.same_launches
                                ∙ S.listed
                                ∙ ap (λ (l : List Launch). l ++ S.launched)
                                    (B.same_launches ∙ A.same_launches)))
                              (SweptBy-Grows cfg h w rows slot a b S.plan same);
                        expected = E.expects;
                      })
  where
    grid : List ℕ
    grid = (draws ((h + 2) * stride cfg w) (rand_f32 R) s).0

    len : length grid ≡ (h + 2) * stride cfg w
    len = length-draws _ (rand_f32 R) s

    in_buffer :
        (a b : ℕ) (r : Run R.State)
        → Holds r.case a (ints grid)
        → Holds r.case b (ints grid)
        → Holds r.case (buffer a b sweeps) (ints grid)
    in_buffer a b r ha hb = elim (Bool-cases (sweeps % 2 == 0)) [
      | inl e ↦ rw e ha
      | inr e ↦ rw e hb
    ]
