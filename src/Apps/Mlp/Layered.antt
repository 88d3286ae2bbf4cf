-- ===== src/Apps/Mlp/Layered.antt =====
-- The loop over the layers in mlp of sim/gen_apps.py.
use mathlib.Core.Path.{subst}
use mathlib.Core.List.{flatten, append-nil}
use simtix.Base.{
  ◌<◌, ◌⊎◌, inl, inr, ℕ, suc, ◌+◌, ◌*◌, ◌/◌, ◌^◌, ◌≤◌, ◌<◌, ◌≡◌, refl, sym, ap, ◌∙◌, arith, List,
  [], ◌∷◌, ◌++◌, Bool, true, false, some, ◌==◌, if◌then◌else◌, length, lt_of_get_elem?,
  length-replicate, lookup, Dict,
}
use simtix.Base.Int.{ℤ, ints, pos}
use simtix.Kernels.{Kernel, slot_of}
use simtix.Ddr.{Image}
use simtix.Ddr.Layout.{store_words_from}
use simtix.Ddr.Case.{Launch}
use simtix.Random.{Rng, IsRandom}
use simtix.Apps.Gen.{Config, Run, lift}
use simtix.Apps.Logic.{
  IsBlock-Grows, IsValid, Grows, Grows-refl, Grows-trans, Grows-of_same, Holds-Grows, Ensures,
  ensures, Ensures-bind, Ensures-run, Ensures-weaken, lift_run, listed_next, expect-Ensures,
  Expected, length-ints,
}
use simtix.Apps.Mlp.{padded, pack_rows}
use simtix.Apps.Mlp.Layers.{layers}
use simtix.Apps.Mlp.Matrix.{All, IsMatrix, IsInput, times, products-times}
use simtix.Apps.Mlp.Packed.{padded-mod_four, padded-le, length-pack_rows, length-flatten-times}
use simtix.Apps.Mlp.Requants.{times-IsSmall, requant_rows-Requants}
use simtix.Apps.Mlp.Plan.{Layers, IsLayer, no_layers, last_layer, hidden_layer}
use simtix.Apps.Mlp.Started.{layer_entry, outputs, Started, layer_launch-Ensures}

module _ (R : Rng) (law : IsRandom R) (cfg : Config) (batch slot count : ℕ)
    (found : slot_of cfg.slots Kernel.mlp ≡ some slot) where
  pub record Layered (r : Run R.State) (li px k : ℕ) (x : List (List ℤ)) (dims : List ℕ)
      (r' : Run R.State) : Type 0 where
    pub launched : List Launch
    pub valid : IsValid r'.case
    pub grows : Grows r.case r'.case
    pub below : (a : ℕ) → a < r.case.img.top → lookup a r'.case.gold ≡ lookup a r.case.gold
    pub listed : r'.case.launches ≡ r.case.launches ++ launched
    pub plan : Layers R batch slot r'.case r.case.gold li px k x r.rng dims launched

  -- A layer stays as it is while words above its outputs are expected.
  pub kept :
      {r r1 r2 : Run R.State} {li px k n : ℕ} {last : Bool} {w : List (List ℤ)} {po : ℕ}
      {vals : List ℤ} (r3 : Run R.State)
      (S : Started R law cfg batch slot found r li px k n last w po r1)
      → Expected r1 po vals r2
      → length vals ≡ outputs batch (padded n) last
      → Grows r2.case r3.case
      → ((a : ℕ) → a < r2.case.img.top → lookup a r3.case.gold ≡ lookup a r2.case.gold)
      → IsLayer R batch slot r3.case px k n (if last then 0 else 1) r.rng w S.p po vals
  kept {r1} {r2} {po} {vals} r3 S E len g later =
      let up = Grows-trans (Grows-of_same {c = r1.case} {d = r2.case} E.same_img) g in
      record {
        pw = S.pw;
        words = S.words;
        drawn = S.drawn;
        matrix = S.matrix;
        padding = S.padding;
        packs = S.packs;
        held = Holds-Grows S.pw (ints S.words) S.held up;
        block = IsBlock-Grows S.block up;
        expects = λ i v e.
            later (po + 4 * i) (
              omega (
                arith,
                lt_of_get_elem? vals i v e,
                S.room,
                len,
                ap (λ (img : Image). img.top) E.same_img,
              ))
            ∙ E.expects i v e;
      }

  -- Where a word comes from that is expected behind the expectation.
  origin_of :
      {r r1 r2 : Run R.State} {li px k n : ℕ} {last : Bool} {w : List (List ℤ)} {po : ℕ}
      {vals : List ℤ}
      → Started R law cfg batch slot found r li px k n last w po r1
      → Expected r1 po vals r2
      → (a u : ℕ) → lookup a r2.case.gold ≡ some u
      → (lookup a r.case.gold ≡ some u) ⊎ ((i : ℕ) × (i < length vals) × (a ≡ po + 4 * i))
  origin_of {r1} {po} {vals} S E a u g =
      elim (store_words_from a u po vals r1.case.gold
        (ap (λ (d : Dict ℕ). lookup a d) (sym E.stored) ∙ g)) [
          | inl before ↦ inl (ap (λ (d : Dict ℕ). lookup a d) (sym S.same_gold) ∙ before)
          | inr there ↦ inr there
        ]

  pub layers-Ensures :
      (li px k : ℕ) (x : List (List ℤ)) (dims : List ℕ) (r : Run R.State)
      → li + 1 + length dims ≡ count
      → k ≤ 2 ^ 18
      → IsMatrix IsInput batch k x
      → All (λ n. n ≤ 2 ^ 18) dims
      → IsValid r.case
      → Ensures (λ _ r'. Layered r li px k x dims r') (layers R cfg batch count li px k x dims r)
  unfolding layers lift
  layers-Ensures li px k x [] r at le hx small v = ensures (record {
    launched = [];
    valid = v;
    grows = Grows-refl r.case;
    below = λ a lt. refl;
    listed = sym (append-nil r.case.launches);
    plan = (no_layers, λ a v e. inl e);
  })
  layers-Ensures li px k x (n ∷ []) r at le hx small v =
      let here : (li + 2 == count) ≡ true = ground arith in
      rw (here, layers)
        (Ensures-bind (layer_launch-Ensures R law cfg batch slot found li px k n true r v)
          λ (w, po) r1 S.
            Ensures-run _ (lift_run r1 (products-times x w batch k (padded n) hx S.matrix)) (
              Ensures-bind
                (expect-Ensures po (flatten (times x w (padded n))) _ r1 S.valid S.zeros
                  (sums w ∙ sym (length-replicate _ (pos 0))))
                λ _ r2 E. ensures (record {
                  launched = layer_entry batch slot li (padded n) S.p ∷ [];
                  valid = E.valid;
                  grows = Grows-trans S.grows (Grows-of_same E.same_img);
                  below = λ a lt.
                      E.below a (omega (arith, S.above, lt))
                      ∙ ap (λ (d : Dict ℕ). lookup a d) S.same_gold;
                  listed = E.same_launches ∙ S.listed;
                  plan = (
                    last_layer n S.p po w (kept r2 S E (sums w) (Grows-refl r2.case) (λ a lt. refl))
                        (times-IsSmall x w k (padded n) le hx.1 S.matrix.1),
                    λ a u g. elim (origin_of S E a u g) [
                      | inl before ↦ inl before
                      | inr (i, lt, at) ↦ inr (i, omega (arith, lt, sums w), at)
                    ],
                  );
                })))
    where
      sums : (w : List (List ℤ)) → length (flatten (times x w (padded n))) ≡ batch * padded n
      sums w = length-flatten-times x w (padded n) ∙ ap (λ t. t * padded n) hx.0
  layers-Ensures li px k x (n ∷ m ∷ dims) r at le hx small v =
      let here : (li + 2 == count) ≡ false = ground arith in
      rw (here, layers)
        (Ensures-bind (layer_launch-Ensures R law cfg batch slot found li px k n false r v)
          λ (w, po) r1 S.
            let (y, e, each, hy) = requant_rows-Requants x w batch k (padded n) le hx S.matrix in
            let words : length (pack_rows y) ≡ batch * padded n / 4 =
              length-pack_rows y batch (padded n) hy (padded-mod_four n) in
            let count_ints = length-ints (pack_rows y) ∙ words in
            Ensures-run _ (lift_run r1 (products-times x w batch k (padded n) hx S.matrix)) (
              Ensures-run _ (lift_run r1 e) (
                Ensures-bind
                  (expect-Ensures po (ints (pack_rows y)) _ r1 S.valid S.zeros
                    (count_ints ∙ sym (length-replicate _ (pos 0))))
                  λ _ r2 E.
                    Ensures-weaken
                      (layers-Ensures (suc li) po (padded n) y (m ∷ dims) r2 (omega arith)
                        (padded-le n small.0) hy small.1 E.valid)
                      λ _ r3 T. record {
                        launched = layer_entry batch slot li (padded n) S.p ∷ T.launched;
                        valid = T.valid;
                        grows =
                            Grows-trans S.grows (Grows-trans (Grows-of_same E.same_img) T.grows);
                        below = λ a lt.
                            T.below a (
                              omega (
                                arith,
                                lt,
                                S.grows.top_le,
                                ap (λ (img : Image). img.top) E.same_img,
                              ))
                            ∙ E.below a (omega (arith, S.above, lt))
                            ∙ ap (λ (d : Dict ℕ). lookup a d) S.same_gold;
                        listed =
                            listed_next r.case.launches (layer_entry batch slot li (padded n) S.p)
                              T.launched (E.same_launches ∙ S.listed) T.listed;
                        plan =
                            let (rest, only) =
                              subst
                                (λ s.
                                  Layers R batch slot r3.case r2.case.gold (suc li) po (padded n) y
                                    s (m ∷ dims) T.launched)
                                (E.same_rng ∙ S.rng) T.plan in
                            (
                              hidden_layer n m S.p po dims T.launched w y
                                  (kept r3 S E count_ints T.grows T.below)
                                  (times-IsSmall x w k (padded n) le hx.1 S.matrix.1) each hy rest,
                              λ a u g. elim (only a u g) [
                                | inr later ↦ inr (inr later)
                                | inl here ↦ elim (origin_of S E a u here) [
                                  | inl before ↦ inl before
                                  | inr (i, lt, at) ↦
                                      inr (inl (i, omega (arith, lt, count_ints), at))
                                ]
                              ],
                            );
                      })))
