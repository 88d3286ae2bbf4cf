-- ===== src/Apps/Scanseg/Result.antt =====
-- What the case of scanseg holds.
use mathlib.Core.Path.{subst}
use simtix.Base.{
  ℕ, suc, ◌%◌, ◌^◌, ◌≤◌, ◌<◌, ◌≡◌, sym, ap, ◌∙◌, arith, List, [], ◌∷◌, ◌++◌, some, length,
  length-replicate, replicate,
}
use simtix.Base.Int.{pos, ints}
use simtix.Kernels.{Kernel, slot_of}
use simtix.Ddr.Case.{Case, Launch, new_case}
use simtix.Random.{Rng}
use simtix.Apps.Gen.{Config, draw, draws}
use simtix.Apps.Logic.{
  Holds, IsValid, Grows-trans, Grows-of_same, Holds-Grows, Ensures-bind, Ensures-weaken,
  alloc_words-Ensures, expect-Ensures, new_case-IsValid, length-draws, length-ints, build-Ensures,
}
use simtix.Apps.Scan.Prefix.{ExpectsPrefixes, Expects-ExpectsPrefixes, length-prefix_sums}
use simtix.Apps.Scan.{prefix_sums}
use simtix.Apps.Scanseg.Levels.{SegmentsBy, SegmentsBy-Grows, seg_level-Ensures}
use simtix.Apps.Scanseg.{scanseg_body, scanseg}

-- A case that scans `vals` by segments.
pub record IsScanseg (c : Case) (lanes rows slot slot_add n : ℕ) (vals : List ℕ) : Type 0 where
  pub src : ℕ
  pub out : ℕ
  pub last : ℕ
  pub valid : IsValid c
  pub plan : SegmentsBy c lanes rows slot slot_add src n 0 c.launches out last
  pub input : Holds c src (ints vals)
  pub expected : ExpectsPrefixes c out vals

-- For every source, at least two lanes, at least one row, and n a positive multiple of the lanes,
-- `scanseg` gives a case, so the halving of the rows and the levels end: the case is well formed, its
-- launches scan the n values drawn level by level in segments that divide each level's words, and it
-- expects their prefix sums modulo 2^32. Both kernels have slots.
pub scanseg-IsScanseg :
    (R : Rng) (cfg : Config) (rows n slot slot_add : ℕ) (s : R.State)
    → 2 ≤ cfg.lanes
    → 0 < rows
    → cfg.lanes ≤ n
    → n % cfg.lanes ≡ 0
    → slot_of cfg.slots Kernel.scan_seg ≡ some slot
    → slot_of cfg.slots Kernel.scan_segadd ≡ some slot_add
    → (c : Case) × (s' : R.State) × (scanseg R cfg rows n s ≡ some (c, s'))
      × IsScanseg c cfg.lanes rows slot slot_add n (draws n (R.randrange (2 ^ 16)) s).0
unfolding scanseg scanseg_body draw
scanseg-IsScanseg R cfg rows n slot slot_add s lanes more full whole found found_add =
    build-Ensures R {P = λ _ r. IsScanseg r.case cfg.lanes rows slot slot_add n vals}
      (scanseg_body R cfg rows n) (new_case "scanseg" (n ∷ [])) s
      (Ensures-bind
        (alloc_words-Ensures n (some (ints vals)) _ (new_case-IsValid _ _) (length-ints vals ∙ lv))
        λ src r1 A.
          Ensures-bind
            (seg_level-Ensures R cfg rows slot slot_add lanes more found found_add (suc n) src n 0
              r1 (omega arith) full whole A.valid)
            λ (out, last) r2 S.
              Ensures-weaken
                (expect-Ensures out (ints (prefix_sums 0 vals)) (replicate n (pos 0)) r2 S.valid
                  S.zeroed len)
                λ _ r3 E.
                  let same = Grows-of_same {c = r2.case} {d = r3.case} E.same_img in
                  record {
                    src = src;
                    out = out;
                    last = last;
                    valid = E.valid;
                    plan =
                        subst
                          (λ l. SegmentsBy r3.case cfg.lanes rows slot slot_add src n 0 l out last)
                          (sym (
                            E.same_launches
                            ∙ S.listed
                            ∙ ap (λ (l : List Launch). l ++ S.launched) A.same_launches))
                          (SegmentsBy-Grows S.plan same);
                    input = Holds-Grows src (ints vals) A.holds (Grows-trans S.grows same);
                    expected = Expects-ExpectsPrefixes r3.case out vals E.expects;
                  })
  where
    vals : List ℕ
    vals = (draws n (R.randrange (2 ^ 16)) s).0

    lv : length vals ≡ n
    lv = length-draws n (R.randrange (2 ^ 16)) s

    len : length (ints (prefix_sums 0 vals)) ≡ length (replicate n (pos 0))
    len =
        length-ints (prefix_sums 0 vals)
        ∙ length-prefix_sums 0 vals
        ∙ lv
        ∙ sym (length-replicate n (pos 0))
