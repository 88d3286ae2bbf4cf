-- ===== src/Apps/Scan/Result.antt =====
-- What the case of scan holds.
use mathlib.Core.Path.{subst}
use simtix.Base.{
  ℕ, suc, ◌%◌, ◌^◌, ◌<◌, ◌≡◌, sym, ap, ◌∙◌, arith, List, [], ◌∷◌, ◌++◌, some, length,
  length-replicate, replicate,
}
use simtix.Base.Int.{pos, ints}
use simtix.Kernels.{Kernel, slot_of}
use simtix.Ddr.Case.{Case, Launch, new_case}
use simtix.Random.{Rng}
use simtix.Apps.Gen.{Config, draw, draws}
use simtix.Apps.Logic.{
  Holds, IsValid, Grows-trans, Grows-of_same, Holds-Grows, Ensures-bind, Ensures-run,
  Ensures-weaken, assert_run, alloc_words-Ensures, expect-Ensures, new_case-IsValid, length-draws,
  length-ints, build-Ensures,
}
use simtix.Apps.Scan.Prefix.{ExpectsPrefixes, Expects-ExpectsPrefixes, length-prefix_sums}
use simtix.Apps.Scan.Levels.{ScansBy, ScansBy-Grows, level-Ensures}
use simtix.Apps.Scan.{prefix_sums, block, scan_body, scan}

-- A case that scans `vals`.
pub record IsScan (c : Case) (b slot slot_add n : ℕ) (vals : List ℕ) : Type 0 where
  pub src : ℕ
  pub out : ℕ
  pub last : ℕ
  pub valid : IsValid c
  pub plan : ScansBy c b slot slot_add src n 0 c.launches out last
  pub input : Holds c src (ints vals)
  pub expected : ExpectsPrefixes c out vals

-- For every source and every multiple n of the block, `scan` gives a case, the levels end: the case is
-- well formed, its launches scan the n values drawn level by level, and it expects their prefix sums
-- modulo 2^32. There is at least one lane, and both kernels have slots.
pub scan-IsScan :
    (R : Rng) (cfg : Config) (n slot slot_add : ℕ) (s : R.State)
    → 0 < cfg.lanes
    → n % block cfg ≡ 0
    → slot_of cfg.slots Kernel.scan ≡ some slot
    → slot_of cfg.slots Kernel.scan_add ≡ some slot_add
    → (c : Case) × (s' : R.State) × (scan R cfg n s ≡ some (c, s'))
      × IsScan c (block cfg) slot slot_add n (draws n (R.randrange (2 ^ 16)) s).0
unfolding scan scan_body draw
scan-IsScan R cfg n slot slot_add s lanes whole found found_add =
    build-Ensures R {P = λ _ r. IsScan r.case (block cfg) slot slot_add n vals} (scan_body R cfg n)
      (new_case "scan" (n ∷ [])) s
      (Ensures-run _ (assert_run _ (ground (arith, whole))) (
        Ensures-bind
          (alloc_words-Ensures n (some (ints vals)) _ (new_case-IsValid _ _)
            (length-ints vals ∙ lv))
          λ src r1 A.
            Ensures-bind
              (level-Ensures R cfg slot slot_add lanes found found_add (suc n) src n 0 r1
                (omega arith) A.valid)
              λ (out, last) r2 S.
                Ensures-weaken
                  (expect-Ensures out (ints (prefix_sums 0 vals)) (replicate n (pos 0)) r2 S.valid
                    S.zeroed len)
                  λ _ r3 E.
                    let same = Grows-of_same {c = r2.case} {d = r3.case} E.same_img in
                    record {
                      src = src;
                      out = out;
                      last = last;
                      valid = E.valid;
                      plan =
                          subst (λ l. ScansBy r3.case (block cfg) slot slot_add src n 0 l out last)
                            (sym (
                              E.same_launches
                              ∙ S.listed
                              ∙ ap (λ (l : List Launch). l ++ S.launched) A.same_launches))
                            (ScansBy-Grows S.plan same);
                      input = Holds-Grows src (ints vals) A.holds (Grows-trans S.grows same);
                      expected = Expects-ExpectsPrefixes r3.case out vals E.expects;
                    }))
  where
    vals : List ℕ
    vals = (draws n (R.randrange (2 ^ 16)) s).0

    lv : length vals ≡ n
    lv = length-draws n (R.randrange (2 ^ 16)) s

    len : length (ints (prefix_sums 0 vals)) ≡ length (replicate n (pos 0))
    len =
        length-ints (prefix_sums 0 vals)
        ∙ length-prefix_sums 0 vals
        ∙ lv
        ∙ sym (length-replicate n (pos 0))
