-- ===== src/Apps/Zbtest/Result.antt =====
-- What the case of zbtest holds, for any random source.
use mathlib.Core.List.{List, [], ◌∷◌}
use simtix.Base.{ℕ, ◌*◌, ◌≡◌, some, length, arith, ◌∙◌, refl, length-replicate, replicate, none}
use simtix.Base.Int.{ints, pos}
use simtix.Kernels.{Kernel, slot_of}
use simtix.Ddr.Case.{Case, tag, new_case}
use simtix.Random.{Rng}
use simtix.Apps.Gen.{Config, draw, draws}
use simtix.Apps.Logic.{
  Holds, IsValid, Grows-trans, Holds-Grows, Ensures-bind, alloc_words-Ensures, launch-Ensures,
  ChecksOnly, finish-Ensures, Ensures-weaken, RunsOnce, new_case-IsValid, length-draws, length-ints,
  build-Ensures,
}
use simtix.Apps.Zbtest.{operand, results, all_results, zbtest_body, zbtest}

length-all_results :
    (as' bs : List ℕ) → length as' ≡ length bs → length (all_results as' bs) ≡ 9 * length as'
unfolding all_results results
length-all_results [] [] h = refl
length-all_results [] (b ∷ bs) h = omega arith
length-all_results (a ∷ as') [] h = omega arith
length-all_results (a ∷ as') (b ∷ bs) h = omega (arith, length-all_results as' bs (omega arith))

module _ (R : Rng) where
  -- The operands that the source gives from a state.
  abbrev pub firsts : ℕ → R.State → List ℕ
  firsts n s = (draws n (operand R) s).0

  abbrev pub seconds : ℕ → R.State → List ℕ
  seconds n s = (draws n (operand R) (draws n (operand R) s).1).0

-- A case that tests the pairs of `as'` and `bs`.
pub record IsZbtest (c : Case) (slot n : ℕ) (as' bs : List ℕ) : Type 0 where
  pub pa : ℕ
  pub pb : ℕ
  pub pr : ℕ
  pub valid : IsValid c
  pub once : RunsOnce c (tag "zbtest") slot (ints (pa ∷ pb ∷ pr ∷ [])) n 0
  pub first : Holds c pa (ints as')
  pub second : Holds c pb (ints bs)
  pub zeroed : Holds c pr (replicate (9 * n) (pos 0))
  pub checked : ChecksOnly c pr (ints (all_results as' bs))

-- Where the kernel has a slot, `zbtest` gives a case for every source, from every state: it is well formed, it launches the
-- kernel once on n threads, over the operands drawn, and expects their results.
pub zbtest-IsZbtest :
    (R : Rng) (cfg : Config) (n slot : ℕ) (s : R.State)
    → slot_of cfg.slots Kernel.zbtest ≡ some slot
    → (c : Case) × (s' : R.State) × (zbtest R cfg n s ≡ some (c, s'))
      × IsZbtest c slot n (firsts R n s) (seconds R n s)
unfolding zbtest zbtest_body draw
zbtest-IsZbtest R cfg n slot s found =
    build-Ensures R {P = λ _ r. IsZbtest r.case slot n as' bs} (zbtest_body R cfg n)
      (new_case "zbtest" (n ∷ [])) s
      (Ensures-bind
        (alloc_words-Ensures n (some (ints as')) _ (new_case-IsValid _ _)
          (length-ints as' ∙ length-draws n (operand R) s))
        λ pa r1 A.
          Ensures-bind
            (alloc_words-Ensures n (some (ints bs)) _ A.valid
              (length-ints bs ∙ length-draws n (operand R) _))
            λ pb r2 B.
              Ensures-bind (alloc_words-Ensures (9 * n) none _ B.valid (length-replicate _ _))
                λ pr r3 C.
                  Ensures-bind
                    (launch-Ensures cfg (tag "zbtest") Kernel.zbtest _ n 0 slot r3 C.valid found)
                    λ _ _ L.
                      Ensures-weaken
                        (finish-Ensures pr _ _ L
                          (C.same_launches ∙ B.same_launches ∙ A.same_launches)
                          (C.same_gold ∙ B.same_gold ∙ A.same_gold) C.holds len)
                        λ _ r4 F. record {
                          pa = pa;
                          pb = pb;
                          pr = pr;
                          valid = F.valid;
                          once = F.once;
                          first =
                              Holds-Grows pa (ints as') A.holds
                                (Grows-trans B.grows (Grows-trans C.grows F.grows));
                          second = Holds-Grows pb (ints bs) B.holds (Grows-trans C.grows F.grows);
                          zeroed = Holds-Grows pr _ C.holds F.grows;
                          checked = F.checks;
                        })
  where
    as' : List ℕ
    as' = firsts R n s

    bs : List ℕ
    bs = seconds R n s

    len : length (ints (all_results as' bs)) ≡ length (replicate (9 * n) (pos 0))
    len = omega (
      arith,
      length-ints (all_results as' bs),
      length-replicate (9 * n) (pos 0),
      length-all_results as' bs (
          omega (
            arith,
            length-draws n (operand R) s,
            length-draws n (operand R) (draws n (operand R) s).1,
          )),
      length-draws n (operand R) s,
    )
