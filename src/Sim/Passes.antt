-- ===== src/Sim/Passes.antt =====
-- When a test of sim/run_xsim.py passes, and what the exit status tells.
use simtix.Base.{
  ℕ, List, [], ◌∷◌, ◌++◌, none, some, inl, inr, ◌⊎◌, Bool, true, false, ◌&&◌, Bool-cases,
  Option-cases, ◌≡◌, ◌↔◌, refl, sym, ap, ◌∙◌, arith, ◌==◌, ==→eq, if◌then◌else◌,
}
use simtix.Base.Text.{Text, codes, contains, strip}
use simtix.Sim.Launches.{Every}
use simtix.Sim.Xsim.Table.{TestSpec}
use simtix.Sim.Xsim.{
  Step, Machine, failing, log_passes, splitlines, has_verdict, last_verdict, run_test, find_test,
  unknown, has_list, fails_of, chosen, main_status, status_of,
}

-- Every step succeeds, or there is a first one that fails.
failing_lem :
    (run : Step → ℕ) (steps : List Step)
    → ((failing run steps ≡ none) × Every (λ s. run s ≡ 0) steps)
      ⊎ ((s : Step) × (pre post : List Step) × (failing run steps ≡ some s)
          × (steps ≡ pre ++ s ∷ post)
          × Every (λ t. run t ≡ 0) pre
          × ((run s == 0) ≡ false))
unfolding failing
failing_lem run [] = inl (refl, tt)
failing_lem run (s ∷ steps) = elim (Bool-cases (run s == 0)) [
  | inr bad ↦ inr (s, [], steps, rw bad refl, refl, tt, bad)
  | inl good ↦ elim (failing_lem run steps) [
    | inl h ↦ inl (rw good h.0, (==→eq (run s) 0 good, h.1))
    | inr (t, pre, post, f, e, p, b) ↦
        inr (t, s ∷ pre, post, rw good f, ap (λ l. s ∷ l) e, (==→eq (run s) 0 good, p), b)
  ]
]

-- The message is the last line with PASS or FAIL, without the spaces around it, or says that there is
-- no such line.
abbrev pub IsMessage : List Text → Text → Type 0
IsMessage lines message =
    (Every (λ l. has_verdict l ≡ false) lines × (message ≡ codes "no PASS/FAIL line"))
    ⊎ ((pre : List Text) × (l : Text) × (post : List Text) × (lines ≡ pre ++ l ∷ post)
        × (has_verdict l ≡ true)
        × Every (λ k. has_verdict k ≡ false) post
        × (message ≡ strip l))

last_verdict_lem :
    (so_far : Text) (lines : List Text)
    → (Every (λ l. has_verdict l ≡ false) lines × (last_verdict so_far lines ≡ so_far))
      ⊎ ((pre : List Text) × (l : Text) × (post : List Text) × (lines ≡ pre ++ l ∷ post)
          × (has_verdict l ≡ true)
          × Every (λ k. has_verdict k ≡ false) post
          × (last_verdict so_far lines ≡ strip l))
last_verdict_lem so_far [] = inl (tt, refl)
last_verdict_lem so_far (l ∷ lines) = elim (Bool-cases (has_verdict l)) [
  | inl here ↦ elim (last_verdict_lem (strip l) lines) [
    | inl (clean, e) ↦ inr ([], l, lines, refl, here, clean, step here ∙ e)
    | inr (pre, k, post, at, has, clean, e) ↦
        inr (l ∷ pre, k, post, ap (λ ls. l ∷ ls) at, has, clean, step here ∙ e)
  ]
  | inr off ↦ elim (last_verdict_lem so_far lines) [
    | inl (clean, e) ↦ inl ((off, clean), step off ∙ e)
    | inr (pre, k, post, at, has, clean, e) ↦
        inr (l ∷ pre, k, post, ap (λ ls. l ∷ ls) at, has, clean, step off ∙ e)
  ]
]
  where
    step :
        {b : Bool}
        → has_verdict l ≡ b
        → last_verdict so_far (l ∷ lines) ≡ last_verdict (if b then strip l else so_far) lines
    step e = ap (λ b. last_verdict (if b then strip l else so_far) lines) e

-- For every name of a test, machine and list of steps: either all steps return 0, and the test passes
-- exactly if the log has PASS and neither FAIL nor Fatal, as the code has it (the docstring of
-- run_xsim.py does not name Fatal), with the last line that has PASS or FAIL as the message, or a
-- message that there is none; or one of them does not, all before it do, and the test fails with a
-- message of its tag and the path of its log.
pub run_test_lem :
    (name : Text) (m : Machine) (steps : List Step)
    → (Every (λ s. m.run s ≡ 0) steps
        × ((run_test name m steps).0 ≡ true
            ↔ (contains (codes "PASS") m.log ≡ true)
              × (contains (codes "FAIL") m.log ≡ false)
              × (contains (codes "Fatal") m.log ≡ false))
        × IsMessage (splitlines m.log) (run_test name m steps).1)
      ⊎ ((s : Step) × (pre post : List Step) × (steps ≡ pre ++ s ∷ post)
          × Every (λ t. m.run t ≡ 0) pre
          × ((m.run s == 0) ≡ false)
          × (run_test name m steps ≡ (
            false,
            s.tag
                ++ codes " failed (see build_xsim/"
                ++ name
                ++ codes "/"
                ++ s.tag
                ++ codes ".log)",
          )))
unfolding run_test
run_test_lem name m steps = elim (failing_lem m.run steps) [
  | inl h ↦
      let passes : (run_test name m steps).0 ≡ log_passes m.log = rw (h.0, run_test) refl in
      inl (
        h.1,
        (λ e. three_tests _ _ _ (sym passes ∙ e), λ (a, b, c). passes ∙ all_three _ _ _ a b c),
        rw (h.0, run_test) (last_verdict_lem (codes "no PASS/FAIL line") (splitlines m.log)),
      )
  | inr (s, pre, post, f, e, p, b) ↦ inr (s, pre, post, e, p, b, rw (f, run_test) refl)
]
  where
    three_tests :
        (a b c : Bool)
        → (a && (if b then false else true) && (if c then false else true)) ≡ true
        → (a ≡ true) × (b ≡ false) × (c ≡ false)
    three_tests true false false e = (refl, refl, refl)
    three_tests true false true e = cc
    three_tests true true c e = cc
    three_tests false b c e = cc

    all_three :
        (a b c : Bool)
        → a ≡ true
        → b ≡ false
        → c ≡ false
        → (a && (if b then false else true) && (if c then false else true)) ≡ true
    all_three a b c x y z = rw (x, y, z) refl

-- The test is in the table, and it passes.
abbrev pub IsPassing : List (Text × TestSpec) → (Text → Bool) → Text → Type 0
IsPassing tests passes n = ((t : TestSpec) × (find_test n tests ≡ some t)) × (passes n ≡ true)

skip_known :
    (tests : List (Text × TestSpec)) (n : Text) (names : List Text) (t : TestSpec)
    → find_test n tests ≡ some t
    → unknown tests (n ∷ names) ≡ unknown tests names
skip_known tests n names t e =
    ap
      (λ o. elim o as (λ _. List Text) [
        | none ↦ n ∷ unknown tests names
        | some u ↦ unknown tests names
      ])
      e

keep_unknown :
    (tests : List (Text × TestSpec)) (n : Text) (names : List Text)
    → find_test n tests ≡ none
    → unknown tests (n ∷ names) ≡ n ∷ unknown tests names
keep_unknown tests n names e =
    ap
      (λ o. elim o as (λ _. List Text) [
        | none ↦ n ∷ unknown tests names
        | some u ↦ unknown tests names
      ])
      e

no_unknown_no_fail :
    (tests : List (Text × TestSpec)) (passes : Text → Bool) (names : List Text)
    → unknown tests names ≡ []
    → fails_of passes names ≡ 0
    → Every (IsPassing tests passes) names
unfolding fails_of
no_unknown_no_fail tests passes [] u f = tt
no_unknown_no_fail tests passes (n ∷ names) u f = elim (Option-cases (find_test n tests)) [
  | inl absent ↦ absurd (no_cons (sym (keep_unknown tests n names absent) ∙ u))
  | inr (t, e) ↦ elim (Bool-cases (passes n)) [
    | inl good ↦
        let rest = no_unknown_no_fail tests passes names (sym (skip_known tests n names t e) ∙ u) in
        let f' : fails_of passes names ≡ 0 = ground (arith, f, good) in (((t, e), good), rest f')
    | inr bad ↦ absurd (ground (arith, f, bad))
  ]
]
  where
    no_cons : {A : Type 0} {x : A} {xs : List A} → x ∷ xs ≡ [] → ⊥
    no_cons h = cc

none_failing :
    (tests : List (Text × TestSpec)) (passes : Text → Bool) (names : List Text)
    → Every (IsPassing tests passes) names
    → (unknown tests names ≡ []) × (fails_of passes names ≡ 0)
unfolding fails_of
none_failing tests passes [] h = (refl, refl)
none_failing tests passes (n ∷ names) h =
    let ((t, e), good) = h.0 in
    let (u, f) = none_failing tests passes names h.1 in
    (skip_known tests n names t e ∙ u, ground (arith, good, f))

-- For every table, outcome of the tests and command line without --list: the exit status of main is 0
-- exactly if each of the chosen tests is in the table and passes.
pub main_status_lem :
    (tests : List (Text × TestSpec)) (passes : Text → Bool) (argv : List Text)
    → has_list argv ≡ false
    → (main_status tests passes argv ≡ 0) ↔ Every (IsPassing tests passes) (chosen tests argv)
unfolding main_status
main_status_lem tests passes argv no_list =
    let names = chosen tests argv in
    let same : main_status tests passes argv
        ≡ status_of (unknown tests names) (fails_of passes names) =
      rw (no_list, main_status) refl in
    (
      λ e. let (u, f) = status_zero _ _ (sym same ∙ e) in no_unknown_no_fail tests passes names u f,
      λ h. let (u, f) = none_failing tests passes names h in same ∙ rw (u, f) refl,
    )
  where
    status_zero : (us : List Text) (f : ℕ) → status_of us f ≡ 0 → (us ≡ []) × (f ≡ 0)
    status_zero [] f e = (refl, ground (arith, e))
    status_zero (n ∷ us) f e = absurd (omega (arith, e))
