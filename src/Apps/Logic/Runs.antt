-- ===== src/Apps/Logic/Runs.antt =====
-- A generator that ends with a result: the rules by which a proof goes through its steps.
use mathlib.Core.Path.{subst}
use simtix.Base.{◌≡◌, refl, sym, Option, none, some, Bool, true}
use simtix.Ddr.Case.{Case}
use simtix.Random.{Rng}
use simtix.Apps.Gen.{build, Run, Gen, lift, assert}

-- The run ends, with a result that satisfies `P`.
pub data Ensures {S A : Type 0} (P : A → Run S → Type 0) : Option (A × Run S) → Type 0 where
  ensures : {a : A} {r : Run S} → P a r → Ensures P (some (a, r))

module _ {S : Type 0} where
  pub Ensures-weaken :
      {A : Type 0} {P Q : A → Run S → Type 0} {o : Option (A × Run S)}
      → Ensures P o
      → ((a : A) (r : Run S) → P a r → Q a r)
      → Ensures Q o
  Ensures-weaken (ensures p) k = ensures (k _ _ p)

  pub Ensures-bind :
      {A B : Type 0} {P : A → Run S → Type 0} {Q : B → Run S → Type 0} {o : Option (A × Run S)}
      {f : A → Gen S B}
      → Ensures P o
      → ((a : A) (r : Run S) → P a r → Ensures Q (f a r))
      → Ensures Q (elim o [ none ↦ none | some (a, r') ↦ f a r' ])
  Ensures-bind (ensures p) k = k _ _ p

-- A step whose result is known, and the fallible computations that succeed.
module _ {S : Type 0} where
  pub Ensures-run :
      {A B : Type 0} {Q : B → Run S → Type 0} {o : Option (A × Run S)} {a : A} {r : Run S}
      (f : A → Gen S B)
      → ◌≡◌ {A = Option (A × Run S)} o (some (a, r))
      → Ensures Q (f a r)
      → Ensures Q (elim o [ none ↦ none | some (a, r') ↦ f a r' ])
  Ensures-run {Q} f e q =
      subst (λ o. Ensures Q (elim o [ none ↦ none | some (a, r') ↦ f a r' ])) (sym e) q

  pub lift_run :
      {A : Type 0} {o : Option A} {a : A} (r : Run S)
      → o ≡ some a
      → ◌≡◌ {A = Option (A × Run S)} (lift o r) (some (a, r))
  unfolding lift
  lift_run r h = rw (h, lift) refl

  pub assert_run :
      {b : Bool} (r : Run S)
      → b ≡ true
      → ◌≡◌ {A = Option (Unit {0} × Run S)} (assert b r) (some (tt, r))
  unfolding assert
  assert_run r h = rw (h, assert) refl

module _ (R : Rng) where
  pub build-Ensures :
      {P : Unit {0} → Run R.State → Type 0} (g : Gen R.State (Unit {0})) (c : Case) (s : R.State)
      → Ensures P (g (record { case = c; rng = s }))
      → (c' : Case) × (s' : R.State) × (build R g c s ≡ some (c', s'))
        × P tt (record { case = c'; rng = s' })
  build-Ensures {P} g c s p = go (g (record { case = c; rng = s })) p
    where
      go :
          (o : Option (Unit {0} × Run R.State))
          → Ensures P o
          → (c' : Case) × (s' : R.State) × ◌≡◌ {A = Option (Case × R.State)}
              (elim o [ none ↦ none | some (_, r) ↦ some (r.case, r.rng) ])
              (some (c', s'))
            × P tt (record { case = c'; rng = s' })
      go none q = elim q [ ]
      go (some (u, r)) (ensures q) = (r.case, r.rng, refl, q)
