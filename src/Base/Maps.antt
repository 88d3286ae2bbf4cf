-- ===== src/Base/Maps.antt =====
-- A Python dict with number keys, as an association list in insertion order.
use Prim.Native.Nat.{ℕ}
use mathlib.Core.Path.{◌≡◌}
use mathlib.Core.List.{List, [], ◌∷◌}
use mathlib.Core.Option.{Option, none, some}
use native.Mathlib.Omega.{arith}
use mathlib.Core.Logic.{inl, inr}
use simtix.Base.Tests.{◌==◌, if◌then◌else◌, Bool-cases}
use simtix.Base.Lists.{◌∈◌}

abbrev pub Dict {ℓ} : Type ℓ → Type ℓ
Dict V = List (ℕ × V)

module _ {ℓ} {V : Type ℓ} where
  abbrev pub lookup : ℕ → Dict V → Option V
  lookup k [] = none
  lookup k ((j, v) ∷ d) = if k == j then some v else lookup k d

  -- `d[k] = v`: a key that is there keeps its place.
  abbrev pub insert : ℕ → V → Dict V → Dict V
  insert k v [] = (k, v) ∷ []
  insert k v (e ∷ d) = if k == e.0 then (k, v) ∷ d else e ∷ insert k v d

  -- The keys, in the order of a `for` loop over the dict.
  abbrev pub keys : Dict V → List ℕ
  keys [] = []
  keys ((k, _) ∷ d) = k ∷ keys d

  pub lookup-insert :
      (j k : ℕ) (v : V) (d : Dict V)
      → lookup j (insert k v d) ≡ (if j == k then some v else lookup j d)
  lookup-insert j k v [] = ground arith
  lookup-insert j k v (e ∷ d) = ground (arith, lookup-insert j k v d)

module _ {ℓ} {V : Type ℓ} where
  pub mem-keys : (a : ℕ) (v : V) (d : Dict V) → lookup a d ≡ some v → a ∈ keys d
  mem-keys a v [] h = cc
  mem-keys a v ((k, u) ∷ d) h = ground (arith, mem-keys a v d)

  pub keys-lookup : (a : ℕ) (d : Dict V) → a ∈ keys d → (v : V) × (lookup a d ≡ some v)
  keys-lookup a [] h = absurd h
  keys-lookup a ((k, u) ∷ d) h = elim (Bool-cases (a == k)) [
    | inl same ↦ (u, rw same)
    | inr other ↦ let (v, e) = keys-lookup a d (ground arith) in (v, rw other e)
  ]
