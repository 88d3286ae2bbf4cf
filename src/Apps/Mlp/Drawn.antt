-- ===== src/Apps/Mlp/Drawn.antt =====
-- The inputs and the weights that mlp in sim/gen_apps.py draws.
use simtix.Base.{
  ℕ, zero, suc, ◌≤◌, ◌<◌, ◌≡◌, refl, ap, arith, List, [], ◌∷◌, ltb, Bool-cases, inl, inr,
}
use simtix.Base.Int.{ℤ, pos, ◌-ℤ◌}
use simtix.Random.{Rng, IsRandom}
use simtix.Apps.Gen.{draws}
use simtix.Apps.Logic.{length-draws}
use simtix.Apps.Mlp.Layers.{inputs, weight, weight_row}
use simtix.Apps.Mlp.Matrix.{All, IsRow, IsMatrix, IsInput, IsWeight}

module _ {S A : Type 0} (P : A → Type 0) (op : S → A × S) (each : (s : S) → P (op s).0) where
  draws-All : (n : ℕ) (s : S) → All P (draws n op s).0
  unfolding draws
  draws-All zero s = tt
  draws-All (suc n) s = (each s, draws-All n (op s).1)

-- The columns from n on hold zeros; the row starts with column `col`.
abbrev pub PaddedFrom : ℕ → ℕ → List ℤ → Type 0
PaddedFrom col n [] = Unit
PaddedFrom col n (v ∷ row) = (n ≤ col → v ≡ pos 0) × PaddedFrom (suc col) n row

shifted : (a : ℕ) → a < 128 → IsWeight (pos a -ℤ pos 64)
unfolding ◌-ℤ◌
shifted a h = (ground arith, ground arith)

module _ (R : Rng) (law : IsRandom R) where
  inputs-IsRow : (k : ℕ) (s : R.State) → IsRow IsInput k (inputs R k s).0
  unfolding inputs draws
  inputs-IsRow zero s = (refl, tt)
  inputs-IsRow (suc k) s =
      let (len, h) = inputs-IsRow k (R.randrange 128 s).1 in
      (ap suc len, ((refl, omega (arith, law.randrange-lt 128 s (omega arith))), h))

  pub inputs-IsMatrix :
      (batch k : ℕ) (s : R.State) → IsMatrix IsInput batch k (draws batch (inputs R k) s).0
  inputs-IsMatrix batch k s = (
    length-draws batch (inputs R k) s,
    draws-All (IsRow IsInput k) (inputs R k) (inputs-IsRow k) batch s,
  )

  weight-IsWeight :
      (n col : ℕ) (s : R.State)
      → IsWeight (weight R n col s).0 × (n ≤ col → (weight R n col s).0 ≡ pos 0)
  unfolding weight
  weight-IsWeight n col s = elim (Bool-cases (ltb col n)) [
    | inl inside ↦
        let low : IsWeight (pos (R.randrange 128 s).0 -ℤ pos 64) =
          shifted (R.randrange 128 s).0 (law.randrange-lt 128 s (omega arith)) in
        rw (inside, weight) (low, λ le. absurd (ground arith))
    | inr padding ↦ rw (padding, weight) ((omega arith, omega arith), λ le. refl)
  ]

  weight_row-IsRow :
      (n col m : ℕ) (s : R.State)
      → IsRow IsWeight m (weight_row R n col m s).0 × PaddedFrom col n (weight_row R n col m s).0
  unfolding weight_row
  weight_row-IsRow n col zero s = ((refl, tt), tt)
  weight_row-IsRow n col (suc m) s =
      let (w, z) = weight-IsWeight n col s in
      let ((len, h), zs) = weight_row-IsRow n (suc col) m (weight R n col s).1 in
      ((ap suc len, (w, h)), (z, zs))

  pub weights-IsMatrix :
      (k n npad : ℕ) (s : R.State)
      → IsMatrix IsWeight k npad (draws k (weight_row R n 0 npad) s).0
        × All (PaddedFrom 0 n) (draws k (weight_row R n 0 npad) s).0
  weights-IsMatrix k n npad s = (
    (
      length-draws k (weight_row R n 0 npad) s,
      draws-All (IsRow IsWeight npad) (weight_row R n 0 npad) (λ t. (weight_row-IsRow n 0 npad t).0)
          k s,
    ),
    draws-All (PaddedFrom 0 n) (weight_row R n 0 npad) (λ t. (weight_row-IsRow n 0 npad t).1) k s,
  )
