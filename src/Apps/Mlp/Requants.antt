-- ===== src/Apps/Mlp/Requants.antt =====
-- The rows that the next layer of mlp in sim/gen_apps.py reads.
use simtix.Base.{
  ℕ, zero, suc, ◌+◌, ◌^◌, ◌≤◌, ◌<◌, ◌≡◌, refl, ap, ◌∙◌, arith, List, [], ◌∷◌, map, some, length,
  length-map, range_from, length-range_from,
}
use simtix.Base.Int.{ℤ, pos, ints}
use simtix.Fp.{magnitude}
use simtix.Apps.Gen.{traverse}
use simtix.Apps.Quant.{requant}
use simtix.Apps.Quant.Requant.{IsRequant, requant-IsRequant}
use simtix.Apps.Mlp.{scale, zp, requant_rows}
use simtix.Apps.Mlp.Matrix.{
  All, IsRow, IsMatrix, IsInput, IsWeight, row_times, times, magnitude-row_times,
}

abbrev pub Each : {A B : Type 0} → (A → B → Type 0) → List A → List B → Type 0
Each R [] [] = Unit
Each R [] (y ∷ ys) = ⊥
Each R (x ∷ xs) [] = ⊥
Each R (x ∷ xs) (y ∷ ys) = R x y × Each R xs ys

-- v is the sum a, requantised.
abbrev pub Requants : ℤ → ℤ → Type 0
Requants a v = (q : ℕ) × (v ≡ pos q) × IsRequant a scale zp q

-- A 32-bit sum.
abbrev pub IsSmall : ℤ → Type 0
IsSmall a = magnitude a < 2 ^ 31

requant-IsRow :
    (row : List ℤ)
    → All IsSmall row
    → (qs : List ℕ) × (traverse (λ a. requant a scale zp) row ≡ some qs)
      × Each Requants row (ints qs)
      × IsRow IsInput (length row) (ints qs)
unfolding traverse
requant-IsRow [] h = ([], refl, tt, (refl, tt))
requant-IsRow (a ∷ row) (small, h) =
    let (q, e, p) = requant-IsRequant a scale zp (omega arith) (omega arith) (omega arith) in
    let (qs, es, each, (len, inputs)) = requant-IsRow row h in
    (
      q ∷ qs,
      rw (e, es, traverse) refl,
      ((q, refl, p), each),
      (ap suc len, ((refl, p.at_most), inputs)),
    )

requant-IsMatrix :
    (acc : List (List ℤ)) (n : ℕ)
    → All (IsRow IsSmall n) acc
    → (x : List (List ℤ)) × (requant_rows acc ≡ some x)
      × Each (Each Requants) acc x
      × IsMatrix IsInput (length acc) n x
unfolding requant_rows traverse
requant-IsMatrix [] n h = ([], refl, tt, (refl, tt))
requant-IsMatrix (row ∷ acc) n ((width, small), h) =
    let (qs, e, each, (len, inputs)) = requant-IsRow row small in
    let (x, es, rest, (count, rows)) = requant-IsMatrix acc n h in
    (
      ints qs ∷ x,
      rw (e, es, requant_rows, traverse) refl,
      (each, rest),
      (ap suc count, ((len ∙ width, inputs), rows)),
    )

All-range :
    (P : ℤ → Type 0) (f : ℕ → ℤ) (lo n top : ℕ)
    → lo + n ≤ top
    → ((i : ℕ) → i < top → P (f i))
    → All P (map f (range_from lo n))
All-range P f lo zero top le h = tt
All-range P f lo (suc n) top le h =
    (h lo (omega arith), All-range P f (suc lo) n top (omega arith) h)

pub times-IsSmall :
    (x w : List (List ℤ)) (k n : ℕ)
    → k ≤ 2 ^ 18
    → All (IsRow IsInput k) x
    → All (IsRow IsWeight n) w
    → All (IsRow IsSmall n) (times x w n)
times-IsSmall [] w k n le h g = tt
times-IsSmall (row ∷ x) w k n le ((len, inputs), h) g = (
  (
    length-map (row_times row w) (range_from 0 n) ∙ length-range_from 0 n,
    All-range IsSmall (row_times row w) 0 n n (omega arith)
        λ col lt. omega (arith, magnitude-row_times row w col n inputs g lt),
  ),
  times-IsSmall x w k n le h g,
)

-- Products of at most 2^18 terms do not overflow: every sum is requantised, and the results are
-- inputs of the next layer.
pub requant_rows-Requants :
    (x w : List (List ℤ)) (m k n : ℕ)
    → k ≤ 2 ^ 18
    → IsMatrix IsInput m k x
    → IsMatrix IsWeight k n w
    → (y : List (List ℤ)) × (requant_rows (times x w n) ≡ some y)
      × Each (Each Requants) (times x w n) y
      × IsMatrix IsInput m n y
requant_rows-Requants x w m k n le (lx, hx) (lw, hw) =
    let (y, e, each, (count, rows)) =
      requant-IsMatrix (times x w n) n (times-IsSmall x w k n le hx hw) in
    (y, e, each, (count ∙ length-map (λ row. map (row_times row w) (range_from 0 n)) x ∙ lx, rows))
