-- ===== src/Apps/Mlp.antt =====
-- The arithmetic of the INT8 multilayer perceptron of sim/gen_apps.py (mlp).
pub mod Layers
pub mod Drawn
pub mod Matrix
pub mod Packed
pub mod Plan
pub mod Layered
pub mod Requants
pub mod Result
pub mod Started
use mathlib.Core.List.{flatten}
use simtix.Base.{
  ℕ, ◌+◌, ◌-◌, ◌*◌, ◌^◌, List, [], ◌∷◌, map, Option, some, ltb, if◌then◌else◌, get_elem?,
  range_from,
}
use simtix.Base.Int.{ℤ, pos, ◌+ℤ◌, ◌*ℤ◌, ints}
use simtix.Base.Partial.{◌>>=◌}
use simtix.Base.Pow.{bit_length}
use simtix.Apps.Gen.{traverse}
use simtix.Apps.Quant.{pack8, requant}

-- The words of 2^-10 and of 3.0
abbrev pub scale : ℕ
scale = 0x3a80_0000

abbrev pub zp : ℕ
zp = 0x4040_0000

-- `max(8, 1 << (n - 1).bit_length())`
unfoldable pub padded : ℕ → ℕ
padded n = let p = 2 ^ bit_length (n - 1) in if ltb 8 p then p else 8

-- m[r][col]
unfoldable pub item : List (List ℤ) → ℕ → ℕ → Option ℤ
item m r col = do row ← get_elem? m r; get_elem? row col

unfoldable pub sum : List ℤ → ℤ
sum [] = pos 0
sum (v ∷ vals) = v +ℤ sum vals

-- `sum(x[b][kk] * w[kk][col] for kk in range(k))`
unfoldable pub dot : List (List ℤ) → List (List ℤ) → ℕ → ℕ → ℕ → Option ℤ
unfolding sum item
dot x w k b col = do
  ps ← traverse (λ kk. do a ← item x b kk; c ← item w kk col; some (a *ℤ c)) (range_from 0 k)
  some (sum ps)

-- acc: a row for each input
unfoldable pub products : List (List ℤ) → List (List ℤ) → ℕ → ℕ → ℕ → Option (List (List ℤ))
unfolding dot
products x w k batch npad =
    traverse (λ b. traverse (dot x w k b) (range_from 0 npad)) (range_from 0 batch)

-- `pack8([w[4 * kk + i][col] for i in range(4)])[0]`
unfoldable pub packed : List (List ℤ) → ℕ → ℕ → Option ℕ
unfolding item
packed w kk col = do
  four ← traverse (λ i. item w (4 * kk + i) col) (range_from 0 4)
  get_elem? (pack8 four) 0

abbrev pub pack_rows : List (List ℤ) → List ℕ
pack_rows x = flatten (map pack8 x)

-- `[[requant(a, scale, zp) for a in row] for row in acc]`
unfoldable pub requant_rows : List (List ℤ) → Option (List (List ℤ))
requant_rows acc =
    traverse (λ row. do qs ← traverse (λ a. requant a scale zp) row; some (ints qs)) acc
