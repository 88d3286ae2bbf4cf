-- ===== src/Apps/Zbtest.antt =====
-- The Zba, Zbb and Zicond test of sim/gen_apps.py (zbtest): random operands, and the nine results
-- for each pair that the accelerator must give.
pub mod Meaning
pub mod Result
use Prim.Native.String.{String}
use mathlib.Core.List.{zip}
use simtix.Base.{
  ℕ, zero, suc, ◌+◌, ◌*◌, ◌/◌, ◌%◌, ◌^◌, List, [], ◌∷◌, ◌++◌, Option, Bool, ltb, ◌==◌,
  if◌then◌else◌, get_or,
}
use simtix.Base.Int.{ℤ, pos, negsuc, sub_ℕ, ltb_ℤ, ints, word_mod}
use simtix.Kernels.{Kernel}
use simtix.Ddr.Case.{Case, tag, new_case}
use simtix.Random.{Rng}
use simtix.Apps.Gen.{
  Config, Gen, ◌>>=◌, ◌>>◌, draw, draws, alloc_list, alloc_zeros, alloc_words, launch, expect,
  build,
}

abbrev pub edge : List ℕ
edge = 0 ∷ 1 ∷ 0x7fff_ffff ∷ 0x8000_0000 ∷ 0xffff_ffff ∷ 0xffff_fffe ∷ []

-- `sx`: the signed number of a 32-bit word
unfoldable pub sx : ℕ → ℤ
sx v = if ltb 0 (v / 2 ^ 31) then sub_ℕ v (2 ^ 32) else pos v

-- The nine words for a pair of operands; a number shifted left is multiplied.
unfoldable pub results : ℕ → ℕ → List ℕ
unfolding sx
results x y =
    (y + x * 2) % word_mod
    ∷ (y + x * 4) % word_mod
    ∷ (y + x * 8) % word_mod
    ∷ (if ltb_ℤ (sx x) (sx y) then x else y)
    ∷ (if ltb x y then x else y)
    ∷ (if ltb_ℤ (sx y) (sx x) then x else y)
    ∷ (if ltb x y then y else x)
    ∷ (if y % 2 == 0 then 0 else x)
    ∷ (if y % 2 == 1 then 0 else x)
    ∷ []

unfoldable pub all_results : List ℕ → List ℕ → List ℕ
all_results [] bs = []
all_results (x ∷ as') [] = []
all_results (x ∷ as') (y ∷ bs) = results x y ++ all_results as' bs

module _ (R : Rng) where
  -- `rng.choice(edge) if rng.random() < 0.2 else rng.getrandbits(32)`
  unfoldable pub operand : R.State → ℕ × R.State
  operand s =
      let (special, s') = R.below_fifth s in
      if special
      then (let (i, s'') = R.randrange 6 s' in (get_or edge i 0, s''))
      else R.getrandbits 32 s'

  unfoldable pub zbtest_body : Config → ℕ → Gen R.State (Unit {0})
  unfolding operand all_results
  zbtest_body cfg n = do
    a ← draw (draws n operand)
    b ← draw (draws n operand)
    pa ← alloc_list a n
    pb ← alloc_list b n
    pr ← alloc_zeros (9 * n)
    launch cfg (tag "zbtest") Kernel.zbtest (ints (pa ∷ pb ∷ pr ∷ [])) n 0
    expect pr (ints (all_results a b))

  unfoldable pub zbtest : Config → ℕ → R.State → Option (Case × R.State)
  unfolding zbtest_body
  zbtest cfg n = build R (zbtest_body cfg n) (new_case "zbtest" (n ∷ []))
