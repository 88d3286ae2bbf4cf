-- ===== src/Apps/Scan.antt =====
-- The prefix sum of sim/gen_apps.py (scan): blocks are scanned, the block totals are scanned in turn,
-- level by level, and added back.
pub mod Prefix
pub mod Levels
pub mod Result
use Prim.Native.String.{String}
use simtix.Base.{
  ℕ, zero, suc, ◌+◌, ◌*◌, ◌/◌, ◌%◌, ◌^◌, List, [], ◌∷◌, ◌++◌, Option, none, some, Bool, true, false,
  ◌==◌, ltb,
}
use simtix.Base.Int.{ℤ, pos, ints, word_mod}
use simtix.Kernels.{Kernel, ceil_div}
use simtix.Ddr.Case.{Case, numbered, new_case}
use simtix.Random.{Rng}
use simtix.Apps.Gen.{
  Config, Gen, ◌>>=◌, ◌>>◌, pure, lift, assert, draw, draws, alloc_list, alloc_zeros, alloc_words,
  launch, expect, build,
}

-- `acc = (acc + v) & 0xFFFF_FFFF; pre.append(acc)`
unfoldable pub prefix_sums : ℕ → List ℕ → List ℕ
prefix_sums acc [] = []
prefix_sums acc (v ∷ vals) = let acc' = (acc + v) % word_mod in acc' ∷ prefix_sums acc' vals

-- `-(-n // d) * d`
abbrev pub round_up : ℕ → ℕ → ℕ
round_up n d = ceil_div n d * d

-- Threads per block.
abbrev pub block : Config → ℕ
block cfg = 4 * cfg.lanes

module _ (R : Rng) (cfg : Config) where
  -- `level`, on fuel; the counter `lvl` is passed on and returned with the address of the result.
  unfoldable pub level : ℕ → ℕ → ℕ → ℕ → Gen R.State (ℕ × ℕ)
  level zero src m lvl r = none
  level (suc fuel) src m lvl r =
      (alloc_zeros m >>= λ out. alloc_zeros (round_up (m / block cfg) (block cfg)) >>= λ bs.
      launch cfg (numbered "scan" lvl) Kernel.scan (ints (src ∷ out ∷ bs ∷ [])) m 2 >>= λ _ r'.
      elim (ltb 1 (m / block cfg)) [
        | false ↦ some ((out, lvl + 1), r')
        | true ↦
            (level fuel bs (round_up (m / block cfg) (block cfg)) (lvl + 1) >>= λ (bsc, lvl').
            launch cfg (numbered "add" lvl') Kernel.scan_add (ints (out ∷ bsc ∷ [])) m 0 >>= λ _.
            pure (out, lvl' + 1))
              r'
      ])
        r

  unfoldable pub scan_body : ℕ → Gen R.State (Unit {0})
  unfolding level prefix_sums
  scan_body n = do
    assert (n % block cfg == 0)
    vals ← draw (draws n (R.randrange (2 ^ 16)))
    src ← alloc_list vals n
    (out, lvl) ← level (suc n) src n 0
    expect out (ints (prefix_sums 0 vals))

  unfoldable pub scan : ℕ → R.State → Option (Case × R.State)
  unfolding scan_body
  scan n = build R (scan_body n) (new_case "scan" (n ∷ []))
