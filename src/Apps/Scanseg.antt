-- ===== src/Apps/Scanseg.antt =====
-- The prefix sum by segments of sim/gen_apps.py (scanseg): a warp scans a segment of rows * LANES
-- words.
pub mod Segments
pub mod Levels
pub mod Result
use Prim.Native.String.{String}
use simtix.Base.{
  ℕ, zero, suc, ◌+◌, ◌*◌, ◌/◌, ◌%◌, ◌^◌, List, [], ◌∷◌, ◌++◌, Option, none, some, Bool, true, false,
  ◌==◌, leb, ltb, if◌then◌else◌,
}
use simtix.Base.Int.{ℤ, pos, ints, word_mod}
use simtix.Kernels.{Kernel, ceil_div}
use simtix.Ddr.Case.{Case, numbered, new_case}
use simtix.Random.{Rng}
use simtix.Apps.Scan.{prefix_sums, round_up}
use simtix.Apps.Gen.{
  Config, Gen, ◌>>=◌, ◌>>◌, pure, lift, assert, draw, draws, alloc_list, alloc_zeros, alloc_words,
  launch, expect, build,
}

-- `while m % (r * LANES): r //= 2`, on fuel: at r = 0 the remainder is a ZeroDivisionError.
unfoldable pub halve : ℕ → ℕ → ℕ → ℕ → Option ℕ
halve zero lanes m r = none
halve (suc fuel) lanes m zero = none
halve (suc fuel) lanes m (suc r) = elim (m % (suc r * lanes) == 0) [
  | true ↦ some (suc r)
  | false ↦ halve fuel lanes m (suc r / 2)
]

-- The rows of a segment of m words, `min(rows, m // LANES)` halved as often as needed.
unfoldable pub segment_rows : ℕ → ℕ → ℕ → Option ℕ
segment_rows lanes rows m =
    let r = if leb rows (m / lanes) then rows else m / lanes in halve (suc r) lanes m r

module _ (R : Rng) (cfg : Config) (rows : ℕ) where
  -- `level`, on fuel; the counter is passed on and returned.
  unfoldable pub seg_level : ℕ → ℕ → ℕ → ℕ → Gen R.State (ℕ × ℕ)
  seg_level zero src m lvl s = none
  seg_level (suc fuel) src m lvl s =
      (lift (segment_rows cfg.lanes rows m) >>= λ r. alloc_zeros m >>= λ out.
      alloc_zeros (round_up (m / (r * cfg.lanes)) cfg.lanes) >>= λ tot.
      launch cfg (numbered "seg" lvl) Kernel.scan_seg (ints (src ∷ out ∷ tot ∷ r ∷ []))
        (cfg.lanes * (m / (r * cfg.lanes))) 0
      >>= λ _ s'. elim (ltb 1 (m / (r * cfg.lanes))) [
        | false ↦ some ((out, lvl + 1), s')
        | true ↦
            (seg_level fuel tot (round_up (m / (r * cfg.lanes)) cfg.lanes) (lvl + 1)
                >>= λ (tsc, lvl').
                    launch cfg (numbered "segadd" lvl') Kernel.scan_segadd
                      (ints (out ∷ tsc ∷ r ∷ [])) (cfg.lanes * (m / (r * cfg.lanes))) 0
                    >>= λ _. pure (out, lvl' + 1))
              s'
      ])
        s

  unfoldable pub scanseg_body : ℕ → Gen R.State (Unit {0})
  unfolding seg_level
  scanseg_body n = do
    vals ← draw (draws n (R.randrange (2 ^ 16)))
    src ← alloc_list vals n
    (out, lvl) ← seg_level (suc n) src n 0
    expect out (ints (prefix_sums 0 vals))

  unfoldable pub scanseg : ℕ → R.State → Option (Case × R.State)
  unfolding scanseg_body
  scanseg n = build R (scanseg_body n) (new_case "scanseg" (n ∷ []))
