-- ===== src/Apps/Stencil/Sweep.antt =====
-- One sweep of the stencil of sim/gen_apps.py (stencil): every inner point from the old grid.
use simtix.Base.{
  ℕ, zero, suc, ◌+◌, ◌-◌, ◌*◌, List, [], ◌∷◌, ◌++◌, Option, some, get_elem?, set, range_from,
}
use simtix.Base.Partial.{◌>>=◌}
use simtix.Fp.{fadd, fmul, fma}

-- The FP32 words of 0.5 and 0.125.
abbrev pub c0 : ℕ
c0 = 0x3f00_0000

abbrev pub c1 : ℕ
c1 = 0x3e00_0000

-- The new value of the point p; s is the distance of two rows. An inner point is at least s.
unfoldable pub point_value : List ℕ → ℕ → ℕ → Option ℕ
point_value cur s p = do
  up ← get_elem? cur (p - s)
  down ← get_elem? cur (p + s)
  left ← get_elem? cur (p - 1)
  right ← get_elem? cur (p + 1)
  centre ← get_elem? cur p
  vertical ← fadd up down
  horizontal ← fadd left right
  sm ← fadd vertical horizontal
  scaled ← fmul c0 centre
  fma c1 sm scaled

-- `p = (i + 1) * s + LANES + j` for the rows i from `lo` on, and the columns j
unfoldable pub points : ℕ → ℕ → ℕ → ℕ → ℕ → List ℕ
points lanes s w lo zero = []
points lanes s w lo (suc h) = range_from ((lo + 1) * s + lanes) w ++ points lanes s w (suc lo) h

-- `nxt[p] = ...` for each point; the old grid is read throughout.
unfoldable pub sweep_points : List ℕ → ℕ → List ℕ → List ℕ → Option (List ℕ)
sweep_points cur s [] nxt = some nxt
sweep_points cur s (p ∷ ps) nxt = do v ← point_value cur s p; sweep_points cur s ps (set nxt p v)

unfoldable pub sweep : ℕ → ℕ → ℕ → ℕ → List ℕ → Option (List ℕ)
sweep lanes s h w cur = sweep_points cur s (points lanes s w 0 h) cur
