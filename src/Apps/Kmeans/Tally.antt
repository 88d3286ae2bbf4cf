-- ===== src/Apps/Kmeans/Tally.antt =====
-- The arithmetic of the k-means step of sim/gen_apps.py (kmeans): the nearest centroid of a point,
-- and what each centroid sums.
use simtix.Base.{
  ℕ, suc, ◌+◌, ◌*◌, List, [], ◌∷◌, ◌++◌, Option, none, some, ◌==◌, leb, if◌then◌else◌, get_elem?,
  set, replicate, true, false,
}
use simtix.Base.Int.{ℤ, pos, pos_part, neg_part, ◌-ℤ◌}
use simtix.Base.Partial.{◌>>=◌}

-- `v ** 2`, which is not negative
abbrev square : ℤ → ℕ
square v = pos_part v * pos_part v + neg_part v * neg_part v

-- `(x - cx[j]) ** 2 + (y - cy[j]) ** 2`
unfoldable pub squared_distance : ℕ → ℕ → ℕ → ℕ → ℕ
squared_distance x y cxj cyj = square (pos x -ℤ pos cxj) + square (pos y -ℤ pos cyj)

-- The list d; cx and cy have the same length.
unfoldable pub distances : ℕ → ℕ → List ℕ → List ℕ → List ℕ
distances x y [] cy = []
distances x y (cxj ∷ cx) [] = []
distances x y (cxj ∷ cx) (cyj ∷ cy) = squared_distance x y cxj cyj ∷ distances x y cx cy

-- `min(d)`, and the least of `least` and the items of a list
unfoldable pub min_from : ℕ → List ℕ → ℕ
min_from least [] = least
min_from least (v ∷ d) = min_from (if leb least v then least else v) d

unfoldable pub minimum : List ℕ → Option ℕ
minimum [] = none
minimum (v ∷ d) = some (min_from v d)

-- `d.index(v)`
unfoldable pub index_of : ℕ → List ℕ → Option ℕ
index_of v [] = none
index_of v (w ∷ d) = elim (w == v) [
  | true ↦ some 0
  | false ↦ elim (index_of v d) [ none ↦ none | some i ↦ some (suc i) ]
]

-- `d.index(min(d))`
unfoldable pub best : List ℕ → Option ℕ
best d = do least ← minimum d; index_of least d

pub record Sums : Type 0 where
  pub assign : List ℕ
  pub sx : List ℕ
  pub sy : List ℕ
  pub cn : List ℕ

abbrev pub start : ℕ → Sums
start k = record { assign = []; sx = replicate k 0; sy = replicate k 0; cn = replicate k 0 }

-- `l[i] += v`
unfoldable pub add_at : List ℕ → ℕ → ℕ → Option (List ℕ)
add_at l i v = do old ← get_elem? l i; some (set l i (old + v))

-- The body of the loop over the points.
unfoldable pub tally_point : List ℕ → List ℕ → ℕ → ℕ → Sums → Option Sums
tally_point cx cy x y t = do
  b ← best (distances x y cx cy)
  sx ← add_at t.sx b x
  sy ← add_at t.sy b y
  cn ← add_at t.cn b 1
  some (record { assign = t.assign ++ b ∷ []; sx = sx; sy = sy; cn = cn })

-- `for x, y in zip(px, py)`
unfoldable pub tally : List ℕ → List ℕ → List ℕ → List ℕ → Sums → Option Sums
tally cx cy [] py t = some t
tally cx cy (x ∷ px) [] t = some t
tally cx cy (x ∷ px) (y ∷ py) t = do t' ← tally_point cx cy x y t; tally cx cy px py t'
