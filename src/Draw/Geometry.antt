-- ===== src/Draw/Geometry.antt =====
-- Points, polygons and wire_segments in docs/figs/datapath_tikz/dp_engine.py: pip, dist_seg,
-- dist_poly_edge, seg_hits_box. Quotients and roots are compared by multiplying and squaring.
use simtix.Base.{ℕ, ◌*◌, [], ◌∷◌, Bool, true, false, ◌&&◌, ◌||◌, if◌then◌else◌}
use simtix.Base.Int.{ℤ, pos, ◌+ℤ◌, ◌-ℤ◌, ◌*ℤ◌, ltb_ℤ, eqb_ℤ, min_of, max_of, abs_of}
use simtix.Draw.Figure.{Point, Poly, Box}

abbrev not : Bool → Bool
not true = false
not false = true

abbrev either_one : Bool → Bool → Bool
either_one a b = if a then not b else b

-- `xi > x` for the crossing of the edge from `p` to `q` with the height of `pt`:
-- `(y - y1) * (x2 - x1) / (y2 - y1) > x - x1`.
unfoldable crosses_right : Point → Point → Point → Bool
crosses_right pt p q =
    let run = (pt.1 -ℤ p.1) *ℤ (q.0 -ℤ p.0) in
    let rise = q.1 -ℤ p.1 in
    let bound = (pt.0 -ℤ p.0) *ℤ rise in
    if ltb_ℤ (pos 0) rise then ltb_ℤ bound run else ltb_ℤ run bound

-- The loop of pip over the edges; `start` closes the polygon.
unfoldable pip_from : Point → Point → Poly → Bool → Bool
unfolding crosses_right
pip_from pt start [] inside = inside
pip_from pt start (p ∷ poly) inside =
    let q : Point = elim poly [ [] ↦ start | q' ∷ _ ↦ q' ] in
    let crossed = either_one (ltb_ℤ pt.1 p.1) (ltb_ℤ pt.1 q.1) && crosses_right pt p q in
    pip_from pt start poly (either_one inside crossed)

unfoldable pub pip : Point → Poly → Bool
unfolding pip_from
pip pt [] = false
pip pt (p ∷ poly) = pip_from pt p (p ∷ poly) false

-- The square of the distance of a point from a segment, as numerator and denominator: with
-- `t = along / len2`, the vector from the foot of `t` to the point times `len2`.
unfoldable square_dist : Point → Point → Point → ℤ × ℤ
square_dist p a b =
    let dx = b.0 -ℤ a.0 in
    let dy = b.1 -ℤ a.1 in
    let px = p.0 -ℤ a.0 in
    let py = p.1 -ℤ a.1 in
    let len2 = dx *ℤ dx +ℤ dy *ℤ dy in
    let along = max_of (pos 0) (min_of len2 (px *ℤ dx +ℤ py *ℤ dy)) in
    let vx = px *ℤ len2 -ℤ along *ℤ dx in
    let vy = py *ℤ len2 -ℤ along *ℤ dy in
    if eqb_ℤ len2 (pos 0)
    then (px *ℤ px +ℤ py *ℤ py, pos 1)
    else (vx *ℤ vx +ℤ vy *ℤ vy, len2 *ℤ len2)

-- `dist_seg(p, a, b) < r` and `> r`, for `r` of 0 mm or more.
unfoldable pub closer : Point → Point → Point → ℕ → Bool
unfolding square_dist
closer p a b r = let (n, d) = square_dist p a b in ltb_ℤ n (pos (r * r) *ℤ d)

unfoldable farther : Point → Point → Point → ℕ → Bool
unfolding square_dist
farther p a b r = let (n, d) = square_dist p a b in ltb_ℤ (pos (r * r) *ℤ d) n

module _ (test : Point → Point → Bool) where
  -- A test on some edge and on every edge of a closed polygon.
  abbrev any_edge_from : Point → Poly → Bool
  any_edge_from start [] = false
  any_edge_from start (p ∷ []) = test p start
  any_edge_from start (p ∷ q ∷ poly) = test p q || any_edge_from start (q ∷ poly)

  abbrev all_edges_from : Point → Poly → Bool
  all_edges_from start [] = true
  all_edges_from start (p ∷ []) = test p start
  all_edges_from start (p ∷ q ∷ poly) = test p q && all_edges_from start (q ∷ poly)

-- `dist_poly_edge(p, poly) < r` and `> r`: the least of the distances.
unfoldable pub edge_closer : Point → Poly → ℕ → Bool
unfolding closer
edge_closer p [] r = false
edge_closer p (q ∷ poly) r = any_edge_from (λ a b. closer p a b r) q (q ∷ poly)

unfoldable pub edges_farther : Point → Poly → ℕ → Bool
unfolding farther
edges_farther p [] r = false
edges_farther p (q ∷ poly) r = all_edges_from (λ a b. farther p a b r) q (q ∷ poly)

-- `abs(a - b) < 1e-6`
abbrev pub is_level : ℤ → ℤ → Bool
is_level a b = ltb_ℤ (abs_of (a -ℤ b)) (pos 1000)

unfoldable pub seg_hits_box : Point → Point → Box → Bool
seg_hits_box a b bb =
    if is_level a.1 b.1
    then ltb_ℤ bb.y0 a.1
      && ltb_ℤ a.1 bb.y1
      && ltb_ℤ (min_of a.0 b.0) bb.x1
      && ltb_ℤ bb.x0 (max_of a.0 b.0)
    else ltb_ℤ bb.x0 a.0
      && ltb_ℤ a.0 bb.x1
      && ltb_ℤ (min_of a.1 b.1) bb.y1
      && ltb_ℤ bb.y0 (max_of a.1 b.1)
