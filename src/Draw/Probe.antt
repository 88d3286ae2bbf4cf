-- ===== src/Draw/Probe.antt =====
-- Wires through shapes in the checks of docs/figs/datapath_tikz/dp_engine.py.
use simtix.Base.{
  ℕ, zero, suc, ◌+◌, ◌-◌, ◌*◌, ◌/◌, List, [], ◌∷◌, ◌++◌, map, Bool, true, false, ◌&&◌, ◌||◌, ltb,
  if◌then◌else◌,
}
use simtix.Base.Int.{pos, pos_part, ◌+ℤ◌, ◌-ℤ◌, ◌*ℤ◌, ltb_ℤ, min_of, max_of, abs_of}
use simtix.Draw.Figure.{Point, Poly, Box, Shape, Segment}
use simtix.Draw.Geometry.{pip, edge_closer, edges_farther}
use simtix.Draw.Problems.{Problem, wire_through, wire_grazes, um}

-- `math.hypot` of an orthogonal segment.
abbrev length_of : Point → Point → ℕ
length_of a b = pos_part (abs_of (b.0 -ℤ a.0)) + pos_part (abs_of (b.1 -ℤ a.1))

-- More than 1.5 mm away from the shape's box.
abbrev is_far : Point → Point → Box → Bool
is_far a b s =
    ltb_ℤ (max_of a.0 b.0) (s.x0 -ℤ pos (um 1500))
    || ltb_ℤ (s.x1 +ℤ pos (um 1500)) (min_of a.0 b.0)
    || ltb_ℤ (max_of a.1 b.1) (s.y0 -ℤ pos (um 1500))
    || ltb_ℤ (s.y1 +ℤ pos (um 1500)) (min_of a.1 b.1)

-- A point of the figure drawn `n` times as large, so that `n` steps divide a segment exactly.
abbrev pub scaled : ℕ → Point → Point
scaled n p = (pos n *ℤ p.0, pos n *ℤ p.1)

abbrev sample_at : Point → Point → ℕ → ℕ → Point
sample_at a b n k = (pos n *ℤ a.0 +ℤ pos k *ℤ (b.0 -ℤ a.0), pos n *ℤ a.1 +ℤ pos k *ℤ (b.1 -ℤ a.1))

pub data Finding : Type 0 where
  clear grazes through : Finding

abbrev or_grazes : Bool → Finding → Finding
or_grazes b clear = if b then grazes else clear
or_grazes b f = f

-- The loop over `k`, for `left` more steps, in the figure drawn `n` times as large; `bad` so far.
unfoldable probe_from : Point → Point → Poly → ℕ → ℕ → ℕ → ℕ → Finding → Finding
probe_from a b poly n len zero k bad = bad
probe_from a b poly n len (suc left) k bad =
    let p = sample_at a b n k in
    let inside = pip p poly in
    let deep = inside && edges_farther p poly (n * um 150) in
    let past_end = ltb (n * um 1000) ((if ltb k (n - k) then k else n - k) * len) in
    let near = past_end && edge_closer p poly (n * um 600) && (if inside then false else true) in
    let rest = probe_from a b poly n len left (suc k) (or_grazes near bad) in
    if deep then through else rest

-- `nsteps = max(2, int(L / 0.2))`
unfoldable probe : Point → Point → Poly → Finding
unfolding probe_from
probe a b poly =
    let len = length_of a b in
    let n = if ltb 2 (len / um 200) then len / um 200 else 2 in
    probe_from a b (map (scaled n) poly) n len (suc n) 0 clear

abbrev wire_report : Segment → Shape → Finding → List Problem
wire_report w s clear = []
wire_report w s grazes = wire_grazes w s.name ∷ []
wire_report w s through = wire_through w s.name ∷ []

unfoldable wire_on_shapes : Segment → List Shape → List Problem
unfolding probe
wire_on_shapes w [] = []
wire_on_shapes w (s ∷ shapes) =
    (if is_far w.a w.b s.bb then [] else wire_report w s (probe w.a w.b s.poly))
    ++ wire_on_shapes w shapes

unfoldable pub wires_on_shapes : List Segment → List Shape → List Problem
unfolding wire_on_shapes
wires_on_shapes [] shapes = []
wires_on_shapes (w ∷ segs) shapes = wire_on_shapes w shapes ++ wires_on_shapes segs shapes
