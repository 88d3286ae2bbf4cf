-- ===== src/Draw/Verify.antt =====
-- The checks of docs/figs/datapath_tikz/dp_engine.py (Fig.verify).
use text.Mathlib.Text as Text
use simtix.Base.{
  ℕ, zero, suc, ◌*◌, List, [], ◌∷◌, ◌++◌, map, Bool, false, ◌&&◌, ◌||◌, if◌then◌else◌,
}
use simtix.Base.Int.{ℤ, pos, ◌+ℤ◌, ◌-ℤ◌, ◌*ℤ◌, ltb_ℤ, leb_ℤ, min_of, max_of, abs_of}
use simtix.Draw.Figure.{
  Point, Poly, Box, Shape, Label, Fig, Segment, wire_segments, label_bbox, bounds,
}
use simtix.Draw.Geometry.{pip, closer, is_level, seg_hits_box}
use simtix.Draw.Crossings.{Crossing, crossings, is_horizontal}
use simtix.Draw.Problems.{
  Problem, shape_overlap, parallel_h, parallel_v, touch, label_on_shape, label_on_wire,
  label_overlap, hop_at_corner, report, um,
}
use simtix.Draw.Probe.{scaled, wires_on_shapes}

-- The two shapes overlap by more than 0.05 mm each way.
abbrev pub do_overlap : Box → Box → Bool
do_overlap s t =
    ltb_ℤ s.x0 (t.x1 -ℤ pos (um 50))
    && ltb_ℤ t.x0 (s.x1 -ℤ pos (um 50))
    && ltb_ℤ s.y0 (t.y1 -ℤ pos (um 50))
    && ltb_ℤ t.y0 (s.y1 -ℤ pos (um 50))

abbrev pub overlaps_of : Shape → List Shape → List Problem
overlaps_of s [] = []
overlaps_of s (t ∷ ts) =
    report (do_overlap s.bb t.bb) (shape_overlap s.name t.name) ++ overlaps_of s ts

unfoldable pub shape_overlaps : List Shape → List Problem
shape_overlaps [] = []
shape_overlaps (s ∷ shapes) = overlaps_of s shapes ++ shape_overlaps shapes

-- The two wire_segments run side by side for more than 0.05 mm, closer than 1.6 mm; `u` and `v` are the
-- coordinates along and across them.
abbrev pub too_close : (Point → ℤ) → (Point → ℤ) → Segment → Segment → Bool
too_close u v s t =
    let lo = max_of (min_of (u s.a) (u s.b)) (min_of (u t.a) (u t.b)) in
    let hi = min_of (max_of (u s.a) (u s.b)) (max_of (u t.a) (u t.b)) in
    ltb_ℤ (pos (um 50)) (hi -ℤ lo) && ltb_ℤ (abs_of (v s.a -ℤ v t.a)) (pos (um 1600))

abbrev pub parallels : Segment → Segment → List Problem
parallels s t =
    if is_horizontal s
    then if is_horizontal t
      then report (too_close (λ p. p.0) (λ p. p.1) s t) (parallel_h s.net t.net)
      else []
    else if is_horizontal t
    then []
    else report (too_close (λ p. p.1) (λ p. p.0) s t) (parallel_v s.net t.net)

-- An end of `s` on `t`, for both ends.
abbrev pub ends_on : Segment → Segment → List Problem
ends_on s t =
    report (closer s.a t.a t.b (um 600)) (touch s.net s.a t.net)
    ++ report (closer s.b t.a t.b (um 600)) (touch s.net s.b t.net)

abbrev pub wire_pair : Segment → Segment → List Problem
wire_pair s t = if Text.◌==◌ s.net t.net then [] else parallels s t ++ ends_on s t ++ ends_on t s

abbrev pub pairs_of : Segment → List Segment → List Problem
pairs_of s [] = []
pairs_of s (t ∷ ts) = wire_pair s t ++ pairs_of s ts

unfoldable pub wire_pairs : List Segment → List Problem
wire_pairs [] = []
wire_pairs (s ∷ segs) = pairs_of s segs ++ wire_pairs segs

-- Both boxes share a point inside.
abbrev pub boxes_meet : Box → Box → Bool
boxes_meet a b = ltb_ℤ a.x0 b.x1 && ltb_ℤ b.x0 a.x1 && ltb_ℤ a.y0 b.y1 && ltb_ℤ b.y0 a.y1

-- One of the 9 times 5 points of the label's box, drawn 8 times as large, lies in the polygon.
abbrev grid_row : Box → Poly → ℕ → ℕ → Bool
grid_row bb poly v zero = false
grid_row bb poly v (suc u) =
    pip
      (
        pos 8 *ℤ bb.x0 +ℤ pos u *ℤ (bb.x1 -ℤ bb.x0),
        pos 8 *ℤ bb.y0 +ℤ pos (2 * v) *ℤ (bb.y1 -ℤ bb.y0),
      )
      poly
    || grid_row bb poly v u

abbrev grid_hits : Box → Poly → ℕ → Bool
grid_hits bb poly zero = false
grid_hits bb poly (suc v) = grid_row bb (map (scaled 8) poly) v 9 || grid_hits bb poly v

abbrev hits_polys : Box → List Poly → Bool
hits_polys bb [] = false
hits_polys bb (poly ∷ polys) =
    (boxes_meet bb (bounds poly) && grid_hits bb poly 5) || hits_polys bb polys

abbrev pub label_shapes : Label → Box → List Shape → List Problem
label_shapes l bb [] = []
label_shapes l bb (s ∷ shapes) =
    report (hits_polys bb (s.poly ∷ s.extra_polys)) (label_on_shape l s.name)
    ++ label_shapes l bb shapes

abbrev pub label_wires : Label → Box → List Segment → List Problem
label_wires l bb [] = []
label_wires l bb (s ∷ segs) =
    report (seg_hits_box s.a s.b bb) (label_on_wire l s.net) ++ label_wires l bb segs

unfoldable pub labels_on : List Label → List Shape → List Segment → List Problem
labels_on [] shapes segs = []
labels_on (l ∷ labels) shapes segs =
    label_shapes l (label_bbox l) shapes
    ++ label_wires l (label_bbox l) segs
    ++ labels_on labels shapes segs

abbrev pub label_pairs_of : Label → List Label → List Problem
label_pairs_of l [] = []
label_pairs_of l (k ∷ labels) =
    report (boxes_meet (label_bbox l) (label_bbox k)) (label_overlap l k) ++ label_pairs_of l labels

unfoldable pub label_pairs : List Label → List Problem
label_pairs [] = []
label_pairs (l ∷ labels) = label_pairs_of l labels ++ label_pairs labels

-- A crossing on the segment less than `HOP_R + 0.4` mm from its end.
abbrev hop_hits : Crossing → Segment → Bool
hop_hits c s =
    Text.◌==◌ s.net c.horizontal
    && is_horizontal s
    && is_level s.a.1 c.y
    && leb_ℤ (min_of s.a.0 s.b.0) c.x
    && leb_ℤ c.x (max_of s.a.0 s.b.0)
    && ltb_ℤ (min_of (abs_of (c.x -ℤ s.a.0)) (abs_of (c.x -ℤ s.b.0))) (pos (um 1250))

abbrev hops_of : Crossing → List Segment → List Problem
hops_of c [] = []
hops_of c (s ∷ segs) = report (hop_hits c s) (hop_at_corner c) ++ hops_of c segs

unfoldable pub hops : List Crossing → List Segment → List Problem
hops [] segs = []
hops (c ∷ cs) segs = hops_of c segs ++ hops cs segs

unfoldable pub verify : Fig → List Problem
unfolding shape_overlaps wires_on_shapes wire_pairs labels_on label_pairs hops
verify f =
    let segs = wire_segments f.nets in
    shape_overlaps f.shapes
    ++ wires_on_shapes segs f.shapes
    ++ wire_pairs segs
    ++ labels_on f.labels f.shapes segs
    ++ label_pairs f.labels
    ++ hops (crossings segs) segs
