-- ===== src/Draw/Compact.antt =====
-- Moving a whole figure in docs/figs/datapath_tikz/dp_engine.py: _map_all, shift, compact, extent.
use Prim.Native.String.{String}
use mathlib.Core.Option.{Option, none, some}
use simtix.Base.{List, [], ◌∷◌, ◌++◌, map, Bool, if◌then◌else◌}
use simtix.Base.Int.{ℤ, pos, ◌+ℤ◌, ◌-ℤ◌, ltb_ℤ, leb_ℤ, abs_of}
use simtix.Draw.Corridors.{Interval, sort_intervals, merge, cuts, squeeze, total_removed}
use simtix.Draw.Figure.{
  Point, Poly, Box, Shape, Polyline, Net, Label, Fig, Segment, bounds, wire_segments, label_bbox,
  min_all, max_all,
}

pub data Axis : Type 0 where
  x_axis y_axis : Axis

module _ (fx fy : ℤ → ℤ) where
  abbrev move_point : Point → Point
  move_point p = (fx p.0, fy p.1)

  abbrev move_box : Box → Box
  move_box b = record { x0 = fx b.x0; y0 = fy b.y0; x1 = fx b.x1; y1 = fy b.y1 }

  abbrev pub move_shape : Shape → Shape
  move_shape s =
      let poly = map move_point s.poly in
      record s {
        pts = map move_point s.pts;
        poly = poly;
        extra_polys = map (map move_point) s.extra_polys;
        bb = bounds poly;
      }

  abbrev move_line : Polyline → Polyline
  move_line l = record l { pts = map move_point l.pts }

  abbrev move_net : String × Net → String × Net
  move_net e = (e.0, record e.1 { lines = map move_line e.1.lines })

  abbrev move_label : Label → Label
  move_label l = record l { x = fx l.x; y = fy l.y }

  abbrev move_titled : Box × String → Box × String
  move_titled e = (move_box e.0, e.1)

  unfoldable map_all : Fig → Fig
  map_all f = record f {
    shapes = map move_shape f.shapes;
    nets = map move_net f.nets;
    labels = map move_label f.labels;
    bands = map move_titled f.bands;
    frames = map move_box f.frames;
    groups = map move_titled f.groups;
  }

-- The map along one axis.
unfoldable pub map_axis : Axis → (ℤ → ℤ) → Fig → Fig
unfolding map_all
map_axis x_axis m f = map_all m (λ v. v) f
map_axis y_axis m f = map_all (λ v. v) m f

-- The map m of shift: `v_from - 1e-9` is one unit below the cut.
unfoldable moved_from : ℤ → ℤ → ℤ → ℤ
moved_from v_from dv v = if leb_ℤ (v_from -ℤ pos 1) v then v +ℤ dv else v

unfoldable pub shift : ℤ → ℤ → Axis → Fig → Fig
unfolding map_axis moved_from
shift v_from dv axis f = map_axis axis (moved_from v_from dv) f

abbrev pub coordinate : Axis → Point → ℤ
coordinate x_axis p = p.0
coordinate y_axis p = p.1

-- The part of the axis that a polygon takes; it has a corner, or Python's `min` raises.
abbrev pub poly_interval : Axis → Poly → List Interval
poly_interval axis [] = []
poly_interval axis (p ∷ poly) =
    let vals = map (coordinate axis) poly in
    let v = coordinate axis p in (min_all v vals, max_all v vals) ∷ []

abbrev pub poly_intervals : Axis → List Poly → List Interval
poly_intervals axis [] = []
poly_intervals axis (poly ∷ polys) = poly_interval axis poly ++ poly_intervals axis polys

abbrev pub shape_intervals : Axis → List Shape → List Interval
shape_intervals axis [] = []
shape_intervals axis (s ∷ shapes) =
    poly_intervals axis (s.poly ∷ s.extra_polys) ++ shape_intervals axis shapes

abbrev box_interval : Axis → Box → Interval
box_interval x_axis b = (b.x0, b.x1)
box_interval y_axis b = (b.y0, b.y1)

abbrev pub label_intervals : Axis → List Label → List Interval
label_intervals axis [] = []
label_intervals axis (l ∷ labels) = box_interval axis (label_bbox l) ∷ label_intervals axis labels

-- `(v - 0.01, v + 0.01)`
abbrev pub around : ℤ → Interval
around v = (v -ℤ pos 10_000_000, v +ℤ pos 10_000_000)

-- A segment across the axis, up to `1e-6`.
abbrev pub is_across : Axis → Segment → Bool
is_across axis s = ltb_ℤ (abs_of (coordinate axis s.a -ℤ coordinate axis s.b)) (pos 1000)

abbrev pub wire_intervals : Axis → List Segment → List Interval
wire_intervals axis [] = []
wire_intervals axis (s ∷ segs) =
    let rest = wire_intervals axis segs in
    if is_across axis s then around (coordinate axis s.a) ∷ rest else rest

abbrev pub group_intervals : Axis → List (Box × String) → List Interval
group_intervals axis [] = []
group_intervals axis (g ∷ groups) =
    let p = box_interval axis g.0 in around p.0 ∷ around p.1 ∷ group_intervals axis groups

-- `iv`
unfoldable pub occupied : Axis → Fig → List Interval
occupied axis f =
    shape_intervals axis f.shapes
    ++ label_intervals axis f.labels
    ++ wire_intervals axis (wire_segments f.nets)
    ++ group_intervals axis f.groups

-- The cuts that compact makes.
unfoldable pub cuts_of : Axis → ℤ → List Interval → Fig → List (ℤ × ℤ)
unfolding occupied
cuts_of axis gap keep f = cuts gap keep (merge (sort_intervals (occupied axis f)))

-- The figure after it, and the sum of all that was removed.
unfoldable pub compact : Axis → ℤ → List Interval → Fig → Fig × ℤ
unfolding cuts_of map_axis
compact axis gap keep f =
    let cs = cuts_of axis gap keep f in (map_axis axis (squeeze cs) f, total_removed cs)

-- Every value that extent looks at, along one axis.
abbrev box_ends : Axis → List Box → List ℤ
box_ends axis [] = []
box_ends axis (b ∷ boxes) = let p = box_interval axis b in p.0 ∷ p.1 ∷ box_ends axis boxes

abbrev poly_values : Axis → List Poly → List ℤ
poly_values axis [] = []
poly_values axis (poly ∷ polys) = map (coordinate axis) poly ++ poly_values axis polys

abbrev shape_values : Axis → List Shape → List ℤ
shape_values axis [] = []
shape_values axis (s ∷ shapes) =
    poly_values axis (s.poly ∷ s.extra_polys) ++ shape_values axis shapes

abbrev wire_values : Axis → List Segment → List ℤ
wire_values axis [] = []
wire_values axis (s ∷ segs) = coordinate axis s.a ∷ coordinate axis s.b ∷ wire_values axis segs

unfoldable extent_values : Axis → Fig → List ℤ
extent_values axis f =
    shape_values axis f.shapes
    ++ box_ends axis (map label_bbox f.labels)
    ++ wire_values axis (wire_segments f.nets)

-- `none` is the ValueError of `min` for a figure with nothing in it.
unfoldable pub extent : Fig → Option Box
unfolding extent_values
extent f = elim (extent_values x_axis f) [
  | [] ↦ none
  | x ∷ xs ↦ elim (extent_values y_axis f) [
    | [] ↦ none
    | y ∷ ys ↦
        some (record { x0 = min_all x xs; y0 = min_all y ys; x1 = max_all x xs; y1 = max_all y ys })
  ]
]
