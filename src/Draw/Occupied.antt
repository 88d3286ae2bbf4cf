-- ===== src/Draw/Occupied.antt =====
-- What the intervals of compact (docs/figs/datapath_tikz/dp_engine.py) hold: the corners of the shapes.
use Prim.Native.String.{String}
use simtix.Base.{List, [], ◌∷◌, ◌++◌, ◌⊎◌, inl, inr, arith, map, Bool-cases, ◌≡◌, ap, sym}
use mathlib.Core.Path.{subst}
use simtix.Base.Int.{ℤ, ◌≤ℤ◌, int_laws, min_of_cases, max_of_cases}
use simtix.Draw.Corridors.{Interval, sort_intervals, merge}
use simtix.Draw.Merged.{
  Covered, AreIntervals, IsApart, sort_intervals-AreIntervals, sort_intervals-InOrder,
  merge-IsApart, Covered-merge, Covered-sort_intervals,
}
use simtix.Draw.Figure.{
  Point, Poly, Box, Shape, Label, Fig, Segment, label_bbox, min_all, max_all, wire_segments,
}
use simtix.Draw.Compact.{
  Axis, x_axis, y_axis, coordinate, poly_interval, poly_intervals, shape_intervals, label_intervals,
  around, is_across, wire_intervals, group_intervals, occupied,
}

-- The value is one of the list.
abbrev Among : {A : Type 0} → A → List A → Type 0
Among a [] = ⊥
Among a (x ∷ xs) = (a ≡ x) ⊎ Among a xs

Among-map : {A B : Type 0} (f : A → B) (a : A) (xs : List A) → Among a xs → Among (f a) (map f xs)
Among-map f a [] m = m
Among-map f a (x ∷ xs) (inl e) = inl (ap f e)
Among-map f a (x ∷ xs) (inr m) = inr (Among-map f a xs m)

Covered-append_left : (v : ℤ) (iv jv : List Interval) → Covered v iv → Covered v (iv ++ jv)
Covered-append_left v [] jv c = absurd c
Covered-append_left v (p ∷ iv) jv (inl here) = inl here
Covered-append_left v (p ∷ iv) jv (inr later) = inr (Covered-append_left v iv jv later)

Covered-append_right : (v : ℤ) (iv jv : List Interval) → Covered v jv → Covered v (iv ++ jv)
Covered-append_right v [] jv c = c
Covered-append_right v (p ∷ iv) jv c = inr (Covered-append_right v iv jv c)

AreIntervals-append :
    (iv jv : List Interval) → AreIntervals iv → AreIntervals jv → AreIntervals (iv ++ jv)
AreIntervals-append [] jv a b = b
AreIntervals-append (p ∷ iv) jv a b = (a.0, AreIntervals-append iv jv a.1 b)

-- The extremes of a first value and the others.
min_all-le : (v : ℤ) (ws : List ℤ) → min_all v ws ≤ℤ v
min_all-le v [] = omega arith
min_all-le v (w ∷ ws) = elim (min_of_cases v (min_all w ws)) [
  | inl m ↦ rw m.0 (omega arith)
  | inr m ↦ rw m.0 (omega (arith, m.1))
]

max_all-ge : (v : ℤ) (ws : List ℤ) → v ≤ℤ max_all v ws
max_all-ge v [] = omega arith
max_all-ge v (w ∷ ws) = elim (max_of_cases v (max_all w ws)) [
  | inl m ↦ rw m.0 (omega arith)
  | inr m ↦ rw m.0 (omega (arith, m.1))
]

min_all-Among : (a v : ℤ) (ws : List ℤ) → Among a ws → min_all v ws ≤ℤ a
min_all-Among a v [] m = absurd m
min_all-Among a v (w ∷ ws) m =
    let below : min_all w ws ≤ℤ a = elim m [
      | inl e ↦ subst (λ b. min_all w ws ≤ℤ b) (sym e) (min_all-le w ws)
      | inr later ↦ min_all-Among a w ws later
    ] in
    elim (min_of_cases v (min_all w ws)) [
      | inl c ↦ rw c.0 (omega (arith, below, c.1))
      | inr c ↦ rw c.0 below
    ]

max_all-Among : (a v : ℤ) (ws : List ℤ) → Among a ws → a ≤ℤ max_all v ws
max_all-Among a v [] m = absurd m
max_all-Among a v (w ∷ ws) m =
    let below : a ≤ℤ max_all w ws = elim m [
      | inl e ↦ subst (λ b. b ≤ℤ max_all w ws) (sym e) (max_all-ge w ws)
      | inr later ↦ max_all-Among a w ws later
    ] in
    elim (max_of_cases v (max_all w ws)) [
      | inl c ↦ rw c.0 (omega (arith, below, c.1))
      | inr c ↦ rw c.0 below
    ]

poly_interval-AreIntervals : (axis : Axis) (poly : Poly) → AreIntervals (poly_interval axis poly)
poly_interval-AreIntervals axis [] = tt
poly_interval-AreIntervals axis (p ∷ poly) =
    let (v, vals) : ℤ × List ℤ = (coordinate axis p, map (coordinate axis) poly) in
    (omega (arith, min_all-le v vals, max_all-ge v vals), tt)

poly_interval-Covered :
    (axis : Axis) (p : Point) (poly : Poly)
    → Among p poly
    → Covered (coordinate axis p) (poly_interval axis poly)
poly_interval-Covered axis p [] m = m
poly_interval-Covered axis p (q ∷ poly) (inl e) =
    let vals = map (coordinate axis) poly in
    let v = coordinate axis q in rw e (inl (min_all-le v vals, max_all-ge v vals))
poly_interval-Covered axis p (q ∷ poly) (inr m) =
    let m' = Among-map (coordinate axis) p poly m in
    let vals = map (coordinate axis) poly in
    let (v, w) : ℤ × ℤ = (coordinate axis p, coordinate axis q) in
    inl (min_all-Among v w vals m', max_all-Among v w vals m')

poly_intervals-AreIntervals :
    (axis : Axis) (polys : List Poly) → AreIntervals (poly_intervals axis polys)
poly_intervals-AreIntervals axis [] = tt
poly_intervals-AreIntervals axis (poly ∷ polys) =
    AreIntervals-append _ _ (poly_interval-AreIntervals axis poly)
      (poly_intervals-AreIntervals axis polys)

poly_intervals-Covered :
    (axis : Axis) (p : Point) (poly : Poly) (polys : List Poly)
    → Among p poly
    → Among poly polys
    → Covered (coordinate axis p) (poly_intervals axis polys)
poly_intervals-Covered axis p poly [] m n = absurd n
poly_intervals-Covered axis p poly (q ∷ polys) m (inl e) =
    Covered-append_left _ _ _ (poly_interval-Covered axis p q (subst (Among p) e m))
poly_intervals-Covered axis p poly (q ∷ polys) m (inr n) =
    Covered-append_right _ _ _ (poly_intervals-Covered axis p poly polys m n)

shape_intervals-AreIntervals :
    (axis : Axis) (shapes : List Shape) → AreIntervals (shape_intervals axis shapes)
shape_intervals-AreIntervals axis [] = tt
shape_intervals-AreIntervals axis (s ∷ shapes) =
    AreIntervals-append _ _ (poly_intervals-AreIntervals axis (s.poly ∷ s.extra_polys))
      (shape_intervals-AreIntervals axis shapes)

shape_intervals-Covered :
    (axis : Axis) (p : Point) (poly : Poly) (s : Shape) (shapes : List Shape)
    → Among p poly
    → Among poly (s.poly ∷ s.extra_polys)
    → Among s shapes
    → Covered (coordinate axis p) (shape_intervals axis shapes)
shape_intervals-Covered axis p poly s [] m n k = absurd k
shape_intervals-Covered axis p poly s (t ∷ shapes) m n (inl e) = Covered-append_left _ _ _ (
    poly_intervals-Covered axis p poly (t.poly ∷ t.extra_polys) m
      (subst (λ u. Among poly (u.poly ∷ u.extra_polys)) e n))
shape_intervals-Covered axis p poly s (t ∷ shapes) m n (inr k) =
    Covered-append_right _ _ _ (shape_intervals-Covered axis p poly s shapes m n k)

label_intervals-AreIntervals :
    (axis : Axis) (labels : List Label) → AreIntervals (label_intervals axis labels)
unfolding label_bbox
label_intervals-AreIntervals axis [] = tt
label_intervals-AreIntervals x_axis (l ∷ labels) =
    (omega int_laws, label_intervals-AreIntervals x_axis labels)
label_intervals-AreIntervals y_axis (l ∷ labels) =
    (omega int_laws, label_intervals-AreIntervals y_axis labels)

around-AreIntervals : (v : ℤ) → (around v).0 ≤ℤ (around v).1
around-AreIntervals v = omega int_laws

wire_intervals-AreIntervals :
    (axis : Axis) (segs : List Segment) → AreIntervals (wire_intervals axis segs)
wire_intervals-AreIntervals axis [] = tt
wire_intervals-AreIntervals axis (s ∷ segs) = elim (Bool-cases (is_across axis s)) [
  | inl e ↦ rw e (around-AreIntervals _, wire_intervals-AreIntervals axis segs)
  | inr e ↦ rw e (wire_intervals-AreIntervals axis segs)
]

group_intervals-AreIntervals :
    (axis : Axis) (groups : List (Box × String)) → AreIntervals (group_intervals axis groups)
group_intervals-AreIntervals axis [] = tt
group_intervals-AreIntervals axis (g ∷ groups) =
    (around-AreIntervals _, (around-AreIntervals _, group_intervals-AreIntervals axis groups))

occupied-AreIntervals : (axis : Axis) (f : Fig) → AreIntervals (occupied axis f)
unfolding occupied
occupied-AreIntervals axis f =
    AreIntervals-append _ _
      (AreIntervals-append _ _
        (AreIntervals-append _ _ (shape_intervals-AreIntervals axis f.shapes)
          (label_intervals-AreIntervals axis f.labels))
        (wire_intervals-AreIntervals axis (wire_segments f.nets)))
      (group_intervals-AreIntervals axis f.groups)

-- A corner of a polygon that belongs to a shape of the figure.
pub record IsCorner (f : Fig) (p : Point) : Type 0 where
  pub shape : Shape
  pub poly : Poly
  pub has_shape : Among shape f.shapes
  pub has_poly : Among poly (shape.poly ∷ shape.extra_polys)
  pub has_point : Among p poly

pub occupied-Covered :
    (axis : Axis) (f : Fig) (p : Point)
    → IsCorner f p
    → Covered (coordinate axis p) (occupied axis f)
unfolding occupied
occupied-Covered axis f p c = Covered-append_left _ _ _ (
    Covered-append_left _ _ _ (
      Covered-append_left _ _ _ (
        shape_intervals-Covered axis p c.poly c.shape f.shapes c.has_point c.has_poly c.has_shape)))

-- The merged intervals of a figure.
abbrev pub merged : Axis → Fig → List Interval
merged axis f = merge (sort_intervals (occupied axis f))

pub merged-IsApart : (axis : Axis) (f : Fig) → IsApart (merged axis f)
merged-IsApart axis f =
    merge-IsApart _ (sort_intervals-AreIntervals _ (occupied-AreIntervals axis f))

pub merged-Covered :
    (axis : Axis) (f : Fig) (v : ℤ) → Covered v (occupied axis f) → Covered v (merged axis f)
merged-Covered axis f v c =
    Covered-merge v _ (sort_intervals-InOrder _) (Covered-sort_intervals v _ c)
