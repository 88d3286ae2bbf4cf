-- ===== src/Draw/Apart.antt =====
-- What it means for shapes, wires and labels to be apart, for the checks of
-- docs/figs/datapath_tikz/dp_engine.py.
use text.Mathlib.Text as Text
use simtix.Base.{List, [], ◌∷◌, ◌⊎◌, true, false, ◌≡◌}
use simtix.Base.Int.{ℤ, pos, ◌+ℤ◌, ◌-ℤ◌, ◌≤ℤ◌, ◌<ℤ◌, min_of, max_of, abs_of}
use simtix.Draw.Figure.{Point, Box, Shape, Label, Segment, label_bbox}
use simtix.Draw.Geometry.{is_level}
use simtix.Draw.Crossings.{is_horizontal}
use simtix.Draw.Problems.{um}

-- The relation holds for each item of the list, and for each item with each later one.
abbrev pub AllOf : {A : Type 0} → (A → Type 0) → List A → Type 0
AllOf P [] = Unit
AllOf P (x ∷ xs) = P x × AllOf P xs

abbrev pub AllPairs : {A : Type 0} → (A → A → Type 0) → List A → Type 0
AllPairs R [] = Unit
AllPairs R (x ∷ xs) = AllOf (R x) xs × AllPairs R xs

-- In the closed box, and inside it.
abbrev InBox : Point → Box → Type 0
InBox p b = (b.x0 ≤ℤ p.0) × (p.0 ≤ℤ b.x1) × (b.y0 ≤ℤ p.1) × (p.1 ≤ℤ b.y1)

abbrev pub Inside : Point → Box → Type 0
Inside p b = (b.x0 <ℤ p.0) × (p.0 <ℤ b.x1) × (b.y0 <ℤ p.1) × (p.1 <ℤ b.y1)

-- The boxes of the shapes have no two points in common that are more than 0.05 mm apart both ways.
abbrev pub ShapesApart : Shape → Shape → Type 0
ShapesApart s t =
    (p q : Point)
    → InBox p s.bb
    → InBox p t.bb
    → InBox q s.bb
    → InBox q t.bb
    → p.0 +ℤ pos (um 50) <ℤ q.0
    → p.1 +ℤ pos (um 50) <ℤ q.1
    → ⊥

-- No point lies inside both labels.
abbrev pub LabelsApart : Label → Label → Type 0
LabelsApart l k = (p : Point) → Inside p (label_bbox l) → Inside p (label_bbox k) → ⊥

-- The point is on the orthogonal segment.
abbrev pub OnSegment : Point → Segment → Type 0
OnSegment p s =
    ((s.a.1 ≡ s.b.1) × (p.1 ≡ s.a.1) × (min_of s.a.0 s.b.0 ≤ℤ p.0) × (p.0 ≤ℤ max_of s.a.0 s.b.0))
    ⊎ ((is_level s.a.1 s.b.1 ≡ false)
        × (p.0 ≡ s.a.0)
        × (min_of s.a.1 s.b.1 ≤ℤ p.1)
        × (p.1 ≤ℤ max_of s.a.1 s.b.1))

-- No point of the segment lies inside the label.
abbrev pub LabelClear : Label → Segment → Type 0
LabelClear l s = (p : Point) → OnSegment p s → Inside p (label_bbox l) → ⊥

-- Both values are in the range of the segment along `u`.
abbrev pub InRange : (Point → ℤ) → ℤ → Segment → Type 0
InRange u x s = (min_of (u s.a) (u s.b) ≤ℤ x) × (x ≤ℤ max_of (u s.a) (u s.b))

-- Segments that share more than 0.05 mm along `u` are 1.6 mm or more apart along `v`.
abbrev pub Spaced : (Point → ℤ) → (Point → ℤ) → Segment → Segment → Type 0
Spaced u v s t =
    (x x' : ℤ)
    → InRange u x s
    → InRange u x t
    → InRange u x' s
    → InRange u x' t
    → x +ℤ pos (um 50) <ℤ x'
    → pos (um 1600) ≤ℤ abs_of (v s.a -ℤ v t.a)

abbrev pub along_x : Point → ℤ
along_x p = p.0

abbrev pub along_y : Point → ℤ
along_y p = p.1

-- Parallel wire_segments of two nets are spaced.
abbrev pub WiresApart : Segment → Segment → Type 0
WiresApart s t =
    Text.◌==◌ s.net t.net ≡ false
    → ((is_horizontal s ≡ true) → (is_horizontal t ≡ true) → Spaced along_x along_y s t)
      × ((is_horizontal s ≡ false) → (is_horizontal t ≡ false) → Spaced along_y along_x s t)
