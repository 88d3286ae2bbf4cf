-- ===== src/Tests/Figures.antt =====
-- An example of each result on the drawing engine.
use simtix.Base.{
  ◌⊎◌, ℕ, ◌*◌, List, [], ◌∷◌, inl, inr, Option, none, some, true, false, ◌≡◌, refl, arith,
}
use simtix.Base.Int.{◌<ℤ◌, ℤ, pos, ◌+ℤ◌, ◌-ℤ◌, ◌*ℤ◌, ◌≤ℤ◌, min_of, max_of}
use simtix.Base.Text.{codes}
use simtix.Draw.Kept.{IsKept}
use simtix.Draw.Corridors.{squeeze, merge, sort_intervals, cuts, total_removed}
use simtix.Draw.Geometry.{pip, edge_closer, edges_farther, closer, seg_hits_box}
use simtix.Draw.Text.{plain}
use simtix.Draw.Crossings.{crossings}
use simtix.Draw.Figure.{Point, Fig, ctl, south, wire_segments, bounds, label_bbox}
use simtix.Draw.Shapes.{box}
use simtix.Draw.Wires.{wire, stub, up, label}
use simtix.Draw.Compact.{x_axis, compact, cuts_of, map_axis, occupied}
use simtix.Draw.Occupied.{IsCorner, merged}
use simtix.Draw.Order.{compact_order, compact_corridors}
use simtix.Draw.Verify.{verify}
use simtix.Draw.Safe.{IsSafe, verify-IsSafe}
use simtix.Draw.Orthogonal.{NetsOrthogonal, IsOrthogonal, wire-NetsOrthogonal, stub_succeeds}
use simtix.Draw.Call.{started, called, a_box, a_wire, empty_fig}
use simtix.Draw.Built.{IsConsistent, Built-IsConsistent}

abbrev mm : ℕ → ℤ
mm n = pos (n * 1_000_000_000)

abbrev or_empty : Option Fig → Fig
or_empty none = empty_fig
or_empty (some f) = f

abbrev first_of : Option (Fig × List Point) → Fig
first_of none = empty_fig
first_of (some r) = r.0

-- Two blocks 50 mm apart, joined by a wire, with a label above it.
abbrev one_box : Fig
one_box = or_empty (box "a" (mm 0) (mm 0) (mm 10) (mm 10) [] ctl 70 false false empty_fig)

abbrev two_boxes : Fig
two_boxes = or_empty (box "b" (mm 60) (mm 0) (mm 10) (mm 10) [] ctl 70 false false one_box)

abbrev wired : Fig
wired = first_of (wire "w" ((mm 10, mm 5) ∷ (mm 60, mm 5) ∷ []) "sig" true two_boxes)

-- A block, a short wire from it, a wire of another net, and a label.
abbrev labelled : Fig
labelled = label (codes "s") (mm 35) (mm 6) south 60 (
    first_of (
      wire "v" ((mm 0, mm 20) ∷ (mm 5, mm 20) ∷ []) "sig" true
        (first_of (wire "w" ((mm 10, mm 5) ∷ (mm 11, mm 5) ∷ []) "sig" true one_box))))

left_point : IsCorner two_boxes (mm 10, mm 10)
unfolding box ◌+ℤ◌
left_point = record {
  shape = _;
  poly = _;
  has_shape = inl refl;
  has_poly = inl refl;
  has_point = inr (inr (inl refl));
}

right_point : IsCorner two_boxes (mm 60, mm 0)
unfolding box
right_point = record {
  shape = _;
  poly = _;
  has_shape = inr (inl refl);
  has_poly = inl refl;
  has_point = inl refl;
}

compact_order_example :
    (m : ℤ → ℤ) × ((compact x_axis (mm 5) [] two_boxes).0 ≡ map_axis x_axis m two_boxes)
    × (m (mm 10) ≤ℤ m (mm 60))
    × (m (mm 60) -ℤ m (mm 10) ≤ℤ mm 60 -ℤ mm 10)
compact_order_example =
    compact_order x_axis (mm 5) [] two_boxes (mm 10, mm 10) (mm 60, mm 0) (omega arith) left_point
      right_point (omega arith)

-- The two blocks end up 5 mm apart, 45 mm closer.
compact_total : (compact x_axis (mm 5) [] two_boxes).1 ≡ mm 45
unfolding box compact total_removed cuts merge sort_intervals wire_segments min_of max_of ◌+ℤ◌ ◌-ℤ◌
compact_total = refl

merged_two : merged x_axis two_boxes ≡ (mm 0, mm 10) ∷ (mm 60, mm 70) ∷ []
unfolding box merge sort_intervals occupied wire_segments min_of max_of ◌+ℤ◌
merged_two = refl

compact_corridors_example :
    ((mm 5 <ℤ mm 60 -ℤ mm 10)
      × ¬ IsKept [] (mm 10) (mm 60)
      × (squeeze (cuts_of x_axis (mm 5) [] two_boxes) (mm 60)
            -ℤ squeeze (cuts_of x_axis (mm 5) [] two_boxes) (mm 10)
          ≡ mm 5))
    ⊎ (((mm 60 -ℤ mm 10 ≤ℤ mm 5) ⊎ IsKept [] (mm 10) (mm 60))
        × (squeeze (cuts_of x_axis (mm 5) [] two_boxes) (mm 60)
              -ℤ squeeze (cuts_of x_axis (mm 5) [] two_boxes) (mm 10)
            ≡ mm 60 -ℤ mm 10))
compact_corridors_example =
    compact_corridors x_axis (mm 5) [] two_boxes [] (mm 0, mm 10) (mm 60, mm 70) [] (omega arith)
      merged_two

nothing_found : verify labelled ≡ []
unfolding box wire label verify bounds min_of max_of ◌+ℤ◌ ◌-ℤ◌ ◌*ℤ◌ wire_segments pip edge_closer
    edges_farther label_bbox closer crossings seg_hits_box plain
nothing_found = refl

verify-IsSafe_example : IsSafe labelled
verify-IsSafe_example = verify-IsSafe labelled nothing_found

wire_two :
    wire "w" ((mm 10, mm 5) ∷ (mm 60, mm 5) ∷ []) "sig" true two_boxes
    ≡ some (wired, (mm 10, mm 5) ∷ (mm 60, mm 5) ∷ [])
unfolding box wire ◌-ℤ◌
wire_two = refl

nets_two : NetsOrthogonal two_boxes.nets
unfolding box
nets_two = tt

wire-NetsOrthogonal_example :
    NetsOrthogonal wired.nets × IsOrthogonal ((mm 10, mm 5) ∷ (mm 60, mm 5) ∷ [])
wire-NetsOrthogonal_example =
    wire-NetsOrthogonal "w" ((mm 10, mm 5) ∷ (mm 60, mm 5) ∷ []) "sig" true two_boxes wired
      ((mm 10, mm 5) ∷ (mm 60, mm 5) ∷ []) nets_two wire_two

-- A diagonal wire raises.
wire_diagonal : wire "w" ((mm 10, mm 5) ∷ (mm 60, mm 6) ∷ []) "sig" true two_boxes ≡ none
unfolding box wire ◌-ℤ◌
wire_diagonal = refl

stub_succeeds_example :
    (g : Fig) × (stub "s" (mm 5, mm 10) up (pos 3_000_000_000) (codes "wr") 50 "ctl" true two_boxes
      ≡ some g)
    × NetsOrthogonal g.nets
stub_succeeds_example =
    stub_succeeds "s" (mm 5, mm 10) up 3_000_000_000 (codes "wr") 50 "ctl" true two_boxes
      (omega arith) nets_two

one_made : box "a" (mm 0) (mm 0) (mm 10) (mm 10) [] ctl 70 false false empty_fig ≡ some one_box
unfolding box
one_made = refl

two_made : box "b" (mm 60) (mm 0) (mm 10) (mm 10) [] ctl 70 false false one_box ≡ some two_boxes
unfolding box
two_made = refl

-- A name that is taken raises.
box_twice : box "a" (mm 60) (mm 0) (mm 10) (mm 10) [] ctl 70 false false one_box ≡ none
unfolding box
box_twice = refl

Built-IsConsistent_example : IsConsistent wired
Built-IsConsistent_example = Built-IsConsistent (
    called
      (called
        (called started (a_box "a" (mm 0) (mm 0) (mm 10) (mm 10) [] ctl 70 false false one_made))
        (a_box "b" (mm 60) (mm 0) (mm 10) (mm 10) [] ctl 70 false false two_made))
      (a_wire "w" ((mm 10, mm 5) ∷ (mm 60, mm 5) ∷ []) _ "sig" true wire_two))
