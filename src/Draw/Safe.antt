-- ===== src/Draw/Safe.antt =====
-- What a figure is like that passes the checks of docs/figs/datapath_tikz/dp_engine.py.
use simtix.Base.{List, [], ◌∷◌, ◌++◌, true, false, ◌≡◌, refl, sym, ap, ◌∙◌, if◌then◌else◌}
use simtix.Draw.Figure.{Shape, Label, Fig, Segment, wire_segments, label_bbox}
use simtix.Draw.Geometry.{seg_hits_box}
use simtix.Draw.Crossings.{is_horizontal, crossings}
use simtix.Draw.Problems.{report, parallel_h, parallel_v}
use simtix.Draw.Probe.{wires_on_shapes}
use simtix.Draw.Verify.{
  do_overlap, overlaps_of, shape_overlaps, too_close, wire_pair, pairs_of, wire_pairs, boxes_meet,
  label_wires, labels_on, label_pairs_of, label_pairs, verify, hops, parallels, ends_on,
  label_shapes,
}
use simtix.Draw.Apart.{
  AllOf, AllPairs, ShapesApart, LabelsApart, LabelClear, along_x, along_y, WiresApart,
}
use simtix.Draw.Pairs.{
  append_nil_left, append_nil_right, report_nil, do_overlap-ShapesApart, boxes_meet-LabelsApart,
  too_close-Spaced, seg_hits_box_lem,
}

pub record IsSafe (f : Fig) : Type 0 where
  pub shapes_apart : AllPairs ShapesApart f.shapes
  pub wires_apart : AllPairs WiresApart (wire_segments f.nets)
  pub labels_clear : AllOf (λ l. AllOf (LabelClear l) (wire_segments f.nets)) f.labels
  pub labels_apart : AllPairs LabelsApart f.labels

overlaps_of_nil : (s : Shape) (ts : List Shape) → overlaps_of s ts ≡ [] → AllOf (ShapesApart s) ts
overlaps_of_nil s [] e = tt
overlaps_of_nil s (t ∷ ts) e = (
  do_overlap-ShapesApart s t (report_nil _ _ (append_nil_left _ (overlaps_of s ts) e)),
  overlaps_of_nil s ts (append_nil_right (report (do_overlap s.bb t.bb) _) _ e),
)

shape_overlaps_nil :
    (shapes : List Shape) → shape_overlaps shapes ≡ [] → AllPairs ShapesApart shapes
unfolding shape_overlaps
shape_overlaps_nil [] e = tt
shape_overlaps_nil (s ∷ shapes) e = (
  overlaps_of_nil s shapes (append_nil_left _ (shape_overlaps shapes) e),
  shape_overlaps_nil shapes (append_nil_right (overlaps_of s shapes) _ e),
)

wire_pair-WiresApart : (s t : Segment) → wire_pair s t ≡ [] → WiresApart s t
wire_pair-WiresApart s t e other =
    let all : parallels s t ++ ends_on s t ++ ends_on t s ≡ [] =
      sym (ap (λ b. if b then [] else parallels s t ++ ends_on s t ++ ends_on t s) other) ∙ e in
    let par : parallels s t ≡ [] =
      append_nil_left _ (ends_on s t)
        (append_nil_left (parallels s t ++ ends_on s t) (ends_on t s) all) in
    (
      λ hs ht. too_close-Spaced along_x along_y s t (report_nil _ _ (across s t hs ht par)),
      λ hs ht. too_close-Spaced along_y along_x s t (report_nil _ _ (upright s t hs ht par)),
    )
  where
    across :
        (s t : Segment)
        → is_horizontal s ≡ true
        → is_horizontal t ≡ true
        → parallels s t ≡ []
        → report (too_close along_x along_y s t) (parallel_h s.net t.net) ≡ []
    across s t hs ht par = sym (rw (hs, ht) refl) ∙ par

    upright :
        (s t : Segment)
        → is_horizontal s ≡ false
        → is_horizontal t ≡ false
        → parallels s t ≡ []
        → report (too_close along_y along_x s t) (parallel_v s.net t.net) ≡ []
    upright s t hs ht par = sym (rw (hs, ht) refl) ∙ par

pairs_of_nil : (s : Segment) (ts : List Segment) → pairs_of s ts ≡ [] → AllOf (WiresApart s) ts
pairs_of_nil s [] e = tt
pairs_of_nil s (t ∷ ts) e = (
  wire_pair-WiresApart s t (append_nil_left _ (pairs_of s ts) e),
  pairs_of_nil s ts (append_nil_right (wire_pair s t) _ e),
)

wire_pairs_nil : (segs : List Segment) → wire_pairs segs ≡ [] → AllPairs WiresApart segs
unfolding wire_pairs
wire_pairs_nil [] e = tt
wire_pairs_nil (s ∷ segs) e = (
  pairs_of_nil s segs (append_nil_left _ (wire_pairs segs) e),
  wire_pairs_nil segs (append_nil_right (pairs_of s segs) _ e),
)

label_wires_nil :
    (l : Label) (segs : List Segment)
    → label_wires l (label_bbox l) segs ≡ []
    → AllOf (LabelClear l) segs
label_wires_nil l [] e = tt
label_wires_nil l (s ∷ segs) e = (
  λ p.
      seg_hits_box_lem s (label_bbox l) p
        (report_nil _ _ (append_nil_left _ (label_wires l (label_bbox l) segs) e)),
  label_wires_nil l segs (append_nil_right (report (seg_hits_box s.a s.b (label_bbox l)) _) _ e),
)

labels_on_nil :
    (labels : List Label) (shapes : List Shape) (segs : List Segment)
    → labels_on labels shapes segs ≡ []
    → AllOf (λ l. AllOf (LabelClear l) segs) labels
unfolding labels_on
labels_on_nil [] shapes segs e = tt
labels_on_nil (l ∷ labels) shapes segs e = (
  label_wires_nil l segs (
      append_nil_right (label_shapes l (label_bbox l) shapes) _
        (append_nil_left _ (labels_on labels shapes segs) e)),
  labels_on_nil labels shapes segs (
      append_nil_right (label_shapes l (label_bbox l) shapes ++ label_wires l (label_bbox l) segs) _
        e),
)

label_pairs_of_nil :
    (l : Label) (ks : List Label) → label_pairs_of l ks ≡ [] → AllOf (LabelsApart l) ks
label_pairs_of_nil l [] e = tt
label_pairs_of_nil l (k ∷ ks) e = (
  boxes_meet-LabelsApart l k (report_nil _ _ (append_nil_left _ (label_pairs_of l ks) e)),
  label_pairs_of_nil l ks
      (append_nil_right (report (boxes_meet (label_bbox l) (label_bbox k)) _) _ e),
)

label_pairs_nil : (labels : List Label) → label_pairs labels ≡ [] → AllPairs LabelsApart labels
unfolding label_pairs
label_pairs_nil [] e = tt
label_pairs_nil (l ∷ labels) e = (
  label_pairs_of_nil l labels (append_nil_left _ (label_pairs labels) e),
  label_pairs_nil labels (append_nil_right (label_pairs_of l labels) _ e),
)

-- For every figure: when verify reports nothing, the boxes of two different shapes have no common
-- rectangle more than 0.05 mm wide and high; two parallel wire_segments of different nets that share more
-- than 0.05 mm are at least 1.6 mm apart; no point of an orthogonal segment lies inside the box of a
-- label; and no point lies inside the boxes of two labels.
pub verify-IsSafe : (f : Fig) → verify f ≡ [] → IsSafe f
unfolding verify
verify-IsSafe f e =
    let segs = wire_segments f.nets in
    let through_pairs = append_nil_left _ (hops (crossings segs) segs) e in
    let through_labels = append_nil_left _ (label_pairs f.labels) through_pairs in
    let through_wires = append_nil_left _ (labels_on f.labels f.shapes segs) through_labels in
    let through_shapes = append_nil_left _ (wire_pairs segs) through_wires in
    record {
      shapes_apart =
          shape_overlaps_nil f.shapes
            (append_nil_left _ (wires_on_shapes segs f.shapes) through_shapes);
      wires_apart = wire_pairs_nil segs (
          append_nil_right (shape_overlaps f.shapes ++ wires_on_shapes segs f.shapes) _
            through_wires);
      labels_clear =
          labels_on_nil f.labels f.shapes segs
            (append_nil_right _ (labels_on f.labels f.shapes segs) through_labels);
      labels_apart =
          label_pairs_nil f.labels (append_nil_right _ (label_pairs f.labels) through_pairs);
    }
