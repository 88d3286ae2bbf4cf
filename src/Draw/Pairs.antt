-- ===== src/Draw/Pairs.antt =====
-- The tests of docs/figs/datapath_tikz/dp_engine.py on one pair, where they find nothing.
use simtix.Base.{
  List, [], ◌∷◌, ◌++◌, inl, inr, Bool, true, false, ◌&&◌, Bool-cases, ◌≡◌, refl, sym, ap, ◌∙◌,
  arith, if◌then◌else◌, lt→ltb,
}
use simtix.Base.Int.{
  ℤ, pos, pos_part, neg_part, ◌-ℤ◌, ◌≤ℤ◌, ◌<ℤ◌, ltb_ℤ, min_of, max_of, abs_of, min_of_cases,
  max_of_cases, int_laws, eq_of_parts,
}
use simtix.Draw.Figure.{Point, Box, Shape, Label, Segment, label_bbox}
use simtix.Draw.Geometry.{is_level, seg_hits_box}
use simtix.Draw.Problems.{Problem, report, um}
use simtix.Draw.Verify.{do_overlap, too_close, boxes_meet}
use simtix.Draw.Apart.{Inside, ShapesApart, LabelsApart, OnSegment, InRange, Spaced}

pub append_nil_left : {A : Type 0} (xs ys : List A) → xs ++ ys ≡ [] → xs ≡ []
append_nil_left [] ys e = refl
append_nil_left (x ∷ xs) ys e = cc

pub append_nil_right : {A : Type 0} (xs ys : List A) → xs ++ ys ≡ [] → ys ≡ []
append_nil_right [] ys e = e
append_nil_right (x ∷ xs) ys e = cc

pub report_nil : (b : Bool) (e : Problem) → report b e ≡ [] → b ≡ false
report_nil true e h = cc
report_nil false e h = refl

and_true : (a b : Bool) → a ≡ true → b ≡ true → (a && b) ≡ true
and_true a b h k = rw (h, k) refl

lt→ltb_ℤ : (a b : ℤ) → a <ℤ b → ltb_ℤ a b ≡ true
lt→ltb_ℤ a b h = lt→ltb _ _ h

not_both : (b : Bool) → b ≡ true → b ≡ false → ⊥
not_both b h k = cc

-- Four tests as they stand in the conditions for two boxes.
four_tests :
    (a0 a1 b0 b1 c0 c1 d0 d1 : ℤ)
    → a0 <ℤ a1
    → b0 <ℤ b1
    → c0 <ℤ c1
    → d0 <ℤ d1
    → (ltb_ℤ a0 a1 && ltb_ℤ b0 b1 && ltb_ℤ c0 c1 && ltb_ℤ d0 d1) ≡ false
    → ⊥
four_tests a0 a1 b0 b1 c0 c1 d0 d1 ha hb hc hd =
    not_both _
      (rw (lt→ltb_ℤ a0 a1 ha, lt→ltb_ℤ b0 b1 hb, lt→ltb_ℤ c0 c1 hc, lt→ltb_ℤ d0 d1 hd) refl)

pub do_overlap-ShapesApart : (s t : Shape) → do_overlap s.bb t.bb ≡ false → ShapesApart s t
do_overlap-ShapesApart s t h p q ps pt qs qt hx hy =
    four_tests s.bb.x0 (t.bb.x1 -ℤ pos (um 50)) t.bb.x0 (s.bb.x1 -ℤ pos (um 50)) s.bb.y0
      (t.bb.y1 -ℤ pos (um 50)) t.bb.y0 (s.bb.y1 -ℤ pos (um 50)) (omega (int_laws, ps, qt, hx))
      (omega (int_laws, pt, qs, hx)) (omega (int_laws, ps, qt, hy)) (omega (int_laws, pt, qs, hy)) h

pub boxes_meet-LabelsApart :
    (l k : Label) → boxes_meet (label_bbox l) (label_bbox k) ≡ false → LabelsApart l k
boxes_meet-LabelsApart l k h p pl pk = boxes_apart (label_bbox l) (label_bbox k) h pl pk
  where
    boxes_apart : (a b : Box) → boxes_meet a b ≡ false → Inside p a → Inside p b → ⊥
    boxes_apart a b h pa pb =
        four_tests a.x0 b.x1 b.x0 a.x1 a.y0 b.y1 b.y0 a.y1 (omega (arith, pa, pb))
          (omega (arith, pa, pb)) (omega (arith, pa, pb)) (omega (arith, pa, pb)) h

level_self : (a b : ℤ) → a ≡ b → is_level a b ≡ true
level_self a b e = rw (e, eq_of_parts (b -ℤ b) (pos 0) (omega int_laws)) refl

-- A segment that seg_hits_box lets pass has no point inside the box.
pub seg_hits_box_lem :
    (s : Segment) (bb : Box) (p : Point)
    → seg_hits_box s.a s.b bb ≡ false
    → OnSegment p s
    → Inside p bb
    → ⊥
unfolding seg_hits_box
seg_hits_box_lem s bb p h (inl on) i =
    let e = level_self s.a.1 s.b.1 on.0 in
    let k : (ltb_ℤ bb.y0 s.a.1
          && ltb_ℤ s.a.1 bb.y1
          && ltb_ℤ (min_of s.a.0 s.b.0) bb.x1
          && ltb_ℤ bb.x0 (max_of s.a.0 s.b.0))
        ≡ false =
      sym (
        ap
          (λ b.
            if b
            then (ltb_ℤ bb.y0 s.a.1
                && ltb_ℤ s.a.1 bb.y1
                && ltb_ℤ (min_of s.a.0 s.b.0) bb.x1
                && ltb_ℤ bb.x0 (max_of s.a.0 s.b.0))
            else (ltb_ℤ bb.x0 s.a.0
                && ltb_ℤ s.a.0 bb.x1
                && ltb_ℤ (min_of s.a.1 s.b.1) bb.y1
                && ltb_ℤ bb.y0 (max_of s.a.1 s.b.1)))
          e)
      ∙ h in
    let (yp, yn) : (pos_part p.1 ≡ pos_part s.a.1) × (neg_part p.1 ≡ neg_part s.a.1) =
      (ap pos_part on.1, ap neg_part on.1) in
    four_tests bb.y0 s.a.1 s.a.1 bb.y1 (min_of s.a.0 s.b.0) bb.x1 bb.x0 (max_of s.a.0 s.b.0)
      (omega (arith, i, yp, yn)) (omega (arith, i, yp, yn)) (omega (arith, i, on))
      (omega (arith, i, on)) k
seg_hits_box_lem s bb p h (inr on) i =
    let k : (ltb_ℤ bb.x0 s.a.0
          && ltb_ℤ s.a.0 bb.x1
          && ltb_ℤ (min_of s.a.1 s.b.1) bb.y1
          && ltb_ℤ bb.y0 (max_of s.a.1 s.b.1))
        ≡ false =
      sym (
        ap
          (λ b.
            if b
            then (ltb_ℤ bb.y0 s.a.1
                && ltb_ℤ s.a.1 bb.y1
                && ltb_ℤ (min_of s.a.0 s.b.0) bb.x1
                && ltb_ℤ bb.x0 (max_of s.a.0 s.b.0))
            else (ltb_ℤ bb.x0 s.a.0
                && ltb_ℤ s.a.0 bb.x1
                && ltb_ℤ (min_of s.a.1 s.b.1) bb.y1
                && ltb_ℤ bb.y0 (max_of s.a.1 s.b.1)))
          on.0)
      ∙ h in
    let (xp, xn) : (pos_part p.0 ≡ pos_part s.a.0) × (neg_part p.0 ≡ neg_part s.a.0) =
      (ap pos_part on.1, ap neg_part on.1) in
    four_tests bb.x0 s.a.0 s.a.0 bb.x1 (min_of s.a.1 s.b.1) bb.y1 bb.y0 (max_of s.a.1 s.b.1)
      (omega (arith, i, xp, xn)) (omega (arith, i, xp, xn)) (omega (arith, i, on))
      (omega (arith, i, on)) k

-- The ranges of two wire_segments.
InRange-both :
    (u : Point → ℤ) (s t : Segment) (x : ℤ)
    → InRange u x s
    → InRange u x t
    → (max_of (min_of (u s.a) (u s.b)) (min_of (u t.a) (u t.b)) ≤ℤ x)
      × (x ≤ℤ min_of (max_of (u s.a) (u s.b)) (max_of (u t.a) (u t.b)))
InRange-both u s t x hs ht = (
  low (min_of (u s.a) (u s.b)) (min_of (u t.a) (u t.b)) hs.0 ht.0,
  high (max_of (u s.a) (u s.b)) (max_of (u t.a) (u t.b)) hs.1 ht.1,
)
  where
    low : (a b : ℤ) → a ≤ℤ x → b ≤ℤ x → max_of a b ≤ℤ x
    low a b ha hb = elim (max_of_cases a b) [ inl c ↦ rw c.0 ha | inr c ↦ rw c.0 hb ]

    high : (a b : ℤ) → x ≤ℤ a → x ≤ℤ b → x ≤ℤ min_of a b
    high a b ha hb = elim (min_of_cases a b) [ inl c ↦ rw c.0 ha | inr c ↦ rw c.0 hb ]

pub too_close-Spaced :
    (u v : Point → ℤ) (s t : Segment) → too_close u v s t ≡ false → Spaced u v s t
too_close-Spaced u v s t h x x' xs xt xs' xt' far =
    let low = (InRange-both u s t x xs xt).0 in
    let high = (InRange-both u s t x' xs' xt').1 in
    elim (Bool-cases (ltb_ℤ (abs_of (v s.a -ℤ v t.a)) (pos (um 1600)))) [
      | inl near ↦ absurd (
          not_both _
            (and_true _ _
              (lt→ltb_ℤ (pos (um 50)) (max_both -ℤ min_both) (omega (int_laws, low, high, far)))
              near)
            h)
      | inr wide ↦ ground (arith, wide)
    ]
  where
    min_both : ℤ
    min_both = max_of (min_of (u s.a) (u s.b)) (min_of (u t.a) (u t.b))

    max_both : ℤ
    max_both = min_of (max_of (u s.a) (u s.b)) (max_of (u t.a) (u t.b))
