-- ===== src/Draw/Drawn.antt =====
-- Every crossing is drawn with a hop (`emit` in docs/figs/datapath_tikz/dp_engine.py).
use Prim.Native.String.{String}
use mathlib.Core.Path.{subst}
use simtix.Base.{
  List, [], ◌∷◌, map, Bool, true, false, ◌&&◌, inl, inr, ◌≡◌, refl, sym, ap, if◌then◌else◌,
}
use simtix.Base.Int.{ℤ, ◌+ℤ◌, ◌-ℤ◌, ltb_ℤ, min_of, max_of}
use simtix.Draw.Figure.{
  Point, Polyline, Net, Fig, Segment, line_segments, net_segments, wire_segments,
}
use simtix.Draw.Crossings.{Crossing, is_horizontal, do_cross, crossings, margin}
use simtix.Draw.Emit.{
  PathStep, hop, hops_at, inner_hops, sort_places, backwards, hop_steps, segment_hops, path_steps,
  Head, head_of, Command, path_command, line_commands, net_commands, label_command, emit_figure,
}
use simtix.Draw.Hops.{
  In, In-left, In-right, In-append, crossing_at, crossings-Crosses, In-hops_at, In-inner_hops,
  In-sort_places, In-backwards, In-hop_steps,
}

and_parts : (p q : Bool) → (p && q) ≡ true → (p ≡ true) × (q ≡ true)
and_parts true q e = (refl, e)
and_parts false true e = cc
and_parts false false e = cc

-- The segment s crosses at c: its hops hold the place.
In-segment_hops :
    (cross : List Crossing) (s v : Segment) (c : Crossing)
    → In c cross
    → is_horizontal s ≡ true
    → do_cross s v ≡ true
    → c ≡ crossing_at s v
    → In (hop (ltb_ℤ s.a.0 s.b.0) c.x c.y) (segment_hops cross c.horizontal s.a s.b)
unfolding segment_hops
In-segment_hops cross s v c m level across same =
    let (_, ends) = and_parts _ _ across in
    let (three, _) = and_parts _ _ ends in
    let (two, _) = and_parts _ _ three in
    let (left, right) = and_parts _ _ two in
    let y_same = ap (λ (z : Crossing). z.y) same in
    let xs =
      sort_places
        (inner_hops (min_of s.a.0 s.b.0) (max_of s.a.0 s.b.0) (hops_at c.horizontal s.a.1 cross)) in
    let ordered = if ltb_ℤ s.b.0 s.a.0 then backwards xs else xs in
    let rightward = ltb_ℤ s.a.0 s.b.0 in
    let placed = In-sort_places c.x _ (
      In-inner_hops (min_of s.a.0 s.b.0) (max_of s.a.0 s.b.0) c.x (hops_at c.horizontal s.a.1 cross)
        (In-hops_at c.horizontal s.a.1 cross c m refl (sym y_same))
        (within (min_of s.a.0 s.b.0) (max_of s.a.0 s.b.0) c.x v.a.0
          (ap (λ (z : Crossing). z.x) same) left right)) in
    rw level (
      subst (λ y. In (hop rightward c.x y) (hop_steps rightward s.a.1 ordered)) (sym y_same)
        (In-hop_steps rightward c.x s.a.1 ordered (either_way (ltb_ℤ s.b.0 s.a.0) c.x xs placed)))
  where
    within :
        (l r x z : ℤ)
        → x ≡ z
        → ltb_ℤ (l +ℤ margin) z ≡ true
        → ltb_ℤ z (r -ℤ margin) ≡ true
        → (ltb_ℤ (l +ℤ margin) x && ltb_ℤ x (r -ℤ margin)) ≡ true
    within l r x z e p q =
        subst (λ w. (ltb_ℤ (l +ℤ margin) w && ltb_ℤ w (r -ℤ margin)) ≡ true) (sym e) (rw p q)

    either_way : (b : Bool) (x : ℤ) (xs : List ℤ) → In x xs → In x (if b then backwards xs else xs)
    either_way true x xs m = In-backwards x xs m
    either_way false x xs m = m

-- A step of a segment is a step of its line's path.
In-path_steps :
    (cross : List Crossing) (net : String) (pts : List Point) (s : Segment) (st : PathStep)
    → In s (line_segments net pts)
    → In st (segment_hops cross net s.a s.b)
    → In st (path_steps cross net pts)
unfolding path_steps
In-path_steps cross net [] s st i m = absurd i
In-path_steps cross net (a ∷ []) s st i m = absurd i
In-path_steps cross net (a ∷ b ∷ pts) s st (inl e) m =
    In-left st (segment_hops cross net a b) _
      (subst (λ (z : Segment). In st (segment_hops cross net z.a z.b)) e m)
In-path_steps cross net (a ∷ b ∷ pts) s st (inr i) m =
    In-right st (segment_hops cross net a b) _ (inr (In-path_steps cross net (b ∷ pts) s st i m))

line_segments-net :
    (net : String) (pts : List Point) (s : Segment) → In s (line_segments net pts) → s.net ≡ net
line_segments-net net [] s m = absurd m
line_segments-net net (a ∷ []) s m = absurd m
line_segments-net net (a ∷ b ∷ pts) s (inl e) = ap (λ (z : Segment). z.net) e
line_segments-net net (a ∷ b ∷ pts) s (inr m) = line_segments-net net (b ∷ pts) s m

-- The path of a line with a segment s is drawn with the hops of s.
record HasPath (cross : List Crossing) (cmds : List Command) (s : Segment) : Type 0 where
  pub style : String
  pub head : Head
  pub start : Point
  pub steps : List PathStep
  pub listed : In (path_command style head start steps) cmds
  pub hops : (st : PathStep) → In st (segment_hops cross s.net s.a s.b) → In st steps

more_commands :
    {cross : List Crossing} {cmds cmds' : List Command} {s : Segment}
    → ((c : Command) → In c cmds → In c cmds')
    → HasPath cross cmds s
    → HasPath cross cmds' s
more_commands k p = record {
  style = p.style;
  head = p.head;
  start = p.start;
  steps = p.steps;
  listed = k _ p.listed;
  hops = p.hops;
}

line_commands-HasPath :
    (cross : List Crossing) (net style : String) (lines : List Polyline) (s : Segment)
    → In s (net_segments net lines)
    → HasPath cross (line_commands cross net style lines) s
line_commands-HasPath cross net style [] s m = absurd m
line_commands-HasPath cross net style (l ∷ lines) s m =
    elim (In-append s (line_segments net l.pts) (net_segments net lines) m) [
      | inl here ↦ first l.pts l.arrow (line_commands cross net style lines) here
      | inr later ↦
          behind l.pts l.arrow (line_commands cross net style lines)
            (line_commands-HasPath cross net style lines s later)
    ]
  where
    first :
        (pts : List Point) (arrow : Bool) (rest : List Command)
        → In s (line_segments net pts)
        → HasPath cross
            (elim pts [
              | [] ↦ rest
              | p ∷ q ↦
                  path_command style (head_of style arrow) p (path_steps cross net (p ∷ q)) ∷ rest
            ])
            s
    first [] arrow rest i = absurd i
    first (p ∷ q) arrow rest i = record {
      style = style;
      head = head_of style arrow;
      start = p;
      steps = path_steps cross net (p ∷ q);
      listed = inl refl;
      hops = λ st n.
          In-path_steps cross net (p ∷ q) s st i (
            subst (λ k. In st (segment_hops cross k s.a s.b)) (line_segments-net net (p ∷ q) s i)
              n);
    }

    behind :
        (pts : List Point) (arrow : Bool) (rest : List Command)
        → HasPath cross rest s
        → HasPath cross
            (elim pts [
              | [] ↦ rest
              | p ∷ q ↦
                  path_command style (head_of style arrow) p (path_steps cross net (p ∷ q)) ∷ rest
            ])
            s
    behind [] arrow rest h = h
    behind (p ∷ q) arrow rest h = more_commands (λ c i. inr i) h

net_commands-HasPath :
    (cross : List Crossing) (nets : List (String × Net)) (s : Segment)
    → In s (wire_segments nets)
    → HasPath cross (net_commands cross nets) s
unfolding net_commands wire_segments
net_commands-HasPath cross [] s m = absurd m
net_commands-HasPath cross (e ∷ nets) s m =
    elim (In-append s (net_segments e.0 e.1.lines) (wire_segments nets) m) [
      | inl here ↦
          more_commands (λ c i. In-left c _ _ (In-left c _ _ i))
            (line_commands-HasPath cross e.0 e.1.style e.1.lines s here)
      | inr later ↦
          more_commands (λ c i. In-right c _ _ i) (net_commands-HasPath cross nets s later)
    ]

-- A path with a hop at the crossing.
pub record IsDrawn (cmds : List Command) (c : Crossing) : Type 0 where
  pub style : String
  pub head : Head
  pub start : Point
  pub steps : List PathStep
  pub rightward : Bool
  pub listed : In (path_command style head start steps) cmds
  pub drawn : In (hop rightward c.x c.y) steps

-- For every figure, each crossing of two nets that emit_figure returns is drawn: among its commands is a path
-- with a hop at exactly the place of the crossing.
pub emit_figure-IsDrawn :
    (f : Fig) (c : Crossing) → In c (emit_figure f).1 → IsDrawn (emit_figure f).0 c
unfolding emit_figure
emit_figure-IsDrawn f c m =
    let cross = crossings (wire_segments f.nets) in
    let k = crossings-Crosses (wire_segments f.nets) c m in
    let p = net_commands-HasPath cross f.nets k.h k.among in
    let net_same = ap (λ (z : Crossing). z.horizontal) k.same in
    record {
      style = p.style;
      head = p.head;
      start = p.start;
      steps = p.steps;
      rightward = ltb_ℤ k.h.a.0 k.h.b.0;
      listed =
          In-left {A = Command} _ _ (map label_command f.labels)
            (In-right {A = Command} _ _ (net_commands cross f.nets) p.listed);
      drawn = p.hops _ (
          subst
            (λ net. In (hop (ltb_ℤ k.h.a.0 k.h.b.0) c.x c.y) (segment_hops cross net k.h.a k.h.b))
            net_same (In-segment_hops cross k.h k.v c m k.level k.across k.same));
    }
