-- ===== src/Draw/Crossings.antt =====
-- Crossings and junctions in docs/figs/datapath_tikz/dp_engine.py.
use Prim.Native.String.{String}
use text.Mathlib.Text as Text
use simtix.Base.{
  ℕ, suc, List, [], ◌∷◌, ◌++◌, Bool, true, false, ◌&&◌, ◌||◌, ◌==◌, ◌*◌, if◌then◌else◌,
}
use simtix.Base.Int.{ℤ, pos, ◌+ℤ◌, ◌-ℤ◌, ◌*ℤ◌, ltb_ℤ, min_of, max_of}
use simtix.Draw.Figure.{Point, Polyline, Segment}
use simtix.Draw.Geometry.{is_level, closer}

-- `sorted((a, b))` is the pair of these.
pub record Crossing : Type 0 where
  pub x : ℤ
  pub y : ℤ
  pub horizontal : String
  pub vertical : String

abbrev pub is_horizontal : Segment → Bool
is_horizontal s = is_level s.a.1 s.b.1

abbrev pub is_vertical : Segment → Bool
is_vertical s = is_level s.a.0 s.b.0

-- `0.3` mm
abbrev pub margin : ℤ
margin = pos 300_000_000

-- A horizontal and a vertical segment of two nets, each more than 0.3 mm past the other's line.
abbrev pub do_cross : Segment → Segment → Bool
do_cross h v =
    (if Text.◌==◌ v.net h.net then false else true)
    && (ltb_ℤ (min_of h.a.0 h.b.0 +ℤ margin) v.a.0
        && ltb_ℤ v.a.0 (max_of h.a.0 h.b.0 -ℤ margin)
        && ltb_ℤ (min_of v.a.1 v.b.1 +ℤ margin) h.a.1
        && ltb_ℤ h.a.1 (max_of v.a.1 v.b.1 -ℤ margin))

unfoldable pub select : (Segment → Bool) → List Segment → List Segment
select p [] = []
select p (s ∷ segs) = let rest = select p segs in if p s then s ∷ rest else rest

-- The inner loop, over `V`.
unfoldable pub crossings_of : Segment → List Segment → List Crossing
crossings_of h [] = []
crossings_of h (v ∷ vs) =
    let rest = crossings_of h vs in
    if do_cross h v
    then record { x = v.a.0; y = h.a.1; horizontal = h.net; vertical = v.net } ∷ rest
    else rest

unfoldable pub crossings_from : List Segment → List Segment → List Crossing
unfolding crossings_of
crossings_from [] vs = []
crossings_from (h ∷ hs) vs = crossings_of h vs ++ crossings_from hs vs

unfoldable pub crossings : List Segment → List Crossing
unfolding select crossings_from
crossings segs = crossings_from (select is_horizontal segs) (select is_vertical segs)

-- `any(dist_seg(p, u, v) < 0.05 for u, v in zip(q, q[1:]))`
abbrev touches : Point → List Point → Bool
touches p [] = false
touches p (u ∷ []) = false
touches p (u ∷ v ∷ q) = closer p u v 50_000_000 || touches p (v ∷ q)

-- `math.hypot(p[0] - q[0], p[1] - q[1]) > 0.05`
abbrev is_away : Point → Point → Bool
is_away p q =
    ltb_ℤ (pos (50_000_000 * 50_000_000))
      ((p.0 -ℤ q.0) *ℤ (p.0 -ℤ q.0) +ℤ (p.1 -ℤ q.1) *ℤ (p.1 -ℤ q.1))

abbrev last_point : Point → List Point → Point
last_point p [] = p
last_point p (q ∷ pts) = last_point q pts

-- The loop over the other lines, with the line's own place and those lines' places counted; the first
-- one that the point touches decides.
unfoldable branch_from : Point → ℕ → ℕ → List Polyline → List Point
branch_from p i j [] = []
branch_from p i j (l ∷ lines) =
    let rest = branch_from p i (suc j) lines in
    let found = if is_away p (last_point p l.pts) then p ∷ [] else [] in
    if j == i then rest else if touches p l.pts then found else rest

unfoldable dots_from : ℕ → List Polyline → List Polyline → List Point
unfolding branch_from
dots_from i [] lines = []
dots_from i (l ∷ ls) lines =
    let rest = dots_from (suc i) ls lines in
    elim (l.pts) [ [] ↦ rest | p ∷ _ ↦ branch_from p i 0 lines ++ rest ]

abbrev all_away : Point → List Point → Bool
all_away d [] = true
all_away d (e ∷ out) = is_away d e && all_away d out

-- The loop over `dots`, with `out` so far.
unfoldable thin_from : List Point → List Point → List Point
thin_from out [] = out
thin_from out (d ∷ dots) =
    let kept = thin_from (out ++ d ∷ []) dots in
    let dropped = thin_from out dots in if all_away d out then kept else dropped

unfoldable pub junctions : List Polyline → List Point
unfolding dots_from thin_from
junctions lines = thin_from [] (dots_from 0 lines lines)
