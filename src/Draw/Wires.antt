-- ===== src/Draw/Wires.antt =====
-- Adding wires and labels in docs/figs/datapath_tikz/dp_engine.py: wire, label, stub.
use Prim.Native.String.{String}
use text.Mathlib.Text as Text
use simtix.Base.{
  ℕ, List, [], ◌∷◌, ◌++◌, Option, none, some, Bool, true, false, ◌&&◌, ◌||◌, if◌then◌else◌,
}
use simtix.Base.Int.{ℤ, pos, negsuc, ◌+ℤ◌, ◌-ℤ◌, ◌*ℤ◌, ltb_ℤ, eqb_ℤ, abs_of}
use simtix.Draw.Figure.{Point, Polyline, Net, Anchor, north, south, east, west, Fig}

-- `abs(a - b) > 1e-6`
abbrev pub differs : ℤ → ℤ → Bool
differs a b = ltb_ℤ (pos 1000) (abs_of (a -ℤ b))

-- The points of a polyline, each one that is at its predecessor's place left out.
unfoldable pub distinct_from : Point → List Point → List Point
distinct_from a [] = []
distinct_from a (p ∷ pts) =
    let moved = p ∷ distinct_from p pts in
    let rest = distinct_from a pts in if differs p.0 a.0 || differs p.1 a.1 then moved else rest

-- `abs(a - b) < 0.05 and a != b`
abbrev pub jitters : ℤ → ℤ → Bool
jitters a b = ltb_ℤ (abs_of (a -ℤ b)) (pos 50_000_000) && (if eqb_ℤ a b then false else true)

-- `q[k - 1]` at the last step, and `q[k]` at the others.
abbrev pub snap_last : Point → Point → Point
snap_last a b = if jitters a.0 b.0 then (b.0, a.1) else if jitters a.1 b.1 then (a.0, b.1) else a

abbrev pub snap_next : Point → Point → Point
snap_next a b = if jitters a.0 b.0 then (a.0, b.1) else if jitters a.1 b.1 then (b.0, a.1) else b

-- The loop over `k`; `a` is `q[k - 1]`.
unfoldable pub snap_from : Point → List Point → List Point
snap_from a [] = a ∷ []
snap_from a (b ∷ []) = snap_last a b ∷ b ∷ []
snap_from a (b ∷ c ∷ pts) = a ∷ snap_from (snap_next a b) (c ∷ pts)

abbrev pub is_diagonal : Point → Point → Bool
is_diagonal a b = differs a.0 b.0 && differs a.1 b.1

abbrev pub has_diagonal : List Point → Bool
has_diagonal [] = false
has_diagonal (a ∷ []) = false
has_diagonal (a ∷ b ∷ pts) = is_diagonal a b || has_diagonal (b ∷ pts)

-- `self.nets.setdefault(net, ...)` and the new line behind the others.
unfoldable pub add_line : String → String → Polyline → List (String × Net) → List (String × Net)
add_line net style line [] = (net, record { lines = line ∷ []; style = style }) ∷ []
add_line net style line (e ∷ nets) =
    let rest = add_line net style line nets in
    if Text.◌==◌ net e.0
    then (e.0, record e.1 { lines = e.1.lines ++ line ∷ [] }) ∷ nets
    else e ∷ rest

-- `none` is the ValueError of a segment that is not orthogonal.
unfoldable pub wire : String → List Point → String → Bool → Fig → Option (Fig × List Point)
unfolding distinct_from snap_from add_line
wire net [] style arrow f = none
wire net (p ∷ pts) style arrow f =
    let q = snap_from p (distinct_from p pts) in
    if has_diagonal q
    then none
    else some (record f { nets = add_line net style (record { pts = q; arrow = arrow }) f.nets }, q)

unfoldable pub label : List ℕ → ℤ → ℤ → Anchor → ℕ → Fig → Fig
label text x y anchor pt f = record f {
  labels = f.labels ++ record { text = text; x = x; y = y; anchor = anchor; pt = pt } ∷ [];
}

pub data Direction : Type 0 where
  down up left right : Direction

abbrev pub step_of : Direction → ℤ × ℤ
step_of down = (pos 0, negsuc 0)
step_of up = (pos 0, pos 1)
step_of left = (negsuc 0, pos 0)
step_of right = (pos 1, pos 0)

abbrev pub anchor_of : Direction → Anchor
anchor_of down = north
anchor_of up = south
anchor_of left = east
anchor_of right = west

-- The label stands 0.3 mm beyond the far end.
unfoldable pub stub : String → Point → Direction → ℤ → List ℕ → ℕ → String → Bool → Fig → Option Fig
unfolding wire label
stub net p direction len text pt style arrow f =
    let (dx, dy) = step_of direction in
    let far : Point = (p.0 +ℤ dx *ℤ len, p.1 +ℤ dy *ℤ len) in
    elim (wire net (far ∷ p ∷ []) style arrow f) [
      | none ↦ none
      | some (f', q) ↦ some (
          label text (far.0 +ℤ dx *ℤ pos 300_000_000) (far.1 +ℤ dy *ℤ pos 300_000_000)
            (anchor_of direction) pt f')
    ]
