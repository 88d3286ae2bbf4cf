-- ===== src/Draw/Figure.antt =====
-- The state of a figure in docs/figs/datapath_tikz/dp_engine.py (Shape, Fig): shapes, nets, labels and
-- panels. A coordinate is a number of units of 10⁻⁹ mm.
use Prim.Native.String.{String}
use simtix.Base.{ℕ, ◌+◌, ◌/◌, List, [], ◌∷◌, ◌++◌, map, Bool}
use simtix.Base.Int.{ℤ, pos, ◌+ℤ◌, ◌-ℤ◌, min_of, max_of}
use simtix.Draw.Text.{text_wh}

abbrev pub Point : Type 0
Point = ℤ × ℤ

abbrev pub Poly : Type 0
Poly = List Point

-- (x0, y0, x1, y1)
pub record Box : Type 0 where
  pub x0 : ℤ
  pub y0 : ℤ
  pub x1 : ℤ
  pub y1 : ℤ

-- The keys of FILLS.
pub data Kind : Type 0 where
  mem alu ctl reg ext mux gate : Kind

-- The TikZ strings of a shape are left out; `pts` holds the points that they refer to.
pub record Shape : Type 0 where
  pub name : String
  pub kind : Kind
  pub poly : Poly
  pub extra_polys : List Poly
  pub pts : List Point
  pub bb : Box

pub record Polyline : Type 0 where
  pub pts : List Point
  pub arrow : Bool

pub record Net : Type 0 where
  pub lines : List Polyline
  pub style : String

-- The anchors of TikZ: `south` stands in those of the first row, `north` in those of the second.
pub data Anchor : Type 0 where
  south south_west south_east : Anchor
  north north_west north_east : Anchor
  west east center : Anchor

-- A label without its colour and font; `pt` in tenths of a point.
pub record Label : Type 0 where
  pub text : List ℕ
  pub x : ℤ
  pub y : ℤ
  pub anchor : Anchor
  pub pt : ℕ

pub record Fig : Type 0 where
  pub shapes : List Shape
  pub nets : List (String × Net)
  pub labels : List Label
  pub bands : List (Box × String)
  pub frames : List Box
  pub groups : List (Box × String)
  pub warn : List String

-- `min(...)` and `max(...)` of a first value and the others.
abbrev pub min_all : ℤ → List ℤ → ℤ
min_all v [] = v
min_all v (w ∷ ws) = min_of v (min_all w ws)

abbrev pub max_all : ℤ → List ℤ → ℤ
max_all v [] = v
max_all v (w ∷ ws) = max_of v (max_all w ws)

abbrev pub first : Point → ℤ
first p = p.0

abbrev pub second : Point → ℤ
second p = p.1

-- `_bb`; a polygon has a corner, or Python's `min` raises: the empty one gets a box at the origin.
unfoldable pub bounds : Poly → Box
bounds [] = record { x0 = pos 0; y0 = pos 0; x1 = pos 0; y1 = pos 0 }
bounds (p ∷ poly) =
    let xs = map first poly in
    let ys = map second poly in
    record { x0 = min_all p.0 xs; y0 = min_all p.1 ys; x1 = max_all p.0 xs; y1 = max_all p.1 ys }

unfoldable pub rect_poly : ℤ → ℤ → ℤ → ℤ → Poly
rect_poly x y w h = (x, y) ∷ (x +ℤ w, y) ∷ (x +ℤ w, y +ℤ h) ∷ (x, y +ℤ h) ∷ []

pub record Segment : Type 0 where
  pub net : String
  pub a : Point
  pub b : Point

abbrev pub line_segments : String → List Point → List Segment
line_segments net [] = []
line_segments net (a ∷ []) = []
line_segments net (a ∷ b ∷ pts) = record { net = net; a = a; b = b } ∷ line_segments net (b ∷ pts)

abbrev pub net_segments : String → List Polyline → List Segment
net_segments net [] = []
net_segments net (l ∷ lines) = line_segments net l.pts ++ net_segments net lines

-- `wire_segments()`, without the places of a line in its net and of a segment in its line.
unfoldable pub wire_segments : List (String × Net) → List Segment
wire_segments [] = []
wire_segments (e ∷ nets) = net_segments e.0 e.1.lines ++ wire_segments nets

-- `cx`
abbrev center_x : Anchor → ℤ → ℤ → ℤ
center_x south_west x half = x +ℤ half
center_x north_west x half = x +ℤ half
center_x west x half = x +ℤ half
center_x south_east x half = x -ℤ half
center_x north_east x half = x -ℤ half
center_x east x half = x -ℤ half
center_x _ x half = x

-- `cy`
abbrev center_y : Anchor → ℤ → ℤ → ℤ
center_y south y half = y +ℤ half
center_y south_west y half = y +ℤ half
center_y south_east y half = y +ℤ half
center_y north y half = y -ℤ half
center_y north_west y half = y -ℤ half
center_y north_east y half = y -ℤ half
center_y _ y half = y

-- The width gets 0.5 mm and the height 0.3 mm more than the text; both are even numbers of units.
unfoldable pub label_bbox : Label → Box
unfolding text_wh
label_bbox l =
    let (w, h) = text_wh l.text l.pt in
    let hw = pos ((w + 500_000_000) / 2) in
    let hh = pos ((h + 300_000_000) / 2) in
    let cx = center_x l.anchor l.x hw in
    let cy = center_y l.anchor l.y hh in
    record { x0 = cx -ℤ hw; y0 = cy -ℤ hh; x1 = cx +ℤ hw; y1 = cy +ℤ hh }
