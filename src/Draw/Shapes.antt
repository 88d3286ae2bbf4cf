-- ===== src/Draw/Shapes.antt =====
-- The blocks of a figure in docs/figs/datapath_tikz/dp_engine.py: _add, box, reg, mux, bar, group.
-- Halves and fifths of lengths are exact on multiples of 10 units, that is of 10⁻⁸ mm.
use Prim.Native.String.{String}
use text.Mathlib.Text as Text
use simtix.Base.{
  ℕ, suc, ◌*◌, ◌/◌, List, [], ◌∷◌, ◌++◌, map, Option, none, some, Bool, true, false, ◌&&◌, ◌||◌,
  if◌then◌else◌,
}
use simtix.Base.Int.{ℤ, pos, negsuc, ◌+ℤ◌, ◌-ℤ◌, ltb_ℤ, min_of}
use simtix.Draw.Text.{text_wh}
use simtix.Draw.Figure.{
  Point, Poly, Shape, Kind, reg, mux, Fig, north_west, north_east, south_west, south_east, bounds,
  rect_poly, min_all, max_all,
}
use simtix.Draw.Wires.{label}

-- `set_poly` on a new shape.
abbrev pub new_shape : String → Kind → Poly → List Poly → List Point → Shape
new_shape name kind poly extra pts = record {
  name = name;
  kind = kind;
  poly = poly;
  extra_polys = extra;
  pts = pts;
  bb = bounds poly;
}

unfoldable pub has_name : String → List Shape → Bool
has_name name [] = false
has_name name (s ∷ shapes) = Text.◌==◌ name s.name || has_name name shapes

-- `none` is the failed assertion of a name that is taken.
unfoldable pub add : Shape → Fig → Option Fig
unfolding has_name
add s f = if has_name s.name f.shapes then none else some (record f { shapes = f.shapes ++ s ∷ [] })

-- `if text:`
abbrev pub has_text : List ℕ → Bool
has_text [] = false
has_text (c ∷ text) = true

abbrev pub halved : ℤ → ℤ
halved (pos n) = pos (n / 2)
halved (negsuc n) = pos 0 -ℤ pos (suc n / 2)

-- `0.9 * k` mm
abbrev offset : ℕ → ℤ
offset k = pos (k * 900_000_000)

-- The corners of the two copies behind a replicated block.
abbrev copies : ℤ → ℤ → ℤ → ℤ → Bool → List Point
copies x y w h true =
    (x +ℤ offset 2, y +ℤ offset 2)
    ∷ (x +ℤ w +ℤ offset 2, y +ℤ h +ℤ offset 2)
    ∷ (x +ℤ offset 1, y +ℤ offset 1)
    ∷ (x +ℤ w +ℤ offset 1, y +ℤ h +ℤ offset 1)
    ∷ []
copies x y w h false = []

-- The test for the warning: 0.8 mm and 0.6 mm less than the block, turned if the text is.
abbrev overflows : List ℕ → ℕ → ℤ → ℤ → Bool → Bool
overflows text pt w h rot =
    let (tw, th) = text_wh text pt in
    let (tw', th') : ℕ × ℕ = if rot then (th, tw) else (tw, th) in
    ltb_ℤ (w -ℤ pos 800_000_000) (pos tw') || ltb_ℤ (h -ℤ pos 600_000_000) (pos th')

-- `v * num / den`
unfoldable pub share : ℤ → ℕ → ℕ → ℤ
share (pos n) num den = pos (n * num / den)
share (negsuc n) num den = pos 0 -ℤ pos (suc n * num / den)

unfoldable pub box : String → ℤ → ℤ → ℤ → ℤ → List ℕ → Kind → ℕ → Bool → Bool → Fig → Option Fig
unfolding add text_wh rect_poly
box name x y w h text kind pt rep rot f =
    let extra = if rep then rect_poly x y (w +ℤ offset 2) (h +ℤ offset 2) ∷ [] else [] in
    let corners = copies x y w h rep ++ (x, y) ∷ (x +ℤ w, y +ℤ h) ∷ [] in
    let center = if has_text text then (x +ℤ halved w, y +ℤ halved h) ∷ [] else [] in
    let warned =
      if has_text text && overflows text pt w h rot then f.warn ++ name ∷ [] else f.warn in
    add (new_shape name kind (rect_poly x y w h) extra (corners ++ center))
      (record f { warn = warned })

-- The clock triangle is `min(2.2, w * 0.55)` wide and 0.8 times that high.
unfoldable pub reg_block : String → ℤ → ℤ → ℤ → ℤ → List ℕ → Fig → Option Fig
unfolding add rect_poly share
reg_block name x y w h text f =
    let cw = min_of (pos 2_200_000_000) (share w 55 100) in
    let clock =
      (x +ℤ halved w -ℤ halved cw, y)
      ∷ (x +ℤ halved w, y +ℤ share cw 80 100)
      ∷ (x +ℤ halved w +ℤ halved cw, y)
      ∷ [] in
    let center =
      if has_text text then (x +ℤ halved w, y +ℤ halved h +ℤ pos 600_000_000) ∷ [] else [] in
    add (new_shape name reg (rect_poly x y w h) [] ((x, y) ∷ (x +ℤ w, y +ℤ h) ∷ clock ++ center)) f

-- Ports of a multiplexer.
pub record Ports : Type 0 where
  pub inp : List Point
  pub out : Point
  pub selpt : Point

-- The trapezoid for the inputs `y ∷ ys`.
abbrev mux_d : ℤ → ℤ → ℤ
mux_d y0 y1 = min_of (pos 2_000_000_000) (share (y1 -ℤ y0) 20 100)

abbrev mux_poly : ℤ → ℤ → ℤ → ℤ → Bool → Poly
mux_poly x w y0 y1 flip =
    let d = mux_d y0 y1 in
    if flip
    then (x, y0 +ℤ d) ∷ (x +ℤ w, y0) ∷ (x +ℤ w, y1) ∷ (x, y1 -ℤ d) ∷ []
    else (x, y0) ∷ (x +ℤ w, y0 +ℤ d) ∷ (x +ℤ w, y1 -ℤ d) ∷ (x, y1) ∷ []

abbrev mux_ports : ℤ → ℤ → List ℤ → ℤ → ℤ → Bool → Bool → Ports
mux_ports x w ys y0 y1 sel_bottom flip =
    let (xin, xout) : ℤ × ℤ = if flip then (x +ℤ w, x) else (x, x +ℤ w) in
    let d = mux_d y0 y1 in
    record {
      inp = map (λ yy. (xin, yy)) ys;
      out = (xout, halved (y0 +ℤ y1));
      selpt = (x +ℤ halved w, if sel_bottom then y0 +ℤ halved d else y1 -ℤ halved d);
    }

-- The points of the input texts that are not empty, for the inputs that have one.
abbrev mux_texts : ℤ → ℤ → List ℤ → List Bool → Bool → List Point
mux_texts x w [] ins flip = []
mux_texts x w (yy ∷ ys) [] flip = []
mux_texts x w (yy ∷ ys) (shown ∷ ins) flip =
    let at = if flip then x +ℤ w -ℤ pos 100_000_000 else x +ℤ pos 100_000_000 in
    let rest = mux_texts x w ys ins flip in if shown then (at, yy) ∷ rest else rest

-- `ys` is `y ∷ rest`: without inputs Python's `max` raises.
unfoldable pub mux_block :
    String → ℤ → ℤ → List ℤ → ℤ → ℤ → Bool → List Bool → Bool → Fig → Option (Fig × Ports)
unfolding add
mux_block name x y rest w pad sel_bottom ins flip f =
    let y1 = max_all y rest +ℤ pad in
    let y0 = min_all y rest -ℤ pad in
    let poly = mux_poly x w y0 y1 flip in
    let s = new_shape name mux poly [] (poly ++ mux_texts x w (y ∷ rest) ins flip) in
    elim (add s f) [
      | none ↦ none
      | some g ↦ some (g, mux_ports x w (y ∷ rest) y0 y1 sel_bottom flip)
    ]

-- A tall pipeline register: the place of its title counts as a decoration.
abbrev bar_shape : String → ℤ → ℤ → ℤ → ℤ → List ℕ → Bool → Shape
bar_shape name x y w h text below =
    let mid = x +ℤ halved w in
    let marks =
      (x, y)
      ∷ (x +ℤ w, y +ℤ h)
      ∷ (x +ℤ pos 300_000_000, y)
      ∷ (mid, y +ℤ pos 1_800_000_000)
      ∷ (x +ℤ w -ℤ pos 300_000_000, y)
      ∷ [] in
    let left = mid -ℤ pos 3_000_000_000 in
    let under = rect_poly left (y -ℤ pos 3_600_000_000) (pos 6_000_000_000) (pos 3_000_000_000) in
    let over = rect_poly left (y +ℤ h +ℤ pos 600_000_000) (pos 6_000_000_000) (pos 3_000_000_000) in
    let title = if below then under else over in
    let place : Point = (mid, if below then y -ℤ pos 600_000_000 else y +ℤ h +ℤ pos 600_000_000) in
    new_shape name reg (rect_poly x y w h) (if has_text text then title ∷ [] else [])
      (marks ++ (if has_text text then place ∷ [] else []))

unfoldable pub bar : String → ℤ → ℤ → ℤ → ℤ → List ℕ → Bool → Fig → Option Fig
unfolding add rect_poly
bar name x y w h text below f = add (bar_shape name x y w h text below) f

-- Its title is a label at one of the four corners; `north` and `west` say which.
unfoldable pub group : ℤ → ℤ → ℤ → ℤ → List ℕ → Bool → Bool → ℕ → String → Fig → Fig
unfolding label
group x0 y0 x1 y1 title north west pt fill f =
    let tx = if west then x0 +ℤ pos 1_600_000_000 else x1 -ℤ pos 1_600_000_000 in
    let ty = if north then y1 -ℤ pos 1_200_000_000 else y0 +ℤ pos 1_200_000_000 in
    let anchor =
      if north
      then if west then north_west else north_east
      else if west
      then south_west
      else south_east in
    label title tx ty anchor pt
      (record f { groups = f.groups ++ (record { x0 = x0; y0 = y0; x1 = x1; y1 = y1 }, fill) ∷ [] })
