-- ===== src/Draw/Curves.antt =====
-- The curved blocks of docs/figs/datapath_tikz/dp_engine.py: alu, circ and gate. A product with a
-- fraction, a sine or a cosine is rounded towards zero to a unit, 10⁻⁹ mm.
use Prim.Native.String.{String}
use simtix.Base.{
  ℕ, suc, ◌+◌, ◌-◌, ◌*◌, ◌/◌, ◌%◌, List, [], ◌∷◌, ◌++◌, map, Option, none, some, Bool, true, false,
  ◌==◌, if◌then◌else◌, get_or, range_from,
}
use simtix.Base.Int.{ℤ, pos, ◌+ℤ◌, ◌-ℤ◌}
use simtix.Draw.Figure.{Point, Poly, Kind, gate, Fig, min_all, max_all}
use simtix.Draw.Shapes.{new_shape, add, halved, has_text, share}

-- sin(i π / 16) in units of 10⁻⁹, for i up to 8
abbrev sines : List ℕ
sines =
    0 ∷ 195_090_322 ∷ 382_683_432 ∷ 555_570_233 ∷ 707_106_781 ∷ 831_469_612 ∷ 923_879_533
    ∷ 980_785_280 ∷ 1_000_000_000 ∷ []

-- `r * math.sin(i * math.pi / 16)` in the first quadrant
unfoldable sine : ℤ → ℕ → ℤ
unfolding share
sine r i = share r (get_or sines i 0) 1_000_000_000

-- The point at the angle j π / 16 of a circle, by the quadrant.
unfoldable around_center : Point → ℤ → ℕ → Point
unfolding sine
around_center c r j =
    let i = j % 8 in
    let near = sine r i in
    let far = sine r (8 - i) in
    if j / 8 % 4 == 0
    then (c.0 +ℤ far, c.1 +ℤ near)
    else if j / 8 % 4 == 1
    then (c.0 -ℤ near, c.1 +ℤ far)
    else if j / 8 % 4 == 2
    then (c.0 -ℤ far, c.1 -ℤ near)
    else (c.0 +ℤ near, c.1 -ℤ far)

-- The attributes of a shape that wires attach to: inp[i], out, selpt, a, b, Lp, Rp, Tp, Bp.
pub data Port : Type 0 where
  input_port : ℕ → Port
  output selector port_a port_b port_left port_right port_top port_bottom : Port

abbrev pub Attached : Type 0
Attached = List (Port × Point)

-- The outline of the notched block and its height, for `fa` = 0.84, the default of every call.
abbrev alu_height : ℤ → ℤ → ℤ
alu_height ya yb = share (ya -ℤ yb) 100 68

abbrev alu_bottom : ℤ → ℤ → ℤ
alu_bottom ya yb = yb -ℤ share (alu_height ya yb) 16 100

unfoldable alu_poly : ℤ → ℤ → ℤ → ℤ → Poly
unfolding share
alu_poly x ya yb w =
    let h = alu_height ya yb in
    let y = alu_bottom ya yb in
    let k = share h 24 100 in
    let n = share h 9 100 in
    let ym = y +ℤ halved h in
    (x, y)
    ∷ (x +ℤ w, y +ℤ k)
    ∷ (x +ℤ w, y +ℤ h -ℤ k)
    ∷ (x, y +ℤ h)
    ∷ (x, ym +ℤ n)
    ∷ (x +ℤ share n 11 10, ym)
    ∷ (x, ym -ℤ n)
    ∷ []

abbrev pub moved : ℤ → Poly → Poly
moved d = map (λ p. (p.0 +ℤ d, p.1 +ℤ d))

unfoldable pub alu : String → ℤ → ℤ → ℤ → ℤ → Kind → Bool → Fig → Option (Fig × Attached)
unfolding add alu_poly share
alu name x ya yb w kind rep f =
    let h = alu_height ya yb in
    let y = alu_bottom ya yb in
    let ym = y +ℤ halved h in
    let poly = alu_poly x ya yb w in
    let behind =
      if rep then moved (pos 1_800_000_000) poly ++ moved (pos 900_000_000) poly else [] in
    let extra = if rep then moved (pos 1_800_000_000) poly ∷ [] else [] in
    let s = new_shape name kind poly extra (behind ++ poly ++ (x +ℤ share w 56 100, ym) ∷ []) in
    elim (add s f) [
      | none ↦ none
      | some g ↦ some (
        g,
        (port_a, (x, y +ℤ share h 84 100))
            ∷ (port_b, (x, y +ℤ share h 16 100))
            ∷ (output, (x +ℤ w, ym))
            ∷ [],
      )
    ]

unfoldable pub circ : String → ℤ → ℤ → ℤ → Kind → Fig → Option (Fig × Attached)
unfolding add around_center
circ name cx cy r kind f =
    let poly = map (λ k. around_center (cx, cy) r (2 * k)) (range_from 0 16) in
    let s = new_shape name kind poly [] ((cx, cy) ∷ (cx, cy) ∷ []) in
    elim (add s f) [
      | none ↦ none
      | some g ↦ some (
        g,
        (port_left, (cx -ℤ r, cy))
            ∷ (port_right, (cx +ℤ r, cy))
            ∷ (port_top, (cx, cy +ℤ r))
            ∷ (port_bottom, (cx, cy -ℤ r))
            ∷ [],
      )
    ]

pub data Logic : Type 0 where
  and_gate or_gate not_gate : Logic

-- `bub`, the radius of a bubble
abbrev bub : ℤ
bub = pos 700_000_000

-- The upper and the lower half of the front of an or gate, at the angle i π / 16.
abbrev or_x : ℤ → ℤ → ℕ → ℤ
or_x x w i = x +ℤ share w 45 100 +ℤ sine (share w 55 100) i

abbrev or_rise : ℤ → ℕ → ℤ
or_rise h i = halved h -ℤ sine (halved h) (8 - i)

-- `pts`, for the gate from y0 to y1
unfoldable gate_poly : Logic → ℤ → ℤ → ℤ → ℤ → Poly
unfolding around_center share sine
gate_poly and_gate x y0 y1 w =
    let h = y1 -ℤ y0 in
    let xa = x +ℤ w -ℤ halved h in
    let yc = halved (y0 +ℤ y1) in
    (x, y0) ∷ (xa, y0) ∷ map (λ i. around_center (xa, yc) (halved h) (24 + i)) (range_from 1 15)
    ++ (xa, y1) ∷ (x, y1) ∷ []
gate_poly or_gate x y0 y1 w =
    let h = y1 -ℤ y0 in
    (x, y0) ∷ map (λ i. (or_x x w i, y0 +ℤ or_rise h i)) (range_from 0 9)
    ++ map (λ i. (or_x x w (8 - i), y1 -ℤ or_rise h (8 - i))) (range_from 0 9)
    ++ (x, y1) ∷ (x +ℤ share h 20 100, halved (y0 +ℤ y1)) ∷ []
gate_poly not_gate x y0 y1 w = (x, y0) ∷ (x +ℤ w -ℤ bub -ℤ bub, halved (y0 +ℤ y1)) ∷ (x, y1) ∷ []

-- The points of the outline's path, and the bubble of a not gate.
unfoldable gate_path : Logic → ℤ → ℤ → ℤ → ℤ → List Point
unfolding share
gate_path and_gate x y0 y1 w = (x, y0) ∷ (x +ℤ w -ℤ halved (y1 -ℤ y0), y0) ∷ (x, y1) ∷ []
gate_path or_gate x y0 y1 w =
    let h = y1 -ℤ y0 in
    let yc = halved (y0 +ℤ y1) in
    let bk = share (share h 20 100) 13 10 in
    (x, y1)
    ∷ (x +ℤ share w 75 100, y1)
    ∷ (x +ℤ share w 95 100, yc +ℤ share h 15 100)
    ∷ (x +ℤ w, yc)
    ∷ (x +ℤ share w 95 100, yc -ℤ share h 15 100)
    ∷ (x +ℤ share w 75 100, y0)
    ∷ (x, y0)
    ∷ (x +ℤ bk, yc -ℤ share h 20 100)
    ∷ (x +ℤ bk, yc +ℤ share h 20 100)
    ∷ (x, y1)
    ∷ []
gate_path not_gate x y0 y1 w =
    let yc = halved (y0 +ℤ y1) in
    (x, y0) ∷ (x +ℤ w -ℤ bub -ℤ bub, yc) ∷ (x, y1) ∷ (x +ℤ w -ℤ bub, yc) ∷ []

abbrev has_index : ℕ → List ℕ → Bool
has_index i [] = false
has_index i (j ∷ js) = if i == j then true else has_index i js

-- Where a wire ends at an input that has no bubble.
abbrev input_x : Logic → ℤ → ℤ → ℤ
input_x or_gate x h = x +ℤ share h 15 100
input_x _ x h = x

-- The inputs from number i on, and the centers of the bubbles.
unfoldable gate_inputs : Logic → ℤ → ℤ → List ℕ → ℕ → List ℤ → Attached
unfolding share
gate_inputs typ x h neg_in i [] = []
gate_inputs typ x h neg_in i (yy ∷ ys) =
    let at = if has_index i neg_in then x -ℤ bub -ℤ bub else input_x typ x h in
    (input_port i, (at, yy)) ∷ gate_inputs typ x h neg_in (suc i) ys

unfoldable bubbles : ℤ → List ℕ → ℕ → List ℤ → List Point
bubbles x neg_in i [] = []
bubbles x neg_in i (yy ∷ ys) =
    let rest = bubbles x neg_in (suc i) ys in
    if has_index i neg_in then (x -ℤ bub, yy) ∷ rest else rest

-- `ys` is `y ∷ rest`: without inputs Python's `max` raises.
unfoldable pub gate_block :
    String → Logic → ℤ → ℤ → List ℤ → ℤ → ℤ → List ℕ → List ℕ → Fig → Option (Fig × Attached)
unfolding add gate_poly gate_path gate_inputs bubbles share
gate_block name typ x y rest w pad neg_in lbl f =
    let y1 = max_all y rest +ℤ pad in
    let y0 = min_all y rest -ℤ pad in
    let yc = halved (y0 +ℤ y1) in
    let marks = gate_path typ x y0 y1 w ++ bubbles x neg_in 0 (y ∷ rest) in
    let title = if has_text lbl then (x +ℤ share w 42 100, yc) ∷ [] else [] in
    let s = new_shape name gate (gate_poly typ x y0 y1 w) [] (marks ++ title) in
    elim (add s f) [
      | none ↦ none
      | some g ↦
          some (g, gate_inputs typ x (y1 -ℤ y0) neg_in 0 (y ∷ rest) ++ (output, (x +ℤ w, yc)) ∷ [])
    ]
