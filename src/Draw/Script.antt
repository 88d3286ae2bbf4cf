-- ===== src/Draw/Script.antt =====
-- A figure script over docs/figs/datapath_tikz/dp_engine.py: straight-line code whose variables are the
-- shapes and whose statements are calls of the engine. A variable is found by its shape's name.
use Prim.Native.String.{String}
use text.Mathlib.Text as Text
use simtix.Base.{
  ℕ, suc, ◌*◌, List, [], ◌∷◌, ◌++◌, Option, none, some, Bool, true, false, ◌==◌, if◌then◌else◌,
}
use simtix.Base.Int.{ℤ, pos, ◌+ℤ◌}
use simtix.Base.Partial.{◌>>=◌}
use simtix.Base.Text.{codes}
use simtix.Draw.Corridors.{Interval}
use simtix.Draw.Figure.{Point, Box, Kind, Shape, Anchor, Fig}
use simtix.Draw.Wires.{wire, label, stub, Direction}
use simtix.Draw.Shapes.{box, reg_block, mux_block, Ports, bar, group}
use simtix.Draw.Curves.{
  Port, input_port, output, selector, port_a, port_b, port_left, port_right, port_top, port_bottom,
  Attached, alu, circ, Logic, gate_block,
}
use simtix.Draw.Compact.{Axis, shift, compact}
use simtix.Draw.Call.{empty_fig}

-- Millimetres and micrometres.
abbrev pub mm : ℕ → ℤ
mm n = pos (n * 1_000_000_000)

abbrev pub um : ℕ → ℤ
um n = pos (n * 1_000_000)

-- `t(*lines)`: the lines behind each other, with two backslashes between them.
unfoldable pub t : List String → List ℕ
t [] = []
t (s ∷ []) = codes s
t (s ∷ u ∷ lines) = codes s ++ codes "\\\\" ++ t (u ∷ lines)

-- The edges of a shape's box: x0, x1, y0, y1.
pub data Edge : Type 0 where
  left_edge right_edge bottom_edge top_edge : Edge

-- A coordinate: a number, one of a port or of a shape's box, or more than one of these.
pub data Coord : Type 0 where
  num : ℤ → Coord
  x_of y_of : String → Port → Coord
  box_edge : String → Edge → Coord
  plus : Coord → ℤ → Coord

-- A point: two coordinates, L, R, B or T of a shape, or a port.
pub data Spot : Type 0 where
  at : Coord → Coord → Spot
  beside : Edge → String → Coord → Spot
  port : String → Port → Spot

pub data Instr : Type 0 where
  box_call : String → ℤ → ℤ → ℤ → ℤ → List ℕ → Kind → ℕ → Bool → Bool → Instr
  reg_call : String → ℤ → ℤ → ℤ → ℤ → List ℕ → Instr
  mux_call : String → ℤ → ℤ → List ℤ → ℤ → ℤ → Bool → List Bool → Bool → Instr
  alu_call : String → ℤ → ℤ → ℤ → ℤ → Kind → Bool → Instr
  circ_call : String → ℤ → ℤ → ℤ → Kind → Instr
  gate_call : String → Logic → ℤ → ℤ → List ℤ → ℤ → ℤ → List ℕ → List ℕ → Instr
  bar_call : String → ℤ → ℤ → ℤ → ℤ → List ℕ → Bool → Instr
  group_call : ℤ → ℤ → ℤ → ℤ → List ℕ → Bool → Bool → ℕ → String → Instr
  wire_call : String → List Spot → String → Bool → Instr
  label_call : List ℕ → Coord → Coord → Anchor → ℕ → Instr
  stub_call : String → Spot → Direction → ℤ → List ℕ → ℕ → String → Bool → Instr
  shift_call : ℤ → ℤ → Axis → Instr
  compact_call : Axis → ℤ → List Interval → Instr

-- The figure, and the ports of its shapes.
pub record Drawing : Type 0 where
  pub fig : Fig
  pub ports : List (String × Attached)

abbrev pub blank : Drawing
blank = record { fig = empty_fig; ports = [] }

abbrev same_port : Port → Port → Bool
same_port (input_port i) (input_port j) = i == j
same_port output output = true
same_port selector selector = true
same_port port_a port_a = true
same_port port_b port_b = true
same_port port_left port_left = true
same_port port_right port_right = true
same_port port_top port_top = true
same_port port_bottom port_bottom = true
same_port _ _ = false

abbrev port_in : Port → Attached → Option Point
port_in p [] = none
port_in p (e ∷ ports) = let rest = port_in p ports in if same_port p e.0 then some e.1 else rest

unfoldable find_port : String → Port → List (String × Attached) → Option Point
find_port name p [] = none
find_port name p (e ∷ ports) =
    let rest = find_port name p ports in if Text.◌==◌ name e.0 then port_in p e.1 else rest

unfoldable pub find_shape : String → List Shape → Option Shape
find_shape name [] = none
find_shape name (s ∷ shapes) =
    let rest = find_shape name shapes in if Text.◌==◌ name s.name then some s else rest

abbrev edge_of : Edge → Box → ℤ
edge_of left_edge b = b.x0
edge_of right_edge b = b.x1
edge_of bottom_edge b = b.y0
edge_of top_edge b = b.y1

-- `none` is a NameError or an AttributeError.
unfoldable coord : Drawing → Coord → Option ℤ
unfolding find_port find_shape
coord d (num v) = some v
coord d (x_of name p) = do q ← find_port name p d.ports; some q.0
coord d (y_of name p) = do q ← find_port name p d.ports; some q.1
coord d (box_edge name e) = do s ← find_shape name d.fig.shapes; some (edge_of e s.bb)
coord d (plus c v) = do u ← coord d c; some (u +ℤ v)

-- L and R take a height, B and T a place on the other axis.
abbrev facing : Edge → ℤ → ℤ → Point
facing left_edge e v = (e, v)
facing right_edge e v = (e, v)
facing bottom_edge e v = (v, e)
facing top_edge e v = (v, e)

unfoldable spot : Drawing → Spot → Option Point
unfolding coord
spot d (at x y) = do u ← coord d x; v ← coord d y; some (u, v)
spot d (beside e name c) = do
  s ← find_shape name d.fig.shapes
  v ← coord d c
  some (facing e (edge_of e s.bb) v)
spot d (port name p) = find_port name p d.ports

unfoldable pub spots : Drawing → List Spot → Option (List Point)
unfolding spot
spots d [] = some []
spots d (s ∷ ss) = do p ← spot d s; ps ← spots d ss; some (p ∷ ps)

abbrev with_fig : Drawing → Option Fig → Option Drawing
with_fig d o = do f ← o; some (record d { fig = f })

abbrev with_shape : String → Drawing → Option (Fig × Attached) → Option Drawing
with_shape name d o = do (f, ports) ← o; some (record { fig = f; ports = (name, ports) ∷ d.ports })

abbrev numbered_from : ℕ → List Point → Attached
numbered_from i [] = []
numbered_from i (p ∷ ps) = (input_port i, p) ∷ numbered_from (suc i) ps

abbrev mux_attached : Ports → Attached
mux_attached p = (output, p.out) ∷ (selector, p.selpt) ∷ numbered_from 0 p.inp

-- `none` is any exception: the failed assertion on a name, a wire that is not orthogonal, no input.
unfoldable perform : Instr → Drawing → Option Drawing
unfolding spots
perform (box_call name x y w h text kind pt rep rot) d =
    with_fig d (box name x y w h text kind pt rep rot d.fig)
perform (reg_call name x y w h text) d = with_fig d (reg_block name x y w h text d.fig)
perform (mux_call name x y ys w pad sel_bottom ins flip) d =
    with_shape name d
      (mux_block name x y ys w pad sel_bottom ins flip d.fig >>= λ (f, p). some (f, mux_attached p))
perform (alu_call name x ya yb w kind rep) d = with_shape name d (alu name x ya yb w kind rep d.fig)
perform (circ_call name cx cy r kind) d = with_shape name d (circ name cx cy r kind d.fig)
perform (gate_call name typ x y ys w pad neg_in lbl) d =
    with_shape name d (gate_block name typ x y ys w pad neg_in lbl d.fig)
perform (bar_call name x y w h text below) d = with_fig d (bar name x y w h text below d.fig)
perform (group_call x0 y0 x1 y1 title north west pt fill) d =
    some (record d { fig = group x0 y0 x1 y1 title north west pt fill d.fig })
perform (wire_call net ss style arrow) d = do
  pts ← spots d ss
  (f, _) ← wire net pts style arrow d.fig
  some (record d { fig = f })
perform (label_call text x y anchor pt) d = do
  u ← coord d x
  v ← coord d y
  some (record d { fig = label text u v anchor pt d.fig })
perform (stub_call net s direction len text pt style arrow) d = do
  p ← spot d s
  f ← stub net p direction len text pt style arrow d.fig
  some (record d { fig = f })
perform (shift_call v dv axis) d = some (record d { fig = shift v dv axis d.fig })
perform (compact_call axis gap keep) d = some (record d { fig = (compact axis gap keep d.fig).0 })

-- The statements in order.
unfoldable pub run_script : List Instr → Drawing → Option Drawing
unfolding perform
run_script [] d = some d
run_script (i ∷ is) d = do d' ← perform i d; run_script is d'
