-- ===== src/Draw/Figures.antt =====
-- The figure scripts over the drawing engine: docs/figs/datapath_tikz/gen_datapath_tikz.py and
-- docs/figs/chip_top_tikz/gen_chip_top.py. Loops over written-out values are unrolled, and the
-- named heights (Y_SP and others) are put in; bold first lines do not change the geometry.
pub mod Engine
pub mod Fetch
pub mod Control
pub mod Engines
pub mod Writeback
pub mod Chip
pub mod Main
use Prim.Native.String.{String}
use simtix.Base.{ℕ, List, Bool, true, false}
use simtix.Base.Int.{ℤ, pos, ◌-ℤ◌}
use simtix.Draw.Figure.{Kind}
use simtix.Draw.Script.{
  Instr, Spot, at, beside, num, left_edge, right_edge, bottom_edge, top_edge, box_call, wire_call,
}

-- A negative number.
abbrev pub below : ℤ → ℤ
below v = pos 0 -ℤ v

abbrev pub xy : ℤ → ℤ → Spot
xy x y = at (num x) (num y)

-- `s.L(y)`, `s.R(y)`, `s.T(x)`, `s.B(x)`
abbrev pub left_of : String → ℤ → Spot
left_of name v = beside left_edge name (num v)

abbrev pub right_of : String → ℤ → Spot
right_of name v = beside right_edge name (num v)

abbrev pub top_of : String → ℤ → Spot
top_of name v = beside top_edge name (num v)

abbrev pub bottom_of : String → ℤ → Spot
bottom_of name v = beside bottom_edge name (num v)

-- `box` and `wire` with the defaults of their other arguments.
abbrev pub text_box : String → ℤ → ℤ → ℤ → ℤ → List ℕ → Kind → ℕ → Instr
text_box name x y w h text kind pt = box_call name x y w h text kind pt false false

abbrev pub wired : String → String → List Spot → Instr
wired net style spots = wire_call net spots style true
