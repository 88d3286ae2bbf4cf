-- ===== src/Draw/Figures/Main.antt =====
-- The figures as wholes, their frames and legend, and what the two scripts do with them.
use Prim.Native.String.{String}
use text.Mathlib.Text as Text
use simtix.Base.{List, [], ◌∷◌, ◌++◌, map, Option, none, some, Bool, true, false, if◌then◌else◌}
use simtix.Base.Int.{ℤ, ◌+ℤ◌, ◌-ℤ◌, ltb_ℤ, abs_of}
use simtix.Base.Partial.{◌>>=◌}
use simtix.Base.Text.{codes}
use simtix.Draw.Figure.{
  Point, Box, Fig, Net, Polyline, north_west, west, min_all, max_all, wire_segments,
}
use simtix.Draw.Wires.{wire, label}
use simtix.Draw.Shapes.{halved}
use simtix.Draw.Compact.{x_axis, y_axis, compact, extent}
use simtix.Draw.Crossings.{Crossing, crossings}
use simtix.Draw.Problems.{Problem}
use simtix.Draw.Verify.{verify}
use simtix.Draw.Call.{frame}
use simtix.Draw.Script.{blank, Instr, mm, um, find_shape, run_script}
use simtix.Draw.Figures.Fetch.{fetch, issue, write_value}
use simtix.Draw.Figures.Control.{pop_check, next_pc, branches, fp_units}
use simtix.Draw.Figures.Engines.{rails, addresses, pending, data_side}
use simtix.Draw.Figures.Writeback.{writeback, write_ports, resume, cuts_made}
use simtix.Draw.Figures.Chip.{panels, host_cpu, decode, accelerator, warp_pool, shared_memory}

abbrev pub datapath_figure : List Instr
datapath_figure =
    fetch ++ issue ++ write_value ++ pop_check ++ next_pc ++ branches ++ fp_units ++ rails
    ++ addresses ++ pending ++ data_side ++ writeback ++ write_ports ++ resume ++ cuts_made

abbrev pub chip_figure : List Instr
chip_figure = panels ++ host_cpu ++ decode ++ accelerator ++ warp_pool ++ shared_memory

-- `f.nets[net]['lines']`; `none` is the KeyError.
unfoldable lines_of : String → List (String × Net) → Option (List Polyline)
lines_of net [] = none
lines_of net (e ∷ nets) =
    let rest = lines_of net nets in if Text.◌==◌ net e.0 then some e.1.lines else rest

abbrev all_points : List Polyline → List Point
all_points [] = []
all_points (l ∷ lines) = l.pts ++ all_points lines

abbrev behind_first : List Point → List Point
behind_first [] = []
behind_first (p ∷ pts) = pts

abbrev later_points : List Polyline → List Point
later_points [] = []
later_points (l ∷ lines) = behind_first l.pts ++ later_points lines

-- The places of the points at the height y, up to 0.01 mm.
abbrev at_height : ℤ → List Point → List ℤ
at_height y [] = []
at_height y (p ∷ pts) =
    let rest = at_height y pts in if ltb_ℤ (abs_of (p.1 -ℤ y)) (um 10) then p.0 ∷ rest else rest

-- `min` and `max`, which raise on nothing.
abbrev least_of : List ℤ → Option ℤ
least_of [] = none
least_of (v ∷ vals) = some (min_all v vals)

abbrev greatest_of : List ℤ → Option ℤ
greatest_of [] = none
greatest_of (v ∷ vals) = some (max_all v vals)

abbrev band : ℤ → ℤ → ℤ → ℤ → String → Box × String
band x0 y0 x1 y1 title = (record { x0 = x0; y0 = y0; x1 = x1; y1 = y1 }, title)

-- The stage bands; `x0` and `bot` come with the figure.
unfoldable add_frame : Fig → Option (ℤ × ℤ × Fig)
unfolding lines_of find_shape extent
add_frame f = do
  e ← extent f
  bfx ← find_shape "bfx" f.shapes
  push ← find_shape "push" f.shapes
  rmux ← find_shape "rmux" f.shapes
  rv1 ← lines_of "rv1" f.nets
  rails_x ← greatest_of (at_height (um 149_600) (all_points rv1))
  mem_o ← lines_of "mem_o" f.nets
  memo_x ← least_of (map (λ (p : Point). p.0) (later_points mem_o))
  let top = e.y1 +ℤ um 7500
  let bot = e.y0 -ℤ um 1500
  let b1 = halved (bfx.bb.x0 +ℤ bfx.bb.x1)
  let b2 = halved (push.bb.x1 +ℤ rails_x)
  let b3 = halved (rmux.bb.x1 +ℤ memo_x)
  some (
    e.x0,
    bot,
    record f {
      bands =
          band (e.x0 -ℤ um 1500) bot b1 top "FETCH"
          ∷ band b1 bot b2 top "ISSUE / EXECUTE"
          ∷ band b2 bot b3 top "PARK-AND-RESUME ENGINES"
          ∷ band b3 bot (e.x1 +ℤ um 1500) top "WB"
          ∷ [];
    },
  )

-- A row of the legend: a wire of the style, and its meaning.
abbrev legend_row : String → String → String → ℤ → ℤ → ℤ → Fig → Option Fig
legend_row net style meaning sx tx row f = do
  (g, _) ← wire net ((sx, row) ∷ (sx +ℤ mm 12, row) ∷ []) style true f
  some (label (codes meaning) tx row west 55 g)

unfoldable add_legend : ℤ → ℤ → ℤ → ℤ → Fig → Option Fig
unfolding frame
add_legend lx ly lw lh f = do
  let framed = frame lx ly (lx +ℤ lw) (ly +ℤ lh) f
  let title = label (codes "Notation") (lx +ℤ mm 2) (ly +ℤ lh -ℤ um 1200) north_west 65 framed
  let row = ly +ℤ lh -ℤ um 9500
  let sx = lx +ℤ mm 3
  let tx = lx +ℤ mm 19
  f1 ← legend_row "lg_s" "sig" "scalar signal" sx tx row title
  f2 ← legend_row "lg_b" "bus" "8-lane bus (8 $\\times$ 32 b)" sx tx (row -ℤ um 6600) f1
  f3 ← legend_row "lg_w" "wide" "256-bit memory line" sx tx (row -ℤ um 13_200) f2
  legend_row "lg_c" "ctl" "control" sx tx (row -ℤ um 19_800) f3

-- What a script prints of its figure, and whether it goes on to build the document: only a figure
-- without errors is built.
pub record Report : Type 0 where
  pub figure : Fig
  pub warnings : List String
  pub errs : List Problem
  pub cross : List Crossing
  pub goes_on : Bool

abbrev no_errors : List Problem → Bool
no_errors [] = true
no_errors (e ∷ errs) = false

unfoldable checked_figure : Fig → Report
unfolding verify
checked_figure f = record {
  figure = f;
  warnings = f.warn;
  errs = verify f;
  cross = crossings (wire_segments f.nets);
  goes_on = no_errors (verify f);
}

-- The main part of gen_datapath_tikz.py, up to the calls of pdflatex.
unfoldable datapath_main : Option Report
unfolding add_frame add_legend checked_figure
datapath_main = do
  d ← run_script datapath_figure blank
  (x0, bot, f) ← add_frame d.fig
  g ← add_legend (x0 +ℤ um 500) (bot +ℤ um 2500) (mm 46) (mm 36) f
  some (checked_figure g)

-- The main part of gen_chip_top.py: the figure is compacted first.
unfoldable chip_main : Option Report
unfolding checked_figure compact
chip_main = do
  d ← run_script chip_figure blank
  let f = (compact x_axis (mm 5) [] d.fig).0
  let g = (compact y_axis (mm 4) [] f).0
  some (checked_figure g)
