-- ===== src/Draw/Call.antt =====
-- The calls of docs/figs/datapath_tikz/dp_engine.py that change a figure.
use Prim.Native.String.{String}
use simtix.Base.{ℕ, List, [], ◌∷◌, ◌++◌, some, Bool, ◌≡◌}
use simtix.Base.Int.{ℤ}
use simtix.Draw.Corridors.{Interval}
use simtix.Draw.Figure.{Point, Box, Kind, Anchor, Fig}
use simtix.Draw.Wires.{wire, label, stub, Direction}
use simtix.Draw.Shapes.{box, reg_block, mux_block, Ports, bar, group}
use simtix.Draw.Curves.{Attached, alu, circ, Logic, gate_block}
use simtix.Draw.Compact.{Axis, shift, compact}

-- `f.frames.append((x0, y0, x1, y1))`
unfoldable pub frame : ℤ → ℤ → ℤ → ℤ → Fig → Fig
frame x0 y0 x1 y1 f = record f {
  frames = f.frames ++ record { x0 = x0; y0 = y0; x1 = x1; y1 = y1 } ∷ [];
}

-- One call that changes a figure.
pub data Call : Fig → Fig → Type 0 where
  a_box :
      {f g : Fig} (name : String) (x y w h : ℤ) (text : List ℕ) (kind : Kind) (pt : ℕ)
      (rep rot : Bool)
      → box name x y w h text kind pt rep rot f ≡ some g
      → Call f g
  a_reg :
      {f g : Fig} (name : String) (x y w h : ℤ) (text : List ℕ)
      → reg_block name x y w h text f ≡ some g
      → Call f g
  a_mux :
      {f g : Fig} (name : String) (x y : ℤ) (rest : List ℤ) (w pad : ℤ) (sel_bottom : Bool)
      (ins : List Bool) (flip : Bool) (ports : Ports)
      → mux_block name x y rest w pad sel_bottom ins flip f ≡ some (g, ports)
      → Call f g
  a_alu :
      {f g : Fig} (name : String) (x ya yb w : ℤ) (kind : Kind) (rep : Bool) (ports : Attached)
      → alu name x ya yb w kind rep f ≡ some (g, ports)
      → Call f g
  a_circ :
      {f g : Fig} (name : String) (cx cy r : ℤ) (kind : Kind) (ports : Attached)
      → circ name cx cy r kind f ≡ some (g, ports)
      → Call f g
  a_gate :
      {f g : Fig} (name : String) (typ : Logic) (x y : ℤ) (rest : List ℤ) (w pad : ℤ)
      (neg_in lbl : List ℕ) (ports : Attached)
      → gate_block name typ x y rest w pad neg_in lbl f ≡ some (g, ports)
      → Call f g
  a_bar :
      {f g : Fig} (name : String) (x y w h : ℤ) (text : List ℕ) (below : Bool)
      → bar name x y w h text below f ≡ some g
      → Call f g
  a_group :
      {f : Fig} (x0 y0 x1 y1 : ℤ) (title : List ℕ) (north west : Bool) (pt : ℕ) (fill : String)
      → Call f (group x0 y0 x1 y1 title north west pt fill f)
  a_wire :
      {f g : Fig} (net : String) (pts q : List Point) (style : String) (arrow : Bool)
      → wire net pts style arrow f ≡ some (g, q)
      → Call f g
  a_label :
      {f : Fig} (text : List ℕ) (x y : ℤ) (anchor : Anchor) (pt : ℕ)
      → Call f (label text x y anchor pt f)
  a_stub :
      {f g : Fig} (net : String) (p : Point) (d : Direction) (len : ℤ) (text : List ℕ) (pt : ℕ)
      (style : String) (arrow : Bool)
      → stub net p d len text pt style arrow f ≡ some g
      → Call f g
  a_frame : {f : Fig} (x0 y0 x1 y1 : ℤ) → Call f (frame x0 y0 x1 y1 f)
  the_bands : {f : Fig} (bands : List (Box × String)) → Call f (record f { bands = bands })
  a_shift : {f : Fig} (v_from dv : ℤ) (axis : Axis) → Call f (shift v_from dv axis f)
  a_compact :
      {f : Fig} (axis : Axis) (gap : ℤ) (keep : List Interval) → Call f (compact axis gap keep f).0

-- `Fig()`
abbrev pub empty_fig : Fig
empty_fig = record {
  shapes = [];
  nets = [];
  labels = [];
  bands = [];
  frames = [];
  groups = [];
  warn = [];
}

-- The figures that calls make of the empty one.
pub data Built : Fig → Type 0 where
  started : Built empty_fig
  called : {f g : Fig} → Built f → Call f g → Built g
