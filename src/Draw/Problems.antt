-- ===== src/Draw/Problems.antt =====
-- What the checks of docs/figs/datapath_tikz/dp_engine.py report.
use Prim.Native.String.{String}
use simtix.Base.{ℕ, ◌*◌, List, [], ◌∷◌, Bool, if◌then◌else◌}
use simtix.Draw.Figure.{Point, Label, Segment}
use simtix.Draw.Crossings.{Crossing}

-- One constructor for each kind of message.
pub data Problem : Type 0 where
  shape_overlap : String → String → Problem
  wire_through wire_grazes : Segment → String → Problem
  parallel_h parallel_v : String → String → Problem
  touch : String → Point → String → Problem
  label_on_shape : Label → String → Problem
  label_on_wire : Label → String → Problem
  label_overlap : Label → Label → Problem
  hop_at_corner : Crossing → Problem

-- `[e]` if the test holds
abbrev pub report : Bool → Problem → List Problem
report b e = if b then e ∷ [] else []

-- Millionths of a millimetre
abbrev pub um : ℕ → ℕ
um n = n * 1_000_000
