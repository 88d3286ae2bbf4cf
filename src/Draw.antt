-- ===== src/Draw.antt =====
-- The drawing engine of docs/figs/datapath_tikz/dp_engine.py.
pub mod Text
pub mod Figure
pub mod Geometry
pub mod Wires
pub mod Crossings
pub mod Problems
pub mod Probe
pub mod Verify
pub mod Apart
pub mod Pairs
pub mod Safe
pub mod Clean
pub mod Orthogonal
pub mod Shapes
pub mod Curves
pub mod Corridors
pub mod Call
pub mod Emit
pub mod Hops
pub mod Drawn
pub mod Script
pub mod Figures
pub mod Built
pub mod Merged
pub mod Squeezed
pub mod Widths
pub mod Compact
pub mod Occupied
pub mod Kept
pub mod Order
