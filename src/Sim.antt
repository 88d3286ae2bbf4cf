-- ===== src/Sim.antt =====
-- The scripts of sim/ that run the simulations and collect their results.
pub mod Rows
pub mod Sweeps
pub mod Collected
pub mod Merge
pub mod Compare
pub mod Launches
pub mod Compared
pub mod Xsim
pub mod Passes
