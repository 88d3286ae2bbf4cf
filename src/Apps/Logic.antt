-- ===== src/Apps/Logic.antt =====
-- Reasoning about generators: what each step does to the case, and the rules by which a
-- generator's proof goes through its steps.
pub mod Held
pub mod Runs
pub mod Steps
pub mod Finish
pub mod Four
pub mod Listed
pub use Held.*
pub use Runs.*
pub use Steps.*
pub use Finish.*
pub use Four.*
pub use Listed.*
