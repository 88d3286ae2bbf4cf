-- ===== src/Apps.antt =====
-- The applications of sim/gen_apps.py: each generator builds one test case.
pub mod Gen
pub mod Logic
pub mod Loops
pub mod Inputs
pub mod Gemm
pub mod Bfs
pub mod Graph
pub mod Mlp
pub mod Spmv
pub mod Kmeans
pub mod Scan
pub mod Scanseg
pub mod Stencil
pub mod Quant
pub mod Zbtest
pub mod Output
pub mod Suite
