-- ===== src/Tests.antt =====
-- Runs of the models on small inputs, and an example of each result.
mod Source
mod Numbers
mod Memory
mod Cases
mod Graph
mod Figures
mod Sweeps
mod Words
mod Scripts
mod Store
