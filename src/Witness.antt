-- ===== src/Witness.antt =====
-- The theorems at concrete data.
mod Data
mod Clocks
mod Pulls
mod Pushes
mod Chunks
mod Cycles
mod Gates
mod Engines
mod Configs
mod Reconciles
