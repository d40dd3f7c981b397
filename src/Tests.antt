-- ===== src/Tests.antt =====
-- Concrete runs of the modelled code, and the theorems at concrete inputs.
mod Data
mod Codec
mod Ledger
mod Scripts
mod Journals
mod Work
mod Pool
mod Chains
mod Peers
