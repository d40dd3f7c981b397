-- ===== src/Work.antt =====
-- crates/bitrst-core/src/uint256.rs, pow.rs, difficulty.rs and time.rs: proof of work.
pub mod Uint256
pub mod Compare
pub mod Arithmetic
pub mod Bits
pub mod Division
pub mod Target
pub mod Compact
pub mod Difficulty
pub mod Scaling
