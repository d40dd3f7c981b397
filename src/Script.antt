-- ===== src/Script.antt =====
-- crates/bitrst-script/src: the stack machine for P2PKH scripts and the script templates.
pub mod Stack
pub mod Interpreter
pub mod Template
pub mod Termination
pub mod Push
pub mod P2pkh
