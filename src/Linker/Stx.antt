-- ===== src/Linker/Stx.antt =====
-- The host functions of clar2wasm/src/linker.rs on STX.
pub mod Defs
pub mod Guards
pub mod Burning
mod Tests
