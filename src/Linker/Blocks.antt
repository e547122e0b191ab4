-- ===== src/Linker/Blocks.antt =====
-- The host functions of clar2wasm/src/linker.rs that look up a property of a block.
pub mod Defs
pub mod Properties
pub mod Writers
pub mod Answers
mod Tests
