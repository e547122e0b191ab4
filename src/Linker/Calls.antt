-- ===== src/Linker/Calls.antt =====
-- The host functions of clar2wasm/src/linker.rs for calls of other contracts, other blocks and events.
pub mod Defs
pub mod Stays
pub mod AtBlock
mod Tests
mod BlockTests
