-- ===== src/Linker.antt =====
-- The host functions of clar2wasm/src/linker.rs that the compiled contract calls, and the
-- `ClarityWasmContext` of clar2wasm/src/initialize.rs that they work on.
pub mod Context
pub mod Reading
pub mod Variables
pub mod Maps
pub mod Caller
pub mod Blocks
pub mod Tokens
pub mod Calls
pub mod Stx
mod Tests
