-- ===== src/Linker/Caller.antt =====
-- `ClarityWasmContext` of clar2wasm/src/initialize.rs: who calls, in whose name, and the events; and
-- the host functions that only use it.
pub mod Defs
pub mod Builtins
pub mod Frames
pub mod Principals
mod Tests
