-- ===== src/Generator.antt =====
-- The code generator of clar2wasm/src/wasm_generator.rs: its state, and the code that it emits to
-- store a value to memory and to load it, and
-- its literal memory.
pub mod State
pub mod MemoryAccess
pub mod Represents
pub mod Storing
pub mod Scope
pub mod Writing
pub mod Reading
pub mod RoundTrip
pub mod Literals
mod Tests
