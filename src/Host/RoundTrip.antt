-- ===== src/Host/RoundTrip.antt =====
-- `write_to_wasm` and `read_from_wasm_indirect` of clar2wasm/src/wasm_utils.rs: what is written is
-- read back.
pub mod Stored
pub mod Leaves
pub mod Packed
pub mod Principals
pub mod Containers
pub mod Elements
pub mod Types
pub mod Compound
pub mod Fields
pub mod Values
mod Tests
