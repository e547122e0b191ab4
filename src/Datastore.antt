-- ===== src/Datastore.antt =====
-- The `Datastore` of clar2wasm/src/datastore.rs: a key-value store for each block, where a later
-- block reads the entries of the last block that was written to.
pub mod Defs
pub mod Put
pub mod Advance
mod Tests
