-- ===== src/Linker/Tokens.antt =====
-- The host functions of clar2wasm/src/linker.rs on fungible and non-fungible tokens.
pub mod Principals
pub mod Database
pub mod Fungible
pub mod Transfer
pub mod Supply
pub mod NonFungible
pub mod Handlers
pub mod Ownership
mod Book
mod Registry
mod Tests
