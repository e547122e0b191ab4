-- ===== src/Generator/Literals.antt =====
-- The literal memory of clar2wasm/src/wasm_generator.rs: data segments behind the standard library's
-- data, with the table of literals that are there already, and the pages that hold them.
pub mod Text
pub mod Defs
pub mod Placed
pub mod Adding
pub mod Fresh
pub mod Values
pub mod Steps
pub mod Pages
pub mod Lookup
mod Tests
