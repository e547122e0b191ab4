-- ===== src/Layout.antt =====
-- The layout of a Clarity type, as Wasm values and as bytes: `get_type_size`,
-- `get_type_in_memory_size` and `is_in_memory_type` of
-- clar2wasm/src/wasm_utils.rs, and `clar2wasm_ty`, `has_in_memory_type` and
-- `count_in_memory_space` of clar2wasm/src/wasm_generator.rs. Sizes are `i32` or `u32` patterns.
mod Defs
pub mod Sizes
pub mod Stack
mod Tests
unfoldable pub use Defs.*
