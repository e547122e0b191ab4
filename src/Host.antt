-- ===== src/Host.antt =====
-- The host's side of the boundary: clar2wasm/src/wasm_utils.rs, which moves Clarity values into and
-- out of the linear memory and the Wasm values of a call.
pub mod Errors
pub mod Library
pub mod Access
pub mod Write
pub mod Read
pub mod Types
pub mod Take
pub mod Pass
pub mod Reserve
pub mod Shapes
pub mod Used
pub mod Sizes
pub mod Ends
pub mod Readers
pub mod Termination
pub mod Arguments
pub mod RoundTrip
mod Tests
