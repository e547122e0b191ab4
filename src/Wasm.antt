-- ===== src/Wasm.antt =====
-- What the compiled code runs on: the linear memory, which wasmtime implements, and the machine of
-- the instructions that the modelled parts of clar2wasm/src/wasm_generator.rs emit.
pub mod Memory
pub mod Written
pub mod Machine
pub mod Instance
pub mod ByteMemory
