-- ===== src/Lib.antt =====
-- Clarity Wasm compiles Clarity smart contracts to WebAssembly. This library models how a Clarity
-- value is laid out: in the Wasm values of a function's parameters and results, and in the bytes
-- of the linear memory. Two parts of the program must agree on that. The code generator
-- (clar2wasm/src/wasm_generator.rs) emits code that moves values between the stack and the memory
-- while a contract runs. The host (clar2wasm/src/wasm_utils.rs) reads and writes the same memory
-- before and after a call and inside the host functions.
--
-- The files, and what of the program each is about:
--
--   Prelude: shared names; Tests (Boolean tests), Lists, Words (32-bit sums, little-endian bytes),
--   Results (`Result` with `?` as bind).
--   Clarity: `TypeSignature` and `Value` of the clarity crate, as the code matches on them.
--   Layout/Defs: `get_type_size`, `get_type_in_memory_size` and `is_in_memory_type` of wasm_utils.rs;
--   `clar2wasm_ty`, `has_in_memory_type` and `count_in_memory_space` of wasm_generator.rs.
--   Layout/Sizes, Layout/Stack: how these agree.
--   Wasm/Memory: the interface of a linear memory; Wasm/ByteMemory: a list of bytes that meets it;
--   Wasm/Written: what a stretch of written bytes means for later reads.
--   Wasm/Machine: the instructions that the modelled code emits, and their run.
--   Generator/State: the state of `WasmGenerator`, as a state and error monad that collects code.
--   Generator/MemoryAccess: `write_to_memory` and `read_from_memory`.
--   Generator/Represents: which Wasm values represent a value of a type.
--   Generator/Scope: which locals are in use, and that borrowed and added ones are not.
--   Generator/Literals/Defs, Generator/Literals/Text: the literal memory: `add_literal` and the other
--   methods that add to it, `visit_literal_value` and `set_memory_pages`, and the texts of the clarity
--   crate; Placed, Adding, Fresh, Values, Steps, Pages and Lookup beside them: what they do to it.
--   Generator/Storing, Generator/Writing, Generator/Reading, Generator/RoundTrip: what the emitted
--   code does.
--   Wasm/Instance: a machine with globals, calls and traps by `unreachable`.
--   Runtime/Codes, Runtime/Resolve: `ErrorMap`, `resolve_error` and what it reads of the instance
--   (clar2wasm/src/error_mapping.rs).
--   Runtime/Raise: `check_argument_count` and `check_args!` (wasm_utils.rs), `get_global` and
--   `func_by_name`; Runtime/Link, Runtime/Reports, Runtime/Counts: from the emitted code to what the
--   host reports.
--   Host/Errors, Host/Library: the errors, and the clarity crate's checked constructors of values.
--   Host/Access, Host/Write, Host/Read: the `value_as_*` casts, `write_to_wasm`, and `read_from_wasm`
--   with `read_from_wasm_indirect`.
--   Host/Types, Host/Take, Host/Pass, Host/Reserve: `clar2wasm_ty`, `wasm_to_clarity_value`,
--   `pass_argument_to_wasm` and `reserve_space_for_return`.
--   Host/Shapes, Host/Sizes, Host/Used, Host/Arguments: how these agree with the compiler's layout.
--   Host/RoundTrip: from `write_to_wasm` to `read_from_wasm_indirect`; Stored (what a write leaves),
--   Leaves, Packed, Principals, Containers, Elements, Types, Compound, Fields and Values below it.
--   Host/Ends, Host/Readers, Host/Termination: the loop of `read_from_wasm` over a list.
--   Linker/Context: the global context and the contract's metadata, of the clarity crate.
--   Linker/Reading, Linker/Variables, Linker/Maps: the host functions for data variables and maps
--   (clar2wasm/src/linker.rs), which use the reads and writes above.
--   Linker/Caller/Defs: `ClarityWasmContext` (clar2wasm/src/initialize.rs) and `as-contract`; Frames
--   (its stacks against plain lists), Builtins and Principals (`tx_sender` and the other variables).
--   Linker/Blocks/Defs: the properties of blocks; Properties (what the database has), Writers, Answers.
--   Linker/Tokens/Principals, Database, Fungible: the `ft_` functions; Transfer and Supply: what they
--   do. NonFungible, Handlers: the `nft_` functions; Ownership: their abstract specification. Book and
--   Registry are databases that meet the hypotheses.
--   Linker/Calls/Defs: `contract_call`, the nesting of the global context, at-block and `print`; Stays:
--   the caller after a call; AtBlock: entering and leaving a block,
--   tried with the store of datastore.rs.
--   Linker/Stx/Defs: the `stx_` functions; Guards: when a transfer is refused; Burning: when a burning.
--
-- The third part is the key-value store that tooling and tests run contracts on
-- (clar2wasm/src/datastore.rs). Datastore/Defs is its state and methods, Datastore/Put is about
-- writes and Datastore/Advance about new blocks. A `HashMap` is a function to `Option`; block ids
-- and strings are numbers, and the hash that makes an id of a height is a parameter.
--
-- A Rust `match` on a type is a function by clauses with the same cases, and a loop over a tuple's
-- types is the function named `..._fields`. An `i32` or `u32` offset or size is a natural number
-- below 2 ^ 32, its bit pattern; sums and products wrap around at 2 ^ 32, as in a release build,
-- and `as usize` of a negative offset lies beyond every memory. An `i128` is the bit pattern of
-- its two words. The `debug_assert!`s are left out. A panic is an error value: `none` in Layout,
-- the constructor `panic` elsewhere. A method of `WasmGenerator` takes the state and gives an
-- error, or a result, the code that it appends to the builder, and the new state; a borrowed local
-- is given back where Rust drops it. `BTreeMap` order is the order of a tuple type's fields; a
-- tuple value is looked up by name.
--
-- Literals are put behind the data of the standard library, at the offset 1352, each as a data
-- segment of its own; a table finds texts and byte strings that are there already. `Step` of
-- Generator/Literals/Steps is one addition, or space that another part of the generator keeps:
-- behind the literals, in the frame, or as work space. The offsets wrap at 2 ^ 32 as the code
-- does, and where a theorem needs that they do not, it says so. The quoting of an ASCII string and
-- the characters of a UTF-8 string are the clarity crate's and Rust's: the parameter
-- `TextLibrary`. In `Runtime/Raise` an error keeps the state and the code that was emitted before
-- it, since `check_args!` goes on after an error.
--
-- The clarity crate, wasmtime and walrus are not part of the repository. The clarity crate's
-- constructors of values are a parameter, the record `ClarityLibrary`; a theorem that needs it
-- assumes that they return (`Returns`), or that they accept the parts of the value at hand
-- (`Storable`). The memory of wasmtime is the parameter `LinearMemory`: a read or a write succeeds
-- exactly in bounds, a read of written bytes gives them, and a write changes no other byte. The
-- instructions have the meaning that the WebAssembly specification gives them.
--
-- The database is the record `GlobalContext`, with the key of a variable made of the contract and
-- the name; a host function gets the memory and the database's state, and gives the new memory or
-- the new state. `AssetDatabase`, `NftDatabase`, `StxDatabase`, `BlockDatabase`, `ChainDatabase`
-- and `CallDatabase` are the parts that the other functions use; their laws (`AssetLaws`,
-- `NftLaws`, `AtBlockLaws`) say what a write changes, and that no limit is met (`Unlimited`). An
-- error gives the whole call up, so the state after it is left out. The epoch is fixed. An export
-- `memory` that is missing is not modelled: the compiler always exports one.
--
-- The list loop of `read_from_wasm` runs on fuel, one round more than the list has bytes; the
-- constructor `diverges` marks that it has run out. For which types that is enough is stated with
-- `Host.Termination.read_from_wasm-ne-diverges`.
--
-- Not modelled: the rest of the generator (expressions, words, bindings), the other host functions
-- of linker.rs, the metadata and the burn blocks of datastore.rs, and the standard library in
-- WebAssembly text but for the function that raises an error. What a failing host function leaves
-- in memory is not modelled, since the call is then given up.
pub mod Prelude
pub mod Clarity
pub mod Layout
pub mod Wasm
pub mod Generator
pub mod Host
pub mod Runtime
pub mod Linker
pub mod Datastore
