-- ===== src/Host/Access.antt =====
-- Reads and writes at an `i32` offset, `read_bytes_from_wasm`, `read_indirect_offset_and_length` and
-- the `value_as_*` casts of clar2wasm/src/wasm_utils.rs.
use clarity_wasm.Prelude.{
  ℕ, ◌+◌, ◌-◌, ◌%◌, ◌^◌, Bool, List, Option, none, some, Result, ok, err, ◌>>=◌, ltb, if◌then◌else◌,
  add32, from_le_bytes,
}
use clarity_wasm.Clarity.{
  Value, Values, DataMap, PrincipalData, int, uint, bool, buffer, ascii, list, none_value,
  some_value, response, tuple, principal,
}
use clarity_wasm.Wasm.Memory.{LinearMemory}
use clarity_wasm.Host.Errors.{
  Error, value_type_mismatch, unable_to_write_memory, runtime, or_error, panic,
}

-- `offset as usize` of an `i32`: a negative offset becomes one beyond every memory.
abbrev pub as_usize : ℕ → ℕ
as_usize offset = if ltb offset (2 ^ 31) then offset else offset + (2 ^ 64 - 2 ^ 32)

-- `<` on `i32` patterns.
abbrev pub lt_i32 : ℕ → ℕ → Bool
lt_i32 a b = ltb ((a + 2 ^ 31) % 2 ^ 32) ((b + 2 ^ 31) % 2 ^ 32)

module _ (W : LinearMemory) where
  unfoldable pub write_mem : W.Memory → ℕ → List ℕ → Result Error (W.Memory)
  write_mem m offset bytes = or_error (W.write m (as_usize offset) bytes) unable_to_write_memory

  -- `memory.read` with its error mapped to `e`, into a new vector: for a negative length that panics.
  unfoldable pub read_mem : Error → W.Memory → ℕ → ℕ → Result Error (List ℕ)
  read_mem e m offset len =
      if ltb len (2 ^ 31) then or_error (W.read m (as_usize offset) len) e else err panic

  -- The same at an offset and a length that are `usize`.
  unfoldable pub read_usize : Error → W.Memory → ℕ → ℕ → Result Error (List ℕ)
  read_usize e m offset len = or_error (W.read m offset len) e

  unfoldable pub read_bytes_from_wasm : W.Memory → ℕ → ℕ → Result Error (List ℕ)
  unfolding read_mem
  read_bytes_from_wasm m offset len = read_mem runtime m offset len

  unfoldable pub read_indirect_offset_and_length : W.Memory → ℕ → Result Error (ℕ × ℕ)
  unfolding read_mem
  read_indirect_offset_and_length m offset = do
    xs ← read_mem runtime m offset 4
    ys ← read_mem runtime m (add32 offset 4) 4
    ok (from_le_bytes xs, from_le_bytes ys)

unfoldable pub value_as_bool : Value → Result Error Bool
value_as_bool (bool b) = ok b
value_as_bool _ = err value_type_mismatch

unfoldable pub value_as_i128 : Value → Result Error ℕ
value_as_i128 (int n) = ok n
value_as_i128 _ = err value_type_mismatch

unfoldable pub value_as_u128 : Value → Result Error ℕ
value_as_u128 (uint n) = ok n
value_as_u128 _ = err value_type_mismatch

unfoldable pub value_as_principal : Value → Result Error PrincipalData
value_as_principal (principal p) = ok p
value_as_principal _ = err value_type_mismatch

unfoldable pub value_as_buffer : Value → Result Error (List ℕ)
value_as_buffer (buffer bs) = ok bs
value_as_buffer _ = err value_type_mismatch

unfoldable pub value_as_optional : Value → Result Error (Option Value)
value_as_optional none_value = ok none
value_as_optional (some_value v) = ok (some v)
value_as_optional _ = err value_type_mismatch

-- `committed` and the data.
unfoldable pub value_as_response : Value → Result Error (Bool × Value)
value_as_response (response committed v) = ok (committed, v)
value_as_response _ = err value_type_mismatch

unfoldable pub value_as_string_ascii : Value → Result Error (List ℕ)
value_as_string_ascii (ascii bs) = ok bs
value_as_string_ascii _ = err value_type_mismatch

unfoldable pub value_as_tuple : Value → Result Error DataMap
value_as_tuple (tuple d) = ok d
value_as_tuple _ = err value_type_mismatch

unfoldable pub value_as_list : Value → Result Error Values
value_as_list (list vs) = ok vs
value_as_list _ = err value_type_mismatch
