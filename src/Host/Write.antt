-- ===== src/Host/Write.antt =====
-- `write_to_wasm` of clar2wasm/src/wasm_utils.rs. Offsets and counts are `i32` patterns. What is left
-- in memory after an error is not modelled: the call is given up.
use clarity_wasm.Prelude.{
  ℕ, ◌+◌, ◌/◌, ◌%◌, ◌^◌, Bool, true, false, List, [], ◌∷◌, Option, none, some, Result, ok, err,
  ◌>>=◌, if◌then◌else◌, ◌==◌, length, add32, mul32, to_le_bytes,
}
use clarity_wasm.Clarity.{
  TypeSignature, TypeMap, Value, Values, DataMap, ClarityName, PrincipalData, StandardPrincipalData,
  no_type, int_type, uint_type, bool_type, buffer_type, ascii_type, utf8_type, list_type,
  optional_type, response_type, tuple_type, list_union_type, field, nil, cons, entry, utf8,
  standard, contract,
}
use clarity_wasm.Layout.{get_type_size}
use clarity_wasm.Wasm.Memory.{LinearMemory}
use clarity_wasm.Host.Errors.{
  Error, value_type_mismatch, unable_to_write_memory, panic, or_error, map_err,
}
use clarity_wasm.Host.Library.{ClarityLibrary}
use clarity_wasm.Host.Access.{
  write_mem, value_as_bool, value_as_i128, value_as_u128, value_as_principal, value_as_buffer,
  value_as_optional, value_as_response, value_as_string_ascii, value_as_tuple, value_as_list,
}

-- `data_map.get(key)`
unfoldable pub lookup_entry : ClarityName → DataMap → Option Value
lookup_entry key DataMap.end = none
lookup_entry key (entry k v d) = if k == key then some v else lookup_entry key d

unfoldable pub count_values : Values → ℕ
count_values nil = 0
count_values (cons v vs) = count_values vs + 1

unfoldable pub principal_parts : PrincipalData → StandardPrincipalData × List ℕ
principal_parts (standard s) = (s, [])
principal_parts (contract c) = (c.issuer, c.name)

module _ (W : LinearMemory) where
  -- The bytes written at `offset` and at `in_mem_offset`, and the memory.
  abbrev pub Written : Type 0
  Written = Result Error (ℕ × ℕ × W.Memory)

  -- The low and the high word of an `i128` or a `u128`.
  unfoldable pub write_words : W.Memory → ℕ → ℕ → Written
  write_words m offset n = do
    m ← write_mem W m offset (to_le_bytes 8 (n % 2 ^ 64))
    m ← write_mem W m (add32 offset 8) (to_le_bytes 8 (n / 2 ^ 64 % 2 ^ 64))
    ok (16, 0, m)

  -- The representation of an in-memory value: its offset and length.
  unfoldable pub write_repr : W.Memory → ℕ → ℕ → ℕ → Bool → Result Error (ℕ × W.Memory)
  write_repr m offset in_mem_offset len false = ok (0, m)
  write_repr m offset in_mem_offset len true = do
    m ← write_mem W m offset (to_le_bytes 4 in_mem_offset)
    m ← write_mem W m (add32 offset 4) (to_le_bytes 4 len)
    ok (8, m)

  -- The bytes of a buffer or of a string.
  unfoldable pub write_in_memory : W.Memory → ℕ → ℕ → List ℕ → Bool → Written
  write_in_memory m offset in_mem_offset bytes include_repr = do
    m ← write_mem W m in_mem_offset bytes
    let len = length bytes % 2 ^ 32
    (written, m) ← write_repr m offset in_mem_offset len include_repr
    ok (written, len, m)

  -- The length of a contract's name and the name; for a standard principal, a zero.
  unfoldable pub write_contract_name : W.Memory → ℕ → ℕ → List ℕ → Result Error (ℕ × W.Memory)
  write_contract_name m in_mem_offset in_mem_written [] = do
    m ← write_mem W m (add32 in_mem_offset in_mem_written) (0 ∷ [])
    ok (add32 in_mem_written 1, m)
  write_contract_name m in_mem_offset in_mem_written (c ∷ cs) = do
    m ← write_mem W m (add32 in_mem_offset in_mem_written) ((length (c ∷ cs) % 256) ∷ [])
    let in_mem_written = add32 in_mem_written 1
    m ← write_mem W m (add32 in_mem_offset in_mem_written) (c ∷ cs)
    ok (add32 in_mem_written (length (c ∷ cs)), m)

  unfoldable pub write_principal : W.Memory → ℕ → ℕ → Value → Bool → Written
  unfolding principal_parts
  write_principal m offset in_mem_offset value include_repr = do
    p ← value_as_principal value
    let (s, name) = principal_parts p
    m ← write_mem W m (add32 in_mem_offset 0) (s.version ∷ [])
    m ← write_mem W m (add32 in_mem_offset 1) s.hash
    (in_mem_written, m) ← write_contract_name m in_mem_offset (add32 1 (length s.hash)) name
    (written, m) ← write_repr m offset in_mem_offset in_mem_written include_repr
    ok (written, in_mem_written, m)

  -- How a value of some type is written: the memory, the two offsets, the value, `include_repr`.
  abbrev pub Writer : Type 0
  Writer = W.Memory → ℕ → ℕ → Value → Bool → Written

  -- The loop over a list's elements, with what is written so far.
  unfoldable pub write_elements : Writer → W.Memory → ℕ → ℕ → ℕ → ℕ → Values → Written
  write_elements w m val_offset val_in_mem_offset val_written val_in_mem_written nil =
      ok (val_written, val_in_mem_written, m)
  write_elements w m val_offset val_in_mem_offset val_written val_in_mem_written (cons v vs) = do
    (new_written, new_in_mem_written, m) ←
        w m (add32 val_offset val_written) (add32 val_in_mem_offset val_in_mem_written) v true
    write_elements w m val_offset val_in_mem_offset (add32 val_written new_written)
        (add32 val_in_mem_written new_in_mem_written) vs

  unfoldable pub write_list : Writer → Option ℕ → W.Memory → ℕ → ℕ → Value → Bool → Written
  write_list w elem_size m offset in_mem_offset value include_repr = do
    elements ← value_as_list value
    size ← or_error elem_size panic
    let val_in_mem_offset = add32 in_mem_offset (mul32 (count_values elements) size)
    (val_written, val_in_mem_written, m) ←
        write_elements w m in_mem_offset val_in_mem_offset 0 0 elements
    (written, m) ← write_repr m offset in_mem_offset val_written include_repr
    ok (written, add32 val_written val_in_mem_written, m)

  -- The value of a `utf8` type; any other value panics.
  unfoldable pub write_utf8 : ClarityLibrary → W.Memory → ℕ → ℕ → Value → Bool → Written
  write_utf8 L m offset in_mem_offset (utf8 chars) include_repr = do
    bytes ← map_err (L.unicode_scalars chars) unable_to_write_memory
    write_in_memory m offset in_mem_offset bytes include_repr
  write_utf8 L m offset in_mem_offset _ include_repr = err panic

  unfoldable pub write_indicator : W.Memory → ℕ → Bool → Result Error (W.Memory)
  write_indicator m offset b = write_mem W m offset (to_le_bytes 4 (if b then 1 else 0))

  -- `Some` or `None`; `inner` and `size` are of the inner type.
  unfoldable pub write_optional : Writer → Option ℕ → W.Memory → ℕ → ℕ → Option Value → Written
  write_optional inner size m offset in_mem_offset none = do
    m ← write_indicator m offset false
    n ← or_error size panic
    ok (add32 4 n, 0, m)
  write_optional inner size m offset in_mem_offset (some v) = do
    m ← write_indicator m offset true
    (new_written, new_in_mem_written, m) ← inner m (add32 offset 4) in_mem_offset v true
    ok (add32 4 new_written, new_in_mem_written, m)

  -- `Ok` or `Err`, each in its place, the other's left as it is.
  unfoldable pub write_response :
      (inner_ok inner_err : Writer) (ok_size err_size : Option ℕ)
      → W.Memory
      → ℕ
      → ℕ
      → Bool × Value
      → Written
  write_response inner_ok inner_err ok_size err_size m offset in_mem_offset (true, v) = do
    m ← write_indicator m offset true
    (new_written, new_in_mem_written, m) ← inner_ok m (add32 offset 4) in_mem_offset v true
    n ← or_error err_size panic
    ok (add32 (add32 4 new_written) n, new_in_mem_written, m)
  write_response inner_ok inner_err ok_size err_size m offset in_mem_offset (false, v) = do
    m ← write_indicator m offset false
    n ← or_error ok_size panic
    let written = add32 4 n
    (new_written, new_in_mem_written, m) ← inner_err m (add32 offset written) in_mem_offset v true
    ok (add32 written new_written, new_in_mem_written, m)

  unfoldable pub write_bool : W.Memory → ℕ → Bool → Written
  write_bool m offset b = do
    m ← write_mem W m offset (to_le_bytes 4 (if b then 1 else 0))
    ok (4, 0, m)

module _ (W : LinearMemory) (L : ClarityLibrary) where
  unfoldable mutual
    pub write_to_wasm : TypeSignature → W.Memory → ℕ → ℕ → Value → Bool → Written W
    write_to_wasm int_type m offset in_mem_offset value include_repr = do
      n ← value_as_i128 value
      write_words W m offset n
    write_to_wasm uint_type m offset in_mem_offset value include_repr = do
      n ← value_as_u128 value
      write_words W m offset n
    write_to_wasm (buffer_type n) m offset in_mem_offset value include_repr = do
      bytes ← value_as_buffer value
      write_in_memory W m offset in_mem_offset bytes include_repr
    write_to_wasm (ascii_type n) m offset in_mem_offset value include_repr = do
      bytes ← value_as_string_ascii value
      write_in_memory W m offset in_mem_offset bytes include_repr
    write_to_wasm (utf8_type n) m offset in_mem_offset value include_repr =
        write_utf8 W L m offset in_mem_offset value include_repr
    write_to_wasm (list_type n t) m offset in_mem_offset value include_repr =
        write_list W (write_to_wasm t) (get_type_size t) m offset in_mem_offset value include_repr
    write_to_wasm (response_type t u) m offset in_mem_offset value include_repr = do
      r ← value_as_response value
      write_response W (write_to_wasm t) (write_to_wasm u) (get_type_size t) (get_type_size u) m
          offset in_mem_offset r
    write_to_wasm bool_type m offset in_mem_offset value include_repr = do
      b ← value_as_bool value
      write_bool W m offset b
    write_to_wasm no_type m offset in_mem_offset value include_repr = do
      m ← write_mem W m offset (to_le_bytes 4 0)
      ok (4, 0, m)
    write_to_wasm (optional_type t) m offset in_mem_offset value include_repr = do
      o ← value_as_optional value
      write_optional W (write_to_wasm t) (get_type_size t) m offset in_mem_offset o
    write_to_wasm (tuple_type fields) m offset in_mem_offset value include_repr = do
      data_map ← value_as_tuple value
      write_fields fields data_map m offset in_mem_offset 0 0
    write_to_wasm list_union_type m offset in_mem_offset value include_repr = err panic
    write_to_wasm _ m offset in_mem_offset value include_repr =
        write_principal W m offset in_mem_offset value include_repr

    -- The loop over a tuple's types, with what is written so far.
    pub write_fields : TypeMap → DataMap → W.Memory → ℕ → ℕ → ℕ → ℕ → Written W
    write_fields TypeMap.end data_map m offset in_mem_offset written in_mem_written =
        ok (written, in_mem_written, m)
    write_fields (field key t fields) data_map m offset in_mem_offset written in_mem_written = do
      val ← or_error (lookup_entry key data_map) value_type_mismatch
      (new_written, new_in_mem_written, m) ←
          write_to_wasm t m (add32 offset written) (add32 in_mem_offset in_mem_written) val true
      write_fields fields data_map m offset in_mem_offset (add32 written new_written)
          (add32 in_mem_written new_in_mem_written)
