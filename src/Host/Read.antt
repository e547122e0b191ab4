-- ===== src/Host/Read.antt =====
-- `read_from_wasm` and `read_from_wasm_indirect` of clar2wasm/src/wasm_utils.rs. The
-- `debug_assert!`s on the length are left out, as in a release build.
use clarity_wasm.Prelude.{
  ℕ, zero, suc, ◌+◌, ◌*◌, ◌^◌, true, false, List, Option, some, Result, ok, err, ◌>>=◌,
  if◌then◌else◌, ◌==◌, add32, from_le_bytes,
}
use clarity_wasm.Clarity.{
  TypeSignature, TypeMap, Value, Values, DataMap, StandardPrincipalData, no_type, int_type,
  uint_type, bool_type, buffer_type, ascii_type, utf8_type, list_type, optional_type, response_type,
  tuple_type, callable_trait, list_union_type, field, nil, cons, entry, int, uint, bool, none_value,
  principal, callable_contract, standard, contract,
}
use clarity_wasm.Layout.{get_type_size, is_in_memory_type}
use clarity_wasm.Wasm.Memory.{LinearMemory}
use clarity_wasm.Host.Errors.{
  Error, runtime, value_type_mismatch, invalid_indicator, invalid_no_type_in_value,
  invalid_list_union_type_in_value, panic, diverges, or_error, map_err,
}
use clarity_wasm.Host.Library.{ClarityLibrary}
use clarity_wasm.Host.Access.{
  as_usize, lt_i32, read_mem, read_usize, read_indirect_offset_and_length,
}

-- The contract of a callable of a trait type; of any other type, a contract principal.
unfoldable pub contract_value : TypeSignature → StandardPrincipalData → List ℕ → Value
contract_value (callable_trait t) issuer name =
    callable_contract (record { issuer = issuer; name = name }) (some t)
contract_value _ issuer name = principal (contract (record { issuer = issuer; name = name }))

-- The indicator of an optional or a response.
unfoldable pub by_indicator : ℕ → (zero_case one_case : Result Error Value) → Result Error Value
by_indicator zero zero_case one_case = zero_case
by_indicator (suc zero) zero_case one_case = one_case
by_indicator (suc (suc n)) zero_case one_case = err (invalid_indicator (suc (suc n)))

module _ (W : LinearMemory) (L : ClarityLibrary) where
  -- The low word, then the high one.
  unfoldable pub read_words : W.Memory → ℕ → Result Error ℕ
  read_words m offset = do
    low ← read_mem W runtime m offset 8
    high ← read_mem W runtime m (add32 offset 8) 8
    ok (from_le_bytes high * 2 ^ 64 + from_le_bytes low)

  unfoldable pub read_u32 : W.Memory → ℕ → Result Error ℕ
  read_u32 m offset = do bytes ← read_mem W runtime m offset 4; ok (from_le_bytes bytes)

  -- A contract's name of so many bytes, after its length.
  unfoldable pub read_contract :
      TypeSignature → W.Memory → ℕ → StandardPrincipalData → ℕ → Result Error Value
  read_contract ty m current_offset s zero = ok (principal (standard s))
  read_contract ty m current_offset s (suc n) = do
    bytes ← read_usize W runtime m current_offset (suc n)
    utf8 ← map_err (L.from_utf8 bytes) runtime
    name ← L.contract_name utf8
    ok (contract_value ty s name)

  unfoldable pub read_principal : TypeSignature → W.Memory → ℕ → Result Error Value
  read_principal ty m offset = do
    let current_offset = as_usize offset
    version ← read_usize W runtime m current_offset 1
    hash ← read_usize W runtime m (current_offset + 1) 20
    s ← L.standard_principal (from_le_bytes version) hash
    len ← read_usize W runtime m (current_offset + 21) 1
    read_contract ty m (current_offset + 22) s (from_le_bytes len)

  -- How a value is read from an offset.
  abbrev pub Reader : Type 0
  Reader = W.Memory → ℕ → Result Error Value

  -- `while current_offset < end`. The fuel runs out only if the loop does not end.
  unfoldable pub read_elements : ℕ → Reader → W.Memory → ℕ → ℕ → ℕ → Result Error Values
  read_elements zero reader m current_offset end elem_length = err diverges
  read_elements (suc fuel) reader m current_offset end elem_length =
      let more = (do
        elem ← reader m current_offset
        rest ← read_elements fuel reader m (add32 current_offset elem_length) end elem_length
        ok (cons elem rest)) in
      if lt_i32 current_offset end then more else ok nil

  -- A list of `length` bytes of representations. There are no more rounds than bytes.
  unfoldable pub read_list : Reader → Option ℕ → W.Memory → ℕ → ℕ → Result Error Value
  read_list reader elem_size m offset len = do
    elem_length ← or_error elem_size panic
    elements ← read_elements (len + 1) reader m offset (add32 offset len) elem_length
    L.cons_list_unsanitized elements

  unfoldable pub read_optional : Reader → W.Memory → ℕ → Result Error Value
  read_optional inner m offset = do
    indicator ← read_u32 m offset
    by_indicator indicator (ok none_value)
        (do v ← inner m (add32 offset 4); map_err (L.make_some v) value_type_mismatch)

  unfoldable pub read_response :
      (inner_ok inner_err : Reader) → Option ℕ → W.Memory → ℕ → Result Error Value
  read_response inner_ok inner_err ok_size m offset = do
    indicator ← read_u32 m offset
    by_indicator indicator
        (do
          n ← or_error ok_size panic
          v ← inner_err m (add32 (add32 offset 4) n)
          map_err (L.error v) value_type_mismatch)
        (do v ← inner_ok m (add32 offset 4); map_err (L.okay v) value_type_mismatch)

  -- `read_from_wasm_indirect`, from the size, the place and the reader of the type.
  unfoldable pub read_indirect :
      (ty : TypeSignature) → (W.Memory → ℕ → ℕ → Result Error Value) → Reader
  read_indirect ty direct m offset = do
    len ← or_error (get_type_size ty) panic
    in_memory ← or_error (is_in_memory_type ty) panic
    (offset, len) ←
        if in_memory then read_indirect_offset_and_length W m offset else ok (offset, len)
    direct m offset len

  unfoldable mutual
    pub read_from_wasm : TypeSignature → W.Memory → ℕ → ℕ → Result Error Value
    read_from_wasm uint_type m offset len = do n ← read_words m offset; ok (uint n)
    read_from_wasm int_type m offset len = do n ← read_words m offset; ok (int n)
    read_from_wasm (ascii_type n) m offset len = do
      bytes ← read_mem W runtime m offset len
      L.string_ascii_from_bytes bytes
    read_from_wasm (utf8_type n) m offset len = do
      bytes ← read_mem W runtime m offset len
      L.string_utf8_from_unicode_scalars bytes
    read_from_wasm (buffer_type n) m offset len = do
      bytes ← read_mem W runtime m offset len
      L.buff_from bytes
    read_from_wasm (list_type n t) m offset len =
        read_list (read_indirect t (read_from_wasm t)) (get_type_size t) m offset len
    read_from_wasm bool_type m offset len = do
      n ← read_u32 m offset
      ok (bool (if n == 0 then false else true))
    read_from_wasm (tuple_type fields) m offset len = do
      entries ← read_fields fields m offset
      L.tuple_from_data entries
    read_from_wasm (response_type t u) m offset len =
        read_response (read_indirect t (read_from_wasm t)) (read_indirect u (read_from_wasm u))
          (get_type_size t) m offset
    read_from_wasm (optional_type t) m offset len =
        read_optional (read_indirect t (read_from_wasm t)) m offset
    read_from_wasm no_type m offset len = err invalid_no_type_in_value
    read_from_wasm list_union_type m offset len = err invalid_list_union_type_in_value
    read_from_wasm ty m offset len = read_principal ty m offset

    -- The loop over a tuple's types.
    pub read_fields : TypeMap → W.Memory → ℕ → Result Error DataMap
    read_fields TypeMap.end m current_offset = ok DataMap.end
    read_fields (field key t fields) m current_offset = do
      n ← or_error (get_type_size t) panic
      v ← read_indirect t (read_from_wasm t) m current_offset
      rest ← read_fields fields m (add32 current_offset n)
      ok (entry key v rest)

  unfoldable pub read_from_wasm_indirect : TypeSignature → Reader
  read_from_wasm_indirect ty = read_indirect ty (read_from_wasm ty)
