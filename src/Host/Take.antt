-- ===== src/Host/Take.antt =====
-- `wasm_to_clarity_value` of clar2wasm/src/wasm_utils.rs: the value that Wasm values stand for.
use clarity_wasm.Prelude.{
  ℕ, zero, suc, ◌+◌, ◌*◌, ◌^◌, true, false, List, [], ◌∷◌, Option, none, some, Result, ok, err,
  ◌>>=◌, if◌then◌else◌, ◌==◌, length, take, drop, add32, from_le_bytes,
}
use clarity_wasm.Clarity.{
  TypeSignature, TypeMap, Value, DataMap, StandardPrincipalData, no_type, int_type, uint_type,
  bool_type, buffer_type, ascii_type, utf8_type, list_type, optional_type, response_type,
  tuple_type, list_union_type, field, entry, int, uint, bool, none_value, principal, standard,
}
use clarity_wasm.Layout.{ValType, i32, i64}
use clarity_wasm.Wasm.Memory.{LinearMemory}
use clarity_wasm.Wasm.Machine.{Val}
use clarity_wasm.Host.Errors.{
  Error, value_type_mismatch, unable_to_read_memory, unable_to_read_identifier,
  invalid_list_union_type_in_value, could_not_determine_type, could_not_determine_response_ok_type,
  could_not_determine_response_err_type, bad_tuple_construction, panic, or_error, map_err,
}
use clarity_wasm.Host.Library.{ClarityLibrary}
use clarity_wasm.Host.Access.{as_usize, read_mem, read_usize}
use clarity_wasm.Host.Read.{contract_value, read_from_wasm}
use clarity_wasm.Host.Types.{clar2wasm_ty}

-- `buffer[index]`
unfoldable pub get_val : List Val → ℕ → Result Error Val
get_val [] index = err panic
get_val (v ∷ vs) zero = ok v
get_val (v ∷ vs) (suc index) = get_val vs index

unfoldable pub as_type : ValType → Val → Result Error ℕ
as_type i32 (i32, n) = ok n
as_type i64 (i64, n) = ok n
as_type _ _ = err value_type_mismatch

-- `buffer[index].i32().ok_or(..)?` and its `i64`.
unfoldable pub get_typed : ValType → List Val → ℕ → Result Error ℕ
unfolding get_val as_type
get_typed ty vals index = do v ← get_val vals index; as_type ty v

module _ (W : LinearMemory) (L : ClarityLibrary) where
  -- A value, if the type has values, and the number of Wasm values used.
  abbrev pub Taken : Type 0
  Taken = Result Error (Option Value × ℕ)

  unfoldable pub take_words : (ℕ → Value) → List Val → ℕ → Taken
  take_words make vals index = do
    lower ← get_typed i64 vals index
    upper ← get_typed i64 vals (index + 1)
    ok (some (make (upper * 2 ^ 64 + lower)), 2)

  unfoldable pub take_bytes : (List ℕ → Result Error Value) → List Val → ℕ → W.Memory → Taken
  take_bytes make vals index m = do
    offset ← get_typed i32 vals index
    len ← get_typed i32 vals (index + 1)
    bytes ← read_mem W unable_to_read_memory m offset len
    v ← make bytes
    ok (some v, 2)

  unfoldable pub take_contract : TypeSignature → W.Memory → ℕ → StandardPrincipalData → ℕ → Taken
  take_contract ty m offset s zero = ok (some (principal (standard s)), 2)
  take_contract ty m offset s (suc n) = do
    bytes ← read_mem W unable_to_read_memory m (add32 offset 22) (suc n)
    text ← map_err (L.from_utf8 bytes) unable_to_read_identifier
    name ← L.contract_name text
    ok (some (contract_value ty s name), 2)

  unfoldable pub take_principal : TypeSignature → List Val → ℕ → W.Memory → Taken
  take_principal ty vals index m = do
    offset ← get_typed i32 vals index
    bytes ← read_usize W unable_to_read_memory m (as_usize offset) 21
    len ← read_usize W unable_to_read_memory m (as_usize offset + 21) 1
    s ← L.standard_principal (from_le_bytes (take 1 bytes)) (drop 1 bytes)
    take_contract ty m offset s (from_le_bytes len)

  unfoldable mutual
    pub wasm_to_clarity_value : TypeSignature → ℕ → List Val → W.Memory → Taken
    wasm_to_clarity_value int_type index vals m = take_words int vals index
    wasm_to_clarity_value uint_type index vals m = take_words uint vals index
    wasm_to_clarity_value bool_type index vals m = do
      n ← get_typed i32 vals index
      ok (some (bool (if n == 0 then false else true)), 1)
    wasm_to_clarity_value (optional_type t) index vals m = do
      let inner = (do
        (value, used) ← wasm_to_clarity_value t (index + 1) vals m
        v ← or_error value could_not_determine_type
        L.make_some v)
      value_types ← clar2wasm_ty t
      indicator ← get_typed i32 vals index
      v ← if indicator == 1 then inner else ok none_value
      ok (some v, 1 + length value_types)
    wasm_to_clarity_value (response_type t u) index vals m = do
      let in_ok = (do
        (value, used) ← wasm_to_clarity_value t (index + 1) vals m
        v ← or_error value could_not_determine_response_ok_type
        L.okay v)
      let in_err = λ (at : ℕ). (do
        (value, used) ← wasm_to_clarity_value u at vals m
        v ← or_error value could_not_determine_response_err_type
        L.error v)
      ok_types ← clar2wasm_ty t
      err_types ← clar2wasm_ty u
      indicator ← get_typed i32 vals index
      v ← if indicator == 1 then in_ok else in_err (index + 1 + length ok_types)
      ok (some v, 1 + length ok_types + length err_types)
    wasm_to_clarity_value (ascii_type n) index vals m =
        take_bytes L.string_ascii_from_bytes vals index m
    wasm_to_clarity_value no_type index vals m = ok (none, 1)
    wasm_to_clarity_value (utf8_type n) index vals m =
        take_bytes L.string_utf8_from_unicode_scalars vals index m
    wasm_to_clarity_value (buffer_type n) index vals m = take_bytes L.buff_from vals index m
    wasm_to_clarity_value (list_type n t) index vals m = do
      offset ← get_typed i32 vals index
      len ← get_typed i32 vals (index + 1)
      v ← read_from_wasm W L (list_type n t) m offset len
      ok (some v, 2)
    wasm_to_clarity_value (tuple_type fields) index vals m = do
      (entries, used) ← wasm_to_clarity_fields fields index vals m
      v ← L.tuple_from_data entries
      ok (some v, used)
    wasm_to_clarity_value list_union_type index vals m = err invalid_list_union_type_in_value
    wasm_to_clarity_value ty index vals m = take_principal ty vals index m

    -- The loop over a tuple's types: the entries, and the number of Wasm values used.
    pub wasm_to_clarity_fields : TypeMap → ℕ → List Val → W.Memory → Result Error (DataMap × ℕ)
    wasm_to_clarity_fields TypeMap.end index vals m = ok (DataMap.end, 0)
    wasm_to_clarity_fields (field key t fields) index vals m = do
      (value, increment) ← wasm_to_clarity_value t index vals m
      v ← or_error value bad_tuple_construction
      (rest, used) ← wasm_to_clarity_fields fields (index + increment) vals m
      ok (entry key v rest, increment + used)
