-- ===== src/Host/Pass.antt =====
-- `pass_argument_to_wasm` of clar2wasm/src/wasm_utils.rs: the Wasm values that stand for a value.
use clarity_wasm.Prelude.{
  ℕ, ◌/◌, ◌%◌, ◌^◌, true, false, List, [], ◌∷◌, ◌++◌, map, Result, ok, err, ◌>>=◌, if◌then◌else◌,
  length, add32,
}
use clarity_wasm.Clarity.{
  TypeSignature, TypeMap, Value, Values, DataMap, list_type, optional_type, response_type,
  tuple_type, field, nil, cons, int, uint, bool, buffer, ascii, utf8, list, none_value, some_value,
  response, tuple, principal, callable_contract, standard, contract,
}
use clarity_wasm.Layout.{i32, i64}
use clarity_wasm.Wasm.Memory.{LinearMemory}
use clarity_wasm.Wasm.Machine.{Val}
use clarity_wasm.Host.Errors.{
  Error, value_type_mismatch, wasm_generator_error, panic, or_error, map_err,
}
use clarity_wasm.Host.Library.{ClarityLibrary}
use clarity_wasm.Host.Access.{write_mem}
use clarity_wasm.Host.Write.{Writer, lookup_entry, write_to_wasm}
use clarity_wasm.Host.Types.{clar2wasm_ty, zero_val}

module _ (W : LinearMemory) (L : ClarityLibrary) where
  -- The values to pass, the two offsets and the memory.
  abbrev pub Passed : Type 0
  Passed = Result Error (List Val × ℕ × ℕ × W.Memory)

  unfoldable pub words_of : ℕ → List Val
  words_of n = (i64, n % 2 ^ 64) ∷ (i64, n / 2 ^ 64 % 2 ^ 64) ∷ []

  -- Bytes go to `in_mem_offset`; their offset and length are passed.
  unfoldable pub pass_bytes : W.Memory → List ℕ → ℕ → ℕ → Passed
  pass_bytes m bytes offset in_mem_offset = do
    m ← write_mem W m in_mem_offset bytes
    ok (
      (i32, in_mem_offset) ∷ (i32, length bytes % 2 ^ 32) ∷ [],
      offset,
      add32 in_mem_offset (length bytes),
      m,
    )

  -- The values that no type is looked at for; the others have a type that does not fit them.
  unfoldable pub pass_simple : W.Memory → Value → ℕ → ℕ → Passed
  unfolding words_of pass_bytes
  pass_simple m (uint n) offset in_mem_offset = ok (words_of n, offset, in_mem_offset, m)
  pass_simple m (int n) offset in_mem_offset = ok (words_of n, offset, in_mem_offset, m)
  pass_simple m (bool b) offset in_mem_offset =
      ok ((i32, if b then 1 else 0) ∷ [], offset, in_mem_offset, m)
  pass_simple m (ascii bytes) offset in_mem_offset = pass_bytes m bytes offset in_mem_offset
  pass_simple m (utf8 chars) offset in_mem_offset = do
    bytes ← map_err (L.unicode_scalars chars) wasm_generator_error
    pass_bytes m bytes offset in_mem_offset
  pass_simple m (buffer bytes) offset in_mem_offset = pass_bytes m bytes offset in_mem_offset
  pass_simple m (principal (standard s)) offset in_mem_offset =
      pass_bytes m (s.version ∷ (s.hash ++ 0 ∷ [])) offset in_mem_offset
  pass_simple m (principal (contract c)) offset in_mem_offset =
      pass_bytes m (c.issuer.version ∷ (c.issuer.hash ++ (length c.name % 256) ∷ c.name)) offset
        in_mem_offset
  pass_simple m (callable_contract c t) offset in_mem_offset =
      pass_bytes m (c.issuer.version ∷ (c.issuer.hash ++ (length c.name % 256) ∷ c.name)) offset
        in_mem_offset
  pass_simple m _ offset in_mem_offset = err value_type_mismatch

  -- The loop over a list's elements, with the bytes written at either offset.
  unfoldable pub pass_elements :
      Writer W → W.Memory → Values → ℕ → ℕ → ℕ → ℕ → Result Error (ℕ × ℕ × W.Memory)
  pass_elements w m nil offset in_mem_offset written in_mem_written =
      ok (written, in_mem_written, m)
  pass_elements w m (cons item items) offset in_mem_offset written in_mem_written = do
    (len, in_mem_len, m) ← w m (add32 offset written) (add32 in_mem_offset in_mem_written) item true
    pass_elements w m items offset in_mem_offset (add32 written len)
        (add32 in_mem_written in_mem_len)

  unfoldable mutual
    pub pass_argument_to_wasm : TypeSignature → W.Memory → Value → ℕ → ℕ → Passed
    pass_argument_to_wasm (optional_type t) m (some_value v) offset in_mem_offset = do
      (vals, offset, in_mem_offset, m) ← pass_argument_to_wasm t m v offset in_mem_offset
      ok ((i32, 1) ∷ vals, offset, in_mem_offset, m)
    pass_argument_to_wasm (optional_type t) m none_value offset in_mem_offset = do
      types ← clar2wasm_ty (optional_type t)
      ok (map zero_val types, offset, in_mem_offset, m)
    pass_argument_to_wasm (response_type t u) m (response true v) offset in_mem_offset = do
      (vals, offset, in_mem_offset, m) ← pass_argument_to_wasm t m v offset in_mem_offset
      types ← clar2wasm_ty u
      ok ((i32, 1) ∷ (vals ++ map zero_val types), offset, in_mem_offset, m)
    pass_argument_to_wasm (response_type t u) m (response false v) offset in_mem_offset = do
      (vals, offset, in_mem_offset, m) ← pass_argument_to_wasm u m v offset in_mem_offset
      types ← clar2wasm_ty t
      ok ((i32, 0) ∷ (map zero_val types ++ vals), offset, in_mem_offset, m)
    pass_argument_to_wasm (list_type n t) m (list items) offset in_mem_offset = do
      (written, in_mem_written, m) ←
          pass_elements (write_to_wasm W L t) m items offset in_mem_offset 0 0
      ok (
        (i32, offset) ∷ (i32, written) ∷ [],
        add32 offset written,
        add32 in_mem_offset in_mem_written,
        m,
      )
    pass_argument_to_wasm (tuple_type fields) m (tuple data_map) offset in_mem_offset =
        pass_fields fields data_map m offset in_mem_offset
    pass_argument_to_wasm ty m value offset in_mem_offset = pass_simple m value offset in_mem_offset

    pub pass_fields : TypeMap → DataMap → W.Memory → ℕ → ℕ → Passed
    pass_fields TypeMap.end data_map m offset in_mem_offset = ok ([], offset, in_mem_offset, m)
    pass_fields (field name t fields) data_map m offset in_mem_offset = do
      v ← or_error (lookup_entry name data_map) panic
      (b, offset, in_mem_offset, m) ← pass_argument_to_wasm t m v offset in_mem_offset
      (vals, offset, in_mem_offset, m) ← pass_fields fields data_map m offset in_mem_offset
      ok (b ++ vals, offset, in_mem_offset, m)
