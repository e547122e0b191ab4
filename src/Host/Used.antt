-- ===== src/Host/Used.antt =====
-- How many Wasm values `wasm_to_clarity_value` of clar2wasm/src/wasm_utils.rs uses.
use clarity_wasm.Prelude.{
  ℕ, suc, zero, ◌+◌, ◌≡◌, refl, List, Result, ok, AllOk, AllOk-bind, AllOk-ok, arith, length,
  length-append, some, Option, add32, take, drop, from_le_bytes,
}
use clarity_wasm.Clarity.{
  TypeSignature, TypeMap, Value, int, uint, StandardPrincipalData, no_type, int_type, uint_type,
  bool_type, list_type, optional_type, response_type, tuple_type, list_union_type, ascii_type,
  utf8_type, buffer_type, field,
}
use clarity_wasm.Layout
use clarity_wasm.Layout.{i32, i64}
use clarity_wasm.Wasm.Memory.{LinearMemory}
use clarity_wasm.Wasm.Machine.{Val}
use clarity_wasm.Host.Errors.{
  Error, unable_to_read_memory, unable_to_read_identifier, bad_tuple_construction, or_error,
  map_err,
}
use clarity_wasm.Host.Library.{ClarityLibrary}
use clarity_wasm.Host.Types.{clar2wasm_ty}
use clarity_wasm.Host.Shapes.{clar2wasm_ty-ok}
use clarity_wasm.Host.Take.{
  wasm_to_clarity_value, wasm_to_clarity_fields, take_words, take_bytes, take_principal,
  take_contract, get_typed,
}
use clarity_wasm.Host.Access.{as_usize, read_mem, read_usize}
use clarity_wasm.Host.Read.{read_from_wasm}

-- A success comes with the number `k`.
abbrev Uses {ℓ} : {A : Type ℓ} → ℕ → Result Error (A × ℕ) → Type 0
Uses k = AllOk (λ x. x.1 ≡ k)

module _ (W : LinearMemory) (L : ClarityLibrary) where
  words_used :
      (make : ℕ → Value) (vals : List Val) (index : ℕ) → Uses 2 (take_words W L make vals index)
  unfolding take_words
  words_used make vals index =
      AllOk-bind _ (get_typed i64 vals index) _
        (λ a e. AllOk-bind _ (get_typed i64 vals (index + 1)) _ (λ b f. refl))

  bytes_used :
      (make : List ℕ → Result Error Value) (vals : List Val) (index : ℕ) (m : W.Memory)
      → Uses 2 (take_bytes W L make vals index m)
  unfolding take_bytes
  bytes_used make vals index m = AllOk-bind _ (get_typed i32 vals index) _ (λ a e.
      AllOk-bind _ (get_typed i32 vals (index + 1)) _ (λ b f.
        AllOk-bind _ (read_mem W unable_to_read_memory m a b) _
          (λ c g. AllOk-bind _ (make c) _ (λ d h. refl))))

  contract_used :
      (t : TypeSignature) (m : W.Memory) (offset : ℕ) (s : StandardPrincipalData) (k : ℕ)
      → Uses 2 (take_contract W L t m offset s k)
  unfolding take_contract
  contract_used t m offset s zero = refl
  contract_used t m offset s (suc k) =
      AllOk-bind _ (read_mem W unable_to_read_memory m (add32 offset 22) (suc k)) _ (λ a e.
        AllOk-bind _ (map_err (L.from_utf8 a) unable_to_read_identifier) _
          (λ b f. AllOk-bind _ (L.contract_name b) _ (λ c g. refl)))

  principal_used :
      (t : TypeSignature) (vals : List Val) (index : ℕ) (m : W.Memory)
      → Uses 2 (take_principal W L t vals index m)
  unfolding take_principal
  principal_used t vals index m = AllOk-bind _ (get_typed i32 vals index) _ (λ a e.
      AllOk-bind _ (read_usize W unable_to_read_memory m (as_usize a) 21) _ (λ b f.
        AllOk-bind _ (read_usize W unable_to_read_memory m (as_usize a + 21) 1) _ (λ c g.
          AllOk-bind _ (L.standard_principal (from_le_bytes (take 1 b)) (drop 1 b)) _
            (λ d h. contract_used t m a d (from_le_bytes c)))))

  mutual
    unfolding wasm_to_clarity_value Layout.clar2wasm_ty

    values_used :
        (t : TypeSignature) (index : ℕ) (vals : List Val) (m : W.Memory)
        → Uses (length (Layout.clar2wasm_ty t)) (wasm_to_clarity_value W L t index vals m)
    values_used no_type index vals m = refl
    values_used int_type index vals m = words_used int vals index
    values_used uint_type index vals m = words_used uint vals index
    values_used bool_type index vals m = AllOk-bind _ (get_typed i32 vals index) _ (λ a e. refl)
    values_used (ascii_type k) index vals m = bytes_used L.string_ascii_from_bytes vals index m
    values_used (utf8_type k) index vals m =
        bytes_used L.string_utf8_from_unicode_scalars vals index m
    values_used (buffer_type k) index vals m = bytes_used L.buff_from vals index m
    values_used (optional_type t) index vals m = AllOk-bind _ (clar2wasm_ty t) _ (λ ts e.
        AllOk-bind _ (get_typed i32 vals index) _ (λ i f.
          AllOk-bind {B = Option Value × ℕ}
            (λ x. x.1 ≡ length (Layout.clar2wasm_ty (optional_type t))) _
            (λ v. ok (some v, 1 + length ts)) (λ v g. rw (clar2wasm_ty-ok t e) (omega arith))))
    values_used (response_type t u) index vals m = AllOk-bind _ (clar2wasm_ty t) _ (λ ts e.
        AllOk-bind _ (clar2wasm_ty u) _ (λ us f. AllOk-bind _ (get_typed i32 vals index) _ (λ i g.
          AllOk-bind {B = Option Value × ℕ}
            (λ x. x.1 ≡ length (Layout.clar2wasm_ty (response_type t u))) _
            (λ v. ok (some v, 1 + length ts + length us))
            (λ v g.
              rw (clar2wasm_ty-ok t e, clar2wasm_ty-ok u f)
                (omega (arith, length-append (Layout.clar2wasm_ty t) (Layout.clar2wasm_ty u)))))))
    values_used (list_type k t) index vals m = AllOk-bind _ (get_typed i32 vals index) _ (λ a e.
        AllOk-bind _ (get_typed i32 vals (index + 1)) _
          (λ b f. AllOk-bind _ (read_from_wasm W L (list_type k t) m a b) _ (λ c g. refl)))
    values_used (tuple_type fields) index vals m =
        AllOk-bind _ (wasm_to_clarity_fields W L fields index vals m) _ (λ a e.
          AllOk-bind _ (L.tuple_from_data a.0) _ (λ b f.
            AllOk-ok _ (wasm_to_clarity_fields W L fields index vals m)
              (fields_used fields index vals m) e))
    values_used list_union_type index vals m = tt
    values_used t index vals m = principal_used t vals index m

    fields_used :
        (fields : TypeMap) (index : ℕ) (vals : List Val) (m : W.Memory)
        → Uses
            (length (Layout.clar2wasm_ty_fields fields))
            (wasm_to_clarity_fields W L fields index vals m)
    fields_used TypeMap.end index vals m = refl
    fields_used (field key t fields) index vals m =
        AllOk-bind _ (wasm_to_clarity_value W L t index vals m) _ (λ a e.
          AllOk-bind _ (or_error a.0 bad_tuple_construction) _ (λ b f.
            AllOk-bind _ (wasm_to_clarity_fields W L fields (index + a.1) vals m) _ (λ c g.
              rw
                (
                  length-append (Layout.clar2wasm_ty t) (Layout.clar2wasm_ty_fields fields),
                  AllOk-ok _ (wasm_to_clarity_value W L t index vals m) (values_used t index vals m)
                      e,
                  AllOk-ok _ (wasm_to_clarity_fields W L fields (index + a.1) vals m)
                      (fields_used fields (index + a.1) vals m) g,
                )
                refl)))

  -- Where `wasm_to_clarity_value` succeeds, the number of Wasm values that it reports as used is
  -- that of the Wasm types that the compiler's `clar2wasm_ty` gives.
  pub wasm_to_clarity_value-length :
      (t : TypeSignature) (index : ℕ) (vals : List Val) (m : W.Memory) {v : Option Value} {n : ℕ}
      → wasm_to_clarity_value W L t index vals m ≡ ok (v, n)
      → n ≡ length (Layout.clar2wasm_ty t)
  wasm_to_clarity_value-length t index vals m h =
      AllOk-ok _ (wasm_to_clarity_value W L t index vals m) (values_used t index vals m) h
