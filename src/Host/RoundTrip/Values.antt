-- ===== src/Host/RoundTrip/Values.antt =====
-- Which values `write_to_wasm` of clar2wasm/src/wasm_utils.rs stores, with the bytes of their in-memory
-- parts, and that `read_from_wasm_indirect` reads each of them back.
use clarity_wasm.Prelude.{
  ℕ, ◌+◌, ◌≤◌, ◌<◌, ◌^◌, ◌≡◌, Bool, true, false, List, ◌∷◌, some, ok, length,
}
use clarity_wasm.Clarity.{
  TypeSignature, TypeMap, Value, Values, DataMap, StandardPrincipalData,
  QualifiedContractIdentifier, IsValueType, AreValueTypes, int_type, uint_type, bool_type,
  principal_type, buffer_type, ascii_type, utf8_type, list_type, optional_type, response_type,
  tuple_type, field, int, uint, bool, buffer, ascii, utf8, list, none_value, some_value, response,
  tuple, principal, standard, contract, nil, cons, entry,
}
use clarity_wasm.Wasm.Memory.{LinearMemory}
use clarity_wasm.Host.Library.{ClarityLibrary}
use clarity_wasm.Host.Write.{lookup_entry, write_to_wasm}
use clarity_wasm.Host.Read.{read_from_wasm_indirect}
use clarity_wasm.Host.RoundTrip.Stored.{Stored}
use clarity_wasm.Host.RoundTrip.Principals.{IsIssuer}
use clarity_wasm.Host.RoundTrip.Elements.{Each, of_nil, of_cons, elements_width}
use clarity_wasm.Host.RoundTrip.Types.{
  Trips, width, int_lem, uint_lem, bool_lem, buffer_lem, ascii_lem, utf8_lem,
}
use clarity_wasm.Host.RoundTrip.Compound.{
  none_lem, some_lem, ok_lem, err_lem, standard_lem, contract_lem, list_lem,
}
use clarity_wasm.Host.RoundTrip.Fields.{TripsFields, end_lem, field_lem, tuple_lem}

module _ (W : LinearMemory) (L : ClarityLibrary) where
  -- A value of the type that the library's constructors accept as it is, with so many bytes of
  -- in-memory parts. A tuple has an entry for each field of its type.
  mutual
    pub data Storable : TypeSignature → Value → ℕ → Type 0 where
      of_int : {n : ℕ} → n < 2 ^ 128 → Storable int_type (int n) 0
      of_uint : {n : ℕ} → n < 2 ^ 128 → Storable uint_type (uint n) 0
      of_bool : {b : Bool} → Storable bool_type (bool b) 0
      of_buffer :
          {k : ℕ} {bs : List ℕ}
          → L.buff_from bs ≡ ok (buffer bs)
          → Storable (buffer_type k) (buffer bs) (length bs)
      of_ascii :
          {k : ℕ} {bs : List ℕ}
          → L.string_ascii_from_bytes bs ≡ ok (ascii bs)
          → Storable (ascii_type k) (ascii bs) (length bs)
      of_utf8 :
          {k : ℕ} {cs : List (List ℕ)} {bs : List ℕ}
          → L.unicode_scalars cs ≡ ok bs
          → L.string_utf8_from_unicode_scalars bs ≡ ok (utf8 cs)
          → Storable (utf8_type k) (utf8 cs) (length bs)
      of_none : {t : TypeSignature} → Storable (optional_type t) none_value 0
      of_some :
          {t : TypeSignature} {v : Value} {n : ℕ}
          → L.make_some v ≡ ok (some_value v)
          → Storable t v n
          → Storable (optional_type t) (some_value v) n
      of_ok :
          {t u : TypeSignature} {v : Value} {n : ℕ}
          → L.okay v ≡ ok (response true v)
          → Storable t v n
          → Storable (response_type t u) (response true v) n
      of_err :
          {t u : TypeSignature} {v : Value} {n : ℕ}
          → L.error v ≡ ok (response false v)
          → Storable u v n
          → Storable (response_type t u) (response false v) n
      of_standard :
          {s : StandardPrincipalData}
          → IsIssuer W L s
          → Storable principal_type (principal (standard s)) 22
      of_contract :
          {c : QualifiedContractIdentifier} {first : ℕ} {rest : List ℕ}
          → c.name ≡ first ∷ rest
          → IsIssuer W L (c.issuer)
          → length c.name < 256
          → L.from_utf8 c.name ≡ ok c.name
          → L.contract_name c.name ≡ ok c.name
          → Storable principal_type (principal (contract c)) (22 + length c.name)
      of_list :
          {k : ℕ} {t : TypeSignature} {vs : Values} {n : ℕ}
          → 1 ≤ width t
          → width t < 2 ^ 32
          → L.cons_list_unsanitized vs ≡ ok (list vs)
          → StorableElements t vs n
          → Storable (list_type k t) (list vs) (elements_width (width t) vs + n)
      of_tuple :
          {fields : TypeMap} {d es : DataMap} {n : ℕ}
          → L.tuple_from_data es ≡ ok (tuple d)
          → StorableFields fields d es n
          → Storable (tuple_type fields) (tuple d) n

    pub data StorableElements : TypeSignature → Values → ℕ → Type 0 where
      of_none_left : {t : TypeSignature} → StorableElements t nil 0
      of_element :
          {t : TypeSignature} {v : Value} {vs : Values} {n k : ℕ}
          → Storable t v n
          → StorableElements t vs k
          → StorableElements t (cons v vs) (n + k)

    -- The entries of the tuple in the order of the type's fields.
    pub data StorableFields : TypeMap → DataMap → DataMap → ℕ → Type 0 where
      of_end : {d : DataMap} → StorableFields TypeMap.end d DataMap.end 0
      of_field :
          {k : ℕ} {t : TypeSignature} {fields : TypeMap} {d es : DataMap} {v : Value} {n p : ℕ}
          → lookup_entry k d ≡ some v
          → Storable t v n
          → StorableFields fields d es p
          → StorableFields (field k t fields) d (entry k v es) (n + p)

  mutual
    storable_lem :
        {t : TypeSignature} {v : Value} {n : ℕ} → IsValueType t → Storable t v n → Trips W L t v n
    storable_lem vt (of_int {n} h) = int_lem W L n h
    storable_lem vt (of_uint {n} h) = uint_lem W L n h
    storable_lem vt (of_bool {b}) = bool_lem W L b
    storable_lem vt (of_buffer {k} {bs} a) = buffer_lem W L k bs a
    storable_lem vt (of_ascii {k} {bs} a) = ascii_lem W L k bs a
    storable_lem vt (of_utf8 {k} {cs} {bs} e a) = utf8_lem W L k cs bs e a
    storable_lem vt (of_none {t}) = none_lem W L t vt
    storable_lem vt (of_some {t} {v} {n} a s) = some_lem W L t v n vt a (storable_lem vt s)
    storable_lem (vt, vu) (of_ok {t} {u} {v} {n} a s) =
        ok_lem W L t u v n vt vu a (storable_lem vt s)
    storable_lem (vt, vu) (of_err {t} {u} {v} {n} a s) =
        err_lem W L t u v n vt vu a (storable_lem vu s)
    storable_lem vt (of_standard {s} i) = standard_lem W L s i
    storable_lem vt (of_contract {c} {first} {rest} e i h u l) =
        contract_lem W L c first rest e i h u l
    storable_lem vt (of_list {k} {t} {vs} {n} one bound a es) =
        list_lem W L k t vs vt one bound a (elements_lem vt es)
    storable_lem vf (of_tuple {fields} {d} {es} {n} a fs) =
        tuple_lem W L fields d es n vf a (fields_lem vf fs)

    elements_lem :
        {t : TypeSignature} {vs : Values} {n : ℕ}
        → IsValueType t
        → StorableElements t vs n
        → Each (Trips W L t) vs n
    elements_lem vt of_none_left = of_nil
    elements_lem vt (of_element s es) = of_cons (storable_lem vt s) (elements_lem vt es)

    fields_lem :
        {fields : TypeMap} {d es : DataMap} {n : ℕ}
        → AreValueTypes fields
        → StorableFields fields d es n
        → TripsFields W L fields d es n
    fields_lem vf (of_end {d}) = end_lem W L d
    fields_lem (vt, vf) (of_field {k} {t} {fields} {d} {es} {v} {n} {p} l s fs) =
        field_lem W L k t fields d es v n p vt l (storable_lem vt s) (fields_lem vf fs)

  -- A storable value of a value type, at an offset with room for its representation below the offset
  -- for in-memory parts, and with room for these in a memory below 2 GiB: `write_to_wasm` succeeds,
  -- reports exactly the bytes of both, changes no byte outside of the two stretches, and from every
  -- memory with the same bytes there `read_from_wasm_indirect` gives the value back.
  pub read_from_wasm_indirect-write_to_wasm :
      {t : TypeSignature} {v : Value} {n : ℕ} (m : W.Memory) (offset in_mem_offset : ℕ)
      → IsValueType t
      → Storable t v n
      → offset + width t ≤ in_mem_offset
      → in_mem_offset + n ≤ W.size m
      → W.size m < 2 ^ 31
      → (m' : W.Memory) × (write_to_wasm W L t m offset in_mem_offset v true ≡ ok (width t, n, m'))
        × Stored W m m' offset
            (width t)
            in_mem_offset
            n
            (λ m''. read_from_wasm_indirect W L t m'' offset)
            v
  read_from_wasm_indirect-write_to_wasm m offset in_mem_offset vt s room fits small =
      storable_lem vt s m offset in_mem_offset room fits small
