-- ===== src/Host/RoundTrip/Fields.antt =====
-- Tuples that clar2wasm/src/wasm_utils.rs writes and reads back: one step of the loops over the fields.
use clarity_wasm.Prelude.{
  ℕ, ◌+◌, ◌≤◌, ◌<◌, ◌^◌, ◌≡◌, refl, ◌∙◌, ap, ap₂, true, some, ok, arith, add32, add32-eq-add,
}
use clarity_wasm.Clarity.{
  TypeSignature, TypeMap, Value, DataMap, ClarityName, IsValueType, AreValueTypes, tuple_type,
  field, tuple, entry,
}
use clarity_wasm.Layout.{clar2wasm_ty, clar2wasm_ty_fields, get_type_size, is_in_memory_type}
use clarity_wasm.Layout.Sizes.{byte_width, byte_width-append}
use clarity_wasm.Wasm.Memory.{LinearMemory}
use clarity_wasm.Host.Library.{ClarityLibrary}
use clarity_wasm.Host.Access.{value_as_tuple}
use clarity_wasm.Host.Write.{write_to_wasm, write_fields, lookup_entry}
use clarity_wasm.Host.Read.{read_from_wasm, read_from_wasm_indirect, read_fields}
use clarity_wasm.Host.RoundTrip.Stored.{Stored, Stored-gap, Stored-then, Stored-map}
use clarity_wasm.Host.RoundTrip.Types.{Trips, width, get_type_size-eq-width, Stored-direct}

abbrev pub fields_width : TypeMap → ℕ
fields_width fields = byte_width (clar2wasm_ty_fields fields)

module _ (W : LinearMemory) (L : ClarityLibrary) where
  -- Wherever the loop over the fields stands, it writes the rest so that it is read back.
  abbrev pub TripsFields : TypeMap → DataMap → DataMap → ℕ → Type 0
  TripsFields fields d es n =
      (m : W.Memory) (o io a b written in_written : ℕ)
      → a ≡ o + written
      → b ≡ io + in_written
      → a + fields_width fields ≤ b
      → b + n ≤ W.size m
      → W.size m < 2 ^ 31
      → (m' : W.Memory) × (write_fields W L fields d m o io written in_written
          ≡ ok (written + fields_width fields, in_written + n, m'))
        × Stored W m m' a (fields_width fields) b n (λ m''. read_fields W L fields m'' a) es

  field-run :
      (k : ClarityName) (t : TypeSignature) (fields : TypeMap) (d : DataMap) (m m₁ : W.Memory)
      (o io a b written in_written z n : ℕ) (v : Value) {out : ℕ × ℕ × W.Memory}
      → lookup_entry k d ≡ some v
      → add32 o written ≡ a
      → add32 io in_written ≡ b
      → write_to_wasm W L t m a b v true ≡ ok (z, n, m₁)
      → write_fields W L fields d m₁ o io (written + z) (in_written + n) ≡ ok out
      → written + z < 2 ^ 32
      → in_written + n < 2 ^ 32
      → write_fields W L (field k t fields) d m o io written in_written ≡ ok out
  unfolding write_fields
  field-run k t fields d m m₁ o io a b written in_written z n v l ea eb e f h g =
      rw (l, ea, eb, e, add32-eq-add written z h, add32-eq-add in_written n g, f)

  field-read :
      (k : ClarityName) (t : TypeSignature) (fields : TypeMap) (m : W.Memory) (a z : ℕ) (v : Value)
      (es : DataMap)
      → get_type_size t ≡ some z
      → a + z < 2 ^ 32
      → read_from_wasm_indirect W L t m a ≡ ok v
      → read_fields W L fields m (a + z) ≡ ok es
      → read_fields W L (field k t fields) m a ≡ ok (entry k v es)
  unfolding read_fields read_from_wasm_indirect
  field-read k t fields m a z v es size h e f = rw (size, e, add32-eq-add a z h, f)

  field_width :
      (k : ClarityName) (t : TypeSignature) (fields : TypeMap)
      → fields_width (field k t fields) ≡ width t + fields_width fields
  unfolding clar2wasm_ty_fields
  field_width k t fields = byte_width-append (clar2wasm_ty t) (clar2wasm_ty_fields fields)

  pub end_lem : (d : DataMap) → TripsFields TypeMap.end d DataMap.end 0
  unfolding write_fields read_fields clar2wasm_ty_fields
  end_lem d m o io a b written in_written ea eb room fits small = (
    m,
    ap ok (ap₂ (λ x y. (x, y, m)) (omega arith) (omega arith)),
    Stored-map W _ DataMap.end (Stored-gap W m a 0 b) (λ m'' p. refl),
  )

  pub field_lem :
      (k : ClarityName) (t : TypeSignature) (fields : TypeMap) (d es : DataMap) (v : Value)
      (n p : ℕ)
      → IsValueType t
      → lookup_entry k d ≡ some v
      → Trips W L t v n
      → TripsFields fields d es p
      → TripsFields (field k t fields) d (entry k v es) (n + p)
  field_lem k t fields d es v n p vt l trip rest m o io a b written in_written ea eb room fits
        small =
      let whole = field_width k t fields in
      let size = get_type_size-eq-width t vt (omega arith) in
      let (m₁, e, s) = trip m a b (omega arith) (omega arith) small in
      let same = s.same_size in
      let (m₂, f, q) =
        rest m₁ o io (a + width t) (b + n) (written + width t) (in_written + n) (omega arith)
          (omega arith) (omega arith) (omega arith) (omega arith) in
      (
        m₂,
        field-run k t fields d m m₁ o io a b written in_written (width t) n v l
              (add32-eq-add o written (omega arith) ∙ omega arith)
              (add32-eq-add io in_written (omega arith) ∙ omega arith) e f (omega arith)
              (omega arith)
            ∙ ap ok (ap₂ (λ x y. (x, y, m₂)) (omega arith) (omega arith)),
        Stored-then W a (width t) (fields_width fields) b n p
            (λ m''. read_fields W L (field k t fields) m'' a) (entry k v es) s q refl refl whole
            refl room
            (λ m'' g h. field-read k t fields m'' a (width t) v es size (omega arith) g h),
      )

  pub tuple_lem :
      (fields : TypeMap) (d es : DataMap) (n : ℕ)
      → AreValueTypes fields
      → L.tuple_from_data es ≡ ok (tuple d)
      → TripsFields fields d es n
      → Trips W L (tuple_type fields) (tuple d) n
  unfolding clar2wasm_ty write_to_wasm value_as_tuple read_from_wasm is_in_memory_type
  tuple_lem fields d es n vf a trip m off io room fits small =
      let (m', e, s) = trip m off io off io 0 0 (omega arith) (omega arith) room fits small in
      (
        m',
        e ∙ ap ok (ap₂ (λ x y. (x, y, m')) (omega arith) (omega arith)),
        Stored-direct W L (tuple_type fields) off (fields_width fields) io n _ (tuple d)
            (get_type_size-eq-width (tuple_type fields) vf (omega arith)) refl
            (Stored-map W _ (tuple d) s (λ m'' p. rw p a)),
      )
