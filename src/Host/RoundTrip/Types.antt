-- ===== src/Host/RoundTrip/Types.antt =====
-- `write_to_wasm` and `read_from_wasm_indirect` of clar2wasm/src/wasm_utils.rs at each type: what is
-- written is read back, if the parts are.
use clarity_wasm.Prelude.{
  ℕ, ◌<◌, ◌^◌, ◌≡◌, refl, ◌∙◌, ap, Bool, true, false, List, some, ok, arith, length,
}
use clarity_wasm.Clarity.{
  TypeSignature, Value, IsValueType, int_type, uint_type, bool_type, buffer_type, ascii_type,
  utf8_type, int, uint, bool, buffer, ascii, utf8,
}
use clarity_wasm.Layout.{clar2wasm_ty, get_type_size, is_in_memory_type}
use clarity_wasm.Layout.Sizes.{byte_width, get_type_size-eq-byte_width}
use clarity_wasm.Wasm.Memory.{LinearMemory}
use clarity_wasm.Host.Library.{ClarityLibrary}
use clarity_wasm.Host.Access.{
  value_as_i128, value_as_u128, value_as_bool, value_as_buffer, value_as_string_ascii,
}
use clarity_wasm.Host.Write.{write_to_wasm, write_bool, write_utf8}
use clarity_wasm.Host.Read.{read_from_wasm, read_from_wasm_indirect, read_indirect}
use clarity_wasm.Host.RoundTrip.Stored.{Stored, Stored-map}
use clarity_wasm.Host.RoundTrip.Leaves.{write_words-Stored, write_u32-Stored}
use clarity_wasm.Host.RoundTrip.Packed.{RoundTrips, write_in_memory-Stored}

-- The bytes of the representation of a value of the type.
abbrev pub width : TypeSignature → ℕ
width t = byte_width (clar2wasm_ty t)

pub get_type_size-eq-width :
    (t : TypeSignature) → IsValueType t → width t < 2 ^ 32 → get_type_size t ≡ some (width t)
get_type_size-eq-width t v h = get_type_size-eq-byte_width t v ∙ ap some (omega arith)

module _ (W : LinearMemory) (L : ClarityLibrary) where
  -- A value of the type, with so many in-memory bytes, is read back as it was written.
  abbrev pub Trips : TypeSignature → Value → ℕ → Type 0
  Trips t v n = RoundTrips W L (write_to_wasm W L t) (read_from_wasm_indirect W L t) (width t) v n

  -- A value that is no in-memory value is read in its place.
  pub Stored-direct :
      (t : TypeSignature) {m m' : W.Memory} (off z io n k : ℕ) (v : Value)
      → get_type_size t ≡ some k
      → is_in_memory_type t ≡ some false
      → Stored W m m' off z io n (λ m''. read_from_wasm W L t m'' off k) v
      → Stored W m m' off z io n (λ m''. read_from_wasm_indirect W L t m'' off) v
  unfolding read_from_wasm_indirect read_indirect
  Stored-direct t off z io n k v size mem s = Stored-map W _ v s (λ m'' p. rw (size, mem, p))

  pub int_lem : (n : ℕ) → n < 2 ^ 128 → Trips int_type (int n) 0
  unfolding clar2wasm_ty write_to_wasm value_as_i128 read_from_wasm get_type_size is_in_memory_type
  int_lem n h m off io room fits small =
      let (m', e, s) = write_words-Stored W L m off io n (omega arith) small h in
      (
        m',
        e,
        Stored-direct int_type off 16 io 0 16 (int n) refl refl
            (Stored-map W _ (int n) s (λ m'' p. rw p)),
      )

  pub uint_lem : (n : ℕ) → n < 2 ^ 128 → Trips uint_type (uint n) 0
  unfolding clar2wasm_ty write_to_wasm value_as_u128 read_from_wasm get_type_size is_in_memory_type
  uint_lem n h m off io room fits small =
      let (m', e, s) = write_words-Stored W L m off io n (omega arith) small h in
      (
        m',
        e,
        Stored-direct uint_type off 16 io 0 16 (uint n) refl refl
            (Stored-map W _ (uint n) s (λ m'' p. rw p)),
      )

  pub bool_lem : (b : Bool) → Trips bool_type (bool b) 0
  unfolding clar2wasm_ty write_to_wasm value_as_bool write_bool read_from_wasm get_type_size
      is_in_memory_type
  bool_lem true m off io room fits small =
      let (m', e, s) = write_u32-Stored W L m off io 1 (omega arith) small (omega arith) in
      (
        m',
        rw e,
        Stored-direct bool_type off 4 io 0 4 (bool true) refl refl
            (Stored-map W _ (bool true) s (λ m'' p. rw p)),
      )
  bool_lem false m off io room fits small =
      let (m', e, s) = write_u32-Stored W L m off io 0 (omega arith) small (omega arith) in
      (
        m',
        rw e,
        Stored-direct bool_type off 4 io 0 4 (bool false) refl refl
            (Stored-map W _ (bool false) s (λ m'' p. rw p)),
      )

  pub buffer_lem :
      (k : ℕ) (bs : List ℕ)
      → L.buff_from bs ≡ ok (buffer bs)
      → Trips (buffer_type k) (buffer bs) (length bs)
  unfolding clar2wasm_ty write_to_wasm value_as_buffer read_from_wasm get_type_size
      is_in_memory_type read_from_wasm_indirect
  buffer_lem k bs a m off io room fits small =
      write_in_memory-Stored W L (buffer_type k) (read_from_wasm W L (buffer_type k)) bs (buffer bs)
        refl refl (λ q o e. rw (e, a)) m off io room fits small

  pub ascii_lem :
      (k : ℕ) (bs : List ℕ)
      → L.string_ascii_from_bytes bs ≡ ok (ascii bs)
      → Trips (ascii_type k) (ascii bs) (length bs)
  unfolding clar2wasm_ty write_to_wasm value_as_string_ascii read_from_wasm get_type_size
      is_in_memory_type read_from_wasm_indirect
  ascii_lem k bs a m off io room fits small =
      write_in_memory-Stored W L (ascii_type k) (read_from_wasm W L (ascii_type k)) bs (ascii bs)
        refl refl (λ q o e. rw (e, a)) m off io room fits small

  pub utf8_lem :
      (k : ℕ) (cs : List (List ℕ)) (bs : List ℕ)
      → L.unicode_scalars cs ≡ ok bs
      → L.string_utf8_from_unicode_scalars bs ≡ ok (utf8 cs)
      → Trips (utf8_type k) (utf8 cs) (length bs)
  unfolding clar2wasm_ty write_to_wasm write_utf8 read_from_wasm get_type_size is_in_memory_type
      read_from_wasm_indirect
  utf8_lem k cs bs e a m off io room fits small =
      let (m', f, s) =
        write_in_memory-Stored W L (utf8_type k) (read_from_wasm W L (utf8_type k)) bs (utf8 cs)
          refl refl (λ q o p. rw (p, a)) m off io room fits small in
      (m', rw e f, s)
