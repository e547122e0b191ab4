-- ===== src/Linker/Reading.antt =====
-- How the host functions of clar2wasm/src/linker.rs read a value and write one.
use clarity_wasm.Prelude.{
  ℕ, ◌+◌, ◌≤◌, ◌<◌, ◌^◌, ◌≡◌, refl, ◌∙◌, Bool, true, false, Option, none, some, Result, ok, ◌>>=◌,
  if◌then◌else◌, add32, add32-eq-add, arith,
}
use clarity_wasm.Clarity.{
  TypeSignature, Value, IsValueType, no_type, int_type, uint_type, bool_type, optional_type,
  response_type, tuple_type, list_union_type,
}
use clarity_wasm.Layout.{get_type_size, is_in_memory_type}
use clarity_wasm.Wasm.Memory.{LinearMemory}
use clarity_wasm.Host.Errors.{Error, panic, or_error}
use clarity_wasm.Host.Library.{ClarityLibrary}
use clarity_wasm.Host.Access.{read_indirect_offset_and_length}
use clarity_wasm.Host.Write.{write_to_wasm}
use clarity_wasm.Host.Read.{read_from_wasm, read_from_wasm_indirect, read_indirect}
use clarity_wasm.Host.RoundTrip.Stored.{Stored}
use clarity_wasm.Host.RoundTrip.Types.{width, get_type_size-eq-width}
use clarity_wasm.Host.RoundTrip.Values.{Storable, read_from_wasm_indirect-write_to_wasm}

module _ (W : LinearMemory) (L : ClarityLibrary) where
  -- An argument's value: through its offset and length in memory, if it is an in-memory value.
  unfoldable pub read_argument : TypeSignature → W.Memory → ℕ → ℕ → Result Error Value
  read_argument ty m offset len = do
    in_memory ← or_error (is_in_memory_type ty) panic
    (offset, len) ←
        if in_memory then read_indirect_offset_and_length W m offset else ok (offset, len)
    read_from_wasm W L ty m offset len

  -- The result at `return_offset`, its in-memory parts behind it.
  unfoldable pub write_result : TypeSignature → W.Memory → ℕ → Value → Result Error (W.Memory)
  write_result ty m return_offset value = do
    n ← or_error (get_type_size ty) panic
    (_, _, m) ← write_to_wasm W L ty m return_offset (add32 return_offset n) value true
    ok m

  -- The length is of no account outside of in-memory types.
  read_from_wasm-length :
      (t : TypeSignature) (m : W.Memory) (offset l k : ℕ)
      → is_in_memory_type t ≡ some false
      → read_from_wasm W L t m offset l ≡ read_from_wasm W L t m offset k
  unfolding read_from_wasm is_in_memory_type
  read_from_wasm-length int_type m offset l k e = refl
  read_from_wasm-length uint_type m offset l k e = refl
  read_from_wasm-length bool_type m offset l k e = refl
  read_from_wasm-length no_type m offset l k e = refl
  read_from_wasm-length (optional_type t) m offset l k e = refl
  read_from_wasm-length (response_type t u) m offset l k e = refl
  read_from_wasm-length (tuple_type fields) m offset l k e = refl
  read_from_wasm-length list_union_type m offset l k e = refl
  read_from_wasm-length _ m offset l k e = absurd (cc)

  pub read_argument-eq-indirect :
      (t : TypeSignature) (m : W.Memory) (offset len : ℕ) {v : Value}
      → read_from_wasm_indirect W L t m offset ≡ ok v
      → read_argument t m offset len ≡ ok v
  unfolding read_argument read_from_wasm_indirect read_indirect
  read_argument-eq-indirect t m offset len h = go (get_type_size t) (is_in_memory_type t) refl h
    where
      go :
          (size : Option ℕ) (o : Option Bool) {v : Value}
          → is_in_memory_type t ≡ o
          → (do
            k ← or_error size panic
            in_memory ← or_error o panic
            (offset, k) ←
                if in_memory then read_indirect_offset_and_length W m offset else ok (offset, k)
            read_from_wasm W L t m offset k)
            ≡ ok v
          → (do
            in_memory ← or_error o panic
            (offset, k) ←
                if in_memory then read_indirect_offset_and_length W m offset else ok (offset, len)
            read_from_wasm W L t m offset k)
            ≡ ok v
      go none o e h = absurd (cc)
      go (some k) none e h = absurd (cc)
      go (some k) (some true) e h = h
      go (some k) (some false) e h = read_from_wasm-length t m offset len k e ∙ h

  pub write_result-Stored :
      {t : TypeSignature} {v : Value} {n : ℕ} (m : W.Memory) (return_offset : ℕ)
      → IsValueType t
      → Storable W L t v n
      → return_offset + width t + n ≤ W.size m
      → W.size m < 2 ^ 31
      → (m' : W.Memory) × (write_result t m return_offset v ≡ ok m')
        × Stored W m m' return_offset
            (width t)
            (return_offset + width t)
            n
            (λ m''. read_from_wasm_indirect W L t m'' return_offset)
            v
  unfolding write_result
  write_result-Stored {t} {v} {n} m return_offset vt s fits small =
      let (m', e, st) =
        read_from_wasm_indirect-write_to_wasm W L m return_offset (return_offset + width t) vt s
          (omega arith) fits small in
      (
        m',
        write_result-run t m m' return_offset n v (get_type_size-eq-width t vt (omega arith))
            (omega arith) e,
        st,
      )
    where
      write_result-run :
          (t : TypeSignature) (m m' : W.Memory) (return_offset n : ℕ) (v : Value)
          → get_type_size t ≡ some (width t)
          → return_offset + width t < 2 ^ 32
          → write_to_wasm W L t m return_offset (return_offset + width t) v true
            ≡ ok (width t, n, m')
          → write_result t m return_offset v ≡ ok m'
      write_result-run t m m' return_offset n v size b e =
          rw (size, add32-eq-add return_offset (width t) b, e)
