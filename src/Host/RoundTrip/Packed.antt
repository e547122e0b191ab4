-- ===== src/Host/RoundTrip/Packed.antt =====
-- In-memory values that clar2wasm/src/wasm_utils.rs writes and reads back: their parts, and the offset
-- and length that stand for them.
use clarity_wasm.Prelude.{
  ℕ, ◌+◌, ◌%◌, ◌≤◌, ◌<◌, ◌^◌, ◌≡◌, refl, true, List, ◌++◌, some, Result, ok, arith, length,
  length-append, to_le_bytes, length-to_le_bytes,
}
use clarity_wasm.Clarity.{TypeSignature, Value}
use clarity_wasm.Layout.{get_type_size, is_in_memory_type}
use clarity_wasm.Wasm.Memory.{LinearMemory}
use clarity_wasm.Host.Errors.{Error, runtime}
use clarity_wasm.Host.Library.{ClarityLibrary}
use clarity_wasm.Host.Access.{read_mem, read_indirect_offset_and_length}
use clarity_wasm.Host.Write.{Writer, write_repr, write_in_memory}
use clarity_wasm.Host.Read.{Reader, read_indirect}
use clarity_wasm.Host.RoundTrip.Stored.{
  Stored, Stored-Written, Stored-repr, write_mem-Written, read_mem-ok,
}
use clarity_wasm.Host.RoundTrip.Leaves.{write_repr-Written, read_repr}

module _ (W : LinearMemory) (L : ClarityLibrary) where
  -- Wherever there is room, the writer writes so many bytes at the offset and so many at the other,
  -- and the reader reads the value back.
  abbrev pub RoundTrips : Writer W → Reader W L → ℕ → Value → ℕ → Type 0
  RoundTrips w r z v n =
      (m : W.Memory) (off io : ℕ)
      → off + z ≤ io
      → io + n ≤ W.size m
      → W.size m < 2 ^ 31
      → (m' : W.Memory) × (w m off io v true ≡ ok (z, n, m'))
        × Stored W m m' off z io n (λ m''. r m'' off) v

  read_indirect-in_memory :
      (ty : TypeSignature) (direct : W.Memory → ℕ → ℕ → Result Error Value) {k : ℕ} (m : W.Memory)
      (off io len : ℕ) {v : Value}
      → get_type_size ty ≡ some k
      → is_in_memory_type ty ≡ some true
      → read_indirect_offset_and_length W m off ≡ ok (io, len)
      → direct m io len ≡ ok v
      → read_indirect W L ty direct m off ≡ ok v
  unfolding read_indirect
  read_indirect-in_memory ty direct m off io len size mem r d = rw (size, mem, r, d)

  -- Parts that are written, and then their representation.
  pub write_repr-Stored :
      (ty : TypeSignature) (direct : W.Memory → ℕ → ℕ → Result Error Value) {k n : ℕ}
      {m m₁ : W.Memory} (off io len rest : ℕ) (v : Value)
      → get_type_size ty ≡ some k
      → is_in_memory_type ty ≡ some true
      → Stored W m m₁ io len (io + len) rest (λ m''. direct m'' io len) v
      → n ≡ len + rest
      → off + 8 ≤ io
      → io + n ≤ W.size m
      → W.size m < 2 ^ 31
      → (m₂ : W.Memory) × (write_repr W m₁ off io len true ≡ ok (8, m₂))
        × Stored W m m₂ off 8 io n (λ m''. read_indirect W L ty direct m'' off) v
  write_repr-Stored ty direct {m} {m₁} off io len rest v size mem s e room fits small =
      let same = s.same_size in
      let (m₂, run, w) = write_repr-Written W m₁ off io len (omega arith) (omega arith) in
      let l8 : 8 ≡ length (to_le_bytes 4 io ++ to_le_bytes 4 len) = omega (
        arith,
        length-append (to_le_bytes 4 io) (to_le_bytes 4 len),
        length-to_le_bytes 4 io,
        length-to_le_bytes 4 len,
      ) in
      (
        m₂,
        run,
        Stored-repr W off io len rest _ _ v s w refl l8 e room (λ m'' r d.
            read_indirect-in_memory ty direct m'' off io len size mem
              (read_repr W m'' off io len r (omega arith) (omega arith) (omega arith)) d),
      )

  -- The bytes of a buffer or a string.
  pub write_in_memory-Stored :
      (ty : TypeSignature) (direct : W.Memory → ℕ → ℕ → Result Error Value) {k : ℕ} (bytes : List ℕ)
      (v : Value)
      → get_type_size ty ≡ some k
      → is_in_memory_type ty ≡ some true
      → ((m : W.Memory) (io : ℕ)
          → read_mem W runtime m io (length bytes) ≡ ok bytes
          → direct m io (length bytes) ≡ ok v)
      → (m : W.Memory) (off io : ℕ) → off + 8 ≤ io
      → io + length bytes ≤ W.size m
      → W.size m < 2 ^ 31
      → (m' : W.Memory) × (write_in_memory W m off io bytes true ≡ ok (8, length bytes, m'))
        × Stored W m m' off 8 io (length bytes) (λ m''. read_indirect W L ty direct m'' off) v
  unfolding write_in_memory
  write_in_memory-Stored ty direct bytes v size mem from m off io room fits small =
      let (m₁, e, w) = write_mem-Written W m io bytes fits (omega arith) in
      let s =
        Stored-Written W io (io + length bytes) bytes (λ m''. direct m'' io (length bytes)) v w
          (λ m'' r.
            from m'' io
              (read_mem-ok W runtime m'' io (length bytes) (omega arith) (omega arith) r)) in
      let (m₂, f, t) =
        write_repr-Stored ty direct off io (length bytes) 0 v size mem s (omega arith) room fits
          small in
      let l : length bytes % 2 ^ 32 ≡ length bytes = omega arith in (m₂, rw (e, l, f), t)
