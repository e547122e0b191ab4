-- ===== src/Generator/Literals/Fresh.antt =====
-- `add_bytes_literal` of clar2wasm/src/wasm_generator.rs, by whether the bytes are there already.
use clarity_wasm.Prelude.{
  ℕ, ◌+◌, ◌<◌, ◌^◌, ◌≡◌, ◌≢◌, List, [], ◌∷◌, none, some, ok, inl, inr, Bool-cases, arith, length,
}
use clarity_wasm.Generator.State.{GenState, LiteralMemoryEntry, bytes_entry}
use clarity_wasm.Generator.Literals.Text.{TextLibrary}
use clarity_wasm.Generator.Literals.Defs.{
  find_literal, entry_eq, bytes_eq, add_bytes_literal, intern, len_u32,
}
use clarity_wasm.Generator.Literals.Placed.{bytes_eq_sound, bytes_eq_refl}
use clarity_wasm.Generator.Literals.Adding.{HasMemory, Adds, intern-new}

module _ (T : TextLibrary) where
  -- Bytes that are there already are at their old offset, and nothing changes.
  pub Adds-known :
      (bytes : List ℕ) (s : GenState) {o : ℕ}
      → find_literal (bytes_entry bytes) s.literal_memory_offset ≡ some o
      → (a : Adds T s bytes (add_bytes_literal bytes s)) → (a.offset ≡ o) × (a.after ≡ s)
  unfolding add_bytes_literal
  Adds-known bytes s {o} e a =
      let run : intern (bytes_entry bytes) (len_u32 bytes) bytes s
          ≡ ok ((o, len_u32 bytes), [], s) =
        rw (e, intern) in
      (ground (arith, run, a.run), ground (arith, run, a.run))

  -- Other bytes are put at the end, under an entry of their own.
  pub Adds-new :
      (bytes : List ℕ) (s : GenState)
      → find_literal (bytes_entry bytes) s.literal_memory_offset ≡ none
      → HasMemory s
      → s.literal_memory_end + length bytes < 2 ^ 32
      → (a : Adds T s bytes (add_bytes_literal bytes s))
      → (a.offset ≡ s.literal_memory_end)
        × (a.after.literal_memory_end ≡ s.literal_memory_end + length bytes)
        × (a.after.literal_memory_offset
            ≡ (bytes_entry bytes, s.literal_memory_end) ∷ s.literal_memory_offset)
  unfolding add_bytes_literal
  Adds-new bytes s e h b a =
      let run = intern-new T (bytes_entry bytes) (len_u32 bytes) bytes s h b e in
      (ground (arith, run, a.run), ground (arith, run, a.run), ground (arith, run, a.run))

pub find_literal-same :
    (bytes : List ℕ) (o : ℕ) (table : List (LiteralMemoryEntry × ℕ))
    → find_literal (bytes_entry bytes) ((bytes_entry bytes, o) ∷ table) ≡ some o
unfolding find_literal entry_eq
find_literal-same bytes o table = rw (bytes_eq_refl bytes)

pub find_literal-other :
    (bytes others : List ℕ) (o : ℕ) (table : List (LiteralMemoryEntry × ℕ))
    → others ≢ bytes
    → find_literal (bytes_entry bytes) ((bytes_entry others, o) ∷ table)
      ≡ find_literal (bytes_entry bytes) table
unfolding find_literal entry_eq
find_literal-other bytes others o table h = elim (Bool-cases (bytes_eq others bytes)) [
  | inl e ↦ absurd (h (bytes_eq_sound others bytes e))
  | inr e ↦ rw e
]
