-- ===== src/Generator/Literals/Lookup.antt =====
-- `get_string_literal` of clar2wasm/src/wasm_generator.rs after `add_string_literal`.
use clarity_wasm.Prelude.{ℕ, add32, ◌≡◌, true, List, [], ◌∷◌, some, ok, inl, inr, Option-cases}
use clarity_wasm.Generator.State.{GenState, LiteralMemoryEntry, ascii_entry, get_memory}
use clarity_wasm.Generator.Literals.Defs.{
  find_literal, entry_eq, add_segment, save_literal, intern, add_string_literal, get_string_literal,
  is_ascii, len_u32,
}
use clarity_wasm.Generator.Literals.Placed.{bytes_eq_refl}
use clarity_wasm.Generator.Literals.Adding.{HasMemory}

find_literal-cons :
    (name : List ℕ) (o : ℕ) (table : List (LiteralMemoryEntry × ℕ))
    → find_literal (ascii_entry name) ((ascii_entry name, o) ∷ table) ≡ some o
unfolding find_literal entry_eq
find_literal-cons name o table = rw (bytes_eq_refl name)

-- In a module with a memory, `add_string_literal` of an ASCII name succeeds, whether or not the
-- name is there already, and from then on `get_string_literal` gives the offset and the length that
-- it returned.
pub get_string_literal-add_string_literal :
    (name : List ℕ) (s : GenState)
    → HasMemory s
    → is_ascii name ≡ true
    → (r : ℕ × ℕ) × (s' : GenState) × (add_string_literal name s ≡ ok (r, [], s'))
      × (get_string_literal name s' ≡ some r)
unfolding add_string_literal intern get_string_literal save_literal add_segment get_memory
get_string_literal-add_string_literal name s (m, ms, h) a =
    elim (Option-cases (find_literal (ascii_entry name) s.literal_memory_offset)) [
      | inr (o, e) ↦ ((o, len_u32 name), s, rw (e, intern), rw (a, e))
      | inl e ↦ (
        (s.literal_memory_end, len_u32 name),
        record s {
          segments =
              record { memory = m; location = s.literal_memory_end; value = name } ∷ s.segments;
          literal_memory_end = add32 s.literal_memory_end (len_u32 name);
          literal_memory_offset =
              (ascii_entry name, s.literal_memory_end) ∷ s.literal_memory_offset;
        },
        rw (e, intern, h),
        rw (a, find_literal-cons name s.literal_memory_end s.literal_memory_offset),
      )
    ]
