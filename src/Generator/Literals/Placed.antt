-- ===== src/Generator/Literals/Placed.antt =====
-- The literal memory of clar2wasm/src/wasm_generator.rs: where segments stand, and what an interned
-- literal stands for.
use clarity_wasm.Prelude.{
  ℕ, ◌+◌, ◌≤◌, ◌<◌, ◌^◌, ◌≡◌, ◌≢◌, ◌⊎◌, inl, inr, refl, ap, subst, true, List, [], ◌∷◌, some, arith,
  length, Bool-cases,
}
use clarity_wasm.Generator.State.{
  GenState, LiteralMemoryEntry, DataSegment, ascii_entry, utf8_entry, bytes_entry,
}
use clarity_wasm.Generator.Literals.Text.{TextLibrary}
use clarity_wasm.Generator.Literals.Defs.{
  end_of_standard_data, bytes_eq, entry_eq, find_literal, to_be_bytes,
}

-- Segments, the last one first, that end at the offset or before it, each where the next begins or
-- before it, and that leave the standard library's data alone.
abbrev pub Stacked : List DataSegment → ℕ → Type 0
Stacked [] e = end_of_standard_data ≤ e
Stacked (d ∷ ds) e = (d.location + length d.value ≤ e) × Stacked ds d.location

-- A segment with these bytes stands at the offset.
pub data Holds (offset : ℕ) (bytes : List ℕ) : List DataSegment → Type 0 where
  here :
      {d : DataSegment} {ds : List DataSegment}
      → d.location ≡ offset
      → d.value ≡ bytes
      → Holds offset bytes (d ∷ ds)
  there :
      {d : DataSegment} {ds : List DataSegment}
      → Holds offset bytes ds
      → Holds offset bytes (d ∷ ds)

-- A text that is no quoted string.
abbrev pub Unquoted : List ℕ → Type 0
Unquoted [] = Unit
Unquoted (c ∷ cs) = c ≢ 34

pub bytes_eq_sound : (as' bs : List ℕ) → bytes_eq as' bs ≡ true → as' ≡ bs
unfolding bytes_eq
bytes_eq_sound [] [] h = refl
bytes_eq_sound [] (b ∷ bs) h = absurd (cc)
bytes_eq_sound (a ∷ as') [] h = absurd (cc)
bytes_eq_sound (a ∷ as') (b ∷ bs) h = ground (arith, bytes_eq_sound as' bs)

pub bytes_eq_refl : (bs : List ℕ) → bytes_eq bs bs ≡ true
unfolding bytes_eq
bytes_eq_refl [] = refl
bytes_eq_refl (b ∷ bs) = ground (arith, bytes_eq_refl bs)

entry_eq_sound : (a b : LiteralMemoryEntry) → entry_eq a b ≡ true → a ≡ b
unfolding entry_eq
entry_eq_sound (ascii_entry a) (ascii_entry b) h = ap ascii_entry (bytes_eq_sound a b h)
entry_eq_sound (ascii_entry a) (utf8_entry b) h = absurd (cc)
entry_eq_sound (ascii_entry a) (bytes_entry b) h = absurd (cc)
entry_eq_sound (utf8_entry a) (ascii_entry b) h = absurd (cc)
entry_eq_sound (utf8_entry a) (utf8_entry b) h = ap utf8_entry (bytes_eq_sound a b h)
entry_eq_sound (utf8_entry a) (bytes_entry b) h = absurd (cc)
entry_eq_sound (bytes_entry a) (ascii_entry b) h = absurd (cc)
entry_eq_sound (bytes_entry a) (utf8_entry b) h = absurd (cc)
entry_eq_sound (bytes_entry a) (bytes_entry b) h = ap bytes_entry (bytes_eq_sound a b h)

module _ (T : TextLibrary) where
  -- The bytes that an entry stands for are at the offset. An ASCII entry is a name, or a string
  -- with its quotes.
  abbrev pub Stands : List DataSegment → LiteralMemoryEntry → ℕ → Type 0
  Stands ds (ascii_entry k) o =
      (d : List ℕ) × ((k ≡ T.ascii_to_string d) ⊎ (Unquoted k × (k ≡ d))) × Holds o d ds
  Stands ds (utf8_entry k) o = Holds o (to_be_bytes (T.chars k)) ds
  Stands ds (bytes_entry k) o = Holds o k ds

  abbrev pub AllStand : List DataSegment → List (LiteralMemoryEntry × ℕ) → Type 0
  AllStand ds [] = Unit
  AllStand ds ((k, o) ∷ table) = Stands ds k o × AllStand ds table

  -- The literal memory fits in 32 bits, its segments are apart, and each entry stands for bytes in it.
  pub record IsPlaced (s : GenState) : Type 0 where
    pub stacked : Stacked s.segments s.literal_memory_end
    pub bounded : s.literal_memory_end < 2 ^ 32
    pub interned : AllStand s.segments s.literal_memory_offset

  pub Stands-cons :
      (d : DataSegment) (ds : List DataSegment) (k : LiteralMemoryEntry) (o : ℕ)
      → Stands ds k o
      → Stands (d ∷ ds) k o
  Stands-cons d ds (ascii_entry k) o (bs, e, h) = (bs, e, there h)
  Stands-cons d ds (utf8_entry k) o h = there h
  Stands-cons d ds (bytes_entry k) o h = there h

  pub AllStand-cons :
      (d : DataSegment) (ds : List DataSegment) (table : List (LiteralMemoryEntry × ℕ))
      → AllStand ds table
      → AllStand (d ∷ ds) table
  AllStand-cons d ds [] h = tt
  AllStand-cons d ds ((k, o) ∷ table) (h, g) = (Stands-cons d ds k o h, AllStand-cons d ds table g)

  pub find_literal-Stands :
      (ds : List DataSegment) (table : List (LiteralMemoryEntry × ℕ)) (k : LiteralMemoryEntry)
      {o' : ℕ}
      → AllStand ds table
      → find_literal k table ≡ some o'
      → Stands ds k o'
  unfolding find_literal
  find_literal-Stands ds [] k h e = absurd (cc)
  find_literal-Stands ds ((e, o) ∷ table) k {o'} (a, b) h = elim (Bool-cases (entry_eq e k)) [
    | inl same ↦
        let eo : o ≡ o' = ground arith in
        subst (λ x. Stands ds k x) eo (subst (λ x. Stands ds x o) (entry_eq_sound e k same) a)
    | inr other ↦ find_literal-Stands ds table k b (ground arith)
  ]
