-- ===== src/Generator/Literals/Adding.antt =====
-- What adding a literal does to the literal memory of clar2wasm/src/wasm_generator.rs.
use clarity_wasm.Prelude.{
  ℕ, ◌+◌, ◌%◌, ◌≤◌, ◌<◌, ◌^◌, ◌≡◌, inl, inr, refl, sym, subst, List, [], ◌∷◌, none, Result, ok,
  arith, length, Option-cases, add32,
}
use clarity_wasm.Wasm.Machine.{Instr}
use clarity_wasm.Generator.State.{
  GenState, GeneratorError, LiteralMemoryEntry, DataSegment, ascii_entry, bytes_entry, get_memory,
}
use clarity_wasm.Generator.Scope.{bind_ok}
use clarity_wasm.Generator.Literals.Text.{TextLibrary}
use clarity_wasm.Generator.Literals.Defs.{
  find_literal, len_u32, add_segment, save_literal, intern, add_string_literal, add_bytes_literal,
  add_ascii_literal,
}
use clarity_wasm.Generator.Literals.Placed.{
  Holds, here, there, Unquoted, Stands, IsPlaced, AllStand-cons, find_literal-Stands,
}

-- The module has a memory.
abbrev pub HasMemory : GenState → Type 0
HasMemory s = (m : ℕ) × (ms : List ℕ) × (s.memories ≡ m ∷ ms)

module _ (T : TextLibrary) where
  -- The method returns an offset and the length of the bytes, and leaves a literal memory in which
  -- the bytes are at the offset and what stood there before still stands.
  pub record Adds (s : GenState) (bytes : List ℕ)
      (r : Result GeneratorError ((ℕ × ℕ) × List Instr × GenState)) : Type 0 where
    pub offset : ℕ
    pub after : GenState
    pub run : r ≡ ok ((offset, length bytes), [], after)
    pub placed : IsPlaced T after
    pub holds : Holds offset bytes after.segments
    pub kept : (o : ℕ) (bs : List ℕ) → Holds o bs s.segments → Holds o bs after.segments
    pub memories : after.memories ≡ s.memories
    pub globals : after.globals ≡ s.globals
    pub functions : after.functions ≡ s.functions
    pub grows : after.literal_memory_end ≤ s.literal_memory_end + length bytes

  -- The state after a new segment.
  abbrev with_segment : ℕ → List ℕ → GenState → GenState
  with_segment m bytes s = record s {
    segments = record { memory = m; location = s.literal_memory_end; value = bytes } ∷ s.segments;
    literal_memory_end = s.literal_memory_end + length bytes;
  }

  add_segment-run :
      (bytes : List ℕ) (s : GenState) (h : HasMemory s)
      → s.literal_memory_end + length bytes < 2 ^ 32
      → add_segment bytes s
        ≡ ok ((s.literal_memory_end, length bytes), [], with_segment h.0 bytes s)
  unfolding add_segment get_memory add32
  add_segment-run bytes s h b =
      let l : length bytes % 2 ^ 32 ≡ length bytes = omega arith in
      let e : (s.literal_memory_end + length bytes) % 2 ^ 32 ≡ s.literal_memory_end + length bytes =
        omega arith in
      rw (h.2, l, e)

  with_segment-IsPlaced :
      (m : ℕ) (bytes : List ℕ) (s : GenState)
      → s.literal_memory_end + length bytes < 2 ^ 32
      → IsPlaced T s
      → IsPlaced T (with_segment m bytes s)
  with_segment-IsPlaced m bytes s b p = record {
    stacked = (omega arith, p.stacked);
    bounded = b;
    interned = AllStand-cons T _ s.segments s.literal_memory_offset p.interned;
  }

  pub add_segment-Adds :
      (bytes : List ℕ) (s : GenState)
      → HasMemory s
      → IsPlaced T s
      → s.literal_memory_end + length bytes < 2 ^ 32
      → Adds s bytes (add_segment bytes s)
  add_segment-Adds bytes s h p b = record {
    offset = s.literal_memory_end;
    after = with_segment h.0 bytes s;
    run = add_segment-run bytes s h b;
    placed = with_segment-IsPlaced h.0 bytes s b p;
    holds = here refl refl;
    kept = λ o bs x. there x;
    memories = refl;
    globals = refl;
    functions = refl;
    grows = omega arith;
  }

  -- The state after a new literal.
  abbrev with_literal : LiteralMemoryEntry → ℕ → List ℕ → GenState → GenState
  with_literal entry m bytes s = record (with_segment m bytes s) {
    literal_memory_offset = (entry, s.literal_memory_end) ∷ s.literal_memory_offset;
  }

  pub intern-new :
      (entry : LiteralMemoryEntry) (len : ℕ) (bytes : List ℕ) (s : GenState) (h : HasMemory s)
      → s.literal_memory_end + length bytes < 2 ^ 32
      → find_literal entry s.literal_memory_offset ≡ none
      → intern entry len bytes s
        ≡ ok ((s.literal_memory_end, length bytes), [], with_literal entry h.0 bytes s)
  unfolding intern save_literal
  intern-new entry len bytes s h b e =
      rw (e, intern)
        (bind_ok (add_segment bytes) (λ r. save_literal entry r) (add_segment-run bytes s h b) refl)

  -- Interning: the bytes that the entry stands for, whether or not it was there.
  pub intern-Adds :
      (entry : LiteralMemoryEntry) (len : ℕ) (bytes : List ℕ) (s : GenState)
      → HasMemory s
      → IsPlaced T s
      → s.literal_memory_end + length bytes < 2 ^ 32
      → len ≡ length bytes
      → ((o : ℕ) → Stands T s.segments entry o → Holds o bytes s.segments)
      → ((o : ℕ) (ds : List DataSegment) → Holds o bytes ds → Stands T ds entry o)
      → Adds s bytes (intern entry len bytes s)
  unfolding intern save_literal
  intern-Adds entry len bytes s h p b l found stand =
      elim (Option-cases (find_literal entry s.literal_memory_offset)) [
        | inr (o, e) ↦ record {
          offset = o;
          after = s;
          run = rw (e, intern, l) refl;
          placed = p;
          holds =
              found o (find_literal-Stands T s.segments s.literal_memory_offset entry p.interned e);
          kept = λ q bs x. x;
          memories = refl;
          globals = refl;
          functions = refl;
          grows = omega arith;
        }
        | inl e ↦
            (let q = with_segment-IsPlaced h.0 bytes s b p in
              record {
                offset = s.literal_memory_end;
                after = with_literal entry h.0 bytes s;
                run = intern-new entry len bytes s h b e;
                placed = record {
                  stacked = q.stacked;
                  bounded = q.bounded;
                  interned = (stand s.literal_memory_end _ (here refl refl), q.interned);
                };
                holds = here refl refl;
                kept = λ o bs x. there x;
                memories = refl;
                globals = refl;
                functions = refl;
                grows = omega arith;
              })
      ]

  -- The literals of the methods.
  pub add_bytes_literal-Adds :
      (bytes : List ℕ) (s : GenState)
      → HasMemory s
      → IsPlaced T s
      → s.literal_memory_end + length bytes < 2 ^ 32
      → Adds s bytes (add_bytes_literal bytes s)
  unfolding add_bytes_literal
  add_bytes_literal-Adds bytes s h p b =
      intern-Adds (bytes_entry bytes) (len_u32 bytes) bytes s h p b (omega arith) (λ o x. x)
        (λ o ds x. x)

  Unquoted-quoted : (d name : List ℕ) → Unquoted name → name ≡ T.ascii_to_string d → ⊥
  Unquoted-quoted d [] u e = let q = T.ascii_to_string_quoted d in absurd (cc)
  Unquoted-quoted d (c ∷ cs) u e = let q = T.ascii_to_string_quoted d in u (ground (arith, q.1))

  name_found :
      (name : List ℕ) (ds : List DataSegment) (o : ℕ)
      → Unquoted name
      → Stands T ds (ascii_entry name) o
      → Holds o name ds
  name_found name ds o u (d, inl e, x) = absurd (Unquoted-quoted d name u e)
  name_found name ds o u (d, inr (v, e), x) = subst (λ k. Holds o k ds) (sym e) x

  pub add_string_literal-Adds :
      (name : List ℕ) (s : GenState)
      → Unquoted name
      → HasMemory s
      → IsPlaced T s
      → s.literal_memory_end + length name < 2 ^ 32
      → Adds s name (add_string_literal name s)
  unfolding add_string_literal
  add_string_literal-Adds name s u h p b =
      intern-Adds (ascii_entry name) (len_u32 name) name s h p b (omega arith)
        (λ o x. name_found name s.segments o u x) (λ o ds x. (name, inr (u, refl), x))

  ascii_found :
      (d : List ℕ) (ds : List DataSegment) (o : ℕ)
      → Stands T ds (ascii_entry (T.ascii_to_string d)) o
      → Holds o d ds
  ascii_found d ds o (e, inl q, x) =
      subst (λ k. Holds o k ds) (sym (T.ascii_to_string_injective q)) x
  ascii_found d ds o (e, inr (u, q), x) = absurd (Unquoted-quoted d _ u refl)

  pub add_ascii_literal-Adds :
      (d : List ℕ) (s : GenState)
      → HasMemory s
      → IsPlaced T s
      → s.literal_memory_end + length d < 2 ^ 32
      → Adds s d (add_ascii_literal T d s)
  unfolding add_ascii_literal
  add_ascii_literal-Adds d s h p b =
      intern-Adds (ascii_entry (T.ascii_to_string d)) (len_u32 d) d s h p b (omega arith)
        (λ o x. ascii_found d s.segments o x) (λ o ds x. (d, inl refl, x))
