-- ===== src/Generator/Literals/Values.antt =====
-- `add_literal` and `visit_literal_value` of clar2wasm/src/wasm_generator.rs: the bytes of a literal
-- value, and what its code pushes.
use clarity_wasm.Prelude.{
  ℕ, ◌+◌, ◌*◌, ◌/◌, ◌%◌, ◌<◌, ◌^◌, ◌≡◌, refl, List, [], ◌∷◌, ◌++◌, some, Result, ok, arith, length,
  to_le_bytes,
}
use clarity_wasm.Clarity.{
  Value, PrincipalData, StandardPrincipalData, QualifiedContractIdentifier, int, uint, buffer,
  ascii, utf8, principal,
}
use clarity_wasm.Layout.{i32, i64}
use clarity_wasm.Wasm.Memory.{LinearMemory}
use clarity_wasm.Wasm.Machine.{Instr, Val, Machine, exec, step, i32_const, i64_const}
use clarity_wasm.Generator.State.{GenState, Gen, ◌>>=◌, GeneratorError, DataSegment, utf8_entry}
use clarity_wasm.Generator.Scope.{bind_ok}
use clarity_wasm.Generator.Storing.{push_all}
use clarity_wasm.Generator.Literals.Text.{TextLibrary}
use clarity_wasm.Generator.Literals.Defs.{
  to_be_bytes, add_utf8_literal, flatten, add_literal, visit_literal_value, int_bytes,
  principal_literal, push_literal,
}
use clarity_wasm.Generator.Literals.Placed.{Holds, IsPlaced}
use clarity_wasm.Generator.Literals.Adding.{
  HasMemory, Adds, intern-Adds, add_segment-Adds, add_ascii_literal-Adds,
}

module _ (T : TextLibrary) where
  -- The bytes of a literal value in memory. A UTF-8 string holds one character in each element.
  pub data LiteralOf : Value → List ℕ → Type 0 where
    of_int : {n : ℕ} → n < 2 ^ 128 → LiteralOf (int n) (to_le_bytes 16 n)
    of_uint : {n : ℕ} → n < 2 ^ 128 → LiteralOf (uint n) (to_le_bytes 16 n)
    of_standard :
        {p : StandardPrincipalData}
        → LiteralOf (principal (PrincipalData.standard p)) (p.version ∷ (p.hash ++ 0 ∷ []))
    of_contract :
        {c : QualifiedContractIdentifier}
        → length c.name < 2 ^ 8
        → LiteralOf
            (principal (PrincipalData.contract c))
            (c.issuer.version ∷ (c.issuer.hash ++ length c.name ∷ c.name))
    of_buffer : {bs : List ℕ} → LiteralOf (buffer bs) bs
    of_ascii : {d : List ℕ} → LiteralOf (ascii d) d
    of_utf8 :
        {cs : List (List ℕ)} {text : List ℕ}
        → T.from_utf8 (flatten cs) ≡ some text
        → length (T.chars text) ≡ length cs
        → LiteralOf (utf8 cs) (to_be_bytes (T.chars text))

  int_bytes-eq-to_le_bytes : (n : ℕ) → int_bytes n ≡ to_le_bytes 16 n
  unfolding int_bytes to_le_bytes
  int_bytes-eq-to_le_bytes n = ground arith

  length-to_be_bytes : (cs : List ℕ) → length (to_be_bytes cs) ≡ 4 * length cs
  unfolding to_be_bytes
  length-to_be_bytes [] = refl
  length-to_be_bytes (c ∷ cs) = omega (arith, length-to_be_bytes cs)

  -- A literal value is in memory with its bytes.
  pub add_literal-Adds :
      {v : Value} {bytes : List ℕ} (s : GenState)
      → LiteralOf v bytes
      → HasMemory s
      → IsPlaced T s
      → s.literal_memory_end + length bytes < 2 ^ 32
      → Adds T s bytes (add_literal T v s)
  unfolding add_literal add_utf8_literal principal_literal
  add_literal-Adds s (of_int {n} b) h p r =
      rw (int_bytes-eq-to_le_bytes n) (add_segment-Adds T (to_le_bytes 16 n) s h p r)
  add_literal-Adds s (of_uint {n} b) h p r =
      rw (int_bytes-eq-to_le_bytes n) (add_segment-Adds T (to_le_bytes 16 n) s h p r)
  add_literal-Adds s (of_standard {p = d}) h p r = add_segment-Adds T _ s h p r
  add_literal-Adds s (of_contract {c} b) h p r =
      let e : length c.name % 2 ^ 8 ≡ length c.name = omega arith in
      rw e (add_segment-Adds T _ s h p r)
  add_literal-Adds s (of_buffer {bs}) h p r = add_segment-Adds T bs s h p r
  add_literal-Adds s (of_ascii {d}) h p r = add_ascii_literal-Adds T d s h p r
  add_literal-Adds s (of_utf8 {cs} {text} e l) h p r = rw e (
      intern-Adds T (utf8_entry text) (length cs % 2 ^ 32 * 4 % 2 ^ 32) (to_be_bytes (T.chars text))
        s h p r (omega (arith, length-to_be_bytes (T.chars text))) (λ o x. x) (λ o ds x. x))

  -- The Wasm values, from the bottom of the stack up, of a literal value: the two words of an
  -- integer, or the place and the length of its bytes.
  pub data Denotes (ds : List DataSegment) : Value → List Val → Type 0 where
    int_words :
        {n lo hi : ℕ}
        → lo < 2 ^ 64
        → hi < 2 ^ 64
        → lo + 2 ^ 64 * hi ≡ n
        → Denotes ds (int n) ((i64, lo) ∷ (i64, hi) ∷ [])
    uint_words :
        {n lo hi : ℕ}
        → lo < 2 ^ 64
        → hi < 2 ^ 64
        → lo + 2 ^ 64 * hi ≡ n
        → Denotes ds (uint n) ((i64, lo) ∷ (i64, hi) ∷ [])
    in_memory :
        {v : Value} {offset : ℕ} {bytes : List ℕ}
        → LiteralOf v bytes
        → Holds offset bytes ds
        → Denotes ds v ((i32, offset) ∷ (i32, length bytes) ∷ [])

  -- The method succeeds, and its code pushes what denotes the value and changes nothing else.
  pub record Pushes (W : LinearMemory) (s : GenState) (v : Value)
      (r : Result GeneratorError (Unit {0} × List Instr × GenState)) : Type 1 where
    pub code : List Instr
    pub after : GenState
    pub words : List Val
    pub run : r ≡ ok (tt, code, after)
    pub denotes : Denotes after.segments v words
    pub placed : IsPlaced T after
    pub effect :
        (m : Machine W) → exec W code m ≡ some (record m { stack = push_all words m.stack })
    pub kept : (o : ℕ) (bs : List ℕ) → Holds o bs s.segments → Holds o bs after.segments

  module _ (W : LinearMemory) where
    push_literal-Pushes :
        {v : Value} {bytes : List ℕ} (m : Gen (ℕ × ℕ)) (s : GenState)
        → LiteralOf v bytes
        → Adds T s bytes (m s)
        → Pushes W s v ((m >>= push_literal) s)
    unfolding push_literal exec step
    push_literal-Pushes {v} {bytes} m s l a = record {
      code = i32_const a.offset ∷ i32_const (length bytes) ∷ [];
      after = a.after;
      words = (i32, a.offset) ∷ (i32, length bytes) ∷ [];
      run = bind_ok m push_literal a.run refl;
      denotes = in_memory l a.holds;
      placed = a.placed;
      effect = λ m'. refl;
      kept = a.kept;
    }

    int_words-Pushes :
        (n : ℕ) (v : Value) (s : GenState)
        → IsPlaced T s
        → ((ds : List DataSegment)
            → Denotes ds v ((i64, n % 2 ^ 64) ∷ (i64, n / 2 ^ 64 % 2 ^ 64) ∷ []))
        → Pushes W s v (ok (tt, i64_const (n % 2 ^ 64) ∷ i64_const (n / 2 ^ 64 % 2 ^ 64) ∷ [], s))
    unfolding exec step
    int_words-Pushes n v s p d = record {
      code = i64_const (n % 2 ^ 64) ∷ i64_const (n / 2 ^ 64 % 2 ^ 64) ∷ [];
      after = s;
      words = (i64, n % 2 ^ 64) ∷ (i64, n / 2 ^ 64 % 2 ^ 64) ∷ [];
      run = refl;
      denotes = d s.segments;
      placed = p;
      effect = λ m'. refl;
      kept = λ o bs x. x;
    }

    -- With a memory in the module, a well-placed literal memory and room for the bytes,
    -- `visit_literal_value` of a literal value succeeds; the code pushes the words of an integer, or
    -- an offset at which the bytes stand and their length; the literal memory stays well placed, and
    -- what it held it still holds.
    pub visit_literal_value-Pushes :
        {v : Value} {bytes : List ℕ} (s : GenState)
        → LiteralOf v bytes
        → HasMemory s
        → IsPlaced T s
        → s.literal_memory_end + length bytes < 2 ^ 32
        → Pushes W s v (visit_literal_value T v s)
    unfolding visit_literal_value
    visit_literal_value-Pushes s (of_int {n} b) h p r =
        int_words-Pushes n (int n) s p (λ ds. int_words (omega arith) (omega arith) (omega arith))
    visit_literal_value-Pushes s (of_uint {n} b) h p r =
        int_words-Pushes n (uint n) s p (λ ds. uint_words (omega arith) (omega arith) (omega arith))
    visit_literal_value-Pushes s (of_standard {p = d}) h p r =
        push_literal-Pushes (add_literal T (principal (PrincipalData.standard d))) s of_standard
          (add_literal-Adds s of_standard h p r)
    visit_literal_value-Pushes s (of_contract {c} b) h p r =
        push_literal-Pushes (add_literal T (principal (PrincipalData.contract c))) s (of_contract b)
          (add_literal-Adds s (of_contract b) h p r)
    visit_literal_value-Pushes s (of_buffer {bs}) h p r =
        push_literal-Pushes (add_literal T (buffer bs)) s of_buffer
          (add_literal-Adds s of_buffer h p r)
    visit_literal_value-Pushes s (of_ascii {d}) h p r =
        push_literal-Pushes (add_literal T (ascii d)) s of_ascii (add_literal-Adds s of_ascii h p r)
    visit_literal_value-Pushes s (of_utf8 {cs} {text} e l) h p r =
        push_literal-Pushes (add_literal T (utf8 cs)) s (of_utf8 e l)
          (add_literal-Adds s (of_utf8 e l) h p r)
