-- ===== src/Layout/Stack.antt =====
-- Types that need no memory: `has_in_memory_type` against `count_in_memory_space`, both of
-- clar2wasm/src/wasm_generator.rs.
use clarity_wasm.Prelude.{
  ℕ, ◌≡◌, refl, Bool, true, false, Option, none, some, arith, add32, add32-zero, if◌then◌else◌,
}
use clarity_wasm.Clarity.{
  TypeSignature, TypeMap, no_type, int_type, uint_type, bool_type, optional_type, response_type,
  tuple_type, field,
}
use clarity_wasm.Layout.Defs.{
  ◌>>=◌, has_in_memory_type, has_in_memory_type_fields, count_in_memory_space,
  count_in_memory_space_fields, get_type_size, get_type_size_fields, get_type_in_memory_size,
  get_type_in_memory_size_fields,
}

-- Two tests in turn that find nothing.
both_false :
    (a b : Option Bool)
    → (do x ← a; if x then some true else b) ≡ some false
    → (a ≡ some false) × (b ≡ some false)
both_false none b h = ground arith
both_false (some true) b h = ground arith
both_false (some false) b h = (refl, h)

zero_zero : add32 0 0 ≡ 0
zero_zero = add32-zero 0 (omega arith)

mutual
  unfolding has_in_memory_type count_in_memory_space

  space_lem :
      (t : TypeSignature) → has_in_memory_type t ≡ some false → count_in_memory_space t ≡ some 0
  space_lem no_type h = refl
  space_lem int_type h = refl
  space_lem uint_type h = refl
  space_lem bool_type h = refl
  space_lem (optional_type t) h = space_lem t h
  space_lem (response_type t u) h =
      let (p, q) = both_false (has_in_memory_type t) (has_in_memory_type u) h in
      rw (space_lem t p, space_lem u q, zero_zero)
  space_lem (tuple_type m) h = space_fields_lem m h
  space_lem _ h = ground arith

  space_fields_lem :
      (m : TypeMap)
      → has_in_memory_type_fields m ≡ some false
      → count_in_memory_space_fields 0 m ≡ some 0
  space_fields_lem TypeMap.end h = refl
  space_fields_lem (field k t m) h =
      let (p, q) = both_false (has_in_memory_type t) (has_in_memory_type_fields m) h in
      rw (space_lem t p, zero_zero) (space_fields_lem m q)

mutual
  unfolding has_in_memory_type get_type_in_memory_size get_type_size

  plain_lem :
      (t : TypeSignature) (r : Bool)
      → has_in_memory_type t ≡ some false
      → get_type_in_memory_size t r ≡ get_type_size t
  plain_lem no_type r h = refl
  plain_lem int_type r h = refl
  plain_lem uint_type r h = refl
  plain_lem bool_type r h = refl
  plain_lem (optional_type t) r h = rw (plain_lem t r h)
  plain_lem (response_type t u) r h =
      let (p, q) = both_false (has_in_memory_type t) (has_in_memory_type u) h in
      rw (plain_lem t r p, plain_lem u r q)
  plain_lem (tuple_type m) r h = plain_fields_lem 0 m r h
  plain_lem _ r h = ground arith

  plain_fields_lem :
      (s : ℕ) (m : TypeMap) (r : Bool)
      → has_in_memory_type_fields m ≡ some false
      → get_type_in_memory_size_fields s m r ≡ get_type_size_fields s m
  plain_fields_lem s TypeMap.end r h = refl
  plain_fields_lem s (field k t m) r h =
      let (p, q) = both_false (has_in_memory_type t) (has_in_memory_type_fields m) h in
      rw (plain_lem t r p) (bind_congr (get_type_size t) (λ n. plain_fields_lem (add32 s n) m r q))
    where
      bind_congr :
          (o : Option ℕ) {f g : ℕ → Option ℕ} → ((n : ℕ) → f n ≡ g n) → (o >>= f) ≡ (o >>= g)
      bind_congr none h = refl
      bind_congr (some n) h = h n

-- A type in which `has_in_memory_type` finds no in-memory type needs no space in memory beside its
-- representation, and its two in-memory sizes are both the size of its representation.
pub has_in_memory_type-false :
    (t : TypeSignature) (r : Bool)
    → has_in_memory_type t ≡ some false
    → (count_in_memory_space t ≡ some 0) × (get_type_in_memory_size t r ≡ get_type_size t)
has_in_memory_type-false t r h = (space_lem t h, plain_lem t r h)
