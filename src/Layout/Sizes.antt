-- ===== src/Layout/Sizes.antt =====
-- How the sizes of clar2wasm/src/wasm_utils.rs and clar2wasm/src/wasm_generator.rs agree.
use clarity_wasm.Prelude.{
  ℕ, ◌+◌, ◌%◌, ◌^◌, ◌<◌, ◌≡◌, refl, true, List, [], ◌∷◌, ◌++◌, Option, none, some, arith, add32,
  mul32, add32_comm, add32-zero, subst, add32_assoc, mul32_comm, ap, sym,
}
use clarity_wasm.Clarity.{
  TypeSignature, TypeMap, no_type, int_type, uint_type, bool_type, buffer_type, ascii_type,
  utf8_type, list_type, optional_type, response_type, tuple_type, list_union_type, field,
  IsValueType, AreValueTypes,
}
use clarity_wasm.Layout.Defs.{
  ValType, i32, i64, ◌>>=◌, clar2wasm_ty, clar2wasm_ty_fields, get_type_size, get_type_size_fields,
  get_type_in_memory_size, get_type_in_memory_size_fields, count_in_memory_space,
  count_in_memory_space_fields,
}

-- The bytes of Wasm values.
abbrev pub byte_width : List ValType → ℕ
byte_width [] = 0
byte_width (i32 ∷ ts) = 4 + byte_width ts
byte_width (i64 ∷ ts) = 8 + byte_width ts

pub byte_width-append :
    (ts us : List ValType) → byte_width (ts ++ us) ≡ byte_width ts + byte_width us
byte_width-append [] us = omega arith
byte_width-append (i32 ∷ ts) us = omega (arith, byte_width-append ts us)
byte_width-append (i64 ∷ ts) us = omega (arith, byte_width-append ts us)

mutual
  unfolding get_type_size clar2wasm_ty add32

  get_type_size_lem :
      (t : TypeSignature)
      → IsValueType t
      → get_type_size t ≡ some (byte_width (clar2wasm_ty t) % 2 ^ 32)
  get_type_size_lem int_type v = refl
  get_type_size_lem (optional_type t) v = rw (get_type_size_lem t v) (ground arith)
  get_type_size_lem (response_type t u) v =
      rw (get_type_size_lem t v.0, get_type_size_lem u v.1)
        (ground (arith, byte_width-append (clar2wasm_ty t) (clar2wasm_ty u)))
  get_type_size_lem (tuple_type m) v =
      rw (get_type_size_fields_lem 0 m (omega arith) v) (ground arith)
  get_type_size_lem list_union_type v = elim v [ ]
  get_type_size_lem _ v = refl

  get_type_size_fields_lem :
      (s : ℕ) (m : TypeMap)
      → s < 2 ^ 32
      → AreValueTypes m
      → get_type_size_fields s m ≡ some ((s + byte_width (clar2wasm_ty_fields m)) % 2 ^ 32)
  get_type_size_fields_lem s TypeMap.end h v = ground arith
  get_type_size_fields_lem s (field k t m) h v = rw (get_type_size_lem t v.0) (
      ground (
        arith,
        get_type_size_fields_lem ((s + byte_width (clar2wasm_ty t) % 2 ^ 32) % 2 ^ 32) m
            (omega arith) v.1,
        byte_width-append (clar2wasm_ty t) (clar2wasm_ty_fields m),
      ))

-- The size of a value type is the number of bytes of the Wasm values that stand for it.
pub get_type_size-eq-byte_width :
    (t : TypeSignature)
    → IsValueType t
    → get_type_size t ≡ some (byte_width (clar2wasm_ty t) % 2 ^ 32)
get_type_size-eq-byte_width t v = get_type_size_lem t v

module _ (a b c d : ℕ) where
  regroup_response :
      add32 (add32 4 (add32 a b)) (add32 c d) ≡ add32 (add32 (add32 4 a) c) (add32 b d)
  unfolding add32
  regroup_response = omega arith

  regroup_field : add32 (add32 a b) (add32 c d) ≡ add32 (add32 a c) (add32 b d)
  unfolding add32
  regroup_field = omega arith

-- Two parts in turn, each the sum of a representation and a space, are the sum of the
-- representations and that of the spaces.
module _ (f : ℕ → ℕ → ℕ) (g : ℕ → ℕ → ℕ) where
  regroup_bind :
      ((a b c d : ℕ) → f (add32 a b) (add32 c d) ≡ add32 (f a c) (g b d))
      → (a b c d : Option ℕ)
      → (do
        x ← (do n ← a; k ← b; some (add32 n k))
        y ← (do n ← c; k ← d; some (add32 n k))
        some (f x y))
        ≡ (do
          n ← (do p ← a; q ← c; some (f p q))
          k ← (do p ← b; q ← d; some (g p q))
          some (add32 n k))
  regroup_bind e none b c d = refl
  regroup_bind e (some a) none none d = refl
  regroup_bind e (some a) none (some c) d = refl
  regroup_bind e (some a) (some b) none d = refl
  regroup_bind e (some a) (some b) (some c) none = refl
  regroup_bind e (some a) (some b) (some c) (some d) = ap some (e a b c d)

optional_bind :
    (a b : Option ℕ)
    → (do x ← (do n ← a; k ← b; some (add32 n k)); some (add32 4 x))
      ≡ (do n ← (do p ← a; some (add32 4 p)); k ← b; some (add32 n k))
optional_bind none b = refl
optional_bind (some a) none = refl
optional_bind (some a) (some b) = ap some (sym (add32_assoc 4 a b))

-- A field in front: `rest` is the loop over the other fields.
field_bind :
    (s k : ℕ) (a b : Option ℕ) (whole sizes spaces : ℕ → Option ℕ)
    → ((n m : ℕ)
        → whole (add32 (add32 s n) (add32 k m))
          ≡ (do x ← sizes (add32 s n); y ← spaces (add32 k m); some (add32 x y)))
    → (do x ← (do n ← a; m ← b; some (add32 n m)); whole (add32 (add32 s k) x))
      ≡ (do x ← (do n ← a; sizes (add32 s n)); y ← (do m ← b; spaces (add32 k m)); some (add32 x y))
field_bind s k none b whole sizes spaces h = refl
field_bind s k (some a) none whole sizes spaces h = stops (sizes (add32 s a))
  where
    stops : (o : Option ℕ) → ◌≡◌ {A = Option ℕ} none (o >>= λ x. none)
    stops none = refl
    stops (some x) = refl
field_bind s k (some a) (some b) whole sizes spaces h = rw (regroup_field s k a b) (h a b)

mutual
  unfolding get_type_size get_type_in_memory_size count_in_memory_space

  in_memory_lem :
      (t : TypeSignature)
      → get_type_in_memory_size t true
        ≡ (do n ← get_type_size t; k ← count_in_memory_space t; some (add32 n k))
  in_memory_lem int_type = ap some (sym (add32-zero 16 (omega arith)))
  in_memory_lem uint_type = ap some (sym (add32-zero 16 (omega arith)))
  in_memory_lem no_type = ap some (sym (add32-zero 4 (omega arith)))
  in_memory_lem bool_type = ap some (sym (add32-zero 4 (omega arith)))
  in_memory_lem (buffer_type n) = ap some (add32_comm n 8)
  in_memory_lem (ascii_type n) = ap some (add32_comm n 8)
  in_memory_lem (utf8_type n) = rw (mul32_comm n 4, add32_comm (mul32 4 n) 8)
  in_memory_lem (list_type len t) = list_bind (get_type_in_memory_size t true)
    where
      list_bind :
          (o : Option ℕ)
          → (do n ← o; some (add32 8 (mul32 len n)))
            ≡ (do k ← (do n ← o; some (mul32 len n)); some (add32 8 k))
      list_bind none = refl
      list_bind (some n) = refl
  in_memory_lem (optional_type t) =
      rw (in_memory_lem t) (optional_bind (get_type_size t) (count_in_memory_space t))
  in_memory_lem (response_type t u) =
      rw (in_memory_lem t, in_memory_lem u)
        (regroup_bind (λ n m. add32 (add32 4 n) m) add32 regroup_response (get_type_size t)
          (count_in_memory_space t) (get_type_size u) (count_in_memory_space u))
  in_memory_lem (tuple_type m) =
      subst
        (λ z. get_type_in_memory_size_fields z m true ≡ (do
          x ← get_type_size_fields 0 m
          y ← count_in_memory_space_fields 0 m
          some (add32 x y)))
        (add32-zero 0 (omega arith)) (in_memory_fields_lem 0 0 m)
  in_memory_lem list_union_type = refl
  in_memory_lem _ = ap some (add32_comm 150 8)

  in_memory_fields_lem :
      (s k : ℕ) (m : TypeMap)
      → get_type_in_memory_size_fields (add32 s k) m true
        ≡ (do x ← get_type_size_fields s m; y ← count_in_memory_space_fields k m; some (add32 x y))
  in_memory_fields_lem s k TypeMap.end = refl
  in_memory_fields_lem s k (field name t m) = rw (in_memory_lem t) (
      field_bind s k (get_type_size t) (count_in_memory_space t)
        (λ x. get_type_in_memory_size_fields x m true) (λ x. get_type_size_fields x m)
        (λ y. count_in_memory_space_fields y m)
        (λ n l. in_memory_fields_lem (add32 s n) (add32 k l) m))

-- The space of a type with its representation is its size and the space that its value takes in
-- memory beside it; each of the three panics on a list union, or none does.
pub get_type_in_memory_size-eq-size_and_space :
    (t : TypeSignature)
    → get_type_in_memory_size t true
      ≡ (do n ← get_type_size t; k ← count_in_memory_space t; some (add32 n k))
get_type_in_memory_size-eq-size_and_space t = in_memory_lem t
