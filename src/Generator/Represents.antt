-- ===== src/Generator/Represents.antt =====
-- The Wasm values that stand for a value of a Clarity type, and their bytes in memory.
use mathlib.Core.List.{append_assoc}
use clarity_wasm.Prelude.{
  ℕ, ◌+◌, ◌^◌, ◌<◌, ◌≡◌, refl, ap, ◌∙◌, true, List, [], ◌∷◌, ◌++◌, some, arith, add32, add32-eq-add,
  length, length-append, to_le_bytes,
}
use clarity_wasm.Clarity.{
  TypeSignature, TypeMap, no_type, int_type, uint_type, bool_type, optional_type, response_type,
  tuple_type, list_union_type, field,
}
use clarity_wasm.Layout.{i32, i64, is_in_memory_type, get_type_size, get_type_size_fields}
use clarity_wasm.Wasm.Machine.{Val, byte_count}

-- Little-endian, one after another.
abbrev pub bytes_of : List Val → List ℕ
bytes_of [] = []
bytes_of ((ty, n) ∷ vs) = to_le_bytes (byte_count ty) n ++ bytes_of vs

pub bytes_of-append : (vs ws : List Val) → bytes_of (vs ++ ws) ≡ bytes_of vs ++ bytes_of ws
bytes_of-append [] ws = refl
bytes_of-append ((ty, n) ∷ vs) ws = rw (bytes_of-append vs ws, append_assoc)

-- `vs`, from the bottom of the stack up, is what the compiler keeps for a value of the type: words
-- in range, the placeholder 0 for `NoType`, an offset and a length for an in-memory type.
mutual
  pub data Represents : TypeSignature → List Val → Type 0 where
    of_no_type : Represents no_type ((i32, 0) ∷ [])
    of_int :
        {lo hi : ℕ} → lo < 2 ^ 64 → hi < 2 ^ 64 → Represents int_type ((i64, lo) ∷ (i64, hi) ∷ [])
    of_uint :
        {lo hi : ℕ} → lo < 2 ^ 64 → hi < 2 ^ 64 → Represents uint_type ((i64, lo) ∷ (i64, hi) ∷ [])
    of_bool : {b : ℕ} → b < 2 ^ 32 → Represents bool_type ((i32, b) ∷ [])
    of_optional :
        {t : TypeSignature} {v : ℕ} {vs : List Val}
        → v < 2 ^ 32
        → Represents t vs
        → Represents (optional_type t) ((i32, v) ∷ vs)
    of_response :
        {t u : TypeSignature} {v : ℕ} {vs ws : List Val}
        → v < 2 ^ 32
        → Represents t vs
        → Represents u ws
        → Represents (response_type t u) ((i32, v) ∷ (vs ++ ws))
    of_tuple : {m : TypeMap} {vs : List Val} → RepresentsFields m vs → Represents (tuple_type m) vs
    of_in_memory :
        {t : TypeSignature} {offset len : ℕ}
        → is_in_memory_type t ≡ some true
        → offset < 2 ^ 32
        → len < 2 ^ 32
        → Represents t ((i32, offset) ∷ (i32, len) ∷ [])

  pub data RepresentsFields : TypeMap → List Val → Type 0 where
    of_end : RepresentsFields TypeMap.end []
    of_field :
        {k : ℕ} {t : TypeSignature} {m : TypeMap} {vs ws : List Val}
        → Represents t vs
        → RepresentsFields m ws
        → RepresentsFields (field k t m) (vs ++ ws)

abbrev pub byte_length : List Val → ℕ
byte_length vs = length (bytes_of vs)

pub byte_length-append :
    (vs ws : List Val) → byte_length (vs ++ ws) ≡ byte_length vs + byte_length ws
byte_length-append vs ws = rw (bytes_of-append vs ws) (length-append (bytes_of vs) (bytes_of ws))

in_memory-get_type_size :
    (t : TypeSignature) → is_in_memory_type t ≡ some true → get_type_size t ≡ some 8
unfolding is_in_memory_type get_type_size
in_memory-get_type_size no_type e = ground arith
in_memory-get_type_size int_type e = ground arith
in_memory-get_type_size uint_type e = ground arith
in_memory-get_type_size bool_type e = ground arith
in_memory-get_type_size (optional_type t) e = ground arith
in_memory-get_type_size (response_type t u) e = ground arith
in_memory-get_type_size (tuple_type m) e = ground arith
in_memory-get_type_size list_union_type e = ground arith
in_memory-get_type_size _ e = refl

mutual
  unfolding get_type_size to_le_bytes

  size_lem :
      {t : TypeSignature} {vs : List Val}
      → Represents t vs
      → byte_length vs < 2 ^ 32
      → get_type_size t ≡ some (byte_length vs)
  size_lem of_no_type h = refl
  size_lem (of_int a b) h = refl
  size_lem (of_uint a b) h = refl
  size_lem (of_bool a) h = refl
  size_lem (of_optional {t} {v} {vs} a r) h =
      rw (size_lem r (omega arith))
        (ap some (omega (arith, add32-eq-add 4 (byte_length vs) (omega arith))))
  size_lem (of_response {t} {u} {v} {vs} {ws} a r q) h =
      let l : byte_length (vs ++ ws) ≡ byte_length vs + byte_length ws = byte_length-append vs ws in
      rw (size_lem r (omega arith), size_lem q (omega arith))
        (ap some (
          omega (
            arith,
            add32-eq-add 4 (byte_length vs) (omega arith),
            add32-eq-add (add32 4 (byte_length vs)) (byte_length ws)
                (omega (arith, add32-eq-add 4 (byte_length vs) (omega arith))),
          )))
  size_lem (of_tuple {m} {vs} r) h = size_fields_lem 0 r (omega arith) ∙ ap some (omega arith)
  size_lem (of_in_memory {t} {offset} {len} e a b) h = in_memory-get_type_size t e

  size_fields_lem :
      {m : TypeMap} {vs : List Val} (s : ℕ)
      → RepresentsFields m vs
      → s + byte_length vs < 2 ^ 32
      → get_type_size_fields s m ≡ some (s + byte_length vs)
  size_fields_lem s of_end h = ap some (omega arith)
  size_fields_lem s (of_field {k} {t} {m} {vs} {ws} r q) h =
      let l : byte_length (vs ++ ws) ≡ byte_length vs + byte_length ws = byte_length-append vs ws in
      rw (size_lem r (omega arith), add32-eq-add s (byte_length vs) (omega arith))
        (size_fields_lem (s + byte_length vs) q (omega arith) ∙ ap some (omega arith))

-- The size of a type is the number of bytes of any of its values' representations.
pub get_type_size-eq-byte_length :
    {t : TypeSignature} {vs : List Val}
    → Represents t vs
    → byte_length vs < 2 ^ 32
    → get_type_size t ≡ some (byte_length vs)
get_type_size-eq-byte_length r h = size_lem r h
