-- ===== src/Layout/Defs.antt =====
-- The definitions. `none` stands for the panic of `unreachable!` at a list union.
use clarity_wasm.Prelude.{
  ℕ, Bool, true, false, List, [], ◌∷◌, ◌++◌, Option, none, some, if◌then◌else◌, add32, mul32,
}
use clarity_wasm.Clarity.{
  TypeSignature, TypeMap, no_type, int_type, uint_type, bool_type, principal_type, buffer_type,
  ascii_type, utf8_type, list_type, optional_type, response_type, tuple_type, callable_principal,
  callable_trait, trait_reference_type, list_union_type, field,
}

-- The two of walrus's value types that the compiler uses.
pub data ValType : Type 0 where
  i32 i64 : ValType

infixl 5 ◌>>=◌
abbrev pub ◌>>=◌ {ℓ κ} : {A : Type ℓ} {B : Type κ} → Option A → (A → Option B) → Option B
none >>= f = none
some a >>= f = f a

-- The Wasm values that stand for a value of the type, from the bottom of the stack up.
unfoldable mutual
  pub clar2wasm_ty : TypeSignature → List ValType
  clar2wasm_ty no_type = i32 ∷ []
  clar2wasm_ty int_type = i64 ∷ i64 ∷ []
  clar2wasm_ty uint_type = i64 ∷ i64 ∷ []
  clar2wasm_ty bool_type = i32 ∷ []
  clar2wasm_ty (optional_type t) = i32 ∷ clar2wasm_ty t
  clar2wasm_ty (response_type t u) = i32 ∷ (clar2wasm_ty t ++ clar2wasm_ty u)
  clar2wasm_ty (tuple_type m) = clar2wasm_ty_fields m
  clar2wasm_ty _ = i32 ∷ i32 ∷ []

  pub clar2wasm_ty_fields : TypeMap → List ValType
  clar2wasm_ty_fields TypeMap.end = []
  clar2wasm_ty_fields (field k t m) = clar2wasm_ty t ++ clar2wasm_ty_fields m

abbrev pub principal_bytes : ℕ
principal_bytes = 21

abbrev pub standard_principal_bytes : ℕ
standard_principal_bytes = 22

abbrev pub principal_bytes_max : ℕ
principal_bytes_max = 150

-- The bytes of a value's representation: for an in-memory type, its offset and length.
unfoldable mutual
  pub get_type_size : TypeSignature → Option ℕ
  get_type_size int_type = some 16
  get_type_size uint_type = some 16
  get_type_size bool_type = some 4
  get_type_size no_type = some 4
  get_type_size (optional_type t) = do n ← get_type_size t; some (add32 4 n)
  get_type_size (response_type t u) = do
    n ← get_type_size t
    m ← get_type_size u
    some (add32 (add32 4 n) m)
  get_type_size (tuple_type m) = get_type_size_fields 0 m
  get_type_size list_union_type = none
  get_type_size _ = some 8

  -- The loop over a tuple's types, with the size so far.
  pub get_type_size_fields : ℕ → TypeMap → Option ℕ
  get_type_size_fields size TypeMap.end = some size
  get_type_size_fields size (field k t m) = do
    n ← get_type_size t
    get_type_size_fields (add32 size n) m

abbrev pub with_repr : Bool → ℕ → ℕ
with_repr include_repr size = if include_repr then add32 size 8 else size

-- The most bytes that a value takes in memory, with or without its offsets and lengths.
unfoldable mutual
  pub get_type_in_memory_size : TypeSignature → Bool → Option ℕ
  get_type_in_memory_size int_type r = some 16
  get_type_in_memory_size uint_type r = some 16
  get_type_in_memory_size (ascii_type n) r = some (with_repr r n)
  get_type_in_memory_size principal_type r = some (with_repr r principal_bytes_max)
  get_type_in_memory_size (callable_principal c) r = some (with_repr r principal_bytes_max)
  get_type_in_memory_size (callable_trait c) r = some (with_repr r principal_bytes_max)
  get_type_in_memory_size (trait_reference_type c) r = some (with_repr r principal_bytes_max)
  get_type_in_memory_size (optional_type t) r = do n ← get_type_in_memory_size t r; some (add32 4 n)
  get_type_in_memory_size (list_type len t) true = do
    n ← get_type_in_memory_size t true
    some (add32 8 (mul32 len n))
  get_type_in_memory_size (list_type len t) false = do n ← get_type_size t; some (mul32 len n)
  get_type_in_memory_size (buffer_type n) r = some (with_repr r n)
  get_type_in_memory_size (utf8_type n) r = some (with_repr r (mul32 n 4))
  get_type_in_memory_size no_type r = some 4
  get_type_in_memory_size bool_type r = some 4
  get_type_in_memory_size (tuple_type m) r = get_type_in_memory_size_fields 0 m r
  get_type_in_memory_size (response_type t u) r = do
    n ← get_type_in_memory_size t r
    m ← get_type_in_memory_size u r
    some (add32 (add32 4 n) m)
  get_type_in_memory_size list_union_type r = none

  pub get_type_in_memory_size_fields : ℕ → TypeMap → Bool → Option ℕ
  get_type_in_memory_size_fields size TypeMap.end r = some size
  get_type_in_memory_size_fields size (field k t m) r = do
    n ← get_type_in_memory_size t r
    get_type_in_memory_size_fields (add32 size n) m r

-- Whether the value stays in memory, and not on the stack.
unfoldable pub is_in_memory_type : TypeSignature → Option Bool
is_in_memory_type no_type = some false
is_in_memory_type int_type = some false
is_in_memory_type uint_type = some false
is_in_memory_type bool_type = some false
is_in_memory_type (tuple_type m) = some false
is_in_memory_type (optional_type t) = some false
is_in_memory_type (response_type t u) = some false
is_in_memory_type list_union_type = none
is_in_memory_type _ = some true

-- `||` and `any` stop at the first `true`, before a later type is looked at.
unfoldable mutual
  pub has_in_memory_type : TypeSignature → Option Bool
  has_in_memory_type (optional_type t) = has_in_memory_type t
  has_in_memory_type (response_type t u) = do
    b ← has_in_memory_type t
    if b then some true else has_in_memory_type u
  has_in_memory_type (tuple_type m) = has_in_memory_type_fields m
  has_in_memory_type no_type = some false
  has_in_memory_type int_type = some false
  has_in_memory_type uint_type = some false
  has_in_memory_type bool_type = some false
  has_in_memory_type list_union_type = none
  has_in_memory_type _ = some true

  pub has_in_memory_type_fields : TypeMap → Option Bool
  has_in_memory_type_fields TypeMap.end = some false
  has_in_memory_type_fields (field k t m) = do
    b ← has_in_memory_type t
    if b then some true else has_in_memory_type_fields m

-- The bytes that a value needs in memory beside its representation.
unfoldable mutual
  pub count_in_memory_space : TypeSignature → Option ℕ
  count_in_memory_space bool_type = some 0
  count_in_memory_space int_type = some 0
  count_in_memory_space uint_type = some 0
  count_in_memory_space no_type = some 0
  count_in_memory_space (optional_type t) = count_in_memory_space t
  count_in_memory_space (response_type t u) = do
    n ← count_in_memory_space t
    m ← count_in_memory_space u
    some (add32 n m)
  count_in_memory_space (buffer_type n) = some n
  count_in_memory_space (ascii_type n) = some n
  count_in_memory_space (utf8_type n) = some (mul32 4 n)
  count_in_memory_space (list_type len t) = do
    n ← get_type_in_memory_size t true
    some (mul32 len n)
  count_in_memory_space (tuple_type m) = count_in_memory_space_fields 0 m
  count_in_memory_space list_union_type = none
  count_in_memory_space _ = some principal_bytes_max

  pub count_in_memory_space_fields : ℕ → TypeMap → Option ℕ
  count_in_memory_space_fields size TypeMap.end = some size
  count_in_memory_space_fields size (field k t m) = do
    n ← count_in_memory_space t
    count_in_memory_space_fields (add32 size n) m
