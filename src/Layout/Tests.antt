-- ===== src/Layout/Tests.antt =====
-- Sizes of concrete types, and the theorems on sizes at one of them.
use clarity_wasm.Prelude.{◌%◌, ◌^◌, ◌≡◌, refl, true, false, some, none, add32, mul32}
use clarity_wasm.Clarity.{
  TypeSignature, TypeMap, int_type, bool_type, principal_type, buffer_type, list_type,
  optional_type, response_type, tuple_type, list_union_type, field,
}
use clarity_wasm.Layout.{
  ◌>>=◌, clar2wasm_ty, get_type_size, get_type_in_memory_size, count_in_memory_space,
  has_in_memory_type,
}
use clarity_wasm.Layout.Sizes.{
  byte_width, get_type_size-eq-byte_width, get_type_in_memory_size-eq-size_and_space,
}
use clarity_wasm.Layout.Stack.{has_in_memory_type-false}

-- `{a: (optional (list 3 (buff 10))), b: (response int principal)}`
abbrev nested_type : TypeSignature
nested_type = tuple_type (
    field 0 (optional_type (list_type 3 (buffer_type 10)))
      (field 1 (response_type int_type principal_type) TypeMap.end))

-- `{a: (optional int), b: bool}`
abbrev flat_type : TypeSignature
flat_type = tuple_type (field 0 (optional_type int_type) (field 1 bool_type TypeMap.end))

nested_size : get_type_size nested_type ≡ some 40
unfolding get_type_size add32
nested_size = refl

nested_in_memory_size : get_type_in_memory_size nested_type true ≡ some 244
unfolding get_type_in_memory_size add32 mul32
nested_in_memory_size = refl

nested_bare_size : get_type_in_memory_size nested_type false ≡ some 198
unfolding get_type_in_memory_size get_type_size add32 mul32
nested_bare_size = refl

list_union_size : get_type_size (optional_type list_union_type) ≡ none
unfolding get_type_size
list_union_size = refl

get_type_size-eq-byte_width_example :
    get_type_size nested_type ≡ some (byte_width (clar2wasm_ty nested_type) % 2 ^ 32)
get_type_size-eq-byte_width_example = get_type_size-eq-byte_width nested_type (tt, ((tt, tt), tt))

get_type_in_memory_size-eq-size_and_space_example :
    get_type_in_memory_size nested_type true
    ≡ (do n ← get_type_size nested_type; k ← count_in_memory_space nested_type; some (add32 n k))
get_type_in_memory_size-eq-size_and_space_example =
    get_type_in_memory_size-eq-size_and_space nested_type

flat_in_memory : has_in_memory_type flat_type ≡ some false
unfolding has_in_memory_type
flat_in_memory = refl

has_in_memory_type-false_example :
    (count_in_memory_space flat_type ≡ some 0)
    × (get_type_in_memory_size flat_type false ≡ get_type_size flat_type)
has_in_memory_type-false_example = has_in_memory_type-false flat_type false flat_in_memory
