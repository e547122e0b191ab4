-- ===== src/Host/Tests.antt =====
-- A library of value constructors that accept everything, and the theorems on the host at concrete
-- values.
use clarity_wasm.Prelude.{
  if◌then◌else◌, err, ◌≢◌, err, arith, ℕ, ◌≡◌, refl, true, false, List, [], ◌∷◌, map, some, ok,
  length, replicate, add32, to_le_bytes,
}
use clarity_wasm.Clarity.{
  TypeSignature, TypeMap, Value, DataMap, int_type, bool_type, buffer_type, list_type,
  response_type, tuple_type, field, entry, int, buffer, response, tuple,
}
use clarity_wasm.Layout
use clarity_wasm.Layout.{i32, i64, get_type_size}
use clarity_wasm.Wasm.Machine.{Val}
use clarity_wasm.Wasm.ByteMemory.{byte_memory}
use clarity_wasm.Host.Library.{accepting}
use clarity_wasm.Host.Write.{
  write_to_wasm, lookup_entry, write_in_memory, write_repr, write_response, write_indicator,
  write_words,
}
use clarity_wasm.Host.Access.{
  value_as_tuple, value_as_buffer, value_as_response, value_as_i128, write_mem, read_mem,
}
use clarity_wasm.Host.Types.{clar2wasm_ty, zero_val}
use clarity_wasm.Host.Take.{wasm_to_clarity_value, take_bytes, take_words, get_typed}
use clarity_wasm.Host.Reserve.{reserve_space_for_return}
use clarity_wasm.Host.Shapes.{
  is_plain, clar2wasm_ty-eq-compiler, reserve_space_for_return-clar2wasm_ty,
}
use clarity_wasm.Host.Used.{wasm_to_clarity_value-length}
use clarity_wasm.Host.Pass.{pass_argument_to_wasm, pass_simple}
use clarity_wasm.Host.Arguments.{
  types_of, of_tuple, of_field, of_buffer, of_err, of_int, of_end,
  pass_argument_to_wasm-clar2wasm_ty,
}
use clarity_wasm.Host.Readers.{Returns}
use clarity_wasm.Host.Termination.{read_from_wasm-ne-diverges}
use clarity_wasm.Host.Errors.{diverges, panic}
use clarity_wasm.Host.Read.{read_from_wasm, read_from_wasm_indirect}
use clarity_wasm.Host.Sizes.{bytes_at_offset, write_to_wasm-get_type_size}

-- `{a: (buff 4), b: (response bool int)}`
abbrev pair_type : TypeSignature
pair_type =
    tuple_type (field 0 (buffer_type 4) (field 1 (response_type bool_type int_type) TypeMap.end))

abbrev pair_data : DataMap
pair_data = entry 1 (response false (int 258)) (entry 0 (buffer (9 ∷ 8 ∷ 7 ∷ [])) DataMap.end)

abbrev pair_value : Value
pair_value = tuple pair_data

abbrev pair_memory : List ℕ
pair_memory =
    36 ∷ 0 ∷ 0 ∷ 0 ∷ 3 ∷ 0 ∷ 0 ∷ 0 ∷ 0 ∷ 0 ∷ 0 ∷ 0 ∷ 0 ∷ 0 ∷ 0 ∷ 0 ∷ 2 ∷ 1 ∷ 0 ∷ 0 ∷ 0 ∷ 0 ∷ 0 ∷ 0
    ∷ 0 ∷ 0 ∷ 0 ∷ 0 ∷ 0 ∷ 0 ∷ 0 ∷ 0 ∷ 0 ∷ 0 ∷ 0 ∷ 0 ∷ 9 ∷ 8 ∷ 7 ∷ []

pair_written :
    write_to_wasm byte_memory accepting pair_type (replicate 39 0) 0 36 pair_value true
    ≡ ok (32, 3, pair_memory)
unfolding write_to_wasm value_as_tuple lookup_entry value_as_buffer write_in_memory write_mem add32
    write_repr to_le_bytes value_as_response write_response write_indicator get_type_size
    value_as_i128 write_words
pair_written = refl

write_to_wasm-get_type_size_example : bytes_at_offset pair_type true ≡ some 32
write_to_wasm-get_type_size_example =
    write_to_wasm-get_type_size byte_memory accepting pair_type (replicate 39 0) 0 36 pair_value
      true pair_written

abbrev pair_words : List Val
pair_words = (i32, 36) ∷ (i32, 3) ∷ (i32, 0) ∷ (i32, 0) ∷ (i64, 258) ∷ (i64, 0) ∷ []

pair_taken :
    wasm_to_clarity_value byte_memory accepting pair_type 0 pair_words pair_memory
    ≡ ok (
      some (
          tuple
            (entry 0 (buffer (9 ∷ 8 ∷ 7 ∷ [])) (entry 1 (response false (int 258)) DataMap.end))),
      6,
    )
unfolding wasm_to_clarity_value take_bytes get_typed read_mem clar2wasm_ty take_words
pair_taken = refl

wasm_to_clarity_value-length_example : 6 ≡ length (Layout.clar2wasm_ty pair_type)
wasm_to_clarity_value-length_example =
    wasm_to_clarity_value-length byte_memory accepting pair_type 0 pair_words pair_memory pair_taken

pair_types : clar2wasm_ty pair_type ≡ ok (i32 ∷ i32 ∷ i32 ∷ i32 ∷ i64 ∷ i64 ∷ [])
unfolding clar2wasm_ty
pair_types = refl

clar2wasm_ty-eq-compiler_example :
    clar2wasm_ty pair_type
    ≡ (if is_plain pair_type then ok (Layout.clar2wasm_ty pair_type) else err panic)
clar2wasm_ty-eq-compiler_example = clar2wasm_ty-eq-compiler pair_type

reserve_space_for_return-clar2wasm_ty_example :
    (offset' : ℕ) × (reserve_space_for_return 100 pair_type
      ≡ ok (map zero_val (Layout.clar2wasm_ty pair_type), offset'))
reserve_space_for_return-clar2wasm_ty_example =
    reserve_space_for_return-clar2wasm_ty pair_type 100 (tt, ((tt, tt), tt))

accepting-Returns : Returns accepting
accepting-Returns = record {
  buff_from = λ bs. tt;
  string_ascii_from_bytes = λ bs. tt;
  string_utf8_from_unicode_scalars = λ bs. tt;
  cons_list_unsanitized = λ vs. tt;
  tuple_from_data = λ d. tt;
  standard_principal = λ v h. tt;
  contract_name = λ bs. tt;
}

pair_size : get_type_size pair_type ≡ some 32
unfolding get_type_size add32
pair_size = refl

read_from_wasm-ne-diverges_example :
    (read_from_wasm byte_memory accepting (list_type 5 pair_type) pair_memory 4 64 ≢ err diverges)
    × (read_from_wasm_indirect byte_memory accepting (list_type 5 pair_type) pair_memory 4
        ≢ err diverges)
read_from_wasm-ne-diverges_example =
    read_from_wasm-ne-diverges byte_memory accepting accepting-Returns pair_memory (omega arith)
      (list_type 5 pair_type) 4 64 ((tt, ((tt, tt), tt)), (32, pair_size, omega arith, omega arith))

pair_fields :
    (lookup_entry 0 pair_data ≡ some (buffer (9 ∷ 8 ∷ 7 ∷ [])))
    × (lookup_entry 1 pair_data ≡ some (response false (int 258)))
unfolding lookup_entry
pair_fields = (refl, refl)

pair_passed :
    pass_argument_to_wasm byte_memory accepting pair_type (replicate 4 0) pair_value 0 1
    ≡ ok (
      (i32, 1) ∷ (i32, 3) ∷ (i32, 0) ∷ (i32, 0) ∷ (i64, 258) ∷ (i64, 0) ∷ [],
      0,
      4,
      0 ∷ 9 ∷ 8 ∷ 7 ∷ [],
    )
unfolding pass_argument_to_wasm lookup_entry pass_simple write_mem clar2wasm_ty add32
pair_passed = refl

pass_argument_to_wasm-clar2wasm_ty_example :
    types_of ((i32, 1) ∷ (i32, 3) ∷ (i32, 0) ∷ (i32, 0) ∷ (i64, 258) ∷ (i64, 0) ∷ [])
    ≡ Layout.clar2wasm_ty pair_type
pass_argument_to_wasm-clar2wasm_ty_example =
    pass_argument_to_wasm-clar2wasm_ty byte_memory accepting (replicate 4 0) 0 1
      (of_tuple
        (of_field (pair_fields.0) of_buffer (of_field (pair_fields.1) (of_err of_int) of_end)))
      pair_passed
