-- ===== src/Host/Reserve.antt =====
-- `reserve_space_for_return` of clar2wasm/src/wasm_utils.rs.
use clarity_wasm.Prelude.{ℕ, false, List, [], ◌∷◌, ◌++◌, Result, ok, err, ◌>>=◌, add32}
use clarity_wasm.Clarity.{
  TypeSignature, TypeMap, no_type, int_type, uint_type, bool_type, optional_type, response_type,
  tuple_type, list_union_type, field,
}
use clarity_wasm.Layout.{i32, i64, get_type_in_memory_size}
use clarity_wasm.Wasm.Machine.{Val}
use clarity_wasm.Host.Errors.{Error, panic, or_error}

-- The values that the result is stored in, and the next free offset.
unfoldable mutual
  pub reserve_space_for_return : ℕ → TypeSignature → Result Error (List Val × ℕ)
  reserve_space_for_return offset uint_type = ok ((i64, 0) ∷ (i64, 0) ∷ [], offset)
  reserve_space_for_return offset int_type = ok ((i64, 0) ∷ (i64, 0) ∷ [], offset)
  reserve_space_for_return offset bool_type = ok ((i32, 0) ∷ [], offset)
  reserve_space_for_return offset (optional_type t) = do
    (vals, adjusted) ← reserve_space_for_return offset t
    ok ((i32, 0) ∷ vals, adjusted)
  reserve_space_for_return offset (response_type t u) = do
    (ok_vals, adjusted) ← reserve_space_for_return offset t
    (err_vals, adjusted) ← reserve_space_for_return adjusted u
    ok ((i32, 0) ∷ (ok_vals ++ err_vals), adjusted)
  reserve_space_for_return offset no_type = ok ((i32, 0) ∷ [], offset)
  reserve_space_for_return offset (tuple_type fields) = reserve_fields offset fields
  reserve_space_for_return offset list_union_type = err panic
  reserve_space_for_return offset t = do
    len ← or_error (get_type_in_memory_size t false) panic
    ok ((i32, 0) ∷ (i32, 0) ∷ [], add32 offset len)

  pub reserve_fields : ℕ → TypeMap → Result Error (List Val × ℕ)
  reserve_fields offset TypeMap.end = ok ([], offset)
  reserve_fields offset (field k t fields) = do
    (vals, adjusted) ← reserve_space_for_return offset t
    (rest, adjusted) ← reserve_fields adjusted fields
    ok (vals ++ rest, adjusted)
