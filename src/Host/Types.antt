-- ===== src/Host/Types.antt =====
-- `clar2wasm_ty` of clar2wasm/src/wasm_utils.rs.
use clarity_wasm.Prelude.{List, [], ◌∷◌, ◌++◌, Result, ok, err, ◌>>=◌}
use clarity_wasm.Clarity.{
  TypeSignature, TypeMap, no_type, int_type, uint_type, bool_type, optional_type, response_type,
  tuple_type, trait_reference_type, list_union_type, field,
}
use clarity_wasm.Layout.{ValType, i32, i64}
use clarity_wasm.Wasm.Machine.{Val}
use clarity_wasm.Host.Errors.{Error, panic}

-- `clar2wasm_ty` of wasm_utils.rs, where `unimplemented!` is an error.
unfoldable mutual
  pub clar2wasm_ty : TypeSignature → Result Error (List ValType)
  clar2wasm_ty no_type = ok (i32 ∷ [])
  clar2wasm_ty int_type = ok (i64 ∷ i64 ∷ [])
  clar2wasm_ty uint_type = ok (i64 ∷ i64 ∷ [])
  clar2wasm_ty bool_type = ok (i32 ∷ [])
  clar2wasm_ty (response_type t u) = do
    ts ← clar2wasm_ty t
    us ← clar2wasm_ty u
    ok (i32 ∷ (ts ++ us))
  clar2wasm_ty (optional_type t) = do ts ← clar2wasm_ty t; ok (i32 ∷ ts)
  clar2wasm_ty (tuple_type fields) = clar2wasm_ty_fields fields
  clar2wasm_ty (trait_reference_type x) = err panic
  clar2wasm_ty list_union_type = err panic
  clar2wasm_ty _ = ok (i32 ∷ i32 ∷ [])

  pub clar2wasm_ty_fields : TypeMap → Result Error (List ValType)
  clar2wasm_ty_fields TypeMap.end = ok []
  clar2wasm_ty_fields (field k t fields) = do
    ts ← clar2wasm_ty t
    us ← clar2wasm_ty_fields fields
    ok (ts ++ us)

abbrev pub zero_val : ValType → Val
zero_val ty = (ty, 0)
