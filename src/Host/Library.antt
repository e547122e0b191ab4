-- ===== src/Host/Library.antt =====
-- What clar2wasm/src/wasm_utils.rs calls of the `clarity` crate and of `String`: the checked
-- constructors of values. They are not part of the repository, and so a parameter.
use clarity_wasm.Prelude.{ℕ, true, false, List, [], ◌∷◌, Result, ok, map}
use clarity_wasm.Clarity.{
  Value, Values, DataMap, StandardPrincipalData, buffer, ascii, utf8, some_value, response, tuple,
}
use clarity_wasm.Host.Errors.{Error}

pub record ClarityLibrary : Type 0 where
  -- `Value::buff_from`, `string_ascii_from_bytes`, `string_utf8_from_unicode_scalars`
  pub buff_from : List ℕ → Result Error Value
  pub string_ascii_from_bytes : List ℕ → Result Error Value
  pub string_utf8_from_unicode_scalars : List ℕ → Result Error Value
  -- `Value::some`, `Value::okay`, `Value::error`
  pub make_some : Value → Result Error Value
  pub okay : Value → Result Error Value
  pub error : Value → Result Error Value
  pub cons_list_unsanitized : Values → Result Error Value
  -- `TupleData::from_data`
  pub tuple_from_data : DataMap → Result Error Value
  -- `StandardPrincipalData::new`
  pub standard_principal : ℕ → List ℕ → Result Error StandardPrincipalData
  -- `String::from_utf8` and `ContractName::try_from`
  pub from_utf8 : List ℕ → Result Error (List ℕ)
  pub contract_name : List ℕ → Result Error (List ℕ)
  -- `String::from_utf8` of the characters' bytes, then each `char` as four big-endian bytes
  pub unicode_scalars : List (List ℕ) → Result Error (List ℕ)

abbrev pub accepting : ClarityLibrary
accepting = record {
  buff_from = λ bs. ok (buffer bs);
  string_ascii_from_bytes = λ bs. ok (ascii bs);
  string_utf8_from_unicode_scalars = λ bs. ok (utf8 (map (λ b. b ∷ []) bs));
  make_some = λ v. ok (some_value v);
  okay = λ v. ok (response true v);
  error = λ v. ok (response false v);
  cons_list_unsanitized = λ vs. ok (Value.list vs);
  tuple_from_data = λ d. ok (tuple d);
  standard_principal = λ v h. ok (record { version = v; hash = h });
  from_utf8 = λ bs. ok bs;
  contract_name = λ bs. ok bs;
  unicode_scalars = λ cs. ok [];
}
