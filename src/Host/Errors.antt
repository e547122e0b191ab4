-- ===== src/Host/Errors.antt =====
-- The errors of clar2wasm/src/wasm_utils.rs and clar2wasm/src/linker.rs, without the texts and causes that they carry.
use clarity_wasm.Prelude.{ℕ, List, Option, none, some, Result, ok, err}

-- `panic` stands for `unreachable!`, `unimplemented!` and an index out of range, and `diverges` for
-- a loop that does not end.
pub data Error : Type 0 where
  value_type_mismatch unable_to_write_memory unable_to_read_memory runtime : Error
  unable_to_read_identifier wasm_generator_error : Error
  invalid_indicator : ℕ → Error
  invalid_no_type_in_value invalid_list_union_type_in_value : Error
  could_not_determine_type could_not_determine_response_ok_type : Error
  could_not_determine_response_err_type bad_tuple_construction : Error
  clarity_error : Error
  no_such_data_variable no_such_map : List ℕ → Error
  no_such_ft no_such_nft : List ℕ → Error
  write_attempted_in_read_only type_value_error no_such_token arithmetic_overflow : Error
  no_sender_in_context no_caller_in_context bad_block_hash : Error
  contract_call_expect_name no_such_public_function define_function_bad_signature : Error
  panic diverges : Error

abbrev pub or_error {ℓ} : {A : Type ℓ} → Option A → Error → Result Error A
or_error none e = err e
or_error (some a) e = ok a

-- `map_err` to one error.
abbrev pub map_err {ℓ} : {A : Type ℓ} → Result Error A → Error → Result Error A
map_err (ok a) e = ok a
map_err (err _) e = err e
