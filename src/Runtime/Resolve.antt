-- ===== src/Runtime/Resolve.antt =====
-- `resolve_error`, `from_runtime_error_code` and their helpers of clar2wasm/src/error_mapping.rs,
-- and `read_identifier_from_wasm` of clar2wasm/src/wasm_utils.rs.
use Prim.Native.String.{String}
use clarity_wasm.Prelude.{
  ℕ, false, List, [], ◌∷◌, Option, none, some, Result, ok, err, ◌>>=◌, from_le_bytes,
}
use clarity_wasm.Clarity.{TypeSignature, Value, response, none_value}
use clarity_wasm.Layout.{i32, i64}
use clarity_wasm.Wasm.Memory.{LinearMemory}
use clarity_wasm.Wasm.Machine.{Val}
use clarity_wasm.Host.Errors.{Error, panic, unable_to_read_identifier, or_error, map_err}
use clarity_wasm.Host.Library.{ClarityLibrary}
use clarity_wasm.Host.Access.{read_bytes_from_wasm}
use clarity_wasm.Host.Read.{read_from_wasm_indirect}
use clarity_wasm.Runtime.Codes.{ErrorMap, from_code}

-- The runtime errors that the mapping names; the three of arithmetic by their message.
pub data RuntimeErrorType : Type 0 where
  arithmetic_overflow arithmetic_underflow division_by_zero : RuntimeErrorType
  log2_error sqrti_error pow_error bad_type_construction unwrap_failure : RuntimeErrorType

pub data CheckErrors : Type 0 where
  name_already_used : List ℕ → CheckErrors
  incorrect_argument_count requires_at_least_arguments requires_at_most_arguments :
      (expected got : ℕ) → CheckErrors
  -- any other, by a number
  other_check : ℕ → CheckErrors

-- `clarity::vm::errors::Error`
pub data VmError : Type 0 where
  runtime : RuntimeErrorType → VmError
  unchecked : CheckErrors → VmError
  assertion_failed expected_value : Value → VmError
  wasm_runtime : VmError
  -- any other, by a number
  other_error : ℕ → VmError

-- What `root_cause` of a wasmtime error is.
pub data RootCause : Type 0 where
  of_vm_error : VmError → RootCause
  of_check_errors : CheckErrors → RootCause
  unreachable_code_reached other_cause : RootCause

-- The globals and the memory of an instance by the names that it exports.
pub record Exports (W : LinearMemory) : Type 0 where
  pub global : String → Option Val
  pub memory : Option (W.Memory)

as_i32 : Val → Option ℕ
as_i32 (i32, n) = some n
as_i32 (i64, n) = none

unfoldable pub extract_expected_and_got : List ℕ → Result Error (ℕ × ℕ)
extract_expected_and_got (a ∷ b ∷ c ∷ d ∷ e ∷ f ∷ g ∷ h ∷ _) =
    ok (from_le_bytes (a ∷ b ∷ c ∷ d ∷ []), from_le_bytes (e ∷ f ∷ g ∷ h ∷ []))
extract_expected_and_got _ = err panic

-- `parse` is `signature_from_string`, which the `clarity` crate's parser does.
module _ (W : LinearMemory) (L : ClarityLibrary) (parse : List ℕ → Result Error TypeSignature) where
  unfoldable pub read_identifier_from_wasm : W.Memory → ℕ → ℕ → Result Error (List ℕ)
  read_identifier_from_wasm m offset len = do
    buffer ← read_bytes_from_wasm W m offset len
    map_err (L.from_utf8 buffer) unable_to_read_identifier

  unfoldable pub get_global_i32 : Exports W → String → Result Error ℕ
  unfolding as_i32
  get_global_i32 i name = do v ← or_error (i.global name) panic; or_error (as_i32 v) panic

  unfoldable pub short_return_value : Exports W → Result Error Value
  unfolding get_global_i32
  short_return_value i = do
    val_offset ← get_global_i32 i "runtime-error-value-offset"
    type_ser_offset ← get_global_i32 i "runtime-error-type-ser-offset"
    type_ser_len ← get_global_i32 i "runtime-error-type-ser-len"
    m ← or_error i.memory panic
    type_ser_str ← map_err (read_identifier_from_wasm m type_ser_offset type_ser_len) panic
    value_ty ← map_err (parse type_ser_str) panic
    map_err (read_from_wasm_indirect W L value_ty m val_offset) panic

  unfoldable pub get_runtime_error_arg_lengths : Exports W → Result Error (ℕ × ℕ)
  unfolding get_global_i32 extract_expected_and_got
  get_runtime_error_arg_lengths i = do
    offset ← get_global_i32 i "runtime-error-arg-offset"
    len ← get_global_i32 i "runtime-error-arg-len"
    m ← or_error i.memory panic
    arg_lengths ← map_err (read_bytes_from_wasm W m offset len) panic
    extract_expected_and_got arg_lengths

  unfoldable pub read_arg_name : Exports W → Result Error (List ℕ)
  unfolding get_global_i32
  read_arg_name i = do
    offset ← get_global_i32 i "runtime-error-arg-offset"
    len ← get_global_i32 i "runtime-error-arg-len"
    m ← or_error i.memory panic
    map_err (read_identifier_from_wasm m offset len) panic

  unfoldable pub from_error_map : ErrorMap → Exports W → Result Error VmError
  from_error_map ErrorMap.not_clarity_error i = ok wasm_runtime
  from_error_map ErrorMap.arithmetic_overflow i = ok (runtime arithmetic_overflow)
  from_error_map ErrorMap.arithmetic_underflow i = ok (runtime arithmetic_underflow)
  from_error_map ErrorMap.division_by_zero i = ok (runtime division_by_zero)
  from_error_map ErrorMap.arithmetic_log2_error i = ok (runtime log2_error)
  from_error_map ErrorMap.arithmetic_sqrti_error i = ok (runtime sqrti_error)
  from_error_map ErrorMap.bad_type_construction i = ok (runtime bad_type_construction)
  from_error_map ErrorMap.panic i = ok (runtime unwrap_failure)
  from_error_map ErrorMap.short_return_assertion_failure i = do
    v ← short_return_value i
    ok (assertion_failed v)
  from_error_map ErrorMap.arithmetic_pow_error i = ok (runtime pow_error)
  from_error_map ErrorMap.name_already_used i = do
    name ← read_arg_name i
    ok (unchecked (name_already_used name))
  from_error_map ErrorMap.short_return_expected_value_response i = do
    v ← short_return_value i
    ok (expected_value (response false v))
  from_error_map ErrorMap.short_return_expected_value_optional i = ok (expected_value none_value)
  from_error_map ErrorMap.short_return_expected_value i = do
    v ← short_return_value i
    ok (expected_value v)
  from_error_map ErrorMap.argument_count_mismatch i = do
    (expected, got) ← get_runtime_error_arg_lengths i
    ok (unchecked (incorrect_argument_count expected got))
  from_error_map ErrorMap.argument_count_at_least i = do
    (expected, got) ← get_runtime_error_arg_lengths i
    ok (unchecked (requires_at_least_arguments expected got))
  from_error_map ErrorMap.argument_count_at_most i = do
    (expected, got) ← get_runtime_error_arg_lengths i
    ok (unchecked (requires_at_most_arguments expected got))
  from_error_map ErrorMap.not_mapped i = err panic

  unfoldable pub from_runtime_error_code : Exports W → Result Error VmError
  unfolding get_global_i32 from_error_map
  from_runtime_error_code i = do
    code ← get_global_i32 i "runtime-error-code"
    from_error_map (from_code code) i

  unfoldable pub resolve_error : RootCause → Exports W → Result Error VmError
  unfolding from_runtime_error_code
  resolve_error (of_vm_error e) i = ok e
  resolve_error (of_check_errors e) i = ok (unchecked e)
  resolve_error unreachable_code_reached i = from_runtime_error_code i
  resolve_error other_cause i = ok wasm_runtime
