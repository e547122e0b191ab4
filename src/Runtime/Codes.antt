-- ===== src/Runtime/Codes.antt =====
-- `ErrorMap` of clar2wasm/src/error_mapping.rs.
use clarity_wasm.Prelude.{ℕ, ◌^◌, ◌-◌, ◌≡◌, refl, ◌==◌, if◌then◌else◌}

pub data ErrorMap : Type 0 where
  not_clarity_error arithmetic_overflow arithmetic_underflow division_by_zero : ErrorMap
  arithmetic_log2_error arithmetic_sqrti_error bad_type_construction panic : ErrorMap
  short_return_assertion_failure arithmetic_pow_error name_already_used : ErrorMap
  short_return_expected_value_response short_return_expected_value_optional : ErrorMap
  short_return_expected_value argument_count_mismatch argument_count_at_least : ErrorMap
  argument_count_at_most not_mapped : ErrorMap

-- `as i32`, as a bit pattern
unfoldable pub discriminant : ErrorMap → ℕ
discriminant not_clarity_error = 2 ^ 32 - 1
discriminant arithmetic_overflow = 0
discriminant arithmetic_underflow = 1
discriminant division_by_zero = 2
discriminant arithmetic_log2_error = 3
discriminant arithmetic_sqrti_error = 4
discriminant bad_type_construction = 5
discriminant panic = 6
discriminant short_return_assertion_failure = 7
discriminant arithmetic_pow_error = 8
discriminant name_already_used = 9
discriminant short_return_expected_value_response = 10
discriminant short_return_expected_value_optional = 11
discriminant short_return_expected_value = 12
discriminant argument_count_mismatch = 13
discriminant argument_count_at_least = 14
discriminant argument_count_at_most = 15
discriminant not_mapped = 99

-- `ErrorMap::from`, of an `i32`
unfoldable pub from_code : ℕ → ErrorMap
from_code code =
    if code == 2 ^ 32 - 1
    then not_clarity_error
    else if code == 0
    then arithmetic_overflow
    else if code == 1
    then arithmetic_underflow
    else if code == 2
    then division_by_zero
    else if code == 3
    then arithmetic_log2_error
    else if code == 4
    then arithmetic_sqrti_error
    else if code == 5
    then bad_type_construction
    else if code == 6
    then panic
    else if code == 7
    then short_return_assertion_failure
    else if code == 8
    then arithmetic_pow_error
    else if code == 9
    then name_already_used
    else if code == 10
    then short_return_expected_value_response
    else if code == 11
    then short_return_expected_value_optional
    else if code == 12
    then short_return_expected_value
    else if code == 13
    then argument_count_mismatch
    else if code == 14
    then argument_count_at_least
    else if code == 15
    then argument_count_at_most
    else not_mapped

-- The code of an error is read back as that error.
pub from_code-discriminant : (e : ErrorMap) → from_code (discriminant e) ≡ e
unfolding from_code discriminant
from_code-discriminant not_clarity_error = refl
from_code-discriminant arithmetic_overflow = refl
from_code-discriminant arithmetic_underflow = refl
from_code-discriminant division_by_zero = refl
from_code-discriminant arithmetic_log2_error = refl
from_code-discriminant arithmetic_sqrti_error = refl
from_code-discriminant bad_type_construction = refl
from_code-discriminant panic = refl
from_code-discriminant _ = refl
