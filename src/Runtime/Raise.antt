-- ===== src/Runtime/Raise.antt =====
-- `get_global` and `func_by_name` of clar2wasm/src/wasm_generator.rs, and `check_argument_count` and
-- `check_args!` of clar2wasm/src/wasm_utils.rs. An error keeps the code and the state: the macro
-- goes on after it.
use Prim.Native.String.{String}
use text.Mathlib.Text.{◌==◌ as str_eq}
use clarity_wasm.Prelude.{
  ℕ, ◌%◌, ◌^◌, Bool, true, false, List, [], ◌∷◌, ◌++◌, Option, none, some, Result, ok, err, ltb,
  ◌==◌, if◌then◌else◌, add32, to_le_bytes,
}
use clarity_wasm.Wasm.Machine.{Instr, i32_const, global_set, call, unreachable}
use clarity_wasm.Generator.State.{
  GenState, Gen, GeneratorError, internal_error, argument_count_mismatch, panic,
}
use clarity_wasm.Generator.Literals.Defs.{add_bytes_literal}
use clarity_wasm.Runtime.Codes.{ErrorMap, discriminant}

-- A method whose errors keep what was emitted and changed before them.
abbrev pub Effect {ℓ} : Type ℓ → Type ℓ
Effect A = GenState → Result GeneratorError A × List Instr × GenState

-- What follows, after code that is emitted already.
abbrev pub after_code {ℓ} :
    {B : Type ℓ}
    → List Instr
    → Result GeneratorError B × List Instr × GenState
    → Result GeneratorError B × List Instr × GenState
after_code code (r, more, s) = (r, code ++ more, s)

abbrev pub continue {ℓ κ} :
    {A : Type ℓ} {B : Type κ}
    → (A → Effect B)
    → Result GeneratorError A × List Instr × GenState
    → Result GeneratorError B × List Instr × GenState
continue f (err e, code, s) = (err e, code, s)
continue f (ok a, code, s) = after_code code (f a s)

infixl 5 ◌>>=◌ ◌>>◌
abbrev pub ◌>>=◌ {ℓ κ} : {A : Type ℓ} {B : Type κ} → Effect A → (A → Effect B) → Effect B
◌>>=◌ m f s = continue f (m s)

abbrev pub ◌>>◌ {ℓ κ} : {A : Type ℓ} {B : Type κ} → Effect A → Effect B → Effect B
m >> k = m >>= λ _. k

abbrev pub emit : List Instr → Effect (Unit {0})
emit code s = (ok tt, code, s)

abbrev pub fail {ℓ} : {A : Type ℓ} → GeneratorError → Effect A
fail e s = (err e, [], s)

-- A method that changes nothing before its error.
abbrev pub keep_result {ℓ} :
    {A : Type ℓ}
    → GenState
    → Result GeneratorError (A × List Instr × GenState)
    → Result GeneratorError A × List Instr × GenState
keep_result s (ok (a, code, s')) = (ok a, code, s')
keep_result s (err e) = (err e, [], s)

abbrev pub keep {ℓ} : {A : Type ℓ} → Gen A → Effect A
keep m s = keep_result s (m s)

unfoldable pub find_named : String → List (String × ℕ) → Option ℕ
find_named name [] = none
find_named name ((other, id) ∷ rest) = if str_eq name other then some id else find_named name rest

unfoldable pub or_fail : Option ℕ → GeneratorError → Effect ℕ
or_fail none e s = (err e, [], s)
or_fail (some id) e s = (ok id, [], s)

unfoldable pub get_global : String → Effect ℕ
unfolding or_fail
get_global name s = or_fail (find_named name s.globals) internal_error s

unfoldable pub func_by_name : String → Effect ℕ
unfolding or_fail
func_by_name name s = or_fail (find_named name s.functions) panic s

pub data ArgumentCountCheck : Type 0 where
  exact at_least at_most : ArgumentCountCheck

-- The code that sets the two globals of an argument and calls `stdlib.runtime-error`.
unfoldable pub raise_argument : ℕ → ℕ → ErrorMap → Effect (Unit {0})
unfolding get_global func_by_name
raise_argument offset len e = do
  emit (i32_const offset ∷ [])
  g ← get_global "runtime-error-arg-offset"
  emit (global_set g ∷ i32_const len ∷ [])
  h ← get_global "runtime-error-arg-len"
  emit (global_set h ∷ i32_const (discriminant e) ∷ [])
  f ← func_by_name "stdlib.runtime-error"
  emit (call f ∷ [])

unfoldable pub handle_mismatch : ℕ → ℕ → ErrorMap → Effect (Unit {0})
handle_mismatch expected actual e = do
  (start, len_expected) ← keep (add_bytes_literal (to_le_bytes 4 expected))
  (_, len_got) ← keep (add_bytes_literal (to_le_bytes 4 actual))
  raise_argument start (add32 len_expected len_got) e

-- The test of each kind, and the error that it raises.
unfoldable pub mismatch : ArgumentCountCheck → ℕ → ℕ → Bool
mismatch exact expected actual = if expected == actual then false else true
mismatch at_least expected actual = ltb actual expected
mismatch at_most expected actual = ltb expected actual

unfoldable pub mismatch_error : ArgumentCountCheck → ErrorMap
mismatch_error exact = ErrorMap.argument_count_mismatch
mismatch_error at_least = ErrorMap.argument_count_at_least
mismatch_error at_most = ErrorMap.argument_count_at_most

check_u32 : ℕ → ℕ → ArgumentCountCheck → Effect (Unit {0})
unfolding handle_mismatch mismatch mismatch_error
check_u32 expected actual check =
    if mismatch check expected actual
    then (do handle_mismatch expected actual (mismatch_error check); fail argument_count_mismatch)
    else emit []

unfoldable pub check_argument_count : ℕ → ℕ → ArgumentCountCheck → Effect (Unit {0})
unfolding check_u32
check_argument_count expected actual check = check_u32 (expected % 2 ^ 32) (actual % 2 ^ 32) check

-- A panic is no result, and ends the compiler.
unfoldable pub goes_on :
    Result GeneratorError (Unit {0}) × List Instr × GenState
    → Result GeneratorError Bool × List Instr × GenState
goes_on (ok _, code, s) = (ok true, code, s)
goes_on (err panic, code, s) = (err panic, code, s)
goes_on (err _, code, s) = (ok false, code ++ unreachable ∷ [], s)

-- `check_args!`: whether the traversal goes on; otherwise it returns after `unreachable`.
unfoldable pub check_args : ℕ → ℕ → ArgumentCountCheck → Effect Bool
unfolding check_argument_count goes_on
check_args expected actual check s = goes_on (check_argument_count expected actual check s)
