-- ===== src/Runtime/Tests.antt =====
-- Wrong argument counts at a function of two arguments that is called with one, and with three.
use Prim.Native.String.{String}
use clarity_wasm.Prelude.{
  ℕ, ◌+◌, ◌<◌, ◌^◌, ◌≡◌, refl, true, false, List, [], ◌∷◌, Option, Result, ok, err, arith,
}
use clarity_wasm.Clarity.{TypeSignature}
use clarity_wasm.Wasm.Machine.{Instr}
use clarity_wasm.Wasm.Instance.{Instance, Outcome, runtime_error}
use clarity_wasm.Wasm.ByteMemory.{byte_memory}
use clarity_wasm.Generator.State.{GenState}
use clarity_wasm.Generator.Literals.Defs.{find_literal}
use clarity_wasm.Generator.Literals.Text.{plain_text}
use clarity_wasm.Generator.Literals.Steps.{new_generator, Ready, start, Reach-IsPlaced}
use clarity_wasm.Host.Errors.{Error, panic}
use clarity_wasm.Host.Library.{accepting}
use clarity_wasm.Runtime.Raise.{exact, mismatch, check_args, find_named}
use clarity_wasm.Runtime.Codes.{
  argument_count_at_most, from_code, discriminant, from_code-discriminant,
}
use clarity_wasm.Runtime.Link.{Linked}
use clarity_wasm.Runtime.Reports.{Reports}
use clarity_wasm.Runtime.Counts.{IsNew, check_args-Reports, check_args-Reports_stale}

abbrev names : List (String × ℕ)
names =
    ("runtime-error-arg-offset", 1) ∷ ("runtime-error-arg-len", 2) ∷ ("runtime-error-code", 0) ∷ []

abbrev functions : List (String × ℕ)
functions = ("stdlib.runtime-error", 7) ∷ []

abbrev fresh : GenState
fresh = new_generator (0 ∷ []) 1 names functions

exported : String → Option ℕ
unfolding find_named
exported name = find_named name names

calls : ℕ → Instance byte_memory → Outcome byte_memory
calls f i = runtime_error byte_memory 0 i

abbrev no_types : List ℕ → Result Error TypeSignature
no_types text = err panic

fresh-Linked : Linked byte_memory fresh exported calls
unfolding exported calls new_generator find_named
fresh-Linked = record {
  offset_global = 1;
  len_global = 2;
  code_global = 0;
  raiser = 7;
  found_offset = refl;
  found_len = refl;
  found_raiser = refl;
  exported_offset = refl;
  exported_len = refl;
  exported_code = refl;
  offset_ne_len = λ e. omega arith;
  code_ne_offset = λ e. omega arith;
  code_ne_len = λ e. omega arith;
  raises = λ i. refl;
}

fresh-Ready : Ready plain_text fresh
fresh-Ready = Reach-IsPlaced plain_text 0 [] 1 names functions start

room : fresh.literal_memory_end + 16 < 2 ^ 31
unfolding new_generator
room = omega arith

two-IsNew : IsNew fresh 2
unfolding new_generator find_literal
two-IsNew = refl

one-IsNew : IsNew fresh 1
unfolding new_generator find_literal
one-IsNew = refl

two_one : mismatch exact 2 1 ≡ true
unfolding mismatch
two_one = refl

two_three : mismatch exact 2 3 ≡ true
unfolding mismatch
two_three = refl

check_args-Reports_example :
    Reports plain_text byte_memory accepting no_types exported calls fresh exact 2 1 1
check_args-Reports_example =
    check_args-Reports plain_text byte_memory accepting no_types exported calls fresh exact 2 1
      fresh-Ready fresh-Linked (omega (arith, room)) (omega arith) (omega arith) two_one two-IsNew
      one-IsNew

-- The second call, with three arguments, is reported as one with one.
check_args-Reports_stale_example :
    (code : List Instr) × (s' : GenState) × (check_args 2 1 exact fresh ≡ (ok false, code, s'))
    × Reports plain_text byte_memory accepting no_types exported calls s' exact 2 3 1
check_args-Reports_stale_example =
    check_args-Reports_stale plain_text byte_memory accepting no_types exported calls fresh exact
      exact 2 1 3 fresh-Ready fresh-Linked room (omega arith) (omega arith) (omega arith) two_one
      two_three two-IsNew one-IsNew

from_code-discriminant_example :
    from_code (discriminant argument_count_at_most) ≡ argument_count_at_most
from_code-discriminant_example = from_code-discriminant argument_count_at_most
