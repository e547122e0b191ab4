-- ===== src/Generator/Literals/Tests.antt =====
-- Tests of the literal memory, and its theorems on two names, a buffer and a UTF-8 string.
use clarity_wasm.Prelude.{
  ℕ, ◌+◌, ◌*◌, ◌≤◌, ◌<◌, ◌^◌, ◌≡◌, refl, true, List, [], ◌∷◌, some, ok, arith, length, add32,
}
use clarity_wasm.Clarity.{utf8, buffer, int_type}
use clarity_wasm.Layout.{get_type_size, get_type_in_memory_size}
use clarity_wasm.Wasm.ByteMemory.{byte_memory}
use clarity_wasm.Generator.State.{GenState, DataSegment, ascii_entry, get_memory}
use clarity_wasm.Generator.Literals.Text.{plain_text}
use clarity_wasm.Generator.Literals.Defs.{
  add_string_literal, add_literal, visit_literal_value, get_string_literal, set_memory_pages,
  flatten, to_be_bytes, is_ascii, entry_eq, bytes_eq, reserve_frame, call_stack_size,
  ensure_work_space,
}
use clarity_wasm.Generator.Literals.Values.{
  LiteralOf, of_buffer, of_utf8, Pushes, visit_literal_value-Pushes,
}
use clarity_wasm.Generator.Literals.Steps.{
  new_generator, Reach, start, then_step, string_literal, literal, stack_local, work_space, Ready,
  Reach-IsPlaced,
}
use clarity_wasm.Generator.Literals.Pages.{set_memory_pages-holds, bytes_in_use, list_at, Within}
use clarity_wasm.Generator.Literals.Lookup.{get_string_literal-add_string_literal}

abbrev fresh : GenState
fresh = new_generator (0 ∷ []) 1 [] []

abbrev counter : List ℕ
counter = 99 ∷ 111 ∷ 117 ∷ 110 ∷ 116 ∷ []

-- After the name, and then a buffer with the same bytes.
abbrev after_name : GenState
after_name = record fresh {
  segments = record { memory = 0; location = 1352; value = counter } ∷ [];
  literal_memory_end = 1357;
  literal_memory_offset = (ascii_entry counter, 1352) ∷ [];
}

after_name_memory : after_name.memories ≡ 0 ∷ []
unfolding new_generator
after_name_memory = refl

abbrev after_buffer : GenState
after_buffer = record after_name {
  segments =
      record { memory = 0; location = 1357; value = counter }
      ∷ record { memory = 0; location = 1352; value = counter }
      ∷ [];
  literal_memory_end = 1362;
}

name_run : add_string_literal counter fresh ≡ ok ((1352, 5), [], after_name)
unfolding add_string_literal new_generator get_memory add32
name_run = refl

-- The name a second time is the same place.
name_again : add_string_literal counter after_name ≡ ok ((1352, 5), [], after_name)
unfolding add_string_literal new_generator entry_eq bytes_eq
name_again = refl

buffer_run : add_literal plain_text (buffer counter) after_name ≡ ok ((1357, 5), [], after_buffer)
unfolding add_literal new_generator get_memory add32
buffer_run = refl

reached : Reach plain_text fresh after_buffer
unfolding new_generator
reached =
    then_step (then_step start (string_literal counter (omega arith) (omega arith) name_run))
      (literal (of_buffer {bs = counter}) (omega arith) buffer_run)

Reach-IsPlaced_example : Ready plain_text after_buffer
Reach-IsPlaced_example = Reach-IsPlaced plain_text 0 [] 1 [] [] reached

-- With an integer in the frame, and work space beyond a page.
abbrev in_frame : GenState
in_frame = record after_buffer { frame_size = 32 }

abbrev with_work_space : GenState
with_work_space = record in_frame { max_work_space = 70000 }

int_size : call_stack_size int_type true true ≡ some 32
unfolding call_stack_size get_type_size get_type_in_memory_size add32
int_size = refl

frame_run : reserve_frame 32 after_buffer ≡ ok (tt, [], in_frame)
unfolding reserve_frame new_generator add32
frame_run = refl

work_space_run : ensure_work_space 70000 in_frame ≡ ok (tt, [], with_work_space)
unfolding ensure_work_space new_generator
work_space_run = refl

reached_work_space : Reach plain_text fresh with_work_space
unfolding new_generator
reached_work_space =
    then_step (then_step reached (stack_local int_type true true int_size (omega arith) frame_run))
      (work_space 70000 work_space_run)

in_use : bytes_in_use with_work_space < 2 ^ 32
unfolding new_generator
in_use = omega arith

set_memory_pages-holds_example :
    (n : ℕ) × (set_memory_pages with_work_space
      ≡ ok (tt, [], record with_work_space { initial_pages = n }))
    × (bytes_in_use with_work_space ≤ n * 65536)
    × ((p : ℕ) → bytes_in_use with_work_space ≤ p * 65536 → n ≤ p)
    × ((i : ℕ) (d : DataSegment)
        → list_at with_work_space.segments i ≡ some d
        → Within d (n * 65536))
set_memory_pages-holds_example =
    set_memory_pages-holds plain_text 0 [] 1 [] [] reached_work_space in_use

after_buffer_memory : after_buffer.memories ≡ 0 ∷ []
unfolding new_generator
after_buffer_memory = refl

abbrev greeting : List (List ℕ)
greeting = (104 ∷ []) ∷ (105 ∷ []) ∷ []

greeting-LiteralOf : LiteralOf plain_text (utf8 greeting) (to_be_bytes (104 ∷ 105 ∷ []))
unfolding flatten
greeting-LiteralOf = of_utf8 refl refl

greeting_room : after_buffer.literal_memory_end + length (to_be_bytes (104 ∷ 105 ∷ [])) < 2 ^ 32
unfolding new_generator to_be_bytes
greeting_room = omega arith

visit_literal_value-Pushes_example :
    Pushes plain_text byte_memory after_buffer
      (utf8 greeting)
      (visit_literal_value plain_text (utf8 greeting) after_buffer)
visit_literal_value-Pushes_example =
    visit_literal_value-Pushes plain_text byte_memory after_buffer greeting-LiteralOf
      (0, [], after_buffer_memory) (Reach-IsPlaced plain_text 0 [] 1 [] [] reached).0 greeting_room

counter_ascii : is_ascii counter ≡ true
unfolding is_ascii
counter_ascii = refl

get_string_literal-add_string_literal_example :
    (r : ℕ × ℕ) × (s' : GenState) × (add_string_literal counter after_name ≡ ok (r, [], s'))
    × (get_string_literal counter s' ≡ some r)
get_string_literal-add_string_literal_example =
    get_string_literal-add_string_literal counter after_name (0, [], after_name_memory)
      counter_ascii
