-- ===== src/Generator/Tests.antt =====
-- The theorems on `write_to_memory` and `read_from_memory` at a response of an optional and a string.
use clarity_wasm.Prelude.{
  ℕ, ◌+◌, ◌≤◌, ◌≡◌, refl, true, List, [], ◌∷◌, ◌++◌, some, ok, arith, length, ◌<◌, ◌^◌, to_le_bytes,
}
use clarity_wasm.Clarity.{TypeSignature, int_type, ascii_type, optional_type, response_type}
use clarity_wasm.Layout.{i32, i64, is_in_memory_type}
use clarity_wasm.Wasm.Machine.{Val, Instr, LocalId, exec}
use clarity_wasm.Wasm.ByteMemory.{byte_memory}
use clarity_wasm.Generator.State.{GenState}
use clarity_wasm.Generator.MemoryAccess.{write_to_memory, read_from_memory}
use clarity_wasm.Generator.Represents.{
  Represents, of_int, of_optional, of_response, of_in_memory, byte_length,
}
use clarity_wasm.Generator.Scope.{InScope}
use clarity_wasm.Generator.Storing.{push_all, machine}
use clarity_wasm.Generator.Writing.Emit.{Emits}
use clarity_wasm.Generator.Writing.{write_to_memory-Emits}
use clarity_wasm.Generator.Reading.Load.{Loads}
use clarity_wasm.Generator.Reading.{read_from_memory-Loads}
use clarity_wasm.Generator.RoundTrip.{read_from_memory-write_to_memory}

-- `(response (optional int) (string-ascii 5))`
abbrev sample_type : TypeSignature
sample_type = response_type (optional_type int_type) (ascii_type 5)

abbrev sample_words : List Val
sample_words = (i32, 1) ∷ (i32, 1) ∷ (i64, 7) ∷ (i64, 0) ∷ (i32, 40) ∷ (i32, 5) ∷ []

-- One memory, the local 0 in use, and two locals given back.
abbrev sample_state : GenState
sample_state = record {
  memories = 0 ∷ [];
  initial_pages = 0;
  globals = [];
  functions = [];
  next_local = 3;
  pool_i32 = [];
  pool_i64 = 2 ∷ 1 ∷ [];
  segments = [];
  literal_memory_end = 1352;
  literal_memory_offset = [];
  frame_size = 0;
  max_work_space = 0;
}

ascii_in_memory : is_in_memory_type (ascii_type 5) ≡ some true
unfolding is_in_memory_type
ascii_in_memory = refl

sample-Represents : Represents sample_type sample_words
sample-Represents =
    of_response (omega arith) (of_optional (omega arith) (of_int (omega arith) (omega arith)))
      (of_in_memory ascii_in_memory (omega arith) (omega arith))

sample-InScope : InScope 0 sample_state
sample-InScope = record {
  memory = 0;
  others = [];
  memories = refl;
  declared = omega arith;
  pool = (omega arith, omega arith, (omega arith, tt), (omega arith, omega arith, tt, tt));
}

sample_room : 8 + byte_length sample_words < 2 ^ 32
unfolding to_le_bytes
sample_room = omega arith

write_to_memory-Emits_example :
    Emits byte_memory 0 8 sample_words
      (write_to_memory 0 8 sample_type)
      (byte_length sample_words)
      sample_state
write_to_memory-Emits_example =
    write_to_memory-Emits byte_memory 0 8 sample_state sample-Represents sample_room sample-InScope

read_from_memory-Loads_example :
    Loads byte_memory 0 8 sample_words
      (read_from_memory 0 8 sample_type)
      (byte_length sample_words)
      sample_state
read_from_memory-Loads_example =
    read_from_memory-Loads byte_memory 0 8 sample_state sample-Represents sample_room sample-InScope

read_from_memory-write_to_memory_example :
    (stores loads : List Instr) × (s' : GenState) × (write_to_memory 0 8 sample_type sample_state
      ≡ ok (byte_length sample_words, stores, s'))
    × (read_from_memory 0 8 sample_type s' ≡ ok (byte_length sample_words, loads, s'))
    × ((a : ℕ) (st : List Val) (f : LocalId → Val) (mem : List ℕ)
        → f 0 ≡ (i32, a)
        → a + 8 + byte_length sample_words ≤ length mem
        → (f' : LocalId → Val) × (mem' : List ℕ) × (exec byte_memory
              (stores ++ loads)
              (machine byte_memory (push_all sample_words st) f mem)
            ≡ some (machine byte_memory (push_all sample_words st) f' mem')))
read_from_memory-write_to_memory_example =
    read_from_memory-write_to_memory byte_memory 0 8 sample_state sample-Represents sample_room
      sample-InScope
