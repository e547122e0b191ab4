-- ===== src/Generator/Reading.antt =====
-- `read_from_memory` of clar2wasm/src/wasm_generator.rs: the code that it emits loads the
-- representation that stands in memory.
pub mod Load
mod Parts
use mathlib.Core.List.{append-nil}
use native.Mathlib.Nat.{add-zero, zero-add, add_assoc}
use clarity_wasm.Prelude.{
  ℕ, ◌+◌, ◌<◌, ◌^◌, ◌≡◌, refl, sym, ◌∙◌, subst, true, List, [], ◌∷◌, ◌++◌, some, ok, arith, add32,
  add32-eq-add, to_le_bytes, from_le_bytes, length-to_le_bytes, from_le_bytes-to_le_bytes_i32,
  from_le_bytes-to_le_bytes_i64,
}
use clarity_wasm.Clarity.{
  TypeSignature, TypeMap, no_type, int_type, uint_type, bool_type, optional_type, response_type,
  tuple_type, list_union_type,
}
use clarity_wasm.Layout.{ValType, i32, i64, is_in_memory_type}
use clarity_wasm.Wasm.Memory.{LinearMemory}
use clarity_wasm.Wasm.Written.{read-split}
use clarity_wasm.Wasm.Machine.{
  Val, Instr, LocalId, local_get, i32_const, load, byte_count, exec, step, exec-append,
}
use clarity_wasm.Generator.State.{GenState, Gen, pure, ◌>>=◌, ◌>>◌, emit, get_memory}
use clarity_wasm.Generator.MemoryAccess.{load_pair, read_from_memory, read_fields_from_memory}
use clarity_wasm.Generator.Represents.{
  Represents, of_no_type, of_int, of_uint, of_bool, of_optional, of_response, of_tuple,
  of_in_memory, RepresentsFields, of_end, of_field, bytes_of, bytes_of-append, byte_length,
  byte_length-append,
}
use clarity_wasm.Generator.Scope.{InScope, get_memory_lem, bind_ok}
use clarity_wasm.Generator.Storing.{push_all, push_all-append, machine}
use clarity_wasm.Generator.Reading.Load.{
  Loads, Loads-pure, Loads-memory, load-Loads, load_pair-Loads,
}
use clarity_wasm.Generator.Reading.Parts.{
  in_memory-read_from_memory, placeholder-loads, optional_step, response_step, AlwaysLoads-nil,
  field_step,
}

module _ (W : LinearMemory) where
  mutual
    unfolding read_from_memory to_le_bytes

    loads :
        {t : TypeSignature} {vs : List Val} (base off : ℕ) (s : GenState)
        → Represents t vs
        → off + byte_length vs < 2 ^ 32
        → InScope base s
        → Loads W base off vs (read_from_memory base off t) (byte_length vs) s
    loads base off s of_no_type room h =
        Loads-memory W base off ((i32, 0) ∷ []) (λ memory. emit (i32_const 0 ∷ []) >> pure 4) h
          (record { code = _; run = refl; loads = placeholder-loads W base off })
    loads base off s (of_int {lo} {hi} a b) room h =
        Loads-memory W base off _ _ h
          (load_pair-Loads W base off h.memory i64 lo hi s a b (omega arith))
    loads base off s (of_uint {lo} {hi} a b) room h =
        Loads-memory W base off _ _ h
          (load_pair-Loads W base off h.memory i64 lo hi s a b (omega arith))
    loads base off s (of_bool {b} a) room h =
        Loads-memory W base off ((i32, b) ∷ [])
          (λ memory. emit (local_get base ∷ load i32 memory 4 off ∷ []) >> pure 4) h
          (Loads-pure W base off ((i32, b) ∷ [])
            (emit (local_get base ∷ load i32 h.memory 4 off ∷ [])) (λ _. 4)
            (load-Loads W base off h.memory 4 i32 b s a))
    loads base off s (of_optional {t} {v} {vs} a r) room h =
        optional_step W base off v vs (λ o. read_from_memory base o t) s a (omega arith) h
          (loads base (off + 4) s r (omega arith) h)
    loads base off s (of_response {t} {u} {v} {vs} {ws} a r q) room h =
        let l : byte_length (vs ++ ws) ≡ byte_length vs + byte_length ws =
          byte_length-append vs ws in
        response_step W base off v vs ws (λ o. read_from_memory base o t)
          (λ o. read_from_memory base o u) s a (omega arith) h
          (loads base (off + 4) s r (omega arith) h)
          (loads base (off + 4 + byte_length vs) s q (omega arith) h)
    loads base off s (of_tuple {m} {vs} r) room h =
        Loads-memory W base off vs (λ _. read_fields_from_memory base off 0 m) h
          (subst (λ o. Loads W base o vs (read_fields_from_memory base off 0 m) (byte_length vs) s)
            (add-zero off)
            (subst (λ n. Loads W base (off + 0) vs (read_fields_from_memory base off 0 m) n s)
              (zero-add (byte_length vs)) (loads_fields base off 0 s r (omega arith) h)))
    loads base off s (of_in_memory {t} {offset} {len} e a b) room h =
        rw (in_memory-read_from_memory W base off t e) (
          Loads-memory W base off _ _ h
            (load_pair-Loads W base off h.memory i32 offset len s a b (omega arith)))

    loads_fields :
        {m : TypeMap} {vs : List Val} (base off adjust : ℕ) (s : GenState)
        → RepresentsFields m vs
        → off + adjust + byte_length vs < 2 ^ 32
        → InScope base s
        → Loads W base
            (off + adjust)
            vs
            (read_fields_from_memory base off adjust m)
            (adjust + byte_length vs)
            s
    loads_fields base off adjust s of_end room h =
        subst (λ n. Loads W base (off + adjust) [] (pure adjust) n s) (sym (add-zero adjust))
          (record { code = []; run = refl; loads = AlwaysLoads-nil W base (off + adjust) })
    loads_fields base off adjust s (of_field {k} {t} {m} {vs} {ws} r q) room h =
        let l : byte_length (vs ++ ws) ≡ byte_length vs + byte_length ws =
          byte_length-append vs ws in
        field_step W base off adjust vs ws (λ o. read_from_memory base o t)
          (λ d. read_fields_from_memory base off d m) s (omega arith)
          (loads base (off + adjust) s r (omega arith) h)
          (loads_fields base off (adjust + byte_length vs) s q (omega arith) h)

  -- For a value's words, `read_from_memory` succeeds with the number of their bytes and leaves the
  -- generator's state alone. Where the bytes of the words stand at the local's address plus the
  -- constant offset, its code pushes exactly the words, and changes neither locals nor memory.
  pub read_from_memory-Loads :
      {t : TypeSignature} {vs : List Val} (base off : ℕ) (s : GenState)
      → Represents t vs
      → off + byte_length vs < 2 ^ 32
      → InScope base s
      → Loads W base off vs (read_from_memory base off t) (byte_length vs) s
  read_from_memory-Loads base off s r room h = loads base off s r room h
