-- ===== src/Generator/Writing.antt =====
-- `write_to_memory` of clar2wasm/src/wasm_generator.rs: the code that it emits for a value's
-- representation stores that representation.
pub mod Emit
mod Parts
use mathlib.Core.List.{append-nil}
use native.Mathlib.Nat.{add-zero, add_assoc}
use clarity_wasm.Prelude.{
  ℕ, suc, ◌+◌, ◌<◌, ◌^◌, ◌≡◌, refl, sym, ◌∙◌, subst, true, List, [], ◌∷◌, ◌++◌, some, Option, ok,
  arith, add32, add32-eq-add, to_le_bytes,
}
use clarity_wasm.Clarity.{
  TypeSignature, TypeMap, no_type, int_type, uint_type, bool_type, optional_type, response_type,
  tuple_type, list_union_type,
}
use clarity_wasm.Layout.{i32, i64, get_type_size, is_in_memory_type}
use clarity_wasm.Wasm.Memory.{LinearMemory}
use clarity_wasm.Wasm.Machine.{Val, Instr, LocalId}
use clarity_wasm.Generator.State.{
  GenState, Gen, pure, ◌>>=◌, ◌>>◌, or_panic, get_memory, add_local, release_local,
}
use clarity_wasm.Generator.MemoryAccess.{
  write_int, write_offset_length, write_bool, write_variant, write_placeholder, write_to_memory,
  write_fields_to_memory,
}
use clarity_wasm.Generator.Represents.{
  Represents, of_no_type, of_int, of_uint, of_bool, of_optional, of_response, of_tuple,
  of_in_memory, RepresentsFields, of_end, of_field, byte_length, byte_length-append,
  get_type_size-eq-byte_length,
}
use clarity_wasm.Generator.Scope.{
  InScope, get_memory_lem, bind_ok, with_local, with_local-InScope, borrow_local-Borrows,
  with_released, with_released-InScope,
}
use clarity_wasm.Generator.Storing.{
  AlwaysStores, AlwaysStores-append, AlwaysStores-one, AlwaysStores-pair, AlwaysStores-no_type,
  AlwaysStores-nil,
}
use clarity_wasm.Generator.Writing.Emit.{
  Emits, write_int-Emits, write_offset_length-Emits, write_bool-Emits, Emits-memory, AlwaysEmits,
  write_placeholder-Emits,
}
use clarity_wasm.Generator.Writing.Parts.{
  in_memory-write_to_memory, optional-AlwaysEmits, response-AlwaysEmits, field-AlwaysEmits,
}

module _ (W : LinearMemory) where
  mutual
    unfolding write_to_memory to_le_bytes

    emits :
        {t : TypeSignature} {vs : List Val} (base off : ℕ)
        → Represents t vs
        → off + byte_length vs < 2 ^ 32
        → AlwaysEmits W base off vs (write_to_memory base off t)
    emits base off of_no_type room s h =
        Emits-memory W base off _ _ h (write_placeholder-Emits W base off h.memory s h)
    emits base off (of_int {lo} {hi} a b) room s h =
        Emits-memory W base off _ _ h (write_int-Emits W base off h.memory lo hi s h room)
    emits base off (of_uint {lo} {hi} a b) room s h =
        Emits-memory W base off _ _ h (write_int-Emits W base off h.memory lo hi s h room)
    emits base off (of_bool {b} a) room s h =
        Emits-memory W base off _ _ h (write_bool-Emits W base off h.memory b s h)
    emits base off (of_optional {t} {v} {vs} a r) room s h =
        optional-AlwaysEmits W base off v vs (λ o. write_to_memory base o t) (omega arith)
          (emits base (off + 4) r (omega arith)) s h
    emits base off (of_response {t} {u} {v} {vs} {ws} a r q) room s h =
        let l : byte_length (vs ++ ws) ≡ byte_length vs + byte_length ws =
          byte_length-append vs ws in
        response-AlwaysEmits W base off v vs ws (get_type_size t) (λ o. write_to_memory base o t)
          (λ o. write_to_memory base o u) (get_type_size-eq-byte_length r (omega arith))
          (omega arith) (emits base (off + byte_length ((i32, v) ∷ vs)) q (omega arith))
          (emits base (off + 4) r (omega arith)) s h
    emits base off (of_tuple {m} {vs} r) room s h =
        Emits-memory W base off vs (λ _. write_fields_to_memory base off 0 m) h
          (subst (λ o. Emits W base o vs (write_fields_to_memory base off 0 m) (byte_length vs) s)
            (add-zero off) (emits_fields base off 0 r (omega arith) s h))
    emits base off (of_in_memory {t} {offset} {len} e a b) room s h =
        rw (in_memory-write_to_memory W base off t e) (
          Emits-memory W base off _ _ h
            (write_offset_length-Emits W base off h.memory offset len s h room))

    emits_fields :
        {m : TypeMap} {vs : List Val} (base off delta : ℕ)
        → RepresentsFields m vs
        → off + delta + byte_length vs < 2 ^ 32
        → AlwaysEmits W base (off + delta) vs (write_fields_to_memory base off delta m)
    emits_fields base off delta of_end room s h = record {
      code = [];
      state = s;
      run = refl;
      scope = h;
      stores = AlwaysStores-nil W base (off + delta);
    }
    emits_fields base off delta (of_field {k} {t} {m} {vs} {ws} r q) room s h =
        let l : byte_length (vs ++ ws) ≡ byte_length vs + byte_length ws =
          byte_length-append vs ws in
        field-AlwaysEmits W base off delta vs ws (get_type_size t) (λ o. write_to_memory base o t)
          (λ d. write_fields_to_memory base off d m) (get_type_size-eq-byte_length r (omega arith))
          (omega arith)
          (subst
            (λ o.
              AlwaysEmits W base o ws (write_fields_to_memory base off (delta + byte_length vs) m))
            (sym (add_assoc off delta (byte_length vs)))
            (emits_fields base off (delta + byte_length vs) q (omega arith)))
          (emits base (off + delta) r (omega arith)) s h

  -- For a value's words on top of the stack, `write_to_memory` succeeds with the number of their
  -- bytes and keeps the locals in use. Its code takes the words off the stack and stores their
  -- bytes at the local's address plus the constant offset, wherever they fit, and changes no other
  -- byte of memory.
  pub write_to_memory-Emits :
      {t : TypeSignature} {vs : List Val} (base off : ℕ) (s : GenState)
      → Represents t vs
      → off + byte_length vs < 2 ^ 32
      → InScope base s
      → Emits W base off vs (write_to_memory base off t) (byte_length vs) s
  write_to_memory-Emits base off s r room h = emits base off r room s h
