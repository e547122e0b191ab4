-- ===== src/Generator/RoundTrip.antt =====
-- A value stored by the code of `write_to_memory` and loaded by that of `read_from_memory`, both of
-- clar2wasm/src/wasm_generator.rs.
use clarity_wasm.Prelude.{ℕ, ◌+◌, ◌≤◌, ◌<◌, ◌^◌, ◌≡◌, List, some, ok, ◌++◌}
use clarity_wasm.Clarity.{TypeSignature}
use clarity_wasm.Layout.{i32}
use clarity_wasm.Wasm.Memory.{LinearMemory}
use clarity_wasm.Wasm.Machine.{Val, Instr, LocalId, exec, exec-append}
use clarity_wasm.Generator.State.{GenState}
use clarity_wasm.Generator.MemoryAccess.{write_to_memory, read_from_memory}
use clarity_wasm.Generator.Represents.{Represents, byte_length}
use clarity_wasm.Generator.Scope.{InScope}
use clarity_wasm.Generator.Storing.{push_all, machine}
use clarity_wasm.Generator.Writing.{write_to_memory-Emits}
use clarity_wasm.Generator.Reading.{read_from_memory-Loads}

module _ (W : LinearMemory) where
  -- For every value type and every representation of a value of it: the two functions succeed, both
  -- report its number of bytes, and the code of the first followed by that of the second, run with
  -- the representation on top of the stack and the address of enough memory in the local, ends with
  -- the same stack.
  pub read_from_memory-write_to_memory :
      {t : TypeSignature} {vs : List Val} (base off : ℕ) (s : GenState)
      → Represents t vs
      → off + byte_length vs < 2 ^ 32
      → InScope base s
      → (stores loads : List Instr) × (s' : GenState) × (write_to_memory base off t s
          ≡ ok (byte_length vs, stores, s'))
        × (read_from_memory base off t s' ≡ ok (byte_length vs, loads, s'))
        × ((a : ℕ) (st : List Val) (f : LocalId → Val) (mem : W.Memory)
            → f base ≡ (i32, a)
            → a + off + byte_length vs ≤ W.size mem
            → (f' : LocalId → Val) × (mem' : W.Memory) × (exec W
                  (stores ++ loads)
                  (machine W (push_all vs st) f mem)
                ≡ some (machine W (push_all vs st) f' mem')))
  read_from_memory-write_to_memory base off s r room h =
      let u = write_to_memory-Emits W base off s r room h in
      let l = read_from_memory-Loads W base off u.state r room u.scope in
      (
        u.code,
        l.code,
        u.state,
        u.run,
        l.run,
        λ a st f mem e fits.
            let w = u.stores a st f mem e fits in
            (
              w.locals,
              w.memory,
              rw (exec-append W u.code l.code, w.run)
                  (l.loads a st w.locals w.memory w.kept w.written.here),
            ),
      )
