-- ===== src/Generator/Reading/Parts.antt =====
-- The steps of `read_from_memory` of clar2wasm/src/wasm_generator.rs for the types made of others.
use native.Mathlib.Nat.{add_assoc}
use clarity_wasm.Prelude.{
  ℕ, ◌+◌, ◌<◌, ◌^◌, ◌≡◌, refl, ◌∙◌, true, List, [], ◌∷◌, ◌++◌, some, arith, add32, add32-eq-add,
  to_le_bytes,
}
use clarity_wasm.Clarity.{
  TypeSignature, no_type, int_type, uint_type, bool_type, optional_type, response_type, tuple_type,
  list_union_type,
}
use clarity_wasm.Layout.{i32, is_in_memory_type}
use clarity_wasm.Wasm.Memory.{LinearMemory}
use clarity_wasm.Wasm.Machine.{Val, local_get, i32_const, load, exec, step}
use clarity_wasm.Generator.State.{GenState, Gen, pure, ◌>>=◌, ◌>>◌, emit, get_memory}
use clarity_wasm.Generator.MemoryAccess.{load_pair, read_from_memory}
use clarity_wasm.Generator.Represents.{byte_length, byte_length-append}
use clarity_wasm.Generator.Scope.{InScope}
use clarity_wasm.Generator.Reading.Load.{
  AlwaysLoads, Loads, Loads-then, Loads-pure, Loads-memory, load-Loads,
}

module _ (W : LinearMemory) where
  pub in_memory-read_from_memory :
      (base off : ℕ) (t : TypeSignature)
      → is_in_memory_type t ≡ some true
      → read_from_memory base off t ≡ (do memory ← get_memory; load_pair base off i32 4 memory)
  unfolding read_from_memory is_in_memory_type
  in_memory-read_from_memory base off no_type e = absurd (cc)
  in_memory-read_from_memory base off int_type e = absurd (cc)
  in_memory-read_from_memory base off uint_type e = absurd (cc)
  in_memory-read_from_memory base off bool_type e = absurd (cc)
  in_memory-read_from_memory base off (optional_type t) e = absurd (cc)
  in_memory-read_from_memory base off (response_type t u) e = absurd (cc)
  in_memory-read_from_memory base off (tuple_type m) e = absurd (cc)
  in_memory-read_from_memory base off list_union_type e = absurd (cc)
  in_memory-read_from_memory base off _ e = refl

  pub placeholder-loads : (base off : ℕ) → AlwaysLoads W base off ((i32, 0) ∷ []) (i32_const 0 ∷ [])
  unfolding exec step
  placeholder-loads base off a st f mem e h = refl

  module _ (base off v : ℕ) where
    pub optional_step :
        (vs : List Val) (g : ℕ → Gen ℕ) (s : GenState)
        → v < 2 ^ 32
        → off + (4 + byte_length vs) < 2 ^ 32
        → InScope base s
        → Loads W base (off + 4) vs (g (off + 4)) (byte_length vs) s
        → Loads W base off
            ((i32, v) ∷ vs)
            (do
              memory ← get_memory
              emit (local_get base ∷ load i32 memory 4 off ∷ [])
              n ← g (add32 off 4)
              pure (add32 4 n))
            (byte_length ((i32, v) ∷ vs))
            s
    unfolding to_le_bytes
    optional_step vs g s fits room h u =
        let n : add32 4 (byte_length vs) ≡ byte_length ((i32, v) ∷ vs) =
          add32-eq-add 4 (byte_length vs) (omega arith) ∙ omega arith in
        let e : add32 off 4 ≡ off + 4 = add32-eq-add off 4 (omega arith) in
        rw (← n) (
          Loads-memory W base off ((i32, v) ∷ vs) _ h (
            Loads-then W base off ((i32, v) ∷ []) vs
              (emit (local_get base ∷ load i32 h.memory 4 off ∷ []))
              (λ _. do n ← g (add32 off 4); pure (add32 4 n))
              (load-Loads W base off h.memory 4 i32 v s fits)
              (rw e (Loads-pure W base (off + 4) vs (g (off + 4)) (λ n. add32 4 n) u))))

    pub response_step :
        (vs ws : List Val) (g k : ℕ → Gen ℕ) (s : GenState)
        → v < 2 ^ 32
        → off + (4 + byte_length vs + byte_length ws) < 2 ^ 32
        → InScope base s
        → Loads W base (off + 4) vs (g (off + 4)) (byte_length vs) s
        → Loads W base
            (off + 4 + byte_length vs)
            ws
            (k (off + 4 + byte_length vs))
            (byte_length ws)
            s
        → Loads W base off
            ((i32, v) ∷ (vs ++ ws))
            (do
              memory ← get_memory
              emit (local_get base ∷ load i32 memory 4 off ∷ [])
              n ← g (add32 off 4)
              let adjust = add32 4 n
              m ← k (add32 off adjust)
              pure (add32 adjust m))
            (byte_length ((i32, v) ∷ (vs ++ ws)))
            s
    unfolding to_le_bytes
    response_step vs ws g k s fits room h u w =
        let d : add32 4 (byte_length vs) ≡ 4 + byte_length vs =
          add32-eq-add 4 (byte_length vs) (omega arith) in
        let n : add32 (add32 4 (byte_length vs)) (byte_length ws)
            ≡ byte_length ((i32, v) ∷ (vs ++ ws)) =
          rw d (
            add32-eq-add (4 + byte_length vs) (byte_length ws) (omega arith)
            ∙ omega (arith, byte_length-append vs ws)) in
        let e : add32 off 4 ≡ off + 4 = add32-eq-add off 4 (omega arith) in
        let p : add32 off (add32 4 (byte_length vs)) ≡ off + 4 + byte_length vs =
          rw d (add32-eq-add off (4 + byte_length vs) (omega arith) ∙ omega arith) in
        rw (← n) (
          Loads-memory W base off ((i32, v) ∷ (vs ++ ws)) _ h (
            Loads-then W base off ((i32, v) ∷ []) (vs ++ ws)
              (emit (local_get base ∷ load i32 h.memory 4 off ∷ []))
              (λ _. do
                n ← g (add32 off 4)
                m ← k (add32 off (add32 4 n))
                pure (add32 (add32 4 n) m))
              (load-Loads W base off h.memory 4 i32 v s fits)
              (rw e (
                Loads-then W base (off + 4) vs ws (g (off + 4))
                  (λ n. do m ← k (add32 off (add32 4 n)); pure (add32 (add32 4 n) m)) u
                  (rw p (
                    Loads-pure W base (off + 4 + byte_length vs) ws (k (off + 4 + byte_length vs))
                      (λ m. add32 (add32 4 (byte_length vs)) m) w))))))

  pub AlwaysLoads-nil : (base off : ℕ) → AlwaysLoads W base off [] []
  unfolding exec
  AlwaysLoads-nil base off a st f mem e h = refl

  pub field_step :
      (base off adjust : ℕ) (vs ws : List Val) (g k : ℕ → Gen ℕ) (s : GenState)
      → off + adjust + (byte_length vs + byte_length ws) < 2 ^ 32
      → Loads W base (off + adjust) vs (g (off + adjust)) (byte_length vs) s
      → Loads W base
          (off + (adjust + byte_length vs))
          ws
          (k (adjust + byte_length vs))
          (adjust + byte_length vs + byte_length ws)
          s
      → Loads W base
          (off + adjust)
          (vs ++ ws)
          (do n ← g (add32 off adjust); k (add32 adjust n))
          (adjust + byte_length (vs ++ ws))
          s
  field_step base off adjust vs ws g k s room u w =
      let e : adjust + byte_length vs + byte_length ws ≡ adjust + byte_length (vs ++ ws) =
        omega (arith, byte_length-append vs ws) in
      rw (add32-eq-add off adjust (omega arith), ← e)
        (Loads-then W base (off + adjust) vs ws (g (off + adjust)) (λ n. k (add32 adjust n)) u
          (rw
            (
              add32-eq-add adjust (byte_length vs) (omega arith),
              add_assoc off adjust (byte_length vs),
            )
            w))
