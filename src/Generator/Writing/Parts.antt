-- ===== src/Generator/Writing/Parts.antt =====
-- The steps of `write_to_memory` of clar2wasm/src/wasm_generator.rs for the types made of others.
use clarity_wasm.Prelude.{
  ℕ, ◌+◌, ◌<◌, ◌^◌, ◌≡◌, refl, sym, ◌∙◌, subst, true, List, [], ◌∷◌, ◌++◌, some, Option, arith,
  add32, add32-eq-add, to_le_bytes,
}
use clarity_wasm.Clarity.{
  TypeSignature, no_type, int_type, uint_type, bool_type, optional_type, response_type, tuple_type,
  list_union_type,
}
use clarity_wasm.Layout.{i32, is_in_memory_type}
use clarity_wasm.Wasm.Memory.{LinearMemory}
use clarity_wasm.Wasm.Machine.{Val}
use clarity_wasm.Generator.State.{Gen, pure, ◌>>=◌, ◌>>◌, or_panic, get_memory}
use clarity_wasm.Generator.MemoryAccess.{write_offset_length, write_variant, write_to_memory}
use clarity_wasm.Generator.Represents.{byte_length, byte_length-append}
use clarity_wasm.Generator.Writing.Emit.{
  Emits, write_variant-Emits, Emits-then, Emits-pure, Emits-memory, Emits-size, AlwaysEmits,
}

module _ (W : LinearMemory) where
  pub in_memory-write_to_memory :
      (base off : ℕ) (t : TypeSignature)
      → is_in_memory_type t ≡ some true
      → write_to_memory base off t ≡ (do memory ← get_memory; write_offset_length base off memory)
  unfolding write_to_memory is_in_memory_type
  in_memory-write_to_memory base off no_type e = absurd (cc)
  in_memory-write_to_memory base off int_type e = absurd (cc)
  in_memory-write_to_memory base off uint_type e = absurd (cc)
  in_memory-write_to_memory base off bool_type e = absurd (cc)
  in_memory-write_to_memory base off (optional_type t) e = absurd (cc)
  in_memory-write_to_memory base off (response_type t u) e = absurd (cc)
  in_memory-write_to_memory base off (tuple_type m) e = absurd (cc)
  in_memory-write_to_memory base off list_union_type e = absurd (cc)
  in_memory-write_to_memory base off _ e = refl

  response_count :
      (v : ℕ) (vs ws : List Val)
      → 4 + byte_length vs + byte_length ws < 2 ^ 32
      → add32 (add32 (add32 0 (byte_length ws)) (byte_length vs)) 4
        ≡ byte_length ((i32, v) ∷ (vs ++ ws))
  unfolding to_le_bytes add32
  response_count v vs ws room = omega (arith, byte_length-append vs ws)

  module _ (base off v : ℕ) where
    pub optional-AlwaysEmits :
        (vs : List Val) (g : ℕ → Gen ℕ)
        → off + (4 + byte_length vs) < 2 ^ 32
        → AlwaysEmits W base (off + 4) vs (g (off + 4))
        → AlwaysEmits W base off ((i32, v) ∷ vs) (do
          memory ← get_memory
          bytes_written ← g (add32 off 4)
          write_variant base off memory
          pure (add32 4 bytes_written))
    unfolding to_le_bytes
    optional-AlwaysEmits vs g room ih s h =
        let e : add32 off 4 ≡ off + 4 = add32-eq-add off 4 (omega arith) in
        let n : add32 4 (byte_length vs) ≡ byte_length ((i32, v) ∷ vs) =
          add32-eq-add 4 (byte_length vs) (omega arith) ∙ omega arith in
        let u = ih s h in
        subst
          (λ o.
            Emits W base off ((i32, v) ∷ vs)
              (do
                memory ← get_memory
                bytes_written ← g o
                write_variant base off memory
                pure (add32 4 bytes_written))
              (byte_length ((i32, v) ∷ vs)) s)
          (sym e)
          (rw (← n) (
            Emits-memory W base off ((i32, v) ∷ vs) _ h (
              Emits-then W base off ((i32, v) ∷ []) vs (g (off + 4)) _ u (
                Emits-pure W base off ((i32, v) ∷ []) (write_variant base off h.memory) _
                  (write_variant-Emits W base off h.memory v u.state u.scope)))))

    pub response-AlwaysEmits :
        (vs ws : List Val) (size : Option ℕ) (g k : ℕ → Gen ℕ)
        → size ≡ some (byte_length vs)
        → off + (4 + byte_length vs + byte_length ws) < 2 ^ 32
        → AlwaysEmits W base
            (off + byte_length ((i32, v) ∷ vs))
            ws
            (k (off + byte_length ((i32, v) ∷ vs)))
        → AlwaysEmits W base (off + 4) vs (g (off + 4))
        → AlwaysEmits W base off ((i32, v) ∷ (vs ++ ws)) (do
          memory ← get_memory
          ok_size ← or_panic size
          err_bytes ← k (add32 (add32 off 4) ok_size)
          ok_bytes ← g (add32 off 4)
          write_variant base off memory
          pure (add32 (add32 (add32 0 err_bytes) ok_bytes) 4))
    unfolding to_le_bytes
    response-AlwaysEmits vs ws size g k known room iw iv s h =
        let o : add32 off 4 ≡ off + 4 = add32-eq-add off 4 (omega arith) in
        let p : add32 (add32 off 4) (byte_length vs) ≡ off + byte_length ((i32, v) ∷ vs) =
          rw o (add32-eq-add (off + 4) (byte_length vs) (omega arith) ∙ omega arith) in
        let u = iw s h in
        let w = iv u.state u.scope in
        subst
          (λ n.
            Emits W base off ((i32, v) ∷ (vs ++ ws))
              (do
                memory ← get_memory
                ok_size ← or_panic size
                err_bytes ← k (add32 (add32 off 4) ok_size)
                ok_bytes ← g (add32 off 4)
                write_variant base off memory
                pure (add32 (add32 (add32 0 err_bytes) ok_bytes) 4))
              n s)
          (response_count v vs ws (omega arith))
          (Emits-memory W base off ((i32, v) ∷ (vs ++ ws)) _ h (
            Emits-size W base off ((i32, v) ∷ (vs ++ ws)) size _ known (
              subst
                (λ a.
                  Emits W base off ((i32, v) ∷ (vs ++ ws))
                    (do
                      err_bytes ← k a
                      ok_bytes ← g (add32 off 4)
                      write_variant base off h.memory
                      pure (add32 (add32 (add32 0 err_bytes) ok_bytes) 4))
                    (add32 (add32 (add32 0 (byte_length ws)) (byte_length vs)) 4) s)
                (sym p)
                (Emits-then W base off ((i32, v) ∷ vs) ws (k (off + byte_length ((i32, v) ∷ vs))) _
                  u
                  (subst
                    (λ b.
                      Emits W base off ((i32, v) ∷ vs)
                        (do
                          ok_bytes ← g b
                          write_variant base off h.memory
                          pure (add32 (add32 (add32 0 (byte_length ws)) ok_bytes) 4))
                        (add32 (add32 (add32 0 (byte_length ws)) (byte_length vs)) 4) u.state)
                    (sym o)
                    (Emits-then W base off ((i32, v) ∷ []) vs (g (off + 4)) _ w (
                      Emits-pure W base off ((i32, v) ∷ []) (write_variant base off h.memory) _
                        (write_variant-Emits W base off h.memory v w.state w.scope))))))))

  module _ (base off delta : ℕ) where
    pub field-AlwaysEmits :
        (vs ws : List Val) (size : Option ℕ) (g k : ℕ → Gen ℕ)
        → size ≡ some (byte_length vs)
        → off + delta + (byte_length vs + byte_length ws) < 2 ^ 32
        → AlwaysEmits W base (off + delta + byte_length vs) ws (k (delta + byte_length vs))
        → AlwaysEmits W base (off + delta) vs (g (off + delta))
        → AlwaysEmits W base (off + delta) (vs ++ ws) (do
          n ← or_panic size
          bytes_written ← k (add32 delta n)
          n ← g (add32 off delta)
          pure (add32 bytes_written n))
    field-AlwaysEmits vs ws size g k known room iw iv s h =
        let o : add32 off delta ≡ off + delta = add32-eq-add off delta (omega arith) in
        let p : add32 delta (byte_length vs) ≡ delta + byte_length vs =
          add32-eq-add delta (byte_length vs) (omega arith) in
        let e : add32 (byte_length ws) (byte_length vs) ≡ byte_length (vs ++ ws) =
          add32-eq-add (byte_length ws) (byte_length vs) (omega arith)
          ∙ omega (arith, byte_length-append vs ws) in
        let u = iw s h in
        rw (← e) (
          Emits-size W base (off + delta) (vs ++ ws) size _ known (
            rw p (
              Emits-then W base (off + delta) vs ws (k (delta + byte_length vs)) _ u (
                rw o
                  (Emits-pure W base (off + delta) vs (g (off + delta)) _ (iv u.state u.scope))))))
