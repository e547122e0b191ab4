-- ===== src/Generator/Writing/Emit.antt =====
-- What code emitted to store a value's words does, and the emitted pieces of
-- clar2wasm/src/wasm_generator.rs that store one value.
use mathlib.Core.List.{append-nil}
use clarity_wasm.Prelude.{
  ℕ, suc, ◌+◌, ◌<◌, ◌^◌, ◌≡◌, refl, sym, List, [], ◌∷◌, ◌++◌, some, Option, ok, arith, add32,
  add32-eq-add,
}
use clarity_wasm.Layout.{i32, i64}
use clarity_wasm.Wasm.Memory.{LinearMemory}
use clarity_wasm.Wasm.Machine.{Val, Instr, LocalId}
use clarity_wasm.Generator.State.{
  GenState, Gen, pure, ◌>>=◌, or_panic, get_memory, add_local, release_local,
}
use clarity_wasm.Generator.MemoryAccess.{
  write_int, write_offset_length, write_bool, write_variant, write_placeholder,
}
use clarity_wasm.Generator.Represents.{byte_length}
use clarity_wasm.Generator.Scope.{
  InScope, get_memory_lem, bind_ok, with_local, with_local-InScope, borrow_local-Borrows,
  with_released, with_released-InScope,
}
use clarity_wasm.Generator.Storing.{
  AlwaysStores, AlwaysStores-append, AlwaysStores-one, AlwaysStores-pair, AlwaysStores-no_type,
}

module _ (W : LinearMemory) where
  -- The generator succeeds with `n`, keeps `base` in scope, and its code stores `vs`.
  pub record Emits {ℓ} {A : Type ℓ} (base : LocalId) (off : ℕ) (vs : List Val) (g : Gen A) (n : A)
      (s : GenState) : Type ℓ where
    pub code : List Instr
    pub state : GenState
    pub run : g s ≡ ok (n, code, state)
    pub scope : InScope base state
    pub stores : AlwaysStores W base off vs code

  pub write_int-Emits :
      (base off memory lo hi : ℕ) (s : GenState)
      → InScope base s
      → off + 16 < 2 ^ 32
      → Emits base off ((i64, lo) ∷ (i64, hi) ∷ []) (write_int base off memory) 16 s
  unfolding write_int release_local
  write_int-Emits base off memory lo hi s h room =
      let b = borrow_local-Borrows h in
      let c = borrow_local-Borrows b.scope in
      let far = c.apart b.local b.declared b.unused in
      record {
        code = _;
        state = with_released b.local (with_released c.local c.state);
        run = rw (b.run, ◌>>=◌, c.run);
        scope =
            with_released-InScope b.local
              (with_released-InScope c.local c.scope c.ne_base c.declared c.unused) b.ne_base far.1
              (far.0, far.2);
        stores =
            AlwaysStores-pair W base c.local b.local off (add32 off 8) memory 8 i64 lo hi c.ne_base
              b.ne_base (λ e. far.0 (sym e)) (add32-eq-add off 8 (omega arith));
      }

  pub write_offset_length-Emits :
      (base off memory p l : ℕ) (s : GenState)
      → InScope base s
      → off + 8 < 2 ^ 32
      → Emits base off ((i32, p) ∷ (i32, l) ∷ []) (write_offset_length base off memory) 8 s
  unfolding write_offset_length add_local
  write_offset_length-Emits base off memory p l s h room =
      let d = h.declared in
      record {
        code = _;
        state = with_local (with_local s);
        run = refl;
        scope = with_local-InScope (with_local-InScope h);
        stores =
            AlwaysStores-pair W base s.next_local (suc s.next_local) off (add32 off 4) memory 4 i32
              p l (omega arith) (omega arith) (omega arith) (add32-eq-add off 4 (omega arith));
      }

  pub write_bool-Emits :
      (base off memory v : ℕ) (s : GenState)
      → InScope base s
      → Emits base off ((i32, v) ∷ []) (write_bool base off memory) 4 s
  unfolding write_bool add_local
  write_bool-Emits base off memory v s h =
      let d = h.declared in
      record {
        code = _;
        state = with_local s;
        run = refl;
        scope = with_local-InScope h;
        stores = AlwaysStores-one W base s.next_local off memory 4 i32 v (omega arith);
      }

  pub write_variant-Emits :
      (base off memory v : ℕ) (s : GenState)
      → InScope base s
      → Emits base off ((i32, v) ∷ []) (write_variant base off memory) tt s
  unfolding write_variant add_local
  write_variant-Emits base off memory v s h =
      let d = h.declared in
      record {
        code = _;
        state = with_local s;
        run = refl;
        scope = with_local-InScope h;
        stores = AlwaysStores-one W base s.next_local off memory 4 i32 v (omega arith);
      }

  -- A step first, then one that keeps its result for the end.
  pub Emits-then {ℓ κ} :
      {A : Type ℓ} {B : Type κ} (base off : ℕ) (vs ws : List Val) (g : Gen A) (k : A → Gen B)
      {n : A} {r : B} {s : GenState} (u : Emits base (off + byte_length vs) ws g n s)
      → Emits base off vs (k n) r u.state
      → Emits base off (vs ++ ws) (g >>= k) r s
  Emits-then base off vs ws g k u l = record {
    code = u.code ++ l.code;
    state = l.state;
    run = bind_ok g k u.run l.run;
    scope = l.scope;
    stores = AlwaysStores-append W base off vs ws u.code l.code u.stores l.stores;
  }

  -- A last step that only makes the result.
  pub Emits-pure {ℓ κ} :
      {A : Type ℓ} {B : Type κ} (base off : ℕ) (vs : List Val) (g : Gen A) (f : A → B) {n : A}
      {s : GenState}
      → Emits base off vs g n s
      → Emits base off vs (do a ← g; pure (f a)) (f n) s
  Emits-pure base off vs g f u = record {
    code = u.code ++ [];
    state = u.state;
    run = bind_ok g (λ a. pure (f a)) u.run refl;
    scope = u.scope;
    stores = rw (append-nil u.code) u.stores;
  }

  -- `get_memory` in front.
  pub Emits-memory {ℓ} :
      {A : Type ℓ} (base off : ℕ) (vs : List Val) (k : ℕ → Gen A) {n : A} {s : GenState}
      (h : InScope base s)
      → Emits base off vs (k h.memory) n s
      → Emits base off vs (do memory ← get_memory; k memory) n s
  Emits-memory base off vs k h u = record {
    code = u.code;
    state = u.state;
    run = bind_ok get_memory k (get_memory_lem h) u.run;
    scope = u.scope;
    stores = u.stores;
  }

  -- A size in front.
  pub Emits-size {ℓ} :
      {A : Type ℓ} (base off : ℕ) (vs : List Val) (o : Option ℕ) (k : ℕ → Gen A) {z : ℕ} {n : A}
      {s : GenState}
      → o ≡ some z
      → Emits base off vs (k z) n s
      → Emits base off vs (do size ← or_panic o; k size) n s
  Emits-size base off vs o k {z} {n} {s} e u = record {
    code = u.code;
    state = u.state;
    run = bind_ok (or_panic o) k {a = z} {c = []} (rw e) u.run;
    scope = u.scope;
    stores = u.stores;
  }

  -- `g` emits, from any state in scope.
  abbrev pub AlwaysEmits : LocalId → ℕ → List Val → Gen ℕ → Type 0
  AlwaysEmits base off vs g =
      (s : GenState) → InScope base s → Emits base off vs g (byte_length vs) s

  pub write_placeholder-Emits :
      (base off memory : ℕ) (s : GenState)
      → InScope base s
      → Emits base off ((i32, 0) ∷ []) (write_placeholder base off memory) 4 s
  unfolding write_placeholder
  write_placeholder-Emits base off memory s h = record {
    code = _;
    state = s;
    run = refl;
    scope = h;
    stores = AlwaysStores-no_type W base off memory 4;
  }
