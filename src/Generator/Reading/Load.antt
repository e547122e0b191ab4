-- ===== src/Generator/Reading/Load.antt =====
-- What code emitted to load a value's words does, and the emitted pieces of
-- clar2wasm/src/wasm_generator.rs that load one value.
use mathlib.Core.List.{append-nil}
use native.Mathlib.Nat.{add_assoc}
use clarity_wasm.Prelude.{
  ℕ, ◌+◌, ◌<◌, ◌^◌, ◌≡◌, refl, subst, List, [], ◌∷◌, ◌++◌, some, ok, arith, add32, add32-eq-add,
  to_le_bytes, from_le_bytes, length-to_le_bytes, from_le_bytes-to_le_bytes_i32,
  from_le_bytes-to_le_bytes_i64,
}
use clarity_wasm.Layout.{ValType, i32, i64}
use clarity_wasm.Wasm.Memory.{LinearMemory}
use clarity_wasm.Wasm.Written.{read-split}
use clarity_wasm.Wasm.Machine.{
  Val, Instr, LocalId, local_get, load, byte_count, exec, step, exec-append,
}
use clarity_wasm.Generator.State.{GenState, Gen, pure, ◌>>=◌, emit, get_memory}
use clarity_wasm.Generator.MemoryAccess.{load_pair}
use clarity_wasm.Generator.Represents.{bytes_of, bytes_of-append, byte_length}
use clarity_wasm.Generator.Scope.{InScope, get_memory_lem, bind_ok}
use clarity_wasm.Generator.Storing.{push_all, push_all-append, machine}

-- A word that fits its type.
abbrev Fits : Val → Type 0
Fits (i32, n) = n < 2 ^ 32
Fits (i64, n) = n < 2 ^ 64

from_le_bytes-Fits :
    (ty : ValType) (n : ℕ) → Fits (ty, n) → from_le_bytes (to_le_bytes (byte_count ty) n) ≡ n
from_le_bytes-Fits i32 n h = from_le_bytes-to_le_bytes_i32 n h
from_le_bytes-Fits i64 n h = from_le_bytes-to_le_bytes_i64 n h

module _ (W : LinearMemory) where
  open W use {Memory, read}

  -- With the bytes of `vs` at the address in the local `base` plus `off`, the code pushes `vs`, and
  -- does nothing else.
  abbrev pub AlwaysLoads : LocalId → ℕ → List Val → List Instr → Type 0
  AlwaysLoads base off vs code =
      (a : ℕ) (st : List Val) (f : LocalId → Val) (mem : W.Memory)
      → f base ≡ (i32, a)
      → read mem (a + off) (byte_length vs) ≡ some (bytes_of vs)
      → exec W code (machine W st f mem) ≡ some (machine W (push_all vs st) f mem)

  AlwaysLoads-append :
      (base off : ℕ) (vs ws : List Val) (c d : List Instr)
      → AlwaysLoads base off vs c
      → AlwaysLoads base (off + byte_length vs) ws d
      → AlwaysLoads base off (vs ++ ws) (c ++ d)
  AlwaysLoads-append base off vs ws c d hc hd a st f mem e h =
      let parts =
        read-split W mem (a + off) (bytes_of vs) (bytes_of ws) (rw bytes_of-append at h) in
      rw (exec-append W c d, hc a st f mem e parts.0, push_all-append vs ws st)
        (hd a (push_all vs st) f mem e (
          subst (λ o. read mem o (byte_length ws) ≡ some (bytes_of ws))
            (add_assoc a off (byte_length vs)) parts.1))

  AlwaysLoads-one :
      (base off mm al : ℕ) (ty : ValType) (n : ℕ)
      → Fits (ty, n)
      → AlwaysLoads base off ((ty, n) ∷ []) (local_get base ∷ load ty mm al off ∷ [])
  unfolding exec step
  AlwaysLoads-one base off mm al ty n fits a st f mem e h =
      let bs = to_le_bytes (byte_count ty) n in
      let r : read mem (a + off) (byte_count ty) ≡ some bs =
        subst (λ k. read mem (a + off) k ≡ some bs) (length-to_le_bytes (byte_count ty) n)
          (rw append-nil at h) in
      rw (e, r, from_le_bytes-Fits ty n fits)

  -- The generator succeeds with `n` and no change of state, and its code loads `vs`.
  pub record Loads {ℓ} {A : Type ℓ} (base : LocalId) (off : ℕ) (vs : List Val) (g : Gen A) (n : A)
      (s : GenState) : Type ℓ where
    pub code : List Instr
    pub run : g s ≡ ok (n, code, s)
    pub loads : AlwaysLoads base off vs code

  pub Loads-then {ℓ κ} :
      {A : Type ℓ} {B : Type κ} (base off : ℕ) (vs ws : List Val) (g : Gen A) (k : A → Gen B)
      {n : A} {r : B} {s : GenState}
      → Loads base off vs g n s
      → Loads base (off + byte_length vs) ws (k n) r s
      → Loads base off (vs ++ ws) (g >>= k) r s
  Loads-then base off vs ws g k u l = record {
    code = u.code ++ l.code;
    run = bind_ok g k u.run l.run;
    loads = AlwaysLoads-append base off vs ws u.code l.code u.loads l.loads;
  }

  pub Loads-pure {ℓ κ} :
      {A : Type ℓ} {B : Type κ} (base off : ℕ) (vs : List Val) (g : Gen A) (f : A → B) {n : A}
      {s : GenState}
      → Loads base off vs g n s
      → Loads base off vs (do a ← g; pure (f a)) (f n) s
  Loads-pure base off vs g f u = record {
    code = u.code ++ [];
    run = bind_ok g (λ a. pure (f a)) u.run refl;
    loads = rw (append-nil u.code) u.loads;
  }

  pub Loads-memory {ℓ} :
      {A : Type ℓ} (base off : ℕ) (vs : List Val) (k : ℕ → Gen A) {n : A} {s : GenState}
      (h : InScope base s)
      → Loads base off vs (k h.memory) n s
      → Loads base off vs (do memory ← get_memory; k memory) n s
  Loads-memory base off vs k h u = record {
    code = u.code;
    run = bind_ok get_memory k (get_memory_lem h) u.run;
    loads = u.loads;
  }

  pub load-Loads :
      (base off mm al : ℕ) (ty : ValType) (n : ℕ) (s : GenState)
      → Fits (ty, n)
      → Loads base off ((ty, n) ∷ []) (emit (local_get base ∷ load ty mm al off ∷ [])) tt s
  load-Loads base off mm al ty n s fits = record {
    code = _;
    run = refl;
    loads = AlwaysLoads-one base off mm al ty n fits;
  }

  pub load_pair-Loads :
      (base off memory : ℕ) (ty : ValType) (l h : ℕ) (s : GenState)
      → Fits (ty, l)
      → Fits (ty, h)
      → off + (byte_count ty + byte_count ty) < 2 ^ 32
      → Loads base off
          ((ty, l) ∷ (ty, h) ∷ [])
          (load_pair base off ty (byte_count ty) memory)
          (byte_length ((ty, l) ∷ (ty, h) ∷ []))
          s
  unfolding load_pair to_le_bytes add32
  load_pair-Loads base off memory i32 l h s p q room = record {
    code = _;
    run = refl;
    loads =
        AlwaysLoads-append base off ((i32, l) ∷ []) ((i32, h) ∷ [])
          (local_get base ∷ load i32 memory 4 off ∷ [])
          (local_get base ∷ load i32 memory 4 (add32 off 4) ∷ [])
          (AlwaysLoads-one base off memory 4 i32 l p)
          (rw (add32-eq-add off 4 (omega arith)) (AlwaysLoads-one base (off + 4) memory 4 i32 h q));
  }
  load_pair-Loads base off memory i64 l h s p q room = record {
    code = _;
    run = refl;
    loads =
        AlwaysLoads-append base off ((i64, l) ∷ []) ((i64, h) ∷ [])
          (local_get base ∷ load i64 memory 8 off ∷ [])
          (local_get base ∷ load i64 memory 8 (add32 off 8) ∷ [])
          (AlwaysLoads-one base off memory 8 i64 l p)
          (rw (add32-eq-add off 8 (omega arith)) (AlwaysLoads-one base (off + 8) memory 8 i64 h q));
  }
