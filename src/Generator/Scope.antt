-- ===== src/Generator/Scope.antt =====
-- The locals of clar2wasm/src/wasm_generator.rs: what is borrowed, or added to the module's arena,
-- is no local in use.
use clarity_wasm.Prelude.{ℕ, suc, ◌≤◌, ◌<◌, ◌≡◌, ◌≢◌, refl, List, [], ◌∷◌, ◌++◌, ok, arith}
use clarity_wasm.Layout.{i64}
use clarity_wasm.Wasm.Machine.{Instr, LocalId}
use clarity_wasm.Generator.State.{GenState, Gen, ◌>>=◌, get_memory, borrow_local}

abbrev pub NotIn : LocalId → List LocalId → Type 0
NotIn x [] = Unit
NotIn x (y ∷ ys) = (x ≢ y) × NotIn x ys

-- A pool holds declared locals, each once, and not the local `base`.
abbrev pub IsPool : LocalId → ℕ → List LocalId → Type 0
IsPool base next [] = Unit
IsPool base next (x ∷ xs) = (x ≢ base) × (x < next) × NotIn x xs × IsPool base next xs

-- `base` is in use in a module with a memory.
pub record InScope (base : LocalId) (s : GenState) : Type 0 where
  pub memory : ℕ
  pub others : List ℕ
  pub memories : s.memories ≡ memory ∷ others
  pub declared : base < s.next_local
  pub pool : IsPool base s.next_local s.pool_i64

IsPool-mono : (base n m : ℕ) (xs : List LocalId) → n ≤ m → IsPool base n xs → IsPool base m xs
IsPool-mono base n m [] h p = tt
IsPool-mono base n m (x ∷ xs) h (a, b, c, d) = (a, omega arith, c, IsPool-mono base n m xs h d)

IsPool-NotIn : (base n : ℕ) (xs : List LocalId) → IsPool base n xs → NotIn n xs
IsPool-NotIn base n [] p = tt
IsPool-NotIn base n (x ∷ xs) (a, b, c, d) = ((omega arith), IsPool-NotIn base n xs d)

pub get_memory_lem :
    {base : LocalId} {s : GenState} (h : InScope base s) → get_memory s ≡ ok (h.memory, [], s)
unfolding get_memory
get_memory_lem h = rw (h.memories)

pub bind_ok {ℓ κ} :
    {A : Type ℓ} {B : Type κ} (m : Gen A) (f : A → Gen B) {a : A} {b : B} {c d : List Instr}
    {s s' s'' : GenState}
    → m s ≡ ok (a, c, s')
    → f a s' ≡ ok (b, d, s'')
    → (m >>= f) s ≡ ok (b, c ++ d, s'')
bind_ok m f p q = rw (p, ◌>>=◌, q)

-- The state after `add_local`.
abbrev pub with_local : GenState → GenState
with_local s = record s { next_local = suc s.next_local }

pub with_local-InScope :
    {base : LocalId} {s : GenState} → InScope base s → InScope base (with_local s)
with_local-InScope {base} {s} h = record {
  memory = h.memory;
  others = h.others;
  memories = h.memories;
  declared = omega arith;
  pool = IsPool-mono base s.next_local (suc s.next_local) s.pool_i64 (omega arith) h.pool;
}

-- A borrowed local: it is not `base` nor pooled, and other locals in use stay so.
pub record Borrows (base : LocalId) (s : GenState) : Type 0 where
  pub local : LocalId
  pub state : GenState
  pub run : borrow_local i64 s ≡ ok (local, [], state)
  pub ne_base : local ≢ base
  pub declared : local < state.next_local
  pub unused : NotIn local state.pool_i64
  pub scope : InScope base state
  pub apart :
      (z : LocalId)
      → z < s.next_local
      → NotIn z s.pool_i64
      → (z ≢ local) × (z < state.next_local) × NotIn z state.pool_i64

pub borrow_local-Borrows : {base : LocalId} {s : GenState} → InScope base s → Borrows base s
unfolding borrow_local
borrow_local-Borrows {base} {s} h = by_pool s.pool_i64 refl
  where
    by_pool : (xs : List LocalId) → s.pool_i64 ≡ xs → Borrows base s
    by_pool [] e = record {
      local = s.next_local;
      state = with_local s;
      run = rw e;
      ne_base = (let d = h.declared in omega arith);
      declared = omega arith;
      unused = IsPool-NotIn base s.next_local s.pool_i64 h.pool;
      scope = with_local-InScope h;
      apart = λ z l n. (omega arith, omega arith, n);
    }
    by_pool (x ∷ xs) e =
        let (p, q, r, t) = let g : IsPool base s.next_local (x ∷ xs) = rw e at h.pool in g in
        record {
          local = x;
          state = record s { pool_i64 = xs };
          run = rw e;
          ne_base = p;
          declared = q;
          unused = r;
          scope = record {
            memory = h.memory;
            others = h.others;
            memories = h.memories;
            declared = h.declared;
            pool = t;
          };
          apart = λ z l n. let m : NotIn z (x ∷ xs) = rw e at n in (m.0, l, m.1);
        }

abbrev pub with_released : LocalId → GenState → GenState
with_released x s = record s { pool_i64 = x ∷ s.pool_i64 }

pub with_released-InScope :
    {base : LocalId} {s : GenState} (x : LocalId)
    → InScope base s
    → x ≢ base
    → x < s.next_local
    → NotIn x s.pool_i64
    → InScope base (with_released x s)
with_released-InScope x h a b c = record {
  memory = h.memory;
  others = h.others;
  memories = h.memories;
  declared = h.declared;
  pool = (a, b, c, h.pool);
}
