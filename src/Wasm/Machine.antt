-- ===== src/Wasm/Machine.antt =====
-- The WebAssembly instructions that the modelled parts of clar2wasm/src/wasm_generator.rs emit, with
-- their meaning by the WebAssembly specification. There is one linear memory.
use clarity_wasm.Prelude.{
  ℕ, ◌+◌, ◌≡◌, refl, List, [], ◌∷◌, ◌++◌, Option, none, some, ◌==◌, if◌then◌else◌, to_le_bytes,
  from_le_bytes,
}
use clarity_wasm.Wasm.Memory.{LinearMemory, ◌>>=◌}
use clarity_wasm.Layout.{ValType, i32, i64}

-- A Wasm value: its type and its bits.
abbrev pub Val : Type 0
Val = ValType × ℕ

abbrev pub LocalId : Type 0
LocalId = ℕ

abbrev pub byte_count : ValType → ℕ
byte_count i32 = 4
byte_count i64 = 8

-- `StoreKind` and `LoadKind` by the type of the value; then the memory, the alignment hint and the
-- constant offset of `MemArg`.
pub data Instr : Type 0 where
  local_get local_set : LocalId → Instr
  drop_top : Instr
  i32_const i64_const : ℕ → Instr
  store load : ValType → (memory align offset : ℕ) → Instr
  global_set call : ℕ → Instr
  unreachable : Instr

pub same_type : ValType → ValType → Option (Unit {0})
same_type i32 i32 = some tt
same_type i64 i64 = some tt
same_type _ _ = none

abbrev pub update : (LocalId → Val) → LocalId → Val → LocalId → Val
update f x v y = if x == y then v else f y

module _ (W : LinearMemory) where
  open W use {Memory, read, write}

  -- The stack has its top first.
  pub record Machine : Type 0 where
    pub stack : List Val
    pub locals : LocalId → Val
    pub memory : Memory

  pop : Machine → Option (Val × Machine)
  pop s = elim s.stack [ [] ↦ none | v ∷ rest ↦ some (v, record s { stack = rest }) ]

  push : Val → Machine → Machine
  push v s = record s { stack = v ∷ s.stack }

  -- `none` is a trap, or code that WebAssembly's validation refuses. Globals and calls belong to an
  -- instance (Wasm/Instance), and not to this machine.
  unfoldable pub step : Instr → Machine → Option Machine
  unfolding pop push same_type
  step (local_get x) s = some (push (s.locals x) s)
  step (local_set x) s = do (v, s') ← pop s; some (record s' { locals = update s.locals x v })
  step drop_top s = do (v, s') ← pop s; some s'
  step (i32_const n) s = some (push (i32, n) s)
  step (i64_const n) s = some (push (i64, n) s)
  step (store ty memory align offset) s = do
    ((vt, v), s₁) ← pop s
    ((at, a), s₂) ← pop s₁
    _ ← same_type vt ty
    _ ← same_type at i32
    m ← write s.memory (a + offset) (to_le_bytes (byte_count ty) v)
    some (record s₂ { memory = m })
  step (load ty memory align offset) s = do
    ((at, a), s₁) ← pop s
    _ ← same_type at i32
    bs ← read s.memory (a + offset) (byte_count ty)
    some (push (ty, from_le_bytes bs) s₁)
  step (global_set g) s = none
  step (call f) s = none
  step unreachable s = none

  unfoldable pub exec : List Instr → Machine → Option Machine
  exec [] s = some s
  exec (i ∷ code) s = do s' ← step i s; exec code s'

  pub exec-append :
      (c d : List Instr) (s : Machine) → exec (c ++ d) s ≡ (do s' ← exec c s; exec d s')
  unfolding exec
  exec-append [] d s = refl
  exec-append (i ∷ c) d s = bind_congr (step i s) (λ s'. exec-append c d s')
    where
      bind_congr :
          (o : Option Machine)
          → ((s' : Machine) → exec (c ++ d) s' ≡ (do t ← exec c s'; exec d t))
          → (do s' ← o; exec (c ++ d) s') ≡ (do t ← (do s' ← o; exec c s'); exec d t)
      bind_congr none h = refl
      bind_congr (some s') h = h s'
