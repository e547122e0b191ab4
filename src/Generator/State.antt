-- ===== src/Generator/State.antt =====
-- The state of `WasmGenerator` that the modelled functions use, with the locals, the pool of
-- borrowed locals, the data segments and the emitted code (clar2wasm/src/wasm_generator.rs).
use Prim.Native.String.{String}
use clarity_wasm.Prelude.{ℕ, suc, List, [], ◌∷◌, ◌++◌, Option, none, some, Result, ok, err}
use clarity_wasm.Layout.{ValType, i32, i64}
use clarity_wasm.Wasm.Machine.{Instr, LocalId}

-- The errors, without their messages; `panic` stands for `unreachable!`.
pub data GeneratorError : Type 0 where
  not_implemented internal_error type_error argument_count_mismatch panic : GeneratorError

-- What a literal is interned under: a text as its UTF-8 bytes, or bytes.
pub data LiteralMemoryEntry : Type 0 where
  ascii_entry utf8_entry bytes_entry : List ℕ → LiteralMemoryEntry

-- An active data segment of the module: its memory, its absolute location and its bytes.
pub record DataSegment : Type 0 where
  pub memory : ℕ
  pub location : ℕ
  pub value : List ℕ

-- `memories` are the module's, with the `initial` pages of the first in `initial_pages`;
-- `next_local` is the next number of the arena of locals, and the pools hold the locals given back,
-- the last one first. `segments` and `literal_memory_offset` have the last one added first, and
-- `globals` and `functions` are those of the module that have a name.
pub record GenState : Type 0 where
  pub memories : List ℕ
  pub initial_pages : ℕ
  pub globals : List (String × ℕ)
  pub functions : List (String × ℕ)
  pub next_local : ℕ
  pub pool_i32 : List LocalId
  pub pool_i64 : List LocalId
  pub segments : List DataSegment
  pub literal_memory_end : ℕ
  pub literal_memory_offset : List (LiteralMemoryEntry × ℕ)
  pub frame_size : ℕ
  pub max_work_space : ℕ

-- A method: its result, the code that it appends to the builder, and the new state.
abbrev pub Gen {ℓ} : Type ℓ → Type ℓ
Gen A = GenState → Result GeneratorError (A × List Instr × GenState)

abbrev pub pure {ℓ} : {A : Type ℓ} → A → Gen A
pure a s = ok (a, [], s)

abbrev pub raise {ℓ} : {A : Type ℓ} → GeneratorError → Gen A
raise e s = err e

abbrev pub and_then {ℓ} :
    {B : Type ℓ}
    → List Instr
    → Result GeneratorError (B × List Instr × GenState)
    → Result GeneratorError (B × List Instr × GenState)
and_then code (ok (b, more, s)) = ok (b, code ++ more, s)
and_then code (err e) = err e

infixl 5 ◌>>=◌ ◌>>◌
abbrev pub ◌>>=◌ {ℓ κ} : {A : Type ℓ} {B : Type κ} → Gen A → (A → Gen B) → Gen B
◌>>=◌ m f s = elim (m s) [ ok (a, code, s') ↦ and_then code (f a s') | err e ↦ err e ]

abbrev pub ◌>>◌ {ℓ κ} : {A : Type ℓ} {B : Type κ} → Gen A → Gen B → Gen B
m >> k = m >>= λ _. k

abbrev pub emit : List Instr → Gen (Unit {0})
emit code s = ok (tt, code, s)

-- A panic of a size function.
abbrev pub or_panic {ℓ} : {A : Type ℓ} → Option A → Gen A
or_panic none = raise panic
or_panic (some a) = pure a

first_memory : List ℕ → Gen ℕ
first_memory [] = raise internal_error
first_memory (m ∷ _) = pure m

unfoldable pub get_memory : Gen ℕ
unfolding first_memory
get_memory s = first_memory s.memories s

-- `self.module.locals.add(ty)`
unfoldable pub add_local : ValType → Gen LocalId
add_local ty s = ok (s.next_local, [], record s { next_local = suc s.next_local })

take_pooled : ValType → List LocalId → (List LocalId → GenState) → Gen LocalId
unfolding add_local
take_pooled ty [] rest s = add_local ty s
take_pooled ty (x ∷ xs) rest s = ok (x, [], rest xs)

unfoldable pub borrow_local : ValType → Gen LocalId
unfolding take_pooled
borrow_local i32 s = take_pooled i32 s.pool_i32 (λ xs. record s { pool_i32 = xs }) s
borrow_local i64 s = take_pooled i64 s.pool_i64 (λ xs. record s { pool_i64 = xs }) s

-- The `Drop` of a `BorrowedLocal`.
unfoldable pub release_local : ValType → LocalId → Gen (Unit {0})
release_local i32 x s = ok (tt, [], record s { pool_i32 = x ∷ s.pool_i32 })
release_local i64 x s = ok (tt, [], record s { pool_i64 = x ∷ s.pool_i64 })
