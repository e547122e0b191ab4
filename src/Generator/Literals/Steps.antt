-- ===== src/Generator/Literals/Steps.antt =====
-- The states that code generation reaches, as far as the literal memory goes: what the methods of
-- clar2wasm/src/wasm_generator.rs add to it, and the space that words/constants.rs and
-- words/data_vars.rs keep behind it; and the sizes of the frame and of the work space.
use Prim.Native.String.{String}
use clarity_wasm.Prelude.{
  ℕ, ◌+◌, ◌≤◌, ◌<◌, ◌^◌, ◌≡◌, refl, ◌∙◌, sym, subst, Bool, some, List, [], ◌∷◌, ok, arith, length,
}
use clarity_wasm.Clarity.{TypeSignature, Value}
use clarity_wasm.Layout.{ValType, i32, i64}
use clarity_wasm.Wasm.Machine.{Instr, LocalId}
use clarity_wasm.Generator.State.{GenState, Gen, DataSegment, borrow_local, add_local}
use clarity_wasm.Generator.Literals.Text.{TextLibrary}
use clarity_wasm.Generator.Literals.Defs.{
  add_string_literal, add_bytes_literal, add_literal, end_of_standard_data, reserve_frame,
  call_stack_size, return_size, ensure_work_space,
}
use clarity_wasm.Generator.Literals.Placed.{Stacked, Unquoted, IsPlaced}
use clarity_wasm.Generator.Literals.Adding.{
  HasMemory, Adds, add_string_literal-Adds, add_bytes_literal-Adds,
}
use clarity_wasm.Generator.Literals.Values.{LiteralOf, add_literal-Adds}

-- `WasmGenerator::new`, on the standard library's module.
unfoldable pub new_generator :
    (memories : List ℕ) (pages : ℕ) (globals functions : List (String × ℕ)) → GenState
new_generator memories pages globals functions = record {
  memories = memories;
  initial_pages = pages;
  globals = globals;
  functions = functions;
  next_local = 0;
  pool_i32 = [];
  pool_i64 = [];
  segments = [];
  literal_memory_end = end_of_standard_data;
  literal_memory_offset = [];
  frame_size = 0;
  max_work_space = 0;
}

module _ (T : TextLibrary) where
  pub data Step : GenState → GenState → Type 0 where
    string_literal :
        {s s' : GenState} {r : ℕ × ℕ} {code : List Instr} (name : List ℕ)
        → Unquoted name
        → s.literal_memory_end + length name < 2 ^ 32
        → add_string_literal name s ≡ ok (r, code, s')
        → Step s s'
    bytes_literal :
        {s s' : GenState} {r : ℕ × ℕ} {code : List Instr} (bytes : List ℕ)
        → s.literal_memory_end + length bytes < 2 ^ 32
        → add_bytes_literal bytes s ≡ ok (r, code, s')
        → Step s s'
    literal :
        {s s' : GenState} {r : ℕ × ℕ} {code : List Instr} {v : Value} {bytes : List ℕ}
        → LiteralOf T v bytes
        → s.literal_memory_end + length bytes < 2 ^ 32
        → add_literal T v s ≡ ok (r, code, s')
        → Step s s'
    local :
        {s s' : GenState} {x : LocalId} {code : List Instr} (ty : ValType)
        → borrow_local ty s ≡ ok (x, code, s')
        → Step s s'
    -- `literal_memory_end += n`
    reserve :
        {s s' : GenState} (n : ℕ)
        → s.literal_memory_end + n < 2 ^ 32
        → s' ≡ record s { literal_memory_end = s.literal_memory_end + n }
        → Step s s'
    -- `create_call_stack_local`
    stack_local :
        {s s' : GenState} {size : ℕ} {code : List Instr} (ty : TypeSignature)
        (include_repr include_value : Bool)
        → call_stack_size ty include_repr include_value ≡ some size
        → s.frame_size + size < 2 ^ 31
        → reserve_frame size s ≡ ok (tt, code, s')
        → Step s s'
    -- `visit_call_user_defined`
    returned_value :
        {s s' : GenState} {size : ℕ} {code : List Instr} (return_ty : TypeSignature)
        → return_size return_ty ≡ some size
        → s.frame_size + size < 2 ^ 31
        → reserve_frame size s ≡ ok (tt, code, s')
        → Step s s'
    work_space :
        {s s' : GenState} {code : List Instr} (bytes_len : ℕ)
        → ensure_work_space bytes_len s ≡ ok (tt, code, s')
        → Step s s'

  pub data Reach (s : GenState) : GenState → Type 0 where
    start : Reach s s
    then_step : {t u : GenState} → Reach s t → Step t u → Reach s u

  -- A state whose literals are in place, in a module with a memory.
  abbrev pub Ready : GenState → Type 0
  Ready s = IsPlaced T s × HasMemory s

  -- Two states with the same literal memory.
  abbrev SameLiterals : GenState → GenState → Type 0
  SameLiterals s s' =
      (s'.segments ≡ s.segments)
      × (s'.literal_memory_end ≡ s.literal_memory_end)
      × (s'.literal_memory_offset ≡ s.literal_memory_offset)
      × (s'.memories ≡ s.memories)

  SameLiterals-Ready : (s s' : GenState) → SameLiterals s s' → Ready s → Ready s'
  SameLiterals-Ready s s' (a, b, c, d) (p, (m, ms, e)) = (
    record {
      stacked = rw (a, b) p.stacked;
      bounded = omega arith;
      interned = rw (a, c) p.interned;
    },
    (m, ms, d ∙ e),
  )

  borrow_local-SameLiterals :
      (ty : ValType) (s s' : GenState) (x : LocalId) (code : List Instr)
      → borrow_local ty s ≡ ok (x, code, s')
      → SameLiterals s s'
  unfolding borrow_local add_local
  borrow_local-SameLiterals i32 s s' x code e = ground arith
  borrow_local-SameLiterals i64 s s' x code e = ground arith

  reserve_frame-SameLiterals :
      (size : ℕ) (s s' : GenState) (code : List Instr)
      → reserve_frame size s ≡ ok (tt, code, s')
      → SameLiterals s s'
  unfolding reserve_frame
  reserve_frame-SameLiterals size s s' code e = ground arith

  ensure_work_space-SameLiterals :
      (n : ℕ) (s s' : GenState) (code : List Instr)
      → ensure_work_space n s ≡ ok (tt, code, s')
      → SameLiterals s s'
  unfolding ensure_work_space
  ensure_work_space-SameLiterals n s s' code e = ground arith

  Adds-Ready :
      {r : ℕ × ℕ} {code : List Instr} {bytes : List ℕ} (s s' : GenState) (m : Gen (ℕ × ℕ))
      → HasMemory s
      → Adds T s bytes (m s)
      → m s ≡ ok (r, code, s')
      → Ready s'
  Adds-Ready s s' m (n, ns, h) a e =
      let same : a.after ≡ s' = ground (arith, a.run) in
      subst Ready same (a.placed, (n, ns, a.memories ∙ h))

  Stacked-mono : (ds : List DataSegment) (a b : ℕ) → a ≤ b → Stacked ds a → Stacked ds b
  Stacked-mono [] a b h p = omega arith
  Stacked-mono (d ∷ ds) a b h (p, q) = (omega arith, q)

  Step-Ready : {s s' : GenState} → Step s s' → Ready s → Ready s'
  Step-Ready (string_literal {s} {s'} name u b e) (p, h) =
      Adds-Ready s s' (add_string_literal name) h (add_string_literal-Adds T name s u h p b) e
  Step-Ready (bytes_literal {s} {s'} bytes b e) (p, h) =
      Adds-Ready s s' (add_bytes_literal bytes) h (add_bytes_literal-Adds T bytes s h p b) e
  Step-Ready (literal {s} {s'} {v} l b e) (p, h) =
      Adds-Ready s s' (add_literal T v) h (add_literal-Adds T s l h p b) e
  Step-Ready (local {s} {s'} {x} {code} ty e) q =
      SameLiterals-Ready s s' (borrow_local-SameLiterals ty s s' x code e) q
  Step-Ready (stack_local {s} {s'} {size} {code} ty r v n b e) q =
      SameLiterals-Ready s s' (reserve_frame-SameLiterals size s s' code e) q
  Step-Ready (returned_value {s} {s'} {size} {code} ty n b e) q =
      SameLiterals-Ready s s' (reserve_frame-SameLiterals size s s' code e) q
  Step-Ready (work_space {s} {s'} {code} n e) q =
      SameLiterals-Ready s s' (ensure_work_space-SameLiterals n s s' code e) q
  Step-Ready (reserve {s} {s'} n b e) (p, h) = subst Ready (sym e) (
    record {
      stacked = Stacked-mono s.segments _ _ (omega arith) p.stacked;
      bounded = b;
      interned = p.interned;
    },
    h,
  )

  -- In every state that code generation reaches from a new generator, through literals that fit
  -- in 32 bits, borrowed locals, frames and reserved space, the segments stand apart between the standard
  -- library's data and `literal_memory_end`, and every interned literal has its bytes at its offset.
  pub Reach-IsPlaced :
      (memory : ℕ) (memories : List ℕ) (pages : ℕ) (globals functions : List (String × ℕ))
      {s : GenState}
      → Reach (new_generator (memory ∷ memories) pages globals functions) s
      → Ready s
  unfolding new_generator
  Reach-IsPlaced memory memories pages globals functions start = (
    record { stacked = omega arith; bounded = omega arith; interned = tt },
    (memory, memories, refl),
  )
  Reach-IsPlaced memory memories pages globals functions (then_step r st) =
      Step-Ready st (Reach-IsPlaced memory memories pages globals functions r)
