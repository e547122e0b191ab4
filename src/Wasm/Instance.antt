-- ===== src/Wasm/Instance.antt =====
-- A running instance: a machine with its globals, and the code of clar2wasm/src/wasm_generator.rs
-- that sets them, calls functions and traps.
use clarity_wasm.Prelude.{ℕ, ◌≡◌, List, [], ◌∷◌, Option, none, some}
use clarity_wasm.Wasm.Memory.{LinearMemory}
use clarity_wasm.Wasm.Machine.{Val, Instr, Machine, step, update, global_set, call, unreachable}

module _ (W : LinearMemory) where
  pub record Instance : Type 0 where
    pub machine : Machine W
    pub globals : ℕ → Val

  -- `trapped` is a trap by `unreachable`; `stuck` is any other, and code that validation refuses.
  pub data Outcome : Type 0 where
    running trapped : Instance → Outcome
    stuck : Outcome

  -- Takes the value on top of the stack.
  unfoldable pub set_global : ℕ → Instance → (Instance → Outcome) → Outcome
  set_global g i next = elim i.machine.stack [
    | [] ↦ stuck
    | v ∷ rest ↦
        next
          (record { machine = record (i.machine) { stack = rest }; globals = update i.globals g v })
  ]

  -- `$stdlib.runtime-error` of standard.wat: the code in its global, then `unreachable`.
  unfoldable pub runtime_error : ℕ → Instance → Outcome
  unfolding set_global
  runtime_error code i = set_global code i trapped

  resume : Instance → Option (Machine W) → Outcome
  resume i none = stuck
  resume i (some m) = running (record i { machine = m })

  module _ (calls : ℕ → Instance → Outcome) where
    unfoldable pub step_instance : Instr → Instance → Outcome
    unfolding set_global resume step
    step_instance (global_set g) i = set_global g i running
    step_instance (call f) i = calls f i
    step_instance unreachable i = trapped i
    step_instance instr i = resume i (step W instr i.machine)

    unfoldable pub exec_instance : List Instr → Instance → Outcome
    unfolding step_instance
    exec_instance [] i = running i
    exec_instance (c ∷ code) i = elim (step_instance c i) [
      | running j ↦ exec_instance code j
      | trapped j ↦ trapped j
      | stuck ↦ stuck
    ]

    pub exec_instance-trapped :
        (c : Instr) (code : List Instr) (i j : Instance)
        → step_instance c i ≡ trapped j
        → exec_instance (c ∷ code) i ≡ trapped j
    unfolding exec_instance
    exec_instance-trapped c code i j e = rw (e, exec_instance)
