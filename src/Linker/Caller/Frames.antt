-- ===== src/Linker/Caller/Frames.antt =====
-- The senders and the callers of a context as two stacks of principals (clar2wasm/src/initialize.rs).
use clarity_wasm.Prelude.{
  ◌≡◌, refl, ap, subst, ◌∙◌, List, [], ◌∷◌, Option, none, some, Result, ok, err, ◌>>=◌,
}
use clarity_wasm.Clarity.{PrincipalData, QualifiedContractIdentifier, contract}
use clarity_wasm.Host.Errors.{Error, no_sender_in_context, no_caller_in_context}
use clarity_wasm.Linker.Caller.Defs.{
  ClarityWasmContext, pop_last, save_current, push_sender, push_caller, pop_sender, pop_caller,
  enter_as_contract, exit_as_contract,
}

-- What the code does to the two stacks.
pub data Command : Type 0 where
  to_sender to_caller : PrincipalData → Command
  from_sender from_caller enter exit : Command

-- The abstract state: all senders and all callers, the current one first.
pub record Frames : Type 0 where
  pub senders : List PrincipalData
  pub callers : List PrincipalData

abbrev tail_of : Error → List PrincipalData → Result Error (List PrincipalData)
tail_of e [] = err e
tail_of e (p ∷ rest) = ok rest

-- The commands on the abstract state, for a contract `c`.
abbrev pub spec_step : QualifiedContractIdentifier → Command → Frames → Result Error Frames
spec_step c (to_sender p) f = ok (record f { senders = p ∷ f.senders })
spec_step c (to_caller p) f = ok (record f { callers = p ∷ f.callers })
spec_step c from_sender f = do
  rest ← tail_of no_sender_in_context f.senders
  ok (record f { senders = rest })
spec_step c from_caller f = do
  rest ← tail_of no_caller_in_context f.callers
  ok (record f { callers = rest })
spec_step c enter f =
    ok (record { senders = contract c ∷ f.senders; callers = contract c ∷ f.callers })
spec_step c exit f = do
  senders ← tail_of no_sender_in_context f.senders
  callers ← tail_of no_caller_in_context f.callers
  ok (record { senders = senders; callers = callers })

abbrev pub spec_run : QualifiedContractIdentifier → List Command → Frames → Result Error Frames
spec_run c [] f = ok f
spec_run c (command ∷ commands) f = do f ← spec_step c command f; spec_run c commands f

-- The current principal and the stack below it as one list.
abbrev pub frames_of : Option PrincipalData → List PrincipalData → List PrincipalData
frames_of none below = below
frames_of (some p) below = p ∷ below

-- Nothing is below if there is no current principal.
abbrev pub IsFramed : Option PrincipalData → List PrincipalData → Type 0
IsFramed none (p ∷ below) = ⊥
IsFramed _ _ = Unit

module _ {G : Type 0} where
  -- The commands as the code carries them out.
  abbrev pub step : Command → ClarityWasmContext G → Result Error (ClarityWasmContext G)
  step (to_sender p) x = ok (push_sender p x)
  step (to_caller p) x = ok (push_caller p x)
  step from_sender x = do (_, x) ← pop_sender x; ok x
  step from_caller x = do (_, x) ← pop_caller x; ok x
  step enter x = ok (enter_as_contract x)
  step exit x = exit_as_contract x

  abbrev pub run : List Command → ClarityWasmContext G → Result Error (ClarityWasmContext G)
  run [] x = ok x
  run (command ∷ commands) x = do x ← step command x; run commands x

  abbrev pub view : ClarityWasmContext G → Frames
  view x = record {
    senders = frames_of x.sender x.sender_stack;
    callers = frames_of x.caller x.caller_stack;
  }

  abbrev pub IsValid : ClarityWasmContext G → Type 0
  IsValid x = IsFramed x.sender x.sender_stack × IsFramed x.caller x.caller_stack

  -- One result refines the other: the same error, or a valid context of that view, of the same
  -- contract and global state.
  abbrev pub Refines :
      ClarityWasmContext G → Result Error (ClarityWasmContext G) → Result Error Frames → Type 0
  Refines x (ok y) (ok f) =
      (view y ≡ f)
      × IsValid y
      × (y.global_context ≡ x.global_context)
      × (y.event_batches ≡ x.event_batches)
      × (y.contract_context ≡ x.contract_context)
  Refines x (err e) (err e') = e ≡ e'
  Refines _ _ _ = ⊥

pub save_current-frames_of :
    (s : Option PrincipalData) (below : List PrincipalData)
    → IsFramed s below
    → save_current s below ≡ frames_of s below
unfolding save_current
save_current-frames_of none [] h = refl
save_current-frames_of (some p) below h = refl
save_current-frames_of none (p ∷ below) h = absurd h

-- The context with these senders and callers.
abbrev with_stacks :
    {G : Type 0}
    → ClarityWasmContext G
    → (sender caller : Option PrincipalData) → (sender_stack caller_stack : List PrincipalData)
    → ClarityWasmContext G
with_stacks x s t below above = record x {
  sender = s;
  caller = t;
  sender_stack = below;
  caller_stack = above;
}

module _ {G : Type 0} (x : ClarityWasmContext G) (c : QualifiedContractIdentifier) where
  -- That `command` refines its specification with these senders and callers.
  abbrev At : Command → (s t : Option PrincipalData) → (below above : List PrincipalData) → Type 0
  At command s t below above =
      Refines (with_stacks x s t below above) (step command (with_stacks x s t below above))
        (spec_step c command (view (with_stacks x s t below above)))

  from_sender-Refines :
      (s t : Option PrincipalData) (below above : List PrincipalData)
      → IsFramed s below
      → IsFramed t above
      → At from_sender s t below above
  unfolding pop_sender pop_last
  from_sender-Refines none t [] above h g = refl
  from_sender-Refines none t (p ∷ below) above h g = absurd h
  from_sender-Refines (some p) t [] above h g = (refl, (tt, g), refl, refl, refl)
  from_sender-Refines (some p) t (q ∷ below) above h g = (refl, (tt, g), refl, refl, refl)

  from_caller-Refines :
      (s t : Option PrincipalData) (below above : List PrincipalData)
      → IsFramed s below
      → IsFramed t above
      → At from_caller s t below above
  unfolding pop_caller pop_last
  from_caller-Refines s none below [] h g = refl
  from_caller-Refines s none below (p ∷ above) h g = absurd g
  from_caller-Refines s (some p) below [] h g = (refl, (h, tt), refl, refl, refl)
  from_caller-Refines s (some p) below (q ∷ above) h g = (refl, (h, tt), refl, refl, refl)

  exit-Refines :
      (s t : Option PrincipalData) (below above : List PrincipalData)
      → IsFramed s below
      → IsFramed t above
      → At exit s t below above
  unfolding pop_sender pop_caller pop_last exit_as_contract
  exit-Refines none t [] above h g = refl
  exit-Refines none t (p ∷ below) above h g = absurd h
  exit-Refines (some p) none below (q ∷ above) h g = absurd g
  exit-Refines (some p) none [] [] h g = refl
  exit-Refines (some p) none (r ∷ below) [] h g = refl
  exit-Refines (some p) (some q) [] [] h g = (refl, (tt, tt), refl, refl, refl)
  exit-Refines (some p) (some q) (r ∷ below) [] h g = (refl, (tt, tt), refl, refl, refl)
  exit-Refines (some p) (some q) [] (a ∷ above) h g = (refl, (tt, tt), refl, refl, refl)
  exit-Refines (some p) (some q) (r ∷ below) (a ∷ above) h g = (refl, (tt, tt), refl, refl, refl)

  step-Refines :
      (command : Command)
      → x.contract_context.contract_identifier ≡ c
      → IsValid x
      → Refines x (step command x) (spec_step c command (view x))
  unfolding push_sender push_caller enter_as_contract
  step-Refines (to_sender p) h v = (
    ap (λ l. record { senders = p ∷ l; callers = frames_of x.caller x.caller_stack })
        (save_current-frames_of x.sender x.sender_stack v.0),
    (tt, v.1),
    refl,
    refl,
    refl,
  )
  step-Refines (to_caller p) h v = (
    ap (λ l. record { senders = frames_of x.sender x.sender_stack; callers = p ∷ l })
        (save_current-frames_of x.caller x.caller_stack v.1),
    (v.0, tt),
    refl,
    refl,
    refl,
  )
  step-Refines from_sender h v =
      from_sender-Refines x.sender x.caller x.sender_stack x.caller_stack v.0 v.1
  step-Refines from_caller h v =
      from_caller-Refines x.sender x.caller x.sender_stack x.caller_stack v.0 v.1
  step-Refines enter h v = (
    rw
        (
          h,
          save_current-frames_of x.sender x.sender_stack v.0,
          save_current-frames_of x.caller x.caller_stack v.1,
        )
        refl,
    (tt, tt),
    refl,
    refl,
    refl,
  )
  step-Refines exit h v = exit-Refines x.sender x.caller x.sender_stack x.caller_stack v.0 v.1

module _ {G : Type 0} (c : QualifiedContractIdentifier) where
  Refines-then :
      (x y : ClarityWasmContext G) (r : Result Error (ClarityWasmContext G))
      (q : Result Error Frames)
      → y.global_context ≡ x.global_context
      → y.event_batches ≡ x.event_batches
      → y.contract_context ≡ x.contract_context
      → Refines y r q
      → Refines x r q
  Refines-then x y (ok z) (ok f) e₁ e₂ e₃ (a, b, g, v, i) = (a, b, g ∙ e₁, v ∙ e₂, i ∙ e₃)
  Refines-then x y (err e) (err e') e₁ e₂ e₃ h = h
  Refines-then x y (ok z) (err e) e₁ e₂ e₃ h = absurd h
  Refines-then x y (err e) (ok f) e₁ e₂ e₃ h = absurd h

  -- A refining step, and a refining run from the context that it gives.
  Refines-bind :
      (commands : List Command) (x : ClarityWasmContext G) (r : Result Error (ClarityWasmContext G))
      (q : Result Error Frames)
      → x.contract_context.contract_identifier ≡ c
      → Refines x r q
      → ((y : ClarityWasmContext G)
          → y.contract_context.contract_identifier ≡ c
          → IsValid y
          → Refines y (run commands y) (spec_run c commands (view y)))
      → Refines x (r >>= λ y. run commands y) (q >>= λ f. spec_run c commands f)
  Refines-bind commands x (ok y) (ok f) h (e, v, e₁, e₂, e₃) next =
      Refines-then x y (run commands y) (spec_run c commands f) e₁ e₂ e₃ (
        subst (λ f. Refines y (run commands y) (spec_run c commands f)) e
          (next y (ap (λ k. k.contract_identifier) e₃ ∙ h) v))
  Refines-bind commands x (err e) (err e') h g next = g
  Refines-bind commands x (ok y) (err e) h g next = absurd g
  Refines-bind commands x (err e) (ok f) h g next = absurd g

  -- For any sequence of pushes, pops, `enter_as_contract` and `exit_as_contract` from a context with
  -- nothing below an absent sender or caller, the code does what the sequence does on two plain
  -- stacks of principals: it fails with the same error, or ends in such a context with the stacks
  -- that the specification gives, and the global context, the events and the contract unchanged.
  pub run-Refines :
      (commands : List Command) (x : ClarityWasmContext G)
      → x.contract_context.contract_identifier ≡ c
      → IsValid x
      → Refines x (run commands x) (spec_run c commands (view x))
  run-Refines [] x h v = (refl, v, refl, refl, refl)
  run-Refines (command ∷ commands) x h v =
      Refines-bind commands x (step command x) (spec_step c command (view x)) h
        (step-Refines x c command h v) (λ y e w. run-Refines commands y e w)
