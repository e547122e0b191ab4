-- ===== src/Linker/Caller/Defs.antt =====
-- `ClarityWasmContext` and its methods (clar2wasm/src/initialize.rs), `enter_as_contract`,
-- `exit_as_contract` (clar2wasm/src/linker.rs).
use clarity_wasm.Prelude.{
  ℕ, Bool, true, false, List, [], ◌∷◌, Option, none, some, Result, ok, ◌>>=◌, ◌/◌, ◌%◌, ◌^◌,
}
use clarity_wasm.Clarity.{Value, PrincipalData, QualifiedContractIdentifier, contract}
use clarity_wasm.Host.Errors.{
  Error, or_error, no_sender_in_context, no_caller_in_context, wasm_generator_error,
}
use clarity_wasm.Linker.Context.{ContractContext}

pub record AssetIdentifier : Type 0 where
  pub contract_identifier : QualifiedContractIdentifier
  pub asset_name : List ℕ

-- `StacksTransactionEvent`
pub data Event : Type 0 where
  print_event : QualifiedContractIdentifier → Value → Event
  stx_transfer_event : (sender recipient : PrincipalData) → ℕ → (memo : List ℕ) → Event
  stx_burn_event : PrincipalData → ℕ → Event
  nft_transfer_event : (sender recipient : PrincipalData) → AssetIdentifier → Value → Event
  nft_mint_event nft_burn_event : PrincipalData → AssetIdentifier → Value → Event
  ft_transfer_event : (sender recipient : PrincipalData) → AssetIdentifier → ℕ → Event
  ft_mint_event ft_burn_event : PrincipalData → AssetIdentifier → ℕ → Event

-- What is pushed last comes first. `G` is the global context, whose batches of events stand here.
pub record ClarityWasmContext (G : Type 0) : Type 0 where
  pub global_context : G
  pub event_batches : List (List Event)
  pub contract_context : ContractContext
  pub sender : Option PrincipalData
  pub caller : Option PrincipalData
  pub sponsor : Option PrincipalData
  pub sender_stack : List PrincipalData
  pub caller_stack : List PrincipalData
  pub bhh_stack : List ℕ

-- `Vec::pop`
unfoldable pub pop_last {ℓ} : {A : Type ℓ} → List A → Option A × List A
pop_last [] = (none, [])
pop_last (a ∷ rest) = (some a, rest)

-- `take` the current one, and push it on the stack.
unfoldable pub save_current : Option PrincipalData → List PrincipalData → List PrincipalData
save_current none stack = stack
save_current (some current) stack = current ∷ stack

unfoldable pub push_to_event_batch : Event → List (List Event) → List (List Event)
push_to_event_batch event [] = []
push_to_event_batch event (batch ∷ batches) = (event ∷ batch) ∷ batches

unfoldable pub flag_of : Bool → ℕ
flag_of true = 1
flag_of false = 0

-- The low word and the high one of an `u128`.
unfoldable pub word_pair : ℕ → ℕ × ℕ
word_pair n = (n % 2 ^ 64, n / 2 ^ 64 % 2 ^ 64)

module _ {G : Type 0} where
  -- `new_init` and `new_run`
  unfoldable pub new_context :
      G
      → List (List Event)
      → ContractContext
      → (sender caller sponsor : Option PrincipalData) → ClarityWasmContext G
  new_context g batches c sender caller sponsor = record {
    global_context = g;
    event_batches = batches;
    contract_context = c;
    sender = sender;
    caller = caller;
    sponsor = sponsor;
    sender_stack = [];
    caller_stack = [];
    bhh_stack = [];
  }

  unfoldable pub push_sender : PrincipalData → ClarityWasmContext G → ClarityWasmContext G
  push_sender p x = record x {
    sender = some p;
    sender_stack = save_current x.sender x.sender_stack;
  }

  unfoldable pub push_caller : PrincipalData → ClarityWasmContext G → ClarityWasmContext G
  push_caller p x = record x {
    caller = some p;
    caller_stack = save_current x.caller x.caller_stack;
  }

  unfoldable pub pop_sender :
      ClarityWasmContext G → Result Error (PrincipalData × ClarityWasmContext G)
  pop_sender x = do
    p ← or_error x.sender no_sender_in_context
    let (below, rest) = pop_last x.sender_stack
    ok (p, record x { sender = below; sender_stack = rest })

  unfoldable pub pop_caller :
      ClarityWasmContext G → Result Error (PrincipalData × ClarityWasmContext G)
  pop_caller x = do
    p ← or_error x.caller no_caller_in_context
    let (below, rest) = pop_last x.caller_stack
    ok (p, record x { caller = below; caller_stack = rest })

  unfoldable pub push_at_block : ℕ → ClarityWasmContext G → ClarityWasmContext G
  push_at_block bhh x = record x { bhh_stack = bhh ∷ x.bhh_stack }

  unfoldable pub pop_at_block : ClarityWasmContext G → Result Error (ℕ × ClarityWasmContext G)
  pop_at_block x = do
    let (top, rest) = pop_last x.bhh_stack
    bhh ← or_error top wasm_generator_error
    ok (bhh, record x { bhh_stack = rest })

  -- The `register_..._event` methods build the event and push it.
  unfoldable pub register_event : Event → ClarityWasmContext G → ClarityWasmContext G
  register_event event x = record x { event_batches = push_to_event_batch event x.event_batches }

  unfoldable pub enter_as_contract : ClarityWasmContext G → ClarityWasmContext G
  enter_as_contract x =
      let contract_principal = contract x.contract_context.contract_identifier in
      push_caller contract_principal (push_sender contract_principal x)

  unfoldable pub exit_as_contract : ClarityWasmContext G → Result Error (ClarityWasmContext G)
  exit_as_contract x = do (_, x) ← pop_sender x; (_, x) ← pop_caller x; ok x
