-- ===== src/Linker/Stx/Tests.antt =====
-- A transfer of 30 of the 100 that Alice has.
use clarity_wasm.Prelude.{
  ℕ, ◌+◌, ◌≡◌, refl, true, List, [], ◌∷◌, ◌++◌, none, some, ok, leb, replicate, from_le_bytes,
}
use clarity_wasm.Clarity.{PrincipalData, standard}
use clarity_wasm.Wasm.ByteMemory.{byte_memory}
use clarity_wasm.Host.Library.{accepting}
use clarity_wasm.Host.Access.{value_as_principal, read_usize}
use clarity_wasm.Host.Read.{read_from_wasm, read_principal, read_contract}
use clarity_wasm.Linker.Caller.Defs.{ClarityWasmContext}
use clarity_wasm.Linker.Blocks.Defs.{wide}
use clarity_wasm.Linker.Tokens.Principals.{read_principal_argument}
use clarity_wasm.Linker.Stx.Defs.{
  StxDatabase, stx_transfer, stx_burn, charge_transfer, charge_principal, read_memo,
}
use clarity_wasm.Linker.Stx.Burning.{StxBurned, stx_burn-StxBurned}
use clarity_wasm.Linker.Stx.Guards.{StxTransferred, stx_transfer-StxTransferred}

abbrev alice : PrincipalData
alice = standard (record { version = 22; hash = replicate 20 1 })

abbrev bob : PrincipalData
bob = standard (record { version = 22; hash = replicate 20 2 })

-- The state counts the transfers, and everyone has 100.
abbrev counting : StxDatabase ℕ
counting = record {
  Account = ℕ;
  type_size = λ t. ok 148;
  unlocked_and_v1_size = 40;
  add_memory = λ g n. ok g;
  buffer_length = λ n. ok n;
  get_available_balance = λ g p. ok 100;
  canonical_balance = λ g p. ok 100;
  get_v1_unlock_height = λ g. 0;
  get_v2_unlock_height = λ g. ok 0;
  get_v3_unlock_height = λ g. ok 0;
  amount_locked = λ a. 0;
  amount_unlocked = λ a. a;
  effective_unlock_height = λ a v1 v2 v3. 0;
  can_transfer = λ g p amount. ok (leb amount 100);
  debit = λ g p amount. ok g;
  transfer_to = λ g from to amount. ok (g + 1);
  decrement_ustx_liquid_supply = λ g amount. ok g;
  log_stx_burn = λ g p amount. ok g;
  log_stx_transfer = λ g p amount. ok g;
}

abbrev bytes : List ℕ
bytes = (22 ∷ replicate 20 1) ++ (0 ∷ 0 ∷ 0 ∷ []) ++ (22 ∷ replicate 20 2) ++ (0 ∷ [])

abbrev x : ClarityWasmContext ℕ
x = record {
  global_context = 0;
  event_batches = [] ∷ [];
  contract_context = record {
    contract_identifier = record {
      issuer = record { version = 22; hash = replicate 20 9 };
      name = 99 ∷ [];
    };
    meta_data_var = λ name. none;
    meta_data_map = λ name. none;
    meta_ft = λ name. none;
    meta_nft = λ name. none;
  };
  sender = some alice;
  caller = none;
  sponsor = none;
  sender_stack = [];
  caller_stack = [];
  bhh_stack = [];
}

sent : read_principal_argument byte_memory accepting bytes 0 22 ≡ ok alice
unfolding read_principal_argument read_from_wasm read_principal read_contract read_usize
    value_as_principal from_le_bytes
sent = refl

received : read_principal_argument byte_memory accepting bytes 24 22 ≡ ok bob
unfolding read_principal_argument read_from_wasm read_principal read_contract read_usize
    value_as_principal from_le_bytes
received = refl

noted : read_memo byte_memory accepting counting bytes 0 0 ≡ ok []
unfolding read_memo
noted = refl

charged : charge_transfer counting 0 ≡ ok 0
unfolding charge_transfer charge_principal
charged = refl

covered : counting.can_transfer 0 alice (wide 30 0) ≡ ok true
unfolding wide
covered = refl

stx_transfer-StxTransferred_example :
    StxTransferred counting x
      (wide 30 0)
      alice
      bob
      []
      0
      1
      true
      (stx_transfer byte_memory accepting counting x bytes 30 0 0 22 24 22 0 0)
stx_transfer-StxTransferred_example =
    stx_transfer-StxTransferred byte_memory accepting counting x bytes 30 0 0 22 24 22 0 0 sent
      received noted charged covered (λ e. refl)

charged_once : charge_principal counting 0 ≡ ok 0
unfolding charge_principal
charged_once = refl

stx_burn-StxBurned_example :
    StxBurned x
      (wide 30 0)
      alice
      0
      0
      true
      (stx_burn byte_memory accepting counting x bytes 30 0 0 22)
stx_burn-StxBurned_example =
    stx_burn-StxBurned byte_memory accepting counting x bytes 30 0 0 22 sent charged_once refl
      covered (λ e. refl)
