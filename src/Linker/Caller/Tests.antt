-- ===== src/Linker/Caller/Tests.antt =====
-- `as-contract` in a contract that a standard principal has called.
use clarity_wasm.Prelude.{ℕ, ◌+◌, ◌≤◌, ◌≡◌, refl, List, [], ◌∷◌, none, some, ok, arith, replicate}
use clarity_wasm.Clarity.{
  StandardPrincipalData, QualifiedContractIdentifier, standard, contract, principal, principal_type,
}
use clarity_wasm.Wasm.ByteMemory.{byte_memory}
use clarity_wasm.Host.Library.{accepting}
use clarity_wasm.Host.RoundTrip.Values.{Storable, of_contract}
use clarity_wasm.Linker.Context.{ContractContext}
use clarity_wasm.Linker.Caller.Defs.{
  ClarityWasmContext, new_context, enter_as_contract, exit_as_contract,
}
use clarity_wasm.Linker.Caller.Builtins.{tx_sender, contract_caller}
use clarity_wasm.Linker.Caller.Frames.{
  Command, enter, exit, from_sender, from_caller, view, spec_run, run, Refines, IsValid,
  run-Refines,
}
use clarity_wasm.Linker.Caller.Principals.{Wrote, exit_as_contract-enter_as_contract}

abbrev issuer : StandardPrincipalData
issuer = record { version = 22; hash = replicate 20 9 }

abbrev counter : QualifiedContractIdentifier
counter = record { issuer = issuer; name = 99 ∷ [] }

abbrev counter_context : ContractContext
counter_context = record {
  contract_identifier = counter;
  meta_data_var = λ name. none;
  meta_data_map = λ name. none;
  meta_ft = λ name. none;
  meta_nft = λ name. none;
}

-- Called by the issuer, without a caller.
abbrev called : ClarityWasmContext ℕ
called = new_context 0 ([] ∷ []) counter_context (some (standard issuer)) none none

called-IsValid : IsValid called
unfolding new_context
called-IsValid = (tt, tt)

called-contract : called.contract_context.contract_identifier ≡ counter
unfolding new_context
called-contract = refl

counter-Storable :
    Storable byte_memory accepting principal_type (principal (contract counter)) (22 + 1)
counter-Storable =
    of_contract {c = counter} refl (record { hash_length = refl; accepted = refl }) (omega arith)
      refl refl

-- The last command fails: the caller that it takes is absent.
abbrev commands : List Command
commands = enter ∷ enter ∷ exit ∷ exit ∷ from_sender ∷ from_caller ∷ []

run-Refines_example : Refines called (run commands called) (spec_run counter commands (view called))
run-Refines_example = run-Refines counter commands called called-contract called-IsValid

room : 8 + (22 + 1) ≤ byte_memory.size (replicate 64 0)
room = omega arith

exit_as_contract-enter_as_contract_example :
    (m' : byte_memory.Memory) × (tx_sender byte_memory accepting
        (enter_as_contract called)
        (replicate 64 0)
        8
      ≡ ok (8, 22 + 1, m'))
    × (contract_caller byte_memory accepting (enter_as_contract called) (replicate 64 0) 8
        ≡ ok (8, 22 + 1, m'))
    × Wrote byte_memory accepting
        (replicate 64 0)
        8
        (22 + 1)
        (contract called.contract_context.contract_identifier)
        m'
    × (exit_as_contract (enter_as_contract called) ≡ ok called)
unfolding new_context
exit_as_contract-enter_as_contract_example =
    exit_as_contract-enter_as_contract byte_memory accepting called (replicate 64 0) 8
      called-IsValid counter-Storable room (omega arith)
