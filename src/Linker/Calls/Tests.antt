-- ===== src/Linker/Calls/Tests.antt =====
-- A call of a function without arguments, which gives `u5`.
use clarity_wasm.Prelude.{
  ℕ, ◌+◌, ◌≡◌, refl, false, List, [], ◌∷◌, ◌++◌, none, some, Result, ok, err, replicate, add32,
  from_le_bytes, to_le_bytes,
}
use clarity_wasm.Clarity.{TypeSignature, uint, uint_type, contract}
use clarity_wasm.Wasm.ByteMemory.{byte_memory}
use clarity_wasm.Host.Errors.{Error, panic}
use clarity_wasm.Host.Access.{read_usize, read_bytes_from_wasm, value_as_u128, write_mem}
use clarity_wasm.Host.Write.{write_to_wasm, write_words}
use clarity_wasm.Host.Read.{read_from_wasm, read_principal, read_contract, contract_value}
use clarity_wasm.Runtime.Resolve.{read_identifier_from_wasm}
use clarity_wasm.Layout.{get_type_size}
use clarity_wasm.Host.Library.{accepting}
use clarity_wasm.Linker.Context.{ContractContext}
use clarity_wasm.Linker.Caller.Defs.{ClarityWasmContext, push_caller, save_current}
use clarity_wasm.Linker.Calls.Defs.{
  CallDatabase, global_of, with_global, contract_call, call_function_of, contract_of,
  read_arguments, return_type_of,
}
use clarity_wasm.Linker.Calls.Stays.{CalledBy, contract_call-CalledBy}

-- The state counts the calls.
abbrev counting : CallDatabase ℕ
counting = record {
  clarity_name = λ name. ok name;
  value_size = λ v. ok 1;
  get_contract = λ g c. ok (record {
    functions = λ name. some (record { arg_types = []; return_type = some uint_type });
    trait_returns = λ t f. none;
  });
  short_circuit_contract_call = λ g c f sizes. ok false;
  execute_contract = λ free g c f args sender caller sponsor. ok (uint 5, (g.0 + 1, g.1));
  begin = λ g. g;
  begin_read_only = λ g. g;
  commit = λ g. ok g;
  roll_back = λ g. ok g;
  at_block_memory = 1;
  add_memory = λ g n. ok g;
  drop_memory = λ g n. ok g;
  block_id = λ bs. 0;
  set_block_hash = λ g h b. ok (0, g);
}

-- The name of the function, and the contract to call.
abbrev names : List ℕ
names = (97 ∷ replicate 7 0) ++ (22 ∷ replicate 20 9) ++ (1 ∷ 99 ∷ []) ++ replicate 9 0

abbrev bytes : List ℕ
bytes = names ++ replicate 24 0

abbrev result_bytes : List ℕ
result_bytes = names ++ (5 ∷ replicate 23 0)

abbrev no_types : List ℕ → Result Error TypeSignature
no_types text = err panic

abbrev calling : ContractContext
calling = record {
  contract_identifier = record {
    issuer = record { version = 22; hash = replicate 20 9 };
    name = 98 ∷ [];
  };
  meta_data_var = λ name. none;
  meta_data_map = λ name. none;
  meta_ft = λ name. none;
  meta_nft = λ name. none;
}

abbrev x : ClarityWasmContext ℕ
x = record {
  global_context = 0;
  event_batches = [] ∷ [];
  contract_context = calling;
  sender = none;
  caller = none;
  sponsor = none;
  sender_stack = [];
  caller_stack = [];
  bhh_stack = [];
}

abbrev y : ClarityWasmContext ℕ
y = record x { global_context = 1; caller = some (contract calling.contract_identifier) }

called :
    contract_call byte_memory accepting no_types counting x bytes 0 0 8 23 0 1 0 40
    ≡ ok (result_bytes, y)
unfolding contract_call read_from_wasm read_principal read_usize read_contract from_le_bytes
    contract_of contract_value read_identifier_from_wasm read_bytes_from_wasm read_arguments
    call_function_of return_type_of get_type_size write_to_wasm value_as_u128 write_words write_mem
    push_caller save_current add32 to_le_bytes global_of with_global
called = refl

contract_call-CalledBy_example : CalledBy byte_memory accepting x y
contract_call-CalledBy_example =
    contract_call-CalledBy byte_memory accepting no_types counting x y bytes result_bytes 0 0 8 23 0
      1 0 40 (tt, tt) called
