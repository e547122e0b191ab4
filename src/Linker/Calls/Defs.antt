-- ===== src/Linker/Calls/Defs.antt =====
-- `contract_call`, `enter_at_block`, `exit_at_block`, `print` and the nesting of the global context
-- (clar2wasm/src/linker.rs).
use clarity_wasm.Prelude.{
  ℕ, ◌==◌, Bool, true, false, List, [], ◌∷◌, Option, Result, ok, err, ◌>>=◌, if◌then◌else◌, add32,
  length,
}
use clarity_wasm.Clarity.{
  TypeSignature, Value, PrincipalData, QualifiedContractIdentifier, principal_type, buffer_type,
  principal, contract, buffer,
}
use clarity_wasm.Layout.{get_type_size}
use clarity_wasm.Wasm.Memory.{LinearMemory}
use clarity_wasm.Host.Errors.{
  Error, panic, contract_call_expect_name, no_such_public_function, define_function_bad_signature,
  bad_block_hash, type_value_error, or_error,
}
use clarity_wasm.Host.Library.{ClarityLibrary}
use clarity_wasm.Host.Write.{write_to_wasm}
use clarity_wasm.Host.Read.{read_from_wasm, read_from_wasm_indirect}
use clarity_wasm.Runtime.Resolve.{read_identifier_from_wasm}
use clarity_wasm.Linker.Caller.Defs.{
  ClarityWasmContext, Event, print_event, register_event, push_caller, push_at_block, pop_at_block,
}

-- A function of another contract: the types of its arguments, and that of its result.
pub record FunctionSignature : Type 0 where
  pub arg_types : List TypeSignature
  pub return_type : Option TypeSignature

-- Another contract: its functions, and the result types of the functions of its traits.
pub record Contract : Type 0 where
  pub functions : List ℕ → Option FunctionSignature
  pub trait_returns : List ℕ → List ℕ → Option TypeSignature

-- The global context with its batches of events, which nest with it.
abbrev pub Global : Type 0 → Type 0
Global G = G × List (List Event)

-- The parts of the `clarity` crate that run another contract and enter another block. Block hashes
-- are bytes, and the blocks that are left are numbers.
pub record CallDatabase (G : Type 0) : Type 0 where
  pub clarity_name : List ℕ → Result Error (List ℕ)
  pub value_size : Value → Result Error ℕ
  pub get_contract : G → QualifiedContractIdentifier → Result Error Contract
  pub short_circuit_contract_call :
      G → QualifiedContractIdentifier → List ℕ → List ℕ → Result Error Bool
  -- `execute_contract_from_wasm`, for free or not, in the name of a sender, a caller and a sponsor
  pub execute_contract :
      Bool
      → Global G
      → QualifiedContractIdentifier
      → List ℕ
      → List Value
      → (sender caller sponsor : Option PrincipalData) → Result Error (Value × Global G)
  pub begin : Global G → Global G
  pub begin_read_only : Global G → Global G
  pub commit : Global G → Result Error (Global G)
  pub roll_back : Global G → Result Error (Global G)
  pub at_block_memory : ℕ
  pub add_memory : G → ℕ → Result Error G
  pub drop_memory : G → ℕ → Result Error G
  -- `StacksBlockId::from`, and `set_block_hash` with the block that is left
  pub block_id : List ℕ → ℕ
  pub set_block_hash : G → ℕ → Bool → Result Error (ℕ × G)

unfoldable pub contract_of : Value → Result Error QualifiedContractIdentifier
contract_of (principal (contract c)) = ok c
contract_of _ = err contract_call_expect_name

unfoldable pub bytes_of_hash : Value → Result Error (List ℕ)
bytes_of_hash (buffer bs) = if length bs == 32 then ok bs else err bad_block_hash
bytes_of_hash _ = err type_value_error

module _ {G : Type 0} where
  unfoldable pub global_of : ClarityWasmContext G → Global G
  global_of x = (x.global_context, x.event_batches)

  unfoldable pub with_global : ClarityWasmContext G → Global G → ClarityWasmContext G
  with_global x (g, batches) = record x { global_context = g; event_batches = batches }

module _ {G : Type 0} (D : CallDatabase G) where
  unfoldable pub begin_public_call : ClarityWasmContext G → ClarityWasmContext G
  begin_public_call x = with_global x (D.begin (global_of x))

  unfoldable pub begin_read_only_call : ClarityWasmContext G → ClarityWasmContext G
  begin_read_only_call x = with_global x (D.begin_read_only (global_of x))

  unfoldable pub commit_call : ClarityWasmContext G → Result Error (ClarityWasmContext G)
  commit_call x = do global ← D.commit (global_of x); ok (with_global x global)

  unfoldable pub roll_back_call : ClarityWasmContext G → Result Error (ClarityWasmContext G)
  roll_back_call x = do global ← D.roll_back (global_of x); ok (with_global x global)

  unfoldable pub exit_at_block : ClarityWasmContext G → Result Error (ClarityWasmContext G)
  exit_at_block x = do
    (bhh, x) ← pop_at_block x
    (_, g) ← D.set_block_hash x.global_context bhh true
    (g, batches) ← D.roll_back (g, x.event_batches)
    g ← D.drop_memory g D.at_block_memory
    ok (with_global x (g, batches))

module _ (W : LinearMemory) (L : ClarityLibrary) (parse : List ℕ → Result Error TypeSignature)
    {G : Type 0} (D : CallDatabase G) where
  unfoldable pub enter_at_block :
      ClarityWasmContext G
      → W.Memory
      → (block_hash_offset block_hash_length : ℕ) → Result Error (ClarityWasmContext G)
  enter_at_block x m block_hash_offset block_hash_length = do
    block_hash ← read_from_wasm W L (buffer_type 32) m block_hash_offset block_hash_length
    bs ← bytes_of_hash block_hash
    g ← D.add_memory x.global_context D.at_block_memory
    let (g, batches) = D.begin_read_only (g, x.event_batches)
    (prev_bhh, g) ← D.set_block_hash g (D.block_id bs) false
    ok (push_at_block prev_bhh (with_global x (g, batches)))

  unfoldable pub print :
      ClarityWasmContext G
      → W.Memory
      → (value_offset serialized_ty_offset serialized_ty_length : ℕ)
      → Result Error (ClarityWasmContext G)
  print x m value_offset serialized_ty_offset serialized_ty_length = do
    serialized_ty ← read_identifier_from_wasm W L parse m serialized_ty_offset serialized_ty_length
    value_ty ← parse serialized_ty
    clarity_val ← read_from_wasm_indirect W L value_ty m value_offset
    ok (register_event (print_event x.contract_context.contract_identifier clarity_val) x)

  -- The arguments with their sizes, one behind the other.
  unfoldable pub read_arguments :
      List TypeSignature → W.Memory → ℕ → Result Error (List Value × List ℕ)
  read_arguments [] m arg_offset = ok ([], [])
  read_arguments (arg_ty ∷ types) m arg_offset = do
    arg ← read_from_wasm_indirect W L arg_ty m arg_offset
    size ← D.value_size arg
    n ← or_error (get_type_size arg_ty) panic
    (args, sizes) ← read_arguments types m (add32 arg_offset n)
    ok (arg ∷ args, size ∷ sizes)

  -- Of a direct call, without a trait's name, or of a dynamic one.
  unfoldable pub return_type_of :
      Contract
      → FunctionSignature
      → List ℕ
      → W.Memory
      → (trait_name_offset trait_name_length : ℕ) → Result Error TypeSignature
  return_type_of callee function function_name m trait_name_offset trait_name_length =
      let dynamic = (do
        trait_name ← read_identifier_from_wasm W L parse m trait_name_offset trait_name_length
        or_error (callee.trait_returns trait_name function_name) define_function_bad_signature) in
      if trait_name_length == 0
      then or_error function.return_type define_function_bad_signature
      else dynamic

  -- The end of a call, of a function that is found, by a context that has pushed the caller.
  unfoldable pub call_function_of :
      ClarityWasmContext G
      → W.Memory
      → QualifiedContractIdentifier
      → List ℕ
      → Contract
      → FunctionSignature
      → List Value × List ℕ
      → (trait_name_offset trait_name_length return_offset : ℕ)
      → Result Error (W.Memory × ClarityWasmContext G)
  call_function_of x m contract_id function_name callee function (args, args_sizes)
        trait_name_offset trait_name_length return_offset =
      do
        name ← D.clarity_name function_name
        free ← D.short_circuit_contract_call x.global_context contract_id name args_sizes
        (result, global) ←
            D.execute_contract free (global_of x) contract_id function_name args x.sender x.caller
              x.sponsor
        return_ty ←
            return_type_of callee function function_name m trait_name_offset trait_name_length
        n ← or_error (get_type_size return_ty) panic
        (_, _, m) ← write_to_wasm W L return_ty m return_offset (add32 return_offset n) result false
        ok (m, with_global x global)

  unfoldable pub contract_call :
      ClarityWasmContext G
      → W.Memory
      → (trait_name_offset trait_name_length contract_offset contract_length function_offset
          function_length args_offset return_offset : ℕ)
      → Result Error (W.Memory × ClarityWasmContext G)
  contract_call x m trait_name_offset trait_name_length contract_offset contract_length
        function_offset function_length args_offset return_offset =
      do
        contract_val ← read_from_wasm W L principal_type m contract_offset contract_length
        contract_id ← contract_of contract_val
        function_name ← read_identifier_from_wasm W L parse m function_offset function_length
        callee ← D.get_contract x.global_context contract_id
        function ← or_error (callee.functions function_name) no_such_public_function
        args ← read_arguments function.arg_types m args_offset
        let caller_contract = contract x.contract_context.contract_identifier
        call_function_of (push_caller caller_contract x) m contract_id function_name callee function
            args trait_name_offset trait_name_length return_offset
