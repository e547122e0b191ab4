-- ===== src/Linker/Calls/Stays.antt =====
-- Who calls after `contract_call` of clar2wasm/src/linker.rs: the pushed caller is never popped.
use clarity_wasm.Prelude.{
  ℕ, ◌≡◌, refl, List, ◌∷◌, some, Result, ok, AllOk, AllOk-bind, AllOk-ok, ap, false, add32,
}
use clarity_wasm.Clarity.{
  TypeSignature, Value, PrincipalData, QualifiedContractIdentifier, contract, principal_type,
}
use clarity_wasm.Layout.{get_type_size}
use clarity_wasm.Wasm.Memory.{LinearMemory}
use clarity_wasm.Host.Errors.{Error, panic, or_error, no_such_public_function}
use clarity_wasm.Host.Library.{ClarityLibrary}
use clarity_wasm.Host.Write.{write_to_wasm}
use clarity_wasm.Host.Read.{read_from_wasm}
use clarity_wasm.Runtime.Resolve.{read_identifier_from_wasm}
use clarity_wasm.Linker.Caller.Defs.{ClarityWasmContext, push_caller}
use clarity_wasm.Linker.Caller.Builtins.{contract_caller, write_principal_at}
use clarity_wasm.Linker.Caller.Frames.{IsValid, frames_of, save_current-frames_of}
use clarity_wasm.Linker.Calls.Defs.{
  CallDatabase, Global, global_of, with_global, Contract, FunctionSignature, contract_call,
  contract_of, call_function_of, read_arguments, return_type_of,
}

module _ (W : LinearMemory) (L : ClarityLibrary) {G : Type 0} where
  abbrev pub this_principal : ClarityWasmContext G → PrincipalData
  this_principal x = contract x.contract_context.contract_identifier

  -- From `x` to `y` the contract itself has become the caller, above all callers before.
  pub record CalledBy (x y : ClarityWasmContext G) : Type 0 where
    pub is_caller : y.caller ≡ some (this_principal x)
    pub callers_grow :
        frames_of y.caller y.caller_stack ≡ this_principal x ∷ frames_of x.caller x.caller_stack
    pub same_sender : y.sender ≡ x.sender
    pub reads_itself :
        (m : W.Memory) (off : ℕ)
        → contract_caller W L y m off ≡ write_principal_at W L m off (this_principal x)

  pushed-CalledBy :
      (x : ClarityWasmContext G) (global : Global G)
      → IsValid x
      → CalledBy x (with_global (push_caller (this_principal x) x) global)
  unfolding push_caller contract_caller with_global
  pushed-CalledBy x (g, batches) v = record {
    is_caller = refl;
    callers_grow =
        ap (λ l. this_principal x ∷ l) (save_current-frames_of x.caller x.caller_stack v.1);
    same_sender = refl;
    reads_itself = λ m off. refl;
  }

module _ (W : LinearMemory) (L : ClarityLibrary) (parse : List ℕ → Result Error TypeSignature)
    {G : Type 0} (D : CallDatabase G) where
  abbrev Called : ClarityWasmContext G → W.Memory × ClarityWasmContext G → Type 0
  Called x (m, y) = CalledBy W L x y

  -- The end of a call changes nothing of the context but the global one.
  call_function_of-Called :
      (x p : ClarityWasmContext G) (m : W.Memory) (id : QualifiedContractIdentifier) (name : List ℕ)
      (callee : Contract) (function : FunctionSignature) (args : List Value × List ℕ)
      (to tl ret : ℕ)
      → ((global : Global G) → CalledBy W L x (with_global p global))
      → AllOk (Called x) (call_function_of W L parse D p m id name callee function args to tl ret)
  unfolding call_function_of
  call_function_of-Called x p m id name callee function (args, sizes) to tl ret h =
      AllOk-bind _ (D.clarity_name name) _ (λ cname _.
        AllOk-bind _ (D.short_circuit_contract_call p.global_context id cname sizes) _ (λ free _.
          AllOk-bind _
            (D.execute_contract free (global_of p) id name args p.sender p.caller p.sponsor) _
            (λ r _. AllOk-bind _ (return_type_of W L parse D callee function name m to tl) _ (λ t _.
              AllOk-bind _ (or_error (get_type_size t) panic) _ (λ n _.
                AllOk-bind _ (write_to_wasm W L t m ret (add32 ret n) (r.0) false) _
                  (λ w _. h r.1))))))

  -- After a contract call that succeeds, from a context with nothing below an absent sender or
  -- caller, the calling contract itself is the caller, one above all callers before the call, with
  -- the same sender: `contract_caller` writes the contract's own principal from then on.
  pub contract_call-CalledBy :
      (x y : ClarityWasmContext G) (m m' : W.Memory)
      (trait_name_offset trait_name_length contract_offset contract_length function_offset
        function_length args_offset return_offset : ℕ)
      → IsValid x
      → contract_call W L parse D x m trait_name_offset trait_name_length contract_offset
          contract_length function_offset function_length args_offset return_offset
        ≡ ok (m', y)
      → CalledBy W L x y
  unfolding contract_call
  contract_call-CalledBy x y m m' to tl co cl fo fl ao ret v e =
      AllOk-ok (Called x) (contract_call W L parse D x m to tl co cl fo fl ao ret)
        (AllOk-bind _ (read_from_wasm W L principal_type m co cl) _ (λ value _.
          AllOk-bind _ (contract_of value) _ (λ id _.
            AllOk-bind _ (read_identifier_from_wasm W L parse m fo fl) _ (λ name _.
              AllOk-bind _ (D.get_contract x.global_context id) _ (λ callee _.
                AllOk-bind _ (or_error (callee.functions name) no_such_public_function) _
                  (λ function _.
                    AllOk-bind _ (read_arguments W L parse D function.arg_types m ao) _ (λ args _.
                      call_function_of-Called x (push_caller (this_principal W L x) x) m id name
                        callee function args to tl ret
                        (λ global. pushed-CalledBy W L x global v))))))))
        e
