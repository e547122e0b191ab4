-- ===== src/Linker/Caller/Builtins.antt =====
-- `tx_sender`, `contract_caller`, `tx_sponsor` and the other builtin variables that the host provides
-- (clar2wasm/src/linker.rs).
use clarity_wasm.Prelude.{ℕ, Bool, false, Option, none, some, Result, ok, ◌>>=◌}
use clarity_wasm.Clarity.{PrincipalData, principal, principal_type}
use clarity_wasm.Wasm.Memory.{LinearMemory}
use clarity_wasm.Host.Errors.{Error, or_error, no_sender_in_context, no_caller_in_context}
use clarity_wasm.Host.Library.{ClarityLibrary}
use clarity_wasm.Host.Write.{write_to_wasm}
use clarity_wasm.Linker.Caller.Defs.{ClarityWasmContext, flag_of, word_pair}

module _ (W : LinearMemory) (L : ClarityLibrary) where
  -- The bytes of a principal at the offset, without a representation, and their number.
  unfoldable pub write_principal_at : W.Memory → ℕ → PrincipalData → Result Error (ℕ × ℕ × W.Memory)
  write_principal_at m return_offset p = do
    (_, bytes_written, m) ←
        write_to_wasm W L principal_type m return_offset return_offset (principal p) false
    ok (return_offset, bytes_written, m)

  unfoldable pub write_sponsor :
      Option PrincipalData → W.Memory → ℕ → Result Error (ℕ × ℕ × ℕ × W.Memory)
  write_sponsor none m return_offset = ok (0, return_offset, 0, m)
  write_sponsor (some sponsor) m return_offset = do
    (offset, bytes_written, m) ← write_principal_at m return_offset sponsor
    ok (1, offset, bytes_written, m)

module _ (W : LinearMemory) (L : ClarityLibrary) {G : Type 0} where
  unfoldable pub tx_sender : ClarityWasmContext G → W.Memory → ℕ → Result Error (ℕ × ℕ × W.Memory)
  tx_sender x m return_offset = do
    sender ← or_error x.sender no_sender_in_context
    write_principal_at W L m return_offset sender

  unfoldable pub contract_caller :
      ClarityWasmContext G → W.Memory → ℕ → Result Error (ℕ × ℕ × W.Memory)
  contract_caller x m return_offset = do
    caller ← or_error x.caller no_caller_in_context
    write_principal_at W L m return_offset caller

  unfoldable pub tx_sponsor :
      ClarityWasmContext G → W.Memory → ℕ → Result Error (ℕ × ℕ × ℕ × W.Memory)
  tx_sponsor x m return_offset = write_sponsor W L x.sponsor m return_offset

-- What the builtin variables on the chain read of the global context and its database.
pub record ChainDatabase (G : Type 0) : Type 0 where
  pub get_current_block_height : G → ℕ
  pub get_tenure_height : G → Result Error ℕ
  pub get_current_burnchain_block_height : G → Result Error ℕ
  pub get_total_liquid_ustx : G → Result Error ℕ
  pub is_in_regtest : G → Bool
  pub mainnet : G → Bool
  pub chain_id : G → ℕ

module _ {G : Type 0} (D : ChainDatabase G) where
  unfoldable pub block_height : ClarityWasmContext G → ℕ × ℕ
  block_height x = (D.get_current_block_height x.global_context, 0)

  unfoldable pub stacks_block_height : ClarityWasmContext G → ℕ × ℕ
  stacks_block_height x = (D.get_current_block_height x.global_context, 0)

  unfoldable pub tenure_height : ClarityWasmContext G → Result Error (ℕ × ℕ)
  tenure_height x = do height ← D.get_tenure_height x.global_context; ok (height, 0)

  unfoldable pub burn_block_height : ClarityWasmContext G → Result Error (ℕ × ℕ)
  burn_block_height x = do
    height ← D.get_current_burnchain_block_height x.global_context
    ok (height, 0)

  unfoldable pub stx_liquid_supply : ClarityWasmContext G → Result Error (ℕ × ℕ)
  stx_liquid_supply x = do supply ← D.get_total_liquid_ustx x.global_context; ok (word_pair supply)

  unfoldable pub is_in_regtest : ClarityWasmContext G → ℕ
  is_in_regtest x = flag_of (D.is_in_regtest x.global_context)

  unfoldable pub is_in_mainnet : ClarityWasmContext G → ℕ
  is_in_mainnet x = flag_of (D.mainnet x.global_context)

  unfoldable pub chain_id : ClarityWasmContext G → ℕ × ℕ
  chain_id x = (D.chain_id x.global_context, 0)
