-- ===== src/Linker/Tokens/Fungible.antt =====
-- The host functions of clar2wasm/src/linker.rs on fungible tokens. A response of `bool` and `uint`
-- is its indicator, the `ok` word, and the two words of the `err` value.
use clarity_wasm.Prelude.{
  ℕ, ◌+◌, ◌-◌, ◌^◌, List, none, some, Result, ok, err, ◌>>=◌, if◌then◌else◌, ◌==◌, ltb,
}
use clarity_wasm.Clarity.{
  TypeSignature, PrincipalData, QualifiedContractIdentifier, principal_type, uint_type,
}
use clarity_wasm.Wasm.Memory.{LinearMemory}
use clarity_wasm.Host.Errors.{Error, no_such_ft, arithmetic_overflow, or_error}
use clarity_wasm.Host.Library.{ClarityLibrary}
use clarity_wasm.Runtime.Resolve.{read_identifier_from_wasm}
use clarity_wasm.Linker.Caller.Defs.{
  ClarityWasmContext, ft_transfer_event, ft_mint_event, ft_burn_event, register_event, word_pair,
}
use clarity_wasm.Linker.Blocks.Defs.{wide}
use clarity_wasm.Linker.Tokens.Principals.{principal_eq, read_principal_argument}
use clarity_wasm.Linker.Tokens.Database.{AssetDatabase, charge}

abbrev pub Response : Type 0
Response = ℕ × ℕ × ℕ × ℕ

-- `(ok true)` and `(err code)`
abbrev pub success : Response
success = (1, 1, 0, 0)

abbrev pub refusal : ℕ → Response
refusal code = (0, 0, code, 0)

-- The discriminants of `TransferTokenErrorCodes`, `MintTokenErrorCodes` and `BurnTokenErrorCodes`
abbrev pub transfer_not_enough_balance : ℕ
transfer_not_enough_balance = 1

abbrev pub transfer_sender_is_recipient : ℕ
transfer_sender_is_recipient = 2

abbrev pub transfer_non_positive_amount : ℕ
transfer_non_positive_amount = 3

abbrev pub mint_non_positive_amount : ℕ
mint_non_positive_amount = 1

abbrev pub burn_not_enough_balance_or_non_positive : ℕ
burn_not_enough_balance_or_non_positive = 1

-- `checked_add` of `u128`
unfoldable pub checked_add : ℕ → ℕ → Result Error ℕ
checked_add a b = if ltb (a + b) (2 ^ 128) then ok (a + b) else err arithmetic_overflow

module _ {G : Type 0} (D : AssetDatabase G) where
  abbrev pub Context : Type 0
  Context = ClarityWasmContext G

  abbrev pub this_contract : Context → QualifiedContractIdentifier
  this_contract x = x.contract_context.contract_identifier

  -- The end of `ft_transfer`, once the balances are known to suffice.
  unfoldable pub move_tokens :
      Context
      → List ℕ
      → ℕ
      → (from to : PrincipalData) → (final_from_bal final_to_bal : ℕ)
      → Result Error (Response × Context)
  move_tokens x token_name amount from to final_from_bal final_to_bal = do
    g ← charge D principal_type x.global_context
    g ← charge D principal_type g
    g ← charge D uint_type g
    g ← charge D uint_type g
    g ← D.set_ft_balance g (this_contract x) token_name from final_from_bal
    g ← D.set_ft_balance g (this_contract x) token_name to final_to_bal
    g ← D.log_token_transfer g from (this_contract x) token_name amount
    ok (
      success,
      register_event
          (ft_transfer_event from to
            (record { contract_identifier = this_contract x; asset_name = token_name }) amount)
          (record x { global_context = g }),
    )

  unfoldable pub transfer_tokens :
      Context → List ℕ → ℕ → (from to : PrincipalData) → Result Error (Response × Context)
  transfer_tokens x token_name amount from to =
      let transfer = (do
        ft_info ← or_error (x.contract_context.meta_ft token_name) (no_such_ft token_name)
        from_bal ←
            D.get_ft_balance x.global_context (this_contract x) token_name from (some ft_info)
        let enough = (do
          to_bal ← D.get_ft_balance x.global_context (this_contract x) token_name to (some ft_info)
          final_to_bal ← checked_add to_bal amount
          move_tokens x token_name amount from to (from_bal - amount) final_to_bal)
        if ltb from_bal amount then ok (refusal transfer_not_enough_balance, x) else enough) in
      if amount == 0
      then ok (refusal transfer_non_positive_amount, x)
      else if principal_eq from to
      then ok (refusal transfer_sender_is_recipient, x)
      else transfer

  unfoldable pub mint_tokens :
      Context → List ℕ → ℕ → PrincipalData → Result Error (Response × Context)
  mint_tokens x token_name amount to =
      let mint = (do
        ft_info ← or_error (x.contract_context.meta_ft token_name) (no_such_ft token_name)
        g ←
            D.checked_increase_token_supply x.global_context (this_contract x) token_name amount
              ft_info
        to_bal ← D.get_ft_balance g (this_contract x) token_name to (some ft_info)
        final_to_bal ← checked_add to_bal amount
        g ← charge D principal_type g
        g ← charge D uint_type g
        g ← D.set_ft_balance g (this_contract x) token_name to final_to_bal
        ok (
          success,
          register_event
              (ft_mint_event to
                (record { contract_identifier = this_contract x; asset_name = token_name }) amount)
              (record x { global_context = g }),
        )) in
      if amount == 0 then ok (refusal mint_non_positive_amount, x) else mint

  -- `ft_burn`, once the balance is known to suffice. The event touches no global state, so it comes last.
  unfoldable pub remove_tokens :
      Context
      → List ℕ
      → ℕ
      → PrincipalData
      → (final_burner_bal : ℕ) → Result Error (Response × Context)
  remove_tokens x token_name amount burner final_burner_bal = do
    g ← D.checked_decrease_token_supply x.global_context (this_contract x) token_name amount
    g ← D.set_ft_balance g (this_contract x) token_name burner final_burner_bal
    g ← charge D principal_type g
    g ← charge D uint_type g
    g ← D.log_token_transfer g burner (this_contract x) token_name amount
    ok (
      success,
      register_event
          (ft_burn_event burner
            (record { contract_identifier = this_contract x; asset_name = token_name }) amount)
          (record x { global_context = g }),
    )

  unfoldable pub burn_tokens :
      Context → List ℕ → ℕ → PrincipalData → Result Error (Response × Context)
  burn_tokens x token_name amount burner =
      let refused : Result Error (Response × Context) =
        ok (refusal burn_not_enough_balance_or_non_positive, x) in
      let burn = (do
        burner_bal ← D.get_ft_balance x.global_context (this_contract x) token_name burner none
        let enough = remove_tokens x token_name amount burner (burner_bal - amount)
        if ltb burner_bal amount then refused else enough) in
      if amount == 0 then refused else burn

module _ (W : LinearMemory) (L : ClarityLibrary) (parse : List ℕ → Result Error TypeSignature)
    {G : Type 0} (D : AssetDatabase G) where
  unfoldable pub ft_get_supply :
      ClarityWasmContext G → W.Memory → (name_offset name_length : ℕ) → Result Error (ℕ × ℕ)
  ft_get_supply x m name_offset name_length = do
    token_name ← read_identifier_from_wasm W L parse m name_offset name_length
    supply ← D.get_ft_supply x.global_context (this_contract D x) token_name
    ok (word_pair supply)

  unfoldable pub ft_get_balance :
      ClarityWasmContext G
      → W.Memory
      → (name_offset name_length owner_offset owner_length : ℕ) → Result Error (ℕ × ℕ)
  ft_get_balance x m name_offset name_length owner_offset owner_length = do
    name ← read_identifier_from_wasm W L parse m name_offset name_length
    token_name ← D.clarity_name name
    owner ← read_principal_argument W L m owner_offset owner_length
    ft_info ← or_error (x.contract_context.meta_ft token_name) (no_such_ft token_name)
    balance ← D.get_ft_balance x.global_context (this_contract D x) token_name owner (some ft_info)
    ok (word_pair balance)

  -- What `ft_burn` and `ft_mint` share: a name, an amount and a principal.
  unfoldable pub with_ft_arguments :
      (List ℕ → ℕ → PrincipalData → Result Error (Response × ClarityWasmContext G))
      → W.Memory
      → (name_offset name_length amount_lo amount_hi sender_offset sender_length : ℕ)
      → Result Error (Response × ClarityWasmContext G)
  with_ft_arguments body m name_offset name_length amount_lo amount_hi sender_offset sender_length =
      do
        name ← read_identifier_from_wasm W L parse m name_offset name_length
        token_name ← D.clarity_name name
        p ← read_principal_argument W L m sender_offset sender_length
        body token_name (wide amount_lo amount_hi) p

  unfoldable pub ft_burn :
      ClarityWasmContext G
      → W.Memory
      → (name_offset name_length amount_lo amount_hi sender_offset sender_length : ℕ)
      → Result Error (Response × ClarityWasmContext G)
  ft_burn x = with_ft_arguments (burn_tokens D x)

  unfoldable pub ft_mint :
      ClarityWasmContext G
      → W.Memory
      → (name_offset name_length amount_lo amount_hi sender_offset sender_length : ℕ)
      → Result Error (Response × ClarityWasmContext G)
  ft_mint x = with_ft_arguments (mint_tokens D x)

  unfoldable pub ft_transfer :
      ClarityWasmContext G
      → W.Memory
      → (name_offset name_length amount_lo amount_hi sender_offset sender_length recipient_offset
          recipient_length : ℕ)
      → Result Error (Response × ClarityWasmContext G)
  ft_transfer x m name_offset name_length amount_lo amount_hi sender_offset sender_length
        recipient_offset recipient_length =
      do
        name ← read_identifier_from_wasm W L parse m name_offset name_length
        token_name ← D.clarity_name name
        from ← read_principal_argument W L m sender_offset sender_length
        to ← read_principal_argument W L m recipient_offset recipient_length
        transfer_tokens D x token_name (wide amount_lo amount_hi) from to
