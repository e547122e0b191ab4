-- ===== src/Linker/Stx/Defs.antt =====
-- `stx_get_balance`, `stx_account`, `stx_burn` and `stx_transfer` of clar2wasm/src/linker.rs.
use clarity_wasm.Prelude.{
  ℕ, ◌==◌, Bool, true, false, List, [], Option, none, some, Result, ok, ◌>>=◌, if◌then◌else◌,
}
use clarity_wasm.Clarity.{TypeSignature, PrincipalData, principal_type, buffer_type}
use clarity_wasm.Wasm.Memory.{LinearMemory}
use clarity_wasm.Host.Errors.{Error}
use clarity_wasm.Host.Library.{ClarityLibrary}
use clarity_wasm.Host.Access.{lt_i32, value_as_buffer}
use clarity_wasm.Host.Read.{read_from_wasm}
use clarity_wasm.Linker.Caller.Defs.{
  ClarityWasmContext, stx_burn_event, stx_transfer_event, register_event, word_pair,
}
use clarity_wasm.Linker.Blocks.Defs.{wide}
use clarity_wasm.Linker.Tokens.Principals.{principal_eq, read_principal_argument}
use clarity_wasm.Linker.Tokens.Fungible.{Response, success, refusal}

-- What these functions use of the `clarity` crate. A balance snapshot is looked up and saved again
-- in one operation.
pub record StxDatabase (G : Type 0) : Type 1 where
  pub Account : Type 0
  pub type_size : TypeSignature → Result Error ℕ
  pub unlocked_and_v1_size : ℕ
  pub add_memory : G → ℕ → Result Error G
  -- `BufferLength::try_from`
  pub buffer_length : ℕ → Result Error ℕ
  pub get_available_balance : G → PrincipalData → Result Error ℕ
  pub canonical_balance : G → PrincipalData → Result Error Account
  pub get_v1_unlock_height : G → ℕ
  pub get_v2_unlock_height : G → Result Error ℕ
  pub get_v3_unlock_height : G → Result Error ℕ
  pub amount_locked : Account → ℕ
  pub amount_unlocked : Account → ℕ
  pub effective_unlock_height : Account → (v1 v2 v3 : ℕ) → ℕ
  pub can_transfer : G → PrincipalData → ℕ → Result Error Bool
  pub debit : G → PrincipalData → ℕ → Result Error G
  pub transfer_to : G → (sender recipient : PrincipalData) → ℕ → Result Error G
  pub decrement_ustx_liquid_supply : G → ℕ → Result Error G
  pub log_stx_burn : G → PrincipalData → ℕ → Result Error G
  pub log_stx_transfer : G → PrincipalData → ℕ → Result Error G

-- The discriminants of `StxErrorCodes`
abbrev pub stx_not_enough_balance : ℕ
stx_not_enough_balance = 1

abbrev pub stx_sender_is_recipient : ℕ
stx_sender_is_recipient = 2

abbrev pub stx_non_positive_amount : ℕ
stx_non_positive_amount = 3

abbrev pub stx_sender_is_not_tx_sender : ℕ
stx_sender_is_not_tx_sender = 4

-- `Some(p) == sender`
unfoldable pub is_sender : PrincipalData → Option PrincipalData → Bool
is_sender p none = false
is_sender p (some sender) = principal_eq p sender

module _ {G : Type 0} (D : StxDatabase G) where
  unfoldable pub charge_principal : G → Result Error G
  charge_principal g = do n ← D.type_size principal_type; D.add_memory g n

  -- The end of `stx_burn`, by whether the balance suffices.
  unfoldable pub burn_checked :
      ClarityWasmContext G
      → G
      → ℕ
      → PrincipalData
      → Bool
      → Result Error (Response × ClarityWasmContext G)
  burn_checked x g amount from false =
      ok (refusal stx_not_enough_balance, record x { global_context = g })
  burn_checked x g amount from true = do
    g ← D.debit g from amount
    g ← D.decrement_ustx_liquid_supply g amount
    g ← D.log_stx_burn g from amount
    ok (success, register_event (stx_burn_event from amount) (record x { global_context = g }))

  unfoldable pub burn_stx :
      ClarityWasmContext G → ℕ → PrincipalData → Result Error (Response × ClarityWasmContext G)
  burn_stx x amount from =
      let burn = (do
        g ← charge_principal x.global_context
        g ← D.add_memory g D.unlocked_and_v1_size
        enough ← D.can_transfer g from amount
        burn_checked x g amount from enough) in
      if amount == 0
      then ok (refusal stx_non_positive_amount, x)
      else if is_sender from x.sender
      then burn
      else ok (refusal stx_sender_is_not_tx_sender, x)

  -- The end of `stx_transfer`, by whether the balance suffices.
  unfoldable pub transfer_checked :
      ClarityWasmContext G
      → G
      → ℕ
      → (sender recipient : PrincipalData) → (memo : List ℕ) → Bool
      → Result Error (Response × ClarityWasmContext G)
  transfer_checked x g amount sender recipient memo false =
      ok (refusal stx_not_enough_balance, record x { global_context = g })
  transfer_checked x g amount sender recipient memo true = do
    g ← D.transfer_to g sender recipient amount
    g ← D.log_stx_transfer g sender amount
    ok (
      success,
      register_event (stx_transfer_event sender recipient amount memo)
          (record x { global_context = g }),
    )

  -- The memory of two principals and two balances.
  unfoldable pub charge_transfer : G → Result Error G
  charge_transfer g = do
    g ← charge_principal g
    g ← charge_principal g
    g ← D.add_memory g D.unlocked_and_v1_size
    D.add_memory g D.unlocked_and_v1_size

  unfoldable pub transfer_stx :
      ClarityWasmContext G
      → ℕ
      → (sender recipient : PrincipalData) → (memo : List ℕ)
      → Result Error (Response × ClarityWasmContext G)
  transfer_stx x amount sender recipient memo =
      let transfer = (do
        g ← charge_transfer x.global_context
        enough ← D.can_transfer g sender amount
        transfer_checked x g amount sender recipient memo enough) in
      if amount == 0
      then ok (refusal stx_non_positive_amount, x)
      else if principal_eq sender recipient
      then ok (refusal stx_sender_is_recipient, x)
      else if is_sender sender x.sender
      then transfer
      else ok (refusal stx_sender_is_not_tx_sender, x)

module _ (W : LinearMemory) (L : ClarityLibrary) {G : Type 0} (D : StxDatabase G) where
  unfoldable pub stx_get_balance :
      ClarityWasmContext G
      → W.Memory
      → (principal_offset principal_length : ℕ) → Result Error (ℕ × ℕ)
  stx_get_balance x m principal_offset principal_length = do
    p ← read_principal_argument W L m principal_offset principal_length
    balance ← D.get_available_balance x.global_context p
    ok (word_pair balance)

  -- The words of `{locked: uint, unlock-height: uint, unlocked: uint}`.
  unfoldable pub stx_account :
      ClarityWasmContext G
      → W.Memory
      → (principal_offset principal_length : ℕ) → Result Error ((ℕ × ℕ) × (ℕ × ℕ) × (ℕ × ℕ))
  stx_account x m principal_offset principal_length = do
    p ← read_principal_argument W L m principal_offset principal_length
    account ← D.canonical_balance x.global_context p
    let v1_unlock_ht = D.get_v1_unlock_height x.global_context
    v2_unlock_ht ← D.get_v2_unlock_height x.global_context
    v3_unlock_ht ← D.get_v3_unlock_height x.global_context
    ok (
      word_pair (D.amount_locked account),
      (D.effective_unlock_height account v1_unlock_ht v2_unlock_ht v3_unlock_ht, 0),
      word_pair (D.amount_unlocked account),
    )

  unfoldable pub stx_burn :
      ClarityWasmContext G
      → W.Memory
      → (amount_lo amount_hi principal_offset principal_length : ℕ)
      → Result Error (Response × ClarityWasmContext G)
  stx_burn x m amount_lo amount_hi principal_offset principal_length = do
    from ← read_principal_argument W L m principal_offset principal_length
    burn_stx D x (wide amount_lo amount_hi) from

  -- A memo of a positive length, or none.
  unfoldable pub read_memo : W.Memory → (memo_offset memo_length : ℕ) → Result Error (List ℕ)
  read_memo m memo_offset memo_length =
      let given = (do
        n ← D.buffer_length memo_length
        value ← read_from_wasm W L (buffer_type n) m memo_offset memo_length
        value_as_buffer value) in
      if lt_i32 0 memo_length then given else ok []

  unfoldable pub stx_transfer :
      ClarityWasmContext G
      → W.Memory
      → (amount_lo amount_hi sender_offset sender_length recipient_offset recipient_length
          memo_offset memo_length : ℕ)
      → Result Error (Response × ClarityWasmContext G)
  stx_transfer x m amount_lo amount_hi sender_offset sender_length recipient_offset recipient_length
        memo_offset memo_length =
      do
        sender ← read_principal_argument W L m sender_offset sender_length
        recipient ← read_principal_argument W L m recipient_offset recipient_length
        memo ← read_memo m memo_offset memo_length
        transfer_stx D x (wide amount_lo amount_hi) sender recipient memo
