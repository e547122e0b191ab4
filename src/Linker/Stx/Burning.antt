-- ===== src/Linker/Stx/Burning.antt =====
-- When `stx_burn` of clar2wasm/src/linker.rs burns STX, and with which code it refuses to.
use clarity_wasm.Prelude.{
  ℕ, ◌≡◌, ◌≢◌, ◌<◌, refl, true, false, Bool, some, Result, ok, ◌==◌, ==_iff, arith, Bool-cases,
  bind-ok, inl, inr, ◌>>=◌,
}
use clarity_wasm.Clarity.{PrincipalData}
use clarity_wasm.Wasm.Memory.{LinearMemory}
use clarity_wasm.Host.Errors.{Error}
use clarity_wasm.Host.Library.{ClarityLibrary}
use clarity_wasm.Linker.Caller.Defs.{ClarityWasmContext, stx_burn_event, register_event}
use clarity_wasm.Linker.Blocks.Defs.{wide}
use clarity_wasm.Linker.Tokens.Principals.{read_principal_argument}
use clarity_wasm.Linker.Tokens.Fungible.{Response, success, refusal}
use clarity_wasm.Linker.Stx.Defs.{
  StxDatabase, is_sender, charge_principal, burn_checked, burn_stx, stx_burn,
  stx_not_enough_balance, stx_non_positive_amount, stx_sender_is_not_tx_sender,
}
use clarity_wasm.Linker.Stx.Guards.{is_sender_sound, is_sender_complete}

module _ {G : Type 0} (x : ClarityWasmContext G) (amount : ℕ) (from : PrincipalData) where
  -- The outcomes when the memory is charged with `g`, the balance is `enough` or not, and the
  -- database burns the amount and logs that with the state `g'`.
  pub data StxBurned (g g' : G) (enough : Bool) (r : Result Error (Response × ClarityWasmContext G))
      : Type 0 where
    nothing_to_burn :
        amount ≡ 0 → r ≡ ok (refusal stx_non_positive_amount, x) → StxBurned g g' enough r
    not_tx_sender :
        0 < amount
        → x.sender ≢ some from
        → r ≡ ok (refusal stx_sender_is_not_tx_sender, x)
        → StxBurned g g' enough r
    too_little :
        0 < amount
        → x.sender ≡ some from
        → enough ≡ false
        → r ≡ ok (refusal stx_not_enough_balance, record x { global_context = g })
        → StxBurned g g' enough r
    burned :
        0 < amount
        → x.sender ≡ some from
        → enough ≡ true
        → r
          ≡ ok (
            success,
            register_event (stx_burn_event from amount) (record x { global_context = g' }),
          )
        → StxBurned g g' enough r

module _ {G : Type 0} (D : StxDatabase G) where
  -- The database takes the amount from the balance and from the liquid supply, and logs.
  abbrev pub taken : G → PrincipalData → ℕ → Result Error G
  taken g from amount = do
    g ← D.debit g from amount
    g ← D.decrement_ustx_liquid_supply g amount
    D.log_stx_burn g from amount

  burn_checked-true :
      (x : ClarityWasmContext G) (g : G) {g' : G} (amount : ℕ) (from : PrincipalData)
      → taken g from amount ≡ ok g'
      → burn_checked D x g amount from true
        ≡ ok (
          success,
          register_event (stx_burn_event from amount) (record x { global_context = g' }),
        )
  unfolding burn_checked
  burn_checked-true x g amount from e =
      let (g1, debited, rest) = bind-ok (D.debit g from amount) _ e in
      let (g2, less, logged) = bind-ok (D.decrement_ustx_liquid_supply g1 amount) _ rest in
      rw (debited, less, logged) refl

  burn_checked-false :
      (x : ClarityWasmContext G) (g : G) (amount : ℕ) (from : PrincipalData)
      → burn_checked D x g amount from false
        ≡ ok (refusal stx_not_enough_balance, record x { global_context = g })
  unfolding burn_checked
  burn_checked-false x g amount from = refl

  burn_stx-StxBurned :
      (x : ClarityWasmContext G) (amount : ℕ) (from : PrincipalData) {g₁ g g' : G} {enough : Bool}
      → charge_principal D x.global_context ≡ ok g₁
      → D.add_memory g₁ D.unlocked_and_v1_size ≡ ok g
      → D.can_transfer g from amount ≡ ok enough
      → (enough ≡ true → taken g from amount ≡ ok g')
      → StxBurned x amount from g g' enough (burn_stx D x amount from)
  unfolding burn_stx
  burn_stx-StxBurned x amount from {g₁} {g} {enough = enough} charged added checked done =
      elim (Bool-cases (amount == 0)) [
        | inl z ↦ nothing_to_burn ((==_iff amount 0).0 z) (rw z refl)
        | inr z ↦
            let positive : 0 < amount = ground arith in
            elim (Bool-cases (is_sender from x.sender)) [
              | inr s ↦ not_tx_sender positive (is_sender_complete from x.sender s) (rw (z, s) refl)
              | inl s ↦
                  let sent = is_sender_sound from x.sender s in
                  elim (Bool-cases enough) [
                    | inl b ↦ burned positive sent b (
                        rw (z, s, charged, added, checked, b)
                          (burn_checked-true x g amount from (done b)))
                    | inr b ↦
                        too_little positive sent b (
                          rw (z, s, charged, added, checked, b)
                            (burn_checked-false x g amount from))
                  ]
            ]
      ]

module _ (W : LinearMemory) (L : ClarityLibrary) {G : Type 0} (D : StxDatabase G) where
  -- With a readable principal, where the database can charge the memory and compare the balance,
  -- and takes and logs an amount that the balance covers, `stx_burn` refuses an amount of 0 with
  -- code 3, else one that is not the transaction sender's with code 4, both with the context
  -- unchanged; then one beyond the balance with code 1, with only the memory charged; else it
  -- succeeds, with the state after the balance and the liquid supply are lowered and an event with
  -- the principal and the amount.
  pub stx_burn-StxBurned :
      (x : ClarityWasmContext G) (m : W.Memory)
      (amount_lo amount_hi principal_offset principal_length : ℕ) {from : PrincipalData}
      {g₁ g g' : G} {enough : Bool}
      → read_principal_argument W L m principal_offset principal_length ≡ ok from
      → charge_principal D x.global_context ≡ ok g₁
      → D.add_memory g₁ D.unlocked_and_v1_size ≡ ok g
      → D.can_transfer g from (wide amount_lo amount_hi) ≡ ok enough
      → (enough ≡ true → taken D g from (wide amount_lo amount_hi) ≡ ok g')
      → StxBurned x
          (wide amount_lo amount_hi)
          from
          g
          g'
          enough
          (stx_burn W L D x m amount_lo amount_hi principal_offset principal_length)
  unfolding stx_burn
  stx_burn-StxBurned x m lo hi po pl {from} read charged added checked done =
      rw read (burn_stx-StxBurned D x (wide lo hi) from charged added checked done)
