-- ===== src/Linker/Stx/Guards.antt =====
-- When `stx_transfer` of clar2wasm/src/linker.rs moves STX, and with which code it refuses to.
use clarity_wasm.Prelude.{
  ℕ, ◌≡◌, ◌≢◌, ◌<◌, refl, Bool, true, false, List, Option, none, some, Result, ok, ◌==◌, ==_iff,
  arith, Bool-cases, bind-ok, inl, inr, ap, sym, ◌>>=◌,
}
use clarity_wasm.Clarity.{PrincipalData}
use clarity_wasm.Wasm.Memory.{LinearMemory}
use clarity_wasm.Host.Errors.{Error}
use clarity_wasm.Host.Library.{ClarityLibrary}
use clarity_wasm.Linker.Caller.Defs.{ClarityWasmContext, stx_transfer_event, register_event}
use clarity_wasm.Linker.Blocks.Defs.{wide}
use clarity_wasm.Linker.Tokens.Principals.{
  principal_eq, principal_eq_sound, principal_eq_complete, read_principal_argument,
}
use clarity_wasm.Linker.Tokens.Fungible.{Response, success, refusal}
use clarity_wasm.Linker.Stx.Defs.{
  StxDatabase, is_sender, charge_transfer, transfer_checked, transfer_stx, stx_transfer, read_memo,
  stx_not_enough_balance, stx_sender_is_recipient, stx_non_positive_amount,
  stx_sender_is_not_tx_sender,
}

module _ {G : Type 0} (D : StxDatabase G) (x : ClarityWasmContext G) (amount : ℕ)
    (from to : PrincipalData) (memo : List ℕ) where
  -- The outcomes when the transfer's memory is charged with `g`, a balance is `enough` or not, and
  -- the database moves the amount and logs that with the state `g'`.
  pub data StxTransferred (g g' : G) (enough : Bool)
      (r : Result Error (Response × ClarityWasmContext G)) : Type 0 where
    nothing_to_move :
        amount ≡ 0 → r ≡ ok (refusal stx_non_positive_amount, x) → StxTransferred g g' enough r
    to_oneself :
        0 < amount
        → from ≡ to
        → r ≡ ok (refusal stx_sender_is_recipient, x)
        → StxTransferred g g' enough r
    not_tx_sender :
        0 < amount
        → from ≢ to
        → x.sender ≢ some from
        → r ≡ ok (refusal stx_sender_is_not_tx_sender, x)
        → StxTransferred g g' enough r
    too_little :
        0 < amount
        → from ≢ to
        → x.sender ≡ some from
        → enough ≡ false
        → r ≡ ok (refusal stx_not_enough_balance, record x { global_context = g })
        → StxTransferred g g' enough r
    moved :
        0 < amount
        → from ≢ to
        → x.sender ≡ some from
        → enough ≡ true
        → r
          ≡ ok (
            success,
            register_event
                (stx_transfer_event from to amount memo)
                (record x { global_context = g' }),
          )
        → StxTransferred g g' enough r

pub is_sender_sound :
    (p : PrincipalData) (s : Option PrincipalData) → is_sender p s ≡ true → s ≡ some p
unfolding is_sender
is_sender_sound p none h = absurd (cc)
is_sender_sound p (some s) h = ap some (sym (principal_eq_sound p s h))

pub is_sender_complete :
    (p : PrincipalData) (s : Option PrincipalData) → is_sender p s ≡ false → s ≢ some p
unfolding is_sender
is_sender_complete p none h e = cc
is_sender_complete p (some s) h e = let same : s ≡ p = cc in principal_eq_complete p s h (sym same)

module _ {G : Type 0} (D : StxDatabase G) where
  -- The database moves and logs.
  abbrev pub transferred : G → (from to : PrincipalData) → ℕ → Result Error G
  transferred g from to amount = do
    g ← D.transfer_to g from to amount
    D.log_stx_transfer g from amount

  transfer_checked-true :
      (x : ClarityWasmContext G) (g : G) {g' : G} (amount : ℕ) (from to : PrincipalData)
      (memo : List ℕ)
      → transferred g from to amount ≡ ok g'
      → transfer_checked D x g amount from to memo true
        ≡ ok (
          success,
          register_event
              (stx_transfer_event from to amount memo)
              (record x { global_context = g' }),
        )
  unfolding transfer_checked
  transfer_checked-true x g {g'} amount from to memo e =
      let (g1, transferred_ok, logged) = bind-ok (D.transfer_to g from to amount) _ e in
      rw (transferred_ok, logged) refl

  transfer_checked-false :
      (x : ClarityWasmContext G) (g : G) (amount : ℕ) (from to : PrincipalData) (memo : List ℕ)
      → transfer_checked D x g amount from to memo false
        ≡ ok (refusal stx_not_enough_balance, record x { global_context = g })
  unfolding transfer_checked
  transfer_checked-false x g amount from to memo = refl

  transfer_stx-StxTransferred :
      (x : ClarityWasmContext G) (amount : ℕ) (from to : PrincipalData) (memo : List ℕ) {g g' : G}
      {enough : Bool}
      → charge_transfer D x.global_context ≡ ok g
      → D.can_transfer g from amount ≡ ok enough
      → (enough ≡ true → transferred g from to amount ≡ ok g')
      → StxTransferred D x amount from to memo g g' enough (transfer_stx D x amount from to memo)
  unfolding transfer_stx
  transfer_stx-StxTransferred x amount from to memo {g} {enough = enough} charged checked done =
      elim (Bool-cases (amount == 0)) [
        | inl z ↦ nothing_to_move ((==_iff amount 0).0 z) (rw z refl)
        | inr z ↦
            let positive : 0 < amount = ground arith in
            elim (Bool-cases (principal_eq from to)) [
              | inl p ↦ to_oneself positive (principal_eq_sound from to p) (rw (z, p) refl)
              | inr p ↦
                  let apart = principal_eq_complete from to p in
                  elim (Bool-cases (is_sender from x.sender)) [
                    | inr s ↦
                        not_tx_sender positive apart (is_sender_complete from x.sender s)
                          (rw (z, p, s) refl)
                    | inl s ↦
                        let sent = is_sender_sound from x.sender s in
                        elim (Bool-cases enough) [
                          | inl b ↦ moved positive apart sent b (
                              rw (z, p, s, charged, checked, b)
                                (transfer_checked-true x g amount from to memo (done b)))
                          | inr b ↦ too_little positive apart sent b (
                              rw (z, p, s, charged, checked, b)
                                (transfer_checked-false x g amount from to memo))
                        ]
                  ]
            ]
      ]

module _ (W : LinearMemory) (L : ClarityLibrary) {G : Type 0} (D : StxDatabase G) where
  -- With readable principals and memo, where the database can charge the memory and compare the
  -- balance, and moves and logs an amount that the balance covers, `stx_transfer` refuses an amount
  -- of 0 with code 3, else a transfer to oneself with code 2, else one that the sender of the
  -- transaction does not send with code 4, all three with the context unchanged; then one beyond the
  -- balance with code 1, with only the memory charged; else it succeeds, with the state that the
  -- move and the log give and an event with both principals, the amount and the memo.
  pub stx_transfer-StxTransferred :
      (x : ClarityWasmContext G) (m : W.Memory)
      (amount_lo amount_hi sender_offset sender_length recipient_offset recipient_length memo_offset
        memo_length : ℕ)
      {from to : PrincipalData} {memo : List ℕ} {g g' : G} {enough : Bool}
      → read_principal_argument W L m sender_offset sender_length ≡ ok from
      → read_principal_argument W L m recipient_offset recipient_length ≡ ok to
      → read_memo W L D m memo_offset memo_length ≡ ok memo
      → charge_transfer D x.global_context ≡ ok g
      → D.can_transfer g from (wide amount_lo amount_hi) ≡ ok enough
      → (enough ≡ true → transferred D g from to (wide amount_lo amount_hi) ≡ ok g')
      → StxTransferred D x (wide amount_lo amount_hi) from to memo g g' enough (
          stx_transfer W L D x m amount_lo amount_hi sender_offset sender_length recipient_offset
            recipient_length memo_offset memo_length)
  unfolding stx_transfer
  stx_transfer-StxTransferred x m lo hi so sl ro rl mo ml {from} {to} {memo} sent received noted
        charged checked done =
      rw (sent, received, noted)
        (transfer_stx-StxTransferred D x (wide lo hi) from to memo charged checked done)
