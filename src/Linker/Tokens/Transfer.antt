-- ===== src/Linker/Tokens/Transfer.antt =====
-- What `ft_transfer` of clar2wasm/src/linker.rs does to the balances, once its arguments are read.
use clarity_wasm.Prelude.{
  ℕ, ◌+◌, ◌-◌, ◌≤◌, ◌<◌, ◌^◌, ◌≡◌, ◌≢◌, refl, ◌∙◌, List, Option, some, Result, ok, err, arith, ltb,
  ◌==◌, ==_iff, Bool-cases, inl, inr,
}
use clarity_wasm.Clarity.{
  TypeSignature, PrincipalData, QualifiedContractIdentifier, principal_type, uint_type,
}
use clarity_wasm.Wasm.Memory.{LinearMemory}
use clarity_wasm.Host.Errors.{Error, arithmetic_overflow}
use clarity_wasm.Host.Library.{ClarityLibrary}
use clarity_wasm.Runtime.Resolve.{read_identifier_from_wasm}
use clarity_wasm.Linker.Caller.Defs.{ClarityWasmContext, ft_transfer_event, register_event}
use clarity_wasm.Linker.Blocks.Defs.{wide}
use clarity_wasm.Linker.Tokens.Principals.{
  principal_eq, principal_eq_sound, principal_eq_complete, read_principal_argument,
}
use clarity_wasm.Linker.Tokens.Database.{
  AssetDatabase, AssetLaws, Unlimited, SameBalances, SameSupply, charge,
}
use clarity_wasm.Linker.Tokens.Fungible.{
  Context, Response, success, refusal, this_contract, move_tokens, transfer_tokens, ft_transfer,
  checked_add, transfer_not_enough_balance, transfer_sender_is_recipient,
  transfer_non_positive_amount,
}

module _ {G : Type 0} (D : AssetDatabase G) (laws : AssetLaws D) (unlimited : Unlimited D) where
  -- Balances and supply of a token are as before.
  abbrev pub Unchanged : QualifiedContractIdentifier → List ℕ → G → G → Type 0
  Unchanged c name g g' = SameBalances D c name g g' × SameSupply D c name g g'

  pub Unchanged-then :
      {c : QualifiedContractIdentifier} {name : List ℕ} {g g' g'' : G}
      → Unchanged c name g g'
      → Unchanged c name g' g''
      → Unchanged c name g g''
  Unchanged-then (b, s) (b', s') = (λ p d. b' p d ∙ b p d, s' ∙ s)

  pub charge-Unchanged :
      (c : QualifiedContractIdentifier) (name : List ℕ) (t : TypeSignature) (g : G)
      → (g' : G) × (charge D t g ≡ ok g') × Unchanged c name g g'
  unfolding charge
  charge-Unchanged c name t g =
      let (n, e) = unlimited.sized t in
      let (g', f) = unlimited.has_memory g n in (g', rw (e, f) refl, laws.add_memory_same c name f)

  -- A token's balances after `amount` has moved.
  pub record Moved (c : QualifiedContractIdentifier) (name : List ℕ) (amount : ℕ)
      (from to : PrincipalData) (g g' : G) (a b : ℕ) : Type 0 where
    pub left : (d : Option (Option ℕ)) → D.get_ft_balance g' c name from d ≡ ok (a - amount)
    pub arrived : (d : Option (Option ℕ)) → D.get_ft_balance g' c name to d ≡ ok (b + amount)
    pub others :
        (q : PrincipalData) (d : Option (Option ℕ))
        → q ≢ from
        → q ≢ to
        → D.get_ft_balance g' c name q d ≡ D.get_ft_balance g c name q d
    pub same_supply : SameSupply D c name g g'

  move_tokens-Moved :
      (x : Context D) (name : List ℕ) (amount : ℕ) (from to : PrincipalData) (a b : ℕ)
      → from ≢ to
      → (g' : G) × (move_tokens D x name amount from to (a - amount) (b + amount)
          ≡ ok (
            success,
            register_event
                (ft_transfer_event from to
                  (record { contract_identifier = this_contract D x; asset_name = name })
                  amount)
                (record x { global_context = g' }),
          ))
        × Moved (this_contract D x) name amount from to x.global_context g' a b
  unfolding move_tokens
  move_tokens-Moved x name amount from to a b ne =
      let c = this_contract D x in
      let (g₁, e₁, u₁) = charge-Unchanged c name principal_type x.global_context in
      let (g₂, e₂, u₂) = charge-Unchanged c name principal_type g₁ in
      let (g₃, e₃, u₃) = charge-Unchanged c name uint_type g₂ in
      let (g₄, e₄, u₄) = charge-Unchanged c name uint_type g₃ in
      let u = Unchanged-then u₁ (Unchanged-then u₂ (Unchanged-then u₃ u₄)) in
      let (g₅, e₅) = unlimited.sets g₄ c name from (a - amount) in
      let (g₆, e₆) = unlimited.sets g₅ c name to (b + amount) in
      let (g₇, e₇) = unlimited.logs g₆ from c name amount in
      let (l, k) = laws.log_same c name e₇ in
      (
        g₇,
        rw (e₁, e₂, e₃, e₄, e₅, e₆, e₇) refl,
        record {
          left = λ d. l from d ∙ laws.set_elsewhere from d e₆ ne ∙ laws.set_here d e₅;
          arrived = λ d. l to d ∙ laws.set_here d e₆;
          others = λ q d n n'.
              l q d ∙ laws.set_elsewhere q d e₆ n' ∙ laws.set_elsewhere q d e₅ n ∙ u.0 q d;
          same_supply = k ∙ laws.set_supply e₆ ∙ laws.set_supply e₅ ∙ u.1;
        },
      )

  -- The outcomes of a transfer of `amount` from `from`, who has `a`, to `to`, who has `b`.
  pub data Transferred (x : Context D) (name : List ℕ) (amount : ℕ) (from to : PrincipalData)
      (a b : ℕ) (r : Result Error (Response × Context D)) : Type 0 where
    nothing_to_move :
        amount ≡ 0
        → r ≡ ok (refusal transfer_non_positive_amount, x)
        → Transferred x name amount from to a b r
    to_oneself :
        0 < amount
        → from ≡ to
        → r ≡ ok (refusal transfer_sender_is_recipient, x)
        → Transferred x name amount from to a b r
    too_little :
        0 < amount
        → from ≢ to
        → a < amount
        → r ≡ ok (refusal transfer_not_enough_balance, x)
        → Transferred x name amount from to a b r
    too_much :
        0 < amount
        → from ≢ to
        → amount ≤ a
        → 2 ^ 128 ≤ b + amount
        → r ≡ err arithmetic_overflow
        → Transferred x name amount from to a b r
    moved :
        {g' : G}
        → 0 < amount
        → from ≢ to
        → amount ≤ a
        → b + amount < 2 ^ 128
        → r
          ≡ ok (
            success,
            register_event
                (ft_transfer_event from to
                  (record { contract_identifier = this_contract D x; asset_name = name })
                  amount)
                (record x { global_context = g' }),
          )
        → Moved (this_contract D x) name amount from to x.global_context g' a b
        → Transferred x name amount from to a b r

  -- The cases follow the tests of the code.
  transfer_tokens-Transferred :
      (x : Context D) (name : List ℕ) (amount : ℕ) (from to : PrincipalData) {a b : ℕ}
      {info : Option ℕ}
      → x.contract_context.meta_ft name ≡ some info
      → D.get_ft_balance x.global_context (this_contract D x) name from (some info) ≡ ok a
      → D.get_ft_balance x.global_context (this_contract D x) name to (some info) ≡ ok b
      → Transferred x name amount from to a b (transfer_tokens D x name amount from to)
  unfolding transfer_tokens checked_add
  transfer_tokens-Transferred x name amount from to {a} {b} defined has_from has_to =
      elim (Bool-cases (amount == 0)) [
        | inl z ↦ nothing_to_move ((==_iff amount 0).0 z) (rw z refl)
        | inr z ↦
            let positive : 0 < amount = ground arith in
            elim (Bool-cases (principal_eq from to)) [
              | inl p ↦ to_oneself positive (principal_eq_sound from to p) (rw (z, p) refl)
              | inr p ↦
                  let apart = principal_eq_complete from to p in
                  elim (Bool-cases (ltb a amount)) [
                    | inl l ↦
                        too_little positive apart (ground arith)
                          (rw (z, p, defined, has_from, l) refl)
                    | inr l ↦ elim (Bool-cases (ltb (b + amount) (2 ^ 128))) [
                      | inl k ↦
                          let (g', e, mv) = move_tokens-Moved x name amount from to a b apart in
                          moved positive apart (ground arith) (ground arith)
                            (rw (z, p, defined, has_from, l, has_to, k, e) refl) mv
                      | inr k ↦
                          too_much positive apart (ground arith) (ground arith)
                            (rw (z, p, defined, has_from, l, has_to, k) refl)
                    ]
                  ]
            ]
      ]

module _ (W : LinearMemory) (L : ClarityLibrary) (parse : List ℕ → Result Error TypeSignature)
    {G : Type 0} (D : AssetDatabase G) (laws : AssetLaws D) (unlimited : Unlimited D) where
  -- With arguments in memory that name a token and two principals. For a token that the contract defines, with the balances `a` of the sender and `b` of the
  -- recipient, when no limit of the database is met: a transfer is refused with the code of its
  -- reason and changes nothing if the amount is zero, the two are one principal, or the sender has
  -- too little; it is an arithmetic overflow if the recipient's balance would not fit in 128 bits;
  -- and in every other case the amount leaves the sender and arrives at the recipient, all other
  -- balances and the supply of the token stay, and the event of the transfer is registered.
  pub ft_transfer-Transferred :
      (x : ClarityWasmContext G) (m : W.Memory)
      (name_offset name_length amount_lo amount_hi sender_offset sender_length recipient_offset
        recipient_length : ℕ)
      {text name : List ℕ} {from to : PrincipalData} {a b : ℕ} {info : Option ℕ}
      → read_identifier_from_wasm W L parse m name_offset name_length ≡ ok text
      → D.clarity_name text ≡ ok name
      → read_principal_argument W L m sender_offset sender_length ≡ ok from
      → read_principal_argument W L m recipient_offset recipient_length ≡ ok to
      → x.contract_context.meta_ft name ≡ some info
      → D.get_ft_balance x.global_context (this_contract D x) name from (some info) ≡ ok a
      → D.get_ft_balance x.global_context (this_contract D x) name to (some info) ≡ ok b
      → Transferred D laws unlimited x name (wide amount_lo amount_hi) from to a b (
          ft_transfer W L parse D x m name_offset name_length amount_lo amount_hi sender_offset
            sender_length recipient_offset recipient_length)
  unfolding ft_transfer
  ft_transfer-Transferred x m _ _ amount_lo amount_hi _ _ _ _ {name = name} {from = from} {to = to}
        {a = a} {b = b} named is_name sender recipient defined has_from has_to =
      rw (named, is_name, sender, recipient)
        (transfer_tokens-Transferred D laws unlimited x name (wide amount_lo amount_hi) from to
          defined has_from has_to)
