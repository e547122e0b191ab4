-- ===== src/Linker/Tokens/Supply.antt =====
-- What `ft_mint` and `ft_burn` of clar2wasm/src/linker.rs do to a balance and to the supply.
use clarity_wasm.Prelude.{
  ℕ, ◌+◌, ◌-◌, ◌≤◌, ◌<◌, ◌^◌, ◌≡◌, ◌≢◌, refl, ◌∙◌, ◌⊎◌, inl, inr, List, Option, none, some, Result,
  ok, err, arith, ltb, ◌==◌, ==_iff, Bool-cases, Result-cases,
}
use clarity_wasm.Clarity.{
  TypeSignature, PrincipalData, QualifiedContractIdentifier, principal_type, uint_type,
}
use clarity_wasm.Wasm.Memory.{LinearMemory}
use clarity_wasm.Host.Errors.{Error, arithmetic_overflow}
use clarity_wasm.Host.Library.{ClarityLibrary}
use clarity_wasm.Runtime.Resolve.{read_identifier_from_wasm}
use clarity_wasm.Linker.Caller.Defs.{
  ClarityWasmContext, Event, ft_mint_event, ft_burn_event, register_event,
}
use clarity_wasm.Linker.Blocks.Defs.{wide}
use clarity_wasm.Linker.Tokens.Principals.{read_principal_argument}
use clarity_wasm.Linker.Tokens.Database.{AssetDatabase, AssetLaws, Unlimited}
use clarity_wasm.Linker.Tokens.Fungible.{
  Context, Response, success, refusal, this_contract, mint_tokens, burn_tokens, remove_tokens,
  with_ft_arguments, ft_mint, ft_burn, checked_add, mint_non_positive_amount,
  burn_not_enough_balance_or_non_positive,
}
use clarity_wasm.Linker.Tokens.Transfer.{charge-Unchanged, Unchanged-then}

module _ {G : Type 0} (D : AssetDatabase G) (laws : AssetLaws D) (unlimited : Unlimited D) where
  -- One balance and the supply of a token have new values, and all other balances stay.
  pub record Adjusted (c : QualifiedContractIdentifier) (name : List ℕ) (p : PrincipalData)
      (g g' : G) (balance supply : ℕ) : Type 0 where
    pub new_balance : (d : Option (Option ℕ)) → D.get_ft_balance g' c name p d ≡ ok balance
    pub new_supply : D.get_ft_supply g' c name ≡ ok supply
    pub others :
        (q : PrincipalData) (d : Option (Option ℕ))
        → q ≢ p
        → D.get_ft_balance g' c name q d ≡ D.get_ft_balance g c name q d

  abbrev pub with_event : (x : Context D) → (Context D → Event) → G → Context D
  with_event x event g = register_event (event x) (record x { global_context = g })

  abbrev pub minted_event : List ℕ → ℕ → PrincipalData → Context D → Event
  minted_event name amount p x =
      ft_mint_event p (record { contract_identifier = this_contract D x; asset_name = name }) amount

  abbrev pub burned_event : List ℕ → ℕ → PrincipalData → Context D → Event
  burned_event name amount p x =
      ft_burn_event p (record { contract_identifier = this_contract D x; asset_name = name }) amount

  -- The outcomes of minting `amount` for `p`, who has `b`, with the supply `s`.
  pub data Minted (x : Context D) (name : List ℕ) (amount : ℕ) (p : PrincipalData) (b s : ℕ)
      (info : Option ℕ) (r : Result Error (Response × Context D)) : Type 0 where
    nothing_to_mint :
        amount ≡ 0
        → r ≡ ok (refusal mint_non_positive_amount, x)
        → Minted x name amount p b s info r
    not_supplied :
        {e : Error}
        → 0 < amount
        → D.checked_increase_token_supply x.global_context (this_contract D x) name amount info
          ≡ err e
        → r ≡ err e
        → Minted x name amount p b s info r
    too_rich :
        0 < amount
        → 2 ^ 128 ≤ b + amount
        → r ≡ err arithmetic_overflow
        → Minted x name amount p b s info r
    minted :
        {g' : G}
        → 0 < amount
        → b + amount < 2 ^ 128
        → r ≡ ok (success, with_event x (minted_event name amount p) g')
        → Adjusted (this_contract D x) name p x.global_context g' (b + amount) (s + amount)
        → Minted x name amount p b s info r

  mint_tokens-Minted :
      (x : Context D) (name : List ℕ) (amount : ℕ) (p : PrincipalData) {b s : ℕ} {info : Option ℕ}
      → x.contract_context.meta_ft name ≡ some info
      → D.get_ft_balance x.global_context (this_contract D x) name p (some info) ≡ ok b
      → D.get_ft_supply x.global_context (this_contract D x) name ≡ ok s
      → Minted x name amount p b s info (mint_tokens D x name amount p)
  unfolding mint_tokens checked_add
  mint_tokens-Minted x name amount p {b} {s} {info} defined has supplied =
      elim (Bool-cases (amount == 0)) [
        | inl z ↦ nothing_to_mint ((==_iff amount 0).0 z) (rw z refl)
        | inr z ↦
            let positive : 0 < amount = ground arith in
            let c = this_contract D x in
            elim (Result-cases
              (D.checked_increase_token_supply x.global_context c name amount info)) [
                | inl (e, f) ↦ not_supplied positive f (rw (z, defined, f) refl)
                | inr (g₁, f) ↦
                    let same = laws.increase_same f in
                    let has₁ = same p (some info) ∙ has in
                    elim (Bool-cases (ltb (b + amount) (2 ^ 128))) [
                      | inl k ↦
                          let (g₂, e₂, u₂) =
                            charge-Unchanged D laws unlimited c name principal_type g₁ in
                          let (g₃, e₃, u₃) =
                            charge-Unchanged D laws unlimited c name uint_type g₂ in
                          let u = Unchanged-then D laws unlimited u₂ u₃ in
                          let (g₄, e₄) = unlimited.sets g₃ c name p (b + amount) in
                          minted positive (ground arith)
                            (rw (z, defined, f, has₁, k, e₂, e₃, e₄) refl)
                            (record {
                              new_balance = λ d. laws.set_here d e₄;
                              new_supply =
                                  laws.set_supply e₄ ∙ u.1 ∙ laws.increase_supply f supplied;
                              others = λ q d n. laws.set_elsewhere q d e₄ n ∙ u.0 q d ∙ same q d;
                            })
                      | inr k ↦ too_rich positive (ground arith) (rw (z, defined, f, has₁, k) refl)
                    ]
              ]
      ]

  -- The outcomes of burning `amount` of `p`, who has `b`, with the supply `s`.
  pub data Burned (x : Context D) (name : List ℕ) (amount : ℕ) (p : PrincipalData) (b s : ℕ)
      (r : Result Error (Response × Context D)) : Type 0 where
    refused :
        (amount ≡ 0) ⊎ (b < amount)
        → r ≡ ok (refusal burn_not_enough_balance_or_non_positive, x)
        → Burned x name amount p b s r
    not_taken :
        {e : Error}
        → 0 < amount
        → amount ≤ b
        → D.checked_decrease_token_supply x.global_context (this_contract D x) name amount ≡ err e
        → r ≡ err e
        → Burned x name amount p b s r
    burned :
        {g' : G}
        → 0 < amount
        → amount ≤ b
        → amount ≤ s
        → r ≡ ok (success, with_event x (burned_event name amount p) g')
        → Adjusted (this_contract D x) name p x.global_context g' (b - amount) (s - amount)
        → Burned x name amount p b s r

  burn_tokens-Burned :
      (x : Context D) (name : List ℕ) (amount : ℕ) (p : PrincipalData) {b s : ℕ}
      → D.get_ft_balance x.global_context (this_contract D x) name p none ≡ ok b
      → D.get_ft_supply x.global_context (this_contract D x) name ≡ ok s
      → Burned x name amount p b s (burn_tokens D x name amount p)
  unfolding burn_tokens remove_tokens
  burn_tokens-Burned x name amount p {b} {s} has supplied = elim (Bool-cases (amount == 0)) [
    | inl z ↦ refused (inl ((==_iff amount 0).0 z)) (rw z refl)
    | inr z ↦
        let positive : 0 < amount = ground arith in
        let c = this_contract D x in
        elim (Bool-cases (ltb b amount)) [
          | inl l ↦ refused (inr (ground arith)) (rw (z, has, l) refl)
          | inr l ↦
              elim (Result-cases (D.checked_decrease_token_supply x.global_context c name amount)) [
                | inl (e, f) ↦ not_taken positive (ground arith) f (rw (z, has, l, f) refl)
                | inr (g₁, f) ↦
                    let same = laws.decrease_same f in
                    let (g₂, e₂) = unlimited.sets g₁ c name p (b - amount) in
                    let (g₃, e₃, u₃) = charge-Unchanged D laws unlimited c name principal_type g₂ in
                    let (g₄, e₄, u₄) = charge-Unchanged D laws unlimited c name uint_type g₃ in
                    let u = Unchanged-then D laws unlimited u₃ u₄ in
                    let (g₅, e₅) = unlimited.logs g₄ p c name amount in
                    let (lb, ls) = laws.log_same c name e₅ in
                    let (enough, taken) = laws.decrease_supply f supplied in
                    burned positive (ground arith) enough (rw (z, has, l, f, e₂, e₃, e₄, e₅) refl)
                      (record {
                        new_balance = λ d. lb p d ∙ u.0 p d ∙ laws.set_here d e₂;
                        new_supply = ls ∙ u.1 ∙ laws.set_supply e₂ ∙ taken;
                        others = λ q d n. lb q d ∙ u.0 q d ∙ laws.set_elsewhere q d e₂ n ∙ same q d;
                      })
              ]
        ]
  ]

module _ (W : LinearMemory) (L : ClarityLibrary) (parse : List ℕ → Result Error TypeSignature)
    {G : Type 0} (D : AssetDatabase G) (laws : AssetLaws D) (unlimited : Unlimited D) where
  -- With arguments in memory that name a token and a principal. For a token that the contract
  -- defines, with the balance `b` and the supply `s`, when no limit of the database is met but that
  -- of the supply: minting is refused with its code and changes nothing if the amount is zero; it
  -- gives the database's error if the supply cannot grow; it is an arithmetic overflow if the
  -- balance would not fit in 128 bits; and in every other case the balance and the supply grow by
  -- the amount, all other balances stay, and the event is registered.
  pub ft_mint-Minted :
      (x : ClarityWasmContext G) (m : W.Memory)
      (name_offset name_length amount_lo amount_hi offset len : ℕ) {text name : List ℕ}
      {p : PrincipalData} {b s : ℕ} {info : Option ℕ}
      → read_identifier_from_wasm W L parse m name_offset name_length ≡ ok text
      → D.clarity_name text ≡ ok name
      → read_principal_argument W L m offset len ≡ ok p
      → x.contract_context.meta_ft name ≡ some info
      → D.get_ft_balance x.global_context (this_contract D x) name p (some info) ≡ ok b
      → D.get_ft_supply x.global_context (this_contract D x) name ≡ ok s
      → Minted D laws unlimited x name
          (wide amount_lo amount_hi)
          p
          b
          s
          info
          (ft_mint W L parse D x m name_offset name_length amount_lo amount_hi offset len)
  unfolding ft_mint with_ft_arguments
  ft_mint-Minted x m _ _ amount_lo amount_hi _ _ {name = name} {p = p} named is_name recipient
        defined has supplied =
      rw (named, is_name, recipient)
        (mint_tokens-Minted D laws unlimited x name (wide amount_lo amount_hi) p defined has
          supplied)

  -- With arguments in memory that name a token and a principal. With the balance `b` and the supply
  -- `s`, when no limit of the database is met: burning is refused with its code and
  -- changes nothing if the amount is zero or more than `b`; it gives the database's error if the
  -- supply cannot shrink; and in every other case the balance and the supply shrink by the amount,
  -- all other balances stay, and the event is registered.
  pub ft_burn-Burned :
      (x : ClarityWasmContext G) (m : W.Memory)
      (name_offset name_length amount_lo amount_hi offset len : ℕ) {text name : List ℕ}
      {p : PrincipalData} {b s : ℕ}
      → read_identifier_from_wasm W L parse m name_offset name_length ≡ ok text
      → D.clarity_name text ≡ ok name
      → read_principal_argument W L m offset len ≡ ok p
      → D.get_ft_balance x.global_context (this_contract D x) name p none ≡ ok b
      → D.get_ft_supply x.global_context (this_contract D x) name ≡ ok s
      → Burned D laws unlimited x name
          (wide amount_lo amount_hi)
          p
          b
          s
          (ft_burn W L parse D x m name_offset name_length amount_lo amount_hi offset len)
  unfolding ft_burn with_ft_arguments
  ft_burn-Burned x m _ _ amount_lo amount_hi _ _ {name = name} {p = p} named is_name owner has
        supplied =
      rw (named, is_name, owner)
        (burn_tokens-Burned D laws unlimited x name (wide amount_lo amount_hi) p has supplied)
