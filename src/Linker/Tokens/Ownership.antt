-- ===== src/Linker/Tokens/Ownership.antt =====
-- Minting, transferring and burning non-fungible tokens (clar2wasm/src/linker.rs) against an abstract
-- specification of who owns a token.
use clarity_wasm.Prelude.{
  ℕ, ◌≡◌, ◌≢◌, refl, ◌∙◌, true, List, Option, none, some, Result, ok, err, inl, inr, Bool-cases,
  if◌then◌else◌,
}
use clarity_wasm.Clarity.{
  TypeSignature, Value, PrincipalData, QualifiedContractIdentifier, principal_type,
}
use clarity_wasm.Host.Errors.{Error, no_such_token}
use clarity_wasm.Linker.Caller.Defs.{
  Event, nft_transfer_event, nft_mint_event, nft_burn_event, register_event,
}
use clarity_wasm.Linker.Tokens.Principals.{principal_eq}
use clarity_wasm.Linker.Tokens.Fungible.{Response, refusal}
use clarity_wasm.Linker.Tokens.NonFungible.{
  NftDatabase, Asset, NftContext, nft_contract, asset_identifier, existing, owner_in, charge_asset,
  mint_asset, mint_unowned, transfer_asset, transfer_owned, burn_asset, burn_owned, nft_success,
  mint_already_exist, transfer_not_owned_by, asset_sender_is_recipient, transfer_does_not_exist,
  burn_not_owned_by, burn_does_not_exist,
}

pub data Command : Type 0 where
  mint burn : PrincipalData → Command
  transfer : (from to : PrincipalData) → Command

-- A command is refused with a code, or leaves the token with an owner or with none.
pub data Decision : Type 0 where
  refuse : ℕ → Decision
  leave : Option PrincipalData → Decision

-- The abstract specification, from the owner.
abbrev pub decide : Command → Option PrincipalData → Decision
decide (mint p) none = leave (some p)
decide (mint p) (some o) = refuse mint_already_exist
decide (burn p) none = refuse burn_does_not_exist
decide (burn p) (some o) = if principal_eq o p then leave none else refuse burn_not_owned_by
decide (transfer from to) none =
    if principal_eq from to
    then refuse asset_sender_is_recipient
    else refuse transfer_does_not_exist
decide (transfer from to) (some o) =
    if principal_eq from to
    then refuse asset_sender_is_recipient
    else if principal_eq o from
    then leave (some to)
    else refuse transfer_not_owned_by

module _ {G : Type 0} (D : NftDatabase G) where
  abbrev pub execute : Command → NftContext D → Asset → Result Error (Response × NftContext D)
  execute (mint p) x a = mint_asset D x a p
  execute (burn p) x a = burn_asset D x a p
  execute (transfer from to) x a = transfer_asset D x a from to

  abbrev pub event_of : Command → NftContext D → Asset → Event
  event_of (mint p) x a = nft_mint_event p (asset_identifier D x a) a.asset
  event_of (burn p) x a = nft_burn_event p (asset_identifier D x a) a.asset
  event_of (transfer from to) x a = nft_transfer_event from to (asset_identifier D x a) a.asset

  -- All tokens of a name have the owners that they had.
  abbrev pub SameOwners : QualifiedContractIdentifier → List ℕ → G → G → Type 0
  SameOwners c name g g' =
      (v : Value) (t : TypeSignature) → D.get_nft_owner g' c name v t ≡ D.get_nft_owner g c name v t

  -- All but one have.
  abbrev pub SameOthers : QualifiedContractIdentifier → List ℕ → Value → G → G → Type 0
  SameOthers c name v g g' =
      (u : Value) (t : TypeSignature)
      → u ≢ v
      → D.get_nft_owner g' c name u t ≡ D.get_nft_owner g c name u t

  -- What the database's documentation says of identifiers of the token's type, with no limit that is
  -- met.
  pub record NftLaws : Type 0 where
    pub sized : (t : TypeSignature) → (n : ℕ) × (D.type_size t ≡ ok n)
    pub has_memory :
        (c : QualifiedContractIdentifier) (name : List ℕ) (g : G) (n : ℕ)
        → (g' : G) × (D.add_memory g n ≡ ok g') × SameOwners c name g g'
    pub logs :
        (c : QualifiedContractIdentifier) (name : List ℕ) (g : G) (p : PrincipalData) (v : Value)
        → (g' : G) × (D.log_asset_transfer g p c name v ≡ ok g') × SameOwners c name g g'
    pub sets :
        (c : QualifiedContractIdentifier) (name : List ℕ) (g : G) (v : Value) (p : PrincipalData)
        (t : TypeSignature)
        → D.admits t v ≡ ok true
        → (g' : G) × (D.set_nft_owner g c name v p t ≡ ok g')
          × (D.get_nft_owner g' c name v t ≡ ok p)
          × SameOthers c name v g g'
    pub burns :
        (c : QualifiedContractIdentifier) (name : List ℕ) (g : G) (v : Value) (t : TypeSignature)
        → D.admits t v ≡ ok true
        → (g' : G) × (D.burn_nft g c name v t ≡ ok g')
          × (D.get_nft_owner g' c name v t ≡ err no_such_token)
          × SameOthers c name v g g'

  -- A result that follows a decision.
  abbrev pub Follows :
      Command → NftContext D → Asset → Result Error (Response × NftContext D) → Decision → Type 0
  Follows command x a r (refuse code) = r ≡ ok (refusal code, x)
  Follows command x a r (leave owner) =
      (g' : G) × (r
        ≡ ok
            (nft_success, register_event (event_of command x a) (record x { global_context = g' })))
      × (existing (D.get_nft_owner g' (nft_contract D x) a.asset_name a.asset a.key_type)
          ≡ ok owner)
      × SameOthers (nft_contract D x) a.asset_name a.asset x.global_context g'

module _ {G : Type 0} (D : NftDatabase G) (laws : NftLaws D) where
  charge_asset-SameOwners :
      (a : Asset) (c : QualifiedContractIdentifier) (name : List ℕ) (g : G)
      → (g' : G) × (charge_asset D a g ≡ ok g') × SameOwners D c name g g'
  unfolding charge_asset
  charge_asset-SameOwners a c name g =
      let (n, e) = laws.sized principal_type in
      let (g₁, e₁, u₁) = laws.has_memory c name g n in
      let (g₂, e₂, u₂) = laws.has_memory c name g₁ a.asset_size in
      (g₂, rw (e, e₁, e₂) refl, λ v t. u₂ v t ∙ u₁ v t)

  -- For a token whose identifier is of its type, with the owner `owner` or none, when no limit of the database is met: minting,
  -- burning and transferring it do what the specification decides. They are refused with its code
  -- and change nothing, or leave the token with the decided owner, all other tokens of the name with
  -- theirs, and register the event; their success has the `ok` word 132.
  pub execute-Follows :
      (command : Command) (x : NftContext D) (a : Asset) {owner : Option PrincipalData}
      → D.admits a.key_type a.asset ≡ ok true
      → owner_in D x a ≡ ok owner
      → Follows D command x a (execute D command x a) (decide command owner)
  unfolding mint_asset burn_asset transfer_asset mint_unowned burn_owned transfer_owned existing
  execute-Follows (mint p) x a {owner = some o} fits owned = rw owned refl
  execute-Follows (mint p) x a {owner = none} fits owned =
      let c = nft_contract D x in
      let (g₁, e₁, u₁) = charge_asset-SameOwners a c a.asset_name x.global_context in
      let (g₂, e₂, h, u₂) = laws.sets c a.asset_name g₁ a.asset p a.key_type fits in
      (g₂, rw (owned, e₁, e₂) refl, rw h refl, λ v t n. u₂ v t n ∙ u₁ v t)
  execute-Follows (burn p) x a {owner = none} fits owned = rw owned refl
  execute-Follows (burn p) x a {owner = some o} fits owned = elim (Bool-cases (principal_eq o p)) [
    | inl e ↦
        let c = nft_contract D x in
        let (g₁, e₁, u₁) = charge_asset-SameOwners a c a.asset_name x.global_context in
        let (g₂, e₂, h, u₂) = laws.burns c a.asset_name g₁ a.asset a.key_type fits in
        let (g₃, e₃, u₃) = laws.logs c a.asset_name g₂ p a.asset in
        rw e (
          g₃,
          rw (owned, e, e₁, e₂, e₃) refl,
          rw (u₃ a.asset a.key_type, h) refl,
          λ v t n. u₃ v t ∙ u₂ v t n ∙ u₁ v t,
        )
    | inr e ↦ rw (owned, e) refl
  ]
  execute-Follows (transfer from to) x a {owner = none} fits owned =
      elim (Bool-cases (principal_eq from to)) [ inl e ↦ rw e refl | inr e ↦ rw (e, owned) refl ]
  execute-Follows (transfer from to) x a {owner = some o} fits owned =
      elim (Bool-cases (principal_eq from to)) [
        | inl e ↦ rw e refl
        | inr e ↦ elim (Bool-cases (principal_eq o from)) [
          | inl f ↦
              let c = nft_contract D x in
              let (g₁, e₁, u₁) = charge_asset-SameOwners a c a.asset_name x.global_context in
              let (g₂, e₂, h, u₂) = laws.sets c a.asset_name g₁ a.asset to a.key_type fits in
              let (g₃, e₃, u₃) = laws.logs c a.asset_name g₂ from a.asset in
              rw (e, f)
                (
                  g₃,
                  rw (owned, f, e₁, e₂, e₃) refl,
                  rw (u₃ a.asset a.key_type, h) refl,
                  λ v t n. u₃ v t ∙ u₂ v t n ∙ u₁ v t,
                )
          | inr f ↦ rw (e, owned, f) refl
        ]
      ]
