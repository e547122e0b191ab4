-- ===== src/Linker/Tokens/NonFungible.antt =====
-- What the host functions of clar2wasm/src/linker.rs on non-fungible tokens do with their arguments. Their success has the `ok`
-- word 132 where those on fungible tokens have 1.
use clarity_wasm.Prelude.{ℕ, Bool, List, Option, none, some, Result, ok, err, ◌>>=◌, if◌then◌else◌}
use clarity_wasm.Clarity.{
  TypeSignature, Value, PrincipalData, QualifiedContractIdentifier, principal_type,
}
use clarity_wasm.Host.Errors.{Error, no_such_token}
use clarity_wasm.Linker.Caller.Defs.{
  ClarityWasmContext, AssetIdentifier, nft_transfer_event, nft_mint_event, nft_burn_event,
  register_event,
}
use clarity_wasm.Linker.Tokens.Principals.{principal_eq}
use clarity_wasm.Linker.Tokens.Fungible.{Response, refusal}

-- What these functions use of the `clarity` crate. `get_nft_owner` gives `no_such_token` for a token
-- that is not there. The type is that of the token's identifiers.
pub record NftDatabase (G : Type 0) : Type 0 where
  -- `ClarityName::try_from`
  pub clarity_name : List ℕ → Result Error (List ℕ)
  -- `TypeSignature::size`, `TypeSignature::admits` and `Value::serialized_size`
  pub type_size : TypeSignature → Result Error ℕ
  pub admits : TypeSignature → Value → Result Error Bool
  pub serialized_size : Value → Result Error ℕ
  pub add_memory : G → ℕ → Result Error G
  pub get_nft_owner :
      G → QualifiedContractIdentifier → List ℕ → Value → TypeSignature → Result Error PrincipalData
  pub set_nft_owner :
      G
      → QualifiedContractIdentifier
      → List ℕ
      → Value
      → PrincipalData
      → TypeSignature
      → Result Error G
  pub burn_nft : G → QualifiedContractIdentifier → List ℕ → Value → TypeSignature → Result Error G
  pub log_asset_transfer :
      G → PrincipalData → QualifiedContractIdentifier → List ℕ → Value → Result Error G

abbrev pub nft_success : Response
nft_success = (1, 132, 0, 0)

-- The discriminants of `MintAssetErrorCodes`, `TransferAssetErrorCodes` and `BurnAssetErrorCodes`
abbrev pub mint_already_exist : ℕ
mint_already_exist = 1

abbrev pub transfer_not_owned_by : ℕ
transfer_not_owned_by = 1

abbrev pub asset_sender_is_recipient : ℕ
asset_sender_is_recipient = 2

abbrev pub transfer_does_not_exist : ℕ
transfer_does_not_exist = 3

abbrev pub burn_not_owned_by : ℕ
burn_not_owned_by = 1

abbrev pub burn_does_not_exist : ℕ
burn_does_not_exist = 3

-- The `match` on an owner: `NoSuchToken` is no owner, and any other error goes on.
unfoldable pub existing : Result Error PrincipalData → Result Error (Option PrincipalData)
existing (ok owner) = ok (some owner)
existing (err no_such_token) = ok none
existing (err e) = err e

-- A token: its name, the type of its identifiers, the identifier and its serialized size.
pub record Asset : Type 0 where
  pub asset_name : List ℕ
  pub key_type : TypeSignature
  pub asset : Value
  pub asset_size : ℕ

module _ {G : Type 0} (D : NftDatabase G) where
  abbrev pub NftContext : Type 0
  NftContext = ClarityWasmContext G

  abbrev pub nft_contract : NftContext → QualifiedContractIdentifier
  nft_contract x = x.contract_context.contract_identifier

  abbrev pub asset_identifier : NftContext → Asset → AssetIdentifier
  asset_identifier x a = record { contract_identifier = nft_contract x; asset_name = a.asset_name }

  unfoldable pub owner_in : NftContext → Asset → Result Error (Option PrincipalData)
  owner_in x a =
      existing (D.get_nft_owner x.global_context (nft_contract x) a.asset_name a.asset a.key_type)

  -- The memory of a principal and of the identifier.
  unfoldable pub charge_asset : Asset → G → Result Error G
  charge_asset a g = do
    n ← D.type_size principal_type
    g ← D.add_memory g n
    D.add_memory g a.asset_size

  unfoldable pub mint_unowned :
      NftContext
      → Asset
      → PrincipalData
      → Option PrincipalData
      → Result Error (Response × NftContext)
  mint_unowned x a to (some owner) = ok (refusal mint_already_exist, x)
  mint_unowned x a to none = do
    g ← charge_asset a x.global_context
    g ← D.set_nft_owner g (nft_contract x) a.asset_name a.asset to a.key_type
    ok (
      nft_success,
      register_event (nft_mint_event to (asset_identifier x a) a.asset)
          (record x { global_context = g }),
    )

  unfoldable pub mint_asset :
      NftContext → Asset → PrincipalData → Result Error (Response × NftContext)
  mint_asset x a to = do owner ← owner_in x a; mint_unowned x a to owner

  unfoldable pub transfer_owned :
      NftContext
      → Asset
      → (from to : PrincipalData) → Option PrincipalData
      → Result Error (Response × NftContext)
  transfer_owned x a from to none = ok (refusal transfer_does_not_exist, x)
  transfer_owned x a from to (some current_owner) =
      let transfer = (do
        g ← charge_asset a x.global_context
        g ← D.set_nft_owner g (nft_contract x) a.asset_name a.asset to a.key_type
        g ← D.log_asset_transfer g from (nft_contract x) a.asset_name a.asset
        ok (
          nft_success,
          register_event (nft_transfer_event from to (asset_identifier x a) a.asset)
              (record x { global_context = g }),
        )) in
      if principal_eq current_owner from then transfer else ok (refusal transfer_not_owned_by, x)

  unfoldable pub transfer_asset :
      NftContext → Asset → (from to : PrincipalData) → Result Error (Response × NftContext)
  transfer_asset x a from to =
      let transfer = (do owner ← owner_in x a; transfer_owned x a from to owner) in
      if principal_eq from to then ok (refusal asset_sender_is_recipient, x) else transfer

  unfoldable pub burn_owned :
      NftContext
      → Asset
      → PrincipalData
      → Option PrincipalData
      → Result Error (Response × NftContext)
  burn_owned x a sender none = ok (refusal burn_does_not_exist, x)
  burn_owned x a sender (some owner) =
      let burn = (do
        g ← charge_asset a x.global_context
        g ← D.burn_nft g (nft_contract x) a.asset_name a.asset a.key_type
        g ← D.log_asset_transfer g sender (nft_contract x) a.asset_name a.asset
        ok (
          nft_success,
          register_event (nft_burn_event sender (asset_identifier x a) a.asset)
              (record x { global_context = g }),
        )) in
      if principal_eq owner sender then burn else ok (refusal burn_not_owned_by, x)

  unfoldable pub burn_asset :
      NftContext → Asset → PrincipalData → Result Error (Response × NftContext)
  burn_asset x a sender = do owner ← owner_in x a; burn_owned x a sender owner
