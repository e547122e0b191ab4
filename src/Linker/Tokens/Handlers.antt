-- ===== src/Linker/Tokens/Handlers.antt =====
-- The host functions of clar2wasm/src/linker.rs on non-fungible tokens: their arguments in memory.
use clarity_wasm.Prelude.{ℕ, List, Option, none, some, Result, ok, err, ◌>>=◌, if◌then◌else◌}
use clarity_wasm.Clarity.{TypeSignature, Value, PrincipalData}
use clarity_wasm.Wasm.Memory.{LinearMemory}
use clarity_wasm.Host.Errors.{Error, no_such_nft, type_value_error, or_error}
use clarity_wasm.Host.Library.{ClarityLibrary}
use clarity_wasm.Runtime.Resolve.{read_identifier_from_wasm}
use clarity_wasm.Linker.Reading.{read_argument}
use clarity_wasm.Linker.Caller.Defs.{ClarityWasmContext}
use clarity_wasm.Linker.Caller.Builtins.{write_principal_at}
use clarity_wasm.Linker.Tokens.Principals.{read_principal_argument}
use clarity_wasm.Linker.Tokens.Fungible.{Response}
use clarity_wasm.Linker.Tokens.NonFungible.{
  NftDatabase, Asset, owner_in, mint_asset, transfer_asset, burn_asset,
}

module _ (W : LinearMemory) (L : ClarityLibrary) where
  unfoldable pub write_owner :
      W.Memory → ℕ → Option PrincipalData → Result Error (ℕ × ℕ × ℕ × W.Memory)
  write_owner m return_offset none = ok (0, 0, 0, m)
  write_owner m return_offset (some owner) = do
    (offset, bytes_written, m) ← write_principal_at W L m return_offset owner
    ok (1, offset, bytes_written, m)

module _ (W : LinearMemory) (L : ClarityLibrary) (parse : List ℕ → Result Error TypeSignature)
    {G : Type 0} (D : NftDatabase G) where
  -- The name, the type of the identifiers, and the identifier.
  unfoldable pub read_asset :
      ClarityWasmContext G
      → W.Memory
      → (name_offset name_length asset_offset asset_length : ℕ)
      → Result Error (List ℕ × TypeSignature × Value)
  read_asset x m name_offset name_length asset_offset asset_length = do
    name ← read_identifier_from_wasm W L parse m name_offset name_length
    asset_name ← D.clarity_name name
    key_type ← or_error (x.contract_context.meta_nft asset_name) (no_such_nft asset_name)
    asset ← read_argument W L key_type m asset_offset asset_length
    ok (asset_name, key_type, asset)

  -- The identifier must be one of the token's type.
  unfoldable pub checked_asset : List ℕ × TypeSignature × Value → Result Error Asset
  checked_asset (asset_name, key_type, asset) = do
    asset_size ← D.serialized_size asset
    admitted ← D.admits key_type asset
    let a : Asset = record {
      asset_name = asset_name;
      key_type = key_type;
      asset = asset;
      asset_size = asset_size;
    }
    if admitted then ok a else err type_value_error

  unfoldable pub nft_get_owner :
      ClarityWasmContext G
      → W.Memory
      → (name_offset name_length asset_offset asset_length return_offset : ℕ)
      → Result Error (ℕ × ℕ × ℕ × W.Memory)
  nft_get_owner x m name_offset name_length asset_offset asset_length return_offset = do
    parts ← read_asset x m name_offset name_length asset_offset asset_length
    a ← checked_asset parts
    owner ← owner_in D x a
    write_owner W L m return_offset owner

  unfoldable pub nft_burn :
      ClarityWasmContext G
      → W.Memory
      → (name_offset name_length asset_offset asset_length sender_offset sender_length : ℕ)
      → Result Error (Response × ClarityWasmContext G)
  nft_burn x m name_offset name_length asset_offset asset_length sender_offset sender_length = do
    parts ← read_asset x m name_offset name_length asset_offset asset_length
    sender ← read_principal_argument W L m sender_offset sender_length
    a ← checked_asset parts
    burn_asset D x a sender

  unfoldable pub nft_mint :
      ClarityWasmContext G
      → W.Memory
      → (name_offset name_length asset_offset asset_length recipient_offset recipient_length : ℕ)
      → Result Error (Response × ClarityWasmContext G)
  nft_mint x m name_offset name_length asset_offset asset_length recipient_offset recipient_length =
      do
        parts ← read_asset x m name_offset name_length asset_offset asset_length
        to ← read_principal_argument W L m recipient_offset recipient_length
        a ← checked_asset parts
        mint_asset D x a to

  unfoldable pub nft_transfer :
      ClarityWasmContext G
      → W.Memory
      → (name_offset name_length asset_offset asset_length sender_offset sender_length
          recipient_offset recipient_length : ℕ)
      → Result Error (Response × ClarityWasmContext G)
  nft_transfer x m name_offset name_length asset_offset asset_length sender_offset sender_length
        recipient_offset recipient_length =
      do
        parts ← read_asset x m name_offset name_length asset_offset asset_length
        from ← read_principal_argument W L m sender_offset sender_length
        to ← read_principal_argument W L m recipient_offset recipient_length
        a ← checked_asset parts
        transfer_asset D x a from to
