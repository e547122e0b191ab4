-- ===== src/Linker/Tokens/Tests.antt =====
-- A transfer, a minting and a burning of fungible tokens, and a transfer of a non-fungible one.
use clarity_wasm.Prelude.{
  ℕ, ◌≡◌, refl, List, [], ◌∷◌, ◌++◌, none, some, Result, ok, err, replicate, from_le_bytes, ◌==◌,
  if◌then◌else◌,
}
use clarity_wasm.Clarity.{TypeSignature, PrincipalData, standard, int_type, int}
use clarity_wasm.Wasm.ByteMemory.{byte_memory}
use clarity_wasm.Host.Errors.{Error, panic}
use clarity_wasm.Host.Library.{accepting}
use clarity_wasm.Host.Access.{value_as_principal, read_bytes_from_wasm, read_usize}
use clarity_wasm.Host.Read.{read_from_wasm, read_principal, read_contract}
use clarity_wasm.Runtime.Resolve.{read_identifier_from_wasm}
use clarity_wasm.Linker.Context.{ContractContext}
use clarity_wasm.Linker.Caller.Defs.{ClarityWasmContext}
use clarity_wasm.Linker.Blocks.Defs.{wide}
use clarity_wasm.Linker.Tokens.Principals.{read_principal_argument}
use clarity_wasm.Linker.Tokens.Fungible.{ft_transfer, ft_mint, ft_burn}
use clarity_wasm.Linker.Tokens.Transfer.{Transferred, ft_transfer-Transferred}
use clarity_wasm.Linker.Tokens.Supply.{Minted, Burned, ft_mint-Minted, ft_burn-Burned}
use clarity_wasm.Linker.Tokens.NonFungible.{Asset, owner_in, existing}
use clarity_wasm.Linker.Tokens.Ownership.{Follows, transfer, execute, decide, execute-Follows}
use clarity_wasm.Linker.Tokens.Registry.{Owners, registry, nft_laws}
use clarity_wasm.Linker.Tokens.Book.{Book, database, laws, unlimited}

abbrev alice : PrincipalData
alice = standard (record { version = 22; hash = replicate 20 1 })

abbrev bob : PrincipalData
bob = standard (record { version = 22; hash = replicate 20 2 })

-- The name "a", and two principals.
abbrev bytes : List ℕ
bytes =
    (97 ∷ replicate 7 0)
    ++ (22 ∷ replicate 20 1)
    ++ (0 ∷ 0 ∷ 0 ∷ [])
    ++ (22 ∷ replicate 20 2)
    ++ (0 ∷ [])

abbrev no_types : List ℕ → Result Error TypeSignature
no_types text = err panic

abbrev coin : ContractContext
coin = record {
  contract_identifier = record {
    issuer = record { version = 22; hash = replicate 20 9 };
    name = 99 ∷ [];
  };
  meta_data_var = λ name. none;
  meta_data_map = λ name. none;
  meta_ft = λ name. some none;
  meta_nft = λ name. none;
}

-- Everyone has 100.
abbrev book : Book
book = record { balances = λ p. 100; supply = 200 }

abbrev x : ClarityWasmContext Book
x = record {
  global_context = book;
  event_batches = [] ∷ [];
  contract_context = coin;
  sender = none;
  caller = none;
  sponsor = none;
  sender_stack = [];
  caller_stack = [];
  bhh_stack = [];
}

named : read_identifier_from_wasm byte_memory accepting no_types bytes 0 1 ≡ ok (97 ∷ [])
unfolding read_identifier_from_wasm read_bytes_from_wasm
named = refl

alice_read : read_principal_argument byte_memory accepting bytes 8 22 ≡ ok alice
unfolding read_principal_argument read_from_wasm read_principal read_contract read_usize
    value_as_principal from_le_bytes
alice_read = refl

bob_read : read_principal_argument byte_memory accepting bytes 32 22 ≡ ok bob
unfolding read_principal_argument read_from_wasm read_principal read_contract read_usize
    value_as_principal from_le_bytes
bob_read = refl

ft_transfer-Transferred_example :
    Transferred database laws unlimited x
      (97 ∷ [])
      (wide 30 0)
      alice
      bob
      100
      100
      (ft_transfer byte_memory accepting no_types database x bytes 0 1 30 0 8 22 32 22)
ft_transfer-Transferred_example =
    ft_transfer-Transferred byte_memory accepting no_types database laws unlimited x bytes 0 1 30 0
      8 22 32 22 named refl alice_read bob_read refl refl refl

ft_mint-Minted_example :
    Minted database laws unlimited x
      (97 ∷ [])
      (wide 30 0)
      alice
      100
      200
      none
      (ft_mint byte_memory accepting no_types database x bytes 0 1 30 0 8 22)
ft_mint-Minted_example =
    ft_mint-Minted byte_memory accepting no_types database laws unlimited x bytes 0 1 30 0 8 22
      named refl alice_read refl refl refl

ft_burn-Burned_example :
    Burned database laws unlimited x
      (97 ∷ [])
      (wide 30 0)
      alice
      100
      200
      (ft_burn byte_memory accepting no_types database x bytes 0 1 30 0 8 22)
ft_burn-Burned_example =
    ft_burn-Burned byte_memory accepting no_types database laws unlimited x bytes 0 1 30 0 8 22
      named refl alice_read refl refl

abbrev nft : ClarityWasmContext Owners
nft = record {
  global_context = record { owner = λ n. if n == 7 then some alice else none };
  event_batches = [] ∷ [];
  contract_context = coin;
  sender = none;
  caller = none;
  sponsor = none;
  sender_stack = [];
  caller_stack = [];
  bhh_stack = [];
}

abbrev seventh : Asset
seventh = record { asset_name = 97 ∷ []; key_type = int_type; asset = int 7; asset_size = 17 }

owned : owner_in registry nft seventh ≡ ok (some alice)
unfolding owner_in existing
owned = refl

execute-Follows_example :
    Follows registry
      (transfer alice bob)
      nft
      seventh
      (execute registry (transfer alice bob) nft seventh)
      (decide (transfer alice bob) (some alice))
execute-Follows_example =
    execute-Follows registry nft_laws (transfer alice bob) nft seventh refl owned
