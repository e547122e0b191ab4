-- ===== src/Linker/Context.antt =====
-- What the host functions of clar2wasm/src/linker.rs use of the `clarity` crate: the global context
-- with its database, and the contract's metadata. They are not part of the repository: here are
-- their operations, and what their documentation says of them.
use clarity_wasm.Prelude.{ℕ, ◌≡◌, Bool, List, Option, some, Result, ok}
use clarity_wasm.Clarity.{TypeSignature, Value, QualifiedContractIdentifier, some_value}
use clarity_wasm.Host.Errors.{Error}

-- The key type and the value type of a map.
abbrev pub MapTypes : Type 0
MapTypes = TypeSignature × TypeSignature

-- `GlobalContext` with its `ClarityDatabase`. The operations on maps also give the serialized length.
pub record GlobalContext : Type 1 where
  pub State : Type 0
  pub is_read_only : State → Bool
  pub add_memory : State → ℕ → Result Error State
  -- `TypeSignature::size`
  pub type_size : TypeSignature → Result Error ℕ
  -- `get_value` at the key of a variable
  pub get_value :
      State → QualifiedContractIdentifier → List ℕ → TypeSignature → Result Error (Option Value)
  pub set_variable :
      State → QualifiedContractIdentifier → List ℕ → Value → TypeSignature → Result Error State
  -- `fetch_entry_with_size`: an optional
  pub fetch_entry :
      State → QualifiedContractIdentifier → List ℕ → Value → MapTypes → Result Error (ℕ × Value)
  pub set_entry :
      State
      → QualifiedContractIdentifier
      → List ℕ
      → (key value : Value) → MapTypes
      → Result Error (ℕ × (Value × State))
  pub insert_entry :
      State
      → QualifiedContractIdentifier
      → List ℕ
      → (key value : Value) → MapTypes
      → Result Error (ℕ × (Value × State))
  pub delete_entry :
      State
      → QualifiedContractIdentifier
      → List ℕ
      → Value
      → MapTypes
      → Result Error (ℕ × (Value × State))
  pub get_value-set_variable :
      {s s' : State} {c : QualifiedContractIdentifier} {name : List ℕ} {v : Value}
      {t : TypeSignature}
      → set_variable s c name v t ≡ ok s'
      → get_value s' c name t ≡ ok (some v)
  pub fetch_entry-set_entry :
      {s s' : State} {c : QualifiedContractIdentifier} {name : List ℕ} {k v r : Value}
      {ts : MapTypes} {size : ℕ}
      → set_entry s c name k v ts ≡ ok (size, (r, s'))
      → fetch_entry s' c name k ts ≡ ok (size, some_value v)
  pub fetch_entry-add_memory :
      {s s' : State} {n : ℕ} (c : QualifiedContractIdentifier) (name : List ℕ) (k : Value)
      (ts : MapTypes)
      → add_memory s n ≡ ok s'
      → fetch_entry s' c name k ts ≡ fetch_entry s c name k ts

-- `ContractContext`: the contract's identifier, the types of its variables and maps by name, the
-- total supplies of its fungible tokens, and the types of the identifiers of its non-fungible ones.
pub record ContractContext : Type 0 where
  pub contract_identifier : QualifiedContractIdentifier
  pub meta_data_var : List ℕ → Option TypeSignature
  pub meta_data_map : List ℕ → Option MapTypes
  pub meta_ft : List ℕ → Option (Option ℕ)
  pub meta_nft : List ℕ → Option TypeSignature
