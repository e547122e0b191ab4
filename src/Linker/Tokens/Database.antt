-- ===== src/Linker/Tokens/Database.antt =====
-- What the host functions of clar2wasm/src/linker.rs on tokens use of the `clarity` crate's global
-- context and database, and what its documentation says of that.
use clarity_wasm.Prelude.{ℕ, ◌+◌, ◌-◌, ◌≤◌, ◌≡◌, ◌≢◌, List, Option, Result, ok, ◌>>=◌}
use clarity_wasm.Clarity.{TypeSignature, PrincipalData, QualifiedContractIdentifier}
use clarity_wasm.Host.Errors.{Error}

-- The metadata of a fungible token is its total supply, if it has one.
pub record AssetDatabase (G : Type 0) : Type 0 where
  -- `ClarityName::try_from`
  pub clarity_name : List ℕ → Result Error (List ℕ)
  -- `TypeSignature::size`
  pub type_size : TypeSignature → Result Error ℕ
  pub add_memory : G → ℕ → Result Error G
  pub get_ft_supply : G → QualifiedContractIdentifier → List ℕ → Result Error ℕ
  pub get_ft_balance :
      G → QualifiedContractIdentifier → List ℕ → PrincipalData → Option (Option ℕ) → Result Error ℕ
  pub set_ft_balance : G → QualifiedContractIdentifier → List ℕ → PrincipalData → ℕ → Result Error G
  pub checked_increase_token_supply :
      G → QualifiedContractIdentifier → List ℕ → ℕ → Option ℕ → Result Error G
  pub checked_decrease_token_supply : G → QualifiedContractIdentifier → List ℕ → ℕ → Result Error G
  pub log_token_transfer :
      G → PrincipalData → QualifiedContractIdentifier → List ℕ → ℕ → Result Error G

module _ {G : Type 0} (D : AssetDatabase G) where
  -- `add_memory(t.size()?)`
  unfoldable pub charge : TypeSignature → G → Result Error G
  charge t g = do n ← D.type_size t; D.add_memory g n

  -- A token is a contract and a name.
  abbrev pub SameBalances : QualifiedContractIdentifier → List ℕ → G → G → Type 0
  SameBalances c name g g' =
      (p : PrincipalData) (d : Option (Option ℕ))
      → D.get_ft_balance g' c name p d ≡ D.get_ft_balance g c name p d

  abbrev pub SameSupply : QualifiedContractIdentifier → List ℕ → G → G → Type 0
  SameSupply c name g g' = D.get_ft_supply g' c name ≡ D.get_ft_supply g c name

  pub record AssetLaws : Type 0 where
    pub add_memory_same :
        {g g' : G} {n : ℕ} (c : QualifiedContractIdentifier) (name : List ℕ)
        → D.add_memory g n ≡ ok g'
        → SameBalances c name g g' × SameSupply c name g g'
    pub log_same :
        {g g' : G} {p : PrincipalData} {n : ℕ} (c : QualifiedContractIdentifier) (name : List ℕ)
        → D.log_token_transfer g p c name n ≡ ok g'
        → SameBalances c name g g' × SameSupply c name g g'
    pub set_here :
        {g g' : G} {c : QualifiedContractIdentifier} {name : List ℕ} {p : PrincipalData} {n : ℕ}
        (d : Option (Option ℕ))
        → D.set_ft_balance g c name p n ≡ ok g'
        → D.get_ft_balance g' c name p d ≡ ok n
    pub set_elsewhere :
        {g g' : G} {c : QualifiedContractIdentifier} {name : List ℕ} {p : PrincipalData} {n : ℕ}
        (q : PrincipalData) (d : Option (Option ℕ))
        → D.set_ft_balance g c name p n ≡ ok g'
        → q ≢ p
        → D.get_ft_balance g' c name q d ≡ D.get_ft_balance g c name q d
    pub set_supply :
        {g g' : G} {c : QualifiedContractIdentifier} {name : List ℕ} {p : PrincipalData} {n : ℕ}
        → D.set_ft_balance g c name p n ≡ ok g'
        → SameSupply c name g g'
    pub increase_same :
        {g g' : G} {c : QualifiedContractIdentifier} {name : List ℕ} {n : ℕ} {d : Option ℕ}
        → D.checked_increase_token_supply g c name n d ≡ ok g'
        → SameBalances c name g g'
    pub increase_supply :
        {g g' : G} {c : QualifiedContractIdentifier} {name : List ℕ} {n k : ℕ} {d : Option ℕ}
        → D.checked_increase_token_supply g c name n d ≡ ok g'
        → D.get_ft_supply g c name ≡ ok k
        → D.get_ft_supply g' c name ≡ ok (k + n)
    pub decrease_same :
        {g g' : G} {c : QualifiedContractIdentifier} {name : List ℕ} {n : ℕ}
        → D.checked_decrease_token_supply g c name n ≡ ok g'
        → SameBalances c name g g'
    pub decrease_supply :
        {g g' : G} {c : QualifiedContractIdentifier} {name : List ℕ} {n k : ℕ}
        → D.checked_decrease_token_supply g c name n ≡ ok g'
        → D.get_ft_supply g c name ≡ ok k
        → (n ≤ k) × (D.get_ft_supply g' c name ≡ ok (k - n))

  -- No limit is met, and what is stored can be stored.
  pub record Unlimited : Type 0 where
    pub sized : (t : TypeSignature) → (n : ℕ) × (D.type_size t ≡ ok n)
    pub has_memory : (g : G) (n : ℕ) → (g' : G) × (D.add_memory g n ≡ ok g')
    pub sets :
        (g : G) (c : QualifiedContractIdentifier) (name : List ℕ) (p : PrincipalData) (n : ℕ)
        → (g' : G) × (D.set_ft_balance g c name p n ≡ ok g')
    pub logs :
        (g : G) (p : PrincipalData) (c : QualifiedContractIdentifier) (name : List ℕ) (n : ℕ)
        → (g' : G) × (D.log_token_transfer g p c name n ≡ ok g')
