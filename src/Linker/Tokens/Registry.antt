-- ===== src/Linker/Tokens/Registry.antt =====
-- A database of tokens with integer identifiers that meets what the host functions of
-- clar2wasm/src/linker.rs expect.
use clarity_wasm.Prelude.{
  ℕ, ◌≡◌, ◌≢◌, refl, ap, Bool, true, false, Option, none, some, Result, ok, err, ◌==◌, ==_iff,
  if◌then◌else◌, Bool-cases, inl, inr, List, Result,
}
use clarity_wasm.Clarity.{TypeSignature, Value, PrincipalData, QualifiedContractIdentifier, int}
use clarity_wasm.Host.Errors.{Error, no_such_token, type_value_error}
use clarity_wasm.Linker.Tokens.NonFungible.{NftDatabase}
use clarity_wasm.Linker.Tokens.Ownership.{NftLaws, SameOthers}

pub record Owners : Type 0 where
  pub owner : ℕ → Option PrincipalData

abbrev found : Option PrincipalData → Result Error PrincipalData
found none = err no_such_token
found (some p) = ok p

abbrev look : Owners → Value → Result Error PrincipalData
look g (int n) = found (g.owner n)
look g _ = err no_such_token

abbrev put : Owners → Value → Option PrincipalData → Result Error Owners
put g (int n) o = ok (record { owner = λ k. if k == n then o else g.owner k })
put g _ o = err type_value_error

abbrev is_int : Value → Bool
is_int (int n) = true
is_int _ = false

abbrev pub registry : NftDatabase Owners
registry = record {
  clarity_name = λ name. ok name;
  type_size = λ t. ok 1;
  admits = λ t v. ok (is_int v);
  serialized_size = λ v. ok 17;
  add_memory = λ g n. ok g;
  get_nft_owner = λ g c name v t. look g v;
  set_nft_owner = λ g c name v p t. put g v (some p);
  burn_nft = λ g c name v t. put g v none;
  log_asset_transfer = λ g p c name v. ok g;
}

abbrev admitted : Value → Result Error Bool
admitted v = ok (is_int v)

abbrev yes : Result Error Bool
yes = ok true

updated :
    (n : ℕ) (o : Option PrincipalData) (f : ℕ → Option PrincipalData)
    → (if n == n then o else f n) ≡ o
updated n o f = rw ((==_iff n n).1 refl) refl

kept :
    (n k : ℕ) (o : Option PrincipalData) (f : ℕ → Option PrincipalData)
    → int k ≢ int n
    → (if k == n then o else f k) ≡ f k
kept n k o f ne = elim (Bool-cases (k == n)) [
  | inl e ↦ absurd (ne (ap int ((==_iff k n).0 e)))
  | inr e ↦ rw e refl
]

module _ (c : QualifiedContractIdentifier) (name : List ℕ) where
  put-SameOthers :
      (g : Owners) (n : ℕ) (o : Option PrincipalData)
      → SameOthers registry c name
          (int n)
          g
          (record { owner = λ k. if k == n then o else g.owner k })
  put-SameOthers g n o (int k) t ne = ap found (kept n k o g.owner ne)
  put-SameOthers g n o _ t ne = refl

  put-sets :
      (g : Owners) (v : Value) (p : PrincipalData) (t : TypeSignature)
      → admitted v ≡ yes
      → (g' : Owners) × (put g v (some p) ≡ ok g')
        × (look g' v ≡ ok p)
        × SameOthers registry c name v g g'
  put-sets g (int n) p t fits = (
    record { owner = λ k. if k == n then some p else g.owner k },
    refl,
    ap found (updated n (some p) g.owner),
    put-SameOthers g n (some p),
  )
  put-sets g _ p t fits = absurd (cc)

  put-burns :
      (g : Owners) (v : Value) (t : TypeSignature)
      → admitted v ≡ yes
      → (g' : Owners) × (put g v none ≡ ok g')
        × (look g' v ≡ err no_such_token)
        × SameOthers registry c name v g g'
  put-burns g (int n) t fits = (
    record { owner = λ k. if k == n then none else g.owner k },
    refl,
    ap found (updated n none g.owner),
    put-SameOthers g n none,
  )
  put-burns g _ t fits = absurd (cc)

pub nft_laws : NftLaws registry
nft_laws = record {
  sized = λ t. (1, refl);
  has_memory = λ c name g n. (g, refl, λ v t. refl);
  logs = λ c name g p v. (g, refl, λ v t. refl);
  sets = λ c name g v p t fits. put-sets c name g v p t fits;
  burns = λ c name g v t fits. put-burns c name g v t fits;
}
