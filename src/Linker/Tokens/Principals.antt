-- ===== src/Linker/Tokens/Principals.antt =====
-- Principals as arguments of the host functions of clar2wasm/src/linker.rs, and their equality.
use mathlib.Core.Bool.{true≢false}
use clarity_wasm.Prelude.{
  ℕ, ◌≡◌, refl, sym, ◌∙◌, ◌≢◌, ap, ap₂, Bool, true, false, ◌&&◌, ◌==◌, ==_iff, Result, ◌>>=◌,
}
use clarity_wasm.Clarity.{StandardPrincipalData, PrincipalData, standard, contract, principal_type}
use clarity_wasm.Wasm.Memory.{LinearMemory}
use clarity_wasm.Generator.Literals.Defs.{bytes_eq}
use clarity_wasm.Generator.Literals.Placed.{bytes_eq_sound, bytes_eq_refl}
use clarity_wasm.Host.Errors.{Error}
use clarity_wasm.Host.Library.{ClarityLibrary}
use clarity_wasm.Host.Access.{value_as_principal}
use clarity_wasm.Host.Read.{read_from_wasm}

unfoldable pub issuer_eq : StandardPrincipalData → StandardPrincipalData → Bool
issuer_eq s t = s.version == t.version && bytes_eq s.hash t.hash

-- `==` of `PrincipalData`
unfoldable pub principal_eq : PrincipalData → PrincipalData → Bool
principal_eq (standard s) (standard t) = issuer_eq s t
principal_eq (contract c) (contract d) = issuer_eq c.issuer d.issuer && bytes_eq c.name d.name
principal_eq _ _ = false

module _ (W : LinearMemory) (L : ClarityLibrary) where
  unfoldable pub read_principal_argument : W.Memory → ℕ → ℕ → Result Error PrincipalData
  read_principal_argument m offset len = do
    value ← read_from_wasm W L principal_type m offset len
    value_as_principal value

and_true : (a b : Bool) → a && b ≡ true → (a ≡ true) × (b ≡ true)
and_true true b h = (refl, h)
and_true false b h = absurd (cc)

issuer_eq_sound : (s t : StandardPrincipalData) → issuer_eq s t ≡ true → s ≡ t
unfolding issuer_eq
issuer_eq_sound s t h =
    let (v, b) = and_true (s.version == t.version) (bytes_eq s.hash t.hash) h in
    ap₂ (λ v h. record { version = v; hash = h }) ((==_iff s.version t.version).0 v)
      (bytes_eq_sound s.hash t.hash b)

issuer_eq_refl : (s : StandardPrincipalData) → issuer_eq s s ≡ true
unfolding issuer_eq
issuer_eq_refl s = rw ((==_iff s.version s.version).1 refl, bytes_eq_refl s.hash) refl

pub principal_eq_sound : (p q : PrincipalData) → principal_eq p q ≡ true → p ≡ q
unfolding principal_eq
principal_eq_sound (standard s) (standard t) h = ap standard (issuer_eq_sound s t h)
principal_eq_sound (contract c) (contract d) h =
    let (i, n) = and_true (issuer_eq c.issuer d.issuer) (bytes_eq c.name d.name) h in
    ap₂ (λ i n. contract (record { issuer = i; name = n })) (issuer_eq_sound c.issuer d.issuer i)
      (bytes_eq_sound c.name d.name n)
principal_eq_sound (standard s) (contract d) h = absurd (cc)
principal_eq_sound (contract c) (standard t) h = absurd (cc)

pub principal_eq_refl : (p : PrincipalData) → principal_eq p p ≡ true
unfolding principal_eq
principal_eq_refl (standard s) = issuer_eq_refl s
principal_eq_refl (contract c) = rw (issuer_eq_refl c.issuer, bytes_eq_refl c.name) refl

pub principal_eq_complete : (p q : PrincipalData) → principal_eq p q ≡ false → p ≢ q
principal_eq_complete p q h e = true≢false (sym (principal_eq_refl p) ∙ ap (principal_eq p) e ∙ h)
