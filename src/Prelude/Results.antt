-- ===== src/Prelude/Results.antt =====
-- `Result<A, E>`, with the `?` operator as the bind of `do`.
use mathlib.Core.Path.{◌≡◌, refl, subst}
use mathlib.Core.Logic.{◌⊎◌, inl, inr}

pub data Result {ℓ} (E : Type 0) (A : Type ℓ) : Type ℓ where
  err : E → Result E A
  ok : A → Result E A

module _ {ℓ κ} {E : Type 0} {A : Type ℓ} {B : Type κ} where
  infixl 5 ◌>>=◌
  -- The first error is the result.
  abbrev pub ◌>>=◌ : Result E A → (A → Result E B) → Result E B
  err x >>= next = err x
  ok a >>= next = next a

-- Every success has the property.
abbrev pub AllOk {ℓ κ} : {E : Type 0} {A : Type ℓ} → (A → Type κ) → Result E A → Type κ
AllOk P (err x) = Unit
AllOk P (ok a) = P a

pub AllOk-bind {ℓ κ μ} :
    {E : Type 0} {A : Type ℓ} {B : Type κ} (P : B → Type μ) (r : Result E A) (next : A → Result E B)
    → ((a : A) → r ≡ ok a → AllOk P (next a))
    → AllOk P (r >>= next)
AllOk-bind P (err x) next h = tt
AllOk-bind P (ok a) next h = h a refl

pub AllOk-ok {ℓ κ} :
    {E : Type 0} {A : Type ℓ} (P : A → Type κ) (r : Result E A) {a : A} → AllOk P r → r ≡ ok a → P a
AllOk-ok P (err x) h e = absurd (cc)
AllOk-ok P (ok b) {a} h e = let g : b ≡ a = cc in subst P g h

pub Result-cases {ℓ} :
    {E : Type 0} {A : Type ℓ} (r : Result E A) → ((x : E) × (r ≡ err x)) ⊎ ((a : A) × (r ≡ ok a))
Result-cases (err x) = inl (x, refl)
Result-cases (ok a) = inr (a, refl)

-- What a bind gives comes from a success and what follows it.
pub bind-ok {ℓ κ} :
    {E : Type 0} {A : Type ℓ} {B : Type κ} (r : Result E A) (next : A → Result E B) {b : B}
    → r >>= next ≡ ok b
    → (a : A) × (r ≡ ok a) × (next a ≡ ok b)
bind-ok (err x) next e = absurd (cc)
bind-ok (ok a) next e = (a, refl, e)
