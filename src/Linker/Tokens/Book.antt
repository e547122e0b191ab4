-- ===== src/Linker/Tokens/Book.antt =====
-- A database of one token that meets what the host functions of clar2wasm/src/linker.rs expect.
use clarity_wasm.Prelude.{
  ℕ, ◌+◌, ◌-◌, ◌≤◌, ◌≡◌, ◌≢◌, refl, sym, ap, subst, Bool, true, false, Result, ok, err, leb, leb→le,
  if◌then◌else◌, Bool-cases, inl, inr,
}
use clarity_wasm.Clarity.{PrincipalData}
use clarity_wasm.Host.Errors.{Error, arithmetic_overflow}
use clarity_wasm.Linker.Tokens.Principals.{principal_eq, principal_eq_sound, principal_eq_refl}
use clarity_wasm.Linker.Tokens.Database.{AssetDatabase, AssetLaws, Unlimited}

pub record Book : Type 0 where
  pub balances : PrincipalData → ℕ
  pub supply : ℕ

abbrev write_balance : Book → PrincipalData → ℕ → Book
write_balance g p n = record g { balances = λ q. if principal_eq q p then n else g.balances q }

abbrev take_supply : Book → ℕ → Result Error Book
take_supply g n =
    if leb n g.supply then ok (record g { supply = g.supply - n }) else err arithmetic_overflow

abbrev pub database : AssetDatabase Book
database = record {
  clarity_name = λ name. ok name;
  type_size = λ t. ok 1;
  add_memory = λ g n. ok g;
  get_ft_supply = λ g c name. ok g.supply;
  get_ft_balance = λ g c name p d. ok (g.balances p);
  set_ft_balance = λ g c name p n. ok (write_balance g p n);
  checked_increase_token_supply = λ g c name n d. ok (record g { supply = g.supply + n });
  checked_decrease_token_supply = λ g c name n. take_supply g n;
  log_token_transfer = λ g p c name n. ok g;
}

here : (g : Book) (p : PrincipalData) (n : ℕ) → (write_balance g p n).balances p ≡ n
here g p n = rw (principal_eq_refl p) refl

elsewhere :
    (g : Book) (p q : PrincipalData) (n : ℕ)
    → q ≢ p
    → (write_balance g p n).balances q ≡ g.balances q
elsewhere g p q n ne = elim (Bool-cases (principal_eq q p)) [
  | inl e ↦ absurd (ne (principal_eq_sound q p e))
  | inr e ↦ rw e refl
]

abbrev done : Book → Result Error Book
done g = ok g

abbrev count : ℕ → Result Error ℕ
count n = ok n

ok_injective : {g h : Book} → done g ≡ done h → g ≡ h
ok_injective e = cc

same_balances :
    {g g' : Book} → g ≡ g' → (p : PrincipalData) → count (g'.balances p) ≡ count (g.balances p)
same_balances e p = ap (λ g. count (g.balances p)) (sym e)

same_supply : {g g' : Book} → g ≡ g' → count g'.supply ≡ count g.supply
same_supply e = ap (λ g. count g.supply) (sym e)

set_here_lem :
    (g : Book) {g' : Book} (p : PrincipalData) (n : ℕ)
    → write_balance g p n ≡ g'
    → count (g'.balances p) ≡ count n
set_here_lem g p n e = subst (λ g'. count (g'.balances p) ≡ count n) e (ap count (here g p n))

set_elsewhere_lem :
    (g : Book) {g' : Book} (p q : PrincipalData) (n : ℕ)
    → write_balance g p n ≡ g'
    → q ≢ p
    → count (g'.balances q) ≡ count (g.balances q)
set_elsewhere_lem g p q n e ne =
    subst (λ g'. count (g'.balances q) ≡ count (g.balances q)) e (ap count (elsewhere g p q n ne))

add_supply_lem :
    (g : Book) {g' : Book} (n k : ℕ)
    → record g { supply = g.supply + n } ≡ g'
    → count g.supply ≡ count k
    → count g'.supply ≡ count (k + n)
add_supply_lem g {g'} n k e f =
    let had : g.supply ≡ k = cc in
    subst (λ g'. count g'.supply ≡ count (k + n)) e (ap (λ s. count (s + n)) had)

take_supply_lem :
    (g : Book) {g' : Book} (n : ℕ)
    → take_supply g n ≡ done g'
    → (n ≤ g.supply) × (record g { supply = g.supply - n } ≡ g')
take_supply_lem g {g'} n e = go (leb n g.supply) refl e
  where
    go :
        (b : Bool)
        → leb n g.supply ≡ b
        → (if b then ok (record g { supply = g.supply - n }) else err arithmetic_overflow) ≡ done g'
        → (n ≤ g.supply) × (record g { supply = g.supply - n } ≡ g')
    go true l f = (leb→le n g.supply l, cc)
    go false l f = absurd (cc)

decrease_lem :
    (g : Book) {g' : Book} (n k : ℕ)
    → take_supply g n ≡ done g'
    → count g.supply ≡ count k
    → (n ≤ k) × (count g'.supply ≡ count (k - n))
decrease_lem g n k e f =
    let (l, same) = take_supply_lem g n e in
    let had : g.supply ≡ k = cc in
    (
      subst (λ s. n ≤ s) had l,
      subst (λ g'. count g'.supply ≡ count (k - n)) same (ap (λ s. count (s - n)) had),
    )

pub laws : AssetLaws database
laws = record {
  add_memory_same =
      λ c name e. (λ p d. same_balances (ok_injective e) p, same_supply (ok_injective e));
  log_same = λ c name e. (λ p d. same_balances (ok_injective e) p, same_supply (ok_injective e));
  set_here = λ d e. set_here_lem _ _ _ (ok_injective e);
  set_elsewhere = λ q d e ne. set_elsewhere_lem _ _ q _ (ok_injective e) ne;
  set_supply = λ e. same_supply (ok_injective e);
  increase_same = λ e p d. same_balances (ok_injective e) p;
  increase_supply = λ e f. add_supply_lem _ _ _ (ok_injective e) f;
  decrease_same = λ e p d. same_balances (take_supply_lem _ _ e).1 p;
  decrease_supply = λ e f. decrease_lem _ _ _ e f;
}

pub unlimited : Unlimited database
unlimited = record {
  sized = λ t. (1, refl);
  has_memory = λ g n. (g, refl);
  sets = λ g c name p n. (write_balance g p n, refl);
  logs = λ g p c name n. (g, refl);
}
