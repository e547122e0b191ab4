-- ===== src/Host/Ends.antt =====
-- The list loop of `read_from_wasm` of clar2wasm/src/wasm_utils.rs ends: the fuel never runs out.
use clarity_wasm.Prelude.{
  ℕ, zero, suc, ◌+◌, ◌≤◌, ◌<◌, ◌^◌, ◌≡◌, true, Option, some, none, Result, ok, err, ◌>>=◌, arith,
  add32, add32-eq-add, ltb, leb, leb→le, Bool-cases, inl, inr,
}
use clarity_wasm.Clarity.{Values}
use clarity_wasm.Wasm.Memory.{LinearMemory}
use clarity_wasm.Host.Errors.{Error, diverges, or_error, map_err}
use clarity_wasm.Host.Library.{ClarityLibrary}
use clarity_wasm.Host.Access.{as_usize, lt_i32, read_mem, read_usize}
use clarity_wasm.Host.Read.{Reader, read_elements, read_list}

-- Any error but the mark of a loop that runs out of fuel.
abbrev pub IsFinal : Error → Type 0
IsFinal diverges = ⊥
IsFinal _ = Unit

-- The result is not that mark, and with a success comes `P`.
abbrev pub Ends {ℓ} : {A : Type ℓ} → Type 0 → Result Error A → Type 0
Ends P (err e) = IsFinal e
Ends P (ok a) = P

pub Ends-bind {ℓ κ} :
    {A : Type ℓ} {B : Type κ} (P Q : Type 0) (r : Result Error A) (f : A → Result Error B)
    → Ends P r
    → ((a : A) → P → Ends Q (f a))
    → Ends Q (r >>= f)
Ends-bind P Q (err e) f h k = h
Ends-bind P Q (ok a) f h k = k a h

pub Ends-mono {ℓ} : {A : Type ℓ} {P Q : Type 0} (r : Result Error A) → (P → Q) → Ends P r → Ends Q r
Ends-mono (err e) f h = h
Ends-mono (ok a) f h = f h

pub Ends-map_err {ℓ} :
    {A : Type ℓ} (r : Result Error A) (e : Error) → IsFinal e → Ends Unit (map_err r e)
Ends-map_err (ok a) e h = tt
Ends-map_err (err _) e h = h

pub Ends-or_error {ℓ} :
    {A : Type ℓ} (o : Option A) (e : Error) → IsFinal e → Ends Unit (or_error o e)
Ends-or_error none e h = h
Ends-or_error (some a) e h = tt

module _ (W : LinearMemory) where
  read_in_bounds :
      (m : W.Memory) (o k : ℕ) (e : Error)
      → IsFinal e
      → Ends (o + k ≤ W.size m) (or_error (W.read m o k) e)
  read_in_bounds m o k e h = elim (Bool-cases (leb (o + k) (W.size m))) [
    | inl y ↦ (let l = leb→le (o + k) (W.size m) y in let (bs, r) = W.read_fits m o k l in rw r l)
    | inr n ↦ rw (W.read_out_of_bounds m o k (ground arith)) h
  ]

  pub read_mem-Ends :
      (e : Error) (m : W.Memory) (o k : ℕ)
      → IsFinal e
      → Ends (as_usize o + as_usize k ≤ W.size m) (read_mem W e m o k)
  unfolding read_mem
  read_mem-Ends e m o k h = elim (Bool-cases (ltb k (2 ^ 31))) [
    | inl b ↦ rw b (read_in_bounds m (as_usize o) k e h)
    | inr b ↦ rw b tt
  ]

  pub read_usize-Ends :
      (e : Error) (m : W.Memory) (o k : ℕ)
      → IsFinal e
      → Ends (o + k ≤ W.size m) (read_usize W e m o k)
  unfolding read_usize
  read_usize-Ends e m o k h = read_in_bounds m o k e h

  lt_i32_start :
      (current end : ℕ)
      → current < 2 ^ 31
      → end < 2 ^ 32
      → lt_i32 current end ≡ true
      → (end < 2 ^ 31) × (current < end)
  lt_i32_start current end h k e = ground arith

  in_memory_start : (o s : ℕ) → s ≤ 2 ^ 31 → as_usize o < s → o < 2 ^ 31
  in_memory_start o s h k = ground arith

module _ (W : LinearMemory) (L : ClarityLibrary) where
  read_elements-Ends :
      (reader : Reader W L) (m : W.Memory) (fuel current end n : ℕ)
      → W.size m ≤ 2 ^ 31
      → 1 ≤ n
      → n < 2 ^ 31
      → ((o : ℕ) → Ends (as_usize o < W.size m) (reader m o))
      → end < 2 ^ 32
      → 1 ≤ fuel
      → (current < 2 ^ 31 → end < 2 ^ 31 → end < current + fuel)
      → Ends Unit (read_elements W L fuel reader m current end n)
  unfolding read_elements
  read_elements-Ends reader m zero current end n s p q h b f enough = absurd (omega arith)
  read_elements-Ends reader m (suc fuel) current end n s p q h b f enough =
      elim (Bool-cases (lt_i32 current end)) [
        | inl y ↦ rw y (
            Ends-bind (as_usize current < W.size m) Unit (reader m current) _ (h current) (λ elem l.
              let c = in_memory_start W current (W.size m) s l in
              let (d, e) = lt_i32_start W current end c b y in
              let a = add32-eq-add current n (omega arith) in
              Ends-bind Unit Unit (read_elements W L fuel reader m (add32 current n) end n) _
                (read_elements-Ends reader m fuel (add32 current n) end n s p q h b
                  (let g = enough c d in omega arith) (λ _ _. let g = enough c d in omega arith))
                (λ rest _. tt)))
        | inr z ↦ rw z tt
      ]

  pub read_list-Ends :
      (reader : Reader W L) (size : Option ℕ) (m : W.Memory) (offset len n : ℕ)
      → W.size m ≤ 2 ^ 31
      → size ≡ some n
      → 1 ≤ n
      → n < 2 ^ 31
      → ((o : ℕ) → Ends (as_usize o < W.size m) (reader m o))
      → ((vs : Values) → Ends Unit (L.cons_list_unsanitized vs))
      → Ends Unit (read_list W L reader size m offset len)
  unfolding read_list add32
  read_list-Ends reader size m offset len n s e p q h c = rw e (
      Ends-bind Unit Unit (read_elements W L (len + 1) reader m offset (add32 offset len) n) _
        (read_elements-Ends reader m (len + 1) offset (add32 offset len) n s p q h (omega arith)
          (omega arith) (λ _ _. omega arith))
        (λ vs _. c vs))
