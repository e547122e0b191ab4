-- ===== src/Wasm/Memory.antt =====
-- Linear memory, as wasmtime's `Memory::read` and `Memory::write` and the WebAssembly loads and
-- stores use it. Its implementation is not part of the repository: here are its operations, and
-- what their documentation says of them.
use clarity_wasm.Prelude.{ℕ, ◌+◌, ◌≤◌, ◌<◌, ◌≡◌, ◌⊎◌, List, ◌++◌, Option, none, some, length}

infixl 5 ◌>>=◌
abbrev pub ◌>>=◌ {ℓ κ} : {A : Type ℓ} {B : Type κ} → Option A → (A → Option B) → Option B
none >>= f = none
some a >>= f = f a

pub record LinearMemory : Type 1 where
  pub Memory : Type 0
  pub size : Memory → ℕ
  -- The bytes at an offset, so many; `none` is `MemoryAccessError`.
  pub read : Memory → ℕ → ℕ → Option (List ℕ)
  pub write : Memory → ℕ → List ℕ → Option Memory
  pub read_fits : (m : Memory) (o k : ℕ) → o + k ≤ size m → (bs : List ℕ) × (read m o k ≡ some bs)
  pub read_out_of_bounds : (m : Memory) (o k : ℕ) → size m < o + k → read m o k ≡ none
  pub write_fits :
      (m : Memory) (o : ℕ) (bs : List ℕ)
      → o + length bs ≤ size m
      → (m' : Memory) × (write m o bs ≡ some m')
  pub write_out_of_bounds :
      (m : Memory) (o : ℕ) (bs : List ℕ) → size m < o + length bs → write m o bs ≡ none
  pub size-write : {m m' : Memory} {o : ℕ} {bs : List ℕ} → write m o bs ≡ some m' → size m' ≡ size m
  pub read-write :
      {m m' : Memory} {o : ℕ} {bs : List ℕ}
      → write m o bs ≡ some m'
      → read m' o (length bs) ≡ some bs
  pub read-write_apart :
      {m m' : Memory} {o : ℕ} {bs : List ℕ} (p k : ℕ)
      → write m o bs ≡ some m'
      → (p + k ≤ o) ⊎ (o + length bs ≤ p)
      → read m' p k ≡ read m p k
  pub read-add :
      (m : Memory) (o j k : ℕ)
      → read m o (j + k) ≡ (do xs ← read m o j; ys ← read m (o + j) k; some (xs ++ ys))
  pub length-read : {m : Memory} {o k : ℕ} {bs : List ℕ} → read m o k ≡ some bs → length bs ≡ k
