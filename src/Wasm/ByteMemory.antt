-- ===== src/Wasm/ByteMemory.antt =====
-- A memory that meets the interface: a list of bytes.
use Prim.Native.Nat.add
use clarity_wasm.Prelude.{
  ℕ, zero, suc, ◌+◌, ◌≤◌, ◌<◌, ◌≡◌, refl, ap, ◌⊎◌, inl, List, [], ◌∷◌, ◌++◌, Option, none, some,
  arith, length,
}
use clarity_wasm.Wasm.Memory.{LinearMemory, ◌>>=◌}

-- Bytes from an offset on; past the end there is an access error.
abbrev pub read_bytes : List ℕ → ℕ → ℕ → Option (List ℕ)
read_bytes m zero zero = some []
read_bytes [] zero (suc k) = none
read_bytes (b ∷ m) zero (suc k) = do bs ← read_bytes m zero k; some (b ∷ bs)
read_bytes [] (suc o) k = none
read_bytes (b ∷ m) (suc o) k = read_bytes m o k

abbrev pub write_bytes : List ℕ → ℕ → List ℕ → Option (List ℕ)
write_bytes m zero [] = some m
write_bytes [] zero (c ∷ bs) = none
write_bytes (b ∷ m) zero (c ∷ bs) = do m' ← write_bytes m zero bs; some (c ∷ m')
write_bytes [] (suc o) bs = none
write_bytes (b ∷ m) (suc o) bs = do m' ← write_bytes m o bs; some (b ∷ m')

pub read_in_bounds :
    (m : List ℕ) (o k : ℕ) → o + k ≤ length m → (bs : List ℕ) × (read_bytes m o k ≡ some bs)
read_in_bounds m zero zero h = ([], refl)
read_in_bounds [] zero (suc k) h = absurd (omega arith)
read_in_bounds (b ∷ m) zero (suc k) h =
    let (bs, e) = read_in_bounds m zero k (omega arith) in (b ∷ bs, rw e)
read_in_bounds [] (suc o) k h = absurd (omega arith)
read_in_bounds (b ∷ m) (suc o) k h = read_in_bounds m o k (omega arith)

pub read_past_end : (m : List ℕ) (o k : ℕ) → length m < o + k → read_bytes m o k ≡ none
read_past_end m zero zero h = absurd (omega arith)
read_past_end [] zero (suc k) h = refl
read_past_end (b ∷ m) zero (suc k) h = rw (read_past_end m zero k (omega arith))
read_past_end [] (suc o) k h = refl
read_past_end (b ∷ m) (suc o) k h = read_past_end m o k (omega arith)

pub fits :
    (m : List ℕ) (o : ℕ) (bs : List ℕ)
    → o + length bs ≤ length m
    → (m' : List ℕ) × (write_bytes m o bs ≡ some m')
fits m zero [] h = (m, refl)
fits [] zero (c ∷ bs) h = absurd (omega arith)
fits (b ∷ m) zero (c ∷ bs) h = let (m', e) = fits m zero bs (omega arith) in (c ∷ m', rw e)
fits [] (suc o) bs h = absurd (omega arith)
fits (b ∷ m) (suc o) bs h = let (m', e) = fits m o bs (omega arith) in (b ∷ m', rw e)

pub out_of_bounds :
    (m : List ℕ) (o : ℕ) (bs : List ℕ) → length m < o + length bs → write_bytes m o bs ≡ none
out_of_bounds m zero [] h = absurd (omega arith)
out_of_bounds [] zero (c ∷ bs) h = refl
out_of_bounds (b ∷ m) zero (c ∷ bs) h = rw (out_of_bounds m zero bs (omega arith))
out_of_bounds [] (suc o) bs h = refl
out_of_bounds (b ∷ m) (suc o) bs h = rw (out_of_bounds m o bs (omega arith))

-- To take a successful bind apart.
bind-some {ℓ κ} :
    {A : Type ℓ} {B : Type κ} (o : Option A) (f : A → Option B) {b : B}
    → (o >>= f) ≡ some b
    → (a : A) × (o ≡ some a) × (f a ≡ some b)
bind-some none f h = absurd (cc)
bind-some (some a) f h = (a, refl, h)

pub read_write :
    (m m' : List ℕ) (o : ℕ) (bs : List ℕ)
    → write_bytes m o bs ≡ some m'
    → (length m' ≡ length m) × (read_bytes m' o (length bs) ≡ some bs)
read_write m m' zero [] h = (cc, refl)
read_write [] m' zero (c ∷ bs) h = absurd (cc)
read_write (b ∷ m) m' zero (c ∷ bs) h =
    let (w, e, f) = bind-some (write_bytes m zero bs) _ h in
    let (p, q) = read_write m w zero bs e in let g : m' ≡ c ∷ w = cc in rw g (ap suc p, rw q)
read_write [] m' (suc o) bs h = absurd (cc)
read_write (b ∷ m) m' (suc o) bs h =
    let (w, e, f) = bind-some (write_bytes m o bs) _ h in
    let (p, q) = read_write m w o bs e in let g : m' ≡ b ∷ w = cc in rw g (ap suc p, q)

-- Reads apart from a write, once the first byte of the memory is passed.
module _ (b c : ℕ) (m w : List ℕ) where
  skip_first :
      (o len p k : ℕ)
      → ((q : ℕ) → (q + k ≤ o) ⊎ (o + len ≤ q) → read_bytes w q k ≡ read_bytes m q k)
      → ((j : ℕ) → j ≤ o → read_bytes w 0 j ≡ read_bytes m 0 j)
      → (p + k ≤ suc o) ⊎ (suc o + len ≤ p)
      → read_bytes (b ∷ w) p k ≡ read_bytes (b ∷ m) p k
  skip_first o len zero zero above below a = refl
  skip_first o len zero (suc k) above below a = rw (below k (omega arith))
  skip_first o len (suc p) k above below a = above p (omega arith)

  skip_written :
      (len p k : ℕ)
      → ((q : ℕ) → (q + k ≤ 0) ⊎ (0 + len ≤ q) → read_bytes w q k ≡ read_bytes m q k)
      → (p + k ≤ 0) ⊎ (0 + suc len ≤ p)
      → read_bytes (c ∷ w) p k ≡ read_bytes (b ∷ m) p k
  skip_written len zero zero above a = refl
  skip_written len zero (suc k) above a = absurd (omega arith)
  skip_written len (suc p) k above a = above p (omega arith)

pub read_write_apart :
    (m m' : List ℕ) (o : ℕ) (bs : List ℕ) (p k : ℕ)
    → write_bytes m o bs ≡ some m'
    → (p + k ≤ o) ⊎ (o + length bs ≤ p)
    → read_bytes m' p k ≡ read_bytes m p k
read_write_apart m m' zero [] p k h a = let e : m' ≡ m = cc in rw e
read_write_apart [] m' zero (c ∷ bs) p k h a = absurd (cc)
read_write_apart (b ∷ m) m' zero (c ∷ bs) p k h a =
    let (w, e, f) = bind-some (write_bytes m zero bs) _ h in
    let g : m' ≡ c ∷ w = cc in
    rw g (skip_written b c m w (length bs) p k (λ q a'. read_write_apart m w zero bs q k e a') a)
read_write_apart [] m' (suc o) bs p k h a = absurd (cc)
read_write_apart (b ∷ m) m' (suc o) bs p k h a =
    let (w, e, f) = bind-some (write_bytes m o bs) _ h in
    let g : m' ≡ b ∷ w = cc in
    rw g (
      skip_first b b m w o (length bs) p k (λ q a'. read_write_apart m w o bs q k e a')
        (λ j l. read_write_apart m w o bs 0 j e (inl (omega arith))) a)

pub length_read : (m : List ℕ) (o k : ℕ) (bs : List ℕ) → read_bytes m o k ≡ some bs → length bs ≡ k
length_read m zero zero bs h = let e : bs ≡ [] = cc in rw e
length_read [] zero (suc k) bs h = absurd (cc)
length_read (b ∷ m) zero (suc k) bs h =
    let (cs, e, f) = bind-some (read_bytes m zero k) _ h in
    let g : bs ≡ b ∷ cs = cc in rw g (ap suc (length_read m zero k cs e))
length_read [] (suc o) k bs h = absurd (cc)
length_read (b ∷ m) (suc o) k bs h = length_read m o k bs h

bind_none :
    (o : Option (List ℕ)) → none ≡ (o >>= λ xs. ◌>>=◌ {B = List ℕ} none (λ ys. some (xs ++ ys)))
bind_none none = refl
bind_none (some xs) = refl

pub read_add :
    (m : List ℕ) (o j k : ℕ)
    → read_bytes m o (j + k)
      ≡ (do xs ← read_bytes m o j; ys ← read_bytes m (o + j) k; some (xs ++ ys))
read_add m zero zero k = rw (add.zero k) (same (read_bytes m zero k))
  where
    same : (q : Option (List ℕ)) → q ≡ (do ys ← q; some ys)
    same none = refl
    same (some ys) = refl
read_add [] zero (suc j) k = rw (add.suc j k)
read_add (b ∷ m) zero (suc j) k =
    rw (add.suc j k, read_add m zero j k, add.zero j, add.zero (suc j))
      (regroup (read_bytes m zero j) (read_bytes m j k))
  where
    regroup :
        (p q : Option (List ℕ))
        → (do bs ← (do xs ← p; ys ← q; some (xs ++ ys)); some (b ∷ bs))
          ≡ (do xs ← (do bs ← p; some (b ∷ bs)); ys ← q; some (xs ++ ys))
    regroup none q = refl
    regroup (some xs) none = refl
    regroup (some xs) (some ys) = refl
read_add [] (suc o) j k = refl
read_add (b ∷ m) (suc o) j k = rw (add.suc o j) (read_add m o j k)

abbrev pub byte_memory : LinearMemory
byte_memory = record {
  Memory = List ℕ;
  size = length;
  read = read_bytes;
  write = write_bytes;
  read_fits = read_in_bounds;
  read_out_of_bounds = read_past_end;
  write_fits = fits;
  write_out_of_bounds = out_of_bounds;
  size-write = λ {m} {m'} {o} {bs} e. (read_write m m' o bs e).0;
  read-write = λ {m} {m'} {o} {bs} e. (read_write m m' o bs e).1;
  read-write_apart = λ {m} {m'} {o} {bs} p k e a. read_write_apart m m' o bs p k e a;
  read-add = read_add;
  length-read = λ {m} {o} {k} {bs} e. length_read m o k bs e;
}
