-- ===== src/Wasm/Written.antt =====
-- What a write to linear memory leaves: the bytes where they belong, and all else as it was.
use clarity_wasm.Prelude.{
  ℕ, ◌+◌, ◌≤◌, ◌≡◌, refl, sym, ap, ◌∙◌, ◌⊎◌, inl, inr, List, [], ◌∷◌, ◌++◌, Option, none, some,
  arith, length, length-append,
}
use clarity_wasm.Wasm.Memory.{LinearMemory, ◌>>=◌}

-- Equal concatenations with parts of equal length have equal parts.
append_cancel :
    (xs ys us vs : List ℕ) → length xs ≡ length us → xs ++ ys ≡ us ++ vs → (xs ≡ us) × (ys ≡ vs)
append_cancel [] ys [] vs h e = (refl, e)
append_cancel [] ys (u ∷ us) vs h e = absurd (omega arith)
append_cancel (x ∷ xs) ys [] vs h e = absurd (omega arith)
append_cancel (x ∷ xs) ys (u ∷ us) vs h e =
    let (p, q) = append_cancel xs ys us vs (omega arith) (cc) in (cc, q)

module _ (W : LinearMemory) where
  open W use {
    Memory, size, read, write, size-write, read-write, read-write_apart, read-add, length-read,
  }

  -- `bs` stand at `lo`, and every read elsewhere gives what it gave.
  pub record Written (m m' : Memory) (lo : ℕ) (bs : List ℕ) : Type 0 where
    pub same_size : size m' ≡ size m
    pub here : read m' lo (length bs) ≡ some bs
    pub elsewhere : (p k : ℕ) → (p + k ≤ lo) ⊎ (lo + length bs ≤ p) → read m' p k ≡ read m p k

  pub Written-write :
      {m m' : Memory} {o : ℕ} {bs : List ℕ} → write m o bs ≡ some m' → Written m m' o bs
  Written-write e = record {
    same_size = size-write e;
    here = read-write e;
    elsewhere = λ p k h. read-write_apart p k e h;
  }

  read-append :
      (m : Memory) (lo : ℕ) (xs ys : List ℕ)
      → read m lo (length xs) ≡ some xs
      → read m (lo + length xs) (length ys) ≡ some ys
      → read m lo (length (xs ++ ys)) ≡ some (xs ++ ys)
  read-append m lo xs ys p q = rw (length-append, read-add, p, q)

  -- Two neighbouring writes, the upper one first, are one.
  pub Written-append :
      {m m₁ m₂ : Memory} (lo : ℕ) (xs ys : List ℕ)
      → Written m m₁ (lo + length xs) ys
      → Written m₁ m₂ lo xs
      → Written m m₂ lo (xs ++ ys)
  Written-append {m} {m₁} {m₂} lo xs ys u l = record {
    same_size = l.same_size ∙ u.same_size;
    here =
        read-append m₂ lo xs ys l.here
          (l.elsewhere (lo + length xs) (length ys) (inr (omega arith)) ∙ u.here);
    elsewhere = λ p k h. away p k h ∙ away' p k h;
  }
    where
      away : (p k : ℕ) → (p + k ≤ lo) ⊎ (lo + length (xs ++ ys) ≤ p) → read m₂ p k ≡ read m₁ p k
      away p k h = l.elsewhere p k (omega (arith, length-append xs ys))

      away' : (p k : ℕ) → (p + k ≤ lo) ⊎ (lo + length (xs ++ ys) ≤ p) → read m₁ p k ≡ read m p k
      away' p k h = u.elsewhere p k (omega (arith, length-append xs ys))

  -- The same, the lower one first.
  pub Written-append_up :
      {m m₁ m₂ : Memory} (lo : ℕ) (xs ys : List ℕ)
      → Written m m₁ lo xs
      → Written m₁ m₂ (lo + length xs) ys
      → Written m m₂ lo (xs ++ ys)
  Written-append_up {m} {m₁} {m₂} lo xs ys l u = record {
    same_size = u.same_size ∙ l.same_size;
    here = read-append m₂ lo xs ys (u.elsewhere lo (length xs) (inl (omega arith)) ∙ l.here) u.here;
    elsewhere = λ p k h. above p k h ∙ below p k h;
  }
    where
      above : (p k : ℕ) → (p + k ≤ lo) ⊎ (lo + length (xs ++ ys) ≤ p) → read m₂ p k ≡ read m₁ p k
      above p k h = u.elsewhere p k (omega (arith, length-append xs ys))

      below : (p k : ℕ) → (p + k ≤ lo) ⊎ (lo + length (xs ++ ys) ≤ p) → read m₁ p k ≡ read m p k
      below p k h = l.elsewhere p k (omega (arith, length-append xs ys))

  -- A read of two neighbouring parts reads each.
  pub read-split :
      (m : Memory) (lo : ℕ) (xs ys : List ℕ)
      → read m lo (length (xs ++ ys)) ≡ some (xs ++ ys)
      → (read m lo (length xs) ≡ some xs) × (read m (lo + length xs) (length ys) ≡ some ys)
  read-split m lo xs ys h =
      go (read m lo (length xs)) (read m (lo + length xs) (length ys)) refl refl parts
    where
      parts :
          (do us ← read m lo (length xs); vs ← read m (lo + length xs) (length ys); some (us ++ vs))
          ≡ some (xs ++ ys)
      parts = sym (read-add m lo (length xs) (length ys)) ∙ (rw (← length-append) h)

      go :
          (o q : Option (List ℕ))
          → read m lo (length xs) ≡ o
          → read m (lo + length xs) (length ys) ≡ q
          → (do us ← o; vs ← q; some (us ++ vs)) ≡ some (xs ++ ys)
          → (o ≡ some xs) × (q ≡ some ys)
      go none q e f p = absurd (cc)
      go (some us) none e f p = absurd (cc)
      go (some us) (some vs) e f p =
          let (a, b) = append_cancel us vs xs ys (length-read e) (cc) in (ap some a, ap some b)
