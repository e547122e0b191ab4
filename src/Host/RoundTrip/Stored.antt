-- ===== src/Host/RoundTrip/Stored.antt =====
-- What a write of clar2wasm/src/wasm_utils.rs leaves in memory: a stretch at the offset, a stretch at
-- the offset for in-memory parts, and a reader that gets the value from these two alone.
use clarity_wasm.Prelude.{
  ℕ, ◌+◌, ◌≤◌, ◌<◌, ◌^◌, ◌≡◌, refl, ◌∙◌, ◌⊎◌, inl, inr, true, List, some, Result, ok, arith, length,
  ltb,
}
use clarity_wasm.Wasm.Memory.{LinearMemory}
use clarity_wasm.Wasm.Written.{Written, Written-write}
use clarity_wasm.Host.Errors.{Error}
use clarity_wasm.Host.Access.{write_mem, read_mem}

module _ (W : LinearMemory) where
  open W use {Memory, size, read, write, size-write, write_fits, read_fits, length-read}

  -- The same bytes stand in a stretch.
  abbrev pub Agrees : Memory → Memory → ℕ → ℕ → Type 0
  Agrees m m' lo n = (p k : ℕ) → lo ≤ p → p + k ≤ lo + n → read m' p k ≡ read m p k

  pub record Stored {A : Type 0} (m m' : Memory) (off z io n : ℕ) (reader : Memory → Result Error A)
      (a : A) : Type 0 where
    pub same_size : size m' ≡ size m
    pub elsewhere :
        (p k : ℕ)
        → (p + k ≤ off) ⊎ (off + z ≤ p)
        → (p + k ≤ io) ⊎ (io + n ≤ p)
        → read m' p k ≡ read m p k
    pub back : (m'' : Memory) → Agrees m' m'' off z → Agrees m' m'' io n → reader m'' ≡ ok a

  -- Bytes in one stretch.
  pub Stored-Written :
      {A : Type 0} {m m' : Memory} (off io : ℕ) (bs : List ℕ) (reader : Memory → Result Error A)
      (a : A)
      → Written W m m' off bs
      → ((m'' : Memory) → read m'' off (length bs) ≡ some bs → reader m'' ≡ ok a)
      → Stored m m' off (length bs) io 0 reader a
  Stored-Written off io bs reader a w back = record {
    same_size = w.same_size;
    elsewhere = λ p k h g. w.elsewhere p k h;
    back = λ m'' h g. back m'' (h off (length bs) (omega arith) (omega arith) ∙ w.here);
  }

  -- Another reader that relies on the first.
  pub Stored-map :
      {A B : Type 0} {m m' : Memory} {off z io n : ℕ} {r : Memory → Result Error A} {a : A}
      (q : Memory → Result Error B) (b : B)
      → Stored m m' off z io n r a
      → ((m'' : Memory) → r m'' ≡ ok a → q m'' ≡ ok b)
      → Stored m m' off z io n q b
  Stored-map q b s next = record {
    same_size = s.same_size;
    elsewhere = s.elsewhere;
    back = λ m'' h g. next m'' (s.back m'' h g);
  }

  -- Nothing is written, and nothing is read.
  pub Stored-gap : (m : Memory) (off z io : ℕ) → Stored m m off z io 0 (λ m''. ok tt) tt
  Stored-gap m off z io = record {
    same_size = refl;
    elsewhere = λ p k h g. refl;
    back = λ m'' h g. refl;
  }

  -- Two writes, each of whose stretches follows the other's.
  pub Stored-then :
      {A B C : Type 0} {m m₁ m₂ : Memory} {r₁ : Memory → Result Error A} {a : A}
      {r₂ : Memory → Result Error B} {b : B} {off₂ io₂ z n : ℕ} (off z₁ z₂ io n₁ n₂ : ℕ)
      (r : Memory → Result Error C) (c : C)
      → Stored m m₁ off z₁ io n₁ r₁ a
      → Stored m₁ m₂ off₂ z₂ io₂ n₂ r₂ b
      → off₂ ≡ off + z₁
      → io₂ ≡ io + n₁
      → z ≡ z₁ + z₂
      → n ≡ n₁ + n₂
      → off + z ≤ io
      → ((m'' : Memory) → r₁ m'' ≡ ok a → r₂ m'' ≡ ok b → r m'' ≡ ok c)
      → Stored m m₂ off z io n r c
  Stored-then {m} {m₁} {m₂} {off₂} {io₂} off z₁ z₂ io n₁ n₂ r c s t eo ei ez en room join = record {
    same_size = t.same_size ∙ s.same_size;
    elsewhere = λ p k h g.
        t.elsewhere p k (omega arith) (omega arith) ∙ s.elsewhere p k (omega arith) (omega arith);
    back = λ m'' h g.
        join m''
          (s.back m''
            (λ p k x y.
              h p k x (omega arith) ∙ t.elsewhere p k (inl (omega arith)) (inl (omega arith)))
            (λ p k x y.
              g p k x (omega arith) ∙ t.elsewhere p k (inr (omega arith)) (inl (omega arith))))
          (t.back m'' (λ p k x y. h p k (omega arith) (omega arith))
            (λ p k x y. g p k (omega arith) (omega arith)));
  }

  -- First in-memory parts of two kinds, then bytes at the offset that say where they are.
  pub Stored-repr :
      {A B : Type 0} {m m₁ m₂ : Memory} {r₁ : Memory → Result Error A} {a : A} {z io₂ n : ℕ}
      (off io n₁ n₂ : ℕ) (bs : List ℕ) (r : Memory → Result Error B) (b : B)
      → Stored m m₁ io n₁ io₂ n₂ r₁ a
      → Written W m₁ m₂ off bs
      → io₂ ≡ io + n₁
      → z ≡ length bs
      → n ≡ n₁ + n₂
      → off + z ≤ io
      → ((m'' : Memory) → read m'' off (length bs) ≡ some bs → r₁ m'' ≡ ok a → r m'' ≡ ok b)
      → Stored m m₂ off z io n r b
  Stored-repr {m₁} {m₂} off io n₁ n₂ bs r b s w ei ez en room join = record {
    same_size = w.same_size ∙ s.same_size;
    elsewhere =
        λ p k h g. w.elsewhere p k (omega arith) ∙ s.elsewhere p k (omega arith) (omega arith);
    back = λ m'' h g. join m'' (h off (length bs) (omega arith) (omega arith) ∙ w.here) (
        s.back m'' (λ p k x y. g p k x (omega arith) ∙ w.elsewhere p k (inr (omega arith)))
          (λ p k x y. g p k (omega arith) (omega arith) ∙ w.elsewhere p k (inr (omega arith))));
  }

  -- A write in bounds of a memory below 2 GiB, and a read.
  pub write_mem-Written :
      (m : Memory) (o : ℕ) (bs : List ℕ)
      → o + length bs ≤ size m
      → o < 2 ^ 31
      → (m' : Memory) × (write_mem W m o bs ≡ ok m') × Written W m m' o bs
  unfolding write_mem
  write_mem-Written m o bs h b =
      let (m', e) = write_fits m o bs h in
      let small : ltb o (2 ^ 31) ≡ true = ground arith in (m', rw (small, e), Written-write W e)

  pub read_mem-ok :
      (e : Error) (m : Memory) (o k : ℕ) {bs : List ℕ}
      → o < 2 ^ 31
      → k < 2 ^ 31
      → read m o k ≡ some bs
      → read_mem W e m o k ≡ ok bs
  unfolding read_mem
  read_mem-ok e m o k h g r =
      let small : ltb o (2 ^ 31) ≡ true = ground arith in
      let short : ltb k (2 ^ 31) ≡ true = ground arith in rw (small, short, r)
