-- ===== src/Host/RoundTrip/Leaves.antt =====
-- Words, indicators and pieces of principals that clar2wasm/src/wasm_utils.rs writes and reads back.
use clarity_wasm.Prelude.{
  ℕ, ◌+◌, ◌/◌, ◌%◌, ◌≤◌, ◌<◌, ◌^◌, ◌≡◌, ◌∙◌, ap, subst, true, List, ◌++◌, some, ok, arith, length,
  length-append, add32, add32-eq-add, to_le_bytes, length-to_le_bytes,
  from_le_bytes-to_le_bytes_i32, from_le_bytes-to_le_bytes_i64,
}
use clarity_wasm.Wasm.Memory.{LinearMemory}
use clarity_wasm.Wasm.Written.{Written, Written-append_up, read-split}
use clarity_wasm.Host.Errors.{Error, runtime}
use clarity_wasm.Host.Library.{ClarityLibrary}
use clarity_wasm.Host.Access.{write_mem, read_mem, read_indirect_offset_and_length}
use clarity_wasm.Host.Write.{write_words, write_repr}
use clarity_wasm.Host.Read.{read_words, read_u32}
use clarity_wasm.Host.RoundTrip.Stored.{Stored, Stored-Written, write_mem-Written, read_mem-ok}

module _ (W : LinearMemory) where
  -- Two writes, one behind the other.
  pub two_writes :
      (m : W.Memory) (o k : ℕ) (xs ys : List ℕ)
      → length xs ≡ k
      → o + k + length ys ≤ W.size m
      → W.size m < 2 ^ 31
      → (m₁ : W.Memory) × (m₂ : W.Memory) × (write_mem W m o xs ≡ ok m₁)
        × (write_mem W m₁ (add32 o k) ys ≡ ok m₂)
        × Written W m m₂ o (xs ++ ys)
  two_writes m o k xs ys l h b =
      let (m₁, e, w) = write_mem-Written W m o xs (omega arith) (omega arith) in
      let s = w.same_size in
      let a : add32 o k ≡ o + length xs = add32-eq-add o k (omega arith) ∙ omega arith in
      let (m₂, f, v) = write_mem-Written W m₁ (o + length xs) ys (omega arith) (omega arith) in
      (m₁, m₂, e, ap (λ q. write_mem W m₁ q ys) a ∙ f, Written-append_up W o xs ys w v)

  -- The representation of an in-memory value.
  pub write_repr-Written :
      (m : W.Memory) (off io len : ℕ)
      → off + 8 ≤ W.size m
      → W.size m < 2 ^ 31
      → (m' : W.Memory) × (write_repr W m off io len true ≡ ok (8, m'))
        × Written W m m' off (to_le_bytes 4 io ++ to_le_bytes 4 len)
  unfolding write_repr
  write_repr-Written m off io len h b =
      let lx = length-to_le_bytes 4 io in
      let ly = length-to_le_bytes 4 len in
      let (m₁, m₂, e, f, w) =
        two_writes m off 4 (to_le_bytes 4 io) (to_le_bytes 4 len) lx (omega arith) b in
      (m₂, rw (e, f), w)

  -- What is read of two neighbouring parts.
  pub read_two :
      (e : Error) (m : W.Memory) (o k j : ℕ) (xs ys : List ℕ)
      → W.read m o (length (xs ++ ys)) ≡ some (xs ++ ys)
      → length xs ≡ k
      → length ys ≡ j
      → o + k + j < 2 ^ 31
      → (read_mem W e m o k ≡ ok xs) × (read_mem W e m (add32 o k) j ≡ ok ys)
  read_two e m o k j xs ys r l n b =
      let (p, q) = read-split W m o xs ys r in
      let a : add32 o k ≡ o + length xs = add32-eq-add o k (omega arith) ∙ omega arith in
      let p' : W.read m o k ≡ some xs = rw l at p in
      let q' : W.read m (o + length xs) j ≡ some ys = rw n at q in
      (
        read_mem-ok W e m o k (omega arith) (omega arith) p',
        ap (λ o'. read_mem W e m o' j) a
            ∙ read_mem-ok W e m (o + length xs) j (omega arith) (omega arith) q',
      )

  pub read_repr :
      (m : W.Memory) (off io len : ℕ)
      → W.read m off (length (to_le_bytes 4 io ++ to_le_bytes 4 len))
        ≡ some (to_le_bytes 4 io ++ to_le_bytes 4 len)
      → off + 8 < 2 ^ 31
      → io < 2 ^ 32
      → len < 2 ^ 32
      → read_indirect_offset_and_length W m off ≡ ok (io, len)
  unfolding read_indirect_offset_and_length
  read_repr m off io len r b hi hl =
      let (p, q) =
        read_two runtime m off 4 4 (to_le_bytes 4 io) (to_le_bytes 4 len) r
          (length-to_le_bytes 4 io) (length-to_le_bytes 4 len) (omega arith) in
      rw (p, q, from_le_bytes-to_le_bytes_i32 io hi, from_le_bytes-to_le_bytes_i32 len hl)

  module _ (L : ClarityLibrary) where
    -- The two words of an integer.
    pub write_words-Stored :
        (m : W.Memory) (off io n : ℕ)
        → off + 16 ≤ W.size m
        → W.size m < 2 ^ 31
        → n < 2 ^ 128
        → (m' : W.Memory) × (write_words W m off n ≡ ok (16, 0, m'))
          × Stored W m m' off 16 io 0 (λ m''. read_words W L m'' off) n
    unfolding write_words read_words
    write_words-Stored m off io n h b hn =
        let lo = to_le_bytes 8 (n % 2 ^ 64) in
        let hi = to_le_bytes 8 (n / 2 ^ 64 % 2 ^ 64) in
        let lx : length lo ≡ 8 = length-to_le_bytes 8 (n % 2 ^ 64) in
        let ly : length hi ≡ 8 = length-to_le_bytes 8 (n / 2 ^ 64 % 2 ^ 64) in
        let (m₁, m₂, e, f, w) = two_writes m off 8 lo hi lx (omega arith) b in
        let l16 : length (lo ++ hi) ≡ 16 = length-append lo hi ∙ omega arith in
        let s =
          Stored-Written W off io (lo ++ hi) (λ m''. read_words W L m'' off) n w
            (λ m'' r.
              let (p, q) = read_two runtime m'' off 8 8 lo hi r lx ly (omega arith) in
              rw
                (
                  p,
                  q,
                  from_le_bytes-to_le_bytes_i64 (n % 2 ^ 64) (omega arith),
                  from_le_bytes-to_le_bytes_i64 (n / 2 ^ 64 % 2 ^ 64) (omega arith),
                )
                (ap ok (omega arith))) in
        (
          m₂,
          rw (e, f),
          subst (λ z. Stored W m m₂ off z io 0 (λ m''. read_words W L m'' off) n) l16 s,
        )

    -- The indicator of an optional or a response, and a Boolean.
    pub write_u32-Stored :
        (m : W.Memory) (off io n : ℕ)
        → off + 4 ≤ W.size m
        → W.size m < 2 ^ 31
        → n < 2 ^ 32
        → (m' : W.Memory) × (write_mem W m off (to_le_bytes 4 n) ≡ ok m')
          × Stored W m m' off 4 io 0 (λ m''. read_u32 W L m'' off) n
    unfolding read_u32
    write_u32-Stored m off io n h b hn =
        let l = length-to_le_bytes 4 n in
        let (m₁, e, w) = write_mem-Written W m off (to_le_bytes 4 n) (omega arith) (omega arith) in
        let s =
          Stored-Written W off io (to_le_bytes 4 n) (λ m''. read_u32 W L m'' off) n w
            (λ m'' r.
              let r' : W.read m'' off 4 ≡ some (to_le_bytes 4 n) = rw l at r in
              rw (
                read_mem-ok W runtime m'' off 4 (omega arith) (omega arith) r',
                from_le_bytes-to_le_bytes_i32 n hn,
              )) in
        (m₁, e, subst (λ z. Stored W m m₁ off z io 0 (λ m''. read_u32 W L m'' off) n) l s)
