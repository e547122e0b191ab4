-- ===== src/Host/RoundTrip/Containers.antt =====
-- Optionals and responses that clar2wasm/src/wasm_utils.rs writes and reads back.
use clarity_wasm.Prelude.{
  ℕ, ◌+◌, ◌≤◌, ◌<◌, ◌^◌, ◌≡◌, refl, ◌∙◌, ap, Bool, true, false, Option, none, some, ok, arith,
  add32-eq-add, if◌then◌else◌,
}
use clarity_wasm.Clarity.{Value, none_value, some_value, response}
use clarity_wasm.Wasm.Memory.{LinearMemory}
use clarity_wasm.Host.Library.{ClarityLibrary}
use clarity_wasm.Host.Write.{Writer, write_optional, write_response, write_indicator}
use clarity_wasm.Host.Read.{Reader, read_optional, read_response, read_u32, by_indicator}
use clarity_wasm.Host.RoundTrip.Stored.{Stored, Stored-gap, Stored-then}
use clarity_wasm.Host.RoundTrip.Leaves.{write_u32-Stored}
use clarity_wasm.Host.RoundTrip.Packed.{RoundTrips}

module _ (W : LinearMemory) (L : ClarityLibrary) where
  write_indicator-Stored :
      (m : W.Memory) (off io : ℕ) (b : Bool)
      → off + 4 ≤ W.size m
      → W.size m < 2 ^ 31
      → (m' : W.Memory) × (write_indicator W m off b ≡ ok m')
        × Stored W m m' off 4 io 0 (λ m''. read_u32 W L m'' off) (if b then 1 else 0)
  unfolding write_indicator
  write_indicator-Stored m off io true h s = write_u32-Stored W L m off io 1 h s (omega arith)
  write_indicator-Stored m off io false h s = write_u32-Stored W L m off io 0 h s (omega arith)

  module _ (w : Writer W) (r : Reader W L) (z n : ℕ) (v : Value) where
    some-run :
        (m m₁ m₂ : W.Memory) (size : Option ℕ) (off io : ℕ)
        → write_indicator W m off true ≡ ok m₁
        → w m₁ (off + 4) io v true ≡ ok (z, n, m₂)
        → off + 4 < 2 ^ 32
        → 4 + z < 2 ^ 32
        → write_optional W w size m off io (some v) ≡ ok (4 + z, n, m₂)
    unfolding write_optional
    some-run m m₁ m₂ size off io e f h g = rw (e, add32-eq-add off 4 h, f, add32-eq-add 4 z g)

    some-read :
        (m : W.Memory) (off : ℕ)
        → off + 4 < 2 ^ 32
        → L.make_some v ≡ ok (some_value v)
        → read_u32 W L m off ≡ ok 1
        → r m (off + 4) ≡ ok v
        → read_optional W L r m off ≡ ok (some_value v)
    unfolding read_optional by_indicator
    some-read m off h a e f = rw (e, add32-eq-add off 4 h, f, a)

    pub write_optional-some :
        (size : Option ℕ) (m : W.Memory) (off io : ℕ)
        → RoundTrips W L w r z v n
        → L.make_some v ≡ ok (some_value v)
        → off + (4 + z) ≤ io
        → io + n ≤ W.size m
        → W.size m < 2 ^ 31
        → (m' : W.Memory) × (write_optional W w size m off io (some v) ≡ ok (4 + z, n, m'))
          × Stored W m m' off (4 + z) io n (λ m''. read_optional W L r m'' off) (some_value v)
    write_optional-some size m off io trip a room fits small =
        let (m₁, e, s) = write_indicator-Stored m off io true (omega arith) small in
        let same = s.same_size in
        let (m₂, f, t) = trip m₁ (off + 4) io (omega arith) (omega arith) (omega arith) in
        (
          m₂,
          some-run m m₁ m₂ size off io e f (omega arith) (omega arith),
          Stored-then W off 4 z io 0 n _ _ s t refl (omega arith) refl (omega arith) room
              (λ m'' p q. some-read m'' off (omega arith) a p q),
        )

    ok-run :
        (m m₁ m₂ : W.Memory) (other : Writer W) (size : Option ℕ) (y off io : ℕ)
        → write_indicator W m off true ≡ ok m₁
        → w m₁ (off + 4) io v true ≡ ok (z, n, m₂)
        → off + 4 < 2 ^ 32
        → 4 + z + y < 2 ^ 32
        → write_response W w other size (some y) m off io (true, v) ≡ ok (4 + z + y, n, m₂)
    unfolding write_response
    ok-run m m₁ m₂ other size y off io e f h g =
        rw (e, add32-eq-add off 4 h, f, add32-eq-add 4 z (omega arith), add32-eq-add (4 + z) y g)

    ok-read :
        (m : W.Memory) (other : Reader W L) (size : Option ℕ) (off : ℕ)
        → off + 4 < 2 ^ 32
        → L.okay v ≡ ok (response true v)
        → read_u32 W L m off ≡ ok 1
        → r m (off + 4) ≡ ok v
        → read_response W L r other size m off ≡ ok (response true v)
    unfolding read_response by_indicator
    ok-read m other size off h a e f = rw (e, add32-eq-add off 4 h, f, a)

    pub write_response-ok :
        (other : Writer W) (other_reader : Reader W L) (size : Option ℕ) (y : ℕ) (m : W.Memory)
        (off io : ℕ)
        → RoundTrips W L w r z v n
        → L.okay v ≡ ok (response true v)
        → off + (4 + z + y) ≤ io
        → io + n ≤ W.size m
        → W.size m < 2 ^ 31
        → (m' : W.Memory) × (write_response W w other size (some y) m off io (true, v)
            ≡ ok (4 + z + y, n, m'))
          × Stored W m m' off
              (4 + z + y)
              io
              n
              (λ m''. read_response W L r other_reader size m'' off)
              (response true v)
    write_response-ok other other_reader size y m off io trip a room fits small =
        let (m₁, e, s) = write_indicator-Stored m off io true (omega arith) small in
        let same = s.same_size in
        let (m₂, f, t) = trip m₁ (off + 4) io (omega arith) (omega arith) (omega arith) in
        let st =
          Stored-then W off 4 z io 0 n (λ m''. read_response W L r other_reader size m'' off)
            (response true v) s t refl (omega arith) refl (omega arith) (omega arith)
            (λ m'' p q. ok-read m'' other_reader size off (omega arith) a p q) in
        (
          m₂,
          ok-run m m₁ m₂ other size y off io e f (omega arith) (omega arith),
          Stored-then W off (4 + z) y io n 0 (λ m''. read_response W L r other_reader size m'' off)
              (response true v) st (Stored-gap W m₂ (off + (4 + z)) y (io + n)) refl refl refl
              (omega arith) room (λ m'' p q. p),
        )

    err-run :
        (m m₁ m₂ : W.Memory) (other : Writer W) (size : Option ℕ) (y off io : ℕ)
        → write_indicator W m off false ≡ ok m₁
        → w m₁ (off + (4 + y)) io v true ≡ ok (z, n, m₂)
        → off + (4 + y) < 2 ^ 32
        → 4 + y + z < 2 ^ 32
        → write_response W other w (some y) size m off io (false, v) ≡ ok (4 + y + z, n, m₂)
    unfolding write_response
    err-run m m₁ m₂ other size y off io e f h g =
        rw (
          e,
          add32-eq-add 4 y (omega arith),
          add32-eq-add off (4 + y) h,
          f,
          add32-eq-add (4 + y) z g,
        )

    err-read :
        (m : W.Memory) (other : Reader W L) (y off : ℕ)
        → off + 4 + y < 2 ^ 32
        → L.error v ≡ ok (response false v)
        → read_u32 W L m off ≡ ok 0
        → r m (off + 4 + y) ≡ ok v
        → read_response W L other r (some y) m off ≡ ok (response false v)
    unfolding read_response by_indicator
    err-read m other y off h a e f =
        rw (e, add32-eq-add off 4 (omega arith), add32-eq-add (off + 4) y h, f, a)

    pub write_response-err :
        (other : Writer W) (other_reader : Reader W L) (size : Option ℕ) (y : ℕ) (m : W.Memory)
        (off io : ℕ)
        → RoundTrips W L w r z v n
        → L.error v ≡ ok (response false v)
        → off + (4 + y + z) ≤ io
        → io + n ≤ W.size m
        → W.size m < 2 ^ 31
        → (m' : W.Memory) × (write_response W other w (some y) size m off io (false, v)
            ≡ ok (4 + y + z, n, m'))
          × Stored W m m' off
              (4 + y + z)
              io
              n
              (λ m''. read_response W L other_reader r (some y) m'' off)
              (response false v)
    write_response-err other other_reader size y m off io trip a room fits small =
        let (m₁, e, s) = write_indicator-Stored m off io false (omega arith) small in
        let same = s.same_size in
        let (m₂, f, t) = trip m₁ (off + (4 + y)) io (omega arith) (omega arith) (omega arith) in
        let st =
          Stored-then W off 4 y io 0 0 (λ m''. read_u32 W L m'' off) 0 s
            (Stored-gap W m₁ (off + 4) y io) refl (omega arith) refl (omega arith) (omega arith)
            (λ m'' p q. p) in
        let at : off + 4 + y ≡ off + (4 + y) = omega arith in
        (
          m₂,
          err-run m m₁ m₂ other size y off io e f (omega arith) (omega arith),
          Stored-then W off (4 + y) z io 0 n
              (λ m''. read_response W L other_reader r (some y) m'' off) (response false v) st t
              refl (omega arith) refl (omega arith) room
              (λ m'' p q. err-read m'' other_reader y off (omega arith) a p (ap (r m'') at ∙ q)),
        )

  -- `None`, with the space of the inner value.
  pub write_optional-none :
      (w : Writer W) (r : Reader W L) (z : ℕ) (m : W.Memory) (off io : ℕ)
      → off + (4 + z) ≤ io
      → io ≤ W.size m
      → W.size m < 2 ^ 31
      → (m' : W.Memory) × (write_optional W w (some z) m off io none ≡ ok (4 + z, 0, m'))
        × Stored W m m' off (4 + z) io 0 (λ m''. read_optional W L r m'' off) none_value
  unfolding write_optional read_optional by_indicator
  write_optional-none w r z m off io room fits small =
      let (m₁, e, s) = write_indicator-Stored m off io false (omega arith) small in
      (
        m₁,
        rw (e, add32-eq-add 4 z (omega arith)),
        Stored-then W off 4 z io 0 0 _ _ s (Stored-gap W m₁ (off + 4) z io) refl (omega arith) refl
            (omega arith) room (λ m'' p q. rw p),
      )
