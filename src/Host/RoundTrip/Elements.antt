-- ===== src/Host/RoundTrip/Elements.antt =====
-- Lists that clar2wasm/src/wasm_utils.rs writes and reads back: the representations of the elements,
-- and behind them their in-memory parts.
use clarity_wasm.Prelude.{
  ℕ, zero, suc, ◌+◌, ◌*◌, ◌%◌, ◌≤◌, ◌<◌, ◌^◌, ◌≡◌, refl, ◌∙◌, ap, ap₂, true, false, some, ok, arith,
  add32, mul32, add32-eq-add,
}
use clarity_wasm.Clarity.{TypeSignature, Value, Values, nil, cons, list}
use clarity_wasm.Layout.{get_type_size, is_in_memory_type}
use clarity_wasm.Wasm.Memory.{LinearMemory}
use clarity_wasm.Host.Library.{ClarityLibrary}
use clarity_wasm.Host.Access.{lt_i32, value_as_list}
use clarity_wasm.Host.Write.{Writer, write_elements, write_list, write_repr, count_values}
use clarity_wasm.Host.Read.{Reader, read_elements, read_list, read_indirect}
use clarity_wasm.Host.RoundTrip.Stored.{Stored, Stored-gap, Stored-then, Stored-map}
use clarity_wasm.Host.RoundTrip.Packed.{RoundTrips, write_repr-Stored}

-- The bytes of the representations.
unfoldable pub elements_width : ℕ → Values → ℕ
elements_width z nil = 0
elements_width z (cons v vs) = z + elements_width z vs

elements_width-eq-mul : (z : ℕ) (vs : Values) → elements_width z vs ≡ count_values vs * z
unfolding elements_width count_values
elements_width-eq-mul z nil = grind arith
elements_width-eq-mul z (cons v vs) = grind (arith, elements_width-eq-mul z vs)

count_values-le-elements_width :
    (z : ℕ) (vs : Values) → 1 ≤ z → count_values vs ≤ elements_width z vs
unfolding elements_width count_values
count_values-le-elements_width z nil h = omega arith
count_values-le-elements_width z (cons v vs) h =
    omega (arith, count_values-le-elements_width z vs h)

lt_i32-true : (a b : ℕ) → a < b → b < 2 ^ 31 → lt_i32 a b ≡ true
lt_i32-true a b h k = ground arith

lt_i32-false : (a b : ℕ) → b ≡ a → a < 2 ^ 31 → lt_i32 a b ≡ false
lt_i32-false a b h k = ground arith

-- Values of a list, each with its in-memory bytes, and their sum.
pub data Each (P : Value → ℕ → Type 0) : Values → ℕ → Type 0 where
  of_nil : Each P nil 0
  of_cons : {v : Value} {vs : Values} {n k : ℕ} → P v n → Each P vs k → Each P (cons v vs) (n + k)

module _ (W : LinearMemory) (L : ClarityLibrary) (w : Writer W) (r : Reader W L) (z : ℕ) where
  cons-run :
      (m m₁ m₂ : W.Memory) (o io a b vw vi n : ℕ) (v : Value) (vs : Values) {out : ℕ × ℕ × W.Memory}
      → add32 o vw ≡ a
      → add32 io vi ≡ b
      → w m a b v true ≡ ok (z, n, m₁)
      → write_elements W w m₁ o io (vw + z) (vi + n) vs ≡ ok out
      → vw + z < 2 ^ 32
      → vi + n < 2 ^ 32
      → write_elements W w m o io vw vi (cons v vs) ≡ ok out
  unfolding write_elements
  cons-run m m₁ m₂ o io a b vw vi n v vs ea eb e f h g =
      rw (ea, eb, e, add32-eq-add vw z h, add32-eq-add vi n g, f)

  cons-read :
      (m : W.Memory) (fuel a end : ℕ) (v : Value) (vs : Values)
      → a < end
      → end < 2 ^ 31
      → a + z < 2 ^ 32
      → r m a ≡ ok v
      → read_elements W L fuel r m (a + z) end z ≡ ok vs
      → read_elements W L (suc fuel) r m a end z ≡ ok (cons v vs)
  unfolding read_elements
  cons-read m fuel a end v vs h k l e f = rw (lt_i32-true a end h k, e, add32-eq-add a z l, f)

  nil-read :
      (m : W.Memory) (fuel a end : ℕ)
      → end ≡ a
      → a < 2 ^ 31
      → read_elements W L (suc fuel) r m a end z ≡ ok nil
  unfolding read_elements
  nil-read m fuel a end h k = rw (lt_i32-false a end h k)

  pub write_elements-Stored :
      (fuel : ℕ) {vs : Values} {k : ℕ} (m : W.Memory) (o io a b end vw vi : ℕ)
      → Each (RoundTrips W L w r z) vs k
      → count_values vs < fuel
      → 1 ≤ z
      → a ≡ o + vw
      → b ≡ io + vi
      → end ≡ a + elements_width z vs
      → end ≤ b
      → b + k ≤ W.size m
      → W.size m < 2 ^ 31
      → (m' : W.Memory) × (write_elements W w m o io vw vi vs
          ≡ ok (vw + elements_width z vs, vi + k, m'))
        × Stored W m m' a (elements_width z vs) b k (λ m''. read_elements W L fuel r m'' a end z) vs
  unfolding write_elements elements_width count_values
  write_elements-Stored zero m o io a b end vw vi each c hz ea eb ee room fits small =
      absurd (omega arith)
  write_elements-Stored (suc fuel) m o io a b end vw vi of_nil c hz ea eb ee room fits small = (
    m,
    ap ok (ap₂ (λ x y. (x, y, m)) (omega arith) (omega arith)),
    Stored-map W _ nil (Stored-gap W m a 0 b)
        (λ m'' p. nil-read m'' fuel a end (omega arith) (omega arith)),
  )
  write_elements-Stored (suc fuel) m o io a b end vw vi (of_cons {v} {vs} {n} {k} trip each) c hz ea
        eb ee room fits small =
      let (m₁, e, s) = trip m a b (omega arith) (omega arith) small in
      let same = s.same_size in
      let (m₂, f, t) =
        write_elements-Stored fuel m₁ o io (a + z) (b + n) end (vw + z) (vi + n) each (omega arith)
          hz (omega arith) (omega arith) (omega arith) (omega arith) (omega arith) (omega arith) in
      (
        m₂,
        cons-run m m₁ m₂ o io a b vw vi n v vs (add32-eq-add o vw (omega arith) ∙ omega arith)
              (add32-eq-add io vi (omega arith) ∙ omega arith) e f (omega arith) (omega arith)
            ∙ ap ok (ap₂ (λ x y. (x, y, m₂)) (omega arith) (omega arith)),
        Stored-then W a z (elements_width z vs) b n k _ _ s t refl refl refl refl (omega arith)
            (λ m'' p q.
              cons-read m'' fuel a end v vs (omega arith) (omega arith) (omega arith) p q),
      )

  list-run :
      (m m₁ m₂ : W.Memory) (off io k n : ℕ) (vs : Values)
      → write_elements W w m io (io + elements_width z vs) 0 0 vs ≡ ok (elements_width z vs, k, m₁)
      → write_repr W m₁ off io (elements_width z vs) true ≡ ok (8, m₂)
      → io + elements_width z vs + k < 2 ^ 31
      → write_list W w (some z) m off io (list vs) true ≡ ok (8, elements_width z vs + k, m₂)
  unfolding write_list value_as_list mul32
  list-run m m₁ m₂ off io k n vs e f h =
      let width = elements_width-eq-mul z vs in
      let size : count_values vs * z % 2 ^ 32 ≡ elements_width z vs = omega arith in
      rw (
        size,
        add32-eq-add io (elements_width z vs) (omega arith),
        e,
        f,
        add32-eq-add (elements_width z vs) k (omega arith),
      )

  list-read :
      (m : W.Memory) (io : ℕ) (vs : Values)
      → io + elements_width z vs < 2 ^ 31
      → L.cons_list_unsanitized vs ≡ ok (list vs)
      → read_elements W L (elements_width z vs + 1) r m io (io + elements_width z vs) z ≡ ok vs
      → read_list W L r (some z) m io (elements_width z vs) ≡ ok (list vs)
  unfolding read_list
  list-read m io vs h a e = rw (add32-eq-add io (elements_width z vs) (omega arith), e, a)

  pub write_list-Stored :
      (ty : TypeSignature) {k j : ℕ} (vs : Values)
      → get_type_size ty ≡ some j
      → is_in_memory_type ty ≡ some true
      → Each (RoundTrips W L w r z) vs k
      → 1 ≤ z
      → L.cons_list_unsanitized vs ≡ ok (list vs)
      → (m : W.Memory) (off io : ℕ) → off + 8 ≤ io
      → io + (elements_width z vs + k) ≤ W.size m
      → W.size m < 2 ^ 31
      → (m' : W.Memory) × (write_list W w (some z) m off io (list vs) true
          ≡ ok (8, elements_width z vs + k, m'))
        × Stored W m m' off 8 io
            (elements_width z vs + k)
            (λ m''. read_indirect W L ty (λ q o len. read_list W L r (some z) q o len) m'' off)
            (list vs)
  write_list-Stored ty {k} vs size mem each hz a m off io room fits small =
      let count = count_values-le-elements_width z vs hz in
      let (m₁, e, s) =
        write_elements-Stored (elements_width z vs + 1) m io (io + elements_width z vs) io
          (io + elements_width z vs) (io + elements_width z vs) 0 0 each (omega arith) hz
          (omega arith) (omega arith) refl (omega arith) (omega arith) small in
      let s' =
        Stored-map W (λ m''. read_list W L r (some z) m'' io (elements_width z vs)) (list vs) s
          (λ m'' p. list-read m'' io vs (omega arith) a p) in
      let (m₂, f, t) =
        write_repr-Stored W L ty (λ q o len. read_list W L r (some z) q o len) off io
          (elements_width z vs) k (list vs) size mem s' refl room fits small in
      let e' : write_elements W w m io (io + elements_width z vs) 0 0 vs
          ≡ ok (elements_width z vs, k, m₁) =
        e ∙ ap ok (ap₂ (λ x y. (x, y, m₁)) (omega arith) (omega arith)) in
      (m₂, list-run m m₁ m₂ off io k k vs e' f (omega arith), t)
