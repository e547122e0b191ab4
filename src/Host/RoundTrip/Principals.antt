-- ===== src/Host/RoundTrip/Principals.antt =====
-- Principals that clar2wasm/src/wasm_utils.rs writes and reads back: a version, a hash, and the length
-- of a contract's name with the name.
use mathlib.Core.List.{append_assoc}
use clarity_wasm.Prelude.{
  ℕ, ◌+◌, ◌*◌, ◌%◌, ◌≤◌, ◌<◌, ◌^◌, ◌≡◌, ◌∙◌, ap, subst, true, false, List, [], ◌∷◌, ◌++◌, some, ok,
  arith, length, length-append, add32, add32-eq-add, from_le_bytes, ltb,
}
use clarity_wasm.Clarity.{StandardPrincipalData, PrincipalData, principal_type, principal}
use clarity_wasm.Layout.{get_type_size, is_in_memory_type}
use clarity_wasm.Wasm.Memory.{LinearMemory}
use clarity_wasm.Wasm.Written.{Written, Written-append_up, read-split}
use clarity_wasm.Host.Library.{ClarityLibrary}
use clarity_wasm.Host.Access.{write_mem, read_usize, value_as_principal}
use clarity_wasm.Host.Write.{write_principal, write_contract_name, write_repr, principal_parts}
use clarity_wasm.Host.Read.{read_indirect, read_principal, read_contract}
use clarity_wasm.Host.RoundTrip.Stored.{Stored, Stored-Written, write_mem-Written}
use clarity_wasm.Host.RoundTrip.Packed.{write_repr-Stored}

module _ (W : LinearMemory) where
  write_first :
      (m : W.Memory) (o lo : ℕ) (bs : List ℕ)
      → o ≡ lo
      → lo + length bs ≤ W.size m
      → lo < 2 ^ 31
      → (m' : W.Memory) × (write_mem W m o bs ≡ ok m') × Written W m m' lo bs
  write_first m o lo bs e h b =
      let (m', f, w) = write_mem-Written W m lo bs h b in
      (m', ap (λ q. write_mem W m q bs) e ∙ f, w)

  -- A write right behind what is written already.
  write_next :
      {m : W.Memory} (m₁ : W.Memory) (o lo : ℕ) (xs ys : List ℕ)
      → Written W m m₁ lo xs
      → o ≡ lo + length xs
      → lo + length xs + length ys ≤ W.size m
      → lo + length xs < 2 ^ 31
      → (m' : W.Memory) × (write_mem W m₁ o ys ≡ ok m') × Written W m m' lo (xs ++ ys)
  write_next m₁ o lo xs ys w e h b =
      let s = w.same_size in
      let (m', f, v) = write_first m₁ o (lo + length xs) ys e (omega arith) b in
      (m', f, Written-append_up W lo xs ys w v)

  -- The version and the hash.
  abbrev issuer_bytes : StandardPrincipalData → List ℕ
  issuer_bytes s = (s.version ∷ []) ++ s.hash

  module _ (L : ClarityLibrary) where
    -- What stands for a standard principal that the library makes of its parts.
    pub record IsIssuer (s : StandardPrincipalData) : Type 0 where
      pub hash_length : length s.hash ≡ 20
      pub accepted : L.standard_principal s.version s.hash ≡ ok s

    read_issuer :
        (m : W.Memory) (io : ℕ) (s : StandardPrincipalData) (len : ℕ) (rest : List ℕ)
        → IsIssuer s
        → io < 2 ^ 31
        → W.read m io (length (issuer_bytes s ++ len ∷ rest)) ≡ some (issuer_bytes s ++ len ∷ rest)
        → read_principal W L principal_type m io
          ≡ read_contract W L principal_type m (io + 22) s len
    unfolding read_principal read_usize from_le_bytes
    read_issuer m io s len rest i b r =
        let h = i.hash_length in
        let (p, q) = read-split W m io (issuer_bytes s) (len ∷ rest) r in
        let (v, hs) = read-split W m io (s.version ∷ []) s.hash p in
        let (l, _) = read-split W m (io + length (issuer_bytes s)) (len ∷ []) rest q in
        let hs' : W.read m (io + 1) 20 ≡ some s.hash = rw h at hs in
        let at : io + length (issuer_bytes s) ≡ io + 21 =
          omega (arith, length-append (s.version ∷ []) s.hash) in
        let l' : W.read m (io + 21) 1 ≡ some (len ∷ []) = rw at at l in
        let small : ltb io (2 ^ 31) ≡ true = ground arith in
        let version : s.version + 256 * 0 ≡ s.version = omega arith in
        let count : len + 256 * 0 ≡ len = omega arith in
        rw (small, v, hs', version, i.accepted, l', count)

    write_contract_name-run :
        (m₁ m₂ m₃ : W.Memory) (io c : ℕ) (cs : List ℕ)
        → write_mem W m₁ (add32 io 21) (length (c ∷ cs) ∷ []) ≡ ok m₂
        → write_mem W m₂ (add32 io 22) (c ∷ cs) ≡ ok m₃
        → length (c ∷ cs) < 256
        → write_contract_name W m₁ io 21 (c ∷ cs) ≡ ok (22 + length (c ∷ cs), m₃)
    unfolding write_contract_name
    write_contract_name-run m₁ m₂ m₃ io c cs e f n =
        let len : length (c ∷ cs) % 256 ≡ length (c ∷ cs) = omega arith in
        rw (
          len,
          e,
          add32-eq-add 21 1 (omega arith),
          f,
          add32-eq-add 22 (length (c ∷ cs)) (omega arith),
        )

    write_contract_name-Written :
        {m : W.Memory} (m₁ : W.Memory) (io : ℕ) (xs name : List ℕ)
        → Written W m m₁ io xs
        → length xs ≡ 21
        → io + 22 + length name ≤ W.size m
        → W.size m < 2 ^ 31
        → length name < 256
        → (m' : W.Memory) × (write_contract_name W m₁ io 21 name ≡ ok (22 + length name, m'))
          × Written W m m' io (xs ++ length name ∷ name)
    unfolding write_contract_name
    write_contract_name-Written m₁ io xs [] w l h b n =
        let (m', e, v) =
          write_next m₁ (add32 io 21) io xs (0 ∷ []) w
            (add32-eq-add io 21 (omega arith) ∙ omega arith) (omega arith) (omega arith) in
        (m', rw (e, add32-eq-add 21 1 (omega arith)), v)
    write_contract_name-Written {m} m₁ io xs (c ∷ cs) w l h b n =
        let (m₂, e, v) =
          write_next m₁ (add32 io 21) io xs (length (c ∷ cs) ∷ []) w
            (add32-eq-add io 21 (omega arith) ∙ omega arith) (omega arith) (omega arith) in
        let l' : length (xs ++ length (c ∷ cs) ∷ []) ≡ 22 =
          length-append xs (length (c ∷ cs) ∷ []) ∙ omega arith in
        let (m₃, f, u) =
          write_next m₂ (add32 io 22) io (xs ++ length (c ∷ cs) ∷ []) (c ∷ cs) v
            (add32-eq-add io 22 (omega arith) ∙ omega arith) (omega arith) (omega arith) in
        (
          m₃,
          write_contract_name-run m₁ m₂ m₃ io c cs e f n,
          subst (λ bs. Written W m m₃ io bs) (append_assoc xs (length (c ∷ cs) ∷ []) (c ∷ cs)) u,
        )

    write_principal-run :
        (m m₁ m₂ m₃ m₄ : W.Memory) (off io n : ℕ) (p : PrincipalData) (s : StandardPrincipalData)
        (name : List ℕ)
        → principal_parts p ≡ (s, name)
        → length s.hash ≡ 20
        → write_mem W m (add32 io 0) (s.version ∷ []) ≡ ok m₁
        → write_mem W m₁ (add32 io 1) s.hash ≡ ok m₂
        → write_contract_name W m₂ io 21 name ≡ ok (n, m₃)
        → write_repr W m₃ off io n true ≡ ok (8, m₄)
        → write_principal W m off io (principal p) true ≡ ok (8, n, m₄)
    unfolding write_principal value_as_principal
    write_principal-run m m₁ m₂ m₃ m₄ off io n p s name parts h e₁ e₂ e₃ e₄ =
        rw (parts, e₁, e₂, h, add32-eq-add 1 20 (omega arith), e₃, e₄)

    -- The three writes of the bytes of a principal, which are read back from their offset.
    PrincipalBytes : PrincipalData → StandardPrincipalData → List ℕ → W.Memory → ℕ → Type 0
    PrincipalBytes p s name m io =
        (m₁ : W.Memory) × (m₂ : W.Memory) × (m₃ : W.Memory) × (write_mem W m (add32 io 0)
            (s.version ∷ [])
          ≡ ok m₁)
        × (write_mem W m₁ (add32 io 1) s.hash ≡ ok m₂)
        × (write_contract_name W m₂ io 21 name ≡ ok (22 + length name, m₃))
        × Stored W m m₃ io (22 + length name) (io + (22 + length name)) 0
            (λ m''. read_principal W L principal_type m'' io) (principal p)

    write_bytes-PrincipalBytes :
        (p : PrincipalData) (s : StandardPrincipalData) (name : List ℕ)
        → IsIssuer s
        → length name < 256
        → ((m : W.Memory) (o : ℕ)
            → W.read m o (length name) ≡ some name
            → read_contract W L principal_type m o s (length name) ≡ ok (principal p))
        → (m : W.Memory) (io : ℕ) → io + (22 + length name) ≤ W.size m
        → W.size m < 2 ^ 31
        → PrincipalBytes p s name m io
    unfolding PrincipalBytes
    write_bytes-PrincipalBytes p s name i n reads m io fits small =
        let h = i.hash_length in
        let (m₁, e₁, w₁) =
          write_first m (add32 io 0) io (s.version ∷ [])
            (add32-eq-add io 0 (omega arith) ∙ omega arith) (omega arith) (omega arith) in
        let (m₂, e₂, w₂) =
          write_next m₁ (add32 io 1) io (s.version ∷ []) s.hash w₁ (add32-eq-add io 1 (omega arith))
            (omega arith) (omega arith) in
        let l21 : length (issuer_bytes s) ≡ 21 =
          length-append (s.version ∷ []) s.hash ∙ omega arith in
        let (m₃, e₃, w₃) =
          write_contract_name-Written m₂ io (issuer_bytes s) name w₂ l21 (omega arith) small n in
        let all = issuer_bytes s ++ length name ∷ name in
        let l : length all ≡ 22 + length name =
          length-append (issuer_bytes s) (length name ∷ name) ∙ omega arith in
        let t =
          Stored-Written W io (io + length all) all
            (λ m''. read_principal W L principal_type m'' io) (principal p) w₃
            (λ m'' r.
              let (_, q) = read-split W m'' io (issuer_bytes s) (length name ∷ name) r in
              let (_, u) =
                read-split W m'' (io + length (issuer_bytes s)) (length name ∷ []) name q in
              let at : io + length (issuer_bytes s) + 1 ≡ io + 22 = omega arith in
              read_issuer m'' io s (length name) name i (omega arith) r
              ∙ reads m'' (io + 22) (subst (λ o. W.read m'' o (length name) ≡ some name) at u)) in
        (
          m₁,
          m₂,
          m₃,
          e₁,
          e₂,
          e₃,
          subst
              (λ z.
                Stored W m m₃ io z (io + z) 0 (λ m''. read_principal W L principal_type m'' io)
                  (principal p))
              l t,
        )

    -- Without a representation the bytes alone are written.
    pub write_principal-bytes :
        (p : PrincipalData) (s : StandardPrincipalData) (name : List ℕ)
        → principal_parts p ≡ (s, name)
        → IsIssuer s
        → length name < 256
        → ((m : W.Memory) (o : ℕ)
            → W.read m o (length name) ≡ some name
            → read_contract W L principal_type m o s (length name) ≡ ok (principal p))
        → (m : W.Memory) (off io : ℕ) → io + (22 + length name) ≤ W.size m
        → W.size m < 2 ^ 31
        → (m' : W.Memory) × (write_principal W m off io (principal p) false
            ≡ ok (0, 22 + length name, m'))
          × Stored W m m' io
              (22 + length name)
              (io + (22 + length name))
              0
              (λ m''. read_principal W L principal_type m'' io)
              (principal p)
    unfolding PrincipalBytes write_principal value_as_principal write_repr
    write_principal-bytes p s name parts i n reads m off io fits small =
        let (m₁, m₂, m₃, e₁, e₂, e₃, t) =
          write_bytes-PrincipalBytes p s name i n reads m io fits small in
        (m₃, rw (parts, e₁, e₂, i.hash_length, add32-eq-add 1 20 (omega arith), e₃), t)

    -- A principal with its issuer and its name, which is empty for a standard principal.
    pub write_principal-Stored :
        (p : PrincipalData) (s : StandardPrincipalData) (name : List ℕ) {k : ℕ}
        → principal_parts p ≡ (s, name)
        → IsIssuer s
        → length name < 256
        → get_type_size principal_type ≡ some k
        → is_in_memory_type principal_type ≡ some true
        → ((m : W.Memory) (o : ℕ)
            → W.read m o (length name) ≡ some name
            → read_contract W L principal_type m o s (length name) ≡ ok (principal p))
        → (m : W.Memory) (off io : ℕ) → off + 8 ≤ io
        → io + (22 + length name) ≤ W.size m
        → W.size m < 2 ^ 31
        → (m' : W.Memory) × (write_principal W m off io (principal p) true
            ≡ ok (8, 22 + length name, m'))
          × Stored W m m' off 8 io
              (22 + length name)
              (λ m''.
                read_indirect W L principal_type
                  (λ m o len. read_principal W L principal_type m o)
                  m''
                  off)
              (principal p)
    unfolding PrincipalBytes
    write_principal-Stored p s name parts i n size mem reads m off io room fits small =
        let (m₁, m₂, m₃, e₁, e₂, e₃, t) =
          write_bytes-PrincipalBytes p s name i n reads m io fits small in
        let (m₄, e₄, u) =
          write_repr-Stored W L principal_type
            (λ m'' o len. read_principal W L principal_type m'' o) off io (22 + length name) 0
            (principal p) size mem t (omega arith) room fits small in
        (m₄, write_principal-run m m₁ m₂ m₃ m₄ off io _ p s name parts i.hash_length e₁ e₂ e₃ e₄, u)
