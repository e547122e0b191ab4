-- ===== src/Host/Readers.antt =====
-- The readers that `read_from_wasm` of clar2wasm/src/wasm_utils.rs is made of: what their success
-- tells of the offset, and that they do not outrun the fuel.
use clarity_wasm.Prelude.{
  ℕ, zero, suc, ◌+◌, ◌≤◌, ◌<◌, ◌≡◌, refl, Bool, true, false, List, Option, some, none, Result,
  ◌>>=◌, arith, add32, from_le_bytes,
}
use clarity_wasm.Clarity.{TypeSignature, Value, Values, DataMap, StandardPrincipalData}
use clarity_wasm.Layout.{get_type_size, is_in_memory_type}
use clarity_wasm.Wasm.Memory.{LinearMemory}
use clarity_wasm.Host.Errors.{Error, runtime, panic, value_type_mismatch, or_error, map_err}
use clarity_wasm.Host.Library.{ClarityLibrary}
use clarity_wasm.Host.Access.{as_usize, read_mem, read_usize, read_indirect_offset_and_length}
use clarity_wasm.Host.Read.{
  Reader, by_indicator, read_words, read_u32, read_contract, read_principal, read_optional,
  read_response, read_indirect,
}
use clarity_wasm.Host.Ends.{
  Ends, Ends-bind, Ends-mono, Ends-map_err, Ends-or_error, read_mem-Ends, read_usize-Ends,
}

-- The clarity crate's constructors return.
pub record Returns (L : ClarityLibrary) : Type 0 where
  pub buff_from : (bs : List ℕ) → Ends Unit (L.buff_from bs)
  pub string_ascii_from_bytes : (bs : List ℕ) → Ends Unit (L.string_ascii_from_bytes bs)
  pub string_utf8_from_unicode_scalars :
      (bs : List ℕ) → Ends Unit (L.string_utf8_from_unicode_scalars bs)
  pub cons_list_unsanitized : (vs : Values) → Ends Unit (L.cons_list_unsanitized vs)
  pub tuple_from_data : (d : DataMap) → Ends Unit (L.tuple_from_data d)
  pub standard_principal : (v : ℕ) (hash : List ℕ) → Ends Unit (L.standard_principal v hash)
  pub contract_name : (name : List ℕ) → Ends Unit (L.contract_name name)

module _ (W : LinearMemory) (L : ClarityLibrary) (R : Returns L) (m : W.Memory) where
  -- The first byte at the offset is in bounds.
  abbrev pub Starts : ℕ → Type 0
  Starts o = as_usize o < W.size m

  pub read_words-Ends : (o : ℕ) → Ends (Starts o) (read_words W L m o)
  unfolding read_words
  read_words-Ends o =
      Ends-bind (as_usize o + 8 ≤ W.size m) (Starts o) (read_mem W runtime m o 8) _
        (read_mem-Ends W runtime m o 8 tt)
        (λ low l.
          Ends-bind (as_usize (add32 o 8) + 8 ≤ W.size m) (Starts o)
            (read_mem W runtime m (add32 o 8) 8) _ (read_mem-Ends W runtime m (add32 o 8) 8 tt)
            (λ high _. omega arith))

  pub read_u32-Ends : (o : ℕ) → Ends (Starts o) (read_u32 W L m o)
  unfolding read_u32
  read_u32-Ends o =
      Ends-bind (as_usize o + 4 ≤ W.size m) (Starts o) (read_mem W runtime m o 4) _
        (read_mem-Ends W runtime m o 4 tt) (λ bs l. omega arith)

  read_pair-Ends : (o : ℕ) → Ends (Starts o) (read_indirect_offset_and_length W m o)
  unfolding read_indirect_offset_and_length
  read_pair-Ends o =
      Ends-bind (as_usize o + 4 ≤ W.size m) (Starts o) (read_mem W runtime m o 4) _
        (read_mem-Ends W runtime m o 4 tt)
        (λ xs l.
          Ends-bind (as_usize (add32 o 4) + 4 ≤ W.size m) (Starts o)
            (read_mem W runtime m (add32 o 4) 4) _ (read_mem-Ends W runtime m (add32 o 4) 4 tt)
            (λ ys _. omega arith))

  read_contract-Ends :
      (t : TypeSignature) (o : ℕ) (s : StandardPrincipalData) (k : ℕ)
      → Ends Unit (read_contract W L t m o s k)
  unfolding read_contract
  read_contract-Ends t o s zero = tt
  read_contract-Ends t o s (suc k) =
      Ends-bind (o + suc k ≤ W.size m) Unit (read_usize W runtime m o (suc k)) _
        (read_usize-Ends W runtime m o (suc k) tt)
        (λ bs _.
          Ends-bind Unit Unit (map_err (L.from_utf8 bs) runtime) _
            (Ends-map_err (L.from_utf8 bs) runtime tt)
            (λ text _.
              Ends-bind Unit Unit (L.contract_name text) _ (R.contract_name text) (λ name _. tt)))

  pub read_principal-Ends : (t : TypeSignature) (o : ℕ) → Ends Unit (read_principal W L t m o)
  unfolding read_principal
  read_principal-Ends t o =
      Ends-bind (as_usize o + 1 ≤ W.size m) Unit (read_usize W runtime m (as_usize o) 1) _
        (read_usize-Ends W runtime m (as_usize o) 1 tt)
        (λ v _.
          Ends-bind (as_usize o + 1 + 20 ≤ W.size m) Unit
            (read_usize W runtime m (as_usize o + 1) 20) _
            (read_usize-Ends W runtime m (as_usize o + 1) 20 tt)
            (λ h _.
              Ends-bind Unit Unit (L.standard_principal (from_le_bytes v) h) _
                (R.standard_principal (from_le_bytes v) h)
                (λ s _.
                  Ends-bind (as_usize o + 21 + 1 ≤ W.size m) Unit
                    (read_usize W runtime m (as_usize o + 21) 1) _
                    (read_usize-Ends W runtime m (as_usize o + 21) 1 tt)
                    (λ len _. read_contract-Ends t (as_usize o + 22) s (from_le_bytes len)))))

  -- What a read of the type tells of the offset.
  abbrev pub Tells : TypeSignature → ℕ → Type 0
  Tells t o = is_in_memory_type t ≡ some false → Starts o

  pub read_indirect-Ends :
      (t : TypeSignature) (direct : W.Memory → ℕ → ℕ → Result Error Value) (o : ℕ)
      → ((p len : ℕ) → Ends (Tells t p) (direct m p len))
      → Ends (Starts o) (read_indirect W L t direct m o)
  unfolding read_indirect
  read_indirect-Ends t direct o h = by_place (is_in_memory_type t) refl
    where
      by_place :
          (b : Option Bool)
          → is_in_memory_type t ≡ b
          → Ends (Starts o) (read_indirect W L t direct m o)
      by_place none e = rw e (
          Ends-bind Unit (Starts o) (or_error (get_type_size t) panic) _
            (Ends-or_error (get_type_size t) panic tt) (λ _ _. tt))
      by_place (some true) e = rw e (
          Ends-bind Unit (Starts o) (or_error (get_type_size t) panic) _
            (Ends-or_error (get_type_size t) panic tt)
            (λ n _.
              Ends-bind (Starts o) (Starts o) (read_indirect_offset_and_length W m o) _
                (read_pair-Ends o) (λ x l. Ends-mono (direct m x.0 x.1) (λ _. l) (h x.0 x.1))))
      by_place (some false) e = rw e (
          Ends-bind Unit (Starts o) (or_error (get_type_size t) panic) _
            (Ends-or_error (get_type_size t) panic tt)
            (λ n _. Ends-mono (direct m o n) (λ g. g e) (h o n)))

  by_indicator-Ends :
      (P : Type 0) (n : ℕ) (zero_case one_case : Result Error Value)
      → P
      → Ends Unit zero_case
      → Ends Unit one_case
      → Ends P (by_indicator n zero_case one_case)
  unfolding by_indicator
  by_indicator-Ends P zero z o p hz ho = Ends-mono z (λ _. p) hz
  by_indicator-Ends P (suc zero) z o p hz ho = Ends-mono o (λ _. p) ho
  by_indicator-Ends P (suc (suc n)) z o p hz ho = tt

  -- A part read from an offset, and then a constructor whose error is mapped.
  then_map_err :
      (P : Type 0) (r : Result Error Value) (f : Value → Result Error Value)
      → Ends P r
      → Ends Unit (do v ← r; map_err (f v) value_type_mismatch)
  then_map_err P r f h = Ends-bind P Unit r _ h (λ v _. Ends-map_err (f v) value_type_mismatch tt)

  -- A reader that ends, and reads at its offset.
  abbrev Reads : Reader W L → Type 0
  Reads reader = (o : ℕ) → Ends (Starts o) (reader m o)

  pub read_optional-Ends :
      (inner : Reader W L) (o : ℕ) → Reads inner → Ends (Starts o) (read_optional W L inner m o)
  unfolding read_optional
  read_optional-Ends inner o h =
      Ends-bind (Starts o) (Starts o) (read_u32 W L m o) _ (read_u32-Ends o) (λ n l.
        by_indicator-Ends (Starts o) n _ _ l tt
          (then_map_err (Starts (add32 o 4)) (inner m (add32 o 4)) L.make_some (h (add32 o 4))))

  pub read_response-Ends :
      (inner_ok inner_err : Reader W L) (size : Option ℕ) (o : ℕ)
      → Reads inner_ok
      → Reads inner_err
      → Ends (Starts o) (read_response W L inner_ok inner_err size m o)
  unfolding read_response
  read_response-Ends inner_ok inner_err size o h k =
      Ends-bind (Starts o) (Starts o) (read_u32 W L m o) _ (read_u32-Ends o) (λ n l.
        by_indicator-Ends (Starts o) n _ _ l
          (Ends-bind Unit Unit (or_error size panic) _ (Ends-or_error size panic tt) (λ z _.
            then_map_err (Starts (add32 (add32 o 4) z)) (inner_err m (add32 (add32 o 4) z)) L.error
              (k (add32 (add32 o 4) z))))
          (then_map_err (Starts (add32 o 4)) (inner_ok m (add32 o 4)) L.okay (h (add32 o 4))))
