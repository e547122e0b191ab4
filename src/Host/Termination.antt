-- ===== src/Host/Termination.antt =====
-- `read_from_wasm` of clar2wasm/src/wasm_utils.rs ends: on no type does its list loop outrun the fuel.
use clarity_wasm.Prelude.{
  ℕ, ◌+◌, ◌≤◌, ◌<◌, ◌^◌, ◌≡◌, ◌≢◌, subst, some, List, Result, err, ◌>>=◌, add32,
}
use clarity_wasm.Clarity.{
  TypeSignature, TypeMap, Value, no_type, int_type, uint_type, bool_type, buffer_type, ascii_type,
  utf8_type, list_type, optional_type, response_type, tuple_type, list_union_type, field,
}
use clarity_wasm.Layout.{get_type_size, is_in_memory_type}
use clarity_wasm.Wasm.Memory.{LinearMemory}
use clarity_wasm.Host.Errors.{Error, diverges, runtime, panic, or_error}
use clarity_wasm.Host.Library.{ClarityLibrary}
use clarity_wasm.Host.Access.{as_usize, read_mem}
use clarity_wasm.Host.Read.{
  read_words, read_u32, read_list, read_indirect, read_from_wasm, read_fields,
  read_from_wasm_indirect,
}
use clarity_wasm.Host.Ends.{
  Ends, Ends-bind, Ends-mono, Ends-or_error, read_mem-Ends, read_list-Ends,
}
use clarity_wasm.Host.Readers.{
  Returns, Starts, Tells, read_words-Ends, read_u32-Ends, read_principal-Ends, read_indirect-Ends,
  read_optional-Ends, read_response-Ends,
}

-- A list's elements have a positive size that fits an `i32`, and no tuple is empty.
abbrev mutual
  pub IsReadable : TypeSignature → Type 0
  IsReadable (optional_type t) = IsReadable t
  IsReadable (response_type t u) = IsReadable t × IsReadable u
  IsReadable (list_type k t) =
      IsReadable t × ((n : ℕ) × (get_type_size t ≡ some n) × (1 ≤ n) × (n < 2 ^ 31))
  IsReadable (tuple_type TypeMap.end) = ⊥
  IsReadable (tuple_type (field k t m)) = IsReadable t × AreReadable m
  IsReadable _ = Unit

  pub AreReadable : TypeMap → Type 0
  AreReadable TypeMap.end = Unit
  AreReadable (field k t m) = IsReadable t × AreReadable m

Ends-ne {ℓ} : {A : Type ℓ} (P : Type 0) (r : Result Error A) → Ends P r → r ≢ err diverges
Ends-ne P r h e = subst (Ends P) e h

module _ (W : LinearMemory) (L : ClarityLibrary) (R : Returns L) (m : W.Memory)
    (small : W.size m ≤ 2 ^ 31) where
  -- The offset where the first of the fields is read.
  abbrev StartsFields : TypeMap → ℕ → Type 0
  StartsFields TypeMap.end o = Unit
  StartsFields (field k t fields) o = Starts W L R m o

  -- The bytes of a buffer or a string.
  read_bytes-Ends :
      (P : Type 0) (o len : ℕ) (make : List ℕ → Result Error Value)
      → P
      → ((bs : List ℕ) → Ends Unit (make bs))
      → Ends P (do bs ← read_mem W runtime m o len; make bs)
  read_bytes-Ends P o len make p h =
      Ends-bind (as_usize o + as_usize len ≤ W.size m) P (read_mem W runtime m o len) _
        (read_mem-Ends W runtime m o len tt) (λ bs _. Ends-mono (make bs) (λ _. p) (h bs))

  mutual
    unfolding read_from_wasm is_in_memory_type

    read_from_wasm-Ends :
        (t : TypeSignature) (o len : ℕ)
        → IsReadable t
        → Ends (Tells W L R m t o) (read_from_wasm W L t m o len)
    read_from_wasm-Ends uint_type o len r =
        Ends-bind (Starts W L R m o) _ (read_words W L m o) _ (read_words-Ends W L R m o)
          (λ n l _. l)
    read_from_wasm-Ends int_type o len r =
        Ends-bind (Starts W L R m o) _ (read_words W L m o) _ (read_words-Ends W L R m o)
          (λ n l _. l)
    read_from_wasm-Ends (ascii_type n) o len r =
        read_bytes-Ends _ o len L.string_ascii_from_bytes (λ e. absurd (cc))
          R.string_ascii_from_bytes
    read_from_wasm-Ends (utf8_type n) o len r =
        read_bytes-Ends _ o len L.string_utf8_from_unicode_scalars (λ e. absurd (cc))
          R.string_utf8_from_unicode_scalars
    read_from_wasm-Ends (buffer_type n) o len r =
        read_bytes-Ends _ o len L.buff_from (λ e. absurd (cc)) R.buff_from
    read_from_wasm-Ends (list_type k t) o len (r, (n, e, p, q)) =
        Ends-mono
          (read_list W L (read_indirect W L t (read_from_wasm W L t)) (get_type_size t) m o len)
          (λ _ f. absurd (cc))
          (read_list-Ends W L (read_indirect W L t (read_from_wasm W L t)) (get_type_size t) m o len
            n small e p q
            (λ i.
              read_indirect-Ends W L R m t (read_from_wasm W L t) i
                (λ j l. read_from_wasm-Ends t j l r))
            R.cons_list_unsanitized)
    read_from_wasm-Ends bool_type o len r =
        Ends-bind (Starts W L R m o) _ (read_u32 W L m o) _ (read_u32-Ends W L R m o) (λ n l _. l)
    read_from_wasm-Ends (tuple_type TypeMap.end) o len r = elim r [ ]
    read_from_wasm-Ends (tuple_type (field k t fields)) o len r =
        Ends-bind (Starts W L R m o) _ (read_fields W L (field k t fields) m o) _
          (read_fields-Ends (field k t fields) o r)
          (λ d l. Ends-mono (L.tuple_from_data d) (λ _ _. l) (R.tuple_from_data d))
    read_from_wasm-Ends (response_type t u) o len r =
        Ends-mono (read_from_wasm W L (response_type t u) m o len) (λ l _. l)
          (read_response-Ends W L R m (read_indirect W L t (read_from_wasm W L t))
            (read_indirect W L u (read_from_wasm W L u)) (get_type_size t) o
            (λ i.
              read_indirect-Ends W L R m t (read_from_wasm W L t) i
                (λ j l. read_from_wasm-Ends t j l r.0))
            (λ i.
              read_indirect-Ends W L R m u (read_from_wasm W L u) i
                (λ j l. read_from_wasm-Ends u j l r.1)))
    read_from_wasm-Ends (optional_type t) o len r =
        Ends-mono (read_from_wasm W L (optional_type t) m o len) (λ l _. l)
          (read_optional-Ends W L R m (read_indirect W L t (read_from_wasm W L t)) o (λ i.
            read_indirect-Ends W L R m t (read_from_wasm W L t) i
              (λ j l. read_from_wasm-Ends t j l r)))
    read_from_wasm-Ends no_type o len r = tt
    read_from_wasm-Ends list_union_type o len r = tt
    read_from_wasm-Ends t o len r =
        Ends-mono (read_from_wasm W L t m o len) (λ _ f. absurd (cc))
          (read_principal-Ends W L R m t o)

    read_fields-Ends :
        (fields : TypeMap) (o : ℕ)
        → AreReadable fields
        → Ends (StartsFields fields o) (read_fields W L fields m o)
    read_fields-Ends TypeMap.end o r = tt
    read_fields-Ends (field k t fields) o r =
        Ends-bind Unit (Starts W L R m o) (or_error (get_type_size t) panic) _
          (Ends-or_error (get_type_size t) panic tt)
          (λ n _.
            Ends-bind (Starts W L R m o) (Starts W L R m o)
              (read_indirect W L t (read_from_wasm W L t) m o) _
              (read_indirect-Ends W L R m t (read_from_wasm W L t) o
                (λ j l. read_from_wasm-Ends t j l r.0))
              (λ v l.
                Ends-bind (StartsFields fields (add32 o n)) (Starts W L R m o)
                  (read_fields W L fields m (add32 o n)) _ (read_fields-Ends fields (add32 o n) r.1)
                  (λ rest _. l)))

  -- In a memory of at most 2 ^ 31 bytes, for a type whose list elements have a positive size and
  -- whose tuples are not empty, and with constructors of the clarity crate that return: at every
  -- offset, and for every length, also for one that memory holds, neither `read_from_wasm` nor
  -- `read_from_wasm_indirect` loops for ever.
  pub read_from_wasm-ne-diverges :
      (t : TypeSignature) (offset len : ℕ)
      → IsReadable t
      → (read_from_wasm W L t m offset len ≢ err diverges)
        × (read_from_wasm_indirect W L t m offset ≢ err diverges)
  unfolding read_from_wasm_indirect
  read_from_wasm-ne-diverges t offset len r = (
    Ends-ne (Tells W L R m t offset) (read_from_wasm W L t m offset len)
        (read_from_wasm-Ends t offset len r),
    Ends-ne (Starts W L R m offset) (read_indirect W L t (read_from_wasm W L t) m offset) (
        read_indirect-Ends W L R m t (read_from_wasm W L t) offset
          (λ j l. read_from_wasm-Ends t j l r)),
  )
