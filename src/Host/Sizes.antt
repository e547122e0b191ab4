-- ===== src/Host/Sizes.antt =====
-- How many bytes `write_to_wasm` of clar2wasm/src/wasm_utils.rs writes at `offset`.
use clarity_wasm.Prelude.{
  ℕ, ◌≡◌, refl, ap, sym, Bool, true, false, List, Option, some, none, ok, ◌>>=◌, AllOk, AllOk-bind,
  AllOk-ok, length, ◌%◌, ◌^◌, ◌/◌, add32, mul32, to_le_bytes, if◌then◌else◌,
}
use clarity_wasm.Clarity.{
  TypeSignature, TypeMap, Value, DataMap, no_type, int_type, uint_type, bool_type, buffer_type,
  ascii_type, utf8_type, list_type, optional_type, utf8, response_type, tuple_type, list_union_type,
  field,
}
use clarity_wasm.Layout.{is_in_memory_type, get_type_size, get_type_size_fields}
use clarity_wasm.Wasm.Memory.{LinearMemory}
use clarity_wasm.Host.Errors.{
  Error, or_error, map_err, panic, value_type_mismatch, unable_to_write_memory,
}
use clarity_wasm.Host.Library.{ClarityLibrary}
use clarity_wasm.Host.Access.{
  write_mem, value_as_bool, value_as_i128, value_as_u128, value_as_principal, value_as_buffer,
  value_as_optional, value_as_response, value_as_string_ascii, value_as_tuple, value_as_list,
}
use clarity_wasm.Host.Write.{
  Written, Writer, write_words, write_repr, write_in_memory, write_principal, write_contract_name,
  write_elements, write_list, write_utf8, write_indicator, write_optional, write_response,
  write_bool, write_to_wasm, write_fields, lookup_entry, count_values,
}

or_error-eq-ok {ℓ} :
    {A : Type ℓ} (o : Option A) (e : Error) {a : A} → or_error o e ≡ ok a → o ≡ some a
or_error-eq-ok (some b) e h = cc
or_error-eq-ok none e h = absurd (cc)

module _ (W : LinearMemory) where
  -- A success has written as many bytes at `offset` as `size` says.
  abbrev Fills : Option ℕ → Written W → Type 0
  Fills size = AllOk (λ x. size ≡ some x.0)

  -- The bytes of a representation, where it is included.
  abbrev repr_size : Bool → ℕ
  repr_size include_repr = if include_repr then 8 else 0

  write_words-Fills : (m : W.Memory) (offset n : ℕ) → Fills (some 16) (write_words W m offset n)
  unfolding write_words
  write_words-Fills m offset n =
      AllOk-bind _ (write_mem W m offset (to_le_bytes 8 (n % 2 ^ 64))) _ (λ m' e.
        AllOk-bind _ (write_mem W m' (add32 offset 8) (to_le_bytes 8 (n / 2 ^ 64 % 2 ^ 64))) _
          (λ m'' f. refl))

  write_repr-Fills :
      (m : W.Memory) (offset in_mem_offset len : ℕ) (b : Bool)
      → AllOk (λ (x : ℕ × W.Memory). x.0 ≡ repr_size b) (write_repr W m offset in_mem_offset len b)
  unfolding write_repr
  write_repr-Fills m offset in_mem_offset len false = refl
  write_repr-Fills m offset in_mem_offset len true =
      AllOk-bind _ (write_mem W m offset (to_le_bytes 4 in_mem_offset)) _ (λ m' e.
        AllOk-bind _ (write_mem W m' (add32 offset 4) (to_le_bytes 4 len)) _ (λ m'' f. refl))

  -- A representation, and then the result.
  then_repr :
      (m : W.Memory) (offset in_mem_offset len n : ℕ) (b : Bool)
      → Fills
          (some (repr_size b))
          (do (written, m) ← write_repr W m offset in_mem_offset len b; ok (written, n, m))
  then_repr m offset in_mem_offset len n b =
      AllOk-bind _ (write_repr W m offset in_mem_offset len b) _ (λ x e. ap some (
        sym (
          AllOk-ok _ (write_repr W m offset in_mem_offset len b)
            (write_repr-Fills m offset in_mem_offset len b) e)))

  write_in_memory-Fills :
      (m : W.Memory) (offset in_mem_offset : ℕ) (bytes : List ℕ) (b : Bool)
      → Fills (some (repr_size b)) (write_in_memory W m offset in_mem_offset bytes b)
  unfolding write_in_memory
  write_in_memory-Fills m offset in_mem_offset bytes b =
      AllOk-bind _ (write_mem W m in_mem_offset bytes) _
        (λ m' e. then_repr m' offset in_mem_offset (length bytes % 2 ^ 32) _ b)

  write_principal-Fills :
      (m : W.Memory) (offset in_mem_offset : ℕ) (v : Value) (b : Bool)
      → Fills (some (repr_size b)) (write_principal W m offset in_mem_offset v b)
  unfolding write_principal
  write_principal-Fills m offset in_mem_offset v b = AllOk-bind _ (value_as_principal v) _ (λ p a.
      AllOk-bind _ (write_mem W m (add32 in_mem_offset 0) _) _ (λ m₁ k.
        AllOk-bind _ (write_mem W m₁ (add32 in_mem_offset 1) _) _ (λ m₂ c.
          AllOk-bind _ (write_contract_name W m₂ in_mem_offset _ _) _
            (λ x d. then_repr x.1 offset in_mem_offset x.0 _ b))))

  write_list-Fills :
      (w : Writer W) (size : Option ℕ) (m : W.Memory) (offset in_mem_offset : ℕ) (v : Value)
      (b : Bool)
      → Fills (some (repr_size b)) (write_list W w size m offset in_mem_offset v b)
  unfolding write_list
  write_list-Fills w size m offset in_mem_offset v b = AllOk-bind _ (value_as_list v) _ (λ vs a.
      AllOk-bind _ (or_error size panic) _ (λ n k.
        AllOk-bind _
          (write_elements W w m in_mem_offset (add32 in_mem_offset (mul32 (count_values vs) n)) 0 0
            vs)
          _ (λ x c. then_repr x.2 offset in_mem_offset x.0 _ b)))

  write_utf8-Fills :
      (L : ClarityLibrary) (m : W.Memory) (offset in_mem_offset : ℕ) (v : Value) (b : Bool)
      → Fills (some (repr_size b)) (write_utf8 W L m offset in_mem_offset v b)
  unfolding write_utf8
  write_utf8-Fills L m offset in_mem_offset (utf8 chars) b =
      AllOk-bind _ (map_err (L.unicode_scalars chars) unable_to_write_memory) _
        (λ bytes a. write_in_memory-Fills m offset in_mem_offset bytes b)
  write_utf8-Fills L m offset in_mem_offset _ b = tt

  write_bool-Fills :
      (m : W.Memory) (offset : ℕ) (b : Bool) → Fills (some 4) (write_bool W m offset b)
  unfolding write_bool
  write_bool-Fills m offset b =
      AllOk-bind _ (write_mem W m offset (to_le_bytes 4 (if b then 1 else 0))) _ (λ m' e. refl)

  -- The writer write_to_wasm-Fills the size wherever it is called.
  abbrev AlwaysFills : Option ℕ → Writer W → Type 0
  AlwaysFills size w =
      (m : W.Memory) (offset in_mem_offset : ℕ) (v : Value)
      → Fills size (w m offset in_mem_offset v true)

  write_optional-Fills :
      (inner : Writer W) (size total : Option ℕ) (m : W.Memory) (offset in_mem_offset : ℕ)
      (o : Option Value)
      → AlwaysFills size inner
      → ((n : ℕ) → size ≡ some n → total ≡ some (add32 4 n))
      → Fills total (write_optional W inner size m offset in_mem_offset o)
  unfolding write_optional
  write_optional-Fills inner size total m offset in_mem_offset none h k =
      AllOk-bind _ (write_indicator W m offset false) _
        (λ m' a. AllOk-bind _ (or_error size panic) _ (λ n b. k n (or_error-eq-ok size panic b)))
  write_optional-Fills inner size total m offset in_mem_offset (some v) h k =
      AllOk-bind _ (write_indicator W m offset true) _ (λ m' a.
        AllOk-bind _ (inner m' (add32 offset 4) in_mem_offset v true) _ (λ x b. k x.0 (
          AllOk-ok _ (inner m' (add32 offset 4) in_mem_offset v true)
            (h m' (add32 offset 4) in_mem_offset v) b)))

  write_response-Fills :
      (inner_ok inner_err : Writer W) (ok_size err_size total : Option ℕ) (m : W.Memory)
      (offset in_mem_offset : ℕ) (r : Bool × Value)
      → AlwaysFills ok_size inner_ok
      → AlwaysFills err_size inner_err
      → ((n k : ℕ) → ok_size ≡ some n → err_size ≡ some k → total ≡ some (add32 (add32 4 n) k))
      → Fills total (write_response W inner_ok inner_err ok_size err_size m offset in_mem_offset r)
  unfolding write_response
  write_response-Fills f g ok_size err_size total m offset in_mem_offset (true, v) h k t =
      AllOk-bind _ (write_indicator W m offset true) _ (λ m' a.
        AllOk-bind _ (f m' (add32 offset 4) in_mem_offset v true) _ (λ x b.
          AllOk-bind _ (or_error err_size panic) _ (λ n c.
            t x.0 n
              (AllOk-ok _ (f m' (add32 offset 4) in_mem_offset v true)
                (h m' (add32 offset 4) in_mem_offset v) b)
              (or_error-eq-ok err_size panic c))))
  write_response-Fills f g ok_size err_size total m offset in_mem_offset (false, v) h k t =
      AllOk-bind _ (write_indicator W m offset false) _ (λ m' a.
        AllOk-bind _ (or_error ok_size panic) _ (λ n c.
          AllOk-bind _ (g m' (add32 offset (add32 4 n)) in_mem_offset v true) _ (λ x b.
            t n x.0 (or_error-eq-ok ok_size panic c) (
              AllOk-ok _ (g m' (add32 offset (add32 4 n)) in_mem_offset v true)
                (k m' (add32 offset (add32 4 n)) in_mem_offset v) b))))

-- What stands at `offset` of a value: all but the bytes behind it, and of an in-memory value its
-- representation, where it is included.
abbrev pub bytes_at_offset : TypeSignature → (include_repr : Bool) → Option ℕ
bytes_at_offset t true = get_type_size t
bytes_at_offset t false = elim (is_in_memory_type t) [
  | none ↦ none
  | some in_memory ↦ if in_memory then some 0 else get_type_size t
]

module _ (W : LinearMemory) (L : ClarityLibrary) where
  mutual
    unfolding write_to_wasm get_type_size

    write_to_wasm-Fills :
        (t : TypeSignature) (m : W.Memory) (offset in_mem_offset : ℕ) (v : Value)
        → Fills W (get_type_size t) (write_to_wasm W L t m offset in_mem_offset v true)
    write_to_wasm-Fills int_type m offset in_mem_offset v =
        AllOk-bind _ (value_as_i128 v) _ (λ n a. write_words-Fills W m offset n)
    write_to_wasm-Fills uint_type m offset in_mem_offset v =
        AllOk-bind _ (value_as_u128 v) _ (λ n a. write_words-Fills W m offset n)
    write_to_wasm-Fills (buffer_type n) m offset in_mem_offset v =
        AllOk-bind _ (value_as_buffer v) _
          (λ bytes a. write_in_memory-Fills W m offset in_mem_offset bytes true)
    write_to_wasm-Fills (ascii_type n) m offset in_mem_offset v =
        AllOk-bind _ (value_as_string_ascii v) _
          (λ bytes a. write_in_memory-Fills W m offset in_mem_offset bytes true)
    write_to_wasm-Fills (utf8_type n) m offset in_mem_offset v =
        write_utf8-Fills W L m offset in_mem_offset v true
    write_to_wasm-Fills (list_type n t) m offset in_mem_offset v =
        write_list-Fills W (write_to_wasm W L t) (get_type_size t) m offset in_mem_offset v true
    write_to_wasm-Fills (response_type t u) m offset in_mem_offset v =
        AllOk-bind _ (value_as_response v) _ (λ r a.
          write_response-Fills W (write_to_wasm W L t) (write_to_wasm W L u) (get_type_size t)
            (get_type_size u) (get_type_size (response_type t u)) m offset in_mem_offset r
            (write_to_wasm-Fills t) (write_to_wasm-Fills u) (λ n k p q. rw (p, q) refl))
    write_to_wasm-Fills bool_type m offset in_mem_offset v =
        AllOk-bind _ (value_as_bool v) _ (λ b a. write_bool-Fills W m offset b)
    write_to_wasm-Fills no_type m offset in_mem_offset v =
        AllOk-bind _ (write_mem W m offset (to_le_bytes 4 0)) _ (λ m' a. refl)
    write_to_wasm-Fills (optional_type t) m offset in_mem_offset v =
        AllOk-bind _ (value_as_optional v) _ (λ o a.
          write_optional-Fills W (write_to_wasm W L t) (get_type_size t)
            (get_type_size (optional_type t)) m offset in_mem_offset o (write_to_wasm-Fills t)
            (λ n p. rw p refl))
    write_to_wasm-Fills (tuple_type fields) m offset in_mem_offset v =
        AllOk-bind _ (value_as_tuple v) _
          (λ d a. write_fields-Fills fields d m offset in_mem_offset 0 0)
    write_to_wasm-Fills list_union_type m offset in_mem_offset v = tt
    write_to_wasm-Fills _ m offset in_mem_offset v =
        write_principal-Fills W m offset in_mem_offset v true

    write_fields-Fills :
        (fields : TypeMap) (d : DataMap) (m : W.Memory) (offset in_mem_offset written k : ℕ)
        → Fills W
            (get_type_size_fields written fields)
            (write_fields W L fields d m offset in_mem_offset written k)
    write_fields-Fills TypeMap.end d m offset in_mem_offset written k = refl
    write_fields-Fills (field key t fields) d m offset in_mem_offset written k =
        AllOk-bind _ (or_error (lookup_entry key d) value_type_mismatch) _ (λ v a.
          AllOk-bind _ (write_to_wasm W L t m (add32 offset written) (add32 in_mem_offset k) v true)
            _
            (λ x b.
              rw
                (AllOk-ok _
                  (write_to_wasm W L t m (add32 offset written) (add32 in_mem_offset k) v true)
                  (write_to_wasm-Fills t m (add32 offset written) (add32 in_mem_offset k) v) b)
                (write_fields-Fills fields d x.2 offset in_mem_offset (add32 written x.0)
                  (add32 k x.1))))

  bytes_at_offset-Fills :
      (t : TypeSignature) (m : W.Memory) (offset in_mem_offset : ℕ) (v : Value)
      (include_repr : Bool)
      → Fills W
          (bytes_at_offset t include_repr)
          (write_to_wasm W L t m offset in_mem_offset v include_repr)
  unfolding write_to_wasm is_in_memory_type
  bytes_at_offset-Fills t m offset in_mem_offset v true =
      write_to_wasm-Fills t m offset in_mem_offset v
  bytes_at_offset-Fills int_type m offset in_mem_offset v false =
      write_to_wasm-Fills int_type m offset in_mem_offset v
  bytes_at_offset-Fills uint_type m offset in_mem_offset v false =
      write_to_wasm-Fills uint_type m offset in_mem_offset v
  bytes_at_offset-Fills bool_type m offset in_mem_offset v false =
      write_to_wasm-Fills bool_type m offset in_mem_offset v
  bytes_at_offset-Fills no_type m offset in_mem_offset v false =
      write_to_wasm-Fills no_type m offset in_mem_offset v
  bytes_at_offset-Fills (optional_type t) m offset in_mem_offset v false =
      write_to_wasm-Fills (optional_type t) m offset in_mem_offset v
  bytes_at_offset-Fills (response_type t u) m offset in_mem_offset v false =
      write_to_wasm-Fills (response_type t u) m offset in_mem_offset v
  bytes_at_offset-Fills (tuple_type fields) m offset in_mem_offset v false =
      write_to_wasm-Fills (tuple_type fields) m offset in_mem_offset v
  bytes_at_offset-Fills list_union_type m offset in_mem_offset v false = tt
  bytes_at_offset-Fills (buffer_type n) m offset in_mem_offset v false =
      AllOk-bind _ (value_as_buffer v) _
        (λ bytes a. write_in_memory-Fills W m offset in_mem_offset bytes false)
  bytes_at_offset-Fills (ascii_type n) m offset in_mem_offset v false =
      AllOk-bind _ (value_as_string_ascii v) _
        (λ bytes a. write_in_memory-Fills W m offset in_mem_offset bytes false)
  bytes_at_offset-Fills (utf8_type n) m offset in_mem_offset v false =
      write_utf8-Fills W L m offset in_mem_offset v false
  bytes_at_offset-Fills (list_type n t) m offset in_mem_offset v false =
      write_list-Fills W (write_to_wasm W L t) (get_type_size t) m offset in_mem_offset v false
  bytes_at_offset-Fills _ m offset in_mem_offset v false =
      write_principal-Fills W m offset in_mem_offset v false

  -- Where `write_to_wasm` succeeds, the number of bytes that it reports as written at `offset` is the
  -- type's `get_type_size`; but for an in-memory type whose representation it is not to write, the
  -- number is 0.
  pub write_to_wasm-get_type_size :
      (t : TypeSignature) (m : W.Memory) (offset in_mem_offset : ℕ) (v : Value)
      (include_repr : Bool) {w i : ℕ} {m' : W.Memory}
      → write_to_wasm W L t m offset in_mem_offset v include_repr ≡ ok (w, i, m')
      → bytes_at_offset t include_repr ≡ some w
  write_to_wasm-get_type_size t m offset in_mem_offset v include_repr h =
      AllOk-ok _ (write_to_wasm W L t m offset in_mem_offset v include_repr)
        (bytes_at_offset-Fills t m offset in_mem_offset v include_repr) h
