-- ===== src/Linker/Maps.antt =====
-- `map_get`, `map_set`, `map_insert` and `map_delete` of clar2wasm/src/linker.rs.
use clarity_wasm.Prelude.{
  ℕ, ◌+◌, ◌≤◌, ◌<◌, ◌^◌, ◌≡◌, true, false, List, some, Result, ok, err, ◌>>=◌, if◌then◌else◌, add32,
}
use clarity_wasm.Clarity.{TypeSignature, Value, IsValueType, bool, optional_type, some_value}
use clarity_wasm.Wasm.Memory.{LinearMemory}
use clarity_wasm.Host.Errors.{Error, no_such_map, write_attempted_in_read_only, or_error}
use clarity_wasm.Host.Library.{ClarityLibrary}
use clarity_wasm.Host.Read.{read_from_wasm_indirect}
use clarity_wasm.Host.RoundTrip.Stored.{Stored}
use clarity_wasm.Host.RoundTrip.Types.{width}
use clarity_wasm.Host.RoundTrip.Values.{Storable, of_some}
use clarity_wasm.Runtime.Resolve.{read_identifier_from_wasm}
use clarity_wasm.Linker.Context.{MapTypes, GlobalContext, ContractContext}
use clarity_wasm.Linker.Reading.{
  read_argument, write_result, read_argument-eq-indirect, write_result-Stored,
}

-- What the compiled contract gets: 1 for `true`, 0 for any other value.
unfoldable pub as_flag : Value → ℕ
as_flag (bool true) = 1
as_flag _ = 0

module _ (X : GlobalContext) where
  unfoldable pub writable : X.State → Result {0} Error Unit
  writable g = if X.is_read_only g then err write_attempted_in_read_only else ok tt

  -- The length that the cost is of: the entry's, or the types' sizes after an error.
  unfoldable pub result_size : {A : Type 0} → MapTypes → Result Error (ℕ × A) → Result Error ℕ
  result_size (k, t) (ok (size, _)) = ok size
  result_size (k, t) (err e) = do
    t_size ← X.type_size t
    k_size ← X.type_size k
    ok (add32 t_size k_size)

  -- `map_get` computes the length too; an error of that comes before the database's.
  unfoldable pub checked_size :
      {A : Type 0} → MapTypes → Result Error (ℕ × A) → Result Error (ℕ × A)
  checked_size {A} ts result = do _ ← result_size {A = A} ts result; result

  -- The state after an operation of the database, or the one before it.
  unfoldable pub state_after : X.State → Result Error (ℕ × (Value × X.State)) → X.State
  state_after g (ok (_, (_, g'))) = g'
  state_after g (err e) = g

  -- What `map_set`, `map_insert` and `map_delete` do with the database's result.
  unfoldable pub finish_entry :
      X.State → MapTypes → Result Error (ℕ × (Value × X.State)) → Result Error (ℕ × X.State)
  finish_entry g ts result = do
    size ← result_size {A = Value × X.State} ts result
    g' ← X.add_memory (state_after g result) size
    (_, (value, _)) ← result
    ok (as_flag value, g')

module _ (W : LinearMemory) (L : ClarityLibrary) (parse : List ℕ → Result Error TypeSignature)
    (X : GlobalContext) (c : ContractContext) where
  unfoldable pub map_get :
      W.Memory
      → X.State
      → (name_offset name_length key_offset key_length return_offset : ℕ) → Result Error (W.Memory)
  map_get m g name_offset name_length key_offset key_length return_offset = do
    map_name ← read_identifier_from_wasm W L parse m name_offset name_length
    (k, t) ← or_error (c.meta_data_map map_name) (no_such_map map_name)
    key ← read_argument W L k m key_offset key_length
    (_, value) ←
        checked_size X {A = Value} (k, t)
          (X.fetch_entry g c.contract_identifier map_name key (k, t))
    write_result W L (optional_type t) m return_offset value

  unfoldable pub map_set :
      W.Memory
      → X.State
      → (name_offset name_length key_offset key_length value_offset value_length : ℕ)
      → Result Error (ℕ × X.State)
  map_set m g name_offset name_length key_offset key_length value_offset value_length = do
    _ ← writable X g
    map_name ← read_identifier_from_wasm W L parse m name_offset name_length
    (k, t) ← or_error (c.meta_data_map map_name) (no_such_map map_name)
    key ← read_argument W L k m key_offset key_length
    value ← read_argument W L t m value_offset value_length
    finish_entry X g (k, t) (X.set_entry g c.contract_identifier map_name key value (k, t))

  unfoldable pub map_insert :
      W.Memory
      → X.State
      → (name_offset name_length key_offset key_length value_offset value_length : ℕ)
      → Result Error (ℕ × X.State)
  map_insert m g name_offset name_length key_offset key_length value_offset value_length = do
    _ ← writable X g
    map_name ← read_identifier_from_wasm W L parse m name_offset name_length
    (k, t) ← or_error (c.meta_data_map map_name) (no_such_map map_name)
    key ← read_argument W L k m key_offset key_length
    value ← read_argument W L t m value_offset value_length
    finish_entry X g (k, t) (X.insert_entry g c.contract_identifier map_name key value (k, t))

  unfoldable pub map_delete :
      W.Memory
      → X.State
      → (name_offset name_length key_offset key_length : ℕ) → Result Error (ℕ × X.State)
  map_delete m g name_offset name_length key_offset key_length = do
    _ ← writable X g
    map_name ← read_identifier_from_wasm W L parse m name_offset name_length
    (k, t) ← or_error (c.meta_data_map map_name) (no_such_map map_name)
    key ← read_argument W L k m key_offset key_length
    finish_entry X g (k, t) (X.delete_entry g c.contract_identifier map_name key (k, t))

  -- A map of keys of type `k` and values of type `t` outside of a read-only context; the key `a`
  -- and the value `v` stand in memory where `read_from_wasm_indirect` finds them, the database sets
  -- the entry, and the memory that it takes is allowed. Then `map_set` succeeds, with the database's
  -- answer and state, and `map_get` of that key in that state, with room for an optional of `t` at
  -- `return_offset` in a memory below 2 GiB, writes a memory from which `read_from_wasm_indirect`
  -- gets `(some v)`. Only the two stretches at `return_offset` change.
  pub map_get-map_set :
      {k t : TypeSignature} {a v r : Value} {n size : ℕ} {name : List ℕ} {g g' g'' : X.State}
      (m : W.Memory)
      (name_offset name_length key_offset key_length value_offset value_length return_offset : ℕ)
      → X.is_read_only g ≡ false
      → read_identifier_from_wasm W L parse m name_offset name_length ≡ ok name
      → c.meta_data_map name ≡ some (k, t)
      → read_from_wasm_indirect W L k m key_offset ≡ ok a
      → read_from_wasm_indirect W L t m value_offset ≡ ok v
      → X.set_entry g c.contract_identifier name a v (k, t) ≡ ok (size, (r, g'))
      → X.add_memory g' size ≡ ok g''
      → IsValueType t
      → Storable W L t v n
      → L.make_some v ≡ ok (some_value v)
      → return_offset + width (optional_type t) + n ≤ W.size m
      → W.size m < 2 ^ 31
      → (map_set m g name_offset name_length key_offset key_length value_offset value_length
          ≡ ok (as_flag r, g''))
        × (m' : W.Memory) × (map_get m g'' name_offset name_length key_offset key_length
              return_offset
            ≡ ok m')
        × Stored W m m' return_offset
            (width (optional_type t))
            (return_offset + width (optional_type t))
            n
            (λ m''. read_from_wasm_indirect W L (optional_type t) m'' return_offset)
            (some_value v)
  unfolding map_get map_set writable finish_entry checked_size result_size state_after
  map_get-map_set {k} {t} {name} {g''} m _ _ key_offset key_length value_offset value_length
        return_offset open_context named typed key_readable readable stored charged vt s some_v fits
        small =
      let (m', e, st) = write_result-Stored W L m return_offset vt (of_some some_v s) fits small in
      let key_read = read_argument-eq-indirect W L k m key_offset key_length key_readable in
      let value_read = read_argument-eq-indirect W L t m value_offset value_length readable in
      (
        rw (open_context, named, typed, key_read, value_read, stored, charged),
        m',
        rw (
          named,
          typed,
          key_read,
          X.fetch_entry-add_memory c.contract_identifier name _ (k, t) charged,
          X.fetch_entry-set_entry stored,
          e,
        ),
        st,
      )
