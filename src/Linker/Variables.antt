-- ===== src/Linker/Variables.antt =====
-- `get_variable` and `set_variable` of clar2wasm/src/linker.rs.
use clarity_wasm.Prelude.{ℕ, ◌+◌, ◌≤◌, ◌<◌, ◌^◌, ◌≡◌, List, some, Result, ok, ◌>>=◌}
use clarity_wasm.Clarity.{TypeSignature, Value, IsValueType}
use clarity_wasm.Wasm.Memory.{LinearMemory}
use clarity_wasm.Host.Errors.{Error, no_such_data_variable, or_error}
use clarity_wasm.Host.Library.{ClarityLibrary}
use clarity_wasm.Host.Read.{read_from_wasm_indirect}
use clarity_wasm.Host.RoundTrip.Stored.{Stored}
use clarity_wasm.Host.RoundTrip.Types.{width}
use clarity_wasm.Host.RoundTrip.Values.{Storable}
use clarity_wasm.Runtime.Resolve.{read_identifier_from_wasm}
use clarity_wasm.Linker.Context.{GlobalContext, ContractContext}
use clarity_wasm.Linker.Reading.{
  read_argument, write_result, read_argument-eq-indirect, write_result-Stored,
}

module _ (W : LinearMemory) (L : ClarityLibrary) (parse : List ℕ → Result Error TypeSignature)
    (X : GlobalContext) (c : ContractContext) where
  unfoldable pub get_variable :
      W.Memory → X.State → (name_offset name_length return_offset : ℕ) → Result Error (W.Memory)
  get_variable m g name_offset name_length return_offset = do
    var_name ← read_identifier_from_wasm W L parse m name_offset name_length
    t ← or_error (c.meta_data_var var_name) (no_such_data_variable var_name)
    fetch_result ← X.get_value g c.contract_identifier var_name t
    value ← or_error fetch_result (no_such_data_variable var_name)
    write_result W L t m return_offset value

  unfoldable pub set_variable :
      W.Memory
      → X.State
      → (name_offset name_length value_offset value_length : ℕ) → Result Error (X.State)
  set_variable m g name_offset name_length value_offset value_length = do
    var_name ← read_identifier_from_wasm W L parse m name_offset name_length
    t ← or_error (c.meta_data_var var_name) (no_such_data_variable var_name)
    value ← read_argument W L t m value_offset value_length
    X.set_variable g c.contract_identifier var_name value t

  -- A variable of type `t` and a value `v` of that type stand in memory, the value where
  -- `read_from_wasm_indirect` finds it, and the database stores it. Then `set_variable` succeeds
  -- with the database's state, and `get_variable` in that state, with room for the value at
  -- `return_offset` in a memory below 2 GiB, writes a memory from which `read_from_wasm_indirect`
  -- gets `v` back. Only the two stretches at `return_offset` change.
  pub get_variable-set_variable :
      {t : TypeSignature} {v : Value} {n : ℕ} {name : List ℕ} {g g' : X.State} (m : W.Memory)
      (name_offset name_length value_offset value_length return_offset : ℕ)
      → read_identifier_from_wasm W L parse m name_offset name_length ≡ ok name
      → c.meta_data_var name ≡ some t
      → read_from_wasm_indirect W L t m value_offset ≡ ok v
      → X.set_variable g c.contract_identifier name v t ≡ ok g'
      → IsValueType t
      → Storable W L t v n
      → return_offset + width t + n ≤ W.size m
      → W.size m < 2 ^ 31
      → (set_variable m g name_offset name_length value_offset value_length ≡ ok g')
        × (m' : W.Memory) × (get_variable m g' name_offset name_length return_offset ≡ ok m')
        × Stored W m m' return_offset
            (width t)
            (return_offset + width t)
            n
            (λ m''. read_from_wasm_indirect W L t m'' return_offset)
            v
  unfolding get_variable set_variable
  get_variable-set_variable {t} m _ _ value_offset value_length return_offset named typed readable
        stored vt s fits small =
      let (m', e, st) = write_result-Stored W L m return_offset vt s fits small in
      (
        rw (
          named,
          typed,
          read_argument-eq-indirect W L t m value_offset value_length readable,
          stored,
        ),
        m',
        rw (named, typed, X.get_value-set_variable stored, e),
        st,
      )
