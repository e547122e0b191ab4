-- ===== src/Linker/Blocks/Defs.antt =====
-- `check_height_valid` and the functions of `get-block-info?`, `get-stacks-block-info?`,
-- `get-tenure-info?` and of the header hash of `get-burn-block-info?` (clar2wasm/src/linker.rs).
use clarity_wasm.Prelude.{
  ℕ, ◌+◌, ◌*◌, ◌^◌, List, Option, none, some, false, Result, ok, ◌>>=◌, ltb, leb, if◌then◌else◌,
  length,
}
use clarity_wasm.Clarity.{
  TypeSignature, Value, StandardPrincipalData, uint_type, bool_type, buffer_type, principal_type,
  optional_type, uint, bool, buffer, principal, standard, none_value,
}
use clarity_wasm.Wasm.Memory.{LinearMemory}
use clarity_wasm.Host.Errors.{Error}
use clarity_wasm.Host.Library.{ClarityLibrary}
use clarity_wasm.Linker.Reading.{write_result}

-- What these functions read of the `ClarityDatabase`. Hashes come as their 32 bytes.
pub record BlockDatabase (G : Type 0) : Type 0 where
  pub get_current_block_height : G → ℕ
  pub get_block_time : G → ℕ → Result Error ℕ
  -- with no block id given
  pub get_burn_block_time : G → ℕ → Result Error ℕ
  pub get_block_vrf_seed : G → ℕ → Result Error (List ℕ)
  pub get_block_header_hash : G → ℕ → Result Error (List ℕ)
  pub get_burnchain_block_header_hash : G → ℕ → Result Error (List ℕ)
  pub get_index_block_header_hash : G → ℕ → Result Error (List ℕ)
  pub get_miner_address : G → ℕ → Result Error StandardPrincipalData
  pub get_miner_spend_winner : G → ℕ → Result Error ℕ
  pub get_miner_spend_total : G → ℕ → Result Error ℕ
  pub get_block_reward : G → ℕ → Result Error (Option ℕ)
  pub get_burnchain_block_header_hash_for_burnchain_height : G → ℕ → Result Error (Option (List ℕ))

-- `(hi as u128) << 64 | lo as u64`, of two words.
unfoldable pub wide : ℕ → ℕ → ℕ
wide lo hi = hi * 2 ^ 64 + lo

module _ (W : LinearMemory) (L : ClarityLibrary) where
  -- A 0 in the return buffer, for `none`.
  unfoldable pub write_no_property : W.Memory → ℕ → Result Error (W.Memory)
  write_no_property m return_offset = write_result W L bool_type m return_offset (bool false)

  unfoldable pub write_property : TypeSignature → W.Memory → ℕ → Value → Result Error (W.Memory)
  write_property result_ty m return_offset result = do
    value ← L.make_some result
    write_result W L (optional_type result_ty) m return_offset value

  -- A buffer type of the data's length.
  unfoldable pub write_data : W.Memory → ℕ → List ℕ → Result Error (W.Memory)
  write_data m return_offset data_bytes =
      write_property (buffer_type (length data_bytes)) m return_offset (buffer data_bytes)

  unfoldable pub write_reward : W.Memory → ℕ → Option ℕ → Result Error (W.Memory)
  write_reward m return_offset none = write_no_property m return_offset
  write_reward m return_offset (some x) = write_property uint_type m return_offset (uint x)

  unfoldable pub write_header_hash : W.Memory → ℕ → Option (List ℕ) → Result Error (W.Memory)
  write_header_hash m return_offset none =
      write_result W L (optional_type (buffer_type 32)) m return_offset none_value
  write_header_hash m return_offset (some data_bytes) = do
    value ← L.make_some (buffer data_bytes)
    write_result W L (optional_type (buffer_type 32)) m return_offset value

module _ (W : LinearMemory) (L : ClarityLibrary) {G : Type 0} (D : BlockDatabase G) where
  -- The height, if it is one of an earlier block; `none` is written already if it is not.
  unfoldable pub check_height_valid :
      G → W.Memory → (height_lo height_hi return_offset : ℕ) → Result Error (Option ℕ × W.Memory)
  check_height_valid g m height_lo height_hi return_offset =
      let height = wide height_lo height_hi in
      let invalid = (do m ← write_no_property W L m return_offset; ok (none, m)) in
      if ltb height (2 ^ 32)
      then if leb (D.get_current_block_height g) height then invalid else ok (some height, m)
      else invalid

  -- `if let Some(height_value) = check_height_valid(...)? { ... } Ok(())`
  unfoldable pub if_valid :
      Option ℕ × W.Memory → (ℕ → W.Memory → Result Error (W.Memory)) → Result Error (W.Memory)
  if_valid (none, m) body = ok m
  if_valid (some height_value, m) body = body height_value m

  -- One property, from how it is looked up and how it is written.
  unfoldable pub property_at :
      {A : Type 0}
      → (G → ℕ → Result Error A)
      → (W.Memory → ℕ → A → Result Error (W.Memory))
      → G
      → W.Memory
      → (height_lo height_hi return_offset : ℕ) → Result Error (W.Memory)
  property_at {A} lookup write g m height_lo height_hi return_offset = do
    checked ← check_height_valid g m height_lo height_hi return_offset
    if_valid checked (λ height_value m. do a ← lookup g height_value; write m return_offset a)

  -- The functions of the linker, one for each property.
  abbrev pub Property : Type 0
  Property = G → W.Memory → (height_lo height_hi return_offset : ℕ) → Result Error (W.Memory)

  unfoldable pub get_block_info_time_property : Property
  get_block_info_time_property =
      property_at D.get_block_time (λ m o t. write_property W L uint_type m o (uint t))

  unfoldable pub get_block_info_vrf_seed_property : Property
  get_block_info_vrf_seed_property = property_at D.get_block_vrf_seed (write_data W L)

  unfoldable pub get_block_info_header_hash_property : Property
  get_block_info_header_hash_property = property_at D.get_block_header_hash (write_data W L)

  unfoldable pub get_block_info_burnchain_header_hash_property : Property
  get_block_info_burnchain_header_hash_property =
      property_at D.get_burnchain_block_header_hash (write_data W L)

  unfoldable pub get_block_info_identity_header_hash_property : Property
  get_block_info_identity_header_hash_property =
      property_at D.get_index_block_header_hash (write_data W L)

  unfoldable pub get_block_info_miner_address_property : Property
  get_block_info_miner_address_property =
      property_at D.get_miner_address
        (λ m o a. write_property W L principal_type m o (principal (standard a)))

  unfoldable pub get_block_info_miner_spend_winner_property : Property
  get_block_info_miner_spend_winner_property =
      property_at D.get_miner_spend_winner (λ m o t. write_property W L uint_type m o (uint t))

  unfoldable pub get_block_info_miner_spend_total_property : Property
  get_block_info_miner_spend_total_property =
      property_at D.get_miner_spend_total (λ m o t. write_property W L uint_type m o (uint t))

  unfoldable pub get_block_info_block_reward_property : Property
  get_block_info_block_reward_property = property_at D.get_block_reward (write_reward W L)

  unfoldable pub get_stacks_block_info_time_property : Property
  get_stacks_block_info_time_property =
      property_at D.get_block_time (λ m o t. write_property W L uint_type m o (uint t))

  unfoldable pub get_stacks_block_info_header_hash_property : Property
  get_stacks_block_info_header_hash_property = property_at D.get_block_header_hash (write_data W L)

  unfoldable pub get_stacks_block_info_identity_header_hash_property : Property
  get_stacks_block_info_identity_header_hash_property =
      property_at D.get_index_block_header_hash (write_data W L)

  unfoldable pub get_tenure_info_burnchain_header_hash_property : Property
  get_tenure_info_burnchain_header_hash_property =
      property_at D.get_burnchain_block_header_hash (write_data W L)

  unfoldable pub get_tenure_info_miner_address_property : Property
  get_tenure_info_miner_address_property =
      property_at D.get_miner_address
        (λ m o a. write_property W L principal_type m o (principal (standard a)))

  unfoldable pub get_tenure_info_time_property : Property
  get_tenure_info_time_property =
      property_at D.get_burn_block_time (λ m o t. write_property W L uint_type m o (uint t))

  unfoldable pub get_tenure_info_vrf_seed_property : Property
  get_tenure_info_vrf_seed_property = property_at D.get_block_vrf_seed (write_data W L)

  unfoldable pub get_tenure_info_block_reward_property : Property
  get_tenure_info_block_reward_property = property_at D.get_block_reward (write_reward W L)

  unfoldable pub get_tenure_info_miner_spend_total_property : Property
  get_tenure_info_miner_spend_total_property =
      property_at D.get_miner_spend_total (λ m o t. write_property W L uint_type m o (uint t))

  unfoldable pub get_tenure_info_miner_spend_winner_property : Property
  get_tenure_info_miner_spend_winner_property =
      property_at D.get_miner_spend_winner (λ m o t. write_property W L uint_type m o (uint t))

  unfoldable pub get_burn_block_info_header_hash_property : Property
  get_burn_block_info_header_hash_property g m height_lo height_hi return_offset =
      let height = wide height_lo height_hi in
      let found = (do
        hash ← D.get_burnchain_block_header_hash_for_burnchain_height g height
        write_header_hash W L m return_offset hash) in
      if ltb height (2 ^ 32) then found else write_no_property W L m return_offset
