-- ===== src/Linker/Blocks/Properties.antt =====
-- The properties of blocks that a contract can ask for (clar2wasm/src/linker.rs), with what the
-- database has under each.
use clarity_wasm.Prelude.{
  ℕ, ◌^◌, List, Option, none, some, Result, ok, err, ltb, leb, if◌then◌else◌, length,
}
use clarity_wasm.Clarity.{
  TypeSignature, Value, StandardPrincipalData, uint_type, buffer_type, principal_type, uint, buffer,
  principal, standard,
}
use clarity_wasm.Wasm.Memory.{LinearMemory}
use clarity_wasm.Host.Errors.{Error}
use clarity_wasm.Host.Library.{ClarityLibrary}
use clarity_wasm.Linker.Blocks.Defs.{
  BlockDatabase, get_block_info_time_property, get_block_info_vrf_seed_property,
  get_block_info_header_hash_property, get_block_info_burnchain_header_hash_property,
  get_block_info_identity_header_hash_property, get_block_info_miner_address_property,
  get_block_info_miner_spend_winner_property, get_block_info_miner_spend_total_property,
  get_block_info_block_reward_property, get_stacks_block_info_time_property,
  get_stacks_block_info_header_hash_property, get_stacks_block_info_identity_header_hash_property,
  get_tenure_info_burnchain_header_hash_property, get_tenure_info_miner_address_property,
  get_tenure_info_time_property, get_tenure_info_vrf_seed_property,
  get_tenure_info_block_reward_property, get_tenure_info_miner_spend_total_property,
  get_tenure_info_miner_spend_winner_property, get_burn_block_info_header_hash_property,
}

-- A property that a contract can ask for.
pub data BlockProperty : Type 0 where
  block_info_time block_info_vrf_seed block_info_header_hash : BlockProperty
  block_info_burnchain_header_hash block_info_identity_header_hash block_info_miner_address :
      BlockProperty
  block_info_miner_spend_winner block_info_miner_spend_total block_info_block_reward : BlockProperty
  stacks_block_info_time stacks_block_info_header_hash stacks_block_info_identity_header_hash :
      BlockProperty
  tenure_info_burnchain_header_hash tenure_info_miner_address tenure_info_time : BlockProperty
  tenure_info_vrf_seed tenure_info_block_reward tenure_info_miner_spend_total : BlockProperty
  tenure_info_miner_spend_winner burn_block_info_header_hash : BlockProperty

-- A looked up value, with the type that it is written at.
abbrev pub Found : Type 0
Found = Option (TypeSignature × Value)

abbrev pub number : ℕ → Found
number n = some (uint_type, uint n)

abbrev pub bytes_of : List ℕ → Found
bytes_of bs = some (buffer_type (length bs), buffer bs)

abbrev pub address_of : StandardPrincipalData → Found
address_of a = some (principal_type, principal (standard a))

abbrev pub reward_of : Option ℕ → Found
reward_of none = none
reward_of (some n) = number n

abbrev pub header_hash_of : Option (List ℕ) → Found
header_hash_of none = none
header_hash_of (some bs) = some (buffer_type 32, buffer bs)

abbrev pub mapped : {A B : Type 0} → (A → B) → Result Error A → Result Error B
mapped f (ok a) = ok (f a)
mapped f (err e) = err e

module _ {G : Type 0} (D : BlockDatabase G) where
  -- What the database has under a property at a height.
  abbrev pub lookup : BlockProperty → G → ℕ → Result Error Found
  lookup block_info_time g h = mapped number (D.get_block_time g h)
  lookup block_info_vrf_seed g h = mapped bytes_of (D.get_block_vrf_seed g h)
  lookup block_info_header_hash g h = mapped bytes_of (D.get_block_header_hash g h)
  lookup block_info_burnchain_header_hash g h =
      mapped bytes_of (D.get_burnchain_block_header_hash g h)
  lookup block_info_identity_header_hash g h = mapped bytes_of (D.get_index_block_header_hash g h)
  lookup block_info_miner_address g h = mapped address_of (D.get_miner_address g h)
  lookup block_info_miner_spend_winner g h = mapped number (D.get_miner_spend_winner g h)
  lookup block_info_miner_spend_total g h = mapped number (D.get_miner_spend_total g h)
  lookup block_info_block_reward g h = mapped reward_of (D.get_block_reward g h)
  lookup stacks_block_info_time g h = mapped number (D.get_block_time g h)
  lookup stacks_block_info_header_hash g h = mapped bytes_of (D.get_block_header_hash g h)
  lookup stacks_block_info_identity_header_hash g h =
      mapped bytes_of (D.get_index_block_header_hash g h)
  lookup tenure_info_burnchain_header_hash g h =
      mapped bytes_of (D.get_burnchain_block_header_hash g h)
  lookup tenure_info_miner_address g h = mapped address_of (D.get_miner_address g h)
  lookup tenure_info_time g h = mapped number (D.get_burn_block_time g h)
  lookup tenure_info_vrf_seed g h = mapped bytes_of (D.get_block_vrf_seed g h)
  lookup tenure_info_block_reward g h = mapped reward_of (D.get_block_reward g h)
  lookup tenure_info_miner_spend_total g h = mapped number (D.get_miner_spend_total g h)
  lookup tenure_info_miner_spend_winner g h = mapped number (D.get_miner_spend_winner g h)
  lookup burn_block_info_header_hash g h =
      mapped header_hash_of (D.get_burnchain_block_header_hash_for_burnchain_height g h)

  -- The answer: nothing at a height that is not an earlier block's. A height of the burn chain is
  -- only looked up.
  abbrev pub answer : BlockProperty → G → ℕ → Result Error Found
  answer burn_block_info_header_hash g h =
      if ltb h (2 ^ 32) then lookup burn_block_info_header_hash g h else ok none
  answer p g h =
      if ltb h (2 ^ 32)
      then if leb (D.get_current_block_height g) h then ok none else lookup p g h
      else ok none

module _ (W : LinearMemory) (L : ClarityLibrary) {G : Type 0} (D : BlockDatabase G) where
  -- The host function of a property.
  abbrev pub get_property :
      BlockProperty
      → G
      → W.Memory
      → (height_lo height_hi return_offset : ℕ) → Result Error (W.Memory)
  get_property block_info_time = get_block_info_time_property W L D
  get_property block_info_vrf_seed = get_block_info_vrf_seed_property W L D
  get_property block_info_header_hash = get_block_info_header_hash_property W L D
  get_property block_info_burnchain_header_hash =
      get_block_info_burnchain_header_hash_property W L D
  get_property block_info_identity_header_hash = get_block_info_identity_header_hash_property W L D
  get_property block_info_miner_address = get_block_info_miner_address_property W L D
  get_property block_info_miner_spend_winner = get_block_info_miner_spend_winner_property W L D
  get_property block_info_miner_spend_total = get_block_info_miner_spend_total_property W L D
  get_property block_info_block_reward = get_block_info_block_reward_property W L D
  get_property stacks_block_info_time = get_stacks_block_info_time_property W L D
  get_property stacks_block_info_header_hash = get_stacks_block_info_header_hash_property W L D
  get_property stacks_block_info_identity_header_hash =
      get_stacks_block_info_identity_header_hash_property W L D
  get_property tenure_info_burnchain_header_hash =
      get_tenure_info_burnchain_header_hash_property W L D
  get_property tenure_info_miner_address = get_tenure_info_miner_address_property W L D
  get_property tenure_info_time = get_tenure_info_time_property W L D
  get_property tenure_info_vrf_seed = get_tenure_info_vrf_seed_property W L D
  get_property tenure_info_block_reward = get_tenure_info_block_reward_property W L D
  get_property tenure_info_miner_spend_total = get_tenure_info_miner_spend_total_property W L D
  get_property tenure_info_miner_spend_winner = get_tenure_info_miner_spend_winner_property W L D
  get_property burn_block_info_header_hash = get_burn_block_info_header_hash_property W L D
