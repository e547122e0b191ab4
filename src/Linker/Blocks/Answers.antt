-- ===== src/Linker/Blocks/Answers.antt =====
-- What the compiled contract reads after it asked for a property of a block
-- (clar2wasm/src/linker.rs).
use clarity_wasm.Prelude.{
  ℕ, List, Option, true, ◌+◌, ◌^◌, ◌≤◌, ◌<◌, ◌≡◌, refl, sym, subst, ◌∙◌, none, some, Result, ok,
  err, ◌>>=◌, ◌⊎◌, inl, inr, ltb, leb, if◌then◌else◌, Bool-cases,
}
use clarity_wasm.Clarity.{
  TypeSignature, IsValueType, uint_type, principal_type, optional_type, uint, principal, standard,
}
use clarity_wasm.Wasm.Memory.{LinearMemory}
use clarity_wasm.Host.Errors.{Error}
use clarity_wasm.Host.Library.{ClarityLibrary}
use clarity_wasm.Host.RoundTrip.Types.{width}
use clarity_wasm.Host.RoundTrip.Values.{Storable}
use clarity_wasm.Linker.Blocks.Defs.{
  BlockDatabase, wide, check_height_valid, if_valid, property_at, write_no_property, write_property,
  write_data, write_reward, get_block_info_time_property, get_block_info_vrf_seed_property,
  get_block_info_header_hash_property, get_block_info_burnchain_header_hash_property,
  get_block_info_identity_header_hash_property, get_block_info_miner_address_property,
  get_block_info_miner_spend_winner_property, get_block_info_miner_spend_total_property,
  get_block_info_block_reward_property, get_stacks_block_info_time_property,
  get_stacks_block_info_header_hash_property, get_stacks_block_info_identity_header_hash_property,
  get_tenure_info_burnchain_header_hash_property, get_tenure_info_miner_address_property,
  get_tenure_info_time_property, get_tenure_info_vrf_seed_property,
  get_tenure_info_block_reward_property, get_tenure_info_miner_spend_total_property,
  get_tenure_info_miner_spend_winner_property, get_burn_block_info_header_hash_property,
  write_header_hash,
}
use clarity_wasm.Linker.Blocks.Properties.{
  BlockProperty, Found, number, bytes_of, address_of, reward_of, mapped, answer, get_property,
  block_info_time, block_info_vrf_seed, block_info_header_hash, block_info_burnchain_header_hash,
  block_info_identity_header_hash, block_info_miner_address, block_info_miner_spend_winner,
  block_info_miner_spend_total, block_info_block_reward, stacks_block_info_time,
  stacks_block_info_header_hash, stacks_block_info_identity_header_hash,
  tenure_info_burnchain_header_hash, tenure_info_miner_address, tenure_info_time,
  tenure_info_vrf_seed, tenure_info_block_reward, tenure_info_miner_spend_total,
  tenure_info_miner_spend_winner, burn_block_info_header_hash, header_hash_of,
}
use clarity_wasm.Linker.Blocks.Writers.{
  as_value, TypedAt, Answered, Answering, write_no_property-Answered, write_number-Answering,
  write_address-Answering, write_data-Answering, write_reward-Answering,
  write_header_hash-Answering,
}

module _ (W : LinearMemory) (L : ClarityLibrary) {G : Type 0} (D : BlockDatabase G) where
  -- The answer from what is looked up.
  abbrev answer_of :
      {A : Type 0} → (A → Found) → (G → ℕ → Result Error A) → G → ℕ → Result Error Found
  answer_of f look g h =
      if ltb h (2 ^ 32)
      then if leb (D.get_current_block_height g) h then ok none else mapped f (look g h)
      else ok none

  -- The two outcomes of the check of a height.
  check_height_valid-cases :
      {A : Type 0} (f : A → Found) (look : G → ℕ → Result Error A) (g : G) (m : W.Memory)
      (lo hi ret : ℕ)
      → ((check_height_valid W L D g m lo hi ret
            ≡ (write_no_property W L m ret >>= λ m. ok (none, m)))
          × (answer_of f look g (wide lo hi) ≡ ok none))
        ⊎ ((check_height_valid W L D g m lo hi ret ≡ ok (some (wide lo hi), m))
            × (answer_of f look g (wide lo hi) ≡ mapped f (look g (wide lo hi))))
  unfolding check_height_valid
  check_height_valid-cases f look g m lo hi ret = elim (Bool-cases (ltb (wide lo hi) (2 ^ 32))) [
    | inl b ↦ elim (Bool-cases (leb (D.get_current_block_height g) (wide lo hi))) [
      | inl c ↦ inl (rw (b, c) refl, rw (b, c) refl)
      | inr c ↦ inr (rw (b, c) refl, rw (b, c) refl)
    ]
    | inr b ↦ inl (rw b refl, rw b refl)
  ]

  -- A successful lookup, from what it is mapped to.
  mapped-ok :
      {A : Type 0} (f : A → Found) (r : Result Error A) {o : Found}
      → mapped f r ≡ ok o
      → (a : A) × (r ≡ ok a) × (f a ≡ o)
  mapped-ok f (ok a) e = (a, refl, cc)
  mapped-ok f (err x) e = absurd (cc)

  property_at-Answered :
      {A : Type 0} (f : A → Found) (look : G → ℕ → Result Error A)
      (write : W.Memory → ℕ → A → Result Error (W.Memory)) (t : TypeSignature) {o : Found} {n : ℕ}
      (g : G) (m : W.Memory) (lo hi ret : ℕ)
      → Answering W L A write f
      → answer_of f look g (wide lo hi) ≡ ok o
      → IsValueType t
      → TypedAt t o
      → Storable W L (optional_type t) (as_value o) n
      → ret + width (optional_type t) + n ≤ W.size m
      → W.size m < 2 ^ 31
      → Answered W L t o n m ret (property_at W L D look write g m lo hi ret)
  unfolding property_at if_valid
  property_at-Answered f look write t {o} {n} g m lo hi ret ans a vt same s fits small =
      elim (check_height_valid-cases f look g m lo hi ret) [
        | inl (c, e) ↦
            let nothing : none ≡ o = cc in
            let (m', w, st) =
              subst
                (λ o.
                  Storable W L (optional_type t) (as_value o) n
                  → Answered W L t o n m ret (write_no_property W L m ret))
                nothing (λ s. write_no_property-Answered W L t m ret vt s fits small) s in
            (m', rw (c, w) refl, st)
        | inr (c, e) ↦
            let (r, l, q) = mapped-ok f (look g (wide lo hi)) (sym e ∙ a) in
            let (m', w, st) =
              subst
                (λ o.
                  TypedAt t o
                  → Storable W L (optional_type t) (as_value o) n
                  → Answered W L t o n m ret (write m ret r))
                q (λ same s. ans t r n m ret vt same s fits small) same s in
            (m', rw (c, l, w) refl, st)
      ]

  header_hash-run :
      (g : G) (m m' : W.Memory) (lo hi ret : ℕ) (r : Option (List ℕ))
      → ltb (wide lo hi) (2 ^ 32) ≡ true
      → D.get_burnchain_block_header_hash_for_burnchain_height g (wide lo hi) ≡ ok r
      → write_header_hash W L m ret r ≡ ok m'
      → get_burn_block_info_header_hash_property W L D g m lo hi ret ≡ ok m'
  unfolding get_burn_block_info_header_hash_property
  header_hash-run g m m' lo hi ret r b l w = rw (b, l, w) refl

  header_hash-Answered :
      (t : TypeSignature) {o : Found} {n : ℕ} (g : G) (m : W.Memory) (lo hi ret : ℕ)
      → answer D burn_block_info_header_hash g (wide lo hi) ≡ ok o
      → IsValueType t
      → TypedAt t o
      → Storable W L (optional_type t) (as_value o) n
      → ret + width (optional_type t) + n ≤ W.size m
      → W.size m < 2 ^ 31
      → Answered W L t o n m ret (get_burn_block_info_header_hash_property W L D g m lo hi ret)
  unfolding get_burn_block_info_header_hash_property
  header_hash-Answered t {o} {n} g m lo hi ret a vt same s fits small =
      let look = D.get_burnchain_block_header_hash_for_burnchain_height g (wide lo hi) in
      elim (Bool-cases (ltb (wide lo hi) (2 ^ 32))) [
        | inr b ↦
            let e : answer D burn_block_info_header_hash g (wide lo hi) ≡ ok none = rw b refl in
            let nothing : none ≡ o = cc in
            let (m', w, st) =
              subst
                (λ o.
                  Storable W L (optional_type t) (as_value o) n
                  → Answered W L t o n m ret (write_no_property W L m ret))
                nothing (λ s. write_no_property-Answered W L t m ret vt s fits small) s in
            (m', rw (b, w) refl, st)
        | inl b ↦
            let e : answer D burn_block_info_header_hash g (wide lo hi)
                ≡ mapped header_hash_of look =
              rw b refl in
            let (r, l, q) = mapped-ok header_hash_of look (sym e ∙ a) in
            let (m', w, st) =
              subst
                (λ o.
                  TypedAt t o
                  → Storable W L (optional_type t) (as_value o) n
                  → Answered W L t o n m ret (write_header_hash W L m ret r))
                q (λ same s. write_header_hash-Answering W L t r n m ret vt same s fits small) same
                s in
            (m', header_hash-run g m m' lo hi ret r b l w, st)
      ]

  -- For each property of `get-block-info?`, `get-stacks-block-info?` and `get-tenure-info?`, and for
  -- the header hash of `get-burn-block-info?`, at a height of two words: if the database gives the
  -- answer `o`, which is nothing at a height of 2 ^ 32 or more or, except for the burn block, one
  -- that no earlier block has, then the host function succeeds, with room for an optional of the property's
  -- type at `ret` in a memory below 2 GiB, and `read_from_wasm_indirect` gets `o` as an optional
  -- from what it writes. Only the two stretches at `ret` change.
  pub get_property-Answered :
      (p : BlockProperty) (t : TypeSignature) {o : Found} {n : ℕ} (g : G) (m : W.Memory)
      (lo hi ret : ℕ)
      → answer D p g (wide lo hi) ≡ ok o
      → IsValueType t
      → TypedAt t o
      → Storable W L (optional_type t) (as_value o) n
      → ret + width (optional_type t) + n ≤ W.size m
      → W.size m < 2 ^ 31
      → Answered W L t o n m ret (get_property W L D p g m lo hi ret)
  unfolding get_block_info_time_property get_block_info_vrf_seed_property
      get_block_info_header_hash_property get_block_info_burnchain_header_hash_property
      get_block_info_identity_header_hash_property get_block_info_miner_address_property
      get_block_info_miner_spend_winner_property get_block_info_miner_spend_total_property
      get_block_info_block_reward_property get_stacks_block_info_time_property
      get_stacks_block_info_header_hash_property get_stacks_block_info_identity_header_hash_property
      get_tenure_info_burnchain_header_hash_property get_tenure_info_miner_address_property
      get_tenure_info_time_property get_tenure_info_vrf_seed_property
      get_tenure_info_block_reward_property get_tenure_info_miner_spend_total_property
      get_tenure_info_miner_spend_winner_property
  get_property-Answered block_info_time t g m lo hi ret a vt same s fits small =
      property_at-Answered number D.get_block_time
        (λ m o k. write_property W L uint_type m o (uint k)) t g m lo hi ret
        (write_number-Answering W L) a vt same s fits small
  get_property-Answered block_info_vrf_seed t g m lo hi ret a vt same s fits small =
      property_at-Answered bytes_of D.get_block_vrf_seed (write_data W L) t g m lo hi ret
        (write_data-Answering W L) a vt same s fits small
  get_property-Answered block_info_header_hash t g m lo hi ret a vt same s fits small =
      property_at-Answered bytes_of D.get_block_header_hash (write_data W L) t g m lo hi ret
        (write_data-Answering W L) a vt same s fits small
  get_property-Answered block_info_burnchain_header_hash t g m lo hi ret a vt same s fits small =
      property_at-Answered bytes_of D.get_burnchain_block_header_hash (write_data W L) t g m lo hi
        ret (write_data-Answering W L) a vt same s fits small
  get_property-Answered block_info_identity_header_hash t g m lo hi ret a vt same s fits small =
      property_at-Answered bytes_of D.get_index_block_header_hash (write_data W L) t g m lo hi ret
        (write_data-Answering W L) a vt same s fits small
  get_property-Answered block_info_miner_address t g m lo hi ret a vt same s fits small =
      property_at-Answered address_of D.get_miner_address
        (λ m o a. write_property W L principal_type m o (principal (standard a))) t g m lo hi ret
        (write_address-Answering W L) a vt same s fits small
  get_property-Answered block_info_miner_spend_winner t g m lo hi ret a vt same s fits small =
      property_at-Answered number D.get_miner_spend_winner
        (λ m o k. write_property W L uint_type m o (uint k)) t g m lo hi ret
        (write_number-Answering W L) a vt same s fits small
  get_property-Answered block_info_miner_spend_total t g m lo hi ret a vt same s fits small =
      property_at-Answered number D.get_miner_spend_total
        (λ m o k. write_property W L uint_type m o (uint k)) t g m lo hi ret
        (write_number-Answering W L) a vt same s fits small
  get_property-Answered block_info_block_reward t g m lo hi ret a vt same s fits small =
      property_at-Answered reward_of D.get_block_reward (write_reward W L) t g m lo hi ret
        (write_reward-Answering W L) a vt same s fits small
  get_property-Answered stacks_block_info_time t g m lo hi ret a vt same s fits small =
      property_at-Answered number D.get_block_time
        (λ m o k. write_property W L uint_type m o (uint k)) t g m lo hi ret
        (write_number-Answering W L) a vt same s fits small
  get_property-Answered stacks_block_info_header_hash t g m lo hi ret a vt same s fits small =
      property_at-Answered bytes_of D.get_block_header_hash (write_data W L) t g m lo hi ret
        (write_data-Answering W L) a vt same s fits small
  get_property-Answered stacks_block_info_identity_header_hash t g m lo hi ret a vt same s fits
        small =
      property_at-Answered bytes_of D.get_index_block_header_hash (write_data W L) t g m lo hi ret
        (write_data-Answering W L) a vt same s fits small
  get_property-Answered tenure_info_burnchain_header_hash t g m lo hi ret a vt same s fits small =
      property_at-Answered bytes_of D.get_burnchain_block_header_hash (write_data W L) t g m lo hi
        ret (write_data-Answering W L) a vt same s fits small
  get_property-Answered tenure_info_miner_address t g m lo hi ret a vt same s fits small =
      property_at-Answered address_of D.get_miner_address
        (λ m o a. write_property W L principal_type m o (principal (standard a))) t g m lo hi ret
        (write_address-Answering W L) a vt same s fits small
  get_property-Answered tenure_info_time t g m lo hi ret a vt same s fits small =
      property_at-Answered number D.get_burn_block_time
        (λ m o k. write_property W L uint_type m o (uint k)) t g m lo hi ret
        (write_number-Answering W L) a vt same s fits small
  get_property-Answered tenure_info_vrf_seed t g m lo hi ret a vt same s fits small =
      property_at-Answered bytes_of D.get_block_vrf_seed (write_data W L) t g m lo hi ret
        (write_data-Answering W L) a vt same s fits small
  get_property-Answered tenure_info_block_reward t g m lo hi ret a vt same s fits small =
      property_at-Answered reward_of D.get_block_reward (write_reward W L) t g m lo hi ret
        (write_reward-Answering W L) a vt same s fits small
  get_property-Answered tenure_info_miner_spend_total t g m lo hi ret a vt same s fits small =
      property_at-Answered number D.get_miner_spend_total
        (λ m o k. write_property W L uint_type m o (uint k)) t g m lo hi ret
        (write_number-Answering W L) a vt same s fits small
  get_property-Answered burn_block_info_header_hash t g m lo hi ret a vt same s fits small =
      header_hash-Answered t g m lo hi ret a vt same s fits small
  get_property-Answered tenure_info_miner_spend_winner t g m lo hi ret a vt same s fits small =
      property_at-Answered number D.get_miner_spend_winner
        (λ m o k. write_property W L uint_type m o (uint k)) t g m lo hi ret
        (write_number-Answering W L) a vt same s fits small
