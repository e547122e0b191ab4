-- ===== src/Datastore/Advance.antt =====
-- What `advance_chain_tip` of clar2wasm/src/datastore.rs does to reads from old and new blocks.
use clarity_wasm.Prelude.{
  ℕ, zero, suc, ◌≤◌, ◌≡◌, ◌≢◌, refl, false, some, ok, ◌==◌, Bool-cases, inl, inr, arith, add32,
}
use clarity_wasm.Datastore.Defs.{
  BlockId, Datastore, get_data, set_block_hash, insert_heights, advance_chain_tip,
}
use clarity_wasm.Datastore.Put.{get_data_at}

module _ (height_to_id : ℕ → BlockId) (lookup_id cur : ℕ) (s : Datastore) where
  -- The state of the loop.
  abbrev looped : ℕ → Datastore
  looped k = insert_heights height_to_id lookup_id cur k s

  looped_store : (k : ℕ) → (looped k).store ≡ s.store
  unfolding insert_heights
  looped_store zero = refl
  looped_store (suc k) = looped_store k

  looped_new :
      (k i : ℕ)
      → 1 ≤ i
      → i ≤ k
      → (looped k).block_id_lookup (height_to_id (add32 cur i)) ≡ some lookup_id
  unfolding insert_heights
  looped_new zero i h l = absurd (omega arith)
  looped_new (suc k) i h l =
      elim (Bool-cases (height_to_id (add32 cur i) == height_to_id (add32 cur (suc k)))) [
        | inl y ↦ rw y refl
        | inr z ↦ rw z (looped_new k i h (last z))
      ]
    where
      last : (height_to_id (add32 cur i) == height_to_id (add32 cur (suc k))) ≡ false → i ≤ k
      last z = elim (Bool-cases (i == suc k)) [
        | inl y ↦ (let e : i ≡ suc k = ground arith in absurd (ground arith))
        | inr n ↦ ground arith
      ]

  looped_old :
      (k : ℕ) (p : BlockId)
      → ((i : ℕ) → 1 ≤ i → i ≤ k → p ≢ height_to_id (add32 cur i))
      → (looped k).block_id_lookup p ≡ s.block_id_lookup p
  unfolding insert_heights
  looped_old zero p h = refl
  looped_old (suc k) p h = elim (Bool-cases (p == height_to_id (add32 cur (suc k)))) [
    | inl y ↦ absurd (h (suc k) (omega arith) (omega arith) (ground arith))
    | inr z ↦ rw z (looped_old k p (λ i a b. h i a (omega arith)))
  ]

module _ (height_to_id : ℕ → BlockId) (count : ℕ) (s : Datastore) (lookup_id : BlockId) where
  abbrev advanced : Datastore
  advanced = record (looped height_to_id lookup_id s.chain_height s count) {
    chain_height = add32 s.chain_height count;
    open_chain_tip = height_to_id (add32 s.chain_height count);
    current_chain_tip = height_to_id (add32 s.chain_height count);
  }

  -- Where the open chain tip has a lookup, `advance_chain_tip` succeeds. Then a read of `x` from any
  -- of the `count` new blocks gives what it gave from the open tip before, and a read from a block
  -- `p` whose id is not one of theirs gives what it gave before.
  pub advance_chain_tip-get_data :
      (i x : ℕ) (p : BlockId)
      → s.block_id_lookup s.open_chain_tip ≡ some lookup_id
      → 1 ≤ i
      → i ≤ count
      → ((j : ℕ) → 1 ≤ j → j ≤ count → p ≢ height_to_id (add32 s.chain_height j))
      → (height : ℕ) × (s' : Datastore) × (advance_chain_tip height_to_id count s ≡ ok (height, s'))
        × (get_data_at (height_to_id (add32 s.chain_height i)) x s'
            ≡ get_data_at s.open_chain_tip x s)
        × (get_data_at p x s' ≡ get_data_at p x s)
  unfolding advance_chain_tip get_data set_block_hash
  advance_chain_tip-get_data i x p e a b h = (
    add32 s.chain_height count,
    advanced,
    rw e refl,
    rw
        (
          looped_new height_to_id lookup_id s.chain_height s count i a b,
          looped_store height_to_id lookup_id s.chain_height s count,
          e,
        )
        refl,
    rw
        (
          looped_old height_to_id lookup_id s.chain_height s count p h,
          looped_store height_to_id lookup_id s.chain_height s count,
        )
        refl,
  )
