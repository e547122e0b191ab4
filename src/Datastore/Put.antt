-- ===== src/Datastore/Put.antt =====
-- What a write to the `Datastore` of clar2wasm/src/datastore.rs changes, for reads from every block.
use clarity_wasm.Prelude.{
  ℕ, ◌≡◌, refl, true, false, ◌&&◌, Option, some, Result, ok, if◌then◌else◌, ◌==◌, Bool-cases,
  Option-cases, inl, inr, arith,
}
use clarity_wasm.Datastore.Defs.{
  StoreError, BlockId, Map, insert, Datastore, copy_store, put, get_data, set_block_hash,
}

-- The open chain tip reads from a store, its own or that of an earlier block; no other block reads
-- from its own.
pub record IsStore (s : Datastore) : Type 0 where
  pub own : BlockId
  pub tip : s.block_id_lookup s.open_chain_tip ≡ some own
  pub entries : Map ℕ
  pub stored : s.store own ≡ some entries
  pub private : (p : BlockId) → s.block_id_lookup p ≡ some s.open_chain_tip → p ≡ s.open_chain_tip

==_refl : (a : ℕ) → (a == a) ≡ true
==_refl a = ground arith

eq_of : (a b : ℕ) → (a == b) ≡ true → a ≡ b
eq_of a b h = ground arith

-- A read from the block `p`.
abbrev pub get_data_at : BlockId → ℕ → Datastore → Result StoreError (Option ℕ)
get_data_at p key s = get_data key (set_block_hash p s).1

module _ (key value : ℕ) (s : Datastore) (h : IsStore s) where
  -- The read that a write should leave.
  abbrev pub read_after : BlockId → ℕ → Result StoreError (Option ℕ)
  read_after p x =
      if (p == s.open_chain_tip) && (x == key) then ok (some value) else get_data_at p x s

  -- A state where the open tip has its own store, with the entry.
  module _ (s' : Datastore)
      (lookup : (p : BlockId)
        → s'.block_id_lookup p
          ≡ (if p == s.open_chain_tip then some s.open_chain_tip else s.block_id_lookup p))
      (stores : (l : BlockId)
        → s'.store l
          ≡ (if l == s.open_chain_tip then some (insert key value h.entries) else s.store l)) where
    at_tip : (x : ℕ) → get_data_at s.open_chain_tip x s' ≡ read_after s.open_chain_tip x
    unfolding get_data set_block_hash
    at_tip x = elim (Bool-cases (x == key)) [
      | inl y ↦
          rw
            (
              lookup s.open_chain_tip,
              ==_refl s.open_chain_tip,
              stores s.open_chain_tip,
              ==_refl s.open_chain_tip,
              h.tip,
              h.stored,
              y,
            )
            refl
      | inr z ↦
          rw
            (
              lookup s.open_chain_tip,
              ==_refl s.open_chain_tip,
              stores s.open_chain_tip,
              ==_refl s.open_chain_tip,
              h.tip,
              h.stored,
              z,
            )
            refl
    ]

    elsewhere :
        (p : BlockId) (x : ℕ)
        → (p == s.open_chain_tip) ≡ false
        → get_data_at p x s' ≡ get_data_at p x s
    unfolding get_data set_block_hash
    elsewhere p x e = elim (Option-cases (s.block_id_lookup p)) [
      | inl n ↦ rw (lookup p, e, n) refl
      | inr (l, f) ↦ elim (Bool-cases (l == s.open_chain_tip)) [
        | inl y ↦
            (let q = h.private p (rw (eq_of l s.open_chain_tip y) at f) in absurd (ground arith))
        | inr z ↦ rw (lookup p, e, f, stores l, z) refl
      ]
    ]

    after_write : (p : BlockId) (x : ℕ) → get_data_at p x s' ≡ read_after p x
    after_write p x = elim (Bool-cases (p == s.open_chain_tip)) [
      | inl y ↦ rw (eq_of p s.open_chain_tip y) (at_tip x)
      | inr z ↦ rw z (elsewhere p x z)
    ]

    still_IsStore : s'.open_chain_tip ≡ s.open_chain_tip → IsStore s'
    still_IsStore e = record {
      own = s.open_chain_tip;
      tip = rw (e, lookup s.open_chain_tip, ==_refl s.open_chain_tip) refl;
      entries = insert key value h.entries;
      stored = rw (stores s.open_chain_tip, ==_refl s.open_chain_tip) refl;
      private = λ p f. rw e (elim (Bool-cases (p == s.open_chain_tip)) [
        | inl y ↦ eq_of p s.open_chain_tip y
        | inr z ↦ h.private p (rw (lookup p, z, e) at f)
      ]);
    }

  -- The tip has its own store.
  abbrev written : Datastore
  written = record s { store = insert s.open_chain_tip (insert key value h.entries) s.store }

  written_lookup :
      (p : BlockId)
      → (h.own == s.open_chain_tip) ≡ true
      → s.block_id_lookup p
        ≡ (if p == s.open_chain_tip then some s.open_chain_tip else s.block_id_lookup p)
  written_lookup p y = elim (Bool-cases (p == s.open_chain_tip)) [
    | inl e ↦ rw (e, eq_of p s.open_chain_tip e, h.tip, eq_of h.own s.open_chain_tip y) refl
    | inr e ↦ rw e refl
  ]

  -- The tip gets a copy.
  abbrev copied : Datastore
  copied = record s {
    store =
        insert s.open_chain_tip (insert key value h.entries)
          (insert s.open_chain_tip h.entries s.store);
    block_id_lookup = insert s.open_chain_tip s.current_chain_tip s.block_id_lookup;
  }

  copied_store :
      (l : BlockId)
      → copied.store l
        ≡ (if l == s.open_chain_tip then some (insert key value h.entries) else s.store l)
  copied_store l = elim (Bool-cases (l == s.open_chain_tip)) [
    | inl e ↦ rw e refl
    | inr e ↦ rw e refl
  ]

  -- In a well-formed store whose current chain tip is the open one, a write succeeds and leaves a
  -- well-formed store with the same tips. After it, a read of the key from the open tip gives the
  -- value, and every other read, of any key from any block, gives what it gave before.
  pub put-get_data :
      s.current_chain_tip ≡ s.open_chain_tip
      → (s' : Datastore) × (put key value s ≡ ok s')
        × IsStore s'
        × (s'.current_chain_tip ≡ s'.open_chain_tip)
        × (s'.open_chain_tip ≡ s.open_chain_tip)
        × ((p : BlockId) (x : ℕ) → get_data_at p x s' ≡ read_after p x)
  unfolding put copy_store
  put-get_data c = elim (Bool-cases (h.own == s.open_chain_tip)) [
    | inl y ↦ (
      written,
      rw (h.tip, y, rw (eq_of h.own s.open_chain_tip y) at h.stored) refl,
      still_IsStore written (λ p. written_lookup p y) (λ l. refl) refl,
      c,
      refl,
      after_write written (λ p. written_lookup p y) (λ l. refl),
    )
    | inr z ↦ (
      copied,
      rw (h.tip, z, h.stored, ==_refl s.open_chain_tip) refl,
      still_IsStore copied (λ p. rw c refl) copied_store refl,
      c,
      refl,
      after_write copied (λ p. rw c refl) copied_store,
    )
  ]
