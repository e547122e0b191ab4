-- ===== src/Datastore/Defs.antt =====
-- The state of `Datastore` and its methods, of clar2wasm/src/datastore.rs. A `HashMap` is a function;
-- block ids and strings are only compared, so they are numbers. The id of a height, a hash, is a
-- parameter.
use clarity_wasm.Prelude.{
  ℕ, zero, suc, Option, none, some, Result, ok, err, ◌>>=◌, if◌then◌else◌, ◌==◌, add32, ◌-◌, ◌^◌,
  List, [], ◌∷◌,
}

-- `panic` stands for `expect` and `panic!`; the others are those of `InterpreterError::Expect`.
pub data StoreError : Type 0 where
  panic tip_not_found block_not_found : StoreError

abbrev pub BlockId : Type 0
BlockId = ℕ

abbrev pub Map : Type 0 → Type 0
Map V = ℕ → Option V

abbrev pub insert : {V : Type 0} → ℕ → V → Map V → Map V
insert k v f x = if x == k then some v else f x

abbrev pub empty : {V : Type 0} → Map V
empty x = none

abbrev pub or_else {ℓ} : {A : Type ℓ} → Option A → StoreError → Result StoreError A
or_else none e = err e
or_else (some a) e = ok a

pub record Datastore : Type 0 where
  pub store : Map (Map ℕ)
  pub block_id_lookup : Map BlockId
  pub open_chain_tip : BlockId
  pub current_chain_tip : BlockId
  pub chain_height : ℕ
  pub height_at_chain_tip : Map ℕ

-- If there is no store for the open chain tip, it gets a copy of the one that it reads from.
unfoldable pub copy_store : BlockId → Datastore → Result StoreError Datastore
copy_store lookup_id s = if lookup_id == s.open_chain_tip then ok s else (do
  entries ← or_else (s.store lookup_id) panic
  ok (record s {
    store = insert s.open_chain_tip entries s.store;
    block_id_lookup = insert s.open_chain_tip s.current_chain_tip s.block_id_lookup;
  }))

unfoldable pub put : (key value : ℕ) → Datastore → Result StoreError Datastore
put key value s = do
  lookup_id ← or_else (s.block_id_lookup s.open_chain_tip) panic
  s ← copy_store lookup_id s
  entries ← or_else (s.store s.open_chain_tip) panic
  ok (record s { store = insert s.open_chain_tip (insert key value entries) s.store })

unfoldable pub put_all_data : List (ℕ × ℕ) → Datastore → Result StoreError Datastore
put_all_data [] s = ok s
put_all_data ((key, value) ∷ items) s = do s ← put key value s; put_all_data items s

unfoldable pub get_data : ℕ → Datastore → Result StoreError (Option ℕ)
get_data key s = do
  lookup_id ← or_else (s.block_id_lookup s.current_chain_tip) tip_not_found
  entries ← or_else (s.store lookup_id) block_not_found
  ok (entries key)

-- The prior open chain tip, and the new state.
unfoldable pub set_block_hash : BlockId → Datastore → BlockId × Datastore
set_block_hash bhh s = (s.open_chain_tip, record s { current_chain_tip = bhh })

unfoldable pub get_current_block_height : Datastore → ℕ
get_current_block_height s = elim (s.height_at_chain_tip s.current_chain_tip) [
  | none ↦ 2 ^ 32 - 1
  | some h ↦ h
]

module _ (height_to_id : ℕ → BlockId) where
  unfoldable pub new : Datastore
  new =
      let id = height_to_id 0 in
      record {
        store = insert id empty empty;
        block_id_lookup = insert id id empty;
        open_chain_tip = id;
        current_chain_tip = id;
        chain_height = 0;
        height_at_chain_tip = insert id 0 empty;
      }

  -- The loop over the new heights, from the first one on.
  unfoldable pub insert_heights : (lookup_id cur_height count : ℕ) → Datastore → Datastore
  insert_heights lookup_id cur_height zero s = s
  insert_heights lookup_id cur_height (suc i) s =
      let s' = insert_heights lookup_id cur_height i s in
      let height = add32 cur_height (suc i) in
      record s' {
        block_id_lookup = insert (height_to_id height) lookup_id s'.block_id_lookup;
        height_at_chain_tip = insert (height_to_id height) height s'.height_at_chain_tip;
      }

  unfoldable pub advance_chain_tip : ℕ → Datastore → Result StoreError (ℕ × Datastore)
  advance_chain_tip count s = do
    current_lookup_id ← or_else (s.block_id_lookup s.open_chain_tip) panic
    let s' = insert_heights current_lookup_id s.chain_height count s
    let height = add32 s.chain_height count
    ok (
      height,
      record s' {
        chain_height = height;
        open_chain_tip = height_to_id height;
        current_chain_tip = height_to_id height;
      },
    )
