-- ===== src/Datastore/Tests.antt =====
-- A store two blocks after the first, and a write to it.
use clarity_wasm.Prelude.{
  ◌≤◌, ◌≢◌, ℕ, ◌+◌, ◌≡◌, refl, ◌&&◌, some, ok, arith, add32, if◌then◌else◌, ◌==◌, ◌>>=◌,
}
use clarity_wasm.Datastore.Defs.{
  BlockId, insert, empty, Datastore, put, copy_store, get_data, new, insert_heights,
  advance_chain_tip,
}
use clarity_wasm.Datastore.Advance.{advance_chain_tip-get_data}
use clarity_wasm.Datastore.Put.{IsStore, get_data_at, put-get_data}

-- Ids for tests.
abbrev height_to_id : ℕ → BlockId
height_to_id h = h + 100

abbrev later : Datastore
later = record {
  store = insert 100 (insert 1 10 empty) empty;
  block_id_lookup = insert 102 100 (insert 101 100 (insert 100 100 empty));
  open_chain_tip = 102;
  current_chain_tip = 102;
  chain_height = 2;
  height_at_chain_tip = insert 102 2 (insert 101 1 (insert 100 0 empty));
}

later_made :
    (do
      s ← put 1 10 (new height_to_id)
      (height, s) ← advance_chain_tip height_to_id 2 s
      get_data 1 s)
    ≡ ok (some 10)
unfolding put copy_store new advance_chain_tip insert_heights get_data add32
later_made = refl

private_later : (p : BlockId) → later.block_id_lookup p ≡ some 102 → p ≡ 102
private_later p h = ground arith

later-IsStore : IsStore later
later-IsStore = record {
  own = 100;
  tip = refl;
  entries = insert 1 10 empty;
  stored = refl;
  private = private_later;
}

put-get_data_example :
    (s' : Datastore) × (put 2 20 later ≡ ok s')
    × IsStore s'
    × (s'.current_chain_tip ≡ s'.open_chain_tip)
    × (s'.open_chain_tip ≡ 102)
    × ((p : BlockId) (x : ℕ)
        → get_data_at p x s'
          ≡ (if (p == 102) && (x == 2) then ok (some 20) else get_data_at p x later))
put-get_data_example = put-get_data 2 20 later later-IsStore refl

apart_later : (j : ℕ) → 1 ≤ j → j ≤ 3 → 101 ≢ height_to_id (add32 2 j)
unfolding add32
apart_later j a b = omega arith

advance_chain_tip-get_data_example :
    (height : ℕ) × (s' : Datastore) × (advance_chain_tip height_to_id 3 later ≡ ok (height, s'))
    × (get_data_at (height_to_id (add32 2 2)) 1 s' ≡ get_data_at 102 1 later)
    × (get_data_at 101 1 s' ≡ get_data_at 101 1 later)
advance_chain_tip-get_data_example =
    advance_chain_tip-get_data height_to_id 3 later 100 2 1 101 refl (omega arith) (omega arith)
      apart_later
