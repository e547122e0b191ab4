-- ===== src/Linker/Calls/BlockTests.antt =====
-- Block 3 is entered from block 9, and left, with the key-value store of
-- clar2wasm/src/datastore.rs as the database.
use clarity_wasm.Prelude.{
  ℕ, zero, suc, some, ◌+◌, ◌-◌, ◌≡◌, refl, sym, ap, Bool, true, false, List, [], ◌∷◌, none, Result,
  ok, err, replicate, arith,
}
use clarity_wasm.Clarity.{TypeSignature, PrincipalData, standard, uint, buffer, buffer_type}
use clarity_wasm.Wasm.ByteMemory.{byte_memory}
use clarity_wasm.Host.Errors.{Error, panic}
use clarity_wasm.Host.Access.{read_usize, read_mem}
use clarity_wasm.Host.Read.{read_from_wasm}
use clarity_wasm.Host.Library.{accepting}
use clarity_wasm.Linker.Caller.Defs.{ClarityWasmContext, Event, push_at_block}
use clarity_wasm.Datastore.Defs.{Datastore, set_block_hash, empty}
use clarity_wasm.Linker.Calls.Defs.{
  CallDatabase, Global, with_global, enter_at_block, exit_at_block, bytes_of_hash,
}
use clarity_wasm.Linker.Calls.AtBlock.{
  View, AtBlockLaws, Entered, Left, exit_at_block-enter_at_block,
}

abbrev alice : PrincipalData
alice = standard (record { version = 22; hash = replicate 20 1 })

-- The repository's own key-value store, whether it reads pending data, the memory in use, and how many
-- contexts are open.
abbrev Chain : Type 0
Chain = Datastore × Bool × ℕ × ℕ

abbrev seen : Chain → View
seen (s, pending, used, open_contexts) = record {
  block = s.current_chain_tip;
  pending = pending;
  charged = used;
  depth = open_contexts;
}

abbrev set_block : Chain → ℕ → Bool → Result Error (ℕ × Chain)
set_block (s, pending, used, d) bhh query =
    ok ((set_block_hash bhh s).0, ((set_block_hash bhh s).1, query, used, d))

abbrev charge : Chain → ℕ → Result Error Chain
charge (s, pending, used, d) n = ok (s, pending, used + n, d)

abbrev give_back : Chain → ℕ → Result Error Chain
give_back (s, pending, used, d) n = ok (s, pending, used - n, d)

abbrev open_context : Global Chain → Global Chain
open_context ((s, pending, used, d), batches) = ((s, pending, used, suc d), [] ∷ batches)

abbrev close_at : Chain → List (List Event) → Result Error (Global Chain)
close_at (s, pending, used, zero) batches = err panic
close_at (s, pending, used, suc d) [] = ok ((s, pending, used, d), [])
close_at (s, pending, used, suc d) (batch ∷ batches) = ok ((s, pending, used, d), batches)

abbrev first : List ℕ → ℕ
first [] = 0
first (b ∷ bs) = b

abbrev chain : CallDatabase Chain
chain = record {
  clarity_name = λ name. ok name;
  value_size = λ v. ok 1;
  get_contract = λ g c. err panic;
  short_circuit_contract_call = λ g c f sizes. ok false;
  execute_contract = λ free g c f args sender caller sponsor. ok (uint 5, g);
  begin = open_context;
  begin_read_only = open_context;
  commit = λ g. close_at g.0 g.1;
  roll_back = λ g. close_at g.0 g.1;
  at_block_memory = 1;
  add_memory = charge;
  drop_memory = give_back;
  -- the number of the first byte
  block_id = first;
  set_block_hash = set_block;
}

abbrev fine : Chain → Result Error Chain
fine g = ok g

abbrev left : ℕ × Chain → Result Error (ℕ × Chain)
left r = ok r

added_lem :
    (g : Chain) {g' : Chain} (n : ℕ)
    → charge g n ≡ fine g'
    → seen g' ≡ record (seen g) { charged = (seen g).charged + n }
added_lem g {g'} n e =
    let after : Chain = (g.0, g.1, g.2 + n, g.3) in let same : after ≡ g' = cc in ap seen (sym same)

block_set_lem :
    (g : Chain) {g' : Chain} {bhh prev_bhh : ℕ} {query : Bool}
    → set_block g bhh query ≡ left (prev_bhh, g')
    → seen g' ≡ record (seen g) { block = bhh; pending = query }
unfolding set_block_hash
block_set_lem g {g'} {bhh} {prev_bhh} {query} e =
    let after : Chain = ((set_block_hash bhh (g.0)).1, query, g.2, g.3) in
    let same : after ≡ g' = cc in ap seen (sym same)

rolled_back_lem :
    (g : Chain) (batches : List (List Event)) {d : ℕ}
    → g.3 ≡ suc d
    → (s : Global Chain) × (close_at g batches ≡ ok s)
      × (seen (s.0) ≡ record (seen g) { depth = d })
rolled_back_lem g [] {d} e = (((g.0, g.1, g.2, d), []), rw e refl, refl)
rolled_back_lem g (batch ∷ batches) {d} e = (((g.0, g.1, g.2, d), batches), rw e refl, refl)

abbrev chain_laws : AtBlockLaws chain
chain_laws = record {
  view = seen;
  added = λ {g} {g'} {n} e. added_lem g n e;
  dropped = λ g n h. ((g.0, g.1, g.2 - n, g.3), refl, refl);
  begun = λ g batches. refl;
  rolled_back = λ g batches {d} e. rolled_back_lem g batches e;
  block_set = λ {g} {g'} {bhh} {prev_bhh} {query_pending} e. block_set_lem g e;
  set_again = λ {g} {g'} {bhh} {prev_bhh} {query_pending} later e. (
    (
      (set_block_hash prev_bhh (later.0)).0,
      ((set_block_hash prev_bhh (later.0)).1, true, later.2, later.3),
    ),
    refl,
  );
}

abbrev store : Datastore
store = record {
  store = empty;
  block_id_lookup = empty;
  open_chain_tip = 9;
  current_chain_tip = 9;
  chain_height = 0;
  height_at_chain_tip = empty;
}

abbrev x : ClarityWasmContext Chain
x = record {
  global_context = (store, true, 100, 0);
  event_batches = [] ∷ [];
  contract_context = record {
    contract_identifier = record {
      issuer = record { version = 22; hash = replicate 20 9 };
      name = 99 ∷ [];
    };
    meta_data_var = λ name. none;
    meta_data_map = λ name. none;
    meta_ft = λ name. none;
    meta_nft = λ name. none;
  };
  sender = none;
  caller = none;
  sponsor = none;
  sender_stack = [];
  caller_stack = [];
  bhh_stack = [];
}

abbrev inside : ClarityWasmContext Chain
inside = record x {
  global_context = (record store { current_chain_tip = 3 }, false, 101, 1);
  event_batches = [] ∷ [] ∷ [];
  bhh_stack = 9 ∷ [];
}

abbrev no_types : List ℕ → Result Error TypeSignature
no_types text = err panic

-- Inside, 20 of memory are charged and the sender changes.
abbrev body_end : ClarityWasmContext Chain
body_end = record inside {
  global_context = (record store { current_chain_tip = 3 }, false, 121, 1);
  sender = some alice;
}

abbrev hash : List ℕ
hash = 3 ∷ replicate 31 7

read : read_from_wasm byte_memory accepting (buffer_type 32) hash 0 32 ≡ ok (buffer hash)
unfolding read_from_wasm read_usize read_mem
read = refl

entered : enter_at_block byte_memory accepting no_types chain x hash 0 32 ≡ ok inside
unfolding enter_at_block read_from_wasm read_usize bytes_of_hash push_at_block with_global read_mem
    set_block_hash
entered = refl

exit_at_block-enter_at_block_example :
    (prev_bhh : ℕ) × Entered chain chain_laws x inside hash prev_bhh
    × ((z : ClarityWasmContext Chain) × (exit_at_block chain body_end ≡ ok z)
        × Left chain chain_laws body_end z prev_bhh 0 [])
exit_at_block-enter_at_block_example =
    exit_at_block-enter_at_block byte_memory accepting no_types chain chain_laws x inside body_end
      hash 0 32 read entered refl refl (omega arith)
