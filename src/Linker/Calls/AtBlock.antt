-- ===== src/Linker/Calls/AtBlock.antt =====
-- `enter_at_block` and `exit_at_block` of clar2wasm/src/linker.rs, around the code of an `at-block`.
use clarity_wasm.Prelude.{
  ℕ, suc, ◌+◌, ◌-◌, ◌≤◌, ◌≡◌, refl, sym, subst, ap, ◌∙◌, Bool, true, false, List, ◌∷◌, Result, ok,
  err, AllOk, AllOk-bind, AllOk-ok, Bool-cases, ==_iff, length, ◌==◌, inl, inr,
}
use clarity_wasm.Clarity.{TypeSignature, Value, buffer_type, buffer}
use clarity_wasm.Wasm.Memory.{LinearMemory}
use clarity_wasm.Host.Errors.{Error, bad_block_hash}
use clarity_wasm.Host.Library.{ClarityLibrary}
use clarity_wasm.Host.Read.{read_from_wasm}
use clarity_wasm.Linker.Caller.Defs.{
  ClarityWasmContext, Event, push_at_block, pop_at_block, pop_last,
}
use clarity_wasm.Linker.Calls.Defs.{
  CallDatabase, Global, with_global, enter_at_block, exit_at_block, bytes_of_hash,
}

-- What can be seen of a global context: the block that it reads, whether it reads pending data, the
-- memory that is charged, and how many contexts are open.
pub record View : Type 0 where
  pub block : ℕ
  pub pending : Bool
  pub charged : ℕ
  pub depth : ℕ

-- What the operations do to the view. A block that was left can be entered again; which one
-- `set_block_hash` reports as left is open.
pub record AtBlockLaws {G : Type 0} (D : CallDatabase G) : Type 0 where
  pub view : G → View
  pub added :
      {g g' : G} {n : ℕ}
      → D.add_memory g n ≡ ok g'
      → view g' ≡ record (view g) { charged = (view g).charged + n }
  pub dropped :
      (g : G) (n : ℕ)
      → n ≤ (view g).charged
      → (g' : G) × (D.drop_memory g n ≡ ok g')
        × (view g' ≡ record (view g) { charged = (view g).charged - n })
  pub begun :
      (g : G) (batches : List (List Event))
      → view ((D.begin_read_only (g, batches)).0) ≡ record (view g) { depth = suc (view g).depth }
  pub rolled_back :
      (g : G) (batches : List (List Event)) {d : ℕ}
      → (view g).depth ≡ suc d
      → (s : Global G) × (D.roll_back (g, batches) ≡ ok s)
        × (view (s.0) ≡ record (view g) { depth = d })
  pub block_set :
      {g g' : G} {bhh prev_bhh : ℕ} {query_pending : Bool}
      → D.set_block_hash g bhh query_pending ≡ ok (prev_bhh, g')
      → view g' ≡ record (view g) { block = bhh; pending = query_pending }
  pub set_again :
      {g g' : G} {bhh prev_bhh : ℕ} {query_pending : Bool} (later : G)
      → D.set_block_hash g bhh query_pending ≡ ok (prev_bhh, g')
      → (r : ℕ × G) × (D.set_block_hash later prev_bhh true ≡ ok r)

module _ {G : Type 0} (D : CallDatabase G) (laws : AtBlockLaws D) where
  -- The context in the block with the hash `bs`, which `prev_bhh` was left for.
  pub record Entered (x y : ClarityWasmContext G) (bs : List ℕ) (prev_bhh : ℕ) : Type 0 where
    pub whole_hash : length bs ≡ 32
    pub reported :
        (g : G) × (D.set_block_hash g (D.block_id bs) false ≡ ok (prev_bhh, y.global_context))
    pub stacked : y.bhh_stack ≡ prev_bhh ∷ x.bhh_stack
    pub seen : laws.view y.global_context ≡ record {
      block = D.block_id bs;
      pending = false;
      charged = (laws.view x.global_context).charged + D.at_block_memory;
      depth = suc (laws.view x.global_context).depth;
    }
    pub same_sender : y.sender ≡ x.sender
    pub same_caller : y.caller ≡ x.caller

  -- The context that is left from `b` to the one around it, of the depth `depth`.
  pub record Left (b z : ClarityWasmContext G) (prev_bhh depth : ℕ) (rest : List ℕ) : Type 0 where
    pub unstacked : z.bhh_stack ≡ rest
    pub seen_again : laws.view z.global_context ≡ record {
      block = prev_bhh;
      pending = true;
      charged = (laws.view b.global_context).charged - D.at_block_memory;
      depth = depth;
    }
    pub sender_stays : z.sender ≡ b.sender
    pub caller_stays : z.caller ≡ b.caller

  exit_at_block-run :
      (b : ClarityWasmContext G) {prev_bhh : ℕ} {rest : List ℕ} {r : ℕ × G} {s : Global G} {g : G}
      → b.bhh_stack ≡ prev_bhh ∷ rest
      → D.set_block_hash b.global_context prev_bhh true ≡ ok r
      → D.roll_back (r.1, b.event_batches) ≡ ok s
      → D.drop_memory (s.0) D.at_block_memory ≡ ok g
      → exit_at_block D b ≡ ok (with_global (record b { bhh_stack = rest }) (g, s.1))
  unfolding exit_at_block pop_at_block pop_last
  exit_at_block-run b e set rolled less = rw (e, set, rolled, less) refl

  exit_at_block-Left :
      (b : ClarityWasmContext G) {prev_bhh : ℕ} {rest : List ℕ} {d : ℕ} {r : ℕ × G}
      → b.bhh_stack ≡ prev_bhh ∷ rest
      → D.set_block_hash b.global_context prev_bhh true ≡ ok r
      → (laws.view b.global_context).depth ≡ suc d
      → D.at_block_memory ≤ (laws.view b.global_context).charged
      → (z : ClarityWasmContext G) × (exit_at_block D b ≡ ok z) × Left b z prev_bhh d rest
  unfolding with_global
  exit_at_block-Left b {prev_bhh} {rest} {d} {r} e set deep enough =
      let v = laws.block_set set in
      let (s, rolled, w) = laws.rolled_back (r.1) b.event_batches (ap View.depth v ∙ deep) in
      let (g, less, u) =
        laws.dropped (s.0) D.at_block_memory (
          subst (λ n. D.at_block_memory ≤ n) (sym (ap View.charged w ∙ ap View.charged v))
            enough) in
      (
        with_global (record b { bhh_stack = rest }) (g, s.1),
        exit_at_block-run b e set rolled less,
        record {
          unstacked = refl;
          seen_again = rw (u, w, v) refl;
          sender_stays = refl;
          caller_stays = refl;
        },
      )

bytes_of_hash-ok :
    (v : Value) (bs hash : List ℕ)
    → v ≡ buffer bs
    → bytes_of_hash v ≡ ok hash
    → (length bs ≡ 32) × (bs ≡ hash)
unfolding bytes_of_hash
bytes_of_hash-ok v bs hash same h = elim (Bool-cases (length bs == 32)) [
  | inl e ↦
      let given : bytes_of_hash v ≡ ok bs = rw (same, e) refl in
      let equal : bs ≡ hash = cc in ((==_iff (length bs) 32).0 e, equal)
  | inr e ↦ let given : bytes_of_hash v ≡ err bad_block_hash = rw (same, e) refl in absurd (cc)
]

module _ (W : LinearMemory) (L : ClarityLibrary) (parse : List ℕ → Result Error TypeSignature)
    {G : Type 0} (D : CallDatabase G) (laws : AtBlockLaws D) where
  enter_at_block-Entered :
      (x : ClarityWasmContext G) (m : W.Memory) (off n : ℕ) {bs : List ℕ}
      → read_from_wasm W L (buffer_type 32) m off n ≡ ok (buffer bs)
      → AllOk
          (λ y. (prev_bhh : ℕ) × Entered D laws x y bs prev_bhh)
          (enter_at_block W L parse D x m off n)
  unfolding enter_at_block push_at_block with_global
  enter_at_block-Entered x m off n {bs} read =
      AllOk-bind _ (read_from_wasm W L (buffer_type 32) m off n) _ (λ v r.
        let same : v ≡ buffer bs = cc in
        AllOk-bind _ (bytes_of_hash v) _ (λ hash h.
          let (whole, equal) = bytes_of_hash-ok v bs hash same h in
          AllOk-bind _ (D.add_memory x.global_context D.at_block_memory) _ (λ g added.
            let begun = D.begin_read_only (g, x.event_batches) in
            AllOk-bind _ (D.set_block_hash begun.0 (D.block_id hash) false) _ (λ left set. (
              left.0,
              record {
                whole_hash = whole;
                reported = (begun.0, rw (equal, set) refl);
                stacked = refl;
                seen =
                    rw (equal, laws.block_set set, laws.begun g x.event_batches, laws.added added)
                      refl;
                same_sender = refl;
                same_caller = refl;
              },
            )))))

  -- Where the bytes `bs` are read and `enter_at_block` succeeds: they are 32, the context then reads
  -- the block that they name without pending data, with one more context open and the memory of an
  -- `at-block` charged, and the block that the database reported as left is pushed. From every context
  -- that the code inside leaves, with the same stack of blocks, as many open contexts, and at least
  -- that memory charged, `exit_at_block` succeeds and gives the stack of blocks and the number of
  -- open contexts from before, on the reported block with pending data (also inside of another
  -- `at-block`), with the memory of the `at-block` given back and the sender and the caller kept.
  pub exit_at_block-enter_at_block :
      (x y b : ClarityWasmContext G) (m : W.Memory) (block_hash_offset block_hash_length : ℕ)
      {bs : List ℕ}
      → read_from_wasm W L (buffer_type 32) m block_hash_offset block_hash_length ≡ ok (buffer bs)
      → enter_at_block W L parse D x m block_hash_offset block_hash_length ≡ ok y
      → b.bhh_stack ≡ y.bhh_stack
      → (laws.view b.global_context).depth ≡ (laws.view y.global_context).depth
      → D.at_block_memory ≤ (laws.view b.global_context).charged
      → (prev_bhh : ℕ) × Entered D laws x y bs prev_bhh
        × ((z : ClarityWasmContext G) × (exit_at_block D b ≡ ok z)
            × Left D laws b z prev_bhh (laws.view x.global_context).depth x.bhh_stack)
  exit_at_block-enter_at_block x y b m off n {bs} read entered stack deep enough =
      let (prev, p) =
        AllOk-ok (λ y. (prev_bhh : ℕ) × Entered D laws x y bs prev_bhh)
          (enter_at_block W L parse D x m off n) (enter_at_block-Entered x m off n read) entered in
      let (g, set) = p.reported in
      let (r, again) = laws.set_again b.global_context set in
      (
        prev,
        p,
        exit_at_block-Left D laws b (stack ∙ p.stacked) again (deep ∙ ap View.depth p.seen) enough,
      )
