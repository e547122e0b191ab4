-- ===== src/Linker/Caller/Principals.antt =====
-- `tx_sender`, `contract_caller` and `as-contract` (clar2wasm/src/linker.rs): which principal is read
-- from memory.
use clarity_wasm.Prelude.{
  ℕ, ◌+◌, ◌≤◌, ◌<◌, ◌^◌, ◌≡◌, refl, List, [], ◌∷◌, Option, none, some, ok, arith,
}
use clarity_wasm.Clarity.{PrincipalData, principal_type, principal, standard, contract}
use clarity_wasm.Wasm.Memory.{LinearMemory}
use clarity_wasm.Host.Library.{ClarityLibrary}
use clarity_wasm.Host.Write.{write_to_wasm, principal_parts}
use clarity_wasm.Host.Read.{read_from_wasm, read_contract}
use clarity_wasm.Host.RoundTrip.Stored.{Stored}
use clarity_wasm.Host.RoundTrip.Principals.{write_principal-bytes}
use clarity_wasm.Host.RoundTrip.Compound.{contract_read}
use clarity_wasm.Host.RoundTrip.Values.{Storable, of_standard, of_contract}
use clarity_wasm.Linker.Caller.Defs.{
  ClarityWasmContext, push_sender, push_caller, pop_sender, pop_caller, enter_as_contract,
  exit_as_contract, pop_last, save_current,
}
use clarity_wasm.Linker.Caller.Builtins.{write_principal_at, tx_sender, contract_caller}
use clarity_wasm.Linker.Caller.Frames.{IsFramed, IsValid}

module _ (W : LinearMemory) (L : ClarityLibrary) where
  -- That the bytes of a principal stand in memory, with their place and number as the result.
  abbrev pub Wrote : W.Memory → ℕ → ℕ → PrincipalData → W.Memory → Type 0
  Wrote m off n p m' =
      Stored W m m' off n (off + n) 0 (λ m''. read_from_wasm W L principal_type m'' off n)
        (principal p)

  pub write_principal_at-Wrote :
      {p : PrincipalData} {n : ℕ}
      → Storable W L principal_type (principal p) n
      → (m : W.Memory) (off : ℕ) → off + n ≤ W.size m
      → W.size m < 2 ^ 31
      → (m' : W.Memory) × (write_principal_at W L m off p ≡ ok (off, n, m')) × Wrote m off n p m'
  unfolding write_principal_at write_to_wasm read_from_wasm principal_parts read_contract
  write_principal_at-Wrote (of_standard {s} i) m off fits small =
      let (m', e, st) =
        write_principal-bytes W L (standard s) s [] refl i (omega arith) (λ q o e. refl) m off off
          fits small in
      (m', rw e, st)
  write_principal_at-Wrote (of_contract {c} {first} {rest} e i h u l) m off fits small =
      let (m', e', st) =
        write_principal-bytes W L (contract c) (c.issuer) (c.name) refl i h
          (λ q o r. contract_read W L (c.issuer) (c.name) first rest q o e u l r) m off off fits
          small in
      (m', rw e', st)

pop_save :
    (s : Option PrincipalData) (below : List PrincipalData)
    → IsFramed s below
    → pop_last (save_current s below) ≡ (s, below)
unfolding pop_last save_current
pop_save none [] h = refl
pop_save none (p ∷ below) h = absurd h
pop_save (some p) below h = refl

module _ (W : LinearMemory) (L : ClarityLibrary) {G : Type 0} where
  -- After `enter_as_contract` in a context with nothing below an absent sender or caller, of a
  -- contract whose principal can be stored in `n` bytes: `tx_sender` and `contract_caller`, with
  -- room for these in a memory below 2 GiB, give the offset and `n`, and write bytes from which
  -- `read_from_wasm` gets the contract's principal, and no others; `exit_as_contract` gives the
  -- context from before.
  pub exit_as_contract-enter_as_contract :
      (x : ClarityWasmContext G) {n : ℕ} (m : W.Memory) (off : ℕ)
      → IsValid x
      → Storable W L principal_type (principal (contract x.contract_context.contract_identifier)) n
      → off + n ≤ W.size m
      → W.size m < 2 ^ 31
      → (m' : W.Memory) × (tx_sender W L (enter_as_contract x) m off ≡ ok (off, n, m'))
        × (contract_caller W L (enter_as_contract x) m off ≡ ok (off, n, m'))
        × Wrote W L m off n (contract x.contract_context.contract_identifier) m'
        × (exit_as_contract (enter_as_contract x) ≡ ok x)
  unfolding tx_sender contract_caller enter_as_contract exit_as_contract push_sender push_caller
      pop_sender pop_caller
  exit_as_contract-enter_as_contract x m off v s fits small =
      let (m', e, st) = write_principal_at-Wrote W L s m off fits small in
      (
        m',
        e,
        e,
        st,
        rw (pop_save x.sender x.sender_stack v.0, pop_save x.caller x.caller_stack v.1) refl,
      )
