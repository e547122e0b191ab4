-- ===== src/Runtime/Counts.antt =====
-- The counts that the host reports after `check_args!` of clar2wasm/src/wasm_utils.rs: the right
-- ones if both numbers are new to the literal memory, and old ones if the first is not.
use Prim.Native.String.{String}
use clarity_wasm.Prelude.{
  ℕ, ◌+◌, ◌%◌, ◌<◌, ◌^◌, ◌≡◌, ◌≢◌, sym, ap, ap₂, subst, ◌∙◌, true, false, List, [], ◌∷◌, none, some,
  Option, Result, ok, arith, to_le_bytes, from_le_bytes, from_le_bytes-to_le_bytes_i32,
  length-to_le_bytes,
}
use clarity_wasm.Clarity.{TypeSignature}
use clarity_wasm.Wasm.Memory.{LinearMemory}
use clarity_wasm.Wasm.Machine.{Instr}
use clarity_wasm.Wasm.Instance.{Instance, Outcome}
use clarity_wasm.Generator.State.{GenState, bytes_entry}
use clarity_wasm.Generator.Literals.Text.{TextLibrary}
use clarity_wasm.Generator.Literals.Defs.{add_bytes_literal, find_literal}
use clarity_wasm.Generator.Literals.Placed.{Holds}
use clarity_wasm.Generator.Literals.Adding.{HasMemory, Adds, add_bytes_literal-Adds}
use clarity_wasm.Generator.Literals.Fresh.{
  Adds-known, Adds-new, find_literal-same, find_literal-other,
}
use clarity_wasm.Generator.Literals.Steps.{Ready}
use clarity_wasm.Host.Errors.{Error}
use clarity_wasm.Host.Library.{ClarityLibrary}
use clarity_wasm.Runtime.Raise.{
  ArgumentCountCheck, exact, at_least, at_most, mismatch, check_args, check_argument_count,
}
use clarity_wasm.Runtime.Link.{Linked}
use clarity_wasm.Runtime.Reports.{Reports, Adds-Reports, check_args-run, Linked-after}

-- No literal has the bytes of the number.
abbrev pub IsNew : GenState → ℕ → Type 0
IsNew s n = find_literal (bytes_entry (to_le_bytes 4 n)) s.literal_memory_offset ≡ none

to_le_bytes-injective :
    (x y : ℕ) → x < 2 ^ 32 → y < 2 ^ 32 → to_le_bytes 4 x ≡ to_le_bytes 4 y → x ≡ y
to_le_bytes-injective x y hx hy e =
    sym (from_le_bytes-to_le_bytes_i32 x hx)
    ∙ ap from_le_bytes e
    ∙ from_le_bytes-to_le_bytes_i32 y hy

mismatch-ne : (check : ArgumentCountCheck) (x y : ℕ) → mismatch check x y ≡ true → x ≢ y
unfolding mismatch
mismatch-ne exact x y h e = ground arith
mismatch-ne at_least x y h e = ground arith
mismatch-ne at_most x y h e = ground arith

-- A count that passes the check leaves the generator as it was, and emits nothing.
pub check_args-passes :
    (check : ArgumentCountCheck) (expected actual : ℕ) (s : GenState)
    → mismatch check (expected % 2 ^ 32) (actual % 2 ^ 32) ≡ false
    → check_args expected actual check s ≡ (ok true, [], s)
unfolding check_args check_argument_count
check_args-passes check expected actual s h = rw h

module _ (T : TextLibrary) where
  -- The literals of two new numbers, one behind the other.
  record TwoNew (s : GenState) (x y : ℕ) : Type 0 where
    first : Adds T s (to_le_bytes 4 x) (add_bytes_literal (to_le_bytes 4 x) s)
    second :
        Adds T (first.after) (to_le_bytes 4 y) (add_bytes_literal (to_le_bytes 4 y) (first.after))
    at : first.offset ≡ s.literal_memory_end
    behind : second.offset ≡ s.literal_memory_end + 4
    end : second.after.literal_memory_end ≡ s.literal_memory_end + 8
    table :
        second.after.literal_memory_offset
        ≡ (bytes_entry (to_le_bytes 4 y), s.literal_memory_end + 4)
          ∷ (bytes_entry (to_le_bytes 4 x), s.literal_memory_end)
          ∷ s.literal_memory_offset

  two_new :
      (s : GenState) (x y : ℕ)
      → Ready T s
      → s.literal_memory_end + 8 < 2 ^ 31
      → x < 2 ^ 32
      → y < 2 ^ 32
      → x ≢ y
      → IsNew s x
      → IsNew s y
      → TwoNew s x y
  two_new s x y (p, (m, ms, h)) room hx hy ne nx ny =
      let lx = length-to_le_bytes 4 x in
      let ly = length-to_le_bytes 4 y in
      let a = add_bytes_literal-Adds T (to_le_bytes 4 x) s (m, ms, h) p (omega arith) in
      let (o, e, t) = Adds-new T (to_le_bytes 4 x) s nx (m, ms, h) (omega arith) a in
      let h' : HasMemory a.after = (m, ms, a.memories ∙ h) in
      let b = add_bytes_literal-Adds T (to_le_bytes 4 y) a.after h' a.placed (omega arith) in
      let other =
        find_literal-other (to_le_bytes 4 y) (to_le_bytes 4 x) s.literal_memory_end
          s.literal_memory_offset (λ q. ne (to_le_bytes-injective x y hx hy q)) in
      let ny' : IsNew a.after y = rw t (other ∙ ny) in
      let (o', e', t') = Adds-new T (to_le_bytes 4 y) a.after ny' h' (omega arith) b in
      let e4 : a.after.literal_memory_end ≡ s.literal_memory_end + 4 = omega arith in
      record {
        first = a;
        second = b;
        at = o;
        behind = omega arith;
        end = omega arith;
        table = t' ∙ ap₂ (λ k r. (bytes_entry (to_le_bytes 4 y), k) ∷ r) e4 t;
      }

  module _ (W : LinearMemory) (L : ClarityLibrary) (parse : List ℕ → Result Error TypeSignature)
      (exported : String → Option ℕ) (calls : ℕ → Instance W → Outcome W) where
    -- In a well-placed state with a memory and room below 2^31, if the counts fail the check and
    -- neither of them has its four bytes interned yet, `check_args!` stops the traversal, and its code,
    -- run in an instance of the module with the state's segments in memory, traps with what the host
    -- resolves to the error of the check with exactly these counts.
    pub check_args-Reports :
        (s : GenState) (check : ArgumentCountCheck) (expected actual : ℕ)
        → Ready T s
        → Linked W s exported calls
        → s.literal_memory_end + 8 < 2 ^ 31
        → expected < 2 ^ 32
        → actual < 2 ^ 32
        → mismatch check expected actual ≡ true
        → IsNew s expected
        → IsNew s actual
        → Reports T W L parse exported calls s check expected actual actual
    check_args-Reports s check expected actual r k room he ha m ne na =
        let two =
          two_new s expected actual r room he ha (mismatch-ne check expected actual m) ne na in
        let behind : two.second.offset ≡ two.first.offset + 4 = omega (arith, two.at, two.behind) in
        Adds-Reports T W L parse exported calls s check expected actual actual two.first two.second
          k he ha ha (omega (arith, two.at)) m
          (subst (λ o. Holds o (to_le_bytes 4 actual) two.second.after.segments) behind
            two.second.holds)

    -- A first count that is interned already is reported with the number that stands behind it.
    known-Reports :
        (s : GenState) (check : ArgumentCountCheck) (expected actual behind o : ℕ)
        → Ready T s
        → Linked W s exported calls
        → s.literal_memory_end + 8 < 2 ^ 31
        → expected < 2 ^ 32
        → actual < 2 ^ 32
        → behind < 2 ^ 32
        → o < 2 ^ 31
        → mismatch check expected actual ≡ true
        → find_literal (bytes_entry (to_le_bytes 4 expected)) s.literal_memory_offset ≡ some o
        → Holds (o + 4) (to_le_bytes 4 behind) s.segments
        → Reports T W L parse exported calls s check expected actual behind
    known-Reports s check expected actual behind o (p, (n, ns, h)) k room he ha hb ho m known x =
        let lx = length-to_le_bytes 4 expected in
        let ly = length-to_le_bytes 4 actual in
        let a = add_bytes_literal-Adds T (to_le_bytes 4 expected) s (n, ns, h) p (omega arith) in
        let at = Adds-known T (to_le_bytes 4 expected) s known a in
        let grown = a.grows in
        let b =
          add_bytes_literal-Adds T (to_le_bytes 4 actual) a.after (n, ns, a.memories ∙ h) a.placed
            (omega arith) in
        Adds-Reports T W L parse exported calls s check expected actual behind a b k he ha hb
          (omega (arith, at.0)) m
          (b.kept (a.offset + 4) _ (
            a.kept (a.offset + 4) _
              (subst (λ q. Holds (q + 4) (to_le_bytes 4 behind) s.segments) (sym at.0) x)))

    -- After the check of two counts that were new has failed, a check that fails with the same
    -- expected count and another actual one still has the host report the first actual count.
    pub check_args-Reports_stale :
        (s : GenState) (check check' : ArgumentCountCheck) (expected actual actual' : ℕ)
        → Ready T s
        → Linked W s exported calls
        → s.literal_memory_end + 16 < 2 ^ 31
        → expected < 2 ^ 32
        → actual < 2 ^ 32
        → actual' < 2 ^ 32
        → mismatch check expected actual ≡ true
        → mismatch check' expected actual' ≡ true
        → IsNew s expected
        → IsNew s actual
        → (code : List Instr) × (s' : GenState) × (check_args expected actual check s
            ≡ (ok false, code, s'))
          × Reports T W L parse exported calls s' check' expected actual' actual
    check_args-Reports_stale s check check' expected actual actual' r k room he ha ha' m m' ne na =
        let apart = mismatch-ne check expected actual m in
        let two = two_new s expected actual r (omega arith) he ha apart ne na in
        let s' : GenState = two.second.after in
        let k' : Linked W s' exported calls =
          Linked-after T W L parse exported calls {s = s} {s' = s'}
            (two.second.globals ∙ two.first.globals) (two.second.functions ∙ two.first.functions)
            k in
        let h : HasMemory s' = (r.1.0, r.1.1, two.second.memories ∙ two.first.memories ∙ r.1.2) in
        let table =
          (bytes_entry (to_le_bytes 4 expected), s.literal_memory_end) ∷ s.literal_memory_offset in
        let known : find_literal (bytes_entry (to_le_bytes 4 expected)) s'.literal_memory_offset
            ≡ some s.literal_memory_end =
          ap (find_literal (bytes_entry (to_le_bytes 4 expected))) two.table
          ∙ find_literal-other (to_le_bytes 4 expected) (to_le_bytes 4 actual)
              (s.literal_memory_end + 4) table
              (λ q. apart (sym (to_le_bytes-injective actual expected ha he q)))
          ∙ find_literal-same (to_le_bytes 4 expected) s.literal_memory_end
              s.literal_memory_offset in
        (
          _,
          s',
          check_args-run T W L parse exported calls check expected actual two.first two.second k' he
              ha m,
          known-Reports s' check' expected actual' actual s.literal_memory_end
              (two.second.placed, h) k' (omega (arith, two.end)) he ha' ha (omega arith) m' known
              (subst (λ o. Holds o (to_le_bytes 4 actual) s'.segments) two.behind two.second.holds),
        )
