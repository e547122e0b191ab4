-- ===== src/Runtime/Reports.antt =====
-- Wrong argument counts: what the host reports of the error that `check_args!` of
-- clar2wasm/src/wasm_utils.rs has raised.
use Prim.Native.String.{String}
use clarity_wasm.Prelude.{
  ℕ, ◌+◌, ◌%◌, ◌<◌, ◌^◌, ◌≡◌, refl, ap, ◌∙◌, true, false, List, [], ◌∷◌, ◌++◌, Option, some, Result,
  ok, arith, length, to_le_bytes, length-to_le_bytes, add32,
}
use clarity_wasm.Clarity.{TypeSignature}
use clarity_wasm.Wasm.Memory.{LinearMemory}
use clarity_wasm.Wasm.Machine.{Instr, unreachable}
use clarity_wasm.Wasm.Instance.{Instance, Outcome, trapped, exec_instance}
use clarity_wasm.Generator.State.{GenState}
use clarity_wasm.Generator.Literals.Text.{TextLibrary}
use clarity_wasm.Generator.Literals.Defs.{add_bytes_literal}
use clarity_wasm.Generator.Literals.Placed.{Holds}
use clarity_wasm.Generator.Literals.Adding.{Adds}
use clarity_wasm.Host.Errors.{Error}
use clarity_wasm.Host.Library.{ClarityLibrary}
use clarity_wasm.Runtime.Codes.{ErrorMap}
use clarity_wasm.Runtime.Raise.{
  ArgumentCountCheck, exact, at_least, at_most, mismatch, mismatch_error, check_args,
  check_argument_count, handle_mismatch, find_named,
}
use clarity_wasm.Runtime.Resolve.{
  Exports, VmError, unchecked, incorrect_argument_count, requires_at_least_arguments,
  requires_at_most_arguments, resolve_error, unreachable_code_reached, from_error_map,
  get_runtime_error_arg_lengths,
}
use clarity_wasm.Runtime.Link.{
  Linked, exports_of, raise_argument-run, raising_code, raised, raising_code-exec,
  raised-from_error_map, raised-arguments,
}

-- The error that the interpreter gives for the counts.
unfoldable pub argument_error : ArgumentCountCheck → ℕ → ℕ → VmError
argument_error exact expected got = unchecked (incorrect_argument_count expected got)
argument_error at_least expected got = unchecked (requires_at_least_arguments expected got)
argument_error at_most expected got = unchecked (requires_at_most_arguments expected got)

module _ (T : TextLibrary) (W : LinearMemory) (L : ClarityLibrary)
    (parse : List ℕ → Result Error TypeSignature) (exported : String → Option ℕ)
    (calls : ℕ → Instance W → Outcome W) where
  -- The segments are in the memory.
  abbrev pub Initialised : W.Memory → GenState → Type 0
  Initialised m s = (o : ℕ) (bs : List ℕ) → Holds o bs s.segments → W.read m o (length bs) ≡ some bs

  -- The check stops the traversal, and its code, run in an instance that has the segments in its
  -- memory, traps with what the host takes for the error of `expected` and `reported` arguments.
  pub record Reports (s : GenState) (check : ArgumentCountCheck) (expected actual reported : ℕ)
      : Type 1 where
    pub code : List Instr
    pub after : GenState
    pub run : check_args expected actual check s ≡ (ok false, code, after)
    pub caught :
        (i : Instance W)
        → Initialised (i.machine.memory) after
        → (j : Instance W) × (exec_instance W calls code i ≡ trapped j)
          × (resolve_error W L parse unreachable_code_reached (exports_of W exported j)
              ≡ ok (argument_error check expected reported))

  pub Linked-after :
      {s s' : GenState}
      → s'.globals ≡ s.globals
      → s'.functions ≡ s.functions
      → Linked W s exported calls
      → Linked W s' exported calls
  Linked-after g f k = record {
    offset_global = k.offset_global;
    len_global = k.len_global;
    code_global = k.code_global;
    raiser = k.raiser;
    found_offset = ap (find_named "runtime-error-arg-offset") g ∙ k.found_offset;
    found_len = ap (find_named "runtime-error-arg-len") g ∙ k.found_len;
    found_raiser = ap (find_named "stdlib.runtime-error") f ∙ k.found_raiser;
    exported_offset = k.exported_offset;
    exported_len = k.exported_len;
    exported_code = k.exported_code;
    offset_ne_len = k.offset_ne_len;
    code_ne_offset = k.code_ne_offset;
    code_ne_len = k.code_ne_len;
    raises = k.raises;
  }

  handle_mismatch-run :
      {s : GenState} (expected actual : ℕ) (e : ErrorMap)
      (a : Adds T s (to_le_bytes 4 expected) (add_bytes_literal (to_le_bytes 4 expected) s))
      (b : Adds T a.after (to_le_bytes 4 actual) (add_bytes_literal (to_le_bytes 4 actual) a.after))
      (k : Linked W b.after exported calls)
      → handle_mismatch expected actual e s
        ≡ (ok tt, raising_code W exported calls k a.offset 8 e, b.after)
  unfolding handle_mismatch add32
  handle_mismatch-run expected actual e a b k = rw (
    a.run,
    b.run,
    length-to_le_bytes 4 expected,
    length-to_le_bytes 4 actual,
    raise_argument-run W exported calls k a.offset 8 e,
  )

  -- The two literals, then the code that raises the error.
  pub check_args-run :
      {s : GenState} (check : ArgumentCountCheck) (expected actual : ℕ)
      (a : Adds T s (to_le_bytes 4 expected) (add_bytes_literal (to_le_bytes 4 expected) s))
      (b : Adds T a.after (to_le_bytes 4 actual) (add_bytes_literal (to_le_bytes 4 actual) a.after))
      (k : Linked W b.after exported calls)
      → expected < 2 ^ 32
      → actual < 2 ^ 32
      → mismatch check expected actual ≡ true
      → check_args expected actual check s ≡ (
        ok false,
        raising_code W exported calls k a.offset 8 (mismatch_error check) ++ unreachable ∷ [],
        b.after,
      )
  unfolding check_args check_argument_count
  check_args-run check expected actual a b k he ha m =
      let e : expected % 2 ^ 32 ≡ expected = omega arith in
      let f : actual % 2 ^ 32 ≡ actual = omega arith in
      rw (e, f, m, handle_mismatch-run expected actual (mismatch_error check) a b k)

  from_error_map-arguments :
      (check : ArgumentCountCheck) (i : Exports W) (x y : ℕ)
      → get_runtime_error_arg_lengths W L parse i ≡ ok (x, y)
      → from_error_map W L parse (mismatch_error check) i ≡ ok (argument_error check x y)
  unfolding from_error_map mismatch_error argument_error
  from_error_map-arguments exact i x y h = rw h
  from_error_map-arguments at_least i x y h = rw h
  from_error_map-arguments at_most i x y h = rw h

  two_numbers :
      (m : W.Memory) (o x y : ℕ)
      → W.read m o (length (to_le_bytes 4 x)) ≡ some (to_le_bytes 4 x)
      → W.read m (o + 4) (length (to_le_bytes 4 y)) ≡ some (to_le_bytes 4 y)
      → W.read m o 8 ≡ some (to_le_bytes 4 x ++ to_le_bytes 4 y)
  two_numbers m o x y p q =
      let p' : W.read m o 4 ≡ some (to_le_bytes 4 x) = rw length-to_le_bytes at p in
      let q' : W.read m (o + 4) 4 ≡ some (to_le_bytes 4 y) = rw length-to_le_bytes at q in
      W.read-add m o 4 4 ∙ rw (p', q') refl

  -- The host reports the first number and what stands behind it.
  pub Adds-Reports :
      (s : GenState) (check : ArgumentCountCheck) (expected actual reported : ℕ)
      (a : Adds T s (to_le_bytes 4 expected) (add_bytes_literal (to_le_bytes 4 expected) s))
      (b : Adds T a.after (to_le_bytes 4 actual) (add_bytes_literal (to_le_bytes 4 actual) a.after))
      → Linked W s exported calls
      → expected < 2 ^ 32
      → actual < 2 ^ 32
      → reported < 2 ^ 32
      → a.offset < 2 ^ 31
      → mismatch check expected actual ≡ true
      → Holds (a.offset + 4) (to_le_bytes 4 reported) b.after.segments
      → Reports s check expected actual reported
  unfolding resolve_error
  Adds-Reports s check expected actual reported a b k he ha hr o m h =
      let k' = Linked-after (b.globals ∙ a.globals) (b.functions ∙ a.functions) k in
      let e = mismatch_error check in
      record {
        code = raising_code W exported calls k' a.offset 8 e ++ unreachable ∷ [];
        after = b.after;
        run = check_args-run check expected actual a b k' he ha m;
        caught = λ i init. (
          raised W exported calls k' a.offset 8 e i,
          raising_code-exec W exported calls k' a.offset 8 e (unreachable ∷ []) i,
          raised-from_error_map W exported calls L parse k' a.offset 8 e i
              ∙ from_error_map-arguments check _ expected reported (
                  raised-arguments W exported calls L parse k' a.offset expected reported e i o he
                    hr
                    (two_numbers (i.machine.memory) a.offset expected reported
                      (init a.offset _ (b.kept a.offset _ a.holds)) (init (a.offset + 4) _ h))),
        );
      }
