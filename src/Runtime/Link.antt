-- ===== src/Runtime/Link.antt =====
-- From the code that clar2wasm/src/wasm_utils.rs emits to raise an error about an argument to what
-- clar2wasm/src/error_mapping.rs reads of it, in an instance of the module.
use Prim.Native.String.{String}
use clarity_wasm.Prelude.{
  ℕ, ◌<◌, ◌^◌, ◌≡◌, ◌≢◌, sym, true, List, [], ◌∷◌, ◌++◌, Option, none, some, Result, ok, arith, ltb,
  to_le_bytes, from_le_bytes,
}
use clarity_wasm.Clarity.{TypeSignature}
use clarity_wasm.Layout.{i32}
use clarity_wasm.Wasm.Memory.{LinearMemory}
use clarity_wasm.Wasm.Machine.{Val, Instr, update, i32_const, global_set, call}
use clarity_wasm.Wasm.Instance.{
  Instance, Outcome, trapped, runtime_error, exec_instance, step_instance, exec_instance-trapped,
}
use clarity_wasm.Generator.State.{GenState, GeneratorError}
use clarity_wasm.Host.Errors.{Error}
use clarity_wasm.Host.Library.{ClarityLibrary}
use clarity_wasm.Host.Access.{read_bytes_from_wasm, read_mem}
use clarity_wasm.Runtime.Codes.{ErrorMap, discriminant, from_code-discriminant}
use clarity_wasm.Runtime.Raise.{find_named, raise_argument, get_global, func_by_name, Effect, ◌>>=◌}
use clarity_wasm.Runtime.Resolve.{
  Exports, get_global_i32, get_runtime_error_arg_lengths, extract_expected_and_got, from_error_map,
  from_runtime_error_code,
}

abbrev pub map_option {ℓ κ} : {A : Type ℓ} {B : Type κ} → (A → B) → Option A → Option B
map_option f none = none
map_option f (some a) = some (f a)

update_self : (f : ℕ → Val) (x : ℕ) (v : Val) → update f x v x ≡ v
update_self f x v = ground arith

update_ne : (f : ℕ → Val) (x y : ℕ) (v : Val) → x ≢ y → update f x v y ≡ f y
update_ne f x y v h = ground arith

pub bind_ok {ℓ κ} :
    {A : Type ℓ} {B : Type κ} (m : Effect A) (f : A → Effect B) {a : A}
    {r : Result GeneratorError B} {c d : List Instr} {s s' s'' : GenState}
    → m s ≡ (ok a, c, s')
    → f a s' ≡ (r, d, s'')
    → (m >>= f) s ≡ (r, c ++ d, s'')
bind_ok m f p q = rw (p, q)

get_global-run :
    (name : String) (s : GenState) {g : ℕ}
    → find_named name s.globals ≡ some g
    → get_global name s ≡ (ok g, [], s)
unfolding get_global
get_global-run name s e = rw e

func_by_name-run :
    (name : String) (s : GenState) {f : ℕ}
    → find_named name s.functions ≡ some f
    → func_by_name name s ≡ (ok f, [], s)
unfolding func_by_name
func_by_name-run name s e = rw e

extract-two :
    (x y : ℕ)
    → x < 2 ^ 32
    → y < 2 ^ 32
    → extract_expected_and_got (to_le_bytes 4 x ++ to_le_bytes 4 y) ≡ ok (x, y)
unfolding extract_expected_and_got to_le_bytes from_le_bytes
extract-two x y hx hy = ground arith

module _ (W : LinearMemory) where
  -- The instance as the host sees it: the globals that are exported under a name.
  abbrev pub exports_of : (String → Option ℕ) → Instance W → Exports W
  exports_of exported i = record {
    global = λ name. map_option i.globals (exported name);
    memory = some (i.machine.memory);
  }

  -- The globals of an argument error are exported under the names that the compiler finds them by,
  -- and the function that it calls is the standard library's.
  pub record Linked (s : GenState) (exported : String → Option ℕ)
      (calls : ℕ → Instance W → Outcome W) : Type 0 where
    pub offset_global : ℕ
    pub len_global : ℕ
    pub code_global : ℕ
    pub raiser : ℕ
    pub found_offset : find_named "runtime-error-arg-offset" s.globals ≡ some offset_global
    pub found_len : find_named "runtime-error-arg-len" s.globals ≡ some len_global
    pub found_raiser : find_named "stdlib.runtime-error" s.functions ≡ some raiser
    pub exported_offset : exported "runtime-error-arg-offset" ≡ some offset_global
    pub exported_len : exported "runtime-error-arg-len" ≡ some len_global
    pub exported_code : exported "runtime-error-code" ≡ some code_global
    pub offset_ne_len : offset_global ≢ len_global
    pub code_ne_offset : code_global ≢ offset_global
    pub code_ne_len : code_global ≢ len_global
    pub raises : (i : Instance W) → calls raiser i ≡ runtime_error W code_global i

  module _ (exported : String → Option ℕ) (calls : ℕ → Instance W → Outcome W) where
    abbrev pub raising_code :
        {s : GenState} → Linked s exported calls → ℕ → ℕ → ErrorMap → List Instr
    raising_code k offset len e =
        i32_const offset
        ∷ global_set (k.offset_global)
        ∷ i32_const len
        ∷ global_set (k.len_global)
        ∷ i32_const (discriminant e)
        ∷ call (k.raiser)
        ∷ []

    pub raise_argument-run :
        {s : GenState} (k : Linked s exported calls) (offset len : ℕ) (e : ErrorMap)
        → raise_argument offset len e s ≡ (ok tt, raising_code k offset len e, s)
    unfolding raise_argument
    raise_argument-run {s} k offset len e = rw (
      get_global-run "runtime-error-arg-offset" s k.found_offset,
      get_global-run "runtime-error-arg-len" s k.found_len,
      func_by_name-run "stdlib.runtime-error" s k.found_raiser,
    )

    -- The instance after the trap.
    abbrev pub raised :
        {s : GenState} → Linked s exported calls → ℕ → ℕ → ErrorMap → Instance W → Instance W
    raised k offset len e i = record i {
      globals =
          update (update (update i.globals k.offset_global (i32, offset)) k.len_global (i32, len))
            k.code_global (i32, discriminant e);
    }

    pub raising_code-exec :
        {s : GenState} (k : Linked s exported calls) (offset len : ℕ) (e : ErrorMap)
        (rest : List Instr) (i : Instance W)
        → exec_instance W calls (raising_code k offset len e ++ rest) i
          ≡ trapped (raised k offset len e i)
    unfolding exec_instance step_instance runtime_error
    raising_code-exec k offset len e rest i =
        exec_instance-trapped W calls (call (k.raiser)) rest _ _ (k.raises _)

    module _ (L : ClarityLibrary) (parse : List ℕ → Result Error TypeSignature) where
      -- The host reads back the code of the error.
      pub raised-from_error_map :
          {s : GenState} (k : Linked s exported calls) (offset len : ℕ) (e : ErrorMap)
          (i : Instance W)
          → from_runtime_error_code W L parse (exports_of exported (raised k offset len e i))
            ≡ from_error_map W L parse e (exports_of exported (raised k offset len e i))
      unfolding from_runtime_error_code get_global_i32
      raised-from_error_map k offset len e i =
          rw (k.exported_code, update_self, from_code-discriminant)

      raised-offset :
          {s : GenState} (k : Linked s exported calls) (offset len : ℕ) (e : ErrorMap)
          (i : Instance W)
          → get_global_i32 W L parse
              (exports_of exported (raised k offset len e i))
              "runtime-error-arg-offset"
            ≡ ok offset
      unfolding get_global_i32
      raised-offset k offset len e i = rw (
        k.exported_offset,
        update_ne _ k.code_global k.offset_global _ k.code_ne_offset,
        update_ne _ k.len_global k.offset_global _ (λ h. k.offset_ne_len (sym h)),
        update_self,
      )

      raised-len :
          {s : GenState} (k : Linked s exported calls) (offset len : ℕ) (e : ErrorMap)
          (i : Instance W)
          → get_global_i32 W L parse
              (exports_of exported (raised k offset len e i))
              "runtime-error-arg-len"
            ≡ ok len
      unfolding get_global_i32
      raised-len k offset len e i =
          rw (k.exported_len, update_ne _ k.code_global k.len_global _ k.code_ne_len, update_self)

      -- Two numbers that stand at the offset, one after the other, are read back.
      pub raised-arguments :
          {s : GenState} (k : Linked s exported calls) (offset x y : ℕ) (e : ErrorMap)
          (i : Instance W)
          → offset < 2 ^ 31
          → x < 2 ^ 32
          → y < 2 ^ 32
          → W.read (i.machine.memory) offset 8 ≡ some (to_le_bytes 4 x ++ to_le_bytes 4 y)
          → get_runtime_error_arg_lengths W L parse (exports_of exported (raised k offset 8 e i))
            ≡ ok (x, y)
      unfolding get_runtime_error_arg_lengths read_bytes_from_wasm read_mem
      raised-arguments k offset x y e i o hx hy h =
          let small : ltb offset (2 ^ 31) ≡ true = ground arith in
          rw (
            raised-offset k offset 8 e i,
            raised-len k offset 8 e i,
            small,
            h,
            extract-two x y hx hy,
          )
