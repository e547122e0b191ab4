-- ===== src/Linker/Blocks/Writers.antt =====
-- What the functions of clar2wasm/src/linker.rs write for a property of a block.
use clarity_wasm.Prelude.{
  ℕ, ◌+◌, ◌^◌, ◌≤◌, ◌<◌, ◌≡◌, refl, sym, ◌∙◌, false, List, Option, none, some, Result, ok, err,
  ◌>>=◌, arith, length, add32, to_le_bytes,
}
use clarity_wasm.Clarity.{
  TypeSignature, Value, StandardPrincipalData, IsValueType, uint_type, bool_type, buffer_type,
  principal_type, optional_type, uint, bool, buffer, principal, standard, none_value, some_value,
}
use clarity_wasm.Layout.{get_type_size, clar2wasm_ty}
use clarity_wasm.Wasm.Memory.{LinearMemory}
use clarity_wasm.Host.Errors.{Error}
use clarity_wasm.Host.Library.{ClarityLibrary}
use clarity_wasm.Host.Access.{value_as_bool, value_as_optional, write_mem}
use clarity_wasm.Host.Write.{write_to_wasm, write_optional, write_indicator, write_bool}
use clarity_wasm.Host.Read.{read_from_wasm_indirect}
use clarity_wasm.Host.RoundTrip.Stored.{Stored}
use clarity_wasm.Host.RoundTrip.Types.{width, get_type_size-eq-width}
use clarity_wasm.Host.RoundTrip.Values.{Storable, of_some}
use clarity_wasm.Linker.Reading.{write_result, write_result-Stored}
use clarity_wasm.Linker.Blocks.Defs.{
  write_no_property, write_property, write_data, write_reward, write_header_hash,
}
use clarity_wasm.Linker.Blocks.Properties.{
  Found, number, bytes_of, address_of, reward_of, header_hash_of,
}

abbrev pub as_value : Found → Value
as_value none = none_value
as_value (some (t, v)) = some_value v

-- A value at the type `t`, or nothing.
abbrev pub TypedAt : TypeSignature → Found → Type 0
TypedAt t none = Unit
TypedAt t (some (u, v)) = u ≡ t

module _ (W : LinearMemory) (L : ClarityLibrary) where
  -- The optional stands in a memory that a function leaves.
  abbrev pub Answered : TypeSignature → Found → ℕ → W.Memory → ℕ → Result Error (W.Memory) → Type 0
  Answered t o n m ret r =
      (m' : W.Memory) × (r ≡ ok m')
      × Stored W m m' ret (width (optional_type t)) (ret + width (optional_type t)) n
          (λ m''. read_from_wasm_indirect W L (optional_type t) m'' ret) (as_value o)

  -- A writer stores what `f` makes of a result.
  abbrev pub Answering :
      (A : Type 0) → (W.Memory → ℕ → A → Result Error (W.Memory)) → (A → Found) → Type 0
  Answering A write f =
      (t : TypeSignature) (a : A) (n : ℕ) (m : W.Memory) (ret : ℕ)
      → IsValueType t
      → TypedAt t (f a)
      → Storable W L (optional_type t) (as_value (f a)) n
      → ret + width (optional_type t) + n ≤ W.size m
      → W.size m < 2 ^ 31
      → Answered t (f a) n m ret (write m ret a)

  abbrev counted : ℕ → Result Error (W.Memory) → Result Error (ℕ × ℕ × W.Memory)
  counted k r = do m ← r; ok (k, 0, m)

  abbrev memory_of : Result Error (ℕ × ℕ × W.Memory) → Result Error (W.Memory)
  memory_of r = do (_, _, m) ← r; ok m

  same_memory :
      (k : ℕ) (r : Result Error (W.Memory)) → memory_of (counted k r) ≡ memory_of (counted 4 r)
  same_memory k (err e) = refl
  same_memory k (ok m) = refl

  -- The `false` that is written for `none` is the optional's indicator.
  write_result-none :
      (t : TypeSignature) {w : ℕ} (m : W.Memory) (ret : ℕ)
      → get_type_size t ≡ some w
      → write_result W L (optional_type t) m ret none_value
        ≡ write_result W L bool_type m ret (bool false)
  unfolding write_result write_to_wasm get_type_size value_as_optional value_as_bool write_optional
      write_indicator write_bool
  write_result-none t {w} m ret size =
      rw size (same_memory (add32 4 w) (write_mem W m ret (to_le_bytes 4 0)))

  hash_size : get_type_size (buffer_type 32) ≡ some 8
  unfolding get_type_size
  hash_size = refl

  pub write_no_property-Answered :
      (t : TypeSignature) {n : ℕ} (m : W.Memory) (ret : ℕ)
      → IsValueType t
      → Storable W L (optional_type t) none_value n
      → ret + width (optional_type t) + n ≤ W.size m
      → W.size m < 2 ^ 31
      → Answered t none n m ret (write_no_property W L m ret)
  unfolding write_no_property clar2wasm_ty
  write_no_property-Answered t m ret vt s fits small =
      let (m', e, st) = write_result-Stored W L m ret vt s fits small in
      (m', sym (write_result-none t m ret (get_type_size-eq-width t vt (omega arith))) ∙ e, st)

  write_property-Answered :
      {t : TypeSignature} (u : TypeSignature) (v : Value) {n : ℕ} (m : W.Memory) (ret : ℕ)
      → u ≡ t
      → IsValueType t
      → Storable W L (optional_type t) (some_value v) n
      → ret + width (optional_type t) + n ≤ W.size m
      → W.size m < 2 ^ 31
      → Answered t (some (u, v)) n m ret (write_property W L u m ret v)
  unfolding write_property
  write_property-Answered {t} u v m ret same vt (of_some e s) fits small =
      let (m', e', st) = write_result-Stored W L m ret vt (of_some e s) fits small in
      (m', rw (same, e, e'), st)

  pub write_number-Answering :
      Answering ℕ (λ m o n. write_property W L uint_type m o (uint n)) number
  write_number-Answering t k n m ret vt same s fits small =
      write_property-Answered uint_type (uint k) m ret same vt s fits small

  pub write_address-Answering :
      Answering StandardPrincipalData
        (λ m o a. write_property W L principal_type m o (principal (standard a)))
        address_of
  write_address-Answering t a n m ret vt same s fits small =
      write_property-Answered principal_type (principal (standard a)) m ret same vt s fits small

  pub write_data-Answering : Answering (List ℕ) (write_data W L) bytes_of
  unfolding write_data
  write_data-Answering t bs n m ret vt same s fits small =
      write_property-Answered (buffer_type (length bs)) (buffer bs) m ret same vt s fits small

  pub write_reward-Answering : Answering (Option ℕ) (write_reward W L) reward_of
  unfolding write_reward
  write_reward-Answering t none n m ret vt same s fits small =
      write_no_property-Answered t m ret vt s fits small
  write_reward-Answering t (some k) n m ret vt same s fits small =
      write_number-Answering t k n m ret vt same s fits small

  pub write_header_hash-Answering :
      Answering (Option (List ℕ)) (write_header_hash W L) header_hash_of
  unfolding write_header_hash write_property write_no_property
  write_header_hash-Answering t none n m ret vt same s fits small =
      let (m', e, st) = write_no_property-Answered t m ret vt s fits small in
      (m', write_result-none (buffer_type 32) m ret hash_size ∙ e, st)
  write_header_hash-Answering t (some bs) n m ret vt same s fits small =
      write_property-Answered (buffer_type 32) (buffer bs) m ret same vt s fits small
