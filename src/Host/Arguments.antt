-- ===== src/Host/Arguments.antt =====
-- The Wasm values that `pass_argument_to_wasm` of clar2wasm/src/wasm_utils.rs gives for an argument.
use clarity_wasm.Prelude.{
  ℕ, ◌≡◌, refl, ap, ap₂, Bool, ◌∙◌, true, false, List, [], ◌∷◌, ◌++◌, map, map-append, Option, some,
  ok, AllOk, AllOk-bind, AllOk-ok,
}
use clarity_wasm.Clarity.{
  TypeSignature, TypeMap, Value, DataMap, PrincipalData, QualifiedContractIdentifier,
  TraitIdentifier, Values, int_type, uint_type, bool_type, buffer_type, principal_type, ascii_type,
  utf8_type, list_type, optional_type, response_type, tuple_type, callable_principal,
  callable_trait, trait_reference_type, field, int, uint, bool, buffer, ascii, utf8, list,
  none_value, some_value, response, tuple, principal, callable_contract, standard, contract,
}
use clarity_wasm.Layout
use clarity_wasm.Layout.{ValType, i32}
use clarity_wasm.Wasm.Memory.{LinearMemory}
use clarity_wasm.Wasm.Machine.{Val}
use clarity_wasm.Host.Errors.{map_err, wasm_generator_error}
use clarity_wasm.Host.Library.{ClarityLibrary}
use clarity_wasm.Host.Access.{write_mem}
use clarity_wasm.Host.Write.{lookup_entry, write_to_wasm}
use clarity_wasm.Host.Types.{clar2wasm_ty, zero_val}
use clarity_wasm.Host.Shapes.{clar2wasm_ty-ok}
use clarity_wasm.Host.Pass.{
  Passed, pass_bytes, words_of, pass_simple, pass_elements, pass_argument_to_wasm, pass_fields,
}

-- The value's constructor is one that the type admits, and so on for its parts, but for the
-- elements of a list.
mutual
  pub data HasShape : TypeSignature → Value → Type 0 where
    of_int : {n : ℕ} → HasShape int_type (int n)
    of_uint : {n : ℕ} → HasShape uint_type (uint n)
    of_bool : {b : Bool} → HasShape bool_type (bool b)
    of_buffer : {k : ℕ} {bs : List ℕ} → HasShape (buffer_type k) (buffer bs)
    of_ascii : {k : ℕ} {bs : List ℕ} → HasShape (ascii_type k) (ascii bs)
    of_utf8 : {k : ℕ} {cs : List (List ℕ)} → HasShape (utf8_type k) (utf8 cs)
    of_list : {k : ℕ} {t : TypeSignature} {vs : Values} → HasShape (list_type k t) (list vs)
    of_none : {t : TypeSignature} → HasShape (optional_type t) none_value
    of_some :
        {t : TypeSignature} {v : Value} → HasShape t v → HasShape (optional_type t) (some_value v)
    of_ok :
        {t u : TypeSignature} {v : Value}
        → HasShape t v
        → HasShape (response_type t u) (response true v)
    of_err :
        {t u : TypeSignature} {v : Value}
        → HasShape u v
        → HasShape (response_type t u) (response false v)
    of_tuple :
        {fields : TypeMap} {d : DataMap}
        → HaveShapes fields d
        → HasShape (tuple_type fields) (tuple d)
    of_principal : {p : PrincipalData} → HasShape principal_type (principal p)
    of_callable_principal :
        {c : QualifiedContractIdentifier} {p : PrincipalData}
        → HasShape (callable_principal c) (principal p)
    of_callable_trait :
        {c : TraitIdentifier} {d : QualifiedContractIdentifier} {x : Option TraitIdentifier}
        → HasShape (callable_trait c) (callable_contract d x)
    of_trait_reference :
        {c : TraitIdentifier} {d : QualifiedContractIdentifier} {x : Option TraitIdentifier}
        → HasShape (trait_reference_type c) (callable_contract d x)

  pub data HaveShapes : TypeMap → DataMap → Type 0 where
    of_end : {d : DataMap} → HaveShapes TypeMap.end d
    of_field :
        {k : ℕ} {t : TypeSignature} {fields : TypeMap} {d : DataMap} {v : Value}
        → lookup_entry k d ≡ some v
        → HasShape t v
        → HaveShapes fields d
        → HaveShapes (field k t fields) d

-- The Wasm types of values.
abbrev pub types_of : List Val → List ValType
types_of vals = map (λ v. v.0) vals

types_of_zeros : (ts : List ValType) → types_of (map zero_val ts) ≡ ts
types_of_zeros [] = refl
types_of_zeros (t ∷ ts) = ap (λ us. t ∷ us) (types_of_zeros ts)

types_of-append : (vs ws : List Val) → types_of (vs ++ ws) ≡ types_of vs ++ types_of ws
types_of-append vs ws = map-append (λ v. v.0) vs ws

module _ (W : LinearMemory) (L : ClarityLibrary) where
  -- The values passed have the types.
  abbrev Typed : List ValType → Passed W L → Type 0
  Typed ts = AllOk (λ x. types_of x.0 ≡ ts)

  pass_bytes-Typed :
      (m : W.Memory) (bytes : List ℕ) (o i : ℕ)
      → Typed (i32 ∷ i32 ∷ []) (pass_bytes W L m bytes o i)
  unfolding pass_bytes
  pass_bytes-Typed m bytes o i = AllOk-bind _ (write_mem W m i bytes) _ (λ m' e. refl)

  pass_utf8-Typed :
      (m : W.Memory) (chars : List (List ℕ)) (o i : ℕ)
      → Typed (i32 ∷ i32 ∷ []) (pass_simple W L m (utf8 chars) o i)
  unfolding pass_simple
  pass_utf8-Typed m chars o i =
      AllOk-bind _ (map_err (L.unicode_scalars chars) wasm_generator_error) _
        (λ bytes e. pass_bytes-Typed m bytes o i)

  pass_principal-Typed :
      (m : W.Memory) (p : PrincipalData) (o i : ℕ)
      → Typed (i32 ∷ i32 ∷ []) (pass_simple W L m (principal p) o i)
  unfolding pass_simple
  pass_principal-Typed m (standard s) o i = pass_bytes-Typed m _ o i
  pass_principal-Typed m (contract c) o i = pass_bytes-Typed m _ o i

  -- The parts of a response: the value's and the other's zeros.
  response_types :
      (vals : List Val) {us : List ValType} (t u : TypeSignature)
      → types_of vals ≡ Layout.clar2wasm_ty t
      → clar2wasm_ty u ≡ ok us
      → (types_of (vals ++ map zero_val us) ≡ Layout.clar2wasm_ty t ++ Layout.clar2wasm_ty u)
        × (types_of (map zero_val us ++ vals) ≡ Layout.clar2wasm_ty u ++ Layout.clar2wasm_ty t)
  response_types vals {us} t u h e =
      let z = types_of_zeros us in
      let c = clar2wasm_ty-ok u e in
      (
        rw (types_of-append vals (map zero_val us), z, h, c),
        rw (types_of-append (map zero_val us) vals, z, h, c),
      )

  mutual
    unfolding pass_argument_to_wasm pass_simple words_of Layout.clar2wasm_ty

    pass_argument_to_wasm-Typed :
        {t : TypeSignature} {v : Value} (m : W.Memory) (o i : ℕ)
        → HasShape t v
        → Typed (Layout.clar2wasm_ty t) (pass_argument_to_wasm W L t m v o i)
    pass_argument_to_wasm-Typed m o i of_int = refl
    pass_argument_to_wasm-Typed m o i of_uint = refl
    pass_argument_to_wasm-Typed m o i of_bool = refl
    pass_argument_to_wasm-Typed m o i (of_buffer {k} {bs}) = pass_bytes-Typed m bs o i
    pass_argument_to_wasm-Typed m o i (of_ascii {k} {bs}) = pass_bytes-Typed m bs o i
    pass_argument_to_wasm-Typed m o i (of_utf8 {k} {cs}) = pass_utf8-Typed m cs o i
    pass_argument_to_wasm-Typed m o i (of_list {k} {t} {vs}) =
        AllOk-bind _ (pass_elements W L (write_to_wasm W L t) m vs o i 0 0) _ (λ x e. refl)
    pass_argument_to_wasm-Typed m o i (of_none {t}) =
        AllOk-bind _ (clar2wasm_ty (optional_type t)) _
          (λ ts e. types_of_zeros ts ∙ clar2wasm_ty-ok (optional_type t) e)
    pass_argument_to_wasm-Typed m o i (of_some {t} {v} h) =
        AllOk-bind _ (pass_argument_to_wasm W L t m v o i) _ (λ x e.
          ap (λ ts. i32 ∷ ts)
            (AllOk-ok _ (pass_argument_to_wasm W L t m v o i) (pass_argument_to_wasm-Typed m o i h)
              e))
    pass_argument_to_wasm-Typed m o i (of_ok {t} {u} {v} h) =
        AllOk-bind _ (pass_argument_to_wasm W L t m v o i) _ (λ x e.
          AllOk-bind _ (clar2wasm_ty u) _ (λ us f.
            ap (λ ts. i32 ∷ ts)
              (response_types x.0 t u
                (AllOk-ok _ (pass_argument_to_wasm W L t m v o i)
                  (pass_argument_to_wasm-Typed m o i h) e)
                f).0))
    pass_argument_to_wasm-Typed m o i (of_err {t} {u} {v} h) =
        AllOk-bind _ (pass_argument_to_wasm W L u m v o i) _ (λ x e.
          AllOk-bind _ (clar2wasm_ty t) _ (λ us f.
            ap (λ ts. i32 ∷ ts)
              (response_types x.0 u t
                (AllOk-ok _ (pass_argument_to_wasm W L u m v o i)
                  (pass_argument_to_wasm-Typed m o i h) e)
                f).1))
    pass_argument_to_wasm-Typed m o i (of_tuple h) = pass_fields-Typed m o i h
    pass_argument_to_wasm-Typed m o i (of_principal {p}) = pass_principal-Typed m p o i
    pass_argument_to_wasm-Typed m o i (of_callable_principal {c} {p}) = pass_principal-Typed m p o i
    pass_argument_to_wasm-Typed m o i (of_callable_trait {c} {d} {x}) =
        pass_principal-Typed m (contract d) o i
    pass_argument_to_wasm-Typed m o i (of_trait_reference {c} {d} {x}) =
        pass_principal-Typed m (contract d) o i

    pass_fields-Typed :
        {fields : TypeMap} {d : DataMap} (m : W.Memory) (o i : ℕ)
        → HaveShapes fields d
        → Typed (Layout.clar2wasm_ty_fields fields) (pass_fields W L fields d m o i)
    pass_fields-Typed m o i of_end = refl
    pass_fields-Typed m o i (of_field {k} {t} {fields} {d} {v} e h r) = rw e (
        AllOk-bind _ (pass_argument_to_wasm W L t m v o i) _ (λ (b, p, q, m') f.
          AllOk-bind _ (pass_fields W L fields d m' p q) _ (λ x g.
            types_of-append b x.0
            ∙ ap₂ (λ ts us. ts ++ us)
                (AllOk-ok _ (pass_argument_to_wasm W L t m v o i)
                  (pass_argument_to_wasm-Typed m o i h) f)
                (AllOk-ok _ (pass_fields W L fields d m' p q) (pass_fields-Typed m' p q r) g))))

  -- For a value of the type's shape, where `pass_argument_to_wasm` succeeds, the Wasm values that it
  -- gives have the types that the compiler's `clar2wasm_ty` gives.
  pub pass_argument_to_wasm-clar2wasm_ty :
      {t : TypeSignature} {v : Value} (m : W.Memory) (offset in_mem_offset : ℕ) {vals : List Val}
      {o i : ℕ} {m' : W.Memory}
      → HasShape t v
      → pass_argument_to_wasm W L t m v offset in_mem_offset ≡ ok (vals, o, i, m')
      → types_of vals ≡ Layout.clar2wasm_ty t
  pass_argument_to_wasm-clar2wasm_ty {t} {v} m offset in_mem_offset h e =
      AllOk-ok _ (pass_argument_to_wasm W L t m v offset in_mem_offset)
        (pass_argument_to_wasm-Typed m offset in_mem_offset h) e
