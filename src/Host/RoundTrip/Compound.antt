-- ===== src/Host/RoundTrip/Compound.antt =====
-- `write_to_wasm` and `read_from_wasm_indirect` of clar2wasm/src/wasm_utils.rs at optionals,
-- responses, principals and lists: what is written is read back, if the parts are.
use clarity_wasm.Prelude.{
  ℕ, suc, ◌+◌, ◌≤◌, ◌<◌, ◌^◌, ◌≡◌, refl, sym, ◌∙◌, ap, subst, true, false, List, [], ◌∷◌, some, ok,
  arith, length,
}
use clarity_wasm.Clarity.{
  TypeSignature, Value, Values, StandardPrincipalData, IsValueType, principal_type, list_type,
  optional_type, response_type, list, none_value, some_value, response, principal,
  QualifiedContractIdentifier, standard, contract,
}
use clarity_wasm.Layout.{clar2wasm_ty, get_type_size, is_in_memory_type}
use clarity_wasm.Layout.Sizes.{byte_width-append}
use clarity_wasm.Wasm.Memory.{LinearMemory}
use clarity_wasm.Host.Library.{ClarityLibrary}
use clarity_wasm.Host.Access.{value_as_optional, value_as_response, read_usize}
use clarity_wasm.Host.Write.{write_to_wasm, write_response, write_list, principal_parts}
use clarity_wasm.Host.Read.{
  read_from_wasm, read_from_wasm_indirect, read_indirect, read_optional, read_response, read_list,
  read_contract, contract_value,
}
use clarity_wasm.Host.RoundTrip.Stored.{Stored, Stored-map}
use clarity_wasm.Host.RoundTrip.Containers.{
  write_optional-some, write_optional-none, write_response-ok, write_response-err,
}
use clarity_wasm.Host.RoundTrip.Principals.{IsIssuer, write_principal-Stored}
use clarity_wasm.Host.RoundTrip.Elements.{Each, elements_width, write_list-Stored}
use clarity_wasm.Host.RoundTrip.Types.{Trips, width, get_type_size-eq-width, Stored-direct}

module _ (W : LinearMemory) (L : ClarityLibrary) where
  pub none_lem : (t : TypeSignature) → IsValueType t → Trips W L (optional_type t) none_value 0
  unfolding clar2wasm_ty write_to_wasm value_as_optional read_from_wasm read_from_wasm_indirect
      read_optional get_type_size is_in_memory_type
  none_lem t v m off io room fits small =
      let size = get_type_size-eq-width t v (omega arith) in
      let (m', e, s) =
        write_optional-none W L (write_to_wasm W L t) (read_from_wasm_indirect W L t) (width t) m
          off io room (omega arith) small in
      (
        m',
        rw size e,
        Stored-direct W L (optional_type t) off (4 + width t) io 0 _ none_value
            (get_type_size-eq-width (optional_type t) v (omega arith)) refl s,
      )

  pub some_lem :
      (t : TypeSignature) (v : Value) (n : ℕ)
      → IsValueType t
      → L.make_some v ≡ ok (some_value v)
      → Trips W L t v n
      → Trips W L (optional_type t) (some_value v) n
  unfolding clar2wasm_ty write_to_wasm value_as_optional read_from_wasm read_from_wasm_indirect
      read_optional get_type_size is_in_memory_type
  some_lem t v n vt a trip m off io room fits small =
      let (m', e, s) =
        write_optional-some W L (write_to_wasm W L t) (read_from_wasm_indirect W L t) (width t) n v
          (get_type_size t) m off io trip a room fits small in
      (
        m',
        e,
        Stored-direct W L (optional_type t) off (4 + width t) io n _ (some_value v)
            (get_type_size-eq-width (optional_type t) vt (omega arith)) refl s,
      )

  response_width : (t u : TypeSignature) → width (response_type t u) ≡ 4 + width t + width u
  unfolding clar2wasm_ty
  response_width t u = omega (arith, byte_width-append (clar2wasm_ty t) (clar2wasm_ty u))

  pub ok_lem :
      (t u : TypeSignature) (v : Value) (n : ℕ)
      → IsValueType t
      → IsValueType u
      → L.okay v ≡ ok (response true v)
      → Trips W L t v n
      → Trips W L (response_type t u) (response true v) n
  unfolding write_to_wasm value_as_response read_from_wasm read_from_wasm_indirect read_response
      is_in_memory_type
  ok_lem t u v n vt vu a trip m off io room fits small =
      let whole = response_width t u in
      let su = get_type_size-eq-width u vu (omega arith) in
      let (m', e, s) =
        write_response-ok W L (write_to_wasm W L t) (read_from_wasm_indirect W L t) (width t) n v
          (write_to_wasm W L u) (read_from_wasm_indirect W L u) (get_type_size t) (width u) m off io
          trip a (omega arith) fits small in
      (
        m',
        ap
              (λ y.
                write_response W (write_to_wasm W L t) (write_to_wasm W L u) (get_type_size t) y m
                  off io (true, v))
              su
            ∙ e
            ∙ ap (λ z. ok (z, n, m')) (sym whole),
        Stored-direct W L (response_type t u) off (width (response_type t u)) io n _
            (response true v) (get_type_size-eq-width (response_type t u) (vt, vu) (omega arith))
            refl
            (subst
              (λ z.
                Stored W m m' off z io n
                  (λ m''.
                    read_from_wasm W L (response_type t u) m'' off (width (response_type t u)))
                  (response true v))
              (sym whole) s),
      )

  pub err_lem :
      (t u : TypeSignature) (v : Value) (n : ℕ)
      → IsValueType t
      → IsValueType u
      → L.error v ≡ ok (response false v)
      → Trips W L u v n
      → Trips W L (response_type t u) (response false v) n
  unfolding write_to_wasm value_as_response read_from_wasm read_from_wasm_indirect is_in_memory_type
  err_lem t u v n vt vu a trip m off io room fits small =
      let whole = response_width t u in
      let st = get_type_size-eq-width t vt (omega arith) in
      let (m', e, s) =
        write_response-err W L (write_to_wasm W L u) (read_from_wasm_indirect W L u) (width u) n v
          (write_to_wasm W L t) (read_from_wasm_indirect W L t) (get_type_size u) (width t) m off io
          trip a (omega arith) fits small in
      (
        m',
        ap
              (λ y.
                write_response W (write_to_wasm W L t) (write_to_wasm W L u) y (get_type_size u) m
                  off io (false, v))
              st
            ∙ e
            ∙ ap (λ z. ok (z, n, m')) (sym whole),
        Stored-direct W L (response_type t u) off (width (response_type t u)) io n _
            (response false v) (get_type_size-eq-width (response_type t u) (vt, vu) (omega arith))
            refl
            (subst
              (λ z.
                Stored W m m' off z io n
                  (λ m''.
                    read_from_wasm W L (response_type t u) m'' off (width (response_type t u)))
                  (response false v))
              (sym whole)
              (Stored-map W _ (response false v) s (λ m'' p.
                ap
                  (λ y.
                    read_response W L (read_from_wasm_indirect W L t)
                      (read_from_wasm_indirect W L u) y m'' off)
                  st
                ∙ p))),
      )

  pub contract_read :
      (s : StandardPrincipalData) (name : List ℕ) (first : ℕ) (rest : List ℕ) (m : W.Memory) (o : ℕ)
      → name ≡ first ∷ rest
      → L.from_utf8 name ≡ ok name
      → L.contract_name name ≡ ok name
      → W.read m o (length name) ≡ some name
      → read_contract W L principal_type m o s (length name)
        ≡ ok (principal (contract (record { issuer = s; name = name })))
  unfolding read_contract read_usize contract_value
  contract_read s name first rest m o e text ok_name r =
      let l : length name ≡ suc (length rest) = ap length e in
      let r' : W.read m o (suc (length rest)) ≡ some name = rw l at r in
      ap (read_contract W L principal_type m o s) l ∙ rw (r', text, ok_name)

  -- A list whose elements take up space is read back element by element.
  pub list_lem :
      (k : ℕ) (t : TypeSignature) {n : ℕ} (vs : Values)
      → IsValueType t
      → 1 ≤ width t
      → width t < 2 ^ 32
      → L.cons_list_unsanitized vs ≡ ok (list vs)
      → Each (Trips W L t) vs n
      → Trips W L (list_type k t) (list vs) (elements_width (width t) vs + n)
  unfolding clar2wasm_ty write_to_wasm read_from_wasm read_from_wasm_indirect get_type_size
      is_in_memory_type
  list_lem k t {n} vs vt one bound a each m off io room fits small =
      let size = get_type_size-eq-width t vt bound in
      let (m', e, s) =
        write_list-Stored W L (write_to_wasm W L t) (read_from_wasm_indirect W L t) (width t)
          (list_type k t) vs refl refl each one a m off io room fits small in
      (
        m',
        ap (λ y. write_list W (write_to_wasm W L t) y m off io (list vs) true) size ∙ e,
        subst
            (λ y.
              Stored W m m' off 8 io (elements_width (width t) vs + n)
                (λ m''.
                  read_indirect W L (list_type k t)
                    (λ q o len. read_list W L (read_from_wasm_indirect W L t) y q o len) m'' off)
                (list vs))
            (sym size) s,
      )

  pub standard_lem :
      (s : StandardPrincipalData)
      → IsIssuer W L s
      → Trips W L principal_type (principal (standard s)) 22
  unfolding clar2wasm_ty write_to_wasm read_from_wasm read_from_wasm_indirect get_type_size
      is_in_memory_type read_contract principal_parts
  standard_lem s i m off io room fits small =
      write_principal-Stored W L (standard s) s [] refl i (omega arith) refl refl (λ q o e. refl) m
        off io room fits small

  pub contract_lem :
      (c : QualifiedContractIdentifier) (first : ℕ) (rest : List ℕ)
      → c.name ≡ first ∷ rest
      → IsIssuer W L (c.issuer)
      → length c.name < 256
      → L.from_utf8 c.name ≡ ok c.name
      → L.contract_name c.name ≡ ok c.name
      → Trips W L principal_type (principal (contract c)) (22 + length c.name)
  unfolding clar2wasm_ty write_to_wasm read_from_wasm read_from_wasm_indirect get_type_size
      is_in_memory_type principal_parts
  contract_lem c first rest e i short text name m off io room fits small =
      write_principal-Stored W L (contract c) c.issuer c.name refl i short refl refl
        (λ q o r. contract_read c.issuer c.name first rest q o e text name r) m off io room fits
        small
