-- ===== src/Host/Shapes.antt =====
-- The Wasm values of clar2wasm/src/wasm_utils.rs against those of the compiler's `clar2wasm_ty`.
use clarity_wasm.Prelude.{
  AllOk, AllOk-bind, AllOk-ok, ap, ◌∷◌, map-append, ℕ, ◌≡◌, refl, List, map, some, ok, err, add32,
  mul32, Bool, true, false, ◌&&◌, ◌++◌, Result, ◌>>=◌, if◌then◌else◌,
}
use clarity_wasm.Clarity.{
  TypeSignature, TypeMap, no_type, int_type, uint_type, bool_type, list_type, optional_type,
  response_type, tuple_type, trait_reference_type, list_union_type, field, IsValueType,
  AreValueTypes,
}
use clarity_wasm.Layout
use clarity_wasm.Layout.{ValType, i32, get_type_in_memory_size, get_type_size}
use clarity_wasm.Layout.Sizes.{get_type_size-eq-byte_width}
use clarity_wasm.Host.Errors.{Error, panic}
use clarity_wasm.Host.Types.{clar2wasm_ty, clar2wasm_ty_fields, zero_val}
use clarity_wasm.Host.Reserve.{reserve_space_for_return, reserve_fields}

mutual
  unfolding clar2wasm_ty Layout.clar2wasm_ty

  types_lem : (t : TypeSignature) → AllOk (λ ts. ts ≡ Layout.clar2wasm_ty t) (clar2wasm_ty t)
  types_lem no_type = refl
  types_lem (response_type t u) = AllOk-bind _ (clar2wasm_ty t) _ (λ ts p.
      AllOk-bind _ (clar2wasm_ty u) _ (λ us q.
        cc (
          AllOk-ok _ (clar2wasm_ty t) (types_lem t) p,
          AllOk-ok _ (clar2wasm_ty u) (types_lem u) q,
        )))
  types_lem (optional_type t) =
      AllOk-bind _ (clar2wasm_ty t) _
        (λ ts p. ap (λ us. i32 ∷ us) (AllOk-ok _ (clar2wasm_ty t) (types_lem t) p))
  types_lem (tuple_type m) = types_fields_lem m
  types_lem (trait_reference_type x) = tt
  types_lem list_union_type = tt
  types_lem _ = refl

  types_fields_lem :
      (m : TypeMap) → AllOk (λ ts. ts ≡ Layout.clar2wasm_ty_fields m) (clar2wasm_ty_fields m)
  types_fields_lem TypeMap.end = refl
  types_fields_lem (field k t m) = AllOk-bind _ (clar2wasm_ty t) _ (λ ts p.
      AllOk-bind _ (clar2wasm_ty_fields m) _ (λ us q. cc (
        AllOk-ok _ (clar2wasm_ty t) (types_lem t) p,
        AllOk-ok _ (clar2wasm_ty_fields m) (types_fields_lem m) q,
      )))

-- What the host's `clar2wasm_ty` gives, if it does not panic.
pub clar2wasm_ty-ok :
    (t : TypeSignature) {ts : List ValType} → clar2wasm_ty t ≡ ok ts → ts ≡ Layout.clar2wasm_ty t
clar2wasm_ty-ok t h = AllOk-ok _ (clar2wasm_ty t) (types_lem t) h

abbrev mutual
  -- No trait reference and no list union stands in the type, but for the element types of lists.
  pub is_plain : TypeSignature → Bool
  is_plain (optional_type t) = is_plain t
  is_plain (response_type t u) = is_plain t && is_plain u
  is_plain (tuple_type m) = are_plain m
  is_plain (trait_reference_type x) = false
  is_plain list_union_type = false
  is_plain _ = true

  pub are_plain : TypeMap → Bool
  are_plain TypeMap.end = true
  are_plain (field k t m) = is_plain t && are_plain m

-- The types, or the panic.
abbrev given : Bool → List ValType → Result Error (List ValType)
given b ts = if b then ok ts else err panic

given-map :
    (b : Bool) (ts : List ValType) (f : List ValType → List ValType)
    → given b ts >>= (λ ts. ok (f ts)) ≡ given b (f ts)
given-map true ts f = refl
given-map false ts f = refl

given-both :
    (b c : Bool) (ts us : List ValType) (f : List ValType → List ValType → List ValType)
    → given b ts >>= (λ ts. given c us >>= (λ us. ok (f ts us))) ≡ given (b && c) (f ts us)
given-both true c ts us f = given-map c us (f ts)
given-both false c ts us f = refl

mutual
  unfolding clar2wasm_ty Layout.clar2wasm_ty

  plain_lem :
      (t : TypeSignature)
      → clar2wasm_ty t ≡ (if is_plain t then ok (Layout.clar2wasm_ty t) else err panic)
  plain_lem no_type = refl
  plain_lem (optional_type t) =
      rw (plain_lem t) (given-map (is_plain t) (Layout.clar2wasm_ty t) (λ ts. i32 ∷ ts))
  plain_lem (response_type t u) =
      rw (plain_lem t, plain_lem u)
        (given-both (is_plain t) (is_plain u) (Layout.clar2wasm_ty t) (Layout.clar2wasm_ty u)
          (λ ts us. i32 ∷ (ts ++ us)))
  plain_lem (tuple_type m) = plain_fields_lem m
  plain_lem (trait_reference_type x) = refl
  plain_lem list_union_type = refl
  plain_lem _ = refl

  plain_fields_lem :
      (m : TypeMap)
      → clar2wasm_ty_fields m
        ≡ (if are_plain m then ok (Layout.clar2wasm_ty_fields m) else err panic)
  plain_fields_lem TypeMap.end = refl
  plain_fields_lem (field k t m) =
      rw (plain_lem t, plain_fields_lem m)
        (given-both (is_plain t) (are_plain m) (Layout.clar2wasm_ty t)
          (Layout.clar2wasm_ty_fields m) (λ ts us. ts ++ us))

-- For a type without trait references and list unions outside of lists, the host's `clar2wasm_ty`
-- gives the Wasm types that the compiler's gives; for every other type, it panics.
pub clar2wasm_ty-eq-compiler :
    (t : TypeSignature)
    → clar2wasm_ty t ≡ (if is_plain t then ok (Layout.clar2wasm_ty t) else err panic)
clar2wasm_ty-eq-compiler t = plain_lem t

-- A value type has a size.
sized : (t : TypeSignature) → IsValueType t → (n : ℕ) × (get_type_size t ≡ some n)
sized t v = (_, get_type_size-eq-byte_width t v)

mutual
  unfolding reserve_space_for_return Layout.clar2wasm_ty get_type_in_memory_size

  reserve_lem :
      (t : TypeSignature) (offset : ℕ)
      → IsValueType t
      → (offset' : ℕ) × (reserve_space_for_return offset t
          ≡ ok (map zero_val (Layout.clar2wasm_ty t), offset'))
  reserve_lem no_type offset v = (_, refl)
  reserve_lem int_type offset v = (_, refl)
  reserve_lem uint_type offset v = (_, refl)
  reserve_lem bool_type offset v = (_, refl)
  reserve_lem (optional_type t) offset v = let (o, e) = reserve_lem t offset v in (o, rw e)
  reserve_lem (response_type t u) offset v =
      let (o, e) = reserve_lem t offset v.0 in
      let (p, f) = reserve_lem u o v.1 in
      (p, rw (e, f, map-append zero_val (Layout.clar2wasm_ty t) (Layout.clar2wasm_ty u)))
  reserve_lem (tuple_type m) offset v = reserve_fields_lem m offset v
  reserve_lem (list_type n t) offset v = let (k, e) = sized t v in (add32 offset (mul32 n k), rw e)
  reserve_lem list_union_type offset v = elim v [ ]
  reserve_lem _ offset v = (_, refl)

  reserve_fields_lem :
      (m : TypeMap) (offset : ℕ)
      → AreValueTypes m
      → (offset' : ℕ) × (reserve_fields offset m
          ≡ ok (map zero_val (Layout.clar2wasm_ty_fields m), offset'))
  reserve_fields_lem TypeMap.end offset v = (_, refl)
  reserve_fields_lem (field k t m) offset v =
      let (o, e) = reserve_lem t offset v.0 in
      let (p, f) = reserve_fields_lem m o v.1 in
      (p, rw (e, f, map-append zero_val (Layout.clar2wasm_ty t) (Layout.clar2wasm_ty_fields m)))

-- For every value type, the host reserves space for a returned value and gives a zero of each Wasm
-- type that the compiler's `clar2wasm_ty` gives.
pub reserve_space_for_return-clar2wasm_ty :
    (t : TypeSignature) (offset : ℕ)
    → IsValueType t
    → (offset' : ℕ) × (reserve_space_for_return offset t
        ≡ ok (map zero_val (Layout.clar2wasm_ty t), offset'))
reserve_space_for_return-clar2wasm_ty t offset v = reserve_lem t offset v
