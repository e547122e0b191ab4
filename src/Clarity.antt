-- ===== src/Clarity.antt =====
-- Clarity types and values, as the `clarity` crate hands them to the compiler and as the code of
-- clar2wasm/src matches on them.
use clarity_wasm.Prelude.{ℕ, Bool, List, Option}

-- Names and identifiers are only compared, so they are numbers.
abbrev pub ClarityName : Type 0
ClarityName = ℕ

abbrev pub TraitIdentifier : Type 0
TraitIdentifier = ℕ

-- A version byte and a hash of twenty bytes.
pub record StandardPrincipalData : Type 0 where
  pub version : ℕ
  pub hash : List ℕ

pub record QualifiedContractIdentifier : Type 0 where
  pub issuer : StandardPrincipalData
  pub name : List ℕ

pub data PrincipalData : Type 0 where
  standard : StandardPrincipalData → PrincipalData
  contract : QualifiedContractIdentifier → PrincipalData

-- `TypeSignature`, its sequence and callable subtypes joined in. The lengths are `u32`. A tuple's
-- fields come in the order of its `BTreeMap`.
mutual
  pub data TypeSignature : Type 0 where
    no_type int_type uint_type bool_type principal_type : TypeSignature
    buffer_type ascii_type utf8_type : ℕ → TypeSignature
    list_type : ℕ → TypeSignature → TypeSignature
    optional_type : TypeSignature → TypeSignature
    response_type : TypeSignature → TypeSignature → TypeSignature
    tuple_type : TypeMap → TypeSignature
    callable_principal : QualifiedContractIdentifier → TypeSignature
    callable_trait trait_reference_type : TraitIdentifier → TypeSignature
    list_union_type : TypeSignature

  pub data TypeMap : Type 0 where
    end : TypeMap
    field : ClarityName → TypeSignature → TypeMap → TypeMap

-- Types that a value can have: no part is a list union.
abbrev mutual
  pub IsValueType : TypeSignature → Type 0
  IsValueType (optional_type t) = IsValueType t
  IsValueType (response_type t u) = IsValueType t × IsValueType u
  IsValueType (list_type n t) = IsValueType t
  IsValueType (tuple_type m) = AreValueTypes m
  IsValueType list_union_type = ⊥
  IsValueType _ = Unit

  pub AreValueTypes : TypeMap → Type 0
  AreValueTypes end = Unit
  AreValueTypes (field k t m) = IsValueType t × AreValueTypes m

-- `Value`. An `i128` is its two's complement bit pattern, as a `u128` is; a UTF-8 string is the
-- list of its characters' bytes.
mutual
  pub data Value : Type 0 where
    int uint : ℕ → Value
    bool : Bool → Value
    buffer ascii : List ℕ → Value
    utf8 : List (List ℕ) → Value
    list : Values → Value
    none_value : Value
    some_value : Value → Value
    response : Bool → Value → Value
    tuple : DataMap → Value
    principal : PrincipalData → Value
    callable_contract : QualifiedContractIdentifier → Option TraitIdentifier → Value

  pub data Values : Type 0 where
    nil : Values
    cons : Value → Values → Values

  pub data DataMap : Type 0 where
    end : DataMap
    entry : ClarityName → Value → DataMap → DataMap
