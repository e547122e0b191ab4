-- ===== src/Linker/Tests.antt =====
-- A variable and a map entry that are set and read back, in a database that keeps a variable, and the
-- entries of integer keys.
use clarity_wasm.Prelude.{
  ℕ, ◌+◌, ◌≤◌, ◌≡◌, refl, true, false, List, [], ◌∷◌, Option, none, some, Result, ok, err, arith,
  replicate, ◌==◌, add32, from_le_bytes, if◌then◌else◌,
}
use clarity_wasm.Clarity.{
  TypeSignature, Value, int_type, buffer_type, optional_type, int, bool, buffer, some_value,
  none_value,
}
use clarity_wasm.Layout.{clar2wasm_ty, get_type_size, is_in_memory_type}
use clarity_wasm.Host.Access.{read_bytes_from_wasm, read_indirect_offset_and_length, read_mem}
use clarity_wasm.Wasm.ByteMemory.{byte_memory}
use clarity_wasm.Host.Errors.{Error, panic, clarity_error}
use clarity_wasm.Host.Library.{accepting}
use clarity_wasm.Host.Read.{read_from_wasm, read_from_wasm_indirect, read_indirect, read_words}
use clarity_wasm.Host.RoundTrip.Stored.{Stored}
use clarity_wasm.Host.RoundTrip.Types.{width}
use clarity_wasm.Host.RoundTrip.Values.{Storable, of_buffer}
use clarity_wasm.Runtime.Resolve.{read_identifier_from_wasm}
use clarity_wasm.Linker.Context.{GlobalContext, ContractContext}
use clarity_wasm.Linker.Variables.{get_variable, set_variable, get_variable-set_variable}
use clarity_wasm.Linker.Maps.{as_flag, map_get, map_set, map_get-map_set}

record Database : Type 0 where
  variable : Option Value
  entries : ℕ → Option Value

abbrev as_optional : Option Value → Value
as_optional none = none_value
as_optional (some v) = some_value v

abbrev fetch : Database → Value → Result Error (ℕ × Value)
fetch g (int n) = ok (1, as_optional (g.entries n))
fetch g _ = err clarity_error

abbrev put : Database → Value → Option Value → Result Error (ℕ × (Value × Database))
put g (int n) v = ok (
  1,
  (bool true, record { variable = g.variable; entries = λ k. if k == n then v else g.entries k }),
)
put g _ v = err clarity_error

==_refl : (n : ℕ) → (n == n) ≡ true
==_refl n = ground arith

kept : (n : ℕ) (v : Value) (f : ℕ → Option Value) → (if n == n then some v else f n) ≡ some v
kept n v f = rw (==_refl n)

fetch-put :
    (g : Database) {g' : Database} {r : Value} {size : ℕ} (k v : Value)
    → put g k (some v) ≡ ok (size, (r, g'))
    → fetch g' k ≡ ok (size, some_value v)
fetch-put g {g'} {size = size} (int n) v e =
    let one : 1 ≡ size = cc in
    let same : record {
      variable = g.variable;
      entries = λ k. if k == n then some v else g.entries k;
    }
        ≡ g' =
      cc in
    rw (← one, ← same, kept n v (g.entries))
fetch-put g _ v e = absurd (cc)

abbrev database : GlobalContext
database = record {
  State = Database;
  is_read_only = λ g. false;
  add_memory = λ g n. ok g;
  type_size = λ t. ok 1;
  get_value = λ g c name t. ok g.variable;
  set_variable = λ g c name v t. ok (record { variable = some v; entries = g.entries });
  fetch_entry = λ g c name k ts. fetch g k;
  set_entry = λ g c name k v ts. put g k (some v);
  insert_entry = λ g c name k v ts. put g k (some v);
  delete_entry = λ g c name k ts. put g k none;
  get_value-set_variable = λ e. cc;
  fetch_entry-set_entry = λ e. fetch-put _ _ _ e;
  fetch_entry-add_memory = λ c name k ts e. cc;
}

abbrev counter : ContractContext
counter = record {
  contract_identifier = record { issuer = record { version = 26; hash = [] }; name = 99 ∷ [] };
  meta_data_var = λ name. some (buffer_type 4);
  meta_data_map = λ name. some (int_type, buffer_type 4);
  meta_ft = λ name. some none;
  meta_nft = λ name. some int_type;
}

-- The name "a", a buffer of two bytes behind its offset and length, and the key 3.
abbrev bytes : List ℕ
bytes =
    97
    ∷ 0
    ∷ 0
    ∷ 0
    ∷ 16
    ∷ 0
    ∷ 0
    ∷ 0
    ∷ 2
    ∷ 0
    ∷ 0
    ∷ 0
    ∷ 0
    ∷ 0
    ∷ 0
    ∷ 0
    ∷ 5
    ∷ 6
    ∷ 0
    ∷ 0
    ∷ 3
    ∷ replicate 75 0

abbrev no_types : List ℕ → Result Error TypeSignature
no_types text = err panic

abbrev empty : Database
empty = record { variable = none; entries = λ n. none }

abbrev value : Value
value = buffer (5 ∷ 6 ∷ [])

named : read_identifier_from_wasm byte_memory accepting no_types bytes 0 1 ≡ ok (97 ∷ [])
unfolding read_identifier_from_wasm read_bytes_from_wasm
named = refl

value_readable : read_from_wasm_indirect byte_memory accepting (buffer_type 4) bytes 4 ≡ ok value
unfolding read_from_wasm_indirect read_indirect get_type_size is_in_memory_type
    read_indirect_offset_and_length add32 read_from_wasm from_le_bytes
value_readable = refl

key_readable : read_from_wasm_indirect byte_memory accepting int_type bytes 20 ≡ ok (int 3)
unfolding read_from_wasm_indirect read_indirect get_type_size is_in_memory_type read_from_wasm
    read_words read_mem add32 from_le_bytes
key_readable = refl

value-Storable : Storable byte_memory accepting (buffer_type 4) value 2
value-Storable = of_buffer {bs = 5 ∷ 6 ∷ []} refl

fits : 64 + width (buffer_type 4) + 2 ≤ byte_memory.size bytes
unfolding clar2wasm_ty
fits = omega arith

fits_optional : 64 + width (optional_type (buffer_type 4)) + 2 ≤ byte_memory.size bytes
unfolding clar2wasm_ty
fits_optional = omega arith

get_variable-set_variable_example :
    (set_variable byte_memory accepting no_types database counter bytes empty 0 1 4 8
      ≡ ok (record { variable = some value; entries = λ n. none }))
    × (m' : byte_memory.Memory) × (get_variable byte_memory accepting no_types database counter
          bytes
          (record { variable = some value; entries = λ n. none })
          0
          1
          64
        ≡ ok m')
    × Stored byte_memory bytes m' 64
        (width (buffer_type 4))
        (64 + width (buffer_type 4))
        2
        (λ m''. read_from_wasm_indirect byte_memory accepting (buffer_type 4) m'' 64)
        value
get_variable-set_variable_example =
    get_variable-set_variable byte_memory accepting no_types database counter {g = empty} bytes 0 1
      4 8 64 named refl value_readable refl tt value-Storable fits (omega arith)

-- The entry of the key 3.
abbrev stored : Database
stored = record { variable = none; entries = λ k. if k == 3 then some value else none }

map_get-map_set_example :
    (map_set byte_memory accepting no_types database counter bytes empty 0 1 20 16 4 8
      ≡ ok (as_flag (bool true), stored))
    × (m' : byte_memory.Memory) × (map_get byte_memory accepting no_types database counter bytes
          stored 0 1 20 16 64
        ≡ ok m')
    × Stored byte_memory bytes m' 64
        (width (optional_type (buffer_type 4)))
        (64 + width (optional_type (buffer_type 4)))
        2
        (λ m''.
          read_from_wasm_indirect byte_memory accepting (optional_type (buffer_type 4)) m'' 64)
        (some_value value)
map_get-map_set_example =
    map_get-map_set byte_memory accepting no_types database counter {g = empty} {g' = stored} bytes
      0 1 20 16 4 8 64 refl named refl key_readable value_readable refl refl tt value-Storable refl
      fits_optional (omega arith)
