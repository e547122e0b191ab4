-- ===== src/Generator/Literals/Defs.antt =====
-- `add_clarity_string_literal`, `add_string_literal`, `add_bytes_literal`, `get_string_literal`,
-- `add_literal`, `visit_literal_value` and `set_memory_pages` of clar2wasm/src/wasm_generator.rs,
-- and what its other methods add to the sizes of the frame and of the work space.
use clarity_wasm.Prelude.{
  ℕ, ◌+◌, ◌*◌, ◌/◌, ◌%◌, ◌^◌, Bool, true, false, ◌&&◌, List, [], ◌∷◌, ◌++◌, Option, none, some, ok,
  ltb, leb, ◌==◌, if◌then◌else◌, length, add32, to_le_bytes,
}
use clarity_wasm.Clarity.{
  TypeSignature, Value, PrincipalData, int, uint, buffer, ascii, utf8, principal,
}
use clarity_wasm.Layout.{
  get_type_size, get_type_in_memory_size, has_in_memory_type, count_in_memory_space,
}
use clarity_wasm.Wasm.Machine.{i32_const, i64_const}
use clarity_wasm.Generator.State.{
  GenState, Gen, LiteralMemoryEntry, ascii_entry, utf8_entry, bytes_entry, type_error,
  internal_error, raise, emit, ◌>>=◌, get_memory,
}
use clarity_wasm.Generator.Literals.Text.{TextLibrary}

-- END_OF_STANDARD_DATA
abbrev pub end_of_standard_data : ℕ
end_of_standard_data = 1352

unfoldable pub bytes_eq : List ℕ → List ℕ → Bool
bytes_eq [] [] = true
bytes_eq (a ∷ as') (b ∷ bs) = a == b && bytes_eq as' bs
bytes_eq _ _ = false

-- `Eq` of `LiteralMemoryEntry`
unfoldable pub entry_eq : LiteralMemoryEntry → LiteralMemoryEntry → Bool
entry_eq (ascii_entry a) (ascii_entry b) = bytes_eq a b
entry_eq (utf8_entry a) (utf8_entry b) = bytes_eq a b
entry_eq (bytes_entry a) (bytes_entry b) = bytes_eq a b
entry_eq _ _ = false

-- `literal_memory_offset.get`
unfoldable pub find_literal : LiteralMemoryEntry → List (LiteralMemoryEntry × ℕ) → Option ℕ
find_literal k [] = none
find_literal k ((e, offset) ∷ table) = if entry_eq e k then some offset else find_literal k table

-- The characters of a UTF-8 string, one after another.
unfoldable pub flatten : List (List ℕ) → List ℕ
flatten [] = []
flatten (c ∷ cs) = c ++ flatten cs

-- `u32::to_be_bytes` of each
unfoldable pub to_be_bytes : List ℕ → List ℕ
to_be_bytes [] = []
to_be_bytes (c ∷ cs) =
    (c / 2 ^ 24 % 256) ∷ (c / 2 ^ 16 % 256) ∷ (c / 2 ^ 8 % 256) ∷ (c % 256) ∷ to_be_bytes cs

-- `bytes.len() as u32`
abbrev pub len_u32 : List ℕ → ℕ
len_u32 bs = length bs % 2 ^ 32

-- A segment with the bytes at the end of the literal memory, and the end moved past them: the
-- offset and the length.
unfoldable pub add_segment : List ℕ → Gen (ℕ × ℕ)
add_segment bytes = do
  m ← get_memory
  λ s. ok (
    (s.literal_memory_end, len_u32 bytes),
    [],
    record s {
      segments = record { memory = m; location = s.literal_memory_end; value = bytes } ∷ s.segments;
      literal_memory_end = add32 s.literal_memory_end (len_u32 bytes);
    },
  )

-- `literal_memory_offset.insert`, after which the offset and the length are returned.
unfoldable pub save_literal : LiteralMemoryEntry → ℕ × ℕ → Gen (ℕ × ℕ)
save_literal entry (offset, len) s = ok (
  (offset, len),
  [],
  record s { literal_memory_offset = (entry, offset) ∷ s.literal_memory_offset },
)

-- The literal under this entry, if it is there; otherwise a new one with these bytes.
unfoldable pub intern : LiteralMemoryEntry → (saved_len : ℕ) → List ℕ → Gen (ℕ × ℕ)
unfolding find_literal add_segment save_literal
intern entry saved_len bytes s = elim (find_literal entry s.literal_memory_offset) [
  | some offset ↦ ok ((offset, saved_len), [], s)
  | none ↦ (do r ← add_segment bytes; save_literal entry r) s
]

unfoldable pub add_string_literal : List ℕ → Gen (ℕ × ℕ)
unfolding intern
add_string_literal name = intern (ascii_entry name) (len_u32 name) name

unfoldable pub add_bytes_literal : List ℕ → Gen (ℕ × ℕ)
unfolding intern
add_bytes_literal bytes = intern (bytes_entry bytes) (len_u32 bytes) bytes

-- `str::is_ascii`
unfoldable pub is_ascii : List ℕ → Bool
is_ascii [] = true
is_ascii (b ∷ bs) = ltb b 128 && is_ascii bs

unfoldable pub get_string_literal : List ℕ → GenState → Option (ℕ × ℕ)
unfolding find_literal is_ascii
get_string_literal name s =
    if is_ascii name
    then elim (find_literal (ascii_entry name) s.literal_memory_offset) [
      | some offset ↦ some (offset, len_u32 name)
      | none ↦ none
    ]
    else none

-- The bytes of a 128-bit integer, its low word first.
unfoldable pub int_bytes : ℕ → List ℕ
int_bytes n = to_le_bytes 8 (n % 2 ^ 64) ++ to_le_bytes 8 (n / 2 ^ 64 % 2 ^ 64)

unfoldable pub principal_literal : PrincipalData → List ℕ
principal_literal (PrincipalData.standard p) = (p.version ∷ p.hash) ++ 0 ∷ []
principal_literal (PrincipalData.contract c) =
    (c.issuer.version ∷ c.issuer.hash) ++ ((length c.name % 2 ^ 8) ∷ c.name)

-- `set_memory_pages`
unfoldable pub pages : ℕ → ℕ
pages bytes = bytes / (64 * 1024) + (if ltb 0 (bytes % (64 * 1024)) then 1 else 0)

-- `self.frame_size += size`, of an `i32`
unfoldable pub reserve_frame : ℕ → Gen (Unit {0})
reserve_frame size s = ok (tt, [], record s { frame_size = add32 s.frame_size size })

-- The size that `create_call_stack_local` reserves in the frame.
unfoldable pub call_stack_size : TypeSignature → (include_repr include_value : Bool) → Option ℕ
call_stack_size ty true true = elim (get_type_in_memory_size ty true) [
  | none ↦ none
  | some n ↦ elim (get_type_size ty) [ none ↦ none | some k ↦ some (add32 n k) ]
]
call_stack_size ty false true = get_type_in_memory_size ty false
call_stack_size ty true false = get_type_size ty
call_stack_size ty false false = none

-- The size that `visit_call_user_defined` reserves for the in-memory parts of a result.
unfoldable pub return_size : TypeSignature → Option ℕ
return_size return_ty = elim (has_in_memory_type return_ty) [
  | none ↦ none
  | some in_memory ↦ if in_memory then count_in_memory_space return_ty else none
]

unfoldable pub ensure_work_space : ℕ → Gen (Unit {0})
ensure_work_space bytes_len s = ok (
  tt,
  [],
  record s {
    max_work_space = if leb s.max_work_space bytes_len then bytes_len else s.max_work_space;
  },
)

unfoldable pub total_memory_bytes : GenState → ℕ
total_memory_bytes s = add32 (add32 s.literal_memory_end s.frame_size) s.max_work_space

unfoldable pub set_memory_pages : Gen (Unit {0})
unfolding pages total_memory_bytes
set_memory_pages = do
  _ ← get_memory
  λ s. ok (tt, [], record s { initial_pages = pages (total_memory_bytes s) })

-- The two constants of an offset and a length.
unfoldable pub push_literal : ℕ × ℕ → Gen (Unit {0})
push_literal (offset, len) = emit (i32_const offset ∷ i32_const len ∷ [])

module _ (T : TextLibrary) where
  add_utf8 : ℕ → Option (List ℕ) → Gen (ℕ × ℕ)
  unfolding intern
  add_utf8 count none = raise internal_error
  add_utf8 count (some text) =
      intern (utf8_entry text) (count % 2 ^ 32 * 4 % 2 ^ 32) (to_be_bytes (T.chars text))

  -- `add_clarity_string_literal`, on ASCII and on UTF-8
  unfoldable pub add_ascii_literal : List ℕ → Gen (ℕ × ℕ)
  unfolding intern
  add_ascii_literal d = intern (ascii_entry (T.ascii_to_string d)) (len_u32 d) d

  unfoldable pub add_utf8_literal : List (List ℕ) → Gen (ℕ × ℕ)
  unfolding add_utf8 flatten to_be_bytes
  add_utf8_literal cs = add_utf8 (length cs) (T.from_utf8 (flatten cs))

  unfoldable pub add_literal : Value → Gen (ℕ × ℕ)
  unfolding add_ascii_literal add_utf8_literal add_segment int_bytes principal_literal
  add_literal (int n) = add_segment (int_bytes n)
  add_literal (uint n) = add_segment (int_bytes n)
  add_literal (principal p) = add_segment (principal_literal p)
  add_literal (buffer bs) = add_segment bs
  add_literal (ascii d) = add_ascii_literal d
  add_literal (utf8 cs) = add_utf8_literal cs
  add_literal _ = raise type_error

  unfoldable pub visit_literal_value : Value → Gen (Unit {0})
  unfolding add_literal add_ascii_literal add_utf8_literal push_literal
  visit_literal_value (int n) = emit (i64_const (n % 2 ^ 64) ∷ i64_const (n / 2 ^ 64 % 2 ^ 64) ∷ [])
  visit_literal_value (uint n) =
      emit (i64_const (n % 2 ^ 64) ∷ i64_const (n / 2 ^ 64 % 2 ^ 64) ∷ [])
  visit_literal_value (ascii d) = do r ← add_ascii_literal d; push_literal r
  visit_literal_value (utf8 cs) = do r ← add_utf8_literal cs; push_literal r
  visit_literal_value (principal p) = do r ← add_literal (principal p); push_literal r
  visit_literal_value (buffer bs) = do r ← add_literal (buffer bs); push_literal r
  visit_literal_value _ = raise type_error
