-- ===== src/Generator/MemoryAccess.antt =====
-- `write_to_memory` and `read_from_memory` of clar2wasm/src/wasm_generator.rs. Constant offsets and
-- byte counts are `u32` (`i32` in the count of `read_from_memory`).
use clarity_wasm.Prelude.{ℕ, [], ◌∷◌, add32}
use clarity_wasm.Clarity.{
  TypeSignature, TypeMap, no_type, int_type, uint_type, bool_type, optional_type, response_type,
  tuple_type, list_union_type, field,
}
use clarity_wasm.Layout.{ValType, i32, i64, get_type_size}
use clarity_wasm.Wasm.Machine.{LocalId, local_get, local_set, drop_top, i32_const, store, load}
use clarity_wasm.Generator.State.{
  Gen, pure, raise, ◌>>=◌, ◌>>◌, emit, or_panic, type_error, get_memory, add_local, borrow_local,
  release_local,
}

-- Integers. The stack has the high word on top.
unfoldable pub write_int : LocalId → ℕ → ℕ → Gen ℕ
write_int offset_local offset memory = do
  high ← borrow_local i64
  low ← borrow_local i64
  emit (local_set high ∷ local_set low ∷ [])
  emit (local_get offset_local ∷ local_get low ∷ store i64 memory 8 offset ∷ [])
  emit (local_get offset_local ∷ local_get high ∷ store i64 memory 8 (add32 offset 8) ∷ [])
  release_local i64 low
  release_local i64 high
  pure 16

-- An in-memory type. The stack has the length on top of the offset.
unfoldable pub write_offset_length : LocalId → ℕ → ℕ → Gen ℕ
write_offset_length offset_local offset memory = do
  seq_offset ← add_local i32
  seq_length ← add_local i32
  emit (local_set seq_length ∷ local_set seq_offset ∷ [])
  emit (local_get offset_local ∷ local_get seq_offset ∷ store i32 memory 4 offset ∷ [])
  emit (local_get offset_local ∷ local_get seq_length ∷ store i32 memory 4 (add32 offset 4) ∷ [])
  pure 8

unfoldable pub write_bool : LocalId → ℕ → ℕ → Gen ℕ
write_bool offset_local offset memory = do
  bool_val ← add_local i32
  emit (local_set bool_val ∷ [])
  emit (local_get offset_local ∷ local_get bool_val ∷ store i32 memory 4 offset ∷ [])
  pure 4

-- `NoType`: the placeholder is dropped, and a zero is written.
unfoldable pub write_placeholder : LocalId → ℕ → ℕ → Gen ℕ
write_placeholder offset_local offset memory = do
  emit (drop_top ∷ local_get offset_local ∷ i32_const 0 ∷ store i32 memory 4 offset ∷ [])
  pure 4

-- The variant of an optional or a response.
unfoldable pub write_variant : LocalId → ℕ → ℕ → Gen (Unit {0})
write_variant offset_local offset memory = do
  variant_val ← add_local i32
  emit (
      local_set variant_val
      ∷ local_get offset_local
      ∷ local_get variant_val
      ∷ store i32 memory 4 offset
      ∷ [])

unfoldable mutual
  pub write_to_memory : LocalId → ℕ → TypeSignature → Gen ℕ
  write_to_memory offset_local offset int_type = do
    memory ← get_memory
    write_int offset_local offset memory
  write_to_memory offset_local offset uint_type = do
    memory ← get_memory
    write_int offset_local offset memory
  write_to_memory offset_local offset bool_type = do
    memory ← get_memory
    write_bool offset_local offset memory
  write_to_memory offset_local offset no_type = do
    memory ← get_memory
    write_placeholder offset_local offset memory
  write_to_memory offset_local offset (optional_type t) = do
    memory ← get_memory
    bytes_written ← write_to_memory offset_local (add32 offset 4) t
    write_variant offset_local offset memory
    pure (add32 4 bytes_written)
  write_to_memory offset_local offset (response_type t u) = do
    memory ← get_memory
    ok_size ← or_panic (get_type_size t)
    err_bytes ← write_to_memory offset_local (add32 (add32 offset 4) ok_size) u
    ok_bytes ← write_to_memory offset_local (add32 offset 4) t
    write_variant offset_local offset memory
    pure (add32 (add32 (add32 0 err_bytes) ok_bytes) 4)
  write_to_memory offset_local offset (tuple_type m) = do
    memory ← get_memory
    write_fields_to_memory offset_local offset 0 m
  write_to_memory offset_local offset list_union_type = do memory ← get_memory; raise type_error
  write_to_memory offset_local offset _ = do
    memory ← get_memory
    write_offset_length offset_local offset memory

  -- The values of a tuple are written from the last to the first, each at the sum of the sizes
  -- before it, `delta`. All the sizes are taken before the first write.
  pub write_fields_to_memory : LocalId → ℕ → ℕ → TypeMap → Gen ℕ
  write_fields_to_memory offset_local offset delta TypeMap.end = pure 0
  write_fields_to_memory offset_local offset delta (field k t m) = do
    size ← or_panic (get_type_size t)
    bytes_written ← write_fields_to_memory offset_local offset (add32 delta size) m
    n ← write_to_memory offset_local (add32 offset delta) t
    pure (add32 bytes_written n)

unfoldable pub load_pair : LocalId → ℕ → ValType → ℕ → ℕ → Gen ℕ
load_pair offset literal_offset ty width memory = do
  emit (local_get offset ∷ load ty memory width literal_offset ∷ [])
  emit (local_get offset ∷ load ty memory width (add32 literal_offset width) ∷ [])
  pure (add32 width width)

unfoldable mutual
  pub read_from_memory : LocalId → ℕ → TypeSignature → Gen ℕ
  read_from_memory offset literal_offset int_type = do
    memory ← get_memory
    load_pair offset literal_offset i64 8 memory
  read_from_memory offset literal_offset uint_type = do
    memory ← get_memory
    load_pair offset literal_offset i64 8 memory
  read_from_memory offset literal_offset (optional_type t) = do
    memory ← get_memory
    emit (local_get offset ∷ load i32 memory 4 literal_offset ∷ [])
    n ← read_from_memory offset (add32 literal_offset 4) t
    pure (add32 4 n)
  read_from_memory offset literal_offset (response_type t u) = do
    memory ← get_memory
    emit (local_get offset ∷ load i32 memory 4 literal_offset ∷ [])
    n ← read_from_memory offset (add32 literal_offset 4) t
    let adjust = add32 4 n
    k ← read_from_memory offset (add32 literal_offset adjust) u
    pure (add32 adjust k)
  read_from_memory offset literal_offset (tuple_type m) = do
    memory ← get_memory
    read_fields_from_memory offset literal_offset 0 m
  read_from_memory offset literal_offset no_type = do
    memory ← get_memory
    emit (i32_const 0 ∷ [])
    pure 4
  read_from_memory offset literal_offset bool_type = do
    memory ← get_memory
    emit (local_get offset ∷ load i32 memory 4 literal_offset ∷ [])
    pure 4
  read_from_memory offset literal_offset list_union_type = do memory ← get_memory; raise type_error
  read_from_memory offset literal_offset _ = do
    memory ← get_memory
    load_pair offset literal_offset i32 4 memory

  -- The loop over a tuple's types, with the bytes read so far.
  pub read_fields_from_memory : LocalId → ℕ → ℕ → TypeMap → Gen ℕ
  read_fields_from_memory offset literal_offset adjust TypeMap.end = pure adjust
  read_fields_from_memory offset literal_offset adjust (field k t m) = do
    n ← read_from_memory offset (add32 literal_offset adjust) t
    read_fields_from_memory offset literal_offset (add32 adjust n) m
