-- ===== src/Linker/Blocks/Tests.antt =====
-- The header hash of the block at height 3, in a chain of ten blocks.
use clarity_wasm.Prelude.{ℕ, ◌+◌, ◌*◌, ◌≤◌, ◌≡◌, refl, List, none, some, ok, arith, replicate}
use clarity_wasm.Clarity.{buffer_type, optional_type, buffer}
use clarity_wasm.Layout.{clar2wasm_ty}
use clarity_wasm.Wasm.ByteMemory.{byte_memory}
use clarity_wasm.Host.Library.{accepting}
use clarity_wasm.Host.RoundTrip.Types.{width}
use clarity_wasm.Host.RoundTrip.Values.{Storable, of_some, of_buffer}
use clarity_wasm.Linker.Blocks.Defs.{BlockDatabase, wide}
use clarity_wasm.Linker.Blocks.Properties.{block_info_header_hash, Found, answer, get_property}
use clarity_wasm.Linker.Blocks.Writers.{as_value, Answered}
use clarity_wasm.Linker.Blocks.Answers.{get_property-Answered}

abbrev hash : ℕ → List ℕ
hash n = replicate 32 n

-- The state is the current height.
abbrev chain : BlockDatabase ℕ
chain = record {
  get_current_block_height = λ g. g;
  get_block_time = λ g h. ok (600 * h);
  get_burn_block_time = λ g h. ok (600 * h);
  get_block_vrf_seed = λ g h. ok (hash h);
  get_block_header_hash = λ g h. ok (hash h);
  get_burnchain_block_header_hash = λ g h. ok (hash h);
  get_index_block_header_hash = λ g h. ok (hash h);
  get_miner_address = λ g h. ok (record { version = 22; hash = replicate 20 h });
  get_miner_spend_winner = λ g h. ok h;
  get_miner_spend_total = λ g h. ok h;
  get_block_reward = λ g h. ok none;
  get_burnchain_block_header_hash_for_burnchain_height = λ g h. ok (some (hash h));
}

abbrev found : Found
found = some (buffer_type 32, buffer (hash 3))

hash-Storable : Storable byte_memory accepting (optional_type (buffer_type 32)) (as_value found) 32
hash-Storable = of_some refl (of_buffer {bs = hash 3} refl)

known : answer chain block_info_header_hash 10 (wide 3 0) ≡ ok found
unfolding wide
known = refl

room : 8 + width (optional_type (buffer_type 32)) + 32 ≤ byte_memory.size (replicate 64 0)
unfolding clar2wasm_ty
room = omega arith

get_property-Answered_example :
    Answered byte_memory accepting
      (buffer_type 32)
      found
      32
      (replicate 64 0)
      8
      (get_property byte_memory accepting chain block_info_header_hash 10 (replicate 64 0) 3 0 8)
get_property-Answered_example =
    get_property-Answered byte_memory accepting chain block_info_header_hash (buffer_type 32) 10
      (replicate 64 0) 3 0 8 known tt refl hash-Storable room (omega arith)
