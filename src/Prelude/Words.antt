-- ===== src/Prelude/Words.antt =====
-- 32-bit arithmetic on bit patterns, and little-endian bytes.
use Prim.Native.Nat.{ℕ, zero, suc, ◌+◌, ◌*◌, ◌/◌, ◌%◌, ◌^◌, ◌<◌}
use mathlib.Core.Path.{◌≡◌, refl, ap}
use mathlib.Core.List.{List, [], ◌∷◌}
use native.Mathlib.Omega.{arith}
use native.Mathlib.Nat.{mul_comm}
use clarity_wasm.Prelude.Lists.{length}

-- `a + b` and `a * b` of two `i32` or `u32`, as bit patterns: they wrap.
unfoldable pub add32 : ℕ → ℕ → ℕ
add32 a b = (a + b) % 2 ^ 32

unfoldable pub mul32 : ℕ → ℕ → ℕ
mul32 a b = a * b % 2 ^ 32

pub add32-eq-add : (a b : ℕ) → a + b < 2 ^ 32 → add32 a b ≡ a + b
unfolding add32
add32-eq-add a b h = omega arith

pub add32-zero : (a : ℕ) → a < 2 ^ 32 → add32 a 0 ≡ a
unfolding add32
add32-zero a h = omega arith

pub add32_assoc : (a b c : ℕ) → add32 (add32 a b) c ≡ add32 a (add32 b c)
unfolding add32
add32_assoc a b c = omega arith

pub add32_comm : (a b : ℕ) → add32 a b ≡ add32 b a
unfolding add32
add32_comm a b = omega arith

pub mul32_comm : (a b : ℕ) → mul32 a b ≡ mul32 b a
unfolding mul32
mul32_comm a b = rw (mul_comm a b) refl

-- `n.to_le_bytes()` of a word of `k` bytes, and back.
unfoldable pub to_le_bytes : ℕ → ℕ → List ℕ
to_le_bytes zero n = []
to_le_bytes (suc k) n = (n % 256) ∷ to_le_bytes k (n / 256)

unfoldable pub from_le_bytes : List ℕ → ℕ
from_le_bytes [] = 0
from_le_bytes (b ∷ bs) = b + 256 * from_le_bytes bs

pub length-to_le_bytes : (k n : ℕ) → length (to_le_bytes k n) ≡ k
unfolding to_le_bytes
length-to_le_bytes zero n = refl
length-to_le_bytes (suc k) n = ap suc (length-to_le_bytes k (n / 256))

pub from_le_bytes-to_le_bytes_i32 : (n : ℕ) → n < 2 ^ 32 → from_le_bytes (to_le_bytes 4 n) ≡ n
unfolding from_le_bytes to_le_bytes
from_le_bytes-to_le_bytes_i32 n h = omega arith

pub from_le_bytes-to_le_bytes_i64 : (n : ℕ) → n < 2 ^ 64 → from_le_bytes (to_le_bytes 8 n) ≡ n
unfolding from_le_bytes to_le_bytes
from_le_bytes-to_le_bytes_i64 n h = omega arith
