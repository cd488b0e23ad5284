-- ===== src/Common/Int.antt =====
-- Signed integers over the native numbers, and `int64_t` as its bit pattern.
use Prim.Native.Nat.{ℕ, ◌-◌, ◌%◌, ◌^◌, ◌<◌}
use mathlib.Core.Path.{◌≡◌}
use mathlib.Core.Bool.{Bool, true, false}
use native.Mathlib.Omega.{arith}
use nexus_db_main.Common.Tests.{ltb, ◌==◌, if◌then◌else◌}

-- `negsuc n` is -(n + 1).
pub data ℤ : Type 0 where
  pos : ℕ → ℤ
  negsuc : ℕ → ℤ

abbrev pub eq_ℤ : ℤ → ℤ → Bool
eq_ℤ (pos a) (pos b) = a == b
eq_ℤ (negsuc a) (negsuc b) = a == b
eq_ℤ _ _ = false

abbrev pub ltb_ℤ : ℤ → ℤ → Bool
ltb_ℤ (pos a) (pos b) = ltb a b
ltb_ℤ (pos a) (negsuc b) = false
ltb_ℤ (negsuc a) (pos b) = true
ltb_ℤ (negsuc a) (negsuc b) = ltb b a

abbrev pub IsI64 : ℤ → Type 0
IsI64 (pos n) = n < 2 ^ 63
IsI64 (negsuc n) = n < 2 ^ 63

-- `static_cast<uint64_t>` of an `int64_t`, and back.
unfoldable pub u64_of_i64 : ℤ → ℕ
u64_of_i64 (pos n) = n % 2 ^ 64
u64_of_i64 (negsuc n) = 2 ^ 64 - 1 - n % 2 ^ 64

unfoldable pub i64_of_u64 : ℕ → ℤ
i64_of_u64 n = if ltb n (2 ^ 63) then pos n else negsuc (2 ^ 64 - 1 - n)

pub i64_of_u64-u64_of_i64 : (i : ℤ) → IsI64 i → i64_of_u64 (u64_of_i64 i) ≡ i
unfolding i64_of_u64 u64_of_i64
i64_of_u64-u64_of_i64 (pos n) h = ground arith
i64_of_u64-u64_of_i64 (negsuc n) h = ground arith

pub u64_of_i64-lt : (i : ℤ) → u64_of_i64 i < 2 ^ 64
unfolding u64_of_i64
u64_of_i64-lt (pos n) = omega arith
u64_of_i64-lt (negsuc n) = omega arith
