-- ===== src/Base/Int.antt =====
-- Signed integers over the native numbers, as Go's int64 values and durations need them.
use Prim.Native.Nat.{ℕ, suc, ◌+◌, ◌-◌, ◌*◌, ◌%◌, ◌≤◌, ◌<◌}
use mathlib.Core.Path.{◌≡◌}
use mathlib.Core.Bool.{Bool}
use native.Mathlib.Omega.{arith}
use session_proxy.Base.Tests.{ltb, leb, if◌then◌else◌}

-- `negsuc n` is -(n + 1).
pub data ℤ : Type 0 where
  pos : ℕ → ℤ
  negsuc : ℕ → ℤ

abbrev pub pos_part : ℤ → ℕ
pos_part (pos n) = n
pos_part (negsuc n) = 0

abbrev pub neg_part : ℤ → ℕ
neg_part (pos n) = 0
neg_part (negsuc n) = suc n

infix 50 ◌≤ℤ◌ ◌<ℤ◌
abbrev pub ◌≤ℤ◌ : ℤ → ℤ → Type 0
a ≤ℤ b = pos_part a + neg_part b ≤ pos_part b + neg_part a

abbrev pub ◌<ℤ◌ : ℤ → ℤ → Type 0
a <ℤ b = pos_part a + neg_part b < pos_part b + neg_part a

-- a < b and a <= b as Go tests them
abbrev pub ltb_ℤ : ℤ → ℤ → Bool
ltb_ℤ a b = ltb (pos_part a + neg_part b) (pos_part b + neg_part a)

abbrev pub leb_ℤ : ℤ → ℤ → Bool
leb_ℤ a b = leb (pos_part a + neg_part b) (pos_part b + neg_part a)

abbrev pub int64_mod : ℕ
int64_mod = 18446744073709551616

abbrev pub int64_max : ℕ
int64_max = 9223372036854775807

-- A bit pattern below 2^64 read as an int64.
abbrev pub to_int64 : ℕ → ℤ
to_int64 m = if leb m int64_max then pos m else negsuc (int64_mod - 1 - m)

-- time.Duration(seconds) * time.Second: a product of int64 values, which wraps.
unfoldable pub seconds_to_duration : ℤ → ℤ
seconds_to_duration (pos n) = to_int64 (n * 1000000000 % int64_mod)
seconds_to_duration (negsuc n) =
    to_int64 ((int64_mod - (suc n * 1000000000) % int64_mod) % int64_mod)

-- t.Add(d) on instants counted in nanoseconds
abbrev pub add_duration : ℕ → ℤ → ℤ
add_duration t (pos d) = pos (t + d)
add_duration t (negsuc d) = if ltb d t then pos (t - suc d) else negsuc (d - t)

-- The multiple of 1000 at or below: an instant in whole microseconds.
abbrev pub floor_micros : ℤ → ℤ
floor_micros (pos n) = pos (n - n % 1000)
floor_micros (negsuc n) = negsuc (n - n % 1000 + 999)

-- Within 292 years the product is exact.
pub seconds_to_duration_exact :
    (n : ℕ) → n ≤ 9223372036 → seconds_to_duration (pos n) ≡ pos (n * 1000000000)
unfolding seconds_to_duration
seconds_to_duration_exact n h = ground arith
