-- ===== src/Common/Int.antt =====
-- `DDS_Long`, a signed 32-bit integer with two's complement wrap-around, and `size_t`, an unsigned
-- 64-bit integer. `negsuc n` is -(n + 1).
use Prim.Native.Nat.{ℕ, zero, suc, ◌+◌, ◌-◌, ◌%◌, ◌≤◌, ◌<◌}
use mathlib.Core.Path.{◌≡◌}
use mathlib.Core.Logic.{◌↔◌}
use mathlib.Core.Bool.{Bool, true, false}
use native.Mathlib.Omega.{arith}
use rticonnextdds_ros2_adapt.Common.Tests.{leb, ◌==◌, if◌then◌else◌}

pub data ℤ : Type 0 where
  pos : ℕ → ℤ
  negsuc : ℕ → ℤ

abbrev pub eq_ℤ : ℤ → ℤ → Bool
eq_ℤ (pos a) (pos b) = a == b
eq_ℤ (negsuc a) (negsuc b) = a == b
eq_ℤ _ _ = false

abbrev pub is_negative : ℤ → Bool
is_negative (pos n) = false
is_negative (negsuc n) = true

-- INT_MAX of limits.h.
abbrev pub int_max : ℕ
int_max = 2147483647

-- The value that `x++` leaves in a 32-bit `x`.
unfoldable pub inc32 : ℤ → ℤ
inc32 (pos n) = if n == int_max then negsuc int_max else pos (n + 1)
inc32 (negsuc zero) = pos 0
inc32 (negsuc (suc n)) = negsuc n

-- The values of a 32-bit integer.
abbrev pub IsInt32 : ℤ → Type 0
IsInt32 (pos n) = n ≤ int_max
IsInt32 (negsuc n) = n ≤ int_max

-- A `size_t` that is passed where a `DDS_Long` is asked for keeps its 32 low bits.
unfoldable pub long_of_size : ℕ → ℤ
long_of_size n =
    if leb (n % 4294967296) int_max
    then pos (n % 4294967296)
    else negsuc (4294967295 - n % 4294967296)

pub eq_ℤ_iff : (a b : ℤ) → (eq_ℤ a b ≡ true) ↔ (a ≡ b)
eq_ℤ_iff a b = ground arith

pub inc32-IsInt32 : (a : ℤ) → IsInt32 a → IsInt32 (inc32 a)
unfolding inc32
inc32-IsInt32 (pos n) h = ground arith
inc32-IsInt32 (negsuc zero) h = omega arith
inc32-IsInt32 (negsuc (suc n)) h = omega arith

pub inc32-pos : (n : ℕ) → n < int_max → inc32 (pos n) ≡ pos (n + 1)
unfolding inc32
inc32-pos n h = ground arith

pub long_of_size-pos : (n : ℕ) → n ≤ int_max → long_of_size n ≡ pos n
unfolding long_of_size
long_of_size-pos n h = ground arith

-- 2 ^ 64.
abbrev pub size_mod : ℕ
size_mod = 18446744073709551616

-- `x += 1` and `x -= 1` on a `size_t`.
abbrev pub inc_size : ℕ → ℕ
inc_size n = (n + 1) % size_mod

abbrev pub dec_size : ℕ → ℕ
dec_size n = (n + 18446744073709551615) % size_mod

pub inc_size-mod : (n : ℕ) → inc_size (n % size_mod) ≡ suc n % size_mod
inc_size-mod n = omega arith

pub dec_size-mod : (n : ℕ) → dec_size (suc n % size_mod) ≡ n % size_mod
dec_size-mod n = omega arith
