-- ===== src/Base/Words.antt =====
-- `size_t` arithmetic on 64 bits, with its wrap-around, and the signed `int` that a cast gives.
use Prim.Native.Nat.{ℕ, ◌+◌, ◌*◌, ◌-◌, ◌/◌, ◌%◌, ◌^◌, ◌<◌}
use mathlib.Core.Path.{◌≡◌, ap}
use native.Mathlib.Omega.{arith}
use mathlib.Core.Bool.{Bool, true, false}
use linen.Base.Tests.{ltb, ◌==◌, if◌then◌else◌}

abbrev pub add_size : ℕ → ℕ → ℕ
add_size a b = (a + b) % 2 ^ 64

abbrev pub sub_size : ℕ → ℕ → ℕ
sub_size a b = (a + 2 ^ 64 - b) % 2 ^ 64

-- `negsuc n` is -(n + 1).
pub data ℤ : Type 0 where
  pos : ℕ → ℤ
  negsuc : ℕ → ℤ

-- `(int)x` of a `size_t`: the low 32 bits, read in two's complement.
unfoldable pub int_of_size : ℕ → ℤ
int_of_size x =
    if ltb (x % 2 ^ 32) (2 ^ 31) then pos (x % 2 ^ 32) else negsuc (2 ^ 32 - 1 - x % 2 ^ 32)

-- `x < 0`
abbrev pub is_negative : ℤ → Bool
is_negative (pos n) = false
is_negative (negsuc n) = true

pub int_of_size-small : (x : ℕ) → x < 2 ^ 31 → int_of_size x ≡ pos x
unfolding int_of_size
int_of_size-small x small = ground arith

-- The cast keeps the low 32 bits only.
pub int_of_size-wraps : (x n : ℕ) → int_of_size (x + n * 2 ^ 32) ≡ int_of_size x
unfolding int_of_size
int_of_size-wraps x n =
    ap (λ y. if ltb y (2 ^ 31) then pos y else negsuc (2 ^ 32 - 1 - y)) (omega arith)

-- `events & (1 << k)`
abbrev pub has_bit : ℕ → ℕ → Bool
has_bit k events = events / 2 ^ k % 2 == 1

-- `events |= 1 << k`
abbrev pub or_bit : ℕ → ℕ → ℕ
or_bit k events = if has_bit k events then events else events + 2 ^ k
