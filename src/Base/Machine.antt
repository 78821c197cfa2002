-- ===== src/Base/Machine.antt =====
-- Conversions between `int`, `std::size_t` and `std::uint64_t`, with their wrap-around.
use Prim.Native.Nat.{ℕ, ◌-◌, ◌%◌, ◌^◌, ◌<◌}
use mathlib.Core.Path.{◌≡◌}
use native.Mathlib.Omega.{arith}
use dmg_md.Base.Tests.{ltb, if◌then◌else◌}
use dmg_md.Base.Int.{ℤ, pos, negsuc, eqb_ℤ, ◌+ℤ◌}

-- `static_cast<int>` of a `std::size_t`, on two's complement.
unfoldable pub int_of_size : ℕ → ℤ
int_of_size n = let r = n % 2 ^ 32 in if ltb r (2 ^ 31) then pos r else negsuc (2 ^ 32 - r - 1)

-- `static_cast<std::size_t>` of an `int`.
unfoldable pub size_of_int : ℤ → ℕ
size_of_int (pos n) = n
size_of_int (negsuc n) = (2 ^ 64 - 1) - n

pub int_of_size-small : (n : ℕ) → n < 2 ^ 31 → int_of_size n ≡ pos n
unfolding int_of_size
int_of_size-small n h = ground arith

-- `++` on an `int`, on two's complement.
unfoldable pub int_succ : ℤ → ℤ
int_succ z = if eqb_ℤ z (pos (2 ^ 31 - 1)) then negsuc (2 ^ 31 - 1) else z +ℤ pos 1

pub int_succ-small : (n : ℕ) → n < 2 ^ 31 - 1 → int_succ (pos n) ≡ pos n +ℤ pos 1
unfolding int_succ
int_succ-small n h = ground arith
