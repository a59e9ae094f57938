-- ===== src/Common/LsInt.antt =====
-- The integers of src/common/int.c: a pointer to an `int`, where NULL stands for 0. An overflow, which
-- C leaves undefined, wraps.
pub mod Laws
use lazyscript.Prelude.{
  ℕ, ◌+◌, ◌-◌, ◌%◌, ◌^◌, Bool, true, false, Option, none, some, Bytes, ltb, ◌==◌, if◌then◌else◌,
}
use lazyscript.Prelude.Int.{ℤ, pos, negsuc, ◌+ℤ◌, ◌-ℤ◌}
use lazyscript.Prelude.Decimal.{show_ℤ}
use lazyscript.Common.Str.{to_int, is_zero}

-- `none` is NULL
abbrev pub LsInt : Type 0
LsInt = Option ℤ

-- the 32 bits of an integer
unfoldable pub bits : ℤ → ℕ
bits (pos n) = n % 2 ^ 32
bits (negsuc n) = 2 ^ 32 - 1 - n % 2 ^ 32

-- the `int` with the bits of the integer
unfoldable pub wrap : ℤ → ℤ
unfolding bits to_int
wrap a = to_int (bits a)

unfoldable pub new : ℤ → LsInt
unfolding is_zero
new v = if is_zero v then none else some v

unfoldable pub get : LsInt → ℤ
get none = pos 0
get (some v) = v

unfoldable pub eq_ℤ : ℤ → ℤ → Bool
eq_ℤ (pos m) (pos n) = m == n
eq_ℤ (negsuc m) (negsuc n) = m == n
eq_ℤ (pos m) (negsuc n) = false
eq_ℤ (negsuc m) (pos n) = false

-- equal pointers have equal values
unfoldable pub eq : LsInt → LsInt → Bool
unfolding is_zero eq_ℤ
eq none none = true
eq none (some b) = is_zero b
eq (some a) none = is_zero a
eq (some a) (some b) = eq_ℤ a b

unfoldable pub add : LsInt → LsInt → LsInt
unfolding new wrap ◌+ℤ◌
add none b = b
add (some a) none = some a
add (some a) (some b) = new (wrap (a +ℤ b))

unfoldable pub sub : LsInt → LsInt → LsInt
unfolding new wrap ◌-ℤ◌
sub none b = b
sub (some a) none = some a
sub (some a) (some b) = new (wrap (a -ℤ b))

unfoldable pub print : LsInt → Bytes
unfolding show_ℤ get
print v = show_ℤ (get v)
