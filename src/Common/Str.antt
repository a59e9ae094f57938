-- ===== src/Common/Str.antt =====
-- Strings of src/common/str.c: the hash, the comparison and substrings. A string is its bytes
-- together with the address of its buffer, which the comparison looks at.
pub mod Order
pub mod Literal
pub mod Intern
use lazyscript.Prelude.{
  ℕ, zero, ◌+◌, ◌-◌, ◌*◌, ◌%◌, ◌^◌, Bool, true, false, ◌&&◌, Option, none, some, [], ◌∷◌, Bytes,
  length, take, drop, ltb, leb, ◌==◌, if◌then◌else◌,
}
use lazyscript.Prelude.Int.{ℤ, pos, negsuc}

-- hash = hash * 31 + (buf[i] & 255), in 32 bits
unfoldable pub hash_from : ℕ → Bytes → ℕ
hash_from h [] = h
hash_from h (b ∷ bs) = hash_from ((h * 31 + b % 256) % 2 ^ 32) bs

unfoldable pub calc_hash : Bytes → ℕ
unfolding hash_from
calc_hash bs = hash_from 0 bs

pub record LsStr : Type 0 where
  pub buf : ℕ
  pub bytes : Bytes

abbrev pub get_len : LsStr → ℕ
get_len s = length s.bytes

-- an int with the bits of a 32-bit unsigned number
unfoldable pub to_int : ℕ → ℤ
to_int n = if ltb n (2 ^ 31) then pos n else negsuc (2 ^ 32 - n - 1)

-- memcmp over the common length: its sign is that of the first difference
unfoldable pub memcmp : Bytes → Bytes → ℤ
memcmp [] bs = pos 0
memcmp (a ∷ as') [] = pos 0
memcmp (a ∷ as') (b ∷ bs) = if a == b then memcmp as' bs else if ltb a b then negsuc 0 else pos 1

unfoldable pub is_zero : ℤ → Bool
is_zero (pos zero) = true
is_zero _ = false

-- `lsstrcmp`; the lengths are unsigned, and so is their difference before it becomes an int
unfoldable pub lsstrcmp : LsStr → LsStr → ℤ
unfolding memcmp to_int is_zero
lsstrcmp s t =
    if s.buf == t.buf
    then pos 0
    else (let c = memcmp s.bytes t.bytes in
        if is_zero c then to_int ((get_len s + 2 ^ 32 - get_len t) % 2 ^ 32) else c)

-- `lsstr_sub`; `none` where an assertion fails. The substring points into the buffer.
unfoldable pub sub : LsStr → ℕ → ℕ → Option LsStr
sub s p n =
    if leb p (get_len s) && leb n (get_len s - p)
    then (if p == 0 && n == get_len s
        then some s
        else some (record { buf = s.buf + p; bytes = take n (drop p s.bytes) }))
    else none
