-- ===== src/Image/Words.antt =====
-- Reads of the validator of src/thunk/lsti.c, on a little-endian machine.
use lazyscript.Prelude.{
  ℕ, zero, suc, ◌+◌, ◌*◌, Bool, true, false, Option, none, some, List, get_elem?,
}

-- `lsti_image_t`: the bytes that can be read from `base` on, and the size of the image. The bytes
-- may go on behind the image.
pub record Image : Type 0 where
  pub mem : List ℕ
  pub size : ℕ

-- A part of the validator goes on, returns -EINVAL, or reads outside the memory.
pub data Result (A : Type 0) : Type 0 where
  ok : A → Result A
  einval overrun : Result A

abbrev pub and_then : {A B : Type 0} → (A → Result B) → Result A → Result B
and_then f (ok a) = f a
and_then f einval = einval
and_then f overrun = overrun

infixl 5 ◌>>=◌ ◌>>◌
unfoldable pub ◌>>=◌ : {A B : Type 0} → Result A → (A → Result B) → Result B
m >>= f = and_then f m

abbrev pub ◌>>◌ : {A B : Type 0} → Result A → Result B → Result B
m >> k = m >>= λ _. k

unfoldable pub guard : Bool → Result (Unit {0})
guard true = ok tt
guard false = einval

unfoldable pub byte : Option ℕ → Result ℕ
byte none = overrun
byte (some b) = ok b

-- the number in `n` bytes
unfoldable pub word : ℕ → List ℕ → ℕ → Result ℕ
unfolding ◌>>=◌ byte
word zero mem off = ok 0
word (suc n) mem off = do b ← byte (get_elem? mem off); r ← word n mem (off + 1); ok (b + 256 * r)
