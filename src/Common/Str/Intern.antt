-- ===== src/Common/Str/Intern.antt =====
-- The table in which src/common/str.c keeps one string for each text: open addressing, doubled while
-- more than half of it would be full. A string of the table is told from others by the address of
-- its buffer. Strings are taken out by the collector only, for which the table keeps them alive.
mod Search
mod Packed
mod Resize
pub mod Model
pub mod Laws
mod Tests
use lazyscript.Prelude.{
  ℕ, zero, suc, ◌+◌, ◌*◌, ◌%◌, ◌^◌, Bool, true, false, Option, none, some, List, [], ◌∷◌, length,
  set, get_elem?, replicate, leb, ◌==◌, if◌then◌else◌,
}
use lazyscript.Common.Str.{LsStr, calc_hash, lsstrcmp, is_zero}

abbrev pub and_then : {A B : Type 0} → (A → Option B) → Option A → Option B
and_then f none = none
and_then f (some a) = f a

infixl 5 ◌>>=◌
abbrev pub ◌>>=◌ : {A B : Type 0} → Option A → (A → Option B) → Option B
m >>= f = and_then f m

abbrev pub Ents : Type 0
Ents = List (Option LsStr)

-- `lsstr_ht_t`; its capacity is the length of the entries
pub record StrHt : Type 0 where
  pub ents : Ents
  pub size : ℕ

unfoldable pub next : ℕ → ℕ → ℕ
next i cap = if leb cap (suc i) then 0 else suc i

-- a look at a slot, with the answer of the later ones
unfoldable pub look : (LsStr → Bool) → ℕ → Option ℕ → Option (Option LsStr) → Option ℕ
look hit i rest none = none
look hit i rest (some none) = some i
look hit i rest (some (some ent)) = if hit ent then some i else rest

-- The search from a slot on, with one unit of fuel for each look.
unfoldable pub search : (LsStr → Bool) → ℕ → Ents → ℕ → Option ℕ
unfolding look next
search hit zero ents i = none
search hit (suc fuel) ents i =
    look hit i (search hit fuel ents (next i (length ents))) (get_elem? ents i)

-- `lsstr_ht_get_raw`: the slot of a string. The search goes round, so after one round it has no end.
unfoldable pub get_raw : Ents → LsStr → Option ℕ
unfolding search
get_raw ents key =
    search (λ ent. is_zero (lsstrcmp ent key)) (length ents) ents
      (calc_hash key.bytes % length ents)

-- an entry is moved to a slot, which an assertion wants empty
unfoldable pub fill : Ents → LsStr → ℕ → Option (Option LsStr) → Option Ents
fill ents e i (some none) = some (set ents i (some e))
fill ents e i (some (some old)) = none
fill ents e i none = none

unfoldable pub move : Ents → LsStr → Option Ents
unfolding get_raw fill
move ents e = do i ← get_raw ents e; fill ents e i (get_elem? ents i)

-- the loop of `lsstr_ht_resize` over the old entries
unfoldable pub move_all : Ents → Ents → Option Ents
unfolding move
move_all [] ents = some ents
move_all (none ∷ old) ents = move_all old ents
move_all (some e ∷ old) ents = do moved ← move ents e; move_all old moved

-- `lsstr_ht_resize`; the size is set in the loop
unfoldable pub resize : StrHt → ℕ → Option StrHt
unfolding move_all
resize t new_capacity =
    if leb t.size new_capacity
    then (if length t.ents == new_capacity then some t else do
      ents ← move_all t.ents (replicate new_capacity none)
      some (record { ents = ents; size = if length t.ents == 0 then 0 else t.size }))
    else none

-- What a slot gives; an empty one gets a new string, whose buffer is at `addr`.
unfoldable pub put_at : ℕ → StrHt → LsStr → ℕ → Option (Option LsStr) → Option (LsStr × StrHt)
put_at addr t key i none = none
put_at addr t key i (some (some e)) = some (e, t)
put_at addr t key i (some none) =
    let new_str : LsStr = record { buf = addr; bytes = key.bytes } in
    some (new_str, record { ents = set t.ents i (some new_str); size = suc t.size })

unfoldable pub put_raw : ℕ → StrHt → LsStr → Option (LsStr × StrHt)
unfolding get_raw put_at
put_raw addr t key = do i ← get_raw t.ents key; put_at addr t key i (get_elem? t.ents i)

-- `lssize_t` has 32 bits
abbrev pub word : ℕ
word = 2 ^ 32

-- The capacity is doubled while it is not above twice the new size, in 32 bits. After 32 rounds it is
-- 0, and stays so without end.
unfoldable pub double_cap : ℕ → ℕ → ℕ → Option ℕ
double_cap zero size cap = none
double_cap (suc fuel) size cap =
    let larger = double_cap fuel size (cap * 2 % word) in
    if leb cap ((size + 1) % word * 2 % word) then larger else some cap

-- `lsstr_ht_put_raw_resizable`; a resize to the same capacity does nothing
unfoldable pub put_raw_resizable : ℕ → StrHt → LsStr → Option (LsStr × StrHt)
unfolding put_raw double_cap resize
put_raw_resizable addr t key = do
  cap ← double_cap 33 t.size (length t.ents)
  u ← resize t cap
  put_raw addr u key

unfoldable pub ensure_init : Option StrHt → StrHt
ensure_init (some t) = t
ensure_init none = record { ents = replicate 16 none; size = 0 }

-- `lsstr_new`: the string, and the table. `none` is a run without end, or an assertion that fails.
unfoldable pub new : ℕ → Option StrHt → LsStr → Option (LsStr × StrHt)
unfolding put_raw_resizable ensure_init
new addr t key = put_raw_resizable addr (ensure_init t) key
