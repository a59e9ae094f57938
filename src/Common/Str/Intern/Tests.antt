-- ===== src/Common/Str/Intern/Tests.antt =====
-- Strings that are interned in an empty table.
use lazyscript.Prelude.{
  ℕ, ◌-◌, ◌^◌, ◌≡◌, refl, Option, none, some, [], ◌∷◌, Bytes, codes, arith, ltb, if◌then◌else◌,
}
use lazyscript.Common.Str.{LsStr, calc_hash, lsstrcmp, is_zero}
use lazyscript.Common.Str.Intern.{ensure_init, double_cap, new, get_raw, search, look, next}
use lazyscript.Common.Str.Intern.Model.{ensure_init-Models}
use lazyscript.Common.Str.Intern.Laws.{Call, Interns, new-Interns, two_calls, new_again}

-- `ab` is behind the addresses below 100, `c` from there on
abbrev text : ℕ → Bytes
text a = if ltb a 100 then codes "ab" else codes "c"

abbrev no_strings : Bytes → Option LsStr
no_strings _ = none

abbrev ab : ℕ → LsStr
ab a = record { buf = a; bytes = codes "ab" }

-- the text is at one address, and its string gets another
abbrev first : Call
first = record { addr = 20; key = ab 10 }

abbrev other : Call
other = record { addr = 120; key = record { buf = 110; bytes = codes "c" } }

abbrev again : Call
again = record { addr = 40; key = ab 30 }

new-Interns_example : Interns text no_strings (new 20 none (ab 10)) 20 (codes "ab") 0
unfolding ensure_init
new-Interns_example =
    new-Interns text no_strings none 20 (ab 10) (ensure_init-Models text)
      (record { here = refl; short = omega arith }) refl (omega arith)

new_again_example : two_calls none first (other ∷ []) again ≡ some (ab 20, ab 20)
unfolding ensure_init
new_again_example =
    new_again text no_strings none first (other ∷ []) again (ensure_init-Models text)
      (record { stands = record { here = refl; short = omega arith }; fresh = refl })
      (record { stands = record { here = refl; short = omega arith }; fresh = refl }, tt)
      (record { stands = record { here = refl; short = omega arith }; fresh = refl }) refl
      (omega arith)

-- A table of 2^31 slots has no next capacity: twice as many is 0, and the loop goes on.
no_next_cap : double_cap 33 (2 ^ 30 - 1) (2 ^ 31) ≡ none
unfolding double_cap
no_next_cap = refl

-- A caller's buffer that is the one of a longer string, as a prefix has it, is taken for that string
-- where the search meets it.
abbrev long : LsStr
long = record { buf = 20; bytes = 97 ∷ 99 ∷ [] }

prefix_taken :
    get_raw (none ∷ some long ∷ none ∷ []) (record { buf = 20; bytes = 97 ∷ [] }) ≡ some 1
unfolding get_raw search look next lsstrcmp is_zero calc_hash
prefix_taken = refl
