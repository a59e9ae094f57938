-- ===== src/Common/Tests.antt =====
-- Runs of the containers, and their theorems at small tables.
use lazyscript.Prelude.{
  ◌≢◌, ◌⊎◌, ◌∷◌, ◌↔◌, ℕ, ◌+◌, ◌-◌, ◌≡◌, refl, none, some, [], arith, Bytes, codes, same,
}
use lazyscript.Common.Hash.{Table, new, get, put, remove, rehash}
use lazyscript.Common.Hash.Entries.{chain_get, chain_put, chain_remove, grown}
use lazyscript.Common.Hash.Buckets.{Holds, update}
use lazyscript.Common.Hash.Rehash.{rehash-Holds}
use lazyscript.Common.Hash.Laws.{Models, new-Models, get-Models, put-Models, remove-Models}
use lazyscript.Common.LsInt
use lazyscript.Common.LsInt.Laws.{IsOpposite, get-sub_iff}
use lazyscript.Common.Str.{LsStr, is_zero, calc_hash, lsstrcmp, sub}
use lazyscript.Common.Str.Order.{Coherent, lsstrcmp-zero_iff}
use lazyscript.Common.Str.Literal.{ok, parse, print}
use lazyscript.Common.Str.Literal.RoundTrip.{parse-print}
use lazyscript.Prelude.Int.{pos, negsuc, ◌-ℤ◌}

-- all that the runs below compute with
hashing : Unit {0}
unfolding new get put remove rehash chain_get chain_put chain_remove grown calc_hash same
hashing = tt

abbrev a : Bytes
a = codes "a"

abbrev b : Bytes
b = codes "b"

abbrev table0 : Table ℕ
table0 = new 1

-- the second insertion finds the table full and doubles it
abbrev table2 : Table ℕ
table2 = (put (put table0 a 1).0 b 2).0

two_keys : (get table2 a ≡ some 1) × (get table2 b ≡ some 2) × (table2.capacity ≡ 2)
unfolding hashing
two_keys = (refl, refl, refl)

replaced : (put table2 a 5).1 ≡ some 1
unfolding hashing
replaced = refl

removed : get (remove table2 a).0 a ≡ none
unfolding hashing
removed = refl

table1-Models : Models (update (λ _. none) a (some 1)) 1 (put table0 a 1).0
table1-Models =
    (put-Models (λ _. none) 0 table0 a 1 (new-Models 1 (omega arith))
      (unfold hashing in omega arith)).0

new-Models_example : Models (λ _. none) 0 table0
new-Models_example = new-Models 1 (omega arith)

put-Models_example :
    Models (update (λ _. none) a (some 1)) (0 + 1) (put table0 a 1).0 × ((put table0 a 1).1 ≡ none)
put-Models_example =
    put-Models (λ _. none) 0 table0 a 1 (new-Models 1 (omega arith)) (unfold hashing in omega arith)

remove-Models_example :
    Models
      (update (update (λ _. none) a (some 1)) b none)
      (1 + 1 - 1)
      (remove (put table0 a 1).0 b).0
    × ((remove (put table0 a 1).0 b).1 ≡ none)
unfolding same
remove-Models_example =
    remove-Models (update (λ _. none) a (some 1)) 1 (put table0 a 1).0 b table1-Models

get-Models_example : get (put table0 a 1).0 a ≡ some 1
unfolding same
get-Models_example = get-Models (update (λ _. none) a (some 1)) 1 (put table0 a 1).0 a table1-Models

rehash-Holds_example :
    Holds
      (rehash table0 3).capacity
      (λ _. none)
      0
      ((rehash table0 3).entries, (rehash table0 3).size)
    × ((rehash table0 3).capacity ≡ 3)
rehash-Holds_example =
    rehash-Holds table0 3 (λ _. none) 0 (new-Models 1 (omega arith)).holds (omega arith)
      (omega arith)

abbrev left : LsStr
left = record { buf = 1; bytes = codes "ab" }

abbrev right : LsStr
right = record { buf = 5; bytes = codes "ac" }

-- a prefix that shares the buffer
abbrev prefix : LsStr
prefix = record { buf = 1; bytes = codes "a" }

less : lsstrcmp left right ≡ negsuc 0
unfolding lsstrcmp
less = refl

prefix_equal : (sub left 0 1 ≡ some prefix) × (lsstrcmp left prefix ≡ pos 0)
unfolding lsstrcmp sub
prefix_equal = (refl, refl)

left-Coherent : Coherent left right
left-Coherent e = absurd (omega (arith, e))

lsstrcmp-zero_iff_example : (lsstrcmp left right ≡ pos 0) ↔ (codes "ab" ≡ codes "ac")
lsstrcmp-zero_iff_example = lsstrcmp-zero_iff left right left-Coherent (omega arith) (omega arith)

parse-print_example : parse (print (codes "a\n\"")) ≡ ok (codes "a\n\"")
parse-print_example = parse-print (codes "a\n\"") (omega arith, (omega arith, (omega arith, tt)))

octal_drops : parse (codes "\"\\1x\"") ≡ ok (1 ∷ [])
unfolding parse
octal_drops = refl

-- 0 - 5 is 5
null_minus : LsInt.sub none (LsInt.new (pos 5)) ≡ some (pos 5)
unfolding LsInt.sub LsInt.new
null_minus = refl

get-sub_iff_example :
    (LsInt.get (LsInt.sub none (some (pos 5)))
      ≡ LsInt.wrap (LsInt.get none -ℤ LsInt.get (some (pos 5))))
    ↔ ((◌≢◌ {A = LsInt.LsInt} none none) ⊎ IsOpposite (LsInt.get (some (pos 5))))
get-sub_iff_example = get-sub_iff none (some (pos 5)) tt (omega arith, unfold is_zero in refl)
