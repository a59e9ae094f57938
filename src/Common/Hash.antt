-- ===== src/Common/Hash.antt =====
-- The hash table of src/common/hash.c, with separate chaining. A key is the bytes of its string,
-- and two keys are compared by them, as `lsstrcmp` does for interned strings.
pub mod Entries
pub mod Buckets
pub mod Rehash
pub mod Laws
use lazyscript.Prelude.{
  ℕ, zero, suc, ◌+◌, ◌-◌, ◌*◌, ◌%◌, ◌^◌, Bool, true, false, ◌||◌, Option, none, some, List, [], ◌∷◌,
  ◌++◌, Bytes, length, get_or, set, replicate, ltb, leb, ◌==◌, if◌then◌else◌,
}
use lazyscript.Common.Str.{calc_hash}
use lazyscript.Common.Hash.Entries.{Chain, chain_get, chain_put, chain_remove, grown}

pub record Table (V : Type 0) : Type 0 where
  pub entries : List (Chain V)
  pub size : ℕ
  pub capacity : ℕ

-- capacity > 0 is asserted
unfoldable pub new : {V : Type 0} → ℕ → Table V
new capacity = record { entries = replicate capacity []; size = 0; capacity = capacity }

unfoldable pub slot : Bytes → ℕ → ℕ
slot k capacity = calc_hash k % capacity

abbrev pub max_capacity : ℕ
max_capacity = 2 ^ 26

module _ {V : Type 0} where
  unfoldable pub get : Table V → Bytes → Option V
  unfolding slot
  get t k = chain_get k (get_or t.entries (slot k t.capacity) [])

  -- `lshash_put_raw` at the slot of the key: the buckets and the size after it
  unfoldable pub put_raw : ℕ → Bytes → V → List (Chain V) × ℕ → List (Chain V) × ℕ
  unfolding slot
  put_raw capacity k v (bs, n) =
      let i = slot k capacity in
      let c = get_or bs i [] in (set bs i (chain_put k v c), n + grown k c)

  unfoldable pub move_chain : ℕ → Chain V → List (Chain V) × ℕ → List (Chain V) × ℕ
  unfolding put_raw
  move_chain capacity [] acc = acc
  move_chain capacity ((k, v) ∷ c) acc = move_chain capacity c (put_raw capacity k v acc)

  unfoldable pub move_all : ℕ → List (Chain V) → List (Chain V) × ℕ → List (Chain V) × ℕ
  unfolding move_chain
  move_all capacity [] acc = acc
  move_all capacity (c ∷ cs) acc = move_all capacity cs (move_chain capacity c acc)

  -- a capacity below the size is corrected
  unfoldable pub rehash : Table V → ℕ → Table V
  unfolding move_all
  rehash t wanted =
      let capacity = if ltb wanted t.size then t.size * 2 else wanted in
      let r = move_all capacity t.entries (replicate capacity [], 0) in
      record { entries = r.0; size = r.1; capacity = capacity }

  -- the test and the reset of a table that is taken for corrupt; a negative size does not occur
  unfoldable pub checked : Table V → Table V
  unfolding new
  checked t = if t.capacity == 0 || ltb max_capacity t.capacity then new 16 else t

  -- size >= capacity * 0.75
  unfoldable pub roomy : Table V → Table V
  unfolding rehash
  roomy t = if leb (t.capacity * 3) (t.size * 4) then rehash t (t.capacity * 2) else t

  -- the table after the call, and the value that was replaced
  unfoldable pub put : Table V → Bytes → V → Table V × Option V
  unfolding checked roomy put_raw
  put t k v =
      let t' = roomy (checked t) in
      let r = put_raw t'.capacity k v (t'.entries, t'.size) in
      (
        record { entries = r.0; size = r.1; capacity = t'.capacity },
        chain_get k (get_or t'.entries (slot k t'.capacity) []),
      )

  -- the table after the call, and the value that was removed
  unfoldable pub remove : Table V → Bytes → Table V × Option V
  unfolding slot
  remove t k =
      let i = slot k t.capacity in
      let c = get_or t.entries i [] in
      (
        record {
          entries = set t.entries i (chain_remove k c);
          size = if grown k c == 0 then t.size - 1 else t.size;
          capacity = t.capacity;
        },
        chain_get k c,
      )

  -- the calls that `lshash_foreach` makes, in order
  unfoldable pub foreach : List (Chain V) → Chain V
  foreach [] = []
  foreach (c ∷ cs) = c ++ foreach cs
