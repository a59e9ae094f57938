-- ===== src/Common/Hash/Laws.antt =====
-- The table as a finite map: what its methods do to the lookups and to the size.
use lazyscript.Prelude.{
  ℕ, ◌+◌, ◌-◌, ◌*◌, ◌≤◌, ◌<◌, ◌≡◌, ◌∙◌, Option, none, some, [], arith, Bytes, length, length-set,
  get_or, leb, Bool-cases, inl, inr,
}
use lazyscript.Common.Hash.{
  Table, new, slot, get, put_raw, checked, roomy, put, remove, max_capacity,
}
use lazyscript.Common.Hash.Entries.{
  chain_remove, is_new, grown-get, grown_le, get-remove, occurrences-remove-le, length-remove,
}
use lazyscript.Common.Hash.Buckets.{
  view, Holds, update, slot-lt, slot_congr, put_raw-Holds, get_or-set, total-set,
}
use lazyscript.Common.Hash.Rehash.{empty-Holds, rehash-Holds}

module _ {V : Type 0} where
  -- The table has room, and is a finite map with `n` keys that reads as `f`.
  pub record Models (f : Bytes → Option V) (n : ℕ) (t : Table V) : Type 0 where
    pub holds : Holds t.capacity f n (t.entries, t.size)
    pub pos : 0 < t.capacity
    pub room : n ≤ t.capacity

  -- A new table of positive capacity is the empty map.
  pub new-Models : (capacity : ℕ) → 0 < capacity → Models (λ _. none) 0 (new {V = V} capacity)
  unfolding new
  new-Models capacity h = record { holds = empty-Holds capacity; pos = h; room = omega arith }

  -- A lookup reads the map.
  pub get-Models :
      (f : Bytes → Option V) (n : ℕ) (t : Table V) (k : Bytes) → Models f n t → get t k ≡ f k
  unfolding get view
  get-Models f n t k h = h.holds.reads k

  -- The table that `put` inserts into has a free slot.
  roomy-Models :
      (f : Bytes → Option V) (n : ℕ) (t : Table V)
      → Models f n t
      → Models f n (roomy t) × (n + 1 ≤ (roomy t).capacity)
  unfolding roomy
  roomy-Models f n t h = elim (Bool-cases (leb (t.capacity * 3) (t.size * 4))) [
    | inl full ↦
        let (holds, width) =
          rehash-Holds t (t.capacity * 2) f n h.holds (omega (arith, h.pos))
            (omega (arith, h.room)) in
        rw full (
          record {
            holds = holds;
            pos = omega (arith, width, h.pos);
            room = omega (arith, width, h.room);
          },
          omega (arith, width, h.room, h.pos),
        )
    | inr free ↦ rw free (h, ground (arith, h.holds.counted))
  ]

  -- Insertion into a table with a free slot.
  abbrev inserted : Table V → Bytes → V → Table V
  inserted t k v =
      let r = put_raw t.capacity k v (t.entries, t.size) in
      record { entries = r.0; size = r.1; capacity = t.capacity }

  is_new_le : (o : Option V) → is_new o ≤ 1
  is_new_le none = omega arith
  is_new_le (some v) = omega arith

  insert-Models :
      (f : Bytes → Option V) (n : ℕ) (t : Table V) (k : Bytes) (v : V)
      → Models f n t
      → n + 1 ≤ t.capacity
      → Models (update f k (some v)) (n + is_new (f k)) (inserted t k v)
  insert-Models f n t k v h free = record {
    holds = put_raw-Holds t.capacity h.pos k v f n (t.entries, t.size) h.holds;
    pos = h.pos;
    room = omega (arith, is_new_le (f k));
  }

  put-checked :
      (f : Bytes → Option V) (n : ℕ) (t : Table V) (k : Bytes) (v : V)
      → Models f n (checked t)
      → Models (update f k (some v)) (n + is_new (f k)) (put t k v).0 × ((put t k v).1 ≡ f k)
  unfolding put view
  put-checked f n t k v h =
      let (kept, free) = roomy-Models f n (checked t) h in
      (insert-Models f n (roomy (checked t)) k v kept free, kept.holds.reads k)

  checked-eq : (t : Table V) → 0 < t.capacity → t.capacity ≤ max_capacity → checked t ≡ t
  unfolding checked
  checked-eq t p q = ground arith

  checked-new : (t : Table V) → max_capacity < t.capacity → checked t ≡ new 16
  unfolding checked
  checked-new t q = ground arith

  -- Up to the largest capacity that is not taken for corrupt, `put` returns the value that stood
  -- under the key, sets it, and counts one more key where there was none; every other key reads as
  -- before, also where the table is rehashed.
  pub put-Models :
      (f : Bytes → Option V) (n : ℕ) (t : Table V) (k : Bytes) (v : V)
      → Models f n t
      → t.capacity ≤ max_capacity
      → Models (update f k (some v)) (n + is_new (f k)) (put t k v).0 × ((put t k v).1 ≡ f k)
  put-Models f n t k v h small = put-checked f n t k v (rw (checked-eq t h.pos small) h)

  -- Above that capacity, which doubling reaches, `put` drops every entry before it inserts: the
  -- table then has the new key alone.
  put-reset :
      (t : Table V) (k : Bytes) (v : V)
      → max_capacity < t.capacity
      → Models (update (λ _. none) k (some v)) 1 (put t k v).0 × ((put t k v).1 ≡ none)
  put-reset t k v large =
      put-checked (λ _. none) 0 t k v (rw (checked-new t large) (new-Models 16 (omega arith)))

  -- `remove` returns the value that stood under the key, clears it, and counts one key less where
  -- there was one; every other key reads as before.
  pub remove-Models :
      (f : Bytes → Option V) (n : ℕ) (t : Table V) (k : Bytes)
      → Models f n t
      → Models (update f k none) (n + is_new (f k) - 1) (remove t k).0 × ((remove t k).1 ≡ f k)
  unfolding remove view
  remove-Models f n t k h =
      let i = slot k t.capacity in
      let c = get_or t.entries i [] in
      let d = chain_remove k c in
      let lt : i < length t.entries = rw h.holds.width (slot-lt k t.capacity h.pos) in
      (
        record {
          holds = record {
            width = length-set t.entries i d ∙ h.holds.width;
            placed = λ q j. rw (get_or-set t.entries i j d lt) (
                ground
                  (arith, h.holds.placed q j, h.holds.placed q i, occurrences-remove-le k q c));
            reads = λ q. rw (get_or-set t.entries i (slot q t.capacity) d lt) (
                ground (
                  arith,
                  h.holds.reads q,
                  h.holds.placed k i,
                  get-remove k q c,
                  slot_congr k q t.capacity,
                ));
            sized =
                ground (
                  arith,
                  h.holds.sized,
                  total-set t.entries i d lt,
                  length-remove k c,
                  grown_le k c,
                );
            counted = ground (arith, h.holds.counted, grown-get k c, h.holds.reads k);
          };
          pos = h.pos;
          room = omega (arith, is_new_le (f k), h.room);
        },
        h.holds.reads k,
      )
