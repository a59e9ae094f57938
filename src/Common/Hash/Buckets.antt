-- ===== src/Common/Hash/Buckets.antt =====
-- What the buckets of a table mean, and what one insertion does to them.
use lazyscript.Prelude.{
  ℕ, zero, suc, ◌+◌, ◌≤◌, ◌<◌, true, ◌≡◌, ◌∙◌, Option, some, List, [], ◌∷◌, arith, Bytes, same,
  same→eq, length, length-append, length-set, get_or, set, get_or-set_self, get_or-set_ne, ◌==◌,
  ==_iff, if◌then◌else◌, Bool-cases, inl, inr,
}
use lazyscript.Common.Hash.{slot, put_raw, foreach}
use lazyscript.Common.Hash.Entries.{
  Chain, chain_get, chain_put, occurrences, is_new, get-put, grown-get, grown_present, grown_le,
  occurrences-put, occurrences_congr, length-put,
}

pub slot-lt : (k : Bytes) (capacity : ℕ) → 0 < capacity → slot k capacity < capacity
unfolding slot
slot-lt k capacity h = grind arith

pub slot_congr : (k q : Bytes) (capacity : ℕ) → same k q ≡ true → slot k capacity ≡ slot q capacity
slot_congr k q capacity h = rw (same→eq k q h)

module _ {V : Type 0} where
  pub get_or-set :
      (bs : List (Chain V)) (i j : ℕ) (c : Chain V)
      → i < length bs
      → get_or (set bs i c) j [] ≡ (if i == j then c else get_or bs j [])
  get_or-set bs i j c h = elim (Bool-cases (i == j)) [
    | inl e ↦ rw (← (==_iff i j).0 e, get_or-set_self bs i c [] h) (ground arith)
    | inr e ↦ rw (get_or-set_ne bs i j c [] (ground arith), e)
  ]

  pub total-set :
      (bs : List (Chain V)) (i : ℕ) (c : Chain V)
      → i < length bs
      → length (foreach (set bs i c)) + length (get_or bs i []) ≡ length (foreach bs) + length c
  unfolding foreach
  total-set [] i c h = absurd (omega arith)
  total-set (x ∷ bs) zero c h = simp length-append (omega arith)
  total-set (x ∷ bs) (suc i) c h =
      simp length-append (omega (arith, total-set bs i c (omega arith)))

  -- the value that a lookup of `q` finds
  unfoldable pub view : ℕ → List (Chain V) → Bytes → Option V
  view capacity bs q = chain_get q (get_or bs (slot q capacity) [])

  -- The buckets and the size with the capacity: every key at most once and only in its slot, the
  -- lookups read as `f`, and there are `n` entries.
  pub record Holds (capacity : ℕ) (f : Bytes → Option V) (n : ℕ) (acc : List (Chain V) × ℕ)
      : Type 0 where
    pub width : length acc.0 ≡ capacity
    pub placed :
        (q : Bytes) (i : ℕ)
        → occurrences q (get_or acc.0 i []) ≤ (if slot q capacity == i then 1 else 0)
    pub reads : (q : Bytes) → view capacity acc.0 q ≡ f q
    pub sized : acc.1 ≡ length (foreach acc.0)
    pub counted : acc.1 ≡ n

  abbrev pub update : (Bytes → Option V) → Bytes → Option V → Bytes → Option V
  update f k v q = if same k q then v else f q

  module _ (capacity : ℕ) (pos : 0 < capacity) where
    put_occurrences :
        (k q : Bytes) (v : V) (c : Chain V)
        → occurrences q c ≤ 1
        → same k q ≡ true
        → occurrences q (chain_put k v c) ≤ 1
    put_occurrences k q v c h e =
        ground (
          arith,
          occurrences-put k q v c,
          occurrences_congr k q c e,
          grown_present k c,
          grown_le k c,
        )

    pub put_raw-Holds :
        (k : Bytes) (v : V) (f : Bytes → Option V) (n : ℕ) (acc : List (Chain V) × ℕ)
        → Holds capacity f n acc
        → Holds capacity (update f k (some v)) (n + is_new (f k)) (put_raw capacity k v acc)
    unfolding put_raw view
    put_raw-Holds k v f n (bs, m) h =
        let i = slot k capacity in
        let c = get_or bs i [] in
        let lt : i < length bs = rw h.width (slot-lt k capacity pos) in
        record {
          width = length-set bs i (chain_put k v c) ∙ h.width;
          placed = λ q j. rw (get_or-set bs i j (chain_put k v c) lt) (
              ground (
                arith,
                h.placed q j,
                h.placed q i,
                occurrences-put k q v c,
                occurrences_congr k q c,
                grown_present k c,
                grown_le k c,
                slot_congr k q capacity,
              ));
          reads = λ q.
              rw (get_or-set bs i (slot q capacity) (chain_put k v c) lt)
                (ground (arith, h.reads q, get-put k q v c, slot_congr k q capacity));
          sized = omega (arith, h.sized, total-set bs i (chain_put k v c) lt, length-put k v c);
          counted = ground (arith, h.counted, grown-get k c, h.reads k);
        }
