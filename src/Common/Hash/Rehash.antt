-- ===== src/Common/Hash/Rehash.antt =====
-- Moving every entry into a new array of buckets.
use lazyscript.Prelude.{
  ℕ, zero, suc, ◌+◌, ◌≤◌, ◌<◌, false, ◌≡◌, ◌≢◌, refl, ◌∙◌, sym, Option, none, some, List, [], ◌∷◌,
  ◌++◌, arith, Bytes, same_refl, length, get_or, replicate, get_or-replicate, length-replicate, ltb,
}
use lazyscript.Common.Hash.{Table, slot, put_raw, move_chain, move_all, rehash, foreach}
use lazyscript.Common.Hash.Entries.{
  Chain, chain_get, occurrences, is_new, occurrences-append, get_absent, get-append_absent,
  get-append_last,
}
use lazyscript.Common.Hash.Buckets.{view, Holds, update, put_raw-Holds}

foreach-replicate : (V : Type 0) (n : ℕ) → length (foreach {V = V} (replicate n [])) ≡ 0
unfolding foreach
foreach-replicate V zero = refl
foreach-replicate V (suc n) = foreach-replicate V n

module _ {V : Type 0} where
  abbrev pub or_else : Option V → Option V → Option V
  or_else none w = w
  or_else (some v) w = some v

  or_else-none : (o : Option V) → or_else o none ≡ o
  or_else-none none = refl
  or_else-none (some v) = refl

  move_chain-append :
      (capacity : ℕ) (c d : Chain V) (acc : List (Chain V) × ℕ)
      → move_chain capacity (c ++ d) acc ≡ move_chain capacity d (move_chain capacity c acc)
  unfolding move_chain
  move_chain-append capacity [] d acc = refl
  move_chain-append capacity ((k, v) ∷ c) d acc =
      move_chain-append capacity c d (put_raw capacity k v acc)

  -- the two nested loops are one loop over all entries
  move_all-foreach :
      (capacity : ℕ) (bs : List (Chain V)) (acc : List (Chain V) × ℕ)
      → move_all capacity bs acc ≡ move_chain capacity (foreach bs) acc
  unfolding move_all foreach
  move_all-foreach capacity [] acc = unfold move_chain in refl
  move_all-foreach capacity (c ∷ cs) acc =
      move_all-foreach capacity cs (move_chain capacity c acc)
      ∙ sym (move_chain-append capacity c (foreach cs) acc)

  module _ (capacity : ℕ) where
    Holds-congr :
        (f g : Bytes → Option V) (n m : ℕ) (acc : List (Chain V) × ℕ)
        → Holds capacity f n acc
        → ((q : Bytes) → f q ≡ g q)
        → n ≡ m
        → Holds capacity g m acc
    Holds-congr f g n m acc h p e = record {
      width = h.width;
      placed = h.placed;
      reads = λ q. h.reads q ∙ p q;
      sized = h.sized;
      counted = h.counted ∙ e;
    }

    pub empty-Holds : Holds {V = V} capacity (λ _. none) 0 (replicate capacity [], 0)
    unfolding view chain_get occurrences
    empty-Holds = record {
      width = length-replicate capacity [];
      placed = λ q i. rw (get_or-replicate {A = Chain V} capacity i []) (omega arith);
      reads = λ q. rw (get_or-replicate {A = Chain V} capacity (slot q capacity) []);
      sized = sym (foreach-replicate V capacity);
      counted = refl;
    }

    move_chain-Holds :
        (pos : 0 < capacity) (es : Chain V) (f : Bytes → Option V) (n : ℕ)
        (acc : List (Chain V) × ℕ)
        → Holds capacity f n acc
        → ((q : Bytes) → occurrences q es ≤ 1)
        → ((q : Bytes) → 0 < occurrences q es → f q ≡ none)
        → Holds capacity
            (λ q. or_else (chain_get q es) (f q))
            (n + length es)
            (move_chain capacity es acc)
    unfolding move_chain chain_get occurrences
    move_chain-Holds pos [] f n acc h once apart =
        Holds-congr f _ n _ acc h (λ q. refl) (omega arith)
    move_chain-Holds pos ((k, v) ∷ es) f n acc h once apart =
        let first = put_raw-Holds capacity pos k v f n acc h in
        let rest =
          move_chain-Holds pos es (update f k (some v)) (n + is_new (f k)) _ first
            (λ q. omega (arith, once q)) (λ q o. ground (arith, once q, apart q)) in
        Holds-congr _ _ _ _ _ rest (λ q. ground (arith, once q, get_absent q es))
          (rw (apart k (rw (same_refl k) (omega arith))) (omega arith))

  foreach_nowhere :
      (q : Bytes) (bs : List (Chain V))
      → ((i : ℕ) → occurrences q (get_or bs i []) ≡ 0)
      → occurrences q (foreach bs) ≡ 0
  unfolding foreach occurrences
  foreach_nowhere q [] h = refl
  foreach_nowhere q (c ∷ cs) h =
      omega (arith, occurrences-append q c (foreach cs), h 0, foreach_nowhere q cs (λ i. h (suc i)))

  -- A key in no other bucket than `j` is read there.
  foreach_only :
      (q : Bytes) (bs : List (Chain V)) (j : ℕ)
      → ((i : ℕ) → i ≢ j → occurrences q (get_or bs i []) ≡ 0)
      → (chain_get q (foreach bs) ≡ chain_get q (get_or bs j []))
        × (occurrences q (foreach bs) ≡ occurrences q (get_or bs j []))
  unfolding foreach
  foreach_only q [] j h = (refl, refl)
  foreach_only q (c ∷ cs) zero h =
      let rest = foreach_nowhere q cs (λ i. h (suc i) (omega arith)) in
      (get-append_last q c (foreach cs) rest, omega (arith, occurrences-append q c (foreach cs)))
  foreach_only q (c ∷ cs) (suc j) h =
      let here = h 0 (omega arith) in
      let (found, counted) = foreach_only q cs j (λ i n. h (suc i) (omega arith)) in
      (
        get-append_absent q c (foreach cs) here ∙ found,
        omega (arith, occurrences-append q c (foreach cs)),
      )

  pub foreach-view :
      (capacity : ℕ) (f : Bytes → Option V) (n : ℕ) (acc : List (Chain V) × ℕ) (q : Bytes)
      → Holds capacity f n acc
      → (chain_get q (foreach acc.0) ≡ f q) × (occurrences q (foreach acc.0) ≤ 1)
  unfolding view
  foreach-view capacity f n acc q h =
      let j = slot q capacity in
      let (found, counted) = foreach_only q acc.0 j (λ i ne. ground (arith, h.placed q i)) in
      (found ∙ h.reads q, ground (arith, h.placed q j))

  -- With a capacity that is not below the size, every lookup and the size are as before.
  pub rehash-Holds :
      (t : Table V) (wanted : ℕ) (f : Bytes → Option V) (n : ℕ)
      → Holds t.capacity f n (t.entries, t.size)
      → 0 < wanted
      → n ≤ wanted
      → Holds (rehash t wanted).capacity f n ((rehash t wanted).entries, (rehash t wanted).size)
        × ((rehash t wanted).capacity ≡ wanted)
  unfolding rehash
  rehash-Holds t wanted f n h pos le =
      let es = foreach t.entries in
      let flat = λ (q : Bytes). foreach-view t.capacity f n (t.entries, t.size) q h in
      let moved =
        move_chain-Holds wanted pos es (λ _. none) 0 (replicate wanted [], 0) (empty-Holds wanted)
          (λ q. (flat q).1) (λ q _. refl) in
      let kept : ltb wanted t.size ≡ false = ground (arith, h.counted) in
      rw (kept, move_all-foreach wanted t.entries (replicate wanted [], 0))
        (
          Holds-congr wanted _ f _ n _ moved (λ q. or_else-none (chain_get q es) ∙ (flat q).0)
              (omega (arith, h.counted, h.sized)),
          refl,
        )
