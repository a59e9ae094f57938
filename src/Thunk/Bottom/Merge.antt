-- ===== src/Thunk/Bottom/Merge.antt =====
-- What `lsthunk_bottom_merge` of src/thunk/thunk.c makes of several bottoms.
use lazyscript.Prelude.{
  ℕ, ◌≡◌, refl, ap, ◌∙◌, some, List, [], ◌∷◌, ◌++◌, append_assoc, Bytes, codes, get_elem?, length,
}
use lazyscript.Thunk.Heap.{
  Ptr, Node, bottom, Heap, done, ◌>>=◌, and_then, pure, known, load, alloc_whnf,
}
use lazyscript.Thunk.Heap.Steps.{get_elem?-append_old, get_elem?-append_last}
use lazyscript.Thunk.Bottom.{join, new_value, new_bottom, merge_nodes, bottom_merge}

join_assoc : (a b c : Bytes) → join (join a b) c ≡ join a (join b c)
unfolding join
join_assoc [] b c = refl
join_assoc (x ∷ a) [] c = refl
join_assoc (x ∷ a) (y ∷ b) [] = refl
join_assoc (x ∷ a) (y ∷ b) (z ∷ c) =
    append_assoc (x ∷ a) (codes "; " ++ (y ∷ b)) (codes "; " ++ (z ∷ c))

-- the heap with a value more
abbrev pub grow : Heap → Node → Heap
grow h nd = record h {
  thunks = h.thunks ++ (record { node = nd; whnf = some (length h.thunks) } ∷ []);
}

abbrev pub At : Heap → ℕ → Bytes → List Ptr → Type 0
At h p m xs = (w : Ptr) × (get_elem? h.thunks p ≡ some (record { node = bottom m xs; whnf = w }))

At-grow :
    (h : Heap) (nd : Node) (p : ℕ) (m : Bytes) (xs : List Ptr) → At h p m xs → At (grow h nd) p m xs
At-grow h nd p m xs (w, at) = (w, get_elem?-append_old h.thunks _ p _ at)

At-last : (h : Heap) (m : Bytes) (xs : List Ptr) → At (grow h (bottom m xs)) (length h.thunks) m xs
At-last h m xs = (some (length h.thunks), get_elem?-append_last h.thunks _)

merge_lem :
    (h : Heap) (a b : ℕ) (m k : Bytes) (xs ys : List Ptr)
    → At h a m xs
    → At h b k ys
    → bottom_merge (some a) (some b) h
      ≡ done (some (length h.thunks)) (grow h (bottom (join m k) (xs ++ ys)))
unfolding bottom_merge merge_nodes new_bottom new_value alloc_whnf ◌>>=◌ load known pure
merge_lem h a b m k xs ys (w, at) (v, bt) =
    rw (at, load, known, and_then) (rw (bt, known, and_then) refl)

-- Three bottoms are merged in either order of grouping: both runs end with a new bottom, and both
-- have the messages that are not empty, with "; " between them, and the arguments of all three, in
-- the order of the three.
pub merge_assoc :
    (h : Heap) (a b c : ℕ) (m k l : Bytes) (xs ys zs : List Ptr)
    → At h a m xs
    → At h b k ys
    → At h c l zs
    → (q q' : ℕ) × (h1 h2 : Heap) × ((do
      ab ← bottom_merge (some a) (some b)
      bottom_merge ab (some c))
          h
        ≡ done (some q) h1)
      × ((do bc ← bottom_merge (some b) (some c); bottom_merge (some a) bc) h ≡ done (some q') h2)
      × At h1 q (join m (join k l)) (xs ++ (ys ++ zs))
      × At h2 q' (join m (join k l)) (xs ++ (ys ++ zs))
unfolding ◌>>=◌
merge_assoc h a b c m k l xs ys zs at bt ct =
    let ab = bottom (join m k) (xs ++ ys) in
    let bc = bottom (join k l) (ys ++ zs) in
    let h1 = grow h ab in
    let h2 = grow h bc in
    let left = At-last h1 (join (join m k) l) ((xs ++ ys) ++ zs) in
    (
      length h1.thunks,
      length h2.thunks,
      grow h1 (bottom (join (join m k) l) ((xs ++ ys) ++ zs)),
      grow h2 (bottom (join m (join k l)) (xs ++ (ys ++ zs))),
      ap (and_then (λ x. bottom_merge x (some c))) (merge_lem h a b m k xs ys at bt)
          ∙ merge_lem h1 (length h.thunks) c (join m k) l (xs ++ ys) zs
              (At-last h (join m k) (xs ++ ys)) (At-grow h ab c l zs ct),
      ap (and_then (λ x. bottom_merge (some a) x)) (merge_lem h b c k l ys zs bt ct)
          ∙ merge_lem h2 a (length h.thunks) m (join k l) xs (ys ++ zs) (At-grow h bc a m xs at)
              (At-last h (join k l) (ys ++ zs)),
      (
        left.0,
        left.1
            ∙ ap (λ nd. some (record { node = nd; whnf = left.0 }))
                (λ i. bottom (join_assoc m k l i) (append_assoc xs ys zs i)),
      ),
      At-last h2 (join m (join k l)) (xs ++ (ys ++ zs)),
    )
