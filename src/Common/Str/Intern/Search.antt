-- ===== src/Common/Str/Intern/Search.antt =====
-- The search for a slot, while slots are filled.
use lazyscript.Prelude.{
  ℕ, zero, suc, ◌+◌, ◌≤◌, ◌<◌, ◌≡◌, ◌≢◌, refl, sym, ap, ◌∙◌, ◌⊎◌, inl, inr, Bool, true, Option,
  none, some, length, set, length-set, get_elem?, leb, arith, Bool-cases, ◌==◌, ==_iff, leb→le,
}
use lazyscript.Common.Str.{LsStr}
use lazyscript.Thunk.Heap.Steps.{get_elem?-set, get_elem?-set_ne, get_elem?_within, get_elem?-below}
use lazyscript.Common.Str.Intern.{Ents, next, look, search}

-- `e` stands in a slot of `ents`
pub record Has (ents : Ents) (e : LsStr) : Type 0 where
  pub index : ℕ
  pub at : get_elem? ents index ≡ some (some e)

pub record IsSome (o : Option ℕ) : Type 0 where
  pub value : ℕ
  pub is : o ≡ some value

-- The slot `i` is empty, or has an entry that the search looks for.
pub record Hit (hit : LsStr → Bool) (ents : Ents) (i : ℕ) : Type 0 where
  pub slot : Option LsStr
  pub at : get_elem? ents i ≡ some slot
  pub fits : (e : LsStr) → slot ≡ some e → hit e ≡ true

pub equal_or_not : (m n : ℕ) → (m ≡ n) ⊎ (m ≢ n)
equal_or_not m n = elim (Bool-cases (m == n)) [
  | inl y ↦ inl ((==_iff m n).0 y)
  | inr y ↦ inr (λ e. absurd (cc ((==_iff m n).1 e, y)))
]

-- how far the search goes from `i` to `k`
abbrev pub Near : ℕ → ℕ → ℕ → ℕ → Type 0
Near fuel cap i k = (i ≤ k × k < i + fuel) ⊎ (k < i × cap + k < i + fuel)

next-below : (i cap : ℕ) → i < cap → next i cap < cap
unfolding next
next-below i cap lt = ground arith

next-Near :
    (fuel cap i k : ℕ)
    → k ≢ i
    → i < cap
    → k < cap
    → Near (suc fuel) cap i k
    → Near fuel cap (next i cap) k
unfolding next
next-Near fuel cap i k ne below lt near = elim (Bool-cases (leb cap (suc i))) [
  | inl y ↦ rw y (elim near [
    | inl (a, b) ↦ absurd (ne (ground (arith, leb→le cap (suc i) y)))
    | inr (a, b) ↦ inl (omega arith, omega arith)
  ])
  | inr y ↦ rw y (elim near [
    | inl (a, b) ↦ inl (ground arith, omega arith)
    | inr (a, b) ↦ inr (omega arith, omega arith)
  ])
]

module _ (hit : LsStr → Bool) where
  look_mono :
      (i j : ℕ) (rest rest' : Option ℕ) (o : Option (Option LsStr))
      → (rest ≡ some j → rest' ≡ some j)
      → look hit i rest o ≡ some j
      → look hit i rest' o ≡ some j
  unfolding look
  look_mono i j rest rest' none h e = cc
  look_mono i j rest rest' (some none) h e = e
  look_mono i j rest rest' (some (some x)) h e = elim (Bool-cases (hit x)) [
    | inl y ↦ rw y (rw y at e)
    | inr y ↦ rw y (h (rw y at e))
  ]

  look-Hit :
      (ents : Ents) (i j : ℕ) (rest : Option ℕ) (o : Option (Option LsStr))
      → get_elem? ents i ≡ o
      → (rest ≡ some j → Hit hit ents j)
      → look hit i rest o ≡ some j
      → Hit hit ents j
  unfolding look
  look-Hit ents i j rest none eq h e = cc
  look-Hit ents i j rest (some none) eq h e = record {
    slot = none;
    at = ap (get_elem? ents) (cc (e)) ∙ eq;
    fits = λ x d. cc;
  }
  look-Hit ents i j rest (some (some x)) eq h e = elim (Bool-cases (hit x)) [
    | inl y ↦ record {
      slot = some x;
      at = ap (get_elem? ents) (cc (rw y at e)) ∙ eq;
      fits = λ x' d. ap hit (cc (d)) ∙ y;
    }
    | inr y ↦ h (rw y at e)
  ]

  -- A search that ends is at an empty slot, or at an entry that it looks for.
  pub search-Hit :
      (fuel : ℕ) (ents : Ents) (i j : ℕ) → search hit fuel ents i ≡ some j → Hit hit ents j
  unfolding search
  search-Hit zero ents i j e = cc
  search-Hit (suc fuel) ents i j e = look-Hit ents i j _ _ refl (search-Hit fuel ents _ j) e

  look-empty :
      (i j : ℕ) (rest : Option ℕ) (o : Option (Option LsStr))
      → o ≡ some none
      → look hit i rest o ≡ some j
      → j ≡ i
  unfolding look
  look-empty i j rest none eq e = cc
  look-empty i j rest (some none) eq e = cc
  look-empty i j rest (some (some x)) eq e = cc

  -- Filling an empty slot changes no search that ends at another slot.
  pub search-set_ne :
      (fuel : ℕ) (ents : Ents) (i j k : ℕ) (v : Option LsStr)
      → get_elem? ents k ≡ some none
      → j ≢ k
      → search hit fuel ents i ≡ some j
      → search hit fuel (set ents k v) i ≡ some j
  unfolding search
  search-set_ne zero ents i j k v at ne e = cc
  search-set_ne (suc fuel) ents i j k v at ne e = elim (equal_or_not k i) [
    | inl eq ↦ absurd (ne (look-empty i j _ _ (ap (get_elem? ents) (sym eq) ∙ at) e ∙ sym eq))
    | inr d ↦
        rw (get_elem?-set_ne ents k i v d, length-set ents k v)
          (look_mono i j _ _ _ (search-set_ne fuel ents _ j k v at ne) e)
  ]

  look-found :
      (i : ℕ) (v : LsStr) (rest : Option ℕ) (o : Option (Option LsStr))
      → hit v ≡ true
      → o ≡ some (some v)
      → look hit i rest o ≡ some i
  unfolding look
  look-found i v rest none y eq = cc
  look-found i v rest (some none) y eq = refl
  look-found i v rest (some (some x)) y eq = let d : x ≡ v = cc eq in rw (ap hit d ∙ y) refl

  -- Where the search for `v` ends at an empty slot, it ends there too when `v` has been put there.
  pub search-set_self :
      (fuel : ℕ) (ents : Ents) (i k : ℕ) (v : LsStr)
      → hit v ≡ true
      → get_elem? ents k ≡ some none
      → search hit fuel ents i ≡ some k
      → search hit fuel (set ents k (some v)) i ≡ some k
  unfolding search
  search-set_self zero ents i k v y at e = cc
  search-set_self (suc fuel) ents i k v y at e = elim (equal_or_not k i) [
    | inl eq ↦
        look-found i v _ _ y
          (ap (get_elem? (set ents k (some v))) (sym eq) ∙ get_elem?-set ents k (some v) none at)
        ∙ ap some (sym eq)
    | inr d ↦
        rw (get_elem?-set_ne ents k i (some v) d, length-set ents k (some v))
          (look_mono i k _ _ _ (search-set_self fuel ents _ k v y at) e)
  ]

  look-some :
      (i : ℕ) (rest : Option ℕ) (o : Option (Option LsStr)) (s : Option LsStr)
      → o ≡ some s
      → ((s ≢ none) → IsSome rest)
      → IsSome (look hit i rest o)
  unfolding look
  look-some i rest none s eq h = cc
  look-some i rest (some none) s eq h = record { value = i; is = refl }
  look-some i rest (some (some x)) s eq h = elim (Bool-cases (hit x)) [
    | inl y ↦ record { value = i; is = rw y refl }
    | inr y ↦ let r = h (λ d. cc (eq, d)) in record { value = r.value; is = rw y r.is }
  ]

  -- A search that has fuel to an empty slot ends.
  pub search-IsSome :
      (fuel : ℕ) (ents : Ents) (i k : ℕ)
      → get_elem? ents k ≡ some none
      → i < length ents
      → Near fuel (length ents) i k
      → IsSome (search hit fuel ents i)
  unfolding search
  search-IsSome zero ents i k at lt near = elim near [
    | inl (a, b) ↦ absurd (omega arith)
    | inr (a, b) ↦ absurd (omega arith)
  ]
  search-IsSome (suc fuel) ents i k at lt near =
      let slot = get_elem?_within ents i (ground arith) in
      look-some i _ _ slot.0 slot.1 (λ ne. elim (equal_or_not k i) [
        | inl eq ↦ absurd (ne (cc (slot.1, at, ap (get_elem? ents) eq)))
        | inr d ↦
            search-IsSome fuel ents (next i (length ents)) k at (next-below i (length ents) lt)
              (next-Near fuel (length ents) i k d lt (get_elem?-below ents k none at) near)
      ])

look-congr :
    (hit hit' : LsStr → Bool) (i : ℕ) (rest rest' : Option ℕ) (o : Option (Option LsStr))
    → rest ≡ rest'
    → ((e : LsStr) → o ≡ some (some e) → hit e ≡ hit' e)
    → look hit i rest o ≡ look hit' i rest' o
unfolding look
look-congr hit hit' i rest rest' none eq h = refl
look-congr hit hit' i rest rest' (some none) eq h = refl
look-congr hit hit' i rest rest' (some (some x)) eq h = rw (h x refl, eq) refl

pub search-congr :
    (hit hit' : LsStr → Bool) (fuel : ℕ) (ents : Ents) (i : ℕ)
    → ((e : LsStr) → Has ents e → hit e ≡ hit' e)
    → search hit fuel ents i ≡ search hit' fuel ents i
unfolding search
search-congr hit hit' zero ents i same_hit = refl
search-congr hit hit' (suc fuel) ents i same_hit =
    look-congr hit hit' i _ _ _ (search-congr hit hit' fuel ents _ same_hit)
      (λ e at. same_hit e (record { index = i; at = at }))
