-- ===== src/Common/Str/Intern/Packed.antt =====
-- Entries that are found: each string stands where the search for its bytes ends.
use lazyscript.Prelude.{
  ℕ, zero, suc, ◌%◌, ◌^◌, ◌<◌, ◌≡◌, ◌≢◌, refl, sym, ap, ◌∙◌, ◌⊎◌, inl, inr, Option, none, some, [],
  ◌∷◌, Bytes, same, same→eq, same_refl, length, set, length-set, get_elem?, arith, Bool-cases, leb,
  leb→le,
}
use mathlib.Core.Path.{subst}
use lazyscript.Common.Str.{LsStr, calc_hash, get_len, is_zero, lsstrcmp}
use lazyscript.Common.Str.Order.{lsstrcmp-zero_iff, is_zero→eq, is_zero-zero}
use lazyscript.Thunk.Heap.Steps.{get_elem?-set, get_elem?-set_ne, get_elem?-below}
use lazyscript.Common.Str.Intern.{Ents, search, get_raw}
use lazyscript.Common.Str.Intern.Search.{
  Near, Has, IsSome, equal_or_not, search-set_ne, search-set_self, search-IsSome, search-congr,
}

-- The bytes of a string are those of its buffer, and its length fits 32 bits.
pub record Stands (text : ℕ → Bytes) (e : LsStr) : Type 0 where
  pub here : e.bytes ≡ text e.buf
  pub short : get_len e < 2 ^ 32

-- where the search for the bytes ends
unfoldable pub slot_of : Ents → Bytes → Option ℕ
slot_of ents bs = search (λ e. same e.bytes bs) (length ents) ents (calc_hash bs % length ents)

pub record IsPacked (text : ℕ → Bytes) (ents : Ents) : Type 0 where
  pub stands : (e : LsStr) → Has ents e → Stands text e
  pub placed :
      (i : ℕ) (e : LsStr) → get_elem? ents i ≡ some (some e) → slot_of ents e.bytes ≡ some i

unfoldable pub occupied : Ents → ℕ
occupied [] = 0
occupied (none ∷ ents) = occupied ents
occupied (some e ∷ ents) = suc (occupied ents)

pub occupied-set :
    (ents : Ents) (i : ℕ) (e : LsStr)
    → get_elem? ents i ≡ some none
    → occupied (set ents i (some e)) ≡ suc (occupied ents)
unfolding occupied
occupied-set [] i e at = cc
occupied-set (none ∷ ents) zero e at = refl
occupied-set (some x ∷ ents) zero e at = cc
occupied-set (none ∷ ents) (suc i) e at = occupied-set ents i e at
occupied-set (some x ∷ ents) (suc i) e at = ap suc (occupied-set ents i e at)

room : (ents : Ents) → occupied ents < length ents → (k : ℕ) × (get_elem? ents k ≡ some none)
unfolding occupied
room [] lt = absurd (omega arith)
room (none ∷ ents) lt = (0, refl)
room (some x ∷ ents) lt = let r = room ents (omega arith) in (suc r.0, r.1)

home-below : (bs : Bytes) (cap : ℕ) → 0 < cap → calc_hash bs % cap < cap
home-below bs cap lt = grind arith

Near-all : (cap i k : ℕ) → i < cap → k < cap → Near cap cap i k
Near-all cap i k a b = elim (Bool-cases (leb i k)) [
  | inl y ↦ inl (leb→le i k y, omega arith)
  | inr y ↦ inr (ground arith, ground arith)
]

-- The search ends where there is room.
pub slot_of-IsSome :
    (ents : Ents) (bs : Bytes) → occupied ents < length ents → IsSome (slot_of ents bs)
unfolding slot_of
slot_of-IsSome ents bs lt =
    let r = room ents lt in
    let below = home-below bs (length ents) (omega arith) in
    let k_below = get_elem?-below ents r.0 none r.1 in
    search-IsSome _ (length ents) ents (calc_hash bs % length ents) r.0 r.1 below
      (Near-all (length ents) _ r.0 below k_below)

pub Has-set_old :
    (ents : Ents) (i : ℕ) (e x : LsStr)
    → get_elem? ents i ≡ some none
    → Has ents x
    → Has (set ents i (some e)) x
Has-set_old ents i e x free h = record {
  index = h.index;
  at =
      get_elem?-set_ne ents i h.index (some e) (λ d. cc (ap (get_elem? ents) d, free, h.at)) ∙ h.at;
}

pub Has-set_new :
    (ents : Ents) (i : ℕ) (e : LsStr) → get_elem? ents i ≡ some none → Has (set ents i (some e)) e
Has-set_new ents i e free = record { index = i; at = get_elem?-set ents i (some e) none free }

pub Has-set_cases :
    (ents : Ents) (i j : ℕ) (e x : LsStr)
    → get_elem? ents i ≡ some none
    → get_elem? (set ents i (some e)) j ≡ some (some x)
    → (i ≡ j × x ≡ e) ⊎ (j ≢ i × get_elem? ents j ≡ some (some x))
Has-set_cases ents i j e x free h = elim (equal_or_not i j) [
  | inl d ↦
      inl
        (d, cc (get_elem?-set ents i (some e) none free, ap (get_elem? (set ents i (some e))) d, h))
  | inr d ↦ inr ((λ q. d (sym q)), sym (get_elem?-set_ne ents i j (some e) d) ∙ h)
]

module _ (text : ℕ → Bytes) where
  agrees :
      (e key : LsStr)
      → Stands text e
      → Stands text key
      → is_zero (lsstrcmp e key) ≡ same e.bytes key.bytes
  agrees e key s t =
      let iff = lsstrcmp-zero_iff e key (λ b. s.here ∙ ap text b ∙ sym t.here) s.short t.short in
      elim (Bool-cases (is_zero (lsstrcmp e key))) [
        | inl y ↦ y ∙ sym (ap (same e.bytes) (sym (iff.0 (is_zero→eq _ y))) ∙ same_refl e.bytes)
        | inr y ↦ elim (Bool-cases (same e.bytes key.bytes)) [
          | inl z ↦ absurd (cc (is_zero-zero, ap is_zero (iff.1 (same→eq _ _ z)), y))
          | inr z ↦ y ∙ sym z
        ]
      ]

  -- In packed entries the search compares bytes.
  pub get_raw-slot_of :
      (ents : Ents) (key : LsStr)
      → ((e : LsStr) → Has ents e → Stands text e)
      → Stands text key
      → get_raw ents key ≡ slot_of ents key.bytes
  unfolding get_raw slot_of
  get_raw-slot_of ents key all s =
      search-congr _ _ (length ents) ents _ (λ e h. agrees e key (all e h) s)

  -- A string is put where the search for its bytes ends.
  pub set-IsPacked :
      (ents : Ents) (i : ℕ) (e : LsStr)
      → IsPacked text ents
      → Stands text e
      → slot_of ents e.bytes ≡ some i
      → get_elem? ents i ≡ some none
      → IsPacked text (set ents i (some e))
  unfolding slot_of
  set-IsPacked ents i e p s found free = record {
    stands = λ x h. elim (Has-set_cases ents i h.index e x free h.at) [
      | inl (d, q) ↦ subst (Stands text) (sym q) s
      | inr (d, at) ↦ p.stands x (record { index = h.index; at = at })
    ];
    placed = λ j x h. elim (Has-set_cases ents i j e x free h) [
      | inl (d, q) ↦
          ap (λ z. slot_of (set ents i (some e)) z.bytes) q
          ∙ rw (length-set ents i (some e))
              (search-set_self _ (length ents) ents _ i e (same_refl e.bytes) free found)
          ∙ ap some d
      | inr (d, at) ↦
          rw (length-set ents i (some e))
            (search-set_ne _ (length ents) ents _ j i (some e) free d (p.placed j x at))
    ];
  }
