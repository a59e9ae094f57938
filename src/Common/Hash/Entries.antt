-- ===== src/Common/Hash/Entries.antt =====
-- One chain of entries: the loops of `lshash_get`, `lshash_put_raw` and `lshash_remove`.
use lazyscript.Prelude.{
  ℕ, ◌+◌, ◌≤◌, ◌<◌, true, ◌≡◌, refl, Option, none, some, List, [], ◌∷◌, ◌++◌, arith, Bytes, same,
  same→eq, length, if◌then◌else◌,
}

abbrev pub Chain : Type 0 → Type 0
Chain V = List (Bytes × V)

-- `same` is a congruence in both places.
pub same_left : (a b c : Bytes) → same a b ≡ true → same a c ≡ same b c
same_left a b c h = rw (same→eq a b h)

pub same_right : (a b c : Bytes) → same b c ≡ true → same a b ≡ same a c
same_right a b c h = rw (same→eq b c h)

module _ {V : Type 0} where
  unfoldable pub chain_get : Bytes → Chain V → Option V
  chain_get k [] = none
  chain_get k ((j, v) ∷ c) = if same j k then some v else chain_get k c

  -- the value is replaced in place, or a new entry is appended
  unfoldable pub chain_put : Bytes → V → Chain V → Chain V
  chain_put k v [] = (k, v) ∷ []
  chain_put k v ((j, w) ∷ c) = if same j k then (j, v) ∷ c else (j, w) ∷ chain_put k v c

  -- 1 where the key is new, for `(*size)++`
  unfoldable pub grown : Bytes → Chain V → ℕ
  grown k [] = 1
  grown k ((j, w) ∷ c) = if same j k then 0 else grown k c

  unfoldable pub chain_remove : Bytes → Chain V → Chain V
  chain_remove k [] = []
  chain_remove k ((j, w) ∷ c) = if same j k then c else (j, w) ∷ chain_remove k c

  -- how many entries stand under the key
  unfoldable pub occurrences : Bytes → Chain V → ℕ
  occurrences q [] = 0
  occurrences q ((j, w) ∷ c) = (if same j q then 1 else 0) + occurrences q c

  pub get_congr : (k q : Bytes) (c : Chain V) → same k q ≡ true → chain_get q c ≡ chain_get k c
  get_congr k q c h = rw (same→eq k q h)

  pub occurrences_congr :
      (k q : Bytes) (c : Chain V) → same k q ≡ true → occurrences q c ≡ occurrences k c
  occurrences_congr k q c h = rw (same→eq k q h)

  pub get_absent : (q : Bytes) (c : Chain V) → occurrences q c ≡ 0 → chain_get q c ≡ none
  unfolding occurrences chain_get
  get_absent q [] h = refl
  get_absent q ((j, w) ∷ c) h = ground (arith, get_absent q c)

  module _ (k q : Bytes) where
    pub get-put :
        (v : V) (c : Chain V)
        → chain_get q (chain_put k v c) ≡ (if same k q then some v else chain_get q c)
    unfolding chain_get chain_put
    get-put v [] = refl
    get-put v ((j, w) ∷ c) = ground (arith, get-put v c, same_left j k q, same_right j k q)

    pub get-remove :
        (c : Chain V)
        → occurrences k c ≤ 1
        → chain_get q (chain_remove k c) ≡ (if same k q then none else chain_get q c)
    unfolding chain_get chain_remove occurrences
    get-remove [] h = ground arith
    get-remove ((j, w) ∷ c) h = ground (
      arith,
      get-remove c,
      same_left j k q,
      get_absent q c,
      same_right j k q,
      get_absent k c,
      get_congr k q c,
    )

    pub occurrences-put :
        (v : V) (c : Chain V)
        → occurrences q (chain_put k v c) ≡ occurrences q c + (if same k q then grown k c else 0)
    unfolding occurrences chain_put grown
    occurrences-put v [] = ground arith
    occurrences-put v ((j, w) ∷ c) =
        ground (arith, occurrences-put v c, same_left j k q, same_right j k q)

    pub occurrences-remove-le : (c : Chain V) → occurrences q (chain_remove k c) ≤ occurrences q c
    unfolding occurrences chain_remove
    occurrences-remove-le [] = omega arith
    occurrences-remove-le ((j, w) ∷ c) = ground (arith, occurrences-remove-le c)

  -- 1 for a missing value
  abbrev pub is_new : Option V → ℕ
  is_new none = 1
  is_new (some v) = 0

  pub grown-get : (k : Bytes) (c : Chain V) → grown k c ≡ is_new (chain_get k c)
  unfolding chain_get grown
  grown-get k [] = refl
  grown-get k ((j, w) ∷ c) = ground (arith, grown-get k c)

  pub grown_present : (k : Bytes) (c : Chain V) → 0 < occurrences k c → grown k c ≡ 0
  unfolding occurrences grown
  grown_present k [] h = absurd (omega arith)
  grown_present k ((j, w) ∷ c) h = ground (arith, grown_present k c)

  pub grown_le : (k : Bytes) (c : Chain V) → grown k c ≤ 1
  unfolding grown
  grown_le k [] = omega arith
  grown_le k ((j, w) ∷ c) = ground (arith, grown_le k c)

  pub get-append_absent :
      (q : Bytes) (c d : Chain V) → occurrences q c ≡ 0 → chain_get q (c ++ d) ≡ chain_get q d
  unfolding occurrences chain_get
  get-append_absent q [] d h = refl
  get-append_absent q ((j, w) ∷ c) d h = ground (arith, get-append_absent q c d)

  pub get-append_last :
      (q : Bytes) (c d : Chain V) → occurrences q d ≡ 0 → chain_get q (c ++ d) ≡ chain_get q c
  unfolding chain_get
  get-append_last q [] d h = get_absent q d h
  get-append_last q ((j, w) ∷ c) d h = ground (arith, get-append_last q c d)

  pub occurrences-append :
      (q : Bytes) (c d : Chain V) → occurrences q (c ++ d) ≡ occurrences q c + occurrences q d
  unfolding occurrences
  occurrences-append q [] d = omega arith
  occurrences-append q ((j, w) ∷ c) d = omega (arith, occurrences-append q c d)

  pub length-put :
      (k : Bytes) (v : V) (c : Chain V) → length (chain_put k v c) ≡ length c + grown k c
  unfolding chain_put grown
  length-put k v [] = refl
  length-put k v ((j, w) ∷ c) = ground (arith, length-put k v c)

  pub length-remove :
      (k : Bytes) (c : Chain V) → length (chain_remove k c) + 1 ≡ length c + grown k c
  unfolding chain_remove grown
  length-remove k [] = refl
  length-remove k ((j, w) ∷ c) = ground (arith, length-remove k c)
