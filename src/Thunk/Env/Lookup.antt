-- ===== src/Thunk/Env/Lookup.antt =====
-- Lookup in the environments of src/thunk/tenv.c.
use lazyscript.Prelude.{
  ℕ, zero, suc, ◌<◌, ◌≡◌, refl, ap, sym, ◌∙◌, Bool, true, false, Option, none, some, List, [], ◌∷◌,
  Bytes, get_elem?, length, same, same→eq, if◌then◌else◌, Bool-cases, inl, inr, lt→ltb, arith,
}
use lazyscript.Thunk.Heap.{Heap, Env, done, ◌>>=◌, pure, gets, known, get_env, and_then}
use lazyscript.Thunk.Heap.Steps.{get_elem?_within}
use lazyscript.Thunk.Env.{find, put_entry, get_within, get}

nested_if :
    {A : Type 0} (b : Bool) (x y z : A)
    → (if b then x else z) ≡ (if b then x else if b then y else z)
nested_if true x y z = refl
nested_if false x y z = refl

swapped_if :
    {A : Type 0} (a b : Bool) (x y z : A)
    → (a ≡ true → b ≡ true → ⊥)
    → (if a then x else if b then y else z) ≡ (if b then y else if a then x else z)
swapped_if true true x y z apart = absurd (apart refl refl)
swapped_if true false x y z apart = refl
swapped_if false b x y z apart = refl

pub find-put_entry :
    (name x : Bytes) (target : ℕ) (refs : List (Bytes × ℕ))
    → find x (put_entry name target refs) ≡ (if same name x then some target else find x refs)
unfolding find put_entry
find-put_entry name x target [] = refl
find-put_entry name x target ((y, old) ∷ refs) = elim (Bool-cases (same y name)) [
  | inl e ↦
      let named = same→eq y name e in
      rw e (rw named (nested_if (same name x) (some target) (some old) (find x refs)))
  | inr e ↦ rw e (
      ap (λ o. if same y x then some old else o) (find-put_entry name x target refs)
      ∙ swapped_if (same y x) (same name x) (some old) (some target) (find x refs)
          (λ ex en. apart (sym (same→eq name x en)) ex e))
]
  where
    apart : x ≡ name → same y x ≡ true → same y name ≡ false → ⊥
    apart p ex e = cc

-- The nearest environment with an entry of the name, from the environment outwards to its parents.
pub data Nearest (h : Heap) (name : Bytes) : ℕ → Option ℕ → Type 0 where
  here :
      {i target : ℕ} {e : Env}
      → get_elem? h.envs i ≡ some e
      → find name e.refs ≡ some target
      → Nearest h name i (some target)
  outer :
      {i p : ℕ} {o : Option ℕ} {e : Env}
      → get_elem? h.envs i ≡ some e
      → find name e.refs ≡ none
      → e.parent ≡ some p
      → Nearest h name p o
      → Nearest h name i o
  missing :
      {i : ℕ} {e : Env}
      → get_elem? h.envs i ≡ some e
      → find name e.refs ≡ none
      → e.parent ≡ none
      → Nearest h name i none

-- Each environment is younger than its parent.
pub record WellParented (h : Heap) : Type 0 where
  pub older : (i p : ℕ) (e : Env) → get_elem? h.envs i ≡ some e → e.parent ≡ some p → p < i

module _ (h : Heap) (name : Bytes) where
  -- the walk from an environment that is found, with the result of the lookup in it
  within-Nearest :
      (n i : ℕ) (e : Env) (found : Option ℕ) (parent : Option ℕ)
      → get_elem? h.envs i ≡ some e
      → find name e.refs ≡ found
      → e.parent ≡ parent
      → ((p : ℕ)
          → parent ≡ some p
          → (o : Option ℕ) × (get_within n p name h ≡ done o h) × Nearest h name p o)
      → (o : Option ℕ) × (get_within (suc n) i name h ≡ done o h) × Nearest h name i o
  unfolding get_within get_env known ◌>>=◌ pure
  within-Nearest n i e (some target) parent at f up further =
      (some target, rw (at, get_within, get_env, known) (rw (f, and_then) refl), here at f)
  within-Nearest n i e none none at f up further =
      (none, rw (at, get_within, get_env, known) (rw (f, and_then) (rw up refl)), missing at f up)
  within-Nearest n i e none (some p) at f up further =
      let (o, ends, nearest) = further p refl in
      (
        o,
        rw (at, get_within, get_env, known) (rw (f, and_then) (rw up ends)),
        outer at f up nearest,
      )

  walk-Nearest :
      (n i : ℕ)
      → WellParented h
      → i < n
      → i < length h.envs
      → (o : Option ℕ) × (get_within n i name h ≡ done o h) × Nearest h name i o
  walk-Nearest zero i w lt lh = absurd (omega arith)
  walk-Nearest (suc n) i w lt lh =
      let (e, at) = get_elem?_within h.envs i (lt→ltb i (length h.envs) lh) in
      within-Nearest n i e (find name e.refs) e.parent at refl refl (λ p up.
        let before = w.older i p e at up in
        walk-Nearest n p w (omega (arith, before, lt)) (omega (arith, before, lh)))

-- Where each environment is younger than its parent, `lstenv_get` ends for every environment of the
-- heap and changes nothing. It gives the entry of the nearest environment that has one, and NULL when
-- none has.
pub get-Nearest :
    (h : Heap) (env : ℕ) (name : Bytes)
    → WellParented h
    → env < length h.envs
    → (o : Option ℕ) × (get env name h ≡ done o h) × Nearest h name env o
unfolding get gets ◌>>=◌
get-Nearest h env name w lt = walk-Nearest h name (length h.envs) env w lt lt
