-- ===== src/Thunk/Heap/Steps.antt =====
-- What follows when an action of the heap of src/thunk ends with a value.
use lazyscript.Prelude.{
  ℕ, zero, suc, ◌<◌, ◌≡◌, ◌≢◌, ◌⊎◌, inl, inr, ◌++◌, refl, ap, true, Option, none, some, List, [],
  ◌∷◌, get_elem?, set, length, ltb, ltb→lt, arith,
}
use lazyscript.Thunk.Heap.{
  Heap, M, Outcome, done, fault, out_of_fuel, and_then, ◌>>=◌, known, write_at,
}

-- The action ended with a value: the part before the bind did, and so did the part after it.
pub record Split {A B : Type 0} (o : Outcome A) (f : A → M B) (b : B) (h' : Heap) : Type 0 where
  pub value : A
  pub between : Heap
  pub first : o ≡ done value between
  pub second : f value between ≡ done b h'

pub and_then-done :
    {A B : Type 0} (o : Outcome A) (f : A → M B) (b : B) (h' : Heap)
    → and_then f o ≡ done b h'
    → Split o f b h'
and_then-done (done a h) f b h' e = record { value = a; between = h; first = refl; second = e }
and_then-done fault f b h' e = cc
and_then-done out_of_fuel f b h' e = cc

pub bind-done :
    {A B : Type 0} (m : M A) (f : A → M B) (h : Heap) (b : B) (h' : Heap)
    → (m >>= f) h ≡ done b h'
    → Split (m h) f b h'
unfolding ◌>>=◌
bind-done m f h b h' e = and_then-done (m h) f b h' e

pub known-done :
    {A : Type 0} (o : Option A) (h : Heap) (a : A) (h' : Heap)
    → known o h ≡ done a h'
    → (o ≡ some a) × (h' ≡ h)
unfolding known
known-done none h a h' e = cc
known-done (some b) h a h' e = (cc, cc)

pub get_elem?-set :
    {A : Type 0} (xs : List A) (i : ℕ) (v old : A)
    → get_elem? xs i ≡ some old
    → get_elem? (set xs i v) i ≡ some v
get_elem?-set [] i v old e = cc
get_elem?-set (x ∷ xs) zero v old e = refl
get_elem?-set (x ∷ xs) (suc i) v old e = get_elem?-set xs i v old e

pub get_elem?-set_ne :
    {A : Type 0} (xs : List A) (i j : ℕ) (v : A) → i ≢ j → get_elem? (set xs i v) j ≡ get_elem? xs j
get_elem?-set_ne [] i j v ne = refl
get_elem?-set_ne (x ∷ xs) zero zero v ne = absurd (ne refl)
get_elem?-set_ne (x ∷ xs) zero (suc j) v ne = refl
get_elem?-set_ne (x ∷ xs) (suc i) zero v ne = refl
get_elem?-set_ne (x ∷ xs) (suc i) (suc j) v ne = get_elem?-set_ne xs i j v (λ e. ne (ap suc e))

-- A write that succeeds had an object to write over.
pub record Written {A : Type 0} (xs : List A) (i : ℕ) (h' h2 : Heap) : Type 0 where
  pub old : A
  pub stood : get_elem? xs i ≡ some old
  pub after : h' ≡ h2

write_over :
    {A : Type 0} (xs : List A) (i : ℕ) (h2 h' : Heap) (o : Option A)
    → get_elem? xs i ≡ o
    → (elim o [ none ↦ fault | some _ ↦ done tt h2 ]) ≡ done tt h'
    → Written xs i h' h2
write_over xs i h2 h' none eq e = cc
write_over xs i h2 h' (some old) eq e = record { old = old; stood = eq; after = cc }

pub write_at-done :
    {A : Type 0} (xs : List A) (i : ℕ) (v : A) (k : List A → Heap) (h' : Heap)
    → write_at xs i v k ≡ done tt h'
    → Written xs i h' (k (set xs i v))
write_at-done xs i v k h' e = write_over xs i (k (set xs i v)) h' (get_elem? xs i) refl e

pub write_at_lem :
    {A : Type 0} (xs : List A) (i : ℕ) (v old : A) (k : List A → Heap)
    → get_elem? xs i ≡ some old
    → write_at xs i v k ≡ done tt (k (set xs i v))
write_at_lem xs i v old k at =
    ap
      (λ o. elim o as (λ _. Outcome (Unit {0})) [
        | none ↦ fault
        | some _ ↦ done tt (k (set xs i v))
      ])
      at

pub get_elem?_within :
    {A : Type 0} (xs : List A) (i : ℕ)
    → ltb i (length xs) ≡ true
    → (v : A) × (get_elem? xs i ≡ some v)
get_elem?_within [] i lt = absurd (omega (arith, ltb→lt i 0 lt))
get_elem?_within (x ∷ xs) zero lt = (x, refl)
get_elem?_within (x ∷ xs) (suc i) lt = get_elem?_within xs i (ground arith)

pub get_elem?-append_old :
    {A : Type 0} (xs ys : List A) (i : ℕ) (a : A)
    → get_elem? xs i ≡ some a
    → get_elem? (xs ++ ys) i ≡ some a
get_elem?-append_old [] ys i a e = cc
get_elem?-append_old (x ∷ xs) ys zero a e = e
get_elem?-append_old (x ∷ xs) ys (suc i) a e = get_elem?-append_old xs ys i a e

pub get_elem?-append_last :
    {A : Type 0} (xs : List A) (v : A) → get_elem? (xs ++ v ∷ []) (length xs) ≡ some v
get_elem?-append_last [] v = refl
get_elem?-append_last (x ∷ xs) v = get_elem?-append_last xs v

-- an element of a list with one more at its end
pub get_elem?-append_cases :
    {A : Type 0} (xs : List A) (v : A) (i : ℕ) (a : A)
    → get_elem? (xs ++ v ∷ []) i ≡ some a
    → (get_elem? xs i ≡ some a) ⊎ ((i ≡ length xs) × (a ≡ v))
get_elem?-append_cases [] v zero a e = inr (refl, cc)
get_elem?-append_cases [] v (suc i) a e = cc
get_elem?-append_cases (x ∷ xs) v zero a e = inl e
get_elem?-append_cases (x ∷ xs) v (suc i) a e = elim (get_elem?-append_cases xs v i a e) [
  | inl p ↦ inl p
  | inr (p, q) ↦ inr (ap suc p, q)
]

pub get_elem?-below :
    {A : Type 0} (xs : List A) (i : ℕ) (a : A) → get_elem? xs i ≡ some a → i < length xs
get_elem?-below [] i a e = cc
get_elem?-below (x ∷ xs) zero a e = omega arith
get_elem?-below (x ∷ xs) (suc i) a e = omega (arith, get_elem?-below xs i a e)
