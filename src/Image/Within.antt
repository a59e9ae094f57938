-- ===== src/Image/Within.antt =====
-- What a part of the image validator of src/thunk/lsti.c knows when it goes on, where it reads inside
-- the memory.
use lazyscript.Prelude.{
  ℕ, zero, suc, ◌+◌, ◌*◌, ◌≤◌, ◌<◌, ◌≡◌, ◌≢◌, ◌⊎◌, inl, inr, refl, sym, Bool, true, false, List,
  length, lt→ltb, if◌then◌else◌, arith,
}
use mathlib.Core.Path.{subst}
use lazyscript.Thunk.Heap.Steps.{get_elem?_within}
use lazyscript.Image.Words.{Result, ok, einval, overrun, and_then, ◌>>=◌, ◌>>◌, guard, byte, word}
use lazyscript.Image.Validate.{for_each}

pub data Within {A : Type 0} (P : A → Type 0) : Result A → Type 0 where
  fine : {a : A} → P a → Within P (ok a)
  refused : Within P einval

pub Within-inside : {A : Type 0} {P : A → Type 0} {r : Result A} → Within P r → r ≢ overrun
Within-inside (fine p) e = cc
Within-inside refused e = cc

pub Within-bind :
    {A B : Type 0} {P : A → Type 0} {Q : B → Type 0} {m : Result A} {f : A → Result B}
    → Within P m
    → ((a : A) → P a → Within Q (f a))
    → Within Q (m >>= f)
unfolding ◌>>=◌
Within-bind (fine {a} p) k = k a p
Within-bind refused k = refused

pub Within-weaken :
    {A : Type 0} {P Q : A → Type 0} {m : Result A} → Within P m → ((a : A) → P a → Q a) → Within Q m
Within-weaken (fine {a} p) k = fine (k a p)
Within-weaken refused k = refused

pub Within-guard : (b : Bool) → Within (λ _. b ≡ true) (guard b)
unfolding guard
Within-guard true = fine refl
Within-guard false = refused

-- the rest of the block may use that the test holds
pub Within-check :
    {A : Type 0} {Q : A → Type 0} (b : Bool) (k : Result A)
    → (b ≡ true → Within Q k)
    → Within Q (guard b >> k)
Within-check b k w = Within-bind (Within-guard b) (λ _ e. w e)

pub Within-if :
    {A : Type 0} {P : A → Type 0} (b : Bool) (m k : Result A)
    → Within P m
    → Within P k
    → Within P (if b then m else k)
Within-if true m k wm wk = wm
Within-if false m k wm wk = wk

word-some :
    (n : ℕ) (mem : List ℕ) (off : ℕ) → off + n ≤ length mem → (v : ℕ) × (word n mem off ≡ ok v)
unfolding word ◌>>=◌ byte
word-some zero mem off le = (0, refl)
word-some (suc n) mem off le =
    let (b, at) = get_elem?_within mem off (lt→ltb off (length mem) (omega (arith, le))) in
    let (r, rest) = word-some n mem (off + 1) (omega (arith, le)) in
    (b + 256 * r, rw (at, byte, and_then) (rw (rest, and_then) refl))

Within-ok : {A : Type 0} (r : Result A) (v : A) → r ≡ ok v → Within (λ a. r ≡ ok a) r
Within-ok r v e = subst (λ x. Within (λ a. r ≡ ok a) x) (sym e) (fine e)

pub Within-word :
    (n : ℕ) (mem : List ℕ) (off : ℕ)
    → off + n ≤ length mem
    → Within (λ v. word n mem off ≡ ok v) (word n mem off)
Within-word n mem off le = let (v, e) = word-some n mem off le in Within-ok (word n mem off) v e

-- each number of a loop passes its check
abbrev pub Each : (ℕ → Type 0) → ℕ → ℕ → Type 0
Each P i n = (j : ℕ) → i ≤ j → j < i + n → P j

pub Within-for_each :
    (P : ℕ → Type 0) (check : ℕ → Result (Unit {0})) (i n : ℕ)
    → ((j : ℕ) → j < i + n → Within (λ _. P j) (check j))
    → Within (λ _. Each P i n) (for_each check i n)
unfolding for_each
Within-for_each P check i zero k = fine (λ j le lt. absurd (omega (arith, le, lt)))
Within-for_each P check i (suc n) k = Within-bind (k i (omega arith)) (λ _ first.
    Within-weaken (Within-for_each P check (suc i) n (λ j lt. k j (omega (arith, lt))))
      (λ _ rest j le lt. elim (split i j le) [
        | inl here ↦ subst P here first
        | inr later ↦ rest j later (omega (arith, lt))
      ]))
  where
    split : (i j : ℕ) → i ≤ j → (i ≡ j) ⊎ (suc i ≤ j)
    split i j le = ground arith

pub Within-with :
    {A : Type 0} {P : A → Type 0} {r : Result A} → Within P r → Within (λ a. P a × (r ≡ ok a)) r
Within-with (fine p) = fine (p, refl)
Within-with refused = refused

pub Within-at : {A : Type 0} {P : A → Type 0} {r : Result A} (a : A) → Within P r → r ≡ ok a → P a
Within-at {P} a (fine {a = b} p) e = let same : b ≡ a = cc in subst P same p
Within-at a refused e = cc
