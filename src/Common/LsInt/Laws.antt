-- ===== src/Common/LsInt/Laws.antt =====
-- Sums, differences and equality of the integers.
use lazyscript.Prelude.{
  zero, suc, ◌-◌, ◌<◌, ◌^◌, true, false, ◌≡◌, ◌≢◌, ◌↔◌, ◌⊎◌, inl, inr, refl, sym, ap, ◌∙◌, none,
  some, arith,
}
use lazyscript.Prelude.Int.{ℤ, pos, negsuc, ◌+ℤ◌, ◌-ℤ◌}
use lazyscript.Common.Str.{to_int, is_zero}
use lazyscript.Common.LsInt.{LsInt, bits, wrap, new, get, eq_ℤ, eq, add, sub}

-- an `int`
abbrev pub IsInt : ℤ → Type 0
IsInt (pos n) = n < 2 ^ 31
IsInt (negsuc n) = n < 2 ^ 31

-- what the operations make: an `int`, and 0 only as NULL
abbrev pub IsLsInt : LsInt → Type 0
IsLsInt none = Unit
IsLsInt (some v) = IsInt v × (is_zero v ≡ false)

wrap-IsInt : (a : ℤ) → IsInt (wrap a)
unfolding wrap bits to_int
wrap-IsInt (pos n) = ground arith
wrap-IsInt (negsuc n) = ground arith

wrap_id : (a : ℤ) → IsInt a → wrap a ≡ a
unfolding wrap bits to_int
wrap_id (pos n) h = ground arith
wrap_id (negsuc n) h = ground arith

get-new : (v : ℤ) → get (new v) ≡ v
unfolding get new is_zero
get-new (pos zero) = refl
get-new (pos (suc n)) = refl
get-new (negsuc n) = refl

new-IsLsInt : (v : ℤ) → IsInt v → IsLsInt (new v)
unfolding new is_zero
new-IsLsInt (pos zero) h = tt
new-IsLsInt (pos (suc n)) h = (h, refl)
new-IsLsInt (negsuc n) h = (h, refl)

plus_zero : (a : ℤ) → (a +ℤ pos 0 ≡ a) × (pos 0 +ℤ a ≡ a)
unfolding ◌+ℤ◌
plus_zero (pos n) = ground arith
plus_zero (negsuc n) = ground arith

minus_zero : (a : ℤ) → a -ℤ pos 0 ≡ a
unfolding ◌-ℤ◌
minus_zero (pos n) = ground arith
minus_zero (negsuc n) = ground arith

get-IsInt : (a : LsInt) → IsLsInt a → IsInt (get a)
unfolding get
get-IsInt none h = omega arith
get-IsInt (some v) (h, _) = h

-- The sum of two integers is one again, and its value is the wrapped sum of their values.
pub get-add :
    (a b : LsInt)
    → IsLsInt a
    → IsLsInt b
    → IsLsInt (add a b) × (get (add a b) ≡ wrap (get a +ℤ get b))
unfolding add
get-add none b ha hb =
    (hb, sym (unfold get in ap wrap ((plus_zero (get b)).1) ∙ wrap_id (get b) (get-IsInt b hb)))
get-add (some a) none ha hb = (ha, sym (unfold get in ap wrap ((plus_zero a).0) ∙ wrap_id a (ha.0)))
get-add (some a) (some b) ha hb =
    (new-IsLsInt (wrap (a +ℤ b)) (wrap-IsInt (a +ℤ b)), unfold get in get-new (wrap (a +ℤ b)))

sub-some : (a : ℤ) (b : LsInt) → IsLsInt (some a) → get (sub (some a) b) ≡ wrap (a -ℤ get b)
unfolding sub get
sub-some a none ha = sym (ap wrap (minus_zero a) ∙ wrap_id a (ha.0))
sub-some a (some b) ha = get-new (wrap (a -ℤ b))

-- its own opposite among the values of an `int`: 0 and the least
abbrev pub IsOpposite : ℤ → Type 0
IsOpposite b = (b ≡ pos 0) ⊎ (b ≡ negsuc (2 ^ 31 - 1))

wrap_neg_iff : (b : ℤ) → IsInt b → (b ≡ wrap (pos 0 -ℤ b)) ↔ IsOpposite b
unfolding wrap bits to_int ◌-ℤ◌
wrap_neg_iff (pos zero) h = (λ _. inl refl, λ _. ground arith)
wrap_neg_iff (pos (suc n)) h = ground arith
wrap_neg_iff (negsuc n) h = ground arith

sub-none : (b : LsInt) → get b ≡ get (sub none b)
unfolding sub
sub-none b = refl

-- A difference has the wrapped difference of the values exactly where the minuend is not NULL or
-- the subtrahend is its own opposite.
pub get-sub_iff :
    (a b : LsInt)
    → IsLsInt a
    → IsLsInt b
    → (get (sub a b) ≡ wrap (get a -ℤ get b)) ↔ ((a ≢ none) ⊎ IsOpposite (get b))
unfolding get
get-sub_iff none b ha hb =
    let opposite = wrap_neg_iff (get b) (get-IsInt b hb) in
    (
      λ e. inr (opposite.0 (sub-none b ∙ e)),
      λ h. sym (sub-none b) ∙ elim h [ inl ne ↦ absurd (ne refl) | inr o ↦ opposite.1 o ],
    )
get-sub_iff (some a) b ha hb = (λ _. inl (λ e. cc), λ _. sub-some a b ha)

eq_ℤ_iff : (a b : ℤ) → (eq_ℤ a b ≡ true) ↔ (a ≡ b)
unfolding eq_ℤ
eq_ℤ_iff (pos m) (pos n) = ground arith
eq_ℤ_iff (pos m) (negsuc n) = ground arith
eq_ℤ_iff (negsuc m) (pos n) = ground arith
eq_ℤ_iff (negsuc m) (negsuc n) = ground arith

is_zero_iff : (a : ℤ) → (is_zero a ≡ true) ↔ (a ≡ pos 0)
unfolding is_zero
is_zero_iff (pos zero) = (λ _. refl, λ _. refl)
is_zero_iff (pos (suc n)) = ground arith
is_zero_iff (negsuc n) = ground arith

-- Two integers are equal for the program exactly where their values are.
pub eq_iff : (a b : LsInt) → IsLsInt a → IsLsInt b → (eq a b ≡ true) ↔ (get a ≡ get b)
unfolding eq get
eq_iff none none ha hb = (λ _. refl, λ _. refl)
eq_iff none (some b) ha hb = (λ z. sym ((is_zero_iff b).0 z), λ e. (is_zero_iff b).1 (sym e))
eq_iff (some a) none ha hb = is_zero_iff a
eq_iff (some a) (some b) ha hb = eq_ℤ_iff a b
