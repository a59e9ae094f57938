-- ===== src/Common/LsList.antt =====
-- The lists of src/common/list.c. NULL is the empty list, and a NULL element is `null`.
use lazyscript.Prelude.{
  ℕ, zero, suc, ◌-◌, ◌<◌, ◌≤◌, ◌∙◌, Option, none, some, List, [], ◌∷◌, ◌≡◌, refl, ap, arith,
}

module _ {ℓ} {A : Type ℓ} where
  unfoldable pub push : List A → A → List A
  push [] d = d ∷ []
  push (x ∷ xs) d = x ∷ push xs d

  abbrev pub keep_first : A → List A × Option A → List A × Option A
  keep_first x (xs, d) = (x ∷ xs, d)

  -- the element is `none` where `*pdata` is not written
  unfoldable pub pop : List A → List A × Option A
  pop [] = ([], none)
  pop (x ∷ []) = ([], some x)
  pop (x ∷ (y ∷ ys)) = keep_first x (pop (y ∷ ys))

  unfoldable pub unshift : List A → A → List A
  unshift xs d = d ∷ xs

  unfoldable pub shift : List A → List A × Option A
  shift [] = ([], none)
  shift (x ∷ xs) = (xs, some x)

  unfoldable pub count : List A → ℕ
  count [] = 0
  count (x ∷ xs) = suc (count xs)

  unfoldable pub get : A → List A → ℕ → A
  get null [] i = null
  get null (x ∷ xs) zero = x
  get null (x ∷ xs) (suc i) = get null xs i

  unfoldable pub concat : List A → List A → List A
  concat [] ys = ys
  concat (x ∷ xs) ys = x ∷ concat xs ys

  unfoldable pub get_next : List A → List A
  get_next [] = []
  get_next (x ∷ xs) = xs

  -- What was pushed last is popped first, and the rest is as it was.
  pub pop-push : (xs : List A) (d : A) → pop (push xs d) ≡ (xs, some d)
  unfolding pop push
  pop-push [] d = refl
  pop-push (x ∷ []) d = refl
  pop-push (x ∷ (y ∷ ys)) d = ap (keep_first x) (pop-push (y ∷ ys) d)

  -- A concatenation has the elements of the first list, then those of the second; behind them
  -- stands NULL.
  pub get-concat :
      (null : A) (xs ys : List A) (i : ℕ)
      → (i < count xs → get null (concat xs ys) i ≡ get null xs i)
        × (count xs ≤ i → get null (concat xs ys) i ≡ get null ys (i - count xs))
  unfolding get concat count
  get-concat null [] ys i = (λ h. absurd (omega (arith, h)), λ h. ap (get null ys) (omega arith))
  get-concat null (x ∷ xs) ys zero = (λ h. refl, λ h. absurd (omega (arith, h)))
  get-concat null (x ∷ xs) ys (suc i) =
      let (lower, upper) = get-concat null xs ys i in
      (
        λ h. lower (omega (arith, h)),
        λ h. upper (omega (arith, h)) ∙ ap (get null ys) (omega arith),
      )

  -- the list after `n` calls of `shift`
  unfoldable pub shift_all : ℕ → List A → List A
  unfolding shift
  shift_all zero xs = xs
  shift_all (suc n) xs = shift_all n ((shift xs).0)

  -- A queue: what is pushed last is shifted out after all that was there before.
  pub shift-push : (xs : List A) (d : A) → shift (shift_all (count xs) (push xs d)) ≡ ([], some d)
  unfolding shift_all push count
  shift-push [] d = refl
  shift-push (x ∷ xs) d = shift-push xs d
