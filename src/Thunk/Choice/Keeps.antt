-- ===== src/Thunk/Choice/Keeps.antt =====
-- The nodes of the thunks under the bottoms and choices of src/thunk/thunk.c.
use lazyscript.Prelude.{
  ℕ, Bool, true, false, none, some, List, [], ◌∷◌, ◌++◌, Bytes, codes, ◌==◌, if◌then◌else◌,
}
use lazyscript.Thunk.Heap.{Ptr, Node, bottom, M}
use lazyscript.Thunk.Heap.Keeps.{Keeps}
use lazyscript.Thunk.Heap.Rules.{Keeps-pure, Keeps-bool, Keeps-bind, Keeps-load, Keeps-alloc_whnf}
use lazyscript.Thunk.Match.Keeps.{Keeps-is_bottom}
use lazyscript.Thunk.Bottom.{
  new_value, new_bottom, join, merge_nodes, bottom_merge, judge, judge_node, Verdict, null,
  no_match, other_bottom, value,
}
use lazyscript.Thunk.Choice.{
  Calls, fall_back, choice_lambda, choice_catch, choice_default, eval_choice,
}

-- The evaluator leaves the nodes of the thunks as they are, or resolved.
pub record Keeping (c : Calls) : Type 0 where
  pub evaluates : (n : ℕ) (t : Ptr) (args : List Ptr) → Keeps n (c.eval t args)
  pub evaluates0 : (n : ℕ) (t : Ptr) → Keeps n (c.eval0 t)

pub Keeps-if :
    {A : Type 0} (n : ℕ) (b : Bool) (m k : M A)
    → Keeps n m
    → Keeps n k
    → Keeps n (if b then m else k)
Keeps-if n true m k km kk = km
Keeps-if n false m k km kk = kk

module _ (n : ℕ) where
  pub Keeps-new_value : (nd : Node) → Keeps n (new_value nd)
  unfolding new_value
  Keeps-new_value nd = Keeps-alloc_whnf n nd _ (λ q le. Keeps-pure n (some q))

  pub Keeps-new_bottom : (msg : Bytes) (args : List Ptr) → Keeps n (new_bottom msg args)
  unfolding new_bottom
  Keeps-new_bottom msg args = Keeps-new_value (bottom msg args)

  Keeps-merge_bottom :
      (a b : ℕ) (m : Bytes) (xs : List Ptr) (y : Node) → Keeps n (merge_nodes a b (bottom m xs) y)
  unfolding merge_nodes
  Keeps-merge_bottom a b m xs (bottom k ys) = Keeps-new_bottom (join m k) (xs ++ ys)
  Keeps-merge_bottom a b m xs _ = Keeps-pure n (some b)

  Keeps-merge_nodes : (a b : ℕ) (x y : Node) → Keeps n (merge_nodes a b x y)
  unfolding merge_nodes
  Keeps-merge_nodes a b (bottom m xs) y = Keeps-merge_bottom a b m xs y
  Keeps-merge_nodes a b _ y = Keeps-pure n (some a)

  Keeps-bottom_merge : (a b : Ptr) → Keeps n (bottom_merge a b)
  unfolding bottom_merge
  Keeps-bottom_merge none b = Keeps-pure n b
  Keeps-bottom_merge (some a) none = Keeps-pure n (some a)
  Keeps-bottom_merge (some a) (some b) =
      Keeps-bind n _ _ (Keeps-load n (some a))
        (λ x. Keeps-bind n _ _ (Keeps-load n (some b)) (λ y. Keeps-merge_nodes a b x.node y.node))

  Keeps-judge : (p : Ptr) → Keeps n (judge p)
  unfolding judge
  Keeps-judge none = Keeps-pure n null
  Keeps-judge (some p) =
      Keeps-bind n _ _ (Keeps-load n (some p)) (λ t. Keeps-pure n (judge_node t.node))

  Keeps-verdict :
      (v : Verdict) (a b c d : M Ptr)
      → Keeps n a
      → Keeps n b
      → Keeps n c
      → Keeps n d
      → Keeps n (elim v as (λ _. M Ptr) [ null ↦ a | no_match ↦ b | other_bottom ↦ c | value ↦ d ])
  Keeps-verdict null a b c d ka kb kc kd = ka
  Keeps-verdict no_match a b c d ka kb kc kd = kb
  Keeps-verdict other_bottom a b c d ka kb kc kd = kc
  Keeps-verdict value a b c d ka kb kc kd = kd

  module _ (c : Calls) (keeping : Keeping c) where
    Keeps-fall_back : (left r : Ptr) (args : List Ptr) → Keeps n (fall_back c left r args)
    unfolding fall_back
    Keeps-fall_back left r args = Keeps-bind n _ _ (keeping.evaluates n r args) (λ right.
        Keeps-bind n _ _ (Keeps-is_bottom n right)
          (λ b. Keeps-bool n b _ _ (Keeps-bottom_merge left right) (Keeps-pure n right)))

    Keeps-choice_lambda : (l r arg : Ptr) (args : List Ptr) → Keeps n (choice_lambda c l r arg args)
    unfolding choice_lambda
    Keeps-choice_lambda l r arg args = Keeps-bind n _ _ (keeping.evaluates n l (arg ∷ [])) (λ left1.
        Keeps-bind n _ _ (Keeps-judge left1) (λ v.
          Keeps-verdict v _ _ _ _ (keeping.evaluates n r (arg ∷ args))
            (Keeps-fall_back left1 r (arg ∷ args)) (Keeps-pure n left1)
            (keeping.evaluates n left1 args)))

    Keeps-choice_catch : (l r : Ptr) (args : List Ptr) → Keeps n (choice_catch c l r args)
    unfolding choice_catch
    Keeps-choice_catch l r args = Keeps-bind n _ _ (keeping.evaluates n l args) (λ left.
        Keeps-bind n _ _ (Keeps-judge left) (λ v.
          Keeps-verdict v _ _ _ _
            (Keeps-bind n _ _ (Keeps-new_bottom (codes "null") [])
              (λ b. keeping.evaluates n r (b ∷ [])))
            (keeping.evaluates n r (left ∷ [])) (keeping.evaluates n r (left ∷ []))
            (Keeps-pure n left)))

    Keeps-choice_default :
        (k : ℕ) (l r : Ptr) (args : List Ptr) → Keeps n (choice_default c k l r args)
    unfolding choice_default
    Keeps-choice_default k l r args = Keeps-bind n _ _ (keeping.evaluates n l args) (λ left.
        Keeps-bind n _ _ (Keeps-judge left) (λ v.
          Keeps-verdict v _ _ _ _ (keeping.evaluates n r args) (Keeps-fall_back left r args)
            (Keeps-bool n (k == 1) _ _ (Keeps-pure n left) (Keeps-fall_back left r args))
            (Keeps-pure n left)))

    pub Keeps-eval_choice :
        (l r : Ptr) (k : ℕ) (args : List Ptr) → Keeps n (eval_choice c l r k args)
    unfolding eval_choice
    Keeps-eval_choice l r k [] =
        Keeps-if n (k == 3) _ _ (Keeps-choice_catch l r []) (Keeps-choice_default k l r [])
    Keeps-eval_choice l r k (arg ∷ args) =
        Keeps-if n (k == 1) _ _ (Keeps-choice_lambda l r arg args) (
          Keeps-if n (k == 3) _ _ (Keeps-choice_catch l r (arg ∷ args))
            (Keeps-choice_default k l r (arg ∷ args)))
