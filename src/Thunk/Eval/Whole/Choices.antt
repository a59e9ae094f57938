-- ===== src/Thunk/Eval/Whole/Choices.antt =====
-- Bottoms and choices in whole heaps.
use lazyscript.Prelude.{ℕ, ◌<◌, none, some, List, [], ◌∷◌, ◌++◌, Bytes, All, codes, ◌==◌}
use lazyscript.Thunk.Heap.{Ptr, Node, bottom, M, pure}
use lazyscript.Thunk.Bottom.{
  new_value, new_bottom, join, merge_nodes, bottom_merge, judge, Verdict, null, no_match,
  other_bottom, value,
}
use lazyscript.Thunk.Choice.{
  Calls, fall_back, choice_lambda, choice_catch, choice_default, eval_choice,
}
use lazyscript.Thunk.Build.Sound.{Sizes, Grows-trans, Within, NodeIn, ThunkIn}
use lazyscript.Thunk.Build.Sound.Monotone.{Within-mono, All-mono, NodeIn-mono}
use lazyscript.Thunk.Build.Sound.Marks.{Any}
use lazyscript.Thunk.Build.Sound.Forms.{PtrIn, PtrsIn}
use lazyscript.Thunk.Eval.Whole.{Safe, Safe-bind, Safe-pure, Safe-bool, Safe-if}
use lazyscript.Thunk.Eval.Whole.Actions.{Safe-load, Safe-alloc_whnf}
use lazyscript.Thunk.Eval.Whole.Match.{Safe-is_bottom}

-- The evaluator leaves whole heaps, and gives thunks of them.
pub record IsSafe (c : Calls) : Type 0 where
  pub evaluates :
      (s : Sizes) (t : Ptr) (args : List Ptr)
      → PtrIn s t
      → PtrsIn s args
      → Safe s PtrIn (c.eval t args)
  pub evaluates0 : (s : Sizes) (t : Ptr) → PtrIn s t → Safe s PtrIn (c.eval0 t)

pub All-append :
    (n : ℕ) (xs ys : List Ptr) → All (Within n) xs → All (Within n) ys → All (Within n) (xs ++ ys)
All-append n [] ys a b = b
All-append n (x ∷ xs) ys (a, as') b = (a, All-append n xs ys as' b)

pub Safe-ptr : (s : Sizes) (p : Ptr) → PtrIn s p → Safe s PtrIn (pure p)
Safe-ptr s p w = Safe-pure s _ p (λ t g. Within-mono _ _ p g.thunks w)

pub Safe-new_value : (s : Sizes) (n : Node) → NodeIn s n → Safe s PtrIn (new_value n)
unfolding new_value
Safe-new_value s n w =
    Safe-bind s (λ t q. q < t.thunks) _ _ _ (Safe-alloc_whnf s n w)
      (λ q t g v. Safe-ptr t (some q) v)

pub Safe-new_bottom :
    (s : Sizes) (msg : Bytes) (args : List Ptr) → PtrsIn s args → Safe s PtrIn (new_bottom msg args)
unfolding new_bottom
Safe-new_bottom s msg args w = Safe-new_value s (bottom msg args) w

Safe-merge_bottom :
    (s : Sizes) (a b : ℕ) (m : Bytes) (xs : List Ptr) (y : Node)
    → b < s.thunks
    → PtrsIn s xs
    → NodeIn s y
    → Safe s PtrIn (merge_nodes a b (bottom m xs) y)
unfolding merge_nodes
Safe-merge_bottom s a b m xs (bottom k ys) lt w v =
    Safe-new_bottom s (join m k) (xs ++ ys) (All-append _ xs ys w v)
Safe-merge_bottom s a b m xs _ lt w v = Safe-ptr s (some b) lt

Safe-merge_nodes :
    (s : Sizes) (a b : ℕ) (x y : Node)
    → a < s.thunks
    → b < s.thunks
    → NodeIn s x
    → NodeIn s y
    → Safe s PtrIn (merge_nodes a b x y)
unfolding merge_nodes
Safe-merge_nodes s a b (bottom m xs) y la lb w v = Safe-merge_bottom s a b m xs y lb w v
Safe-merge_nodes s a b _ y la lb w v = Safe-ptr s (some a) la

Safe-bottom_merge :
    (s : Sizes) (a b : Ptr) → PtrIn s a → PtrIn s b → Safe s PtrIn (bottom_merge a b)
unfolding bottom_merge
Safe-bottom_merge s none b w v = Safe-ptr s b v
Safe-bottom_merge s (some a) none w v = Safe-ptr s (some a) w
Safe-bottom_merge s (some a) (some b) w v =
    Safe-bind s ThunkIn _ _ _ (Safe-load s (some a) w) (λ x t g p.
      Safe-bind t ThunkIn _ _ _ (Safe-load t (some b) (Within-mono _ _ (some b) g.thunks v))
        (λ y u k q.
          let far = Grows-trans s t u g k in
          Safe-merge_nodes u a b x.node y.node (Within-mono _ _ (some a) far.thunks w)
            (Within-mono _ _ (some b) far.thunks v) (NodeIn-mono t u k x.node p.node) q.node))

Safe-judge : (s : Sizes) (p : Ptr) → PtrIn s p → Safe s Any (judge p)
unfolding judge
Safe-judge s none w = Safe-pure s _ null (λ _ _. tt)
Safe-judge s (some p) w =
    Safe-bind s ThunkIn _ _ _ (Safe-load s (some p) w) (λ t u g v. Safe-pure u _ _ (λ _ _. tt))

Safe-verdict :
    (s : Sizes) (v : Verdict) (a b c d : M Ptr)
    → Safe s PtrIn a
    → Safe s PtrIn b
    → Safe s PtrIn c
    → Safe s PtrIn d
    → Safe s PtrIn
        (elim v as (λ _. M Ptr) [ null ↦ a | no_match ↦ b | other_bottom ↦ c | value ↦ d ])
Safe-verdict s null a b c d ka kb kc kd = ka
Safe-verdict s no_match a b c d ka kb kc kd = kb
Safe-verdict s other_bottom a b c d ka kb kc kd = kc
Safe-verdict s value a b c d ka kb kc kd = kd

module _ (c : Calls) (safe : IsSafe c) where
  Safe-fall_back :
      (s : Sizes) (left r : Ptr) (args : List Ptr)
      → PtrIn s left
      → PtrIn s r
      → PtrsIn s args
      → Safe s PtrIn (fall_back c left r args)
  unfolding fall_back
  Safe-fall_back s left r args wl wr wa =
      Safe-bind s PtrIn _ _ _ (safe.evaluates s r args wr wa) (λ right t g x.
        Safe-bind t Any _ _ _ (Safe-is_bottom t right x) (λ b u k _.
          let here = Within-mono _ _ right k.thunks x in
          Safe-bool u _ b _ _
            (Safe-bottom_merge u left right (Within-mono _ _ left (Grows-trans s t u g k).thunks wl)
              here)
            (Safe-ptr u right here)))

  Safe-choice_lambda :
      (s : Sizes) (l r arg : Ptr) (args : List Ptr)
      → PtrIn s l
      → PtrIn s r
      → PtrsIn s (arg ∷ args)
      → Safe s PtrIn (choice_lambda c l r arg args)
  unfolding choice_lambda
  Safe-choice_lambda s l r arg args wl wr (w, ws) =
      Safe-bind s PtrIn _ _ _ (safe.evaluates s l (arg ∷ []) wl (w, tt)) (λ left t g x.
        Safe-bind t Any _ _ _ (Safe-judge t left x) (λ v u k _.
          let far = (Grows-trans s t u g k).thunks in
          let all = All-mono _ _ (arg ∷ args) far (w, ws) in
          let here = Within-mono _ _ left k.thunks x in
          let right = Within-mono _ _ r far wr in
          Safe-verdict u v _ _ _ _ (safe.evaluates u r (arg ∷ args) right all)
            (Safe-fall_back u left r (arg ∷ args) here right all) (Safe-ptr u left here)
            (safe.evaluates u left args here all.1)))

  Safe-choice_catch :
      (s : Sizes) (l r : Ptr) (args : List Ptr)
      → PtrIn s l
      → PtrIn s r
      → PtrsIn s args
      → Safe s PtrIn (choice_catch c l r args)
  unfolding choice_catch
  Safe-choice_catch s l r args wl wr wa =
      Safe-bind s PtrIn _ _ _ (safe.evaluates s l args wl wa) (λ left t g x.
        Safe-bind t Any _ _ _ (Safe-judge t left x) (λ v u k _.
          let right = Within-mono _ _ r (Grows-trans s t u g k).thunks wr in
          let here = Within-mono _ _ left k.thunks x in
          Safe-verdict u v _ _ _ _
            (Safe-bind u PtrIn _ _ _ (Safe-new_bottom u (codes "null") [] tt)
              (λ b y gy q. safe.evaluates y r (b ∷ []) (Within-mono _ _ r gy.thunks right) (q, tt)))
            (safe.evaluates u r (left ∷ []) right (here, tt))
            (safe.evaluates u r (left ∷ []) right (here, tt)) (Safe-ptr u left here)))

  Safe-choice_default :
      (s : Sizes) (k : ℕ) (l r : Ptr) (args : List Ptr)
      → PtrIn s l
      → PtrIn s r
      → PtrsIn s args
      → Safe s PtrIn (choice_default c k l r args)
  unfolding choice_default
  Safe-choice_default s k l r args wl wr wa =
      Safe-bind s PtrIn _ _ _ (safe.evaluates s l args wl wa) (λ left t g x.
        Safe-bind t Any _ _ _ (Safe-judge t left x) (λ v u gu _.
          let far = (Grows-trans s t u g gu).thunks in
          let right = Within-mono _ _ r far wr in
          let all = All-mono _ _ args far wa in
          let here = Within-mono _ _ left gu.thunks x in
          Safe-verdict u v _ _ _ _ (safe.evaluates u r args right all)
            (Safe-fall_back u left r args here right all)
            (Safe-bool u _ (k == 1) _ _ (Safe-ptr u left here)
              (Safe-fall_back u left r args here right all))
            (Safe-ptr u left here)))

  pub Safe-eval_choice :
      (s : Sizes) (l r : Ptr) (k : ℕ) (args : List Ptr)
      → PtrIn s l
      → PtrIn s r
      → PtrsIn s args
      → Safe s PtrIn (eval_choice c l r k args)
  unfolding eval_choice
  Safe-eval_choice s l r k [] wl wr wa =
      Safe-if s _ (k == 3) _ _ (Safe-choice_catch s l r [] wl wr wa)
        (Safe-choice_default s k l r [] wl wr wa)
  Safe-eval_choice s l r k (arg ∷ args) wl wr wa =
      Safe-if s _ (k == 1) _ _ (Safe-choice_lambda s l r arg args wl wr wa) (
        Safe-if s _ (k == 3) _ _ (Safe-choice_catch s l r (arg ∷ args) wl wr wa)
          (Safe-choice_default s k l r (arg ∷ args) wl wr wa))
