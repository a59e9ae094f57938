-- ===== src/Thunk/Eval/Whole/Lambdas.antt =====
-- The application of lambdas in whole heaps.
use lazyscript.Prelude.{ℕ, Bool, true, false, none, some, List, [], ◌∷◌}
use lazyscript.Thunk.Heap.{Ptr, Param, M}
use lazyscript.Thunk.Bottom.{lambda_match_failure}
use lazyscript.Thunk.Choice.{Calls}
use lazyscript.Thunk.Eval.{leave_lambda, enter_lambda, eval_lambda}
use lazyscript.Thunk.Build.Sound.{Sizes, PatIn}
use lazyscript.Thunk.Build.Sound.Monotone.{Within-mono, All-mono, PatIn-mono}
use lazyscript.Thunk.Build.Sound.Marks.{Any}
use lazyscript.Thunk.Build.Sound.Forms.{PtrIn, PtrsIn}
use lazyscript.Thunk.Eval.Whole.{Safe, Safe-bind, Safe-fail}
use lazyscript.Thunk.Eval.Whole.Match.{Safe-clear_binds, Safe-match_pat}
use lazyscript.Thunk.Eval.Whole.Subst.{Safe-subst_param}
use lazyscript.Thunk.Eval.Whole.Choices.{IsSafe, Safe-ptr, Safe-new_bottom}

module _ (call : Calls → ℕ → List Ptr → Ptr → M Ptr) (fuel : ℕ) (c : Calls) (safe : IsSafe c) where
  Safe-leave_lambda :
      (s : Sizes) (param : Param) (v : Ptr)
      → PatIn s param.pattern_of
      → PtrIn s v
      → Safe s PtrIn (leave_lambda call fuel c param v)
  unfolding leave_lambda
  Safe-leave_lambda s param none w x =
      Safe-bind s Any _ _ _ (Safe-clear_binds param.pattern_of s w) (λ _ t g _. Safe-ptr t none tt)
  Safe-leave_lambda s param (some v) w x =
      Safe-bind s PtrIn _ _ _ (Safe-subst_param fuel param.address s (some v) x) (λ r t g y.
        Safe-bind t Any _ _ _
          (Safe-clear_binds param.pattern_of t (PatIn-mono s t g param.pattern_of w))
          (λ _ u k _. Safe-ptr u r (Within-mono _ _ r k.thunks y)))

  Safe-enter_lambda :
      (s : Sizes) (param : Param) (body arg : Ptr) (args : List Ptr) (ok : Bool)
      → PatIn s param.pattern_of
      → PtrIn s body
      → PtrIn s arg
      → PtrsIn s args
      → Safe s PtrIn (enter_lambda call fuel c param body arg args ok)
  unfolding enter_lambda
  Safe-enter_lambda s param body arg args false w b a as' =
      Safe-bind s Any _ _ _ (Safe-clear_binds param.pattern_of s w) (λ _ t g _.
        Safe-new_bottom t lambda_match_failure (arg ∷ []) (Within-mono _ _ arg g.thunks a, tt))
  Safe-enter_lambda s param body arg args true w b a as' =
      Safe-bind s PtrIn _ _ _ (safe.evaluates s body args b as')
        (λ ret t g x. Safe-leave_lambda t param ret (PatIn-mono s t g param.pattern_of w) x)

  pub Safe-eval_lambda :
      (s : Sizes) (param : Param) (body : Ptr) (args : List Ptr)
      → PatIn s param.pattern_of
      → PtrIn s body
      → PtrsIn s args
      → Safe s PtrIn (eval_lambda call fuel c param body args)
  unfolding eval_lambda
  Safe-eval_lambda s param body [] w b as' = Safe-fail s _
  Safe-eval_lambda s param body (arg ∷ args) w b (a, as') =
      Safe-bind s Any _ _ _ (Safe-match_pat c.eval0 safe.evaluates0 param.pattern_of s arg w a)
        (λ ok t g _.
          Safe-enter_lambda t param body arg args ok (PatIn-mono s t g param.pattern_of w)
            (Within-mono _ _ body g.thunks b) (Within-mono _ _ arg g.thunks a)
            (All-mono _ _ args g.thunks as'))
