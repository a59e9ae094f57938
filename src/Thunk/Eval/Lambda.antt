-- ===== src/Thunk/Eval/Lambda.antt =====
-- The bindings of a parameter after `lsthunk_eval_lambda` of src/thunk/thunk.c.
use lazyscript.Prelude.{
  ℕ, ◌≡◌, ap, ◌∙◌, Bool, true, false, none, some, List, [], ◌∷◌, Bytes, get_elem?,
}
use lazyscript.Thunk.Heap.{Ptr, Param, Pat, Heap, M, done, ◌>>=◌, ◌>>◌, pure, fail, alloc_whnf}
use lazyscript.Thunk.Heap.Steps.{bind-done}
use lazyscript.Thunk.Match.{clear_binds, match_pat}
use lazyscript.Thunk.Match.Clear.{binds, Emptied-clear_binds}
use lazyscript.Thunk.Bottom.{new_bottom, new_value, lambda_match_failure}
use lazyscript.Thunk.Subst.{subst_param}
use lazyscript.Thunk.Choice.{Calls}
use lazyscript.Thunk.Eval.{leave_lambda, enter_lambda, eval_lambda}

abbrev Empty : Pat → Heap → Type 0
Empty p h = (i : ℕ) → binds p i ≡ true → get_elem? h.bounds i ≡ some none

new_bottom-bounds :
    (msg : Bytes) (args : List Ptr) (h h' : Heap) (r : Ptr)
    → new_bottom msg args h ≡ done r h'
    → h'.bounds ≡ h.bounds
unfolding new_bottom new_value alloc_whnf ◌>>=◌ pure
new_bottom-bounds msg args h h' r e = cc

-- what is done after the bindings are emptied leaves them alone
clear-Empty :
    (p : Pat) (k : M Ptr) (h h' : Heap) (r : Ptr)
    → ((h1 : Heap) → k h1 ≡ done r h' → h'.bounds ≡ h1.bounds)
    → (clear_binds p >> k) h ≡ done r h'
    → Empty p h'
clear-Empty p k h h' r same_bounds e i b =
    let s = bind-done (clear_binds p) (λ _. k) h r h' e in
    ap (λ xs. get_elem? xs i) (same_bounds s.between s.second)
    ∙ (Emptied-clear_binds p h s.between s.first).emptied i b

pure-bounds : (a r : Ptr) (h h' : Heap) → pure a h ≡ done r h' → h'.bounds ≡ h.bounds
unfolding pure
pure-bounds a r h h' e = cc

module _ (call : Calls → ℕ → List Ptr → Ptr → M Ptr) (fuel : ℕ) (c : Calls) (param : Param) where
  leave-Empty :
      (v : Ptr) (h h' : Heap) (r : Ptr)
      → leave_lambda call fuel c param v h ≡ done r h'
      → Empty param.pattern_of h'
  unfolding leave_lambda
  leave-Empty none h h' r e =
      clear-Empty param.pattern_of (pure none) h h' r (λ h1. pure-bounds none r h1 h') e
  leave-Empty (some v) h h' r e =
      let k = λ (a : Ptr). clear_binds param.pattern_of >> pure a in
      let s = bind-done (subst_param fuel param.address (some v)) k h r h' e in
      clear-Empty param.pattern_of (pure s.value) s.between h' r (λ h1. pure-bounds s.value r h1 h')
        s.second

  enter-Empty :
      (body arg : Ptr) (args : List Ptr) (ok : Bool) (h h' : Heap) (r : Ptr)
      → enter_lambda call fuel c param body arg args ok h ≡ done r h'
      → Empty param.pattern_of h'
  unfolding enter_lambda
  enter-Empty body arg args false h h' r e =
      clear-Empty param.pattern_of (new_bottom lambda_match_failure (arg ∷ [])) h h' r
        (λ h1 e1. new_bottom-bounds lambda_match_failure (arg ∷ []) h1 h' r e1) e
  enter-Empty body arg args true h h' r e =
      let s = bind-done (c.eval body args) (leave_lambda call fuel c param) h r h' e in
      leave-Empty s.value s.between h' r s.second

-- When the application of a lambda ends, with a value, NULL or a failure to match, then every binding
-- of its parameter is empty, whatever the evaluation of the argument and the body did.
pub eval_lambda-clears :
    (call : Calls → ℕ → List Ptr → Ptr → M Ptr) (fuel : ℕ) (c : Calls) (param : Param) (body : Ptr)
    (args : List Ptr) (h h' : Heap) (r : Ptr)
    → eval_lambda call fuel c param body args h ≡ done r h'
    → (i : ℕ) → binds param.pattern_of i ≡ true
    → get_elem? h'.bounds i ≡ some none
unfolding eval_lambda fail
eval_lambda-clears call fuel c param body [] h h' r e i b = cc
eval_lambda-clears call fuel c param body (arg ∷ args) h h' r e i b =
    let s =
      bind-done (match_pat c.eval0 param.pattern_of arg)
        (enter_lambda call fuel c param body arg args) h r h' e in
    enter-Empty call fuel c param body arg args s.value s.between h' r s.second i b
