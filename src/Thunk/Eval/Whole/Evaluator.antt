-- ===== src/Thunk/Eval/Whole/Evaluator.antt =====
-- The evaluator in whole heaps.
use lazyscript.Prelude.{ℕ, zero, suc, ◌<◌, ◌≡◌, none, some, List, [], ◌∷◌, ◌++◌, arith}
use lazyscript.Thunk.Heap.{
  Ptr, Node, alge, appl, choice, lambda, ref, int, str, symbol, builtin, bottom, blank, Heap, M,
  done,
}
use lazyscript.Thunk.Match.{is_bottom_node}
use lazyscript.Thunk.Choice.{Calls}
use lazyscript.Thunk.Eval.{eval_applied, eval_node, value_of, eval0_loaded, eval, eval0}
use lazyscript.Thunk.Build.Sound.{Sizes, sizes, Grows-refl, NodeIn, ThunkIn}
use lazyscript.Thunk.Build.Sound.Monotone.{Within-mono, All-mono}
use lazyscript.Thunk.Build.Sound.Marks.{Any}
use lazyscript.Thunk.Build.Sound.Forms.{PtrIn, PtrsIn}
use lazyscript.Thunk.Eval.Whole.{
  IsWhole, Leaves-done, Kept, Safe, Safe-bind, Safe-fail, Safe-no_fuel, Safe-if,
}
use lazyscript.Thunk.Eval.Whole.Actions.{Safe-load, Safe-set_whnf}
use lazyscript.Thunk.Eval.Whole.Choices.{
  IsSafe, All-append, Safe-ptr, Safe-new_value, Safe-eval_choice,
}
use lazyscript.Thunk.Eval.Whole.Lambdas.{Safe-eval_lambda}
use lazyscript.Thunk.Eval.Whole.References.{BuiltinsSafe, Safe-eval_builtin, Safe-eval_ref}

module _ (call : Calls → ℕ → List Ptr → Ptr → M Ptr) (builtins : BuiltinsSafe call) (fuel : ℕ)
    (c : Calls) (safe : IsSafe c) where
  Safe-eval_applied :
      (s : Sizes) (p : ℕ) (nd : Node) (args : List Ptr)
      → p < s.thunks
      → NodeIn s nd
      → PtrsIn s args
      → Safe s PtrIn (eval_applied call fuel c p nd args)
  unfolding eval_applied
  Safe-eval_applied s p (alge k xs) args lt w as' =
      Safe-new_value s (alge k (xs ++ args)) (All-append _ xs args w as')
  Safe-eval_applied s p (appl f xs) args lt (w, ws) as' =
      safe.evaluates s f (xs ++ args) w (All-append _ xs args ws as')
  Safe-eval_applied s p (lambda param body) args lt (w, x) as' =
      Safe-eval_lambda call fuel c safe s param body args w x as'
  Safe-eval_applied s p (ref name env target) args lt w as' =
      Safe-eval_ref call builtins fuel c safe s p name env target args lt w as'
  Safe-eval_applied s p (choice l r k) args lt (w, x) as' =
      Safe-eval_choice c safe s l r k args w x as'
  Safe-eval_applied s p (int v) args lt w as' = Safe-ptr s none tt
  Safe-eval_applied s p (str v) args lt w as' = Safe-ptr s none tt
  Safe-eval_applied s p (symbol v) args lt w as' = Safe-ptr s none tt
  Safe-eval_applied s p (bottom m xs) args lt w as' = Safe-ptr s (some p) lt
  Safe-eval_applied s p (builtin b) args lt w as' =
      Safe-eval_builtin call builtins fuel c safe s p b args lt as'
  Safe-eval_applied s p blank args lt w as' = Safe-fail s _

  Safe-eval_node :
      (s : Sizes) (p : ℕ) (nd : Node) (args : List Ptr)
      → p < s.thunks
      → NodeIn s nd
      → PtrsIn s args
      → Safe s PtrIn (eval_node call fuel c p nd args)
  unfolding eval_node
  Safe-eval_node s p nd [] lt w as' =
      Safe-if s _ (is_bottom_node nd) _ _ (Safe-ptr s (some p) lt) (safe.evaluates0 s (some p) lt)
  Safe-eval_node s p nd (a ∷ args) lt w as' =
      Safe-if s _ (is_bottom_node nd) _ _ (Safe-ptr s (some p) lt)
        (Safe-eval_applied s p nd (a ∷ args) lt w as')

  Safe-value_of :
      (s : Sizes) (p : ℕ) (nd : Node)
      → p < s.thunks
      → NodeIn s nd
      → Safe s PtrIn (value_of call fuel c p nd)
  unfolding value_of
  Safe-value_of s p (appl f xs) lt (w, ws) = safe.evaluates s f xs w ws
  Safe-value_of s p (ref name env target) lt w =
      Safe-eval_ref call builtins fuel c safe s p name env target [] lt w tt
  Safe-value_of s p (choice l r k) lt (w, x) = Safe-eval_choice c safe s l r k [] w x tt
  Safe-value_of s p (builtin b) lt w = Safe-eval_builtin call builtins fuel c safe s p b [] lt tt
  Safe-value_of s p blank lt w = Safe-fail s _
  Safe-value_of s p _ lt w = Safe-ptr s (some p) lt

  Safe-eval0_loaded :
      (s : Sizes) (p : ℕ) (nd : Node) (v : Ptr)
      → p < s.thunks
      → NodeIn s nd
      → PtrIn s v
      → Safe s PtrIn (eval0_loaded call fuel c p (record { node = nd; whnf = v }))
  unfolding eval0_loaded
  Safe-eval0_loaded s p nd none lt w x =
      Safe-bind s PtrIn _ _ _ (Safe-value_of s p nd lt w) (λ r t g y.
        Safe-bind t Any _ _ _ (Safe-set_whnf t p r (omega (arith, lt, g.thunks)) y)
          (λ _ u k _. Safe-ptr u r (Within-mono _ _ r k.thunks y)))
  Safe-eval0_loaded s p nd (some r) lt w x = Safe-ptr s (some r) x

module _ (call : Calls → ℕ → List Ptr → Ptr → M Ptr) (builtins : BuiltinsSafe call) where
  mutual
    unfolding eval eval0

    Safe-eval :
        (fuel : ℕ) (s : Sizes) (t : Ptr) (args : List Ptr)
        → PtrIn s t
        → PtrsIn s args
        → Safe s PtrIn (eval call fuel t args)
    Safe-eval zero s t args w as' = Safe-no_fuel s _
    Safe-eval (suc fuel) s none args w as' = Safe-fail s _
    Safe-eval (suc fuel) s (some p) args w as' =
        let safe : IsSafe (record { eval = eval call fuel; eval0 = eval0 call fuel }) = record {
          evaluates = λ s t args w as'. Safe-eval fuel s t args w as';
          evaluates0 = λ s t w. Safe-eval0 fuel s t w;
        } in
        Safe-bind s ThunkIn _ _ _ (Safe-load s (some p) w) (λ t u g x.
          Safe-eval_node call builtins fuel _ safe u p t.node args (omega (arith, w, g.thunks))
            x.node (All-mono _ _ args g.thunks as'))

    pub Safe-eval0 : (fuel : ℕ) (s : Sizes) (t : Ptr) → PtrIn s t → Safe s PtrIn (eval0 call fuel t)
    Safe-eval0 zero s t w = Safe-no_fuel s _
    Safe-eval0 (suc fuel) s none w = Safe-fail s _
    Safe-eval0 (suc fuel) s (some p) w =
        let safe : IsSafe (record { eval = eval call fuel; eval0 = eval0 call fuel }) = record {
          evaluates = λ s t args w as'. Safe-eval fuel s t args w as';
          evaluates0 = λ s t w. Safe-eval0 fuel s t w;
        } in
        Safe-bind s ThunkIn _ _ _ (Safe-load s (some p) w) (λ t u g x.
          Safe-eval0_loaded call builtins fuel _ safe u p t.node t.whnf (omega (arith, w, g.thunks))
            x.node x.whnf)

-- Where every pointer leads to an object, bindings included, and each environment is younger than its
-- parent, and where the functions of the builtins keep a heap so, with values that are NULL or thunks
-- of it, an evaluation of a thunk with arguments that ends leaves such a heap, from which no object
-- has gone; its value is NULL or a thunk of that heap.
pub eval-Kept :
    (call : Calls → ℕ → List Ptr → Ptr → M Ptr)
    → BuiltinsSafe call
    → (fuel : ℕ) (t : Ptr) (args : List Ptr) (h h' : Heap) (r : Ptr) → IsWhole h
    → PtrIn (sizes h) t
    → PtrsIn (sizes h) args
    → eval call fuel t args h ≡ done r h'
    → Kept PtrIn (sizes h) r h'
eval-Kept call builtins fuel t args h h' r k w as' e =
    Leaves-done _ r h'
      ((Safe-eval call builtins fuel (sizes h) t args w as').at h k (Grows-refl (sizes h))) e
