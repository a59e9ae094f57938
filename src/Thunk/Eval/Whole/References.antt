-- ===== src/Thunk/Eval/Whole/References.antt =====
-- The evaluation of builtins and references in whole heaps.
use lazyscript.Prelude.{
  ℕ, zero, suc, ◌<◌, Bool, ◌&&◌, not, Option, none, some, List, [], ◌∷◌, Bytes, All, codes, length,
  take, drop, ltb, ◌==◌, arith,
}
use mathlib.Core.Path.{subst}
use lazyscript.Thunk.Heap.{
  Ptr, Origin, Builtin, Node, appl, ref, builtin, bind_origin, lambda_origin, builtin_origin, M,
  ◌>>=◌, fail,
}
use lazyscript.Thunk.Choice.{Calls}
use lazyscript.Thunk.Subst.{resolve}
use lazyscript.Thunk.Eval.{
  is_null, returned, returned0, apply_builtin, eval_builtin, force_origin, eval_target, eval_ref,
}
use lazyscript.Thunk.Build.Sound.{Sizes, Grows-trans, Within, NodeIn, ThunkIn, OriginIn, TargetIn}
use lazyscript.Thunk.Build.Sound.Monotone.{Within-mono, All-mono, OriginIn-mono}
use lazyscript.Thunk.Build.Sound.Marks.{Any}
use lazyscript.Thunk.Build.Sound.Forms.{PtrIn, PtrsIn}
use lazyscript.Thunk.Eval.Whole.{Safe, Safe-bind, Safe-fail, Safe-bool, Safe-if, Safe-option}
use lazyscript.Thunk.Eval.Whole.Actions.{Safe-gets, Safe-load, Safe-get_target, Safe-get_bound}
use lazyscript.Thunk.Eval.Whole.Match.{Safe-is_bottom, Safe-match_pat}
use lazyscript.Thunk.Eval.Whole.Subst.{Safe-resolve}
use lazyscript.Thunk.Eval.Whole.Choices.{IsSafe, Safe-ptr, Safe-new_value, Safe-new_bottom}

-- The functions of the builtins leave whole heaps where the evaluator does; the data of a builtin is
-- no thunk.
abbrev pub BuiltinsSafe : (Calls → ℕ → List Ptr → Ptr → M Ptr) → Type 0
BuiltinsSafe call =
    (c : Calls)
    → IsSafe c
    → (s : Sizes) (f : ℕ) (args : List Ptr) (d : Ptr) → PtrsIn s args
    → Safe s PtrIn (call c f args d)

All-take : (n k : ℕ) (ps : List Ptr) → All (Within n) ps → All (Within n) (take k ps)
All-take n zero ps w = tt
All-take n (suc k) [] w = tt
All-take n (suc k) (p ∷ ps) (w, ws) = (w, All-take n k ps ws)

All-drop : (n k : ℕ) (ps : List Ptr) → All (Within n) ps → All (Within n) (drop k ps)
All-drop n zero ps w = w
All-drop n (suc k) [] w = tt
All-drop n (suc k) (p ∷ ps) (w, ws) = All-drop n k ps ws

module _ (call : Calls → ℕ → List Ptr → Ptr → M Ptr) (builtins : BuiltinsSafe call) (fuel : ℕ)
    (c : Calls) (safe : IsSafe c) where
  Safe-returned :
      (s : Sizes) (r : Ptr) (args : List Ptr)
      → PtrIn s r
      → PtrsIn s args
      → Safe s PtrIn (returned call fuel c r args)
  unfolding returned
  Safe-returned s none args w as' = Safe-new_bottom s (codes "builtin: null") [] tt
  Safe-returned s (some r) args w as' =
      Safe-bind s Any _ _ _ (Safe-is_bottom s (some r) w) (λ b t g _.
        let here = Within-mono _ _ (some r) g.thunks w in
        Safe-bool t _ b _ _ (Safe-ptr t (some r) here)
          (safe.evaluates t (some r) args here (All-mono _ _ args g.thunks as')))

  Safe-returned0 : (s : Sizes) (r : Ptr) → PtrIn s r → Safe s PtrIn (returned0 call fuel c r)
  unfolding returned0
  Safe-returned0 s none w = Safe-new_bottom s (codes "builtin: null") [] tt
  Safe-returned0 s (some r) w = safe.evaluates0 s (some r) w

  Safe-apply_builtin :
      (s : Sizes) (p : ℕ) (b : Builtin) (args : List Ptr) (allowed : Bool)
      → p < s.thunks
      → PtrsIn s args
      → Safe s PtrIn (apply_builtin call fuel c p b args allowed)
  unfolding apply_builtin
  Safe-apply_builtin s p b args allowed lt as' =
      Safe-if s _ (b.effect && not allowed) _ _ (Safe-ptr s none tt) (
        Safe-if s _ (b.env_access && is_null b.data_ptr) _ _
          (Safe-new_bottom s (codes "builtin: missing env") [] tt)
          (Safe-if s _ (ltb (length args) b.arity) _ _
            (Safe-new_value s (appl (some p) args) (lt, as'))
            (Safe-bind s PtrIn _ _ _
              (builtins c safe s b.func (take b.arity args) b.data_ptr
                (All-take _ b.arity args as'))
              (λ r t g x.
                Safe-returned t r (drop b.arity args) x
                  (All-mono _ _ (drop b.arity args) g.thunks (All-drop _ b.arity args as'))))))

  pub Safe-eval_builtin :
      (s : Sizes) (p : ℕ) (b : Builtin) (args : List Ptr)
      → p < s.thunks
      → PtrsIn s args
      → Safe s PtrIn (eval_builtin call fuel c p b args)
  unfolding eval_builtin
  Safe-eval_builtin s p b [] lt as' =
      Safe-if s _ (b.arity == 0) _ _
        (Safe-bind s PtrIn _ _ _ (builtins c safe s b.func [] b.data_ptr tt)
          (λ r t g x. Safe-returned0 t r x))
        (Safe-ptr s (some p) lt)
  Safe-eval_builtin s p b (arg ∷ args) lt as' =
      Safe-bind s Any _ _ _ (Safe-gets s _) (λ allowed t g _.
        Safe-apply_builtin t p b (arg ∷ args) allowed (omega (arith, lt, g.thunks))
          (All-mono _ _ (arg ∷ args) g.thunks as'))

  builtin_node :
      (s : Sizes) (b : ℕ) (nd : Node) (args : List Ptr)
      → b < s.thunks
      → PtrsIn s args
      → Safe s PtrIn
          (elim nd as (λ _. M Ptr) [ builtin f ↦ eval_builtin call fuel c b f args | other ↦ fail ])
  builtin_node s b (builtin f) args lt as' = Safe-eval_builtin s b f args lt as'
  builtin_node s b _ args lt as' = Safe-fail s _

  Safe-force_origin :
      (s : Sizes) (o : Origin) (cell : ℕ) (args : List Ptr)
      → OriginIn s o
      → cell < s.bounds
      → PtrsIn s args
      → Safe s PtrIn (force_origin call fuel c o cell args)
  unfolding force_origin
  Safe-force_origin s (bind_origin lhs rhs) cell args (w, x) lt as' =
      Safe-bind s Any _ _ _ (Safe-match_pat c.eval0 safe.evaluates0 lhs s rhs w x) (λ ok t g _.
        Safe-bool t _ ok _ _
          (Safe-bind t PtrIn _ _ _ (Safe-get_bound t cell (omega (arith, lt, g.bounds)))
            (λ bound u k y.
              Safe-option u _ bound _ _ (λ _. Safe-fail u _)
                (λ b d.
                  safe.evaluates u (some b) args (subst (PtrIn u) d y)
                    (All-mono _ _ args (Grows-trans s t u g k).thunks as'))))
          (Safe-new_bottom t (codes "ref match failure") [] tt))
  Safe-force_origin s (lambda_origin param) cell args w lt as' =
      Safe-new_bottom s (codes "unbound lambda param") [] tt
  Safe-force_origin s (builtin_origin b) cell args w lt as' =
      Safe-bind s ThunkIn _ _ _ (Safe-load s (some b) w) (λ t u g _.
        builtin_node u b t.node args (omega (arith, w, g.thunks)) (All-mono _ _ args g.thunks as'))

  Safe-eval_target :
      (s : Sizes) (i : Option ℕ) (args : List Ptr)
      → Within s.targets i
      → PtrsIn s args
      → Safe s PtrIn (eval_target call fuel c i args)
  unfolding eval_target
  Safe-eval_target s none args w as' = Safe-new_bottom s (codes "undefined reference") [] tt
  Safe-eval_target s (some i) args w as' =
      Safe-bind s TargetIn _ _ _ (Safe-get_target s i w) (λ g t k x.
        Safe-bind t PtrIn _ _ _ (Safe-get_bound t g.cell x.cell) (λ bound u q y.
          let all = All-mono _ _ args (Grows-trans s t u k q).thunks as' in
          Safe-option u _ bound _ _
            (λ _.
              Safe-force_origin u g.origin g.cell args (OriginIn-mono t u q g.origin x.origin)
                (omega (arith, x.cell, q.bounds)) all)
            (λ b d. safe.evaluates u (some b) args (subst (PtrIn u) d y) all)))

  Safe-resolved :
      (s : Sizes) (p : ℕ) (name : Bytes) (env target : Option ℕ) (args : List Ptr)
      → p < s.thunks
      → NodeIn s (ref name env target)
      → PtrsIn s args
      → Safe s PtrIn (resolve p name env target >>= λ i. eval_target call fuel c i args)
  Safe-resolved s p name env target args lt (w, x) as' =
      Safe-bind s _ _ _ _ (Safe-resolve s p name env target lt w x)
        (λ i t g y. Safe-eval_target t i args y (All-mono _ _ args g.thunks as'))

  pub Safe-eval_ref :
      (s : Sizes) (p : ℕ) (name : Bytes) (env target : Option ℕ) (args : List Ptr)
      → p < s.thunks
      → NodeIn s (ref name env target)
      → PtrsIn s args
      → Safe s PtrIn (eval_ref call fuel c p name env target args)
  unfolding eval_ref
  Safe-eval_ref s p name none none args lt w as' = Safe-fail s _
  Safe-eval_ref s p name (some e) target args lt w as' =
      Safe-resolved s p name (some e) target args lt w as'
  Safe-eval_ref s p name none (some i) args lt w as' =
      Safe-resolved s p name none (some i) args lt w as'
