-- ===== src/Thunk/Eval/Keeps.antt =====
-- The nodes of the thunks under the evaluation of src/thunk/thunk.c.
use lazyscript.Prelude.{
  ℕ, zero, suc, ◌≡◌, Bool, true, false, ◌&&◌, not, Option, none, some, List, [], ◌∷◌, ◌++◌, Bytes,
  codes, length, get_elem?, take, drop, ltb, ◌==◌, if◌then◌else◌, arith,
}
use lazyscript.Thunk.Heap.{
  Ptr, Param, Origin, Builtin, Node, alge, appl, choice, lambda, ref, int, str, symbol, builtin,
  bottom, blank, Thunk, bind_origin, lambda_origin, builtin_origin, M, Heap, done, fail,
}
use lazyscript.Thunk.Heap.Steps.{get_elem?-below}
use lazyscript.Thunk.Heap.Keeps.{Keeps, Since}
use lazyscript.Thunk.Heap.Rules.{
  Keeps-pure, Keeps-fail, Keeps-no_fuel, Keeps-gets, Keeps-bool, Keeps-option, Keeps-bind,
  Keeps-load, Keeps-get_bound, Keeps-get_target, Keeps-store_whnf,
}
use lazyscript.Thunk.Match.{is_bottom_node}
use lazyscript.Thunk.Match.Keeps.{Keeps-is_bottom, Keeps-clear_binds, Keeps-match_pat}
use lazyscript.Thunk.Bottom.{lambda_match_failure}
use lazyscript.Thunk.Subst.Keeps.{
  KeepsAt, KeepsAt-of, KeepsAt-bind, KeepsAt-resolve, Keeps-load_at, Keeps-subst_param,
}
use lazyscript.Thunk.Choice.{Calls}
use lazyscript.Thunk.Choice.Keeps.{
  Keeping, Keeps-if, Keeps-new_value, Keeps-new_bottom, Keeps-eval_choice,
}
use lazyscript.Thunk.Eval.{
  is_null, leave_lambda, enter_lambda, eval_lambda, returned, returned0, apply_builtin,
  eval_builtin, force_origin, eval_target, eval_ref, eval_applied, eval_node, value_of,
  eval0_loaded, eval, eval0,
}

-- The functions of the builtins leave the nodes of the thunks as they are, where the evaluator does.
abbrev pub BuiltinsKeep : (Calls → ℕ → List Ptr → Ptr → M Ptr) → Type 0
BuiltinsKeep call =
    (c : Calls) → Keeping c → (n f : ℕ) (args : List Ptr) (d : Ptr) → Keeps n (call c f args d)

module _ (call : Calls → ℕ → List Ptr → Ptr → M Ptr) (builtins_keep : BuiltinsKeep call)
    (fuel n : ℕ) (c : Calls) (keeping : Keeping c) where
  Keeps-leave_lambda : (param : Param) (v : Ptr) → Keeps n (leave_lambda call fuel c param v)
  unfolding leave_lambda
  Keeps-leave_lambda param none =
      Keeps-bind n _ _ (Keeps-clear_binds n param.pattern_of) (λ _. Keeps-pure n none)
  Keeps-leave_lambda param (some v) =
      Keeps-bind n _ _ (Keeps-subst_param n fuel param.address (some v))
        (λ r. Keeps-bind n _ _ (Keeps-clear_binds n param.pattern_of) (λ _. Keeps-pure n r))

  Keeps-enter_lambda :
      (param : Param) (body arg : Ptr) (args : List Ptr) (ok : Bool)
      → Keeps n (enter_lambda call fuel c param body arg args ok)
  unfolding enter_lambda
  Keeps-enter_lambda param body arg args false =
      Keeps-bind n _ _ (Keeps-clear_binds n param.pattern_of)
        (λ _. Keeps-new_bottom n lambda_match_failure (arg ∷ []))
  Keeps-enter_lambda param body arg args true =
      Keeps-bind n _ _ (keeping.evaluates n body args) (Keeps-leave_lambda param)

  Keeps-eval_lambda :
      (param : Param) (body : Ptr) (args : List Ptr)
      → Keeps n (eval_lambda call fuel c param body args)
  unfolding eval_lambda
  Keeps-eval_lambda param body [] = Keeps-fail n
  Keeps-eval_lambda param body (arg ∷ args) =
      Keeps-bind n _ _ (Keeps-match_pat n c.eval0 (keeping.evaluates0 n) param.pattern_of arg)
        (Keeps-enter_lambda param body arg args)

  Keeps-returned : (r : Ptr) (args : List Ptr) → Keeps n (returned call fuel c r args)
  unfolding returned
  Keeps-returned none args = Keeps-new_bottom n (codes "builtin: null") []
  Keeps-returned (some r) args =
      Keeps-bind n _ _ (Keeps-is_bottom n (some r))
        (λ b. Keeps-bool n b _ _ (Keeps-pure n (some r)) (keeping.evaluates n (some r) args))

  Keeps-returned0 : (r : Ptr) → Keeps n (returned0 call fuel c r)
  unfolding returned0
  Keeps-returned0 none = Keeps-new_bottom n (codes "builtin: null") []
  Keeps-returned0 (some r) = keeping.evaluates0 n (some r)

  Keeps-apply_builtin :
      (p : ℕ) (b : Builtin) (args : List Ptr) (allowed : Bool)
      → Keeps n (apply_builtin call fuel c p b args allowed)
  unfolding apply_builtin
  Keeps-apply_builtin p b args allowed =
      Keeps-if n (b.effect && not allowed) _ _ (Keeps-pure n none) (
        Keeps-if n (b.env_access && is_null b.data_ptr) _ _
          (Keeps-new_bottom n (codes "builtin: missing env") [])
          (Keeps-if n (ltb (length args) b.arity) _ _ (Keeps-new_value n (appl (some p) args)) (
            Keeps-bind n _ _ (builtins_keep c keeping n b.func (take b.arity args) b.data_ptr)
              (λ r. Keeps-returned r (drop b.arity args)))))

  Keeps-eval_builtin :
      (p : ℕ) (b : Builtin) (args : List Ptr) → Keeps n (eval_builtin call fuel c p b args)
  unfolding eval_builtin
  Keeps-eval_builtin p b [] =
      Keeps-if n (b.arity == 0) _ _
        (Keeps-bind n _ _ (builtins_keep c keeping n b.func [] b.data_ptr) Keeps-returned0)
        (Keeps-pure n (some p))
  Keeps-eval_builtin p b (arg ∷ args) =
      Keeps-bind n _ _ (Keeps-gets n _) (Keeps-apply_builtin p b (arg ∷ args))

  builtin_node :
      (b : ℕ) (nd : Node) (args : List Ptr)
      → Keeps n
          (elim nd as (λ _. M Ptr) [ builtin f ↦ eval_builtin call fuel c b f args | other ↦ fail ])
  builtin_node b (builtin f) args = Keeps-eval_builtin b f args
  builtin_node b _ args = Keeps-fail n

  Keeps-force_origin :
      (o : Origin) (cell : ℕ) (args : List Ptr) → Keeps n (force_origin call fuel c o cell args)
  unfolding force_origin
  Keeps-force_origin (bind_origin lhs rhs) cell args =
      Keeps-bind n _ _ (Keeps-match_pat n c.eval0 (keeping.evaluates0 n) lhs rhs) (λ ok.
        Keeps-bool n ok _ _
          (Keeps-bind n _ _ (Keeps-get_bound n cell) (λ bound.
            Keeps-option n bound _ _ (Keeps-fail n) (λ b. keeping.evaluates n (some b) args)))
          (Keeps-new_bottom n (codes "ref match failure") []))
  Keeps-force_origin (lambda_origin param) cell args =
      Keeps-new_bottom n (codes "unbound lambda param") []
  Keeps-force_origin (builtin_origin b) cell args =
      Keeps-bind n _ _ (Keeps-load n (some b)) (λ t. builtin_node b t.node args)

  Keeps-eval_target : (i : Option ℕ) (args : List Ptr) → Keeps n (eval_target call fuel c i args)
  unfolding eval_target
  Keeps-eval_target none args = Keeps-new_bottom n (codes "undefined reference") []
  Keeps-eval_target (some i) args = Keeps-bind n _ _ (Keeps-get_target n i) (λ g.
      Keeps-bind n _ _ (Keeps-get_bound n g.cell) (λ bound.
        Keeps-option n bound _ _ (Keeps-force_origin g.origin g.cell args)
          (λ b. keeping.evaluates n (some b) args)))

  KeepsAt-eval_ref :
      (p : ℕ) (name : Bytes) (env target : Option ℕ) (args : List Ptr)
      → KeepsAt n p (ref name env target) (eval_ref call fuel c p name env target args)
  unfolding eval_ref
  KeepsAt-eval_ref p name none none args = KeepsAt-of n p _ _ (Keeps-fail n)
  KeepsAt-eval_ref p name (some e) target args =
      KeepsAt-bind n p _ _ _ (KeepsAt-resolve n p name (some e) target)
        (λ i. Keeps-eval_target i args)
  KeepsAt-eval_ref p name none (some i) args =
      KeepsAt-bind n p _ _ _ (KeepsAt-resolve n p name none (some i))
        (λ i. Keeps-eval_target i args)

  KeepsAt-eval_applied :
      (p : ℕ) (nd : Node) (args : List Ptr) → KeepsAt n p nd (eval_applied call fuel c p nd args)
  unfolding eval_applied
  KeepsAt-eval_applied p (alge k xs) args =
      KeepsAt-of n p _ _ (Keeps-new_value n (alge k (xs ++ args)))
  KeepsAt-eval_applied p (appl f xs) args = KeepsAt-of n p _ _ (keeping.evaluates n f (xs ++ args))
  KeepsAt-eval_applied p (lambda param body) args =
      KeepsAt-of n p _ _ (Keeps-eval_lambda param body args)
  KeepsAt-eval_applied p (ref name env target) args = KeepsAt-eval_ref p name env target args
  KeepsAt-eval_applied p (choice l r k) args =
      KeepsAt-of n p _ _ (Keeps-eval_choice n c keeping l r k args)
  KeepsAt-eval_applied p (int v) args = KeepsAt-of n p _ _ (Keeps-pure n none)
  KeepsAt-eval_applied p (str s) args = KeepsAt-of n p _ _ (Keeps-pure n none)
  KeepsAt-eval_applied p (symbol s) args = KeepsAt-of n p _ _ (Keeps-pure n none)
  KeepsAt-eval_applied p (bottom m xs) args = KeepsAt-of n p _ _ (Keeps-pure n (some p))
  KeepsAt-eval_applied p (builtin b) args = KeepsAt-of n p _ _ (Keeps-eval_builtin p b args)
  KeepsAt-eval_applied p blank args = KeepsAt-of n p _ _ (Keeps-fail n)

  KeepsAt-if :
      (p : ℕ) (nd : Node) (b : Bool) (m k : M Ptr)
      → KeepsAt n p nd m
      → KeepsAt n p nd k
      → KeepsAt n p nd (if b then m else k)
  KeepsAt-if p nd true m k km kk = km
  KeepsAt-if p nd false m k km kk = kk

  KeepsAt-eval_node :
      (p : ℕ) (nd : Node) (args : List Ptr) → KeepsAt n p nd (eval_node call fuel c p nd args)
  unfolding eval_node
  KeepsAt-eval_node p nd [] =
      KeepsAt-if p nd (is_bottom_node nd) _ _ (KeepsAt-of n p _ _ (Keeps-pure n (some p)))
        (KeepsAt-of n p _ _ (keeping.evaluates0 n (some p)))
  KeepsAt-eval_node p nd (a ∷ args) =
      KeepsAt-if p nd (is_bottom_node nd) _ _ (KeepsAt-of n p _ _ (Keeps-pure n (some p)))
        (KeepsAt-eval_applied p nd (a ∷ args))

  KeepsAt-value_of : (p : ℕ) (nd : Node) → KeepsAt n p nd (value_of call fuel c p nd)
  unfolding value_of
  KeepsAt-value_of p (appl f xs) = KeepsAt-of n p _ _ (keeping.evaluates n f xs)
  KeepsAt-value_of p (ref name env target) = KeepsAt-eval_ref p name env target []
  KeepsAt-value_of p (choice l r k) = KeepsAt-of n p _ _ (Keeps-eval_choice n c keeping l r k [])
  KeepsAt-value_of p (builtin b) = KeepsAt-of n p _ _ (Keeps-eval_builtin p b [])
  KeepsAt-value_of p blank = KeepsAt-of n p _ _ (Keeps-fail n)
  KeepsAt-value_of p _ = KeepsAt-of n p _ _ (Keeps-pure n (some p))

  KeepsAt-eval0_loaded :
      (p : ℕ) (nd : Node) (w : Ptr)
      → KeepsAt n p nd (eval0_loaded call fuel c p (record { node = nd; whnf = w }))
  unfolding eval0_loaded
  KeepsAt-eval0_loaded p nd none =
      KeepsAt-bind n p _ _ _ (KeepsAt-value_of p nd)
        (λ r. Keeps-bind n _ _ (Keeps-store_whnf n p r) (λ _. Keeps-pure n r))
  KeepsAt-eval0_loaded p nd (some r) = KeepsAt-of n p _ _ (Keeps-pure n (some r))

module _ (call : Calls → ℕ → List Ptr → Ptr → M Ptr) (builtins_keep : BuiltinsKeep call) where
  mutual
    unfolding eval eval0

    pub Keeps-eval : (fuel n : ℕ) (t : Ptr) (args : List Ptr) → Keeps n (eval call fuel t args)
    Keeps-eval zero n t args = Keeps-no_fuel n
    Keeps-eval (suc fuel) n none args = Keeps-fail n
    Keeps-eval (suc fuel) n (some p) args =
        let keeping : Keeping (record { eval = eval call fuel; eval0 = eval0 call fuel }) = record {
          evaluates = λ k t args. Keeps-eval fuel k t args;
          evaluates0 = λ k t. Keeps-eval0 fuel k t;
        } in
        Keeps-load_at n p _
          (λ t. KeepsAt-eval_node call builtins_keep fuel n _ keeping p t.node args)

    pub Keeps-eval0 : (fuel n : ℕ) (t : Ptr) → Keeps n (eval0 call fuel t)
    Keeps-eval0 zero n t = Keeps-no_fuel n
    Keeps-eval0 (suc fuel) n none = Keeps-fail n
    Keeps-eval0 (suc fuel) n (some p) =
        let keeping : Keeping (record { eval = eval call fuel; eval0 = eval0 call fuel }) = record {
          evaluates = λ k t args. Keeps-eval fuel k t args;
          evaluates0 = λ k t. Keeps-eval0 fuel k t;
        } in
        Keeps-load_at n p _
          (λ t. KeepsAt-eval0_loaded call builtins_keep fuel n _ keeping p t.node t.whnf)

-- Where the functions of the builtins do so, an evaluation that ends leaves the node of each thunk as
-- it was, but that a reference without a target may have got one.
pub eval-Since :
    (call : Calls → ℕ → List Ptr → Ptr → M Ptr)
    → BuiltinsKeep call
    → (fuel : ℕ) (t : Ptr) (args : List Ptr) (h h' : Heap) (r : Ptr)
    → eval call fuel t args h ≡ done r h'
    → (i : ℕ) (u : Thunk) → get_elem? h.thunks i ≡ some u
    → Since u.node i h'
eval-Since call builtins_keep fuel t args h h' r e i u at =
    ((Keeps-eval call builtins_keep fuel (length h.thunks) t args).at h r h' (omega arith) e).nodes
      i u (get_elem?-below h.thunks i u at) at
