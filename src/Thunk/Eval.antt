-- ===== src/Thunk/Eval.antt =====
-- Evaluation of thunks: `lsthunk_eval`, `lsthunk_eval0` and the functions around them of
-- src/thunk/thunk.c, without the choice. The functions of the builtins are a parameter, and get the evaluator.
pub mod Memo
pub mod Lambda
pub mod Keeps
pub mod Whole
use lazyscript.Prelude.{
  ℕ, zero, suc, Bool, true, false, ◌&&◌, not, Option, none, some, List, [], ◌∷◌, ◌++◌, Bytes, codes,
  length, take, drop, same, ltb, ◌==◌, if◌then◌else◌,
}
use lazyscript.Thunk.Heap.{
  Ptr, Pat, Param, Origin, Builtin, Node, alge, appl, choice, lambda, ref, int, str, symbol,
  builtin, bottom, blank, Thunk, Target, bind_origin, lambda_origin, builtin_origin, M, Heap, ◌>>=◌,
  ◌>>◌, pure, fail, no_fuel, gets, load, alloc, alloc_whnf, set_whnf, set_node, get_bound,
  get_target,
}
use lazyscript.Runtime.Effects
use lazyscript.Thunk.Match.{is_bottom_node, is_bottom, clear_binds, match_pat}
use lazyscript.Thunk.Bottom.{new_value, new_bottom, lambda_match_failure}
use lazyscript.Thunk.Choice.{Calls, eval_choice}
use lazyscript.Thunk.Subst.{resolve, subst_param}

abbrev pub is_null : Ptr → Bool
is_null none = true
is_null (some p) = false

module _ (call : Calls → ℕ → List Ptr → Ptr → M Ptr) (fuel : ℕ) (c : Calls) where
  -- the value of the body is ready
  unfoldable pub leave_lambda : Param → Ptr → M Ptr
  unfolding ◌>>=◌ pure clear_binds subst_param
  leave_lambda param none = do clear_binds param.pattern_of; pure none
  leave_lambda param (some v) = do
    r ← subst_param fuel param.address (some v)
    clear_binds param.pattern_of
    pure r

  unfoldable pub enter_lambda : Param → Ptr → Ptr → List Ptr → Bool → M Ptr
  unfolding ◌>>=◌ clear_binds new_bottom leave_lambda
  enter_lambda param body arg args false = do
    clear_binds param.pattern_of
    new_bottom lambda_match_failure (arg ∷ [])
  enter_lambda param body arg args true = do ret ← c.eval body args; leave_lambda param ret

  unfoldable pub eval_lambda : Param → Ptr → List Ptr → M Ptr
  unfolding ◌>>=◌ fail match_pat enter_lambda
  eval_lambda param body [] = fail
  eval_lambda param body (arg ∷ args) = do
    ok ← match_pat c.eval0 param.pattern_of arg
    enter_lambda param body arg args ok

  -- the result of a call of a builtin
  unfoldable pub returned : Ptr → List Ptr → M Ptr
  unfolding ◌>>=◌ pure is_bottom new_bottom
  returned none args = new_bottom (codes "builtin: null") []
  returned (some r) args = do
    b ← is_bottom (some r)
    elim b [ true ↦ pure (some r) | false ↦ c.eval (some r) args ]

  unfoldable pub returned0 : Ptr → M Ptr
  unfolding new_bottom
  returned0 none = new_bottom (codes "builtin: null") []
  returned0 (some r) = c.eval0 (some r)

  unfoldable pub apply_builtin : ℕ → Builtin → List Ptr → Bool → M Ptr
  unfolding ◌>>=◌ pure new_value new_bottom returned
  apply_builtin p b args allowed =
      if b.effect && not allowed
      then pure none
      else if b.env_access && is_null b.data_ptr
      then new_bottom (codes "builtin: missing env") []
      else if ltb (length args) b.arity
      then new_value (appl (some p) args)
      else (do ret ← call c b.func (take b.arity args) b.data_ptr; returned ret (drop b.arity args))

  unfoldable pub eval_builtin : ℕ → Builtin → List Ptr → M Ptr
  unfolding ◌>>=◌ pure gets returned0 apply_builtin Effects.allowed
  eval_builtin p b [] =
      if b.arity == 0 then (do ret ← call c b.func [] b.data_ptr; returned0 ret) else pure (some p)
  eval_builtin p b (arg ∷ args) = do
    allowed ← gets (λ h. Effects.allowed h.effects)
    apply_builtin p b (arg ∷ args) allowed

  -- a reference whose binding is empty
  unfoldable pub force_origin : Origin → ℕ → List Ptr → M Ptr
  unfolding ◌>>=◌ pure fail load get_bound match_pat new_bottom eval_builtin
  force_origin (bind_origin lhs rhs) cell args = do
    ok ← match_pat c.eval0 lhs rhs
    elim ok [
      | false ↦ new_bottom (codes "ref match failure") []
      | true ↦ do bound ← get_bound cell; elim bound [ none ↦ fail | some b ↦ c.eval (some b) args ]
    ]
  force_origin (lambda_origin param) cell args = new_bottom (codes "unbound lambda param") []
  force_origin (builtin_origin b) cell args = do
    t ← load (some b)
    elim t.node [ builtin f ↦ eval_builtin b f args | other ↦ fail ]

  unfoldable pub eval_target : Option ℕ → List Ptr → M Ptr
  unfolding ◌>>=◌ get_target get_bound new_bottom force_origin
  eval_target none args = new_bottom (codes "undefined reference") []
  eval_target (some i) args = do
    g ← get_target i
    bound ← get_bound g.cell
    elim bound [ none ↦ force_origin g.origin g.cell args | some b ↦ c.eval (some b) args ]

  -- A reference that is not resolved has an environment, which `lstenv_get` asserts.
  unfoldable pub eval_ref : ℕ → Bytes → Option ℕ → Option ℕ → List Ptr → M Ptr
  unfolding ◌>>=◌ fail resolve eval_target
  eval_ref p name none none args = fail
  eval_ref p name env target args = do i ← resolve p name env target; eval_target i args

  -- a thunk that is no bottom, with arguments
  unfoldable pub eval_applied : ℕ → Node → List Ptr → M Ptr
  unfolding pure fail new_value eval_lambda eval_ref eval_choice eval_builtin
  eval_applied p (alge k xs) args = new_value (alge k (xs ++ args))
  eval_applied p (appl f xs) args = c.eval f (xs ++ args)
  eval_applied p (lambda param body) args = eval_lambda param body args
  eval_applied p (ref name env target) args = eval_ref p name env target args
  eval_applied p (choice l r k) args = eval_choice c l r k args
  eval_applied p (int v) args = pure none
  eval_applied p (str s) args = pure none
  eval_applied p (symbol s) args = pure none
  eval_applied p (bottom m xs) args = pure (some p)
  eval_applied p (builtin b) args = eval_builtin p b args
  eval_applied p blank args = fail

  -- the part of `lsthunk_eval` after the load
  unfoldable pub eval_node : ℕ → Node → List Ptr → M Ptr
  unfolding pure is_bottom_node eval_applied
  eval_node p n [] = if is_bottom_node n then pure (some p) else c.eval0 (some p)
  eval_node p n (a ∷ args) = if is_bottom_node n then pure (some p) else eval_applied p n (a ∷ args)

  -- the value that `lsthunk_eval0` keeps
  unfoldable pub value_of : ℕ → Node → M Ptr
  unfolding pure fail eval_ref eval_choice eval_builtin
  value_of p (appl f xs) = c.eval f xs
  value_of p (ref name env target) = eval_ref p name env target []
  value_of p (choice l r k) = eval_choice c l r k []
  value_of p (builtin b) = eval_builtin p b []
  value_of p blank = fail
  value_of p _ = pure (some p)

  unfoldable pub eval0_loaded : ℕ → Thunk → M Ptr
  unfolding ◌>>=◌ pure set_whnf value_of
  eval0_loaded p t = elim t.whnf [
    | some r ↦ pure (some r)
    | none ↦ do r ← value_of p t.node; set_whnf p r; pure r
  ]

module _ (call : Calls → ℕ → List Ptr → Ptr → M Ptr) where
  unfoldable mutual
    unfolding ◌>>=◌ fail no_fuel load eval_node eval0_loaded

    pub eval : ℕ → Ptr → List Ptr → M Ptr
    eval zero t args = no_fuel
    eval (suc n) none args = fail
    eval (suc n) (some p) args = do
      t ← load (some p)
      eval_node call n (record { eval = eval n; eval0 = eval0 n }) p t.node args

    pub eval0 : ℕ → Ptr → M Ptr
    eval0 zero t = no_fuel
    eval0 (suc n) none = fail
    eval0 (suc n) (some p) = do
      t ← load (some p)
      eval0_loaded call n (record { eval = eval n; eval0 = eval0 n }) p t
