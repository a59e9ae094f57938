-- ===== src/CoreIr/Eval/Token.antt =====
-- The token flag of the evaluation context.
use lazyscript.Prelude.{ℕ, zero, suc, Bool, true, ◌≡◌, refl, Option, none, some, if◌then◌else◌}
use lazyscript.CoreIr.Syntax.{
  Value, Values, Members, Expr, no_values, value, no_members, member, no_expr, val, let1, app, ife,
  effapp, match1, is_token,
}
use lazyscript.CoreIr.Runtime.{Rv, Rvs, Env, nil, cons, bind, truthy}
use lazyscript.CoreIr.Eval.{
  Outcome, done, fault, out_of_fuel, ◌>>=◌, Ctx, eval_value, eval_values, eval_members, apply,
  first_case, no_case, eval_expr,
}

abbrev pub ctx_of : Env → Bool → Ctx
ctx_of env t = record { env = env; has_token = t }

bind_congr :
    {A B : Type 0} (m m' : Outcome A) (f f' : A → Outcome B)
    → m ≡ m'
    → ((a : A) → f a ≡ f' a)
    → (m >>= f) ≡ (m' >>= f')
bind_congr (done a log) m' f f' p q = rw (← p) (rw (q a))
bind_congr fault m' f f' p q = rw (← p)
bind_congr out_of_fuel m' f f' p q = rw (← p)

module _ (env : Env) (t u : Bool) where
  mutual
    unfolding eval_value

    value_token : (v : Value) → eval_value v (ctx_of env t) ≡ eval_value v (ctx_of env u)
    value_token (Value.constr c vs) = bind_congr _ _ _ _ (values_token vs) (λ _. refl)
    value_token (Value.nslit ms) = bind_congr _ _ _ _ (members_token ms) (λ _. refl)
    value_token Value.null = refl
    value_token _ = refl

    values_token : (vs : Values) → eval_values vs (ctx_of env t) ≡ eval_values vs (ctx_of env u)
    values_token no_values = refl
    values_token (value v vs) =
        bind_congr _ _ _ _ (value_token v) λ w. bind_congr _ _ _ _ (values_token vs) (λ _. refl)

    members_token : (ms : Members) → eval_members ms (ctx_of env t) ≡ eval_members ms (ctx_of env u)
    members_token no_members = refl
    members_token (member x v ms) = bind_congr _ _ _ _ (value_token v) (λ _. members_token ms)

apply_token :
    (run : Expr → Ctx → Outcome Rv) (f : Rv) (args : Rvs) (env : Env) (t u : Bool)
    → ((e : Expr) (env : Env) → run e (ctx_of env t) ≡ run e (ctx_of env u))
    → apply run f args (ctx_of env t) ≡ apply run f args (ctx_of env u)
unfolding apply
apply_token run (Rv.lam p body env') (cons arg nil) env t u k = k body _
apply_token run (Rv.lam p body env') nil env t u k = refl
apply_token run (Rv.lam p body env') (cons _ (cons _ _)) env t u k = refl
apply_token run _ args env t u k = refl

found_token :
    (o : Option Expr) (sv : Rv) (run run' : Expr → Outcome Rv)
    → ((e : Expr) → run e ≡ run' e)
    → ◌≡◌ {A = Outcome Rv}
        (elim o [ none ↦ no_case sv | some body ↦ run body ])
        (elim o [ none ↦ no_case sv | some body ↦ run' body ])
found_token none sv run run' k = refl
found_token (some e) sv run run' k = k e

-- The evaluator carries the token flag and never reads it: a run with the flag set and one with it
-- clear give the same result, in every environment. The discipline rests on the validator alone.
pub eval_expr-token_irrelevant :
    (fuel : ℕ) (e : Expr) (env : Env) (t u : Bool)
    → eval_expr fuel e (ctx_of env t) ≡ eval_expr fuel e (ctx_of env u)
unfolding eval_expr
eval_expr-token_irrelevant zero e env t u = refl
eval_expr-token_irrelevant (suc fuel) no_expr env t u = refl
eval_expr-token_irrelevant (suc fuel) (val v) env t u = value_token env t u v
eval_expr-token_irrelevant (suc fuel) (let1 x a body) env t u =
    bind_congr _ _ _ _ (eval_expr-token_irrelevant fuel a env t u) λ v.
      eval_expr-token_irrelevant fuel body (bind x v env) (if t then true else is_token a)
        (if u then true else is_token a)
eval_expr-token_irrelevant (suc fuel) (app f xs) env t u =
    bind_congr _ _ _ _ (value_token env t u f) λ fv.
      bind_congr _ _ _ _ (values_token env t u xs) λ vs.
        apply_token (eval_expr fuel) fv vs env t u
          (λ e env'. eval_expr-token_irrelevant fuel e env' t u)
eval_expr-token_irrelevant (suc fuel) (ife c e1 e2) env t u =
    bind_congr _ _ _ _ (value_token env t u c)
      λ cv. eval_expr-token_irrelevant fuel (if truthy cv then e1 else e2) env t u
eval_expr-token_irrelevant (suc fuel) (effapp f tok xs) env t u =
    bind_congr _ _ _ _ (value_token env t u f)
      λ fv. bind_congr _ _ _ _ (values_token env t u xs) (λ _. refl)
eval_expr-token_irrelevant (suc fuel) Expr.token env t u = refl
eval_expr-token_irrelevant (suc fuel) (match1 s cs) env t u =
    bind_congr _ _ _ _ (value_token env t u s)
      λ sv. found_token (first_case cs) sv _ _ (λ e. eval_expr-token_irrelevant fuel e env t u)
