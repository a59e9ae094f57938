-- ===== src/CoreIr/Eval.antt =====
-- The evaluator of src/coreir/cir_eval_runtime.c.
pub mod Ensures
mod Prints
pub mod Safety
pub mod Terminates
pub mod Token
use lazyscript.Prelude.{
  ℕ, zero, suc, ◌+◌, ◌-◌, Bool, true, false, ◌&&◌, Option, none, some, List, [], ◌∷◌, ◌++◌, Bytes,
  codes, same, ltb, if◌then◌else◌,
}
use lazyscript.CoreIr.Syntax.{
  Pat, wildcard, Value, Values, Members, Expr, Cases, no_values, value, no_members, member, no_expr,
  val, let1, app, ife, effapp, match1, no_cases, case, is_token,
}
use lazyscript.CoreIr.Syntax
use lazyscript.CoreIr.Runtime.{
  Rv, Rvs, Env, unit, symbol, natfun, bottom, gone, nil, cons, empty, bind, env_lookup, append,
  count, truthy, Written, print_value,
}

-- How a call ends: with a value and the lines written to stderr, in a read through NULL or of an
-- array that is gone, or not within the fuel.
pub data Outcome {ℓ} (A : Type ℓ) : Type ℓ where
  done : A → List Bytes → Outcome A
  fault out_of_fuel : Outcome A

abbrev pub after {ℓ} : {A : Type ℓ} → List Bytes → Outcome A → Outcome A
after log (done a more) = done a (log ++ more)
after log fault = fault
after log out_of_fuel = out_of_fuel

infixl 5 ◌>>=◌ ◌>>◌
abbrev pub ◌>>=◌ {ℓ κ} : {A : Type ℓ} {B : Type κ} → Outcome A → (A → Outcome B) → Outcome B
done a log >>= f = after log (f a)
fault >>= f = fault
out_of_fuel >>= f = out_of_fuel

abbrev pub ◌>>◌ {ℓ κ} : {A : Type ℓ} {B : Type κ} → Outcome A → Outcome B → Outcome B
m >> k = m >>= λ _. k

abbrev pub pure {ℓ} : {A : Type ℓ} → A → Outcome A
pure a = done a []

-- `eval_ctx_t`
pub record Ctx : Type 0 where
  pub env : Env
  pub has_token : Bool

unfoldable pub lookup_or_symbol : Env → Bytes → Rv
lookup_or_symbol env x = elim (env_lookup env x) [ some v ↦ v | none ↦ symbol x ]

-- the constructor "()" with no argument is the unit value
unfoldable pub build_constr : Bytes → Rvs → Rv
build_constr c nil = if same c (codes "()") then unit else Rv.constr c nil
build_constr c vs = Rv.constr c vs

unfoldable mutual
  pub eval_value : Value → Ctx → Outcome Rv
  eval_value Value.null ctx = fault
  eval_value (Value.int n) ctx = pure (Rv.int n)
  eval_value (Value.str s) ctx = pure (Rv.str s)
  eval_value (Value.var x) ctx = pure (lookup_or_symbol ctx.env x)
  eval_value (Value.constr c vs) ctx = do ws ← eval_values vs ctx; pure (build_constr c ws)
  eval_value (Value.lam p body) ctx = pure (Rv.lam p body ctx.env)
  eval_value (Value.nslit ms) ctx = do eval_members ms ctx; pure unit

  pub eval_values : Values → Ctx → Outcome Rvs
  eval_values no_values ctx = pure nil
  eval_values (value v vs) ctx = do w ← eval_value v ctx; ws ← eval_values vs ctx; pure (cons w ws)

  pub eval_members : Members → Ctx → Outcome (Unit {0})
  eval_members no_members ctx = pure tt
  eval_members (member x v ms) ctx = do eval_value v ctx; eval_members ms ctx

-- with enough arguments the result is unit, as there is no registry of native functions
unfoldable pub apply_natfun : Bytes → ℕ → Rvs → Rvs → Rv
apply_natfun name arity caps args =
    if ltb (count args) arity then natfun name (arity - count args) (append caps args) else unit

-- `run` is the evaluator of expressions
unfoldable pub apply : (Expr → Ctx → Outcome Rv) → Rv → Rvs → Ctx → Outcome Rv
unfolding apply_natfun
apply run (Rv.lam p body env) (cons arg nil) ctx =
    run body (record { env = bind p arg env; has_token = ctx.has_token })
apply run (Rv.lam p body env) _ ctx = pure unit
apply run (natfun name arity caps) args ctx = pure (apply_natfun name arity caps args)
apply run _ args ctx = pure unit

unfoldable pub catches : Pat → Bool
catches Pat.null = true
catches wildcard = true
catches (Pat.var x) = true
catches _ = false

-- the body of the first case that catches every value
unfoldable pub first_case : Cases → Option Expr
unfolding catches
first_case no_cases = none
first_case (case p body cs) = if catches p then some body else first_case cs

abbrev pub no_case_line : Bytes
no_case_line = codes "E: <bottom msg=\"match: no case\" at <unknown>:1.1: >\n"

-- The bottom points to an array with the scrutinee in the frame of the call, which returns.
abbrev pub no_case : Rv → Outcome Rv
no_case sv = done (bottom (codes "match: no case") (gone (count (cons sv nil)))) (no_case_line ∷ [])

abbrev pub with_binding : Bytes → Rv → Bool → Ctx → Ctx
with_binding x v tok ctx = record {
  env = bind x v ctx.env;
  has_token = if ctx.has_token then true else tok;
}

-- Each call spends a unit of fuel; programs need not stop.
unfoldable pub eval_expr : ℕ → Expr → Ctx → Outcome Rv
unfolding apply first_case
eval_expr zero e ctx = out_of_fuel
eval_expr (suc fuel) no_expr ctx = pure unit
eval_expr (suc fuel) (val v) ctx = eval_value v ctx
eval_expr (suc fuel) (let1 x e body) ctx = do
  v ← eval_expr fuel e ctx
  eval_expr fuel body (with_binding x v (is_token e) ctx)
eval_expr (suc fuel) (app f xs) ctx = do
  fv ← eval_value f ctx
  vs ← eval_values xs ctx
  apply (eval_expr fuel) fv vs ctx
eval_expr (suc fuel) (ife c e1 e2) ctx = do
  cv ← eval_value c ctx
  eval_expr fuel (if truthy cv then e1 else e2) ctx
eval_expr (suc fuel) (effapp f tok xs) ctx = do eval_value f ctx; eval_values xs ctx; pure unit
eval_expr (suc fuel) Expr.token ctx = pure Rv.token
eval_expr (suc fuel) (match1 s cs) ctx = do
  sv ← eval_value s ctx
  elim (first_case cs) [
    | none ↦ no_case sv
    | some body ↦ eval_expr fuel body (record { env = ctx.env; has_token = ctx.has_token })
  ]

unfoldable pub written : Written → Outcome Bytes
written none = fault
written (some s) = pure s

-- The bytes written to the output; a missing program or root is `no_expr`.
unfoldable pub run_program : ℕ → Expr → Outcome Bytes
unfolding written
run_program fuel no_expr = pure (codes "()\n")
run_program fuel root = do
  v ← eval_expr fuel root (record { env = empty; has_token = false })
  written (print_value v)
