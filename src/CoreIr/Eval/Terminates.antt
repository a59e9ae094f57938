-- ===== src/CoreIr/Eval/Terminates.antt =====
-- Programs without lambdas, and the fuel that is read off a program.
use lazyscript.Prelude.{
  ℕ, zero, suc, ◌≤◌, max, true, false, ◌≡◌, refl, ◌≢◌, Option, none, some, List, Bytes, arith,
  if◌then◌else◌, Bool-cases, inl, inr,
}
use lazyscript.CoreIr.Syntax.{
  Value, Values, Members, Expr, Cases, no_values, no_members, member, no_expr, val, let1, app, ife,
  effapp, match1, no_cases, case,
}
use lazyscript.CoreIr.Runtime.{Rv, Rvs, natfun, truthy}
use lazyscript.CoreIr.Eval.{
  Outcome, done, fault, out_of_fuel, after, ◌>>=◌, Ctx, eval_value, eval_values, eval_members,
  apply, catches, first_case, no_case, eval_expr,
}
use lazyscript.CoreIr.Eval.Ensures.{
  Ensures, Only, OnlyEnv, Built, eval_value-Only, eval_values-Only, first_case-Caught,
  first_case-Built,
}

-- The number of nested calls of `eval_expr` that the expression itself can make.
unfoldable mutual
  pub height : Expr → ℕ
  height (let1 x a b) = suc (max (height a) (height b))
  height (ife c a b) = suc (max (height a) (height b))
  height (match1 s cs) = suc (height_cases cs)
  height _ = 1

  pub height_cases : Cases → ℕ
  height_cases no_cases = 0
  height_cases (case p e cs) = max (height e) (height_cases cs)

-- no body at all: where every lambda has a body in `NoBody` there is no lambda
abbrev pub NoBody : Expr → Type 0
NoBody b = ⊥

-- The run ends, and a value satisfies `P`.
data Ends {ℓ} {A : Type ℓ} (P : A → Type 0) : Outcome A → Type ℓ where
  value : {a : A} {log : List Bytes} → P a → Ends P (done a log)
  failed : Ends P fault

Ends-of {ℓ} :
    {F : Type 0} {A : Type ℓ} {P : A → Type 0} {m : Outcome A}
    → Ensures F P m
    → m ≢ out_of_fuel
    → Ends P m
Ends-of (Ensures.value h) e = Ends.value h
Ends-of (Ensures.failed h) e = failed
Ends-of Ensures.timeout e = absurd (e refl)

Ends-bind :
    {A B : Type 0} {P : A → Type 0} {Q : B → Type 0} {m : Outcome A} {f : A → Outcome B}
    → Ends P m
    → ((a : A) → P a → Ends Q (f a))
    → Ends Q (m >>= f)
Ends-bind {B} {Q} (Ends.value {a} {log} h) k = behind log (k a h)
  where
    behind : (log : List Bytes) {m : Outcome B} → Ends Q m → Ends Q (after log m)
    behind log (Ends.value h) = Ends.value h
    behind log failed = failed
Ends-bind failed k = failed

Ends-ne-fuel {ℓ} : {A : Type ℓ} {P : A → Type 0} {m : Outcome A} → Ends P m → m ≢ out_of_fuel
Ends-ne-fuel (Ends.value h) e = cc
Ends-ne-fuel failed e = cc

bind-ne-fuel :
    {A B : Type 0} (m : Outcome A) (f : A → Outcome B)
    → m ≢ out_of_fuel
    → ((a : A) → f a ≢ out_of_fuel)
    → (m >>= f) ≢ out_of_fuel
bind-ne-fuel {B} (done a log) f p q = after-ne-fuel (f a) (q a)
  where
    after-ne-fuel : (m : Outcome B) → m ≢ out_of_fuel → after log m ≢ out_of_fuel
    after-ne-fuel (done b l) h = cc
    after-ne-fuel fault h = cc
    after-ne-fuel out_of_fuel h = absurd (h refl)
bind-ne-fuel fault f p q = cc
bind-ne-fuel out_of_fuel f p q = absurd (p refl)

mutual
  unfolding eval_value

  value-ne-fuel : (v : Value) (ctx : Ctx) → eval_value v ctx ≢ out_of_fuel
  value-ne-fuel (Value.constr c vs) ctx = bind-ne-fuel _ _ (values-ne-fuel vs ctx) (λ ws. cc)
  value-ne-fuel (Value.nslit ms) ctx = bind-ne-fuel _ _ (members-ne-fuel ms ctx) (λ u. cc)
  value-ne-fuel _ ctx = cc

  values-ne-fuel : (vs : Values) (ctx : Ctx) → eval_values vs ctx ≢ out_of_fuel
  values-ne-fuel no_values ctx = cc
  values-ne-fuel (Values.value v vs) ctx =
      bind-ne-fuel _ _ (value-ne-fuel v ctx)
        λ w. bind-ne-fuel _ _ (values-ne-fuel vs ctx) (λ ws. cc)

  members-ne-fuel : (ms : Members) (ctx : Ctx) → eval_members ms ctx ≢ out_of_fuel
  members-ne-fuel no_members ctx = cc
  members-ne-fuel (member x v ms) ctx =
      bind-ne-fuel _ _ (value-ne-fuel v ctx) (λ w. members-ne-fuel ms ctx)

module _ (F : Type 0) where
  apply-Ends :
      (run : Expr → Ctx → Outcome Rv) (f : Rv) (args : Rvs) (ctx : Ctx)
      → Only F NoBody f
      → Ends (Only F NoBody) (apply run f args ctx)
  unfolding apply Only
  apply-Ends run (Rv.lam p body env) args ctx h = absurd h.0
  apply-Ends run (natfun name arity caps) args ctx h = absurd h
  apply-Ends run _ args ctx h = Ends.value tt

  found-Ends :
      (o : Option Expr) (sv : Rv) (run : Expr → Outcome Rv)
      → (o ≡ none → F)
      → ((e : Expr) → o ≡ some e → Ends (Only F NoBody) (run e))
      → Ends (Only F NoBody) (elim o [ none ↦ no_case sv | some body ↦ run body ])
  unfolding Only
  found-Ends none sv run h k = Ends.value (h refl)
  found-Ends (some e) sv run h k = k e refl

  first_case-height : (cs : Cases) (e : Expr) → first_case cs ≡ some e → height e ≤ height_cases cs
  unfolding first_case height
  first_case-height no_cases e h = cc
  first_case-height (case p e' cs) e h = elim (Bool-cases (catches p)) [
    | inl q ↦ let same_e = rw q at h in let eq : e' ≡ e = cc same_e in rw (← eq) (omega arith)
    | inr q ↦ omega (arith, first_case-height cs e (rw q at h))
  ]

  eval_expr-Ends :
      (fuel : ℕ) (e : Expr) (ctx : Ctx)
      → Built F NoBody e
      → OnlyEnv F NoBody ctx.env
      → height e ≤ fuel
      → Ends (Only F NoBody) (eval_expr fuel e ctx)
  unfolding eval_expr Built Only height
  eval_expr-Ends zero e ctx b h le = absurd (height-pos e le)
    where
      height-pos : (e : Expr) → ¬ (height e ≤ 0)
      height-pos (let1 _ _ _) = omega arith
      height-pos (ife _ _ _) = omega arith
      height-pos (match1 _ _) = omega arith
      height-pos _ = omega arith
  eval_expr-Ends (suc fuel) no_expr ctx b h le = Ends.value tt
  eval_expr-Ends (suc fuel) (val v) ctx b h le =
      Ends-of (eval_value-Only F NoBody v ctx b h) (value-ne-fuel v ctx)
  eval_expr-Ends (suc fuel) (let1 x a body) ctx b h le =
      Ends-bind (eval_expr-Ends fuel a ctx b.0 h (omega arith))
        λ v hv. eval_expr-Ends fuel body _ b.1 (hv, h) (omega arith)
  eval_expr-Ends (suc fuel) (app f xs) ctx b h le =
      Ends-bind (Ends-of (eval_value-Only F NoBody f ctx b.0 h) (value-ne-fuel f ctx)) λ fv hf.
        Ends-bind (Ends-of (eval_values-Only F NoBody xs ctx b.1 h) (values-ne-fuel xs ctx))
          λ vs _. apply-Ends (eval_expr fuel) fv vs ctx hf
  eval_expr-Ends (suc fuel) (ife c e1 e2) ctx b h le =
      Ends-bind (Ends-of (eval_value-Only F NoBody c ctx b.0 h) (value-ne-fuel c ctx)) λ cv _.
        elim (truthy cv)
          as (λ t. Ends (Only F NoBody) (eval_expr fuel (if t then e1 else e2) ctx)) [
            | true ↦ eval_expr-Ends fuel e1 ctx b.1 h (omega arith)
            | false ↦ eval_expr-Ends fuel e2 ctx b.2 h (omega arith)
          ]
  eval_expr-Ends (suc fuel) (effapp f tok xs) ctx b h le =
      Ends-bind (Ends-of (eval_value-Only F NoBody f ctx b.0 h) (value-ne-fuel f ctx)) λ fv hf.
        Ends-bind (Ends-of (eval_values-Only F NoBody xs ctx b.1 h) (values-ne-fuel xs ctx))
          λ vs _. Ends.value tt
  eval_expr-Ends (suc fuel) Expr.token ctx b h le = Ends.value tt
  eval_expr-Ends (suc fuel) (match1 s cs) ctx b h le =
      Ends-bind (Ends-of (eval_value-Only F NoBody s ctx b.0 h) (value-ne-fuel s ctx)) λ sv hs.
        found-Ends (first_case cs) sv _ (first_case-Caught F NoBody cs b.2) λ e q.
          eval_expr-Ends fuel e _ (first_case-Built F NoBody cs e b.1 q) h
            (omega (arith, first_case-height cs e q))

-- An expression in whose evaluated parts no lambda stands ends, by its value or by a read through
-- NULL, in every environment without closures and native functions, as soon as the fuel is its
-- height.
pub eval_expr_terminates :
    (fuel : ℕ) (e : Expr) (ctx : Ctx)
    → Built Unit NoBody e
    → OnlyEnv Unit NoBody ctx.env
    → height e ≤ fuel
    → eval_expr fuel e ctx ≢ out_of_fuel
eval_expr_terminates fuel e ctx b h le = Ends-ne-fuel (eval_expr-Ends Unit fuel e ctx b h le)
