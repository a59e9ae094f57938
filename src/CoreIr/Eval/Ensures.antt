-- ===== src/CoreIr/Eval/Ensures.antt =====
-- Postconditions of evaluations, and the invariant of values that a run keeps.
use lazyscript.Prelude.{
  ℕ, zero, suc, Bool, true, false, ◌≡◌, refl, Option, none, some, List, Bytes, codes, same,
  if◌then◌else◌, Bool-cases, Option-cases, inl, inr,
}
use mathlib.Core.Path.{subst}
use lazyscript.CoreIr.Syntax.{
  Value, Values, Members, Expr, Cases, no_values, no_members, member, no_expr, val, let1, app, ife,
  effapp, match1, no_cases, case,
}
use lazyscript.CoreIr.Runtime.{
  Rv, Rvs, BotArgs, array, gone, Env, natfun, bottom, nil, cons, empty, bind, env_lookup, append,
  truthy,
}
use lazyscript.CoreIr.Eval.{
  Outcome, done, fault, out_of_fuel, after, ◌>>=◌, Ctx, lookup_or_symbol, build_constr, eval_value,
  eval_values, eval_members, apply, catches, first_case, no_case, eval_expr,
}

-- The run ends in a value that satisfies `P`, or in a fault where `F` holds, or lacks fuel.
pub data Ensures {ℓ} (F : Type 0) {A : Type ℓ} (P : A → Type 0) : Outcome A → Type ℓ where
  value : {a : A} {log : List Bytes} → P a → Ensures F P (done a log)
  failed : F → Ensures F P fault
  timeout : Ensures F P out_of_fuel

module _ {F : Type 0} {A B : Type 0} {P : A → Type 0} {Q : B → Type 0} where
  pub Ensures-bind :
      {m : Outcome A} {f : A → Outcome B}
      → Ensures F P m
      → ((a : A) → P a → Ensures F Q (f a))
      → Ensures F Q (m >>= f)
  Ensures-bind (value {a} {log} h) k = behind log (k a h)
    where
      behind : (log : List Bytes) {m : Outcome B} → Ensures F Q m → Ensures F Q (after log m)
      behind log (value h) = value h
      behind log (failed h) = failed h
      behind log timeout = timeout
  Ensures-bind (failed h) k = failed h
  Ensures-bind timeout k = timeout

-- No native function occurs in the value, every closure in it has a body in `L`, and a bottom points
-- to an array that is gone only where `F` holds.
unfoldable mutual
  pub Only : Type 0 → (Expr → Type 0) → Rv → Type 0
  Only F L (Rv.lam p body env) = L body × OnlyEnv F L env
  Only F L (natfun name arity caps) = ⊥
  Only F L (Rv.constr c vs) = OnlyAll F L vs
  Only F L (bottom msg as') = OnlyArgs F L as'
  Only F L _ = Unit

  pub OnlyAll : Type 0 → (Expr → Type 0) → Rvs → Type 0
  OnlyAll F L nil = Unit
  OnlyAll F L (cons v vs) = Only F L v × OnlyAll F L vs

  pub OnlyArgs : Type 0 → (Expr → Type 0) → BotArgs → Type 0
  OnlyArgs F L (array vs) = OnlyAll F L vs
  OnlyArgs F L (gone n) = F

  pub OnlyEnv : Type 0 → (Expr → Type 0) → Env → Type 0
  OnlyEnv F L empty = Unit
  OnlyEnv F L (bind x v env) = Only F L v × OnlyEnv F L env

-- In the parts of a program that are evaluated, every lambda has a body in `L`, and a NULL value
-- stands only where `F` holds. The body of a lambda is evaluated only when it is applied, and the
-- token of an effect application not at all. A match that may catch no value stands only where `F`
-- holds as well.
unfoldable mutual
  pub BuiltValue : Type 0 → (Expr → Type 0) → Value → Type 0
  BuiltValue F L Value.null = F
  BuiltValue F L (Value.lam p body) = L body
  BuiltValue F L (Value.constr c vs) = BuiltValues F L vs
  BuiltValue F L (Value.nslit ms) = BuiltMembers F L ms
  BuiltValue F L _ = Unit

  pub BuiltValues : Type 0 → (Expr → Type 0) → Values → Type 0
  BuiltValues F L no_values = Unit
  BuiltValues F L (Values.value v vs) = BuiltValue F L v × BuiltValues F L vs

  pub BuiltMembers : Type 0 → (Expr → Type 0) → Members → Type 0
  BuiltMembers F L no_members = Unit
  BuiltMembers F L (member x v ms) = BuiltValue F L v × BuiltMembers F L ms

abbrev pub Unless : Bool → Type 0 → Type 0
Unless true F = Unit
Unless false F = F

-- a case catches every value, or `F` holds
unfoldable pub Caught : Type 0 → Cases → Type 0
unfolding catches
Caught F no_cases = F
Caught F (case p e cs) = Unless (catches p) (Caught F cs)

unfoldable mutual
  unfolding Caught

  pub Built : Type 0 → (Expr → Type 0) → Expr → Type 0
  Built F L (val v) = BuiltValue F L v
  Built F L (let1 x a b) = Built F L a × Built F L b
  Built F L (app f xs) = BuiltValue F L f × BuiltValues F L xs
  Built F L (ife c a b) = BuiltValue F L c × Built F L a × Built F L b
  Built F L (effapp f tok xs) = BuiltValue F L f × BuiltValues F L xs
  Built F L (match1 s cs) = BuiltValue F L s × BuiltCases F L cs × Caught F cs
  Built F L _ = Unit

  pub BuiltCases : Type 0 → (Expr → Type 0) → Cases → Type 0
  BuiltCases F L no_cases = Unit
  BuiltCases F L (case p e cs) = Built F L e × BuiltCases F L cs

env_lookup-Only :
    (F : Type 0) (L : Expr → Type 0) (env : Env) (x : Bytes) (v : Rv)
    → OnlyEnv F L env
    → env_lookup env x ≡ some v
    → Only F L v
unfolding env_lookup Only
env_lookup-Only F L empty x v h e = cc
env_lookup-Only F L (bind y w env) x v h e = elim (Bool-cases (same y x)) [
  | inl q ↦ let same_v = rw q at e in subst (Only F L) (cc same_v) h.0
  | inr q ↦ env_lookup-Only F L env x v h.1 (rw q at e)
]

lookup_or_symbol-Only :
    (F : Type 0) (L : Expr → Type 0) (env : Env) (x : Bytes)
    → OnlyEnv F L env
    → Only F L (lookup_or_symbol env x)
unfolding lookup_or_symbol
lookup_or_symbol-Only F L env x h = elim (Option-cases (env_lookup env x)) [
  | inl e ↦ rw (e, lookup_or_symbol) (unfold Only in tt)
  | inr (v, e) ↦ rw (e, lookup_or_symbol) (env_lookup-Only F L env x v h e)
]

build_constr-Only :
    (F : Type 0) (L : Expr → Type 0) (c : Bytes) (vs : Rvs)
    → OnlyAll F L vs
    → Only F L (build_constr c vs)
unfolding build_constr
build_constr-Only F L c nil h = elim (Bool-cases (same c (codes "()"))) [
  | inl e ↦ rw (e, build_constr) (unfold Only in tt)
  | inr e ↦ rw (e, build_constr) (unfold Only in tt)
]
build_constr-Only F L c (cons v vs) h = unfold Only in h

module _ (F : Type 0) (L : Expr → Type 0) where
  mutual
    unfolding eval_value Only BuiltValue

    pub eval_value-Only :
        (v : Value) (ctx : Ctx)
        → BuiltValue F L v
        → OnlyEnv F L ctx.env
        → Ensures F (Only F L) (eval_value v ctx)
    eval_value-Only Value.null ctx b h = failed b
    eval_value-Only (Value.int n) ctx b h = value tt
    eval_value-Only (Value.str s) ctx b h = value tt
    eval_value-Only (Value.var x) ctx b h = value (lookup_or_symbol-Only F L ctx.env x h)
    eval_value-Only (Value.constr c vs) ctx b h =
        Ensures-bind (eval_values-Only vs ctx b h)
          (λ ws hws. value (build_constr-Only F L c ws hws))
    eval_value-Only (Value.lam p body) ctx b h = value (b, h)
    eval_value-Only (Value.nslit ms) ctx b h =
        Ensures-bind (eval_members-Ensures ms ctx b h) (λ _ _. value tt)

    pub eval_values-Only :
        (vs : Values) (ctx : Ctx)
        → BuiltValues F L vs
        → OnlyEnv F L ctx.env
        → Ensures F (OnlyAll F L) (eval_values vs ctx)
    eval_values-Only no_values ctx b h = value tt
    eval_values-Only (Values.value v vs) ctx b h =
        Ensures-bind (eval_value-Only v ctx b.0 h)
          λ w hw. Ensures-bind (eval_values-Only vs ctx b.1 h) λ ws hws. value (hw, hws)

    pub eval_members-Ensures :
        (ms : Members) (ctx : Ctx)
        → BuiltMembers F L ms
        → OnlyEnv F L ctx.env
        → Ensures F (λ _. Unit {0}) (eval_members ms ctx)
    eval_members-Ensures no_members ctx b h = value tt
    eval_members-Ensures (member x v ms) ctx b h =
        Ensures-bind (eval_value-Only v ctx b.0 h) (λ _ _. eval_members-Ensures ms ctx b.1 h)

  append-Only : (vs ws : Rvs) → OnlyAll F L vs → OnlyAll F L ws → OnlyAll F L (append vs ws)
  unfolding Only
  append-Only nil ws h k = k
  append-Only (cons v vs) ws h k = (h.0, append-Only vs ws h.1 k)

  pub first_case-Caught : (cs : Cases) → Caught F cs → first_case cs ≡ none → F
  unfolding first_case Caught
  first_case-Caught no_cases c h = c
  first_case-Caught (case p e cs) c h = elim (Bool-cases (catches p)) [
    | inl q ↦ let d = rw q at h in absurd (cc d)
    | inr q ↦ first_case-Caught cs (subst (λ t. Unless t (Caught F cs)) q c) (rw q at h)
  ]

  pub first_case-Built :
      (cs : Cases) (e : Expr) → BuiltCases F L cs → first_case cs ≡ some e → Built F L e
  unfolding first_case Built
  first_case-Built no_cases e b h = cc
  first_case-Built (case p e' cs) e b h = elim (Bool-cases (catches p)) [
    | inl q ↦ let same_e = rw q at h in subst (Built F L) (cc same_e) b.0
    | inr q ↦ first_case-Built cs e b.1 (rw q at h)
  ]

  module _ (closed : (b : Expr) → L b → Built F L b) where
    apply-Only :
        (run : Expr → Ctx → Outcome Rv)
        → ((e : Expr) (ctx : Ctx)
            → Built F L e
            → OnlyEnv F L ctx.env
            → Ensures F (Only F L) (run e ctx))
        → (f : Rv) (args : Rvs) (ctx : Ctx) → Only F L f
        → OnlyAll F L args
        → Ensures F (Only F L) (apply run f args ctx)
    unfolding apply Only
    apply-Only run ok (Rv.lam p body env) (cons arg nil) ctx hf ha =
        ok body _ (closed body hf.0) (ha.0, hf.1)
    apply-Only run ok (Rv.lam p body env) nil ctx hf ha = value tt
    apply-Only run ok (Rv.lam p body env) (cons _ (cons _ _)) ctx hf ha = value tt
    apply-Only run ok (natfun name arity caps) args ctx hf ha = absurd hf
    apply-Only run ok _ args ctx hf ha = value tt

    branch-Ensures :
        (t : Bool) (fuel : ℕ) (e1 e2 : Expr) (ctx : Ctx)
        → Ensures F (Only F L) (eval_expr fuel e1 ctx)
        → Ensures F (Only F L) (eval_expr fuel e2 ctx)
        → Ensures F (Only F L) (eval_expr fuel (if t then e1 else e2) ctx)
    branch-Ensures true fuel e1 e2 ctx p q = p
    branch-Ensures false fuel e1 e2 ctx p q = q

    found-Ensures :
        (o : Option Expr) (sv : Rv) (run : Expr → Outcome Rv)
        → (o ≡ none → F)
        → ((e : Expr) → o ≡ some e → Ensures F (Only F L) (run e))
        → Ensures F (Only F L) (elim o [ none ↦ no_case sv | some body ↦ run body ])
    unfolding Only
    found-Ensures none sv run h k = value (h refl)
    found-Ensures (some e) sv run h k = k e refl

    -- With closures from `L`, whose bodies meet the conditions themselves, every value of a run has
    -- closures from `L` and no native function.
    pub eval_expr-Only :
        (fuel : ℕ) (e : Expr) (ctx : Ctx)
        → Built F L e
        → OnlyEnv F L ctx.env
        → Ensures F (Only F L) (eval_expr fuel e ctx)
    unfolding eval_expr Built Only
    eval_expr-Only zero e ctx b h = timeout
    eval_expr-Only (suc fuel) no_expr ctx b h = value tt
    eval_expr-Only (suc fuel) (val v) ctx b h = eval_value-Only v ctx b h
    eval_expr-Only (suc fuel) (let1 x e body) ctx b h =
        Ensures-bind (eval_expr-Only fuel e ctx b.0 h)
          λ v hv. eval_expr-Only fuel body _ b.1 (hv, h)
    eval_expr-Only (suc fuel) (app f xs) ctx b h =
        Ensures-bind (eval_value-Only f ctx b.0 h) λ fv hf.
          Ensures-bind (eval_values-Only xs ctx b.1 h)
            λ vs hvs. apply-Only (eval_expr fuel) (eval_expr-Only fuel) fv vs ctx hf hvs
    eval_expr-Only (suc fuel) (ife c e1 e2) ctx b h =
        Ensures-bind (eval_value-Only c ctx b.0 h) λ cv _.
          branch-Ensures (truthy cv) fuel e1 e2 ctx (eval_expr-Only fuel e1 ctx b.1 h)
            (eval_expr-Only fuel e2 ctx b.2 h)
    eval_expr-Only (suc fuel) (effapp f tok xs) ctx b h =
        Ensures-bind (eval_value-Only f ctx b.0 h)
          λ _ _. Ensures-bind (eval_values-Only xs ctx b.1 h) λ _ _. value tt
    eval_expr-Only (suc fuel) Expr.token ctx b h = value tt
    eval_expr-Only (suc fuel) (match1 s cs) ctx b h =
        Ensures-bind (eval_value-Only s ctx b.0 h) λ sv hs.
          found-Ensures (first_case cs) sv _ (first_case-Caught cs b.2)
            (λ e q. eval_expr-Only fuel e _ (first_case-Built cs e b.1 q) h)
