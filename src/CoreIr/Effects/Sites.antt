-- ===== src/CoreIr/Effects/Sites.antt =====
-- What the validator accepts, stated by the effect applications that occur in a program.
use lazyscript.Prelude.{Bool, true, false, ◌↔◌, if◌then◌else◌}
use lazyscript.Prelude.{Bytes}
use lazyscript.CoreIr.Syntax.{
  Pat, Value, Values, Members, Expr, Cases, var, lam, nslit, no_values, value, no_members, member,
  no_expr, val, let1, app, ife, effapp, token, match1, no_cases, case, is_token,
}
use lazyscript.CoreIr.Effects.{
  Check, clean, ◌+?◌, check_scope, check_token, validate_val, validate_vals, validate_members,
  validate_expr, validate_cases,
}

-- `InExpr s tok t e`: in `e`, entered with token flag `t`, stands an effect application with token
-- argument `tok` at which the flag is `s`. A lambda drops the flag, and the body of a `let` that
-- binds `(token)` has it.
mutual
  pub data InValue (s : Bool) (tok : Value) : Bool → Value → Type 0 where
    in_lam : {t : Bool} {p : Bytes} {b : Expr} → InExpr s tok false b → InValue s tok t (lam p b)
    in_nslit : {t : Bool} {ms : Members} → InMembers s tok t ms → InValue s tok t (nslit ms)

  pub data InValues (s : Bool) (tok : Value) : Bool → Values → Type 0 where
    in_head :
        {t : Bool} {v : Value} {vs : Values} → InValue s tok t v → InValues s tok t (value v vs)
    in_tail :
        {t : Bool} {v : Value} {vs : Values} → InValues s tok t vs → InValues s tok t (value v vs)

  pub data InMembers (s : Bool) (tok : Value) : Bool → Members → Type 0 where
    in_member :
        {t : Bool} {x : Bytes} {v : Value} {ms : Members}
        → InValue s tok t v
        → InMembers s tok t (member x v ms)
    in_members :
        {t : Bool} {x : Bytes} {v : Value} {ms : Members}
        → InMembers s tok t ms
        → InMembers s tok t (member x v ms)

  pub data InExpr (s : Bool) (tok : Value) : Bool → Expr → Type 0 where
    here : {f : Value} {xs : Values} → InExpr s tok s (effapp f tok xs)
    in_val : {t : Bool} {v : Value} → InValue s tok t v → InExpr s tok t (val v)
    in_bind : {t : Bool} {x : Bytes} {a b : Expr} → InExpr s tok t a → InExpr s tok t (let1 x a b)
    in_body :
        {t : Bool} {x : Bytes} {a b : Expr}
        → InExpr s tok (if is_token a then true else t) b
        → InExpr s tok t (let1 x a b)
    in_func : {t : Bool} {f : Value} {xs : Values} → InValue s tok t f → InExpr s tok t (app f xs)
    in_args : {t : Bool} {f : Value} {xs : Values} → InValues s tok t xs → InExpr s tok t (app f xs)
    in_cond : {t : Bool} {c : Value} {a b : Expr} → InValue s tok t c → InExpr s tok t (ife c a b)
    in_then : {t : Bool} {c : Value} {a b : Expr} → InExpr s tok t a → InExpr s tok t (ife c a b)
    in_else : {t : Bool} {c : Value} {a b : Expr} → InExpr s tok t b → InExpr s tok t (ife c a b)
    in_scrut :
        {t : Bool} {v : Value} {cs : Cases} → InValue s tok t v → InExpr s tok t (match1 v cs)
    in_cases :
        {t : Bool} {v : Value} {cs : Cases} → InCases s tok t cs → InExpr s tok t (match1 v cs)
    in_eff_func :
        {t : Bool} {f tok' : Value} {xs : Values}
        → InValue s tok t f
        → InExpr s tok t (effapp f tok' xs)
    in_eff_args :
        {t : Bool} {f tok' : Value} {xs : Values}
        → InValues s tok t xs
        → InExpr s tok t (effapp f tok' xs)

  pub data InCases (s : Bool) (tok : Value) : Bool → Cases → Type 0 where
    in_case :
        {t : Bool} {p : Pat} {e : Expr} {cs : Cases}
        → InExpr s tok t e
        → InCases s tok t (case p e cs)
    in_rest :
        {t : Bool} {p : Pat} {e : Expr} {cs : Cases}
        → InCases s tok t cs
        → InCases s tok t (case p e cs)

abbrev pub IsVar : Value → Type 0
IsVar (var x) = Unit
IsVar _ = ⊥

-- A verdict on a run that splits over `+?`, and the condition `Q` on a site to which it comes down.
pub record Verdict (P : Check → Type 0) (Q : Bool → Value → Type 0) : Type 0 where
  pub nothing : P clean
  pub split : (a b : Check) → P (a +? b) → P a × P b
  pub join : (a b : Check) → P a → P b → P (a +? b)
  pub site : (s : Bool) (f tok : Value) → P (check_scope s f) → P (check_token tok) → Q s tok
  pub site_scope : (s : Bool) (f tok : Value) → Q s tok → P (check_scope s f)
  pub site_token : (s : Bool) (tok : Value) → Q s tok → P (check_token tok)

module _ {P : Check → Type 0} {Q : Bool → Value → Type 0} (ver : Verdict P Q) where
  open ver use {nothing, split, join, site, site_scope, site_token}

  mutual
    unfolding validate_expr

    value-sites : {s t : Bool} {tok v : Value} → InValue s tok t v → P (validate_val v t) → Q s tok
    value-sites (in_lam i) h = expr-sites i h
    value-sites (in_nslit i) h = members-sites i h

    values-sites :
        {s t : Bool} {tok : Value} {vs : Values}
        → InValues s tok t vs
        → P (validate_vals vs t)
        → Q s tok
    values-sites (in_head i) h = value-sites i (split _ _ h).0
    values-sites (in_tail i) h = values-sites i (split _ _ h).1

    members-sites :
        {s t : Bool} {tok : Value} {ms : Members}
        → InMembers s tok t ms
        → P (validate_members ms t)
        → Q s tok
    members-sites (in_member i) h = value-sites i (split _ _ h).0
    members-sites (in_members i) h = members-sites i (split _ _ h).1

    expr-sites :
        {s t : Bool} {tok : Value} {e : Expr} → InExpr s tok t e → P (validate_expr e t) → Q s tok
    expr-sites (here {f}) h =
        let (scope, rest) = split _ _ h in site _ f _ scope (split _ _ (split _ _ rest).1).0
    expr-sites (in_val i) h = value-sites i h
    expr-sites (in_bind i) h = expr-sites i (split _ _ h).0
    expr-sites (in_body i) h = expr-sites i (split _ _ h).1
    expr-sites (in_func i) h = value-sites i (split _ _ h).0
    expr-sites (in_args i) h = values-sites i (split _ _ h).1
    expr-sites (in_cond i) h = value-sites i (split _ _ h).0
    expr-sites (in_then i) h = expr-sites i (split _ _ (split _ _ h).1).0
    expr-sites (in_else i) h = expr-sites i (split _ _ (split _ _ h).1).1
    expr-sites (in_scrut i) h = value-sites i (split _ _ h).0
    expr-sites (in_cases i) h = cases-sites i (split _ _ h).1
    expr-sites (in_eff_func i) h = value-sites i (split _ _ (split _ _ h).1).0
    expr-sites (in_eff_args i) h = values-sites i (split _ _ (split _ _ (split _ _ h).1).1).1

    cases-sites :
        {s t : Bool} {tok : Value} {cs : Cases}
        → InCases s tok t cs
        → P (validate_cases cs t)
        → Q s tok
    cases-sites (in_case i) h = expr-sites i (split _ _ h).0
    cases-sites (in_rest i) h = cases-sites i (split _ _ h).1

  -- Every site of `R` meets the condition.
  abbrev AllAllowed : (Bool → Value → Type 0) → Type 0
  AllAllowed R = (s : Bool) (tok : Value) → R s tok → Q s tok

  mutual
    unfolding validate_expr

    sites-value :
        (v : Value) (t : Bool) → AllAllowed (λ s tok. InValue s tok t v) → P (validate_val v t)
    sites-value (lam p b) t h = sites-expr b false (λ s tok i. h s tok (in_lam i))
    sites-value (nslit ms) t h = sites-members ms t (λ s tok i. h s tok (in_nslit i))
    sites-value _ t h = nothing

    sites-values :
        (vs : Values) (t : Bool)
        → AllAllowed (λ s tok. InValues s tok t vs)
        → P (validate_vals vs t)
    sites-values no_values t h = nothing
    sites-values (value v vs) t h =
        join _ _ (sites-value v t (λ s tok i. h s tok (in_head i)))
          (sites-values vs t (λ s tok i. h s tok (in_tail i)))

    sites-members :
        (ms : Members) (t : Bool)
        → AllAllowed (λ s tok. InMembers s tok t ms)
        → P (validate_members ms t)
    sites-members no_members t h = nothing
    sites-members (member x v ms) t h =
        join _ _ (sites-value v t (λ s tok i. h s tok (in_member i)))
          (sites-members ms t (λ s tok i. h s tok (in_members i)))

    sites-expr :
        (e : Expr) (t : Bool) → AllAllowed (λ s tok. InExpr s tok t e) → P (validate_expr e t)
    sites-expr no_expr t h = nothing
    sites-expr (val v) t h = sites-value v t (λ s tok i. h s tok (in_val i))
    sites-expr (let1 x a b) t h =
        join _ _ (sites-expr a t (λ s tok i. h s tok (in_bind i)))
          (sites-expr b _ (λ s tok i. h s tok (in_body i)))
    sites-expr (app f xs) t h =
        join _ _ (sites-value f t (λ s tok i. h s tok (in_func i)))
          (sites-values xs t (λ s tok i. h s tok (in_args i)))
    sites-expr (ife c a b) t h = join _ _ (sites-value c t (λ s tok i. h s tok (in_cond i))) (
        join _ _ (sites-expr a t (λ s tok i. h s tok (in_then i)))
          (sites-expr b t (λ s tok i. h s tok (in_else i))))
    sites-expr (match1 v cs) t h =
        join _ _ (sites-value v t (λ s tok i. h s tok (in_scrut i)))
          (sites-cases cs t (λ s tok i. h s tok (in_cases i)))
    sites-expr (effapp f tok xs) t h =
        let ok = h t tok here in
        join _ _ (site_scope t f tok ok) (
          join _ _ (sites-value f t (λ s tok' i. h s tok' (in_eff_func i))) (
            join _ _ (site_token t tok ok)
              (sites-values xs t (λ s tok' i. h s tok' (in_eff_args i)))))
    sites-expr token t h = nothing

    sites-cases :
        (cs : Cases) (t : Bool) → AllAllowed (λ s tok. InCases s tok t cs) → P (validate_cases cs t)
    sites-cases no_cases t h = nothing
    sites-cases (case p e cs) t h =
        join _ _ (sites-expr e t (λ s tok i. h s tok (in_case i)))
          (sites-cases cs t (λ s tok i. h s tok (in_rest i)))

  -- The verdict on an expression is the condition at each of its sites.
  pub validate_expr-Verdict :
      (e : Expr) (t : Bool)
      → P (validate_expr e t) ↔ ((s : Bool) (tok : Value) → InExpr s tok t e → Q s tok)
  validate_expr-Verdict e t = (λ h s tok i. expr-sites i h, λ h. sites-expr e t h)
