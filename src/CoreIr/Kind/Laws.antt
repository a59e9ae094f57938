-- ===== src/CoreIr/Kind/Laws.antt =====
-- What the type check answers, and which effect applications the kind check sees.
use lazyscript.Prelude.{
  Bool, true, false, ◌||◌, ◌≡◌, refl, ◌↔◌, ◌⊎◌, inl, inr, arith, Bytes, if◌then◌else◌,
}
use lazyscript.CoreIr.Syntax.{
  Value, Values, Expr, Cases, null, int, str, constr, nslit, var, lam, no_values, value, no_expr,
  val, let1, app, ife, effapp, token, match1, no_cases, case, is_token,
}
use lazyscript.CoreIr.Effects.Sites.{
  InValue, InValues, InExpr, InCases, in_lam, in_nslit, in_head, in_tail, here, in_val, in_bind,
  in_body, in_func, in_args, in_cond, in_then, in_else, in_scrut, in_cases, in_eff_func,
  in_eff_args, in_case, in_rest,
}
use lazyscript.CoreIr.Effects.{clean, validate_effects}
use lazyscript.CoreIr.Effects.Accepts.{validate_effects-clean_iff}
use lazyscript.CoreIr.Kind.{
  val_has_effects, vals_have_effects, expr_has_effects, cases_have_effects, check_arity,
  check_arity_cases, head_arity, Options, typecheck,
}

-- Some effect application occurs in the expression.
abbrev pub HasSite : Bool → Expr → Type 0
HasSite t e = (s : Bool) × (tok : Value) × InExpr s tok t e

or-true : (a b : Bool) → (a || b) ≡ true → (a ≡ true) ⊎ (b ≡ true)
or-true true b h = inl refl
or-true false b h = inr h

mutual
  unfolding expr_has_effects

  value-HasSite :
      (v : Value) (t : Bool)
      → val_has_effects v ≡ true
      → (s : Bool) × (tok : Value) × InValue s tok t v
  value-HasSite (lam p b) t h = let (s, tok, i) = expr-HasSite b false false h in (s, tok, in_lam i)
  value-HasSite null t h = ground arith
  value-HasSite (int _) t h = ground arith
  value-HasSite (str _) t h = ground arith
  value-HasSite (constr _ _) t h = ground arith
  value-HasSite (var _) t h = ground arith
  value-HasSite (nslit _) t h = ground arith

  values-HasSite :
      (vs : Values) (t : Bool)
      → vals_have_effects vs ≡ true
      → (s : Bool) × (tok : Value) × InValues s tok t vs
  values-HasSite no_values t h = ground arith
  values-HasSite (value v vs) t h = elim (or-true _ _ h) [
    | inl p ↦ let (s, tok, i) = value-HasSite v t p in (s, tok, in_head i)
    | inr p ↦ let (s, tok, i) = values-HasSite vs t p in (s, tok, in_tail i)
  ]

  expr-HasSite : (e : Expr) (u t : Bool) → expr_has_effects e u ≡ true → HasSite t e
  expr-HasSite no_expr u t h = ground arith
  expr-HasSite (val v) u t h = let (s, tok, i) = value-HasSite v t h in (s, tok, in_val i)
  expr-HasSite (let1 x a b) u t h =
      let u' = if is_token a then true else u in
      elim (or-true (expr_has_effects a u) (expr_has_effects b u') h) [
        | inl p ↦ let (s, tok, i) = expr-HasSite a u t p in (s, tok, in_bind i)
        | inr p ↦
            let (s, tok, i) = expr-HasSite b u' (if is_token a then true else t) p in
            (s, tok, in_body i)
      ]
  expr-HasSite (app f xs) u t h = let (s, tok, i) = values-HasSite xs t h in (s, tok, in_args i)
  expr-HasSite (ife c a b) u t h = elim (or-true (expr_has_effects a u) (expr_has_effects b u) h) [
    | inl p ↦ let (s, tok, i) = expr-HasSite a u t p in (s, tok, in_then i)
    | inr p ↦ let (s, tok, i) = expr-HasSite b u t p in (s, tok, in_else i)
  ]
  expr-HasSite (match1 v cs) u t h =
      let (s, tok, i) = cases-HasSite cs u t h in (s, tok, in_cases i)
  expr-HasSite (effapp f tok xs) u t h = (t, tok, here)
  expr-HasSite token u t h = ground arith

  cases-HasSite :
      (cs : Cases) (u t : Bool)
      → cases_have_effects cs u ≡ true
      → (s : Bool) × (tok : Value) × InCases s tok t cs
  cases-HasSite no_cases u t h = ground arith
  cases-HasSite (case p e cs) u t h =
      elim (or-true (expr_has_effects e u) (cases_have_effects cs u) h) [
        | inl q ↦ let (s, tok, i) = expr-HasSite e u t q in (s, tok, in_case i)
        | inr q ↦ let (s, tok, i) = cases-HasSite cs u t q in (s, tok, in_rest i)
      ]

-- A value that holds no code the kind check would have to enter.
abbrev pub IsAtom : Value → Type 0
IsAtom (lam p b) = ⊥
IsAtom (nslit ms) = ⊥
IsAtom _ = Unit

-- Neither a lambda nor a namespace literal stands as the function of an application, as a condition
-- or as a scrutinee, and no namespace literal as an argument or a result.
unfoldable mutual
  pub PlainValue : Value → Type 0
  PlainValue (lam p b) = Plain b
  PlainValue (nslit ms) = ⊥
  PlainValue _ = Unit

  pub PlainValues : Values → Type 0
  PlainValues no_values = Unit
  PlainValues (value v vs) = PlainValue v × PlainValues vs

  pub Plain : Expr → Type 0
  Plain (val v) = PlainValue v
  Plain (let1 x a b) = Plain a × Plain b
  Plain (app f xs) = IsAtom f × PlainValues xs
  Plain (ife c a b) = IsAtom c × Plain a × Plain b
  Plain (match1 v cs) = IsAtom v × PlainCases cs
  Plain _ = Unit

  pub PlainCases : Cases → Type 0
  PlainCases no_cases = Unit
  PlainCases (case p e cs) = Plain e × PlainCases cs

not-InValue-IsAtom : {s t : Bool} {tok v : Value} → InValue s tok t v → ¬ IsAtom v
not-InValue-IsAtom (in_lam i) h = h
not-InValue-IsAtom (in_nslit i) h = h

or-left : (a b : Bool) → a ≡ true → (a || b) ≡ true
or-left a b h = rw h

or-right : (a b : Bool) → b ≡ true → (a || b) ≡ true
or-right true b h = refl
or-right false b h = h

mutual
  unfolding expr_has_effects Plain

  value-seen :
      {s t : Bool} {tok v : Value} → InValue s tok t v → PlainValue v → val_has_effects v ≡ true
  value-seen (in_lam i) h = expr-seen i false h
  value-seen (in_nslit i) h = absurd h

  values-seen :
      {s t : Bool} {tok : Value} {vs : Values}
      → InValues s tok t vs
      → PlainValues vs
      → vals_have_effects vs ≡ true
  values-seen (in_head i) h = or-left _ _ (value-seen i h.0)
  values-seen (in_tail i) h = or-right _ _ (values-seen i h.1)

  expr-seen :
      {s t : Bool} {tok : Value} {e : Expr}
      → InExpr s tok t e
      → (u : Bool) → Plain e
      → expr_has_effects e u ≡ true
  expr-seen here u h = refl
  expr-seen (in_val i) u h = value-seen i h
  expr-seen (in_bind i) u h = or-left _ _ (expr-seen i u h.0)
  expr-seen (in_body i) u h = or-right _ _ (expr-seen i _ h.1)
  expr-seen (in_func i) u h = absurd (not-InValue-IsAtom i h.0)
  expr-seen (in_args i) u h = values-seen i h.1
  expr-seen (in_cond i) u h = absurd (not-InValue-IsAtom i h.0)
  expr-seen (in_then i) u h = or-left _ _ (expr-seen i u h.1)
  expr-seen (in_else i) u h = or-right _ _ (expr-seen i u h.2)
  expr-seen (in_scrut i) u h = absurd (not-InValue-IsAtom i h.0)
  expr-seen (in_cases i) u h = cases-seen i u h.1
  expr-seen (in_eff_func i) u h = refl
  expr-seen (in_eff_args i) u h = refl

  cases-seen :
      {s t : Bool} {tok : Value} {cs : Cases}
      → InCases s tok t cs
      → (u : Bool) → PlainCases cs
      → cases_have_effects cs u ≡ true
  cases-seen (in_case i) u h = or-left _ _ (expr-seen i u h.0)
  cases-seen (in_rest i) u h = or-right _ _ (cases-seen i u h.1)

-- The kind check never reports an effect where no effect application occurs, and on a program whose
-- functions, conditions and scrutinees hold no code it reports one exactly when one occurs.
pub expr_has_effects-sites :
    (root : Expr) (u t : Bool)
    → (expr_has_effects root u ≡ true → HasSite t root)
      × (Plain root → HasSite t root → expr_has_effects root u ≡ true)
expr_has_effects-sites root u t = (expr-HasSite root u t, λ plain site. expr-seen site.2 u plain)

mutual
  unfolding check_arity head_arity

  check_arity-zero : (e : Expr) → check_arity e ≡ 0
  check_arity-zero (let1 x a b) = omega (arith, check_arity-zero a, check_arity-zero b)
  check_arity-zero (ife c a b) = omega (arith, check_arity-zero a, check_arity-zero b)
  check_arity-zero (match1 v cs) = check_arity_cases-zero cs
  check_arity-zero (app (var f) xs) = refl
  check_arity-zero (app _ xs) = refl
  check_arity-zero _ = refl

  check_arity_cases-zero : (cs : Cases) → check_arity_cases cs ≡ 0
  check_arity_cases-zero no_cases = refl
  check_arity_cases-zero (case p e cs) =
      omega (arith, check_arity-zero e, check_arity_cases-zero cs)

-- The type check fails exactly when the kind check is set to fail and finds an effect.
pub typecheck-code_iff :
    (g : Options) (root : Expr)
    → ((typecheck g root).code ≡ 1) ↔ ((g.kind_error ≡ true) × (expr_has_effects root false ≡ true))
unfolding typecheck
typecheck-code_iff g no_expr = unfold expr_has_effects in ground arith
typecheck-code_iff g root = ground (arith, check_arity-zero root)

-- A program of plain parts that passes the check with kind errors switched on has no effect
-- application at all, so the effect validator has nothing to report on it either.
pub typecheck-clean :
    (g : Options) (root : Expr)
    → Plain root
    → g.kind_error ≡ true
    → (typecheck g root).code ≡ 0
    → validate_effects root ≡ clean
typecheck-clean g root plain on passed = (validate_effects-clean_iff root).1 λ s tok i.
    let found = expr-seen i false plain in
    let failed = (typecheck-code_iff g root).1 (on, found) in absurd (omega arith)

-- The kind check does not look at the function of an application: a program that applies a lambda
-- to variables or constants passes with kind errors on, also where an effect application occurs in
-- the body, which is then an effect application of the whole program.
pub typecheck-app_lam :
    (g : Options) (p : Bytes) (body : Expr) (x : Bytes)
    → HasSite false body
    → HasSite false (app (lam p body) (value (var x) no_values))
      × ((typecheck g (app (lam p body) (value (var x) no_values))).code ≡ 0)
unfolding typecheck expr_has_effects check_arity head_arity
typecheck-app_lam g p body x (s, tok, i) = ((s, tok, in_func (in_lam i)), ground arith)
