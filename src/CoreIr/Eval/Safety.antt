-- ===== src/CoreIr/Eval/Safety.antt =====
-- Native functions, reads through NULL and reads of arrays that are gone in the runs of the
-- evaluator.
use lazyscript.Prelude.{ℕ, true, false, ◌≡◌, ◌≢◌, List, Bytes}
use mathlib.Core.Path.{subst}
use lazyscript.CoreIr.Syntax.{
  Value, Values, Members, Expr, Cases, no_values, value, no_members, member, no_expr, val, let1,
  app, ife, effapp, match1, no_cases, case,
}
use lazyscript.CoreIr.Runtime.{Rv, empty, print_value}
use lazyscript.CoreIr.Eval.{Outcome, done, fault, Ctx, catches, eval_expr, run_program}
use lazyscript.CoreIr.Eval.Prints.{value-IsWritten, written-Ensures}
use lazyscript.CoreIr.Eval.Ensures.{
  Ensures, failed, timeout, Ensures-bind, Only, OnlyEnv, Unless, Caught, Built, BuiltValue,
  BuiltValues, BuiltMembers, BuiltCases, eval_expr-Only,
}

pub Ensures-done {ℓ} :
    {F : Type 0} {A : Type ℓ} {P : A → Type 0} {m : Outcome A} {a : A} {log : List Bytes}
    → Ensures F P m
    → m ≡ done a log
    → P a
Ensures-done {P} (Ensures.value h) e = subst P (cc e) h
Ensures-done (failed h) e = cc
Ensures-done timeout e = cc

pub Ensures-ne-fault {ℓ} : {A : Type ℓ} {P : A → Type 0} {m : Outcome A} → Ensures ⊥ P m → m ≢ fault
Ensures-ne-fault (Ensures.value h) e = cc
Ensures-ne-fault (failed h) e = h
Ensures-ne-fault timeout e = cc

-- any body
abbrev pub AnyBody : Expr → Type 0
AnyBody b = Unit

mutual
  unfolding BuiltValue

  value-Built : (v : Value) → BuiltValue Unit AnyBody v
  value-Built (Value.constr c vs) = values-Built vs
  value-Built (Value.nslit ms) = members-Built ms
  value-Built _ = tt

  values-Built : (vs : Values) → BuiltValues Unit AnyBody vs
  values-Built no_values = tt
  values-Built (value v vs) = (value-Built v, values-Built vs)

  members-Built : (ms : Members) → BuiltMembers Unit AnyBody ms
  members-Built no_members = tt
  members-Built (member x v ms) = (value-Built v, members-Built ms)

cases-Caught : (cs : Cases) → Caught Unit cs
unfolding Caught
cases-Caught no_cases = tt
cases-Caught (case p e cs) = elim (catches p) as (λ t. Unless t (Caught Unit cs)) [
  | true ↦ tt
  | false ↦ cases-Caught cs
]

mutual
  unfolding Built

  expr-Built : (e : Expr) → Built Unit AnyBody e
  expr-Built (val v) = value-Built v
  expr-Built (let1 x a b) = (expr-Built a, expr-Built b)
  expr-Built (app f xs) = (value-Built f, values-Built xs)
  expr-Built (ife c a b) = (value-Built c, expr-Built a, expr-Built b)
  expr-Built (effapp f tok xs) = (value-Built f, values-Built xs)
  expr-Built (match1 s cs) = (value-Built s, cases-Built cs, cases-Caught cs)
  expr-Built _ = tt

  cases-Built : (cs : Cases) → BuiltCases Unit AnyBody cs
  cases-Built no_cases = tt
  cases-Built (case p e cs) = (expr-Built e, cases-Built cs)

-- no native function, in the value or in what it captured
abbrev pub NoNative : Rv → Type 0
NoNative v = Only Unit AnyBody v

-- No name is resolved to a native function: from an environment without native functions no run of
-- any expression gives a value in which one occurs, captured environments and arguments included. A
-- bottom for a match without a case has no arguments that could be looked at, as its array is gone.
pub eval_expr-NoNative :
    (fuel : ℕ) (e : Expr) (ctx : Ctx) (v : Rv) (log : List Bytes)
    → OnlyEnv Unit AnyBody ctx.env
    → eval_expr fuel e ctx ≡ done v log
    → NoNative v
eval_expr-NoNative fuel e ctx v log h =
    Ensures-done (eval_expr-Only Unit AnyBody (λ b _. expr-Built b) fuel e ctx (expr-Built e) h)

-- In the parts of a program that a run can evaluate, the bodies of lambdas included, no value is
-- NULL, and each match has a case that catches every value. An expression may be NULL, and so may
-- the token of an effect application.
unfoldable mutual
  unfolding Caught

  pub IsWholeValue : Value → Type 0
  IsWholeValue Value.null = ⊥
  IsWholeValue (Value.lam p body) = IsWhole body
  IsWholeValue (Value.constr c vs) = IsWholeValues vs
  IsWholeValue (Value.nslit ms) = IsWholeMembers ms
  IsWholeValue _ = Unit

  pub IsWholeValues : Values → Type 0
  IsWholeValues no_values = Unit
  IsWholeValues (value v vs) = IsWholeValue v × IsWholeValues vs

  pub IsWholeMembers : Members → Type 0
  IsWholeMembers no_members = Unit
  IsWholeMembers (member x v ms) = IsWholeValue v × IsWholeMembers ms

  pub IsWhole : Expr → Type 0
  IsWhole (val v) = IsWholeValue v
  IsWhole (let1 x a b) = IsWhole a × IsWhole b
  IsWhole (app f xs) = IsWholeValue f × IsWholeValues xs
  IsWhole (ife c a b) = IsWholeValue c × IsWhole a × IsWhole b
  IsWhole (effapp f tok xs) = IsWholeValue f × IsWholeValues xs
  IsWhole (match1 s cs) = IsWholeValue s × IsWholeCases cs × Caught ⊥ cs
  IsWhole _ = Unit

  pub IsWholeCases : Cases → Type 0
  IsWholeCases no_cases = Unit
  IsWholeCases (case p e cs) = IsWhole e × IsWholeCases cs

mutual
  unfolding IsWhole BuiltValue Built

  value-IsWhole : (v : Value) → IsWholeValue v → BuiltValue ⊥ IsWhole v
  value-IsWhole (Value.constr c vs) h = values-IsWhole vs h
  value-IsWhole (Value.nslit ms) h = members-IsWhole ms h
  value-IsWhole (Value.lam p b) h = h
  value-IsWhole Value.null h = h
  value-IsWhole _ h = tt

  values-IsWhole : (vs : Values) → IsWholeValues vs → BuiltValues ⊥ IsWhole vs
  values-IsWhole no_values h = tt
  values-IsWhole (value v vs) h = (value-IsWhole v h.0, values-IsWhole vs h.1)

  members-IsWhole : (ms : Members) → IsWholeMembers ms → BuiltMembers ⊥ IsWhole ms
  members-IsWhole no_members h = tt
  members-IsWhole (member x v ms) h = (value-IsWhole v h.0, members-IsWhole ms h.1)

  expr-IsWhole : (e : Expr) → IsWhole e → Built ⊥ IsWhole e
  expr-IsWhole (val v) h = value-IsWhole v h
  expr-IsWhole (let1 x a b) h = (expr-IsWhole a h.0, expr-IsWhole b h.1)
  expr-IsWhole (app f xs) h = (value-IsWhole f h.0, values-IsWhole xs h.1)
  expr-IsWhole (ife c a b) h = (value-IsWhole c h.0, expr-IsWhole a h.1, expr-IsWhole b h.2)
  expr-IsWhole (effapp f tok xs) h = (value-IsWhole f h.0, values-IsWhole xs h.1)
  expr-IsWhole (match1 s cs) h = (value-IsWhole s h.0, cases-IsWhole cs h.1, h.2)
  expr-IsWhole _ h = tt

  cases-IsWhole : (cs : Cases) → IsWholeCases cs → BuiltCases ⊥ IsWhole cs
  cases-IsWhole no_cases h = tt
  cases-IsWhole (case p e cs) h = (expr-IsWhole e h.0, cases-IsWhole cs h.1)

abbrev pub start : Ctx
start = record { env = empty; has_token = false }

-- A run of a program in whose parts no value is NULL, and each match has a case that catches every
-- value, never reads through NULL, nor an array that is gone, with any fuel.
pub run_program-ne-fault : (fuel : ℕ) (root : Expr) → IsWhole root → run_program fuel root ≢ fault
unfolding run_program
run_program-ne-fault fuel no_expr h = cc
run_program-ne-fault fuel root h =
    let kept =
      eval_expr-Only ⊥ IsWhole expr-IsWhole fuel root start (expr-IsWhole root h)
        (unfold Only in tt) in
    Ensures-ne-fault (
      Ensures-bind {Q = λ _. Unit} kept
        (λ v h. written-Ensures (print_value v) (value-IsWritten IsWhole v h)))
