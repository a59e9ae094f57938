-- ===== src/CoreIr/Tests.antt =====
-- Runs of the validator, the kind check and the evaluator on small programs, and their theorems at
-- such programs.
use lazyscript.Prelude.{
  Bool, true, false, ◌≡◌, ◌≢◌, refl, ◌↔◌, none, some, [], ◌∷◌, arith, codes, same,
}
use lazyscript.Prelude.Int.{pos}
use lazyscript.Prelude.Decimal.{show_ℤ}
use lazyscript.CoreIr.Syntax.{
  wildcard, Value, Expr, int, str, constr, var, lam, no_values, value, val, let1, app, ife, effapp,
  token, match1, no_cases, case,
}
use lazyscript.CoreIr.Syntax
use lazyscript.CoreIr.Effects.{clean, validate_effects, check_scope, check_token, val_repr}
use lazyscript.CoreIr.Effects.Sites.{InExpr, IsVar}
use lazyscript.CoreIr.Effects.Accepts.{validate_effects-clean_iff, validate_effects-some_iff}
use lazyscript.CoreIr.Kind.{expr_has_effects, Options, typecheck, check_arity, head_arity}
use lazyscript.CoreIr.Kind.Laws.{HasSite, Plain, expr_has_effects-sites, typecheck-clean}
use lazyscript.CoreIr.Runtime
use lazyscript.CoreIr.Runtime.{Rv, env_lookup, truthy, print_value, empty}
use lazyscript.CoreIr.Eval.{
  done, fault, out_of_fuel, eval_value, eval_expr, run_program, build_constr, lookup_or_symbol,
  first_case,
}
use lazyscript.CoreIr.Eval.Ensures.{Caught, Only, Built, BuiltValue}
use lazyscript.CoreIr.Eval.Safety.{
  NoNative, IsWhole, start, eval_expr-NoNative, run_program-ne-fault,
}
use lazyscript.CoreIr.Eval.Terminates.{height, eval_expr_terminates}

-- (effapp (var println) (var t) (str "hi"))
abbrev greet : Expr
greet = effapp (var (codes "println")) (var (codes "t")) (value (str (codes "hi")) no_values)

-- (let t (token) …)
abbrev greeting : Expr
greeting = let1 (codes "t") token greet

-- ((lam x (var x)) (int 7)), bound and tested
abbrev identity : Expr
identity =
    let1 (codes "y") (app (lam (codes "x") (val (var (codes "x")))) (value (int (pos 7)) no_values))
      (ife (var (codes "y")) (val (constr (codes "Box") (value (var (codes "y")) no_values)))
        (val (var (codes "no"))))

-- (match (int 3) (_ -> (str "any"))), with no lambda
abbrev matching : Expr
matching = match1 (int (pos 3)) (case wildcard (val (str (codes "any"))) no_cases)

abbrev strict : Options
strict = record { kind_warn = true; kind_error = true }

-- all that the runs below compute with
program : Unit {0}
unfolding Syntax.is_token validate_effects val_repr check_scope check_token typecheck
    expr_has_effects check_arity head_arity run_program eval_expr eval_value env_lookup truthy
    build_constr lookup_or_symbol print_value show_ℤ same first_case
program = tt

greeting_passes : validate_effects greeting ≡ clean
unfolding program
greeting_passes = refl

greet_fails :
    validate_effects greet
    ≡ some (
      1,
      codes "E: EffApp(var println): requires in-scope token (introduce via (token) let).\n" ∷ [],
    )
unfolding program
greet_fails = refl

identity_runs : run_program 5 identity ≡ done (codes "(Box 7)\n") []
unfolding program
identity_runs = refl

missing_case :
    eval_expr 5 (match1 (int (pos 3)) no_cases) start
    ≡ done
        (Runtime.bottom (codes "match: no case") (Runtime.gone 1))
        (codes "E: <bottom msg=\"match: no case\" at <unknown>:1.1: >\n" ∷ [])
unfolding program
missing_case = refl

-- the print of that bottom reads the array
missing_case_printed : run_program 5 (match1 (int (pos 3)) no_cases) ≡ fault
unfolding program
missing_case_printed = refl

-- (: 1 (: 2 [])) prints as a list
list_prints :
    run_program 2 (
      val (
        constr (codes ":") (
          value (int (pos 1)) (
            value
              (constr
                (codes ":")
                (value (int (pos 2)) (value (constr (codes "[]") no_values) no_values)))
              no_values))))
    ≡ done (codes "[1, 2]\n") []
unfolding program
list_prints = refl

kind_error : (typecheck strict greeting).code ≡ 1
unfolding program
kind_error = refl

validate_effects-clean_iff_example :
    (validate_effects greeting ≡ clean)
    ↔ ((s : Bool) (tok : Value) → InExpr s tok false greeting → (s ≡ true) × IsVar tok)
validate_effects-clean_iff_example = validate_effects-clean_iff greeting

validate_effects-some_iff_example :
    (validate_effects greet ≢ none)
    ↔ ((s : Bool) (tok : Value) → InExpr s tok false greet → tok ≢ Syntax.Value.null)
validate_effects-some_iff_example = validate_effects-some_iff greet

expr_has_effects-sites_example :
    (expr_has_effects greeting false ≡ true → HasSite false greeting)
    × (Plain greeting → HasSite false greeting → expr_has_effects greeting false ≡ true)
expr_has_effects-sites_example = expr_has_effects-sites greeting false false

typecheck-clean_example : validate_effects matching ≡ clean
unfolding program Plain
typecheck-clean_example = typecheck-clean strict matching (tt, (tt, tt)) refl refl

abbrev boxed : Rv
boxed = Rv.constr (codes "Box") (Runtime.cons (Rv.int (pos 7)) Runtime.nil)

eval_expr-NoNative_example : NoNative boxed
unfolding program Only
eval_expr-NoNative_example = eval_expr-NoNative 5 identity start boxed [] tt refl

run_program-ne-fault_example : run_program 5 matching ≢ fault
unfolding IsWhole Caught
run_program-ne-fault_example = run_program-ne-fault 5 matching (tt, (tt, tt), tt)

eval_expr_terminates_example : eval_expr 2 matching start ≢ out_of_fuel
unfolding Built BuiltValue Caught Only height
eval_expr_terminates_example =
    eval_expr_terminates 2 matching start (tt, (tt, tt), tt) tt (omega arith)
