-- ===== src/CoreIr/Lower/Tests.antt =====
-- Runs of the lowering, and its theorems at concrete programs.
use lazyscript.Prelude.{◌≡◌, ◌≢◌, refl, some, [], ◌∷◌, codes, same, true, arith}
use lazyscript.Prelude.Int.{pos}
use lazyscript.Prelude.Decimal.{show_ℕ, show_ℤ, digits_onto}
use lazyscript.Common.LsInt
use lazyscript.Common.Str.Literal
use lazyscript.Ast.Pattern
use lazyscript.Ast.Pattern.{alge_text, parens, count}
use lazyscript.Ast.Syntax.{Expr, ref, int, str, symbol, appl, alge, expr, no_exprs}
use lazyscript.CoreIr.Effects.{clean, validate_effects}
use lazyscript.CoreIr.Eval.{fault, run_program}
use lazyscript.CoreIr.Text.Lexer.{got, read_digits}
use lazyscript.CoreIr.Text.Printer.{print_expr}
use lazyscript.CoreIr.Text.Printable.{expr_size}
use lazyscript.CoreIr.Text.Program.{print_program, read_text, program}
use lazyscript.CoreIr.Lower.Monad.{◌>>=◌, pure, gensym}
use lazyscript.CoreIr.Lower.Heads.{
  after_dot, is_ifthenelse, is_prelude, atom, is_env, dotted, is_env_call, member_sym,
  is_prelude_env, prelude_sym,
}
use lazyscript.CoreIr.Lower.{
  Platform, when_null, when_no_expr, extract_pat_name, add_value, lower_args, constr_or_null,
  lower_alge_value, lam_or_null, lower_lambda_value, named, name_sub, name_args, bind_lets, arms,
  lower_if, lower_member_app, lower_app, lower_appl_of, lower_appl, choice_operator, lower_choice,
  val_or_null, lower_default, lower_expr, lower_prog,
}
use lazyscript.CoreIr.Lower.Safe.{validate_effects-lower_prog, run_program-lower_prog}
use lazyscript.CoreIr.Lower.Nulls.{is_given, has_form}
use lazyscript.CoreIr.Lower.Nulls.Forms.{lower_expr-is_given}
use lazyscript.CoreIr.Lower.Plain.{IsPlain}
use lazyscript.CoreIr.Lower.Printed.{read_text-lower_expr}

abbrev platform : Platform
platform = record { atoll = λ s. pos ((read_digits 0 s).0); then_first = true }

evaluating : Unit {0}
unfolding show_ℕ show_ℤ digits_onto LsInt.print LsInt.get LsInt.new Literal.print Pattern.print_pat
    alge_text parens count read_digits print_expr ◌>>=◌ pure gensym after_dot is_ifthenelse
    is_prelude atom is_env dotted is_env_call member_sym is_prelude_env prelude_sym when_null
    when_no_expr extract_pat_name add_value lower_args constr_or_null lower_alge_value lam_or_null
    lower_lambda_value named name_sub name_args bind_lets arms lower_if lower_member_app lower_app
    lower_appl_of lower_appl choice_operator lower_choice val_or_null lower_default lower_expr
    lower_prog same
evaluating = tt

-- `f (g x) 1`
abbrev call : Expr
call = appl (ref (codes "f")) (
    expr (appl (ref (codes "g")) (expr (ref (codes "x")) no_exprs))
      (expr (int (some (pos 1))) no_exprs))

call_text :
    print_expr ((lower_expr platform call 0).0) []
    ≡ codes "(let a$1 (app (var g) (var x)) (app (var f) (var a$1) (int 1)))"
unfolding evaluating
call_text = refl

-- `(~prelude .env .println) "hi"`, grouped to the left
abbrev println : Expr
println =
    appl
      (appl (appl (ref (codes "prelude")) (expr (symbol (codes ".env")) no_exprs))
        (expr (symbol (codes ".println")) no_exprs))
      (expr (str (codes "hi")) no_exprs)

println_text :
    print_expr ((lower_expr platform println 0).0) [] ≡ codes "(app (var println) (str \"hi\"))"
unfolding evaluating
println_text = refl

-- a constructor with an argument that is no value
symbol_text :
    print_expr ((lower_expr platform (alge (codes "Some") (expr call no_exprs)) 0).0) []
    ≡ codes "<null-expr>"
unfolding evaluating
symbol_text = refl

-- `f .x`
argument_text :
    print_expr
      ((lower_expr platform (appl (ref (codes "f")) (expr (symbol (codes ".x")) no_exprs)) 0).0)
      []
    ≡ codes "(let a$1 <null-expr> (app (var f) (var a$1)))"
unfolding evaluating
argument_text = refl

validate_effects-lower_prog_example :
    validate_effects ((lower_prog platform (some println) 0).0) ≡ clean
validate_effects-lower_prog_example = validate_effects-lower_prog platform (some println) 0

run_program-lower_prog_example : run_program 20 ((lower_prog platform (some call) 0).0) ≢ fault
run_program-lower_prog_example = run_program-lower_prog platform (some call) 0 20

lower_expr-is_given_example :
    is_given ((lower_expr platform (alge (codes "Some") (expr call no_exprs)) 0).0)
    ≡ has_form (alge (codes "Some") (expr call no_exprs))
lower_expr-is_given_example =
    lower_expr-is_given platform (alge (codes "Some") (expr call no_exprs)) 0

call-IsPlain : IsPlain platform call
unfolding IsPlain evaluating
call-IsPlain = ground arith

read_text-lower_expr_example :
    read_text 40 (print_program ((lower_expr platform call 0).0))
    ≡ got (program ((lower_expr platform call 0).0)) (10 ∷ [])
unfolding expr_size evaluating
read_text-lower_expr_example = read_text-lower_expr platform call 0 40 call-IsPlain (omega arith)
