-- ===== src/CoreIr/Text/Tests.antt =====
-- Runs of the printer and the reader, and examples of their theorems.
use lazyscript.Prelude.{◌≡◌, refl, [], ◌∷◌, codes, arith}
use lazyscript.Prelude.Int.{pos, negsuc}
use lazyscript.CoreIr.Syntax.{Value, Expr, app, let1, no_values, value}
use lazyscript.CoreIr.Text.Lexer.{got, bad_node, out_of_fuel, strip}
use lazyscript.CoreIr.Text.Printer.{print_val}
use lazyscript.CoreIr.Text.Reader.{parse_expr}
use lazyscript.CoreIr.Text.Printable.{HasText, ExprHasText, size, expr_size}
use lazyscript.CoreIr.Text.Program.{program, empty_file, print_program, parse_program, read_text}
use lazyscript.CoreIr.Text.Program.Laws.{
  read_text-parse_program, read_text-print_program, parse_expr-app_open,
}

-- let x = -5 in f (Cons x "a b")
abbrev sample : Expr
sample = let1 (codes "x") (Expr.val (Value.int (negsuc 4))) (
    app (Value.var (codes "f")) (
      value
        (Value.constr (codes "Cons")
          (value (Value.var (codes "x")) (value (Value.str (codes "a b")) no_values)))
        no_values))

test_print :
    print_program sample
    ≡ codes
        "; CoreIR dump (temporary)\n(let x (int -5) (app (var f) (Cons (var x) (str \"a b\"))))\n"
unfolding print_program
test_print = refl

test_read :
    read_text 20 (codes "(let x (int 5) y) ; rest")
    ≡ got
        (program
          (let1 (codes "x") (Expr.val (Value.int (pos 5))) (Expr.val (Value.var (codes "y")))))
        (codes " ; rest")
unfolding read_text
test_read = refl

test_keyword :
    read_text 20 (codes "(lambda 5)")
    ≡ got (program (Expr.val (Value.lam (codes "bda") (Expr.val (Value.var (codes "5")))))) []
unfolding read_text
test_keyword = refl

test_match : read_text 20 (codes "(match x (_ -> y))") ≡ bad_node
unfolding read_text
test_match = refl

test_empty : read_text 20 [] ≡ got empty_file []
unfolding read_text
test_empty = refl

sample-ExprHasText : ExprHasText sample
unfolding ExprHasText HasText strip
sample-ExprHasText = (
  (refl, (refl, tt)),
  (omega arith, tt),
  (
    (refl, (refl, tt)),
    (
      (
        (refl, (refl, (refl, (refl, (refl, tt))))),
        (refl, (refl, (refl, (refl, (refl, tt))))),
        ((refl, (refl, tt)), ((refl, (refl, (refl, tt))), tt)),
      ),
      tt,
    ),
  ),
)

read_text-print_program_example :
    read_text 20 (print_program sample) ≡ got (program sample) (10 ∷ [])
read_text-print_program_example =
    read_text-print_program 20 sample sample-ExprHasText (unfold expr_size in omega arith)

read_text-parse_program_example :
    read_text 9 (codes "; LCIR v9 x\n(token)") ≡ parse_program 9 (codes "; LCIR v9 x\n(token)")
read_text-parse_program_example = read_text-parse_program 9 b';' (codes " LCIR v9 x\n(token)")

f-HasText : HasText (Value.var (codes "f"))
unfolding HasText
f-HasText = (refl, (refl, tt))

parse_expr-app_open_example : parse_expr 8 (codes "(app (var f)") ≡ out_of_fuel
unfolding print_val
parse_expr-app_open_example =
    parse_expr-app_open 7 (Value.var (codes "f")) f-HasText (unfold size in omega arith)
