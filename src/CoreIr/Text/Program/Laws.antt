-- ===== src/CoreIr/Text/Program/Laws.antt =====
-- The reader on whole texts: printed programs, headers, and texts that are cut off.
use lazyscript.Prelude.{
  ℕ, zero, suc, ◌≤◌, Bool, true, false, ◌≡◌, refl, ap, ◌∙◌, [], ◌∷◌, ◌++◌, Bytes, codes, arith,
}
use lazyscript.CoreIr.Syntax.{Value, Expr, app, no_expr, no_values}
use lazyscript.CoreIr.Text.Lexer.{
  got, out_of_fuel, skip, skip_ws, starts, match_head, then_read, match,
}
use lazyscript.CoreIr.Text.Printer.{print_val, print_expr}
use lazyscript.CoreIr.Text.Reader.{parse_args, parse_val, parse_expr}
use lazyscript.CoreIr.Text.Printable.{HasText, ExprHasText, size, expr_size}
use lazyscript.CoreIr.Text.RoundTrip.{parse_val-print, parse_expr-print, parse_val_space}
use lazyscript.CoreIr.Text.Words.{Ends, IsName, read_symbol-name}
use lazyscript.CoreIr.Text.Program.{
  program, loaded, print_program, parse_program, read_from, read_text,
}

skip-starts : (comment : Bool) (r : Bytes) → starts 59 (skip comment r) ≡ false
unfolding skip
skip-starts comment [] = refl
skip-starts true (c ∷ r) = ground (arith, skip-starts false r, skip-starts true r)
skip-starts false (c ∷ r) = ground (arith, skip-starts false r, skip-starts true r)

skip_idem : (comment : Bool) (r : Bytes) → skip false (skip comment r) ≡ skip comment r
unfolding skip
skip_idem comment [] = refl
skip_idem true (c ∷ r) = ground (arith, skip_idem false r, skip_idem true r)
skip_idem false (c ∷ r) = ground (arith, skip_idem false r, skip_idem true r)

match-skip_ws : (r : Bytes) → match 40 (skip_ws r) ≡ match 40 r
unfolding match
match-skip_ws r = ap (match_head 40) (skip_idem false r)

parse_expr_skip : (fuel : ℕ) (r : Bytes) → parse_expr fuel (skip_ws r) ≡ parse_expr fuel r
unfolding parse_expr
parse_expr_skip zero r = refl
parse_expr_skip (suc fuel) r = ap (then_read _) (match-skip_ws r)

read_from-plain :
    (fuel : ℕ) (s : Bytes) → starts 59 s ≡ false → read_from fuel s ≡ parse_program fuel s
unfolding read_from
read_from-plain fuel [] h = refl
read_from-plain fuel (c ∷ r) h = rw h

-- The header of a file is never looked at: each file with a byte in it is read as an expression, and
-- an error is what the reader of expressions reports.
pub read_text-parse_program :
    (fuel c : ℕ) (r : Bytes) → read_text fuel (c ∷ r) ≡ parse_program fuel (c ∷ r)
unfolding read_text parse_program
read_text-parse_program fuel c r =
    read_from-plain fuel (skip_ws (c ∷ r)) (skip-starts false (c ∷ r))
    ∙ ap (then_read loaded) (parse_expr_skip fuel (c ∷ r))

loaded-HasText : (e : Expr) (r : Bytes) → ExprHasText e → loaded e r ≡ got (program e) r
unfolding ExprHasText
loaded-HasText no_expr r h = absurd h
loaded-HasText (Expr.val v) r h = refl
loaded-HasText (Expr.let1 x b c) r h = refl
loaded-HasText (app f xs) r h = refl
loaded-HasText (Expr.ife c t e) r h = refl
loaded-HasText (Expr.effapp f t xs) r h = refl
loaded-HasText Expr.token r h = refl
loaded-HasText (Expr.match1 v cs) r h = absurd h

print_program-parse_expr :
    (fuel : ℕ) (e : Expr)
    → parse_expr fuel (print_program e) ≡ parse_expr fuel (print_expr e (10 ∷ []))
unfolding parse_expr print_program
print_program-parse_expr zero e = refl
print_program-parse_expr (suc fuel) e = refl

-- A printed program whose root has a text form is read back as it was, with the fuel that its root
-- needs.
pub read_text-print_program :
    (fuel : ℕ) (e : Expr)
    → ExprHasText e
    → expr_size e ≤ fuel
    → read_text fuel (print_program e) ≡ got (program e) (10 ∷ [])
unfolding parse_program
read_text-print_program fuel e h le =
    unfold print_program in
    read_text-parse_program fuel _ _
    ∙ ap (then_read loaded)
        (print_program-parse_expr fuel e ∙ parse_expr-print fuel e (10 ∷ []) h le)
    ∙ loaded-HasText e (10 ∷ []) h

parse_args-end : (fuel n : ℕ) → parse_args (parse_val fuel) n [] ≡ out_of_fuel
unfolding parse_args parse_val
parse_args-end fuel zero = refl
parse_args-end zero (suc n) = refl
parse_args-end (suc fuel) (suc n) = ap (then_read _) (parse_args-end (suc fuel) n)

-- An application whose text ends behind its function, without the parenthesis, is read without end:
-- no fuel is enough.
pub parse_expr-app_open :
    (fuel : ℕ) (f : Value)
    → HasText f
    → size f ≤ fuel
    → parse_expr (suc fuel) (codes "(app " ++ print_val f []) ≡ out_of_fuel
unfolding parse_expr
parse_expr-app_open fuel f h le =
    ap (then_read _) (parse_val_space fuel _ ∙ parse_val-print fuel f [] h le)
    ∙ ap (then_read _) (parse_args-end fuel fuel)

-- A constructor whose name begins with `var`, followed by a name, and that has no arguments is
-- printed, and read back as a variable of the name behind `var`.
pub parse_val-var_prefix :
    (fuel : ℕ) (s k : Bytes)
    → IsName s
    → parse_val (suc fuel) (print_val (Value.constr (codes "var" ++ s) no_values) k)
      ≡ got (Value.var s) k
unfolding parse_val print_val
parse_val-var_prefix fuel s k n = ap (then_read _) (read_symbol-name s (41 ∷ k) n (Ends.paren k))
