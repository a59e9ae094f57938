-- ===== src/CoreIr/Text/Printer.antt =====
-- The printer of src/coreir/cir_lower_print.c, with the indent 0 of its callers. `k` is what is
-- printed afterwards.
use lazyscript.Prelude.{◌∷◌, ◌++◌, Bytes, codes}
use lazyscript.Prelude.Decimal.{show_ℤ}
use lazyscript.CoreIr.Syntax.{
  Value, Values, Members, Expr, Cases, no_values, value, no_members, member, no_expr, let1, app,
  ife, effapp, match1, no_cases, case,
}
use lazyscript.CoreIr.Syntax

unfoldable mutual
  unfolding show_ℤ

  pub print_val : Value → Bytes → Bytes
  print_val Value.null k = codes "<null-val>" ++ k
  print_val (Value.int n) k = codes "(int " ++ (show_ℤ n ++ 41 ∷ k)
  print_val (Value.str s) k = codes "(str \"" ++ (s ++ 34 ∷ 41 ∷ k)
  print_val (Value.var x) k = codes "(var " ++ (x ++ 41 ∷ k)
  print_val (Value.constr c vs) k = 40 ∷ (c ++ print_args vs k)
  print_val (Value.lam p b) k = codes "(lam " ++ (p ++ 32 ∷ print_expr b (41 ∷ k))
  print_val (Value.nslit ms) k = codes "(nslit" ++ print_members ms k

  -- the arguments of a node, and its parenthesis
  pub print_args : Values → Bytes → Bytes
  print_args no_values k = 41 ∷ k
  print_args (value v vs) k = 32 ∷ print_val v (print_args vs k)

  pub print_members : Members → Bytes → Bytes
  print_members no_members k = 41 ∷ k
  print_members (member x v ms) k = 32 ∷ 40 ∷ (x ++ 32 ∷ print_val v (41 ∷ print_members ms k))

  pub print_expr : Expr → Bytes → Bytes
  print_expr no_expr k = codes "<null-expr>" ++ k
  print_expr (Syntax.val v) k = print_val v k
  print_expr (app f xs) k = codes "(app " ++ print_val f (print_args xs k)
  print_expr (let1 x b c) k = codes "(let " ++ (x ++ 32 ∷ print_expr b (32 ∷ print_expr c (41 ∷ k)))
  print_expr (ife c t e) k =
      codes "(if " ++ print_val c (32 ∷ print_expr t (32 ∷ print_expr e (41 ∷ k)))
  print_expr (effapp f t xs) k =
      codes "(effapp " ++ print_val f (32 ∷ print_val t (print_args xs k))
  print_expr Expr.token k = codes "(token)" ++ k
  print_expr (match1 v cs) k = codes "<unimpl>" ++ k
