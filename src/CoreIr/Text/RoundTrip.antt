-- ===== src/CoreIr/Text/RoundTrip.antt =====
-- The reader on the text of a printed expression, part by part.
use lazyscript.Prelude.{ℕ, zero, suc, ◌≤◌, ◌≡◌, refl, ap, ◌∙◌, some, ◌∷◌, ◌++◌, Bytes, codes, arith}
use lazyscript.CoreIr.Syntax.{
  Pat, Value, Values, Members, Expr, Cases, no_values, value, no_members, member, no_expr, let1,
  app, ife, effapp, match1,
}
use lazyscript.CoreIr.Syntax
use lazyscript.CoreIr.Text.Lexer.{Read, got, then_read, pure, ◌>>=◌}
use lazyscript.CoreIr.Text.Words.{
  Ends, IsName, read_symbol-name, read_string-quoted, read_int-show, keyword-miss,
}
use lazyscript.CoreIr.Text.Printer.{print_val, print_args, print_members, print_expr}
use lazyscript.CoreIr.Text.Patterns.{parse_pat}
use lazyscript.CoreIr.Text.Reader.{
  parse_args, parse_members, parse_val_list, parse_constr, parse_expr_list, parse_val, parse_expr,
}
use lazyscript.CoreIr.Text.Printable.{
  Misses, value_keywords, expr_keywords, MissesExpr, HasText, HaveText, MembersHaveText,
  ExprHasText, size, sizes, members_size, expr_size, size-pos, sizes-pos, members_size-pos,
  expr_size-pos,
}

print_args-Ends : (vs : Values) (k : Bytes) → Ends (print_args vs k)
unfolding print_args
print_args-Ends no_values k = Ends.paren k
print_args-Ends (value v vs) k = Ends.space (print_val v (print_args vs k))

-- A name that begins with no keyword of values is read as a constructor.
module _ (val : Bytes → Read Value) (expr : Bytes → Read Expr) (fuel : ℕ) where
  parse_val_list-constr :
      (c : Bytes) (vs : Values) (k : Bytes)
      → IsName c
      → Misses value_keywords c
      → parse_args val fuel (print_args vs k) ≡ got vs k
      → parse_val_list val expr fuel (c ++ print_args vs k) ≡ got (Value.constr c vs) k
  unfolding parse_val_list parse_constr
  parse_val_list-constr c vs k n (m1, (m2, (m3, (m4, (m5, _))))) e =
      let end = print_args-Ends vs k in
      keyword-miss (codes "int") _ _ c _ refl n end m1
      ∙ keyword-miss (codes "str") _ _ c _ refl n end m2
      ∙ keyword-miss (codes "var") _ _ c _ refl n end m3
      ∙ keyword-miss (codes "lam") _ _ c _ refl n end m4
      ∙ keyword-miss (codes "nslit") _ _ c _ refl n end m5
      ∙ ap (then_read _) (read_symbol-name c _ n end)
      ∙ ap (then_read _) e

  module _ (pat : Bytes → Read Pat) where
    parse_expr_list-constr :
        (c : Bytes) (vs : Values) (k : Bytes)
        → IsName c
        → Misses value_keywords c
        → Misses expr_keywords c
        → parse_args val fuel (print_args vs k) ≡ got vs k
        → parse_expr_list val expr pat fuel (c ++ print_args vs k)
          ≡ got (Syntax.val (Value.constr c vs)) k
    unfolding parse_expr_list
    parse_expr_list-constr c vs k n ms (m1, (m2, (m3, (m4, (m5, (m6, _)))))) e =
        let end = print_args-Ends vs k in
        keyword-miss (codes "app") _ _ c _ refl n end m1
        ∙ keyword-miss (codes "let") _ _ c _ refl n end m2
        ∙ keyword-miss (codes "if") _ _ c _ refl n end m3
        ∙ keyword-miss (codes "match") _ _ c _ refl n end m4
        ∙ keyword-miss (codes "effapp") _ _ c _ refl n end m5
        ∙ keyword-miss (codes "token") _ _ c _ refl n end m6
        ∙ ap (then_read _) (parse_val_list-constr c vs k n ms e)

pub parse_val_space : (fuel : ℕ) (r : Bytes) → parse_val fuel (32 ∷ r) ≡ parse_val fuel r
unfolding parse_val
parse_val_space zero r = refl
parse_val_space (suc fuel) r = refl

parse_expr_space : (fuel : ℕ) (r : Bytes) → parse_expr fuel (32 ∷ r) ≡ parse_expr fuel r
unfolding parse_expr
parse_expr_space zero r = refl
parse_expr_space (suc fuel) r = refl

-- A printed value is an argument: the list goes on with it.
parse_args-more :
    (val : Bytes → Read Value) (n : ℕ) (v : Value) (k : Bytes)
    → HasText v
    → parse_args val (suc n) (32 ∷ print_val v k)
      ≡ then_read (λ w. parse_args val n >>= λ ws. pure (value w ws)) (val (print_val v k))
unfolding parse_args ◌>>=◌ print_val HasText
parse_args-more val n Value.null k h = absurd h
parse_args-more val n (Value.int m) k h = refl
parse_args-more val n (Value.str s) k h = refl
parse_args-more val n (Value.var x) k h = refl
parse_args-more val n (Value.constr c vs) k h = refl
parse_args-more val n (Value.lam p b) k h = refl
parse_args-more val n (Value.nslit ms) k h = refl

mutual
  unfolding parse_val print_val HasText size

  pub parse_val-print :
      (fuel : ℕ) (v : Value) (k : Bytes)
      → HasText v
      → size v ≤ fuel
      → parse_val fuel (print_val v k) ≡ got v k
  parse_val-print zero v k h le = absurd (omega (arith, size-pos v, le))
  parse_val-print (suc fuel) Value.null k h le = absurd h
  parse_val-print (suc fuel) (Value.int n) k h le = ap (then_read _) (read_int-show n k h)
  parse_val-print (suc fuel) (Value.str s) k h le =
      ap (then_read _) (read_string-quoted s (41 ∷ k) h)
  parse_val-print (suc fuel) (Value.var x) k h le =
      ap (then_read _) (read_symbol-name x (41 ∷ k) h (Ends.paren k))
  parse_val-print (suc fuel) (Value.constr c vs) k (n, m, h) le =
      parse_val_list-constr (parse_val fuel) (parse_expr fuel) fuel c vs k n m
        (parse_args-print fuel fuel vs k h (omega (arith, le)) (omega (arith, le)))
  parse_val-print (suc fuel) (Value.lam p b) k (n, h) le =
      ap (then_read _) (read_symbol-name p _ n (Ends.space _))
      ∙ ap (then_read _)
          (parse_expr_space fuel _ ∙ parse_expr-print fuel b (41 ∷ k) h (omega (arith, le)))
  parse_val-print (suc fuel) (Value.nslit ms) k h le =
      ap (then_read _)
        (parse_members-print fuel fuel ms k h (omega (arith, le)) (omega (arith, le)))

  parse_args-print :
      (fuel n : ℕ) (vs : Values) (k : Bytes)
      → HaveText vs
      → sizes vs ≤ fuel
      → sizes vs ≤ n
      → parse_args (parse_val fuel) n (print_args vs k) ≡ got vs k
  parse_args-print fuel zero vs k h le le' = absurd (omega (arith, sizes-pos vs, le'))
  parse_args-print fuel (suc n) no_values k h le le' = refl
  parse_args-print fuel (suc n) (value v vs) k (h, hs) le le' =
      parse_args-more (parse_val fuel) n v (print_args vs k) h
      ∙ ap (then_read _) (parse_val-print fuel v (print_args vs k) h (omega (arith, le)))
      ∙ ap (then_read _) (parse_args-print fuel n vs k hs (omega (arith, le)) (omega (arith, le')))

  parse_members-print :
      (fuel n : ℕ) (ms : Members) (k : Bytes)
      → MembersHaveText ms
      → members_size ms ≤ fuel
      → members_size ms ≤ n
      → parse_members (parse_val fuel) n (print_members ms k) ≡ got (some ms) (41 ∷ k)
  parse_members-print fuel zero ms k h le le' = absurd (omega (arith, members_size-pos ms, le'))
  parse_members-print fuel (suc n) no_members k h le le' = refl
  parse_members-print fuel (suc n) (member x v ms) k (nx, h, hs) le le' =
      ap (then_read _) (read_symbol-name x _ nx (Ends.space _))
      ∙ ap (then_read _) (
          parse_val_space fuel _
          ∙ parse_val-print fuel v (41 ∷ print_members ms k) h (omega (arith, le)))
      ∙ ap (then_read _)
          (parse_members-print fuel n ms k hs (omega (arith, le)) (omega (arith, le')))

  pub parse_expr-print :
      (fuel : ℕ) (e : Expr) (k : Bytes)
      → ExprHasText e
      → expr_size e ≤ fuel
      → parse_expr fuel (print_expr e k) ≡ got e k
  parse_expr-print zero e k h le = absurd (omega (arith, expr_size-pos e, le))
  parse_expr-print (suc fuel) (Syntax.val v) k (h, m) le =
      val_expr-print fuel v k h m (omega (arith, le))
  parse_expr-print (suc fuel) (let1 x b c) k (n, h1, h2) le =
      ap (then_read _) (read_symbol-name x _ n (Ends.space _))
      ∙ ap (then_read _)
          (parse_expr_space fuel _ ∙ parse_expr-print fuel b _ h1 (omega (arith, le)))
      ∙ ap (then_read _)
          (parse_expr_space fuel _ ∙ parse_expr-print fuel c (41 ∷ k) h2 (omega (arith, le)))
  parse_expr-print (suc fuel) (app f xs) k (h1, h2) le =
      ap (then_read _) (parse_val_space fuel _ ∙ parse_val-print fuel f _ h1 (omega (arith, le)))
      ∙ ap (then_read _)
          (parse_args-print fuel fuel xs k h2 (omega (arith, le)) (omega (arith, le)))
  parse_expr-print (suc fuel) (ife c t e) k (h1, h2, h3) le =
      ap (then_read _) (parse_val_space fuel _ ∙ parse_val-print fuel c _ h1 (omega (arith, le)))
      ∙ ap (then_read _)
          (parse_expr_space fuel _ ∙ parse_expr-print fuel t _ h2 (omega (arith, le)))
      ∙ ap (then_read _)
          (parse_expr_space fuel _ ∙ parse_expr-print fuel e (41 ∷ k) h3 (omega (arith, le)))
  parse_expr-print (suc fuel) (effapp f t xs) k (h1, h2, h3) le =
      ap (then_read _) (parse_val_space fuel _ ∙ parse_val-print fuel f _ h1 (omega (arith, le)))
      ∙ ap (then_read _) (parse_val_space fuel _ ∙ parse_val-print fuel t _ h2 (omega (arith, le)))
      ∙ ap (then_read _)
          (parse_args-print fuel fuel xs k h3 (omega (arith, le)) (omega (arith, le)))
  parse_expr-print (suc fuel) Expr.token k h le = refl
  parse_expr-print (suc fuel) no_expr k h le = absurd h
  parse_expr-print (suc fuel) (match1 v cs) k h le = absurd h

  val_expr-print :
      (fuel : ℕ) (v : Value) (k : Bytes)
      → HasText v
      → MissesExpr v
      → size v ≤ fuel
      → parse_expr (suc fuel) (print_val v k) ≡ got (Syntax.val v) k
  val_expr-print fuel Value.null k h m le = absurd h
  val_expr-print fuel (Value.int n) k h m le =
      ap (then_read _) (ap (then_read _) (read_int-show n k h))
  val_expr-print fuel (Value.str s) k h m le =
      ap (then_read _) (ap (then_read _) (read_string-quoted s (41 ∷ k) h))
  val_expr-print fuel (Value.var x) k h m le =
      ap (then_read _) (ap (then_read _) (read_symbol-name x (41 ∷ k) h (Ends.paren k)))
  val_expr-print fuel (Value.constr c vs) k (n, ms, h) m le =
      parse_expr_list-constr (parse_val fuel) (parse_expr fuel) fuel (parse_pat fuel) c vs k n ms m
        (parse_args-print fuel fuel vs k h (omega (arith, le)) (omega (arith, le)))
  val_expr-print fuel (Value.lam p b) k (n, h) m le = ap (then_read _) (
      ap (then_read _) (read_symbol-name p _ n (Ends.space _))
      ∙ ap (then_read _)
          (parse_expr_space fuel _ ∙ parse_expr-print fuel b (41 ∷ k) h (omega (arith, le))))
  val_expr-print fuel (Value.nslit ms) k h m le = ap (then_read _) (
      ap (then_read _)
        (parse_members-print fuel fuel ms k h (omega (arith, le)) (omega (arith, le))))
