-- ===== src/CoreIr/Lower/Printed.antt =====
-- The lowering of a plain syntax tree, printed and read back.
use lazyscript.Prelude.{
  ℕ, ◌≤◌, ◌≡◌, ◌==◌, Bool-cases, inl, inr, Option, none, some, List, [], ◌∷◌, Bytes, All,
}
use lazyscript.Prelude.Int.{ℤ}
use lazyscript.Ast.Pattern.{Pat}
use lazyscript.Ast.Syntax.{
  Exprs, Binds, appl, choice, closure, symbol, raise, lambda, alge, nslit, no_exprs, expr, no_binds,
  bind,
}
use lazyscript.Ast
use lazyscript.CoreIr.Syntax.{
  Value, Members, Expr, null, no_expr, val, let1, app, ife, effapp, token, match1, int, str, constr,
  lam, var,
}
use lazyscript.CoreIr.Text.Lexer.{got}
use lazyscript.CoreIr.Text.Words.{IsName, IsQuotable, IsLong}
use lazyscript.CoreIr.Text.Printable.{Misses, expr_keywords, HasText, ExprHasText, expr_size}
use lazyscript.CoreIr.Text.Program.{print_program, read_text, program}
use lazyscript.CoreIr.Text.Program.Laws.{read_text-print_program}
use lazyscript.CoreIr.Lower.Monad.{Gen, ◌>>=◌, pure}
use lazyscript.CoreIr.Lower.Heads.{c_string, prelude_sym}
use lazyscript.CoreIr.Lower.{
  Platform, Sub, SubMember, when_no_expr, lower_args, lower_alge_value, lam_or_null,
  extract_pat_name, lower_lambda_value, lower_entries, nslit_or_null, lower_nslit_value,
  lower_bindings, lower_value, lower_expr, lower_subs, lower_binds, lower_members, sub,
}
use lazyscript.CoreIr.Lower.Closed.{
  Gives, Gives-pure, May, GoodSub, GoodHead, lower_appl-E, lower_choice-E,
}
use lazyscript.CoreIr.Lower.Plain.{
  PlainHead, IsPlain, IsPlainValue, ArePlainValues, ArePlain, BindsArePlain, MembersArePlain,
  text_closed,
}
use lazyscript.CoreIr.Lower.Texts.{
  ArgsText, EntriesText, AsExpr, no_args-text, args-text, no_entries-text, entries-text, alge-text,
  constr_or_null-Misses, nslit-text, lambda-text, default-text, no_bindings-text, bindings-text,
  closure-text,
}

May-text : (v : Value) → HasText v → May HasText v
unfolding HasText
May-text null h = absurd h
May-text (int _) h = h
May-text (str _) h = h
May-text (constr _ _) h = h
May-text (var _) h = h
May-text (lam _ _) h = h
May-text (Value.nslit _) h = h

Gives-May : {m : Gen Value} → Gives HasText m → Gives (May HasText) m
Gives-May h = record { at = λ n. May-text _ (h.at n) }

alge-AsExpr :
    (c : Bytes) (es : List Sub)
    → Misses expr_keywords (c_string c)
    → Gives HasText (lower_alge_value c es)
    → Gives AsExpr (lower_alge_value c es)
unfolding lower_alge_value ◌>>=◌ pure
alge-AsExpr c es m h = record { at = λ n. (h.at n, constr_or_null-Misses (c_string c) _ m) }

-- values that are no constructors
abbrev NoConstr : Value → Type 0
NoConstr (constr _ _) = ⊥
NoConstr _ = Unit

NoConstr-AsExpr : (v : Value) → NoConstr v → HasText v → AsExpr v
NoConstr-AsExpr (constr _ _) n h = absurd n
NoConstr-AsExpr null n h = (h, tt)
NoConstr-AsExpr (int _) n h = (h, tt)
NoConstr-AsExpr (str _) n h = (h, tt)
NoConstr-AsExpr (var _) n h = (h, tt)
NoConstr-AsExpr (lam _ _) n h = (h, tt)
NoConstr-AsExpr (Value.nslit _) n h = (h, tt)

lam_or_null-NoConstr : (x : Bytes) (b : Expr) → NoConstr (lam_or_null x b)
unfolding lam_or_null when_no_expr
lam_or_null-NoConstr x no_expr = tt
lam_or_null-NoConstr x (val _) = tt
lam_or_null-NoConstr x (let1 _ _ _) = tt
lam_or_null-NoConstr x (app _ _) = tt
lam_or_null-NoConstr x (ife _ _ _) = tt
lam_or_null-NoConstr x (effapp _ _ _) = tt
lam_or_null-NoConstr x token = tt
lam_or_null-NoConstr x (match1 _ _) = tt

nslit_or_null-NoConstr : (o : Option Members) → NoConstr (nslit_or_null o)
unfolding nslit_or_null
nslit_or_null-NoConstr none = tt
nslit_or_null-NoConstr (some ms) = tt

lambda-AsExpr :
    (p : Pat) (m : Gen Expr)
    → Gives HasText (lower_lambda_value p m)
    → Gives AsExpr (lower_lambda_value p m)
unfolding lower_lambda_value ◌>>=◌ pure
lambda-AsExpr p m h = record {
  at = λ n. NoConstr-AsExpr _ (lam_or_null-NoConstr (extract_pat_name p) ((m n).0)) (h.at n);
}

nslit-AsExpr :
    (ms : List SubMember)
    → Gives HasText (lower_nslit_value ms)
    → Gives AsExpr (lower_nslit_value ms)
unfolding lower_nslit_value ◌>>=◌ pure
nslit-AsExpr ms h = record {
  at = λ n. NoConstr-AsExpr _ (nslit_or_null-NoConstr ((lower_entries ms n).0)) (h.at n);
}

int-text : (i : ℤ) → IsLong i → Gives AsExpr (pure (int i))
unfolding HasText
int-text i h = Gives-pure (int i) (h, tt)

c_string-IsQuotable : (s : Bytes) → IsQuotable s → IsQuotable (c_string s)
unfolding c_string
c_string-IsQuotable [] h = tt
c_string-IsQuotable (b ∷ s) (h, hs) = elim (Bool-cases (b == 0)) [
  | inl e ↦ rw e tt
  | inr e ↦ rw e (h, c_string-IsQuotable s hs)
]

str-text : (s : Bytes) → IsQuotable s → Gives AsExpr (pure (str (c_string s)))
unfolding HasText
str-text s h = Gives-pure (str (c_string s)) (c_string-IsQuotable s h, tt)

var-text : (x : Bytes) → IsName x → Gives AsExpr (pure (var x))
unfolding HasText
var-text x h = Gives-pure (var x) (h, tt)

Gives-value : {m : Gen Value} → Gives AsExpr m → Gives HasText m
Gives-value h = record { at = λ n. (h.at n).0 }

head-text :
    (o : Option Bytes) (f : Sub) {P : Type 0}
    → PlainHead o P
    → (P → GoodSub text_closed f)
    → GoodHead text_closed o f
unfolding HasText
head-text none f h k = k h
head-text (some sym) f h k = h

module _ (c : Platform) where
  mutual
    unfolding lower_value lower_expr IsPlain IsPlainValue

    value-text : (e : Ast.Syntax.Expr) → IsPlainValue c e → Gives HasText (lower_value c e)
    value-text (Ast.Syntax.int n) h = Gives-value (int-text _ h)
    value-text (Ast.Syntax.str s) h = Gives-value (str-text s h)
    value-text (Ast.Syntax.ref r) h = Gives-value (var-text (c_string r) h)
    value-text (alge k es) (n, m, h) = alge-text k (lower_subs c es) n m (values-text es h)
    value-text (lambda p b) (n, h) = lambda-text p (lower_expr c b) n (expr-text b h)
    value-text (nslit ms) h = nslit-text (lower_members c ms) (members-text ms h)
    value-text (appl _ _) h = absurd h
    value-text (choice _ _ _) h = absurd h
    value-text (closure _ _) h = absurd h
    value-text (symbol _) h = absurd h
    value-text (raise _) h = absurd h

    value-May : (e : Ast.Syntax.Expr) → IsPlain c e → Gives (May HasText) (lower_value c e)
    value-May (Ast.Syntax.int n) h = Gives-May (Gives-value (int-text _ h))
    value-May (Ast.Syntax.str s) h = Gives-May (Gives-value (str-text s h))
    value-May (Ast.Syntax.ref r) h = Gives-May (Gives-value (var-text (c_string r) h))
    value-May (alge k es) ((n, m, h), _) =
        Gives-May (alge-text k (lower_subs c es) n m (values-text es h))
    value-May (lambda p b) (n, h) = Gives-May (lambda-text p (lower_expr c b) n (expr-text b h))
    value-May (nslit ms) h = Gives-May (nslit-text (lower_members c ms) (members-text ms h))
    value-May (appl _ _) h = Gives-pure null tt
    value-May (choice _ _ _) h = Gives-pure null tt
    value-May (closure _ _) h = Gives-pure null tt
    value-May (symbol _) h = absurd h
    value-May (raise _) h = absurd h

    expr-text : (e : Ast.Syntax.Expr) → IsPlain c e → Gives ExprHasText (lower_expr c e)
    expr-text (appl f es) (h, hs) =
        lower_appl-E text_closed c.then_first f (sub c f) (lower_subs c es)
          (head-text (prelude_sym f) (sub c f) h (λ k. (value-May f k, expr-text f k)))
          (subs-text es hs)
    expr-text (choice k l r) (h, h') =
        lower_choice-E text_closed k (sub c l) (sub c r) (value-May l h, expr-text l h)
          (value-May r h', expr-text r h')
    expr-text (closure e bs) (h, hs) =
        closure-text (lower_expr c e) (lower_binds c bs) (expr-text e h) (binds-text bs hs)
    expr-text (Ast.Syntax.int n) h = default-text _ (int-text _ h)
    expr-text (Ast.Syntax.str s) h = default-text _ (str-text s h)
    expr-text (Ast.Syntax.ref r) h = default-text _ (var-text (c_string r) h)
    expr-text (alge k es) ((n, m, h), m') =
        default-text (lower_alge_value k (lower_subs c es)) (
          alge-AsExpr k (lower_subs c es) m' (alge-text k (lower_subs c es) n m (values-text es h)))
    expr-text (lambda p b) (n, h) =
        default-text (lower_lambda_value p (lower_expr c b))
          (lambda-AsExpr p (lower_expr c b) (lambda-text p (lower_expr c b) n (expr-text b h)))
    expr-text (nslit ms) h =
        default-text (lower_nslit_value (lower_members c ms))
          (nslit-AsExpr (lower_members c ms) (nslit-text (lower_members c ms) (members-text ms h)))
    expr-text (symbol _) h = absurd h
    expr-text (raise _) h = absurd h

    values-text : (es : Exprs) → ArePlainValues c es → Gives ArgsText (lower_args (lower_subs c es))
    values-text no_exprs h = no_args-text
    values-text (expr e es) (h, hs) =
        args-text (sub c e) (lower_subs c es) (value-text e h) (values-text es hs)

    subs-text : (es : Exprs) → ArePlain c es → All (GoodSub text_closed) (lower_subs c es)
    subs-text no_exprs h = tt
    subs-text (expr e es) (h, hs) = ((value-May e h, expr-text e h), subs-text es hs)

    binds-text :
        (bs : Binds)
        → BindsArePlain c bs
        → (body : Expr) → ExprHasText body
        → Gives ExprHasText (lower_bindings (lower_binds c bs) body)
    binds-text no_binds h body k = no_bindings-text body k
    binds-text (bind p e bs) (n, h, hs) body k =
        bindings-text (record { lhs = p; rhs = lower_expr c e }) (lower_binds c bs) body n
          (expr-text e h) (binds-text bs hs body k)

    members-text :
        (ms : Ast.Syntax.Members)
        → MembersArePlain c ms
        → Gives EntriesText (lower_entries (lower_members c ms))
    members-text Ast.Syntax.no_members h = no_entries-text
    members-text (Ast.Syntax.member x e ms) (n, h, hs) =
        entries-text (record { name = x; rhs = lower_value c e }) (lower_members c ms) n
          (value-text e h) (members-text ms hs)

-- The lowering of a plain syntax tree is printed and read back as it was, names that were generated
-- on the way included, with the fuel that the lowered program needs.
pub read_text-lower_expr :
    (c : Platform) (e : Ast.Syntax.Expr) (n fuel : ℕ)
    → IsPlain c e
    → expr_size ((lower_expr c e n).0) ≤ fuel
    → read_text fuel (print_program ((lower_expr c e n).0))
      ≡ got (program ((lower_expr c e n).0)) (10 ∷ [])
read_text-lower_expr c e n fuel h le = read_text-print_program fuel _ ((expr-text c e h).at n) le
