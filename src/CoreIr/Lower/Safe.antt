-- ===== src/CoreIr/Lower/Safe.antt =====
-- The lowering followed by the validator and by the evaluator of the Core IR.
use lazyscript.Prelude.{ℕ, Bool, false, ◌≡◌, ◌≢◌, refl, Option, none, some, Bytes, All}
use lazyscript.Ast.Syntax.{
  Exprs, Binds, appl, choice, closure, symbol, raise, lambda, alge, nslit, no_exprs, expr, no_binds,
  bind,
}
use lazyscript.Ast
use lazyscript.CoreIr.Syntax.{
  Value, Values, Members, Expr, null, no_expr, val, let1, app, ife, effapp, token, match1,
  no_values, value, no_members, member, constr, lam, var,
}
use lazyscript.CoreIr.Effects.{
  clean, validate_val, validate_vals, validate_members, validate_expr, validate_effects,
}
use lazyscript.CoreIr.Eval.{fault, run_program}
use lazyscript.CoreIr.Eval.Safety.{
  IsWhole, IsWholeValue, IsWholeValues, IsWholeMembers, run_program-ne-fault,
}
use lazyscript.CoreIr.Lower.Monad.{pure}
use lazyscript.Prelude.Int.{ℤ}
use lazyscript.CoreIr.Lower.Heads.{c_string, prelude_sym}
use lazyscript.CoreIr.Lower.{
  Platform, Sub, lower_value, lower_expr, lower_subs, lower_binds, lower_members, lower_prog,
}
use lazyscript.CoreIr.Lower.Closed.{
  Gives, Gives-pure, GoodSub, GoodHead, lower_appl-E, lower_choice-E,
}
use lazyscript.CoreIr.Lower.Pure.{
  IsPure, IsPureValue, ArePure, MembersArePure, pure_closed, MayPure, GoodMember, GoodBind,
  lower_alge_value-pure, lower_lambda_value-pure, lower_nslit_value-pure, lower_closure-pure,
  lower_default-pure,
}

head-pure : (o : Option Bytes) (f : Sub) → GoodSub pure_closed f → GoodHead pure_closed o f
unfolding IsPureValue
head-pure none f h = h
head-pure (some sym) f h = tt

int-pure : (i : ℤ) → Gives MayPure (pure (Value.int i))
unfolding IsPureValue
int-pure i = Gives-pure (Value.int i) tt

str-pure : (s : Bytes) → Gives MayPure (pure (Value.str s))
unfolding IsPureValue
str-pure s = Gives-pure (Value.str s) tt

var-pure : (x : Bytes) → Gives MayPure (pure (var x))
unfolding IsPureValue
var-pure x = Gives-pure (var x) tt

module _ (c : Platform) where
  mutual
    unfolding lower_value lower_expr

    lower_value-pure : (e : Ast.Syntax.Expr) → Gives MayPure (lower_value c e)
    lower_value-pure (Ast.Syntax.int n) = int-pure _
    lower_value-pure (Ast.Syntax.str s) = str-pure (c_string s)
    lower_value-pure (Ast.Syntax.ref r) = var-pure (c_string r)
    lower_value-pure (alge k es) = lower_alge_value-pure k _ (lower_subs-pure es)
    lower_value-pure (lambda p b) = lower_lambda_value-pure p _ (lower_expr-pure b)
    lower_value-pure (nslit ms) = lower_nslit_value-pure _ (lower_members-pure ms)
    lower_value-pure (appl _ _) = Gives-pure null tt
    lower_value-pure (choice _ _ _) = Gives-pure null tt
    lower_value-pure (closure _ _) = Gives-pure null tt
    lower_value-pure (symbol _) = Gives-pure null tt
    lower_value-pure (raise _) = Gives-pure null tt

    lower_expr-pure : (e : Ast.Syntax.Expr) → Gives IsPure (lower_expr c e)
    lower_expr-pure (appl f es) =
        lower_appl-E pure_closed c.then_first f _ _
          (head-pure (prelude_sym f) _ (lower_value-pure f, lower_expr-pure f)) (lower_subs-pure es)
    lower_expr-pure (choice k l r) =
        lower_choice-E pure_closed k _ _ (lower_value-pure l, lower_expr-pure l)
          (lower_value-pure r, lower_expr-pure r)
    lower_expr-pure (closure e bs) =
        lower_closure-pure _ _ (lower_expr-pure e) (lower_binds-pure bs)
    lower_expr-pure (Ast.Syntax.int n) = lower_default-pure _ (int-pure _)
    lower_expr-pure (Ast.Syntax.str s) = lower_default-pure _ (str-pure (c_string s))
    lower_expr-pure (Ast.Syntax.ref r) = lower_default-pure _ (var-pure (c_string r))
    lower_expr-pure (alge k es) =
        lower_default-pure _ (lower_alge_value-pure k _ (lower_subs-pure es))
    lower_expr-pure (lambda p b) =
        lower_default-pure _ (lower_lambda_value-pure p _ (lower_expr-pure b))
    lower_expr-pure (nslit ms) =
        lower_default-pure _ (lower_nslit_value-pure _ (lower_members-pure ms))
    lower_expr-pure (symbol _) = lower_default-pure _ (Gives-pure null tt)
    lower_expr-pure (raise _) = lower_default-pure _ (Gives-pure null tt)

    lower_subs-pure : (es : Exprs) → All (GoodSub pure_closed) (lower_subs c es)
    lower_subs-pure no_exprs = tt
    lower_subs-pure (expr e es) = ((lower_value-pure e, lower_expr-pure e), lower_subs-pure es)

    lower_binds-pure : (bs : Binds) → All GoodBind (lower_binds c bs)
    lower_binds-pure no_binds = tt
    lower_binds-pure (bind p e bs) = (lower_expr-pure e, lower_binds-pure bs)

    lower_members-pure : (ms : Ast.Syntax.Members) → All GoodMember (lower_members c ms)
    lower_members-pure Ast.Syntax.no_members = tt
    lower_members-pure (Ast.Syntax.member x e ms) = (lower_value-pure e, lower_members-pure ms)

  lower_prog-pure : (o : Option Ast.Syntax.Expr) → Gives IsPure (lower_prog c o)
  unfolding lower_prog
  lower_prog-pure none = unfold IsPure in Gives-pure no_expr tt
  lower_prog-pure (some e) = lower_expr-pure e

mutual
  unfolding IsPure IsPureValue ArePure MembersArePure validate_val validate_expr

  validate_val-pure : (v : Value) (t : Bool) → IsPureValue v → validate_val v t ≡ clean
  validate_val-pure (lam p b) t h = validate_expr-pure b false h
  validate_val-pure (Value.nslit ms) t h = validate_members-pure ms t h
  validate_val-pure _ t h = refl

  validate_vals-pure : (vs : Values) (t : Bool) → ArePure vs → validate_vals vs t ≡ clean
  validate_vals-pure no_values t h = refl
  validate_vals-pure (value v vs) t (h, k) = rw (validate_val-pure v t h, validate_vals-pure vs t k)

  validate_members-pure :
      (ms : Members) (t : Bool) → MembersArePure ms → validate_members ms t ≡ clean
  validate_members-pure no_members t h = refl
  validate_members-pure (member x v ms) t (h, k) =
      rw (validate_val-pure v t h, validate_members-pure ms t k)

  validate_expr-pure : (e : Expr) (t : Bool) → IsPure e → validate_expr e t ≡ clean
  validate_expr-pure no_expr t h = refl
  validate_expr-pure (val v) t h = validate_val-pure v t h
  validate_expr-pure (let1 x a b) t (h, k) = rw (validate_expr-pure a t h, validate_expr-pure b _ k)
  validate_expr-pure (app f vs) t (h, k) = rw (validate_val-pure f t h, validate_vals-pure vs t k)
  validate_expr-pure (ife c a b) t (h, k, l) =
      rw (validate_val-pure c t h, validate_expr-pure a t k, validate_expr-pure b t l)
  validate_expr-pure (effapp _ _ _) t h = absurd h
  validate_expr-pure token t h = refl
  validate_expr-pure (match1 _ _) t h = absurd h

-- Every lowered program passes the effect validator: it reports no error and writes nothing,
-- whatever the syntax tree and the number of names that were generated before.
pub validate_effects-lower_prog :
    (c : Platform) (o : Option Ast.Syntax.Expr) (n : ℕ)
    → validate_effects ((lower_prog c o n).0) ≡ clean
unfolding validate_effects
validate_effects-lower_prog c o n = validate_expr-pure _ false ((lower_prog-pure c o).at n)

mutual
  unfolding IsPure IsPureValue ArePure MembersArePure IsWhole IsWholeValue

  value-IsWhole : (v : Value) → IsPureValue v → IsWholeValue v
  value-IsWhole null h = absurd h
  value-IsWhole (constr c vs) h = values-IsWhole vs h
  value-IsWhole (lam x b) h = expr-IsWhole b h
  value-IsWhole (Value.nslit ms) h = members-IsWhole ms h
  value-IsWhole _ h = tt

  values-IsWhole : (vs : Values) → ArePure vs → IsWholeValues vs
  values-IsWhole no_values h = tt
  values-IsWhole (value v vs) h = (value-IsWhole v (h.0), values-IsWhole vs (h.1))

  members-IsWhole : (ms : Members) → MembersArePure ms → IsWholeMembers ms
  members-IsWhole no_members h = tt
  members-IsWhole (member x v ms) h = (value-IsWhole v (h.0), members-IsWhole ms (h.1))

  expr-IsWhole : (e : Expr) → IsPure e → IsWhole e
  expr-IsWhole no_expr h = tt
  expr-IsWhole (val v) h = value-IsWhole v h
  expr-IsWhole (let1 x a b) h = (expr-IsWhole a (h.0), expr-IsWhole b (h.1))
  expr-IsWhole (app f vs) h = (value-IsWhole f (h.0), values-IsWhole vs (h.1))
  expr-IsWhole (ife c a b) h = (value-IsWhole c (h.0), expr-IsWhole a (h.1), expr-IsWhole b (h.2))
  expr-IsWhole (effapp _ _ _) h = absurd h
  expr-IsWhole token h = absurd h
  expr-IsWhole (match1 _ _) h = absurd h

-- A run of a lowered program never reads through NULL, nor an array that is gone, with any fuel,
-- whatever the syntax tree, even where the lowering gives NULL for parts of it.
pub run_program-lower_prog :
    (c : Platform) (o : Option Ast.Syntax.Expr) (n fuel : ℕ)
    → run_program fuel ((lower_prog c o n).0) ≢ fault
run_program-lower_prog c o n fuel =
    run_program-ne-fault fuel _ (expr-IsWhole _ ((lower_prog-pure c o).at n))
