-- ===== src/CoreIr/Lower/Nulls/Forms.antt =====
-- The induction over the syntax tree for the NULL results of the lowering.
use lazyscript.Prelude.{ℕ, Bool, true, false, ◌&&◌, ◌≡◌, refl, List, [], ◌∷◌, Bytes}
use lazyscript.Ast.Syntax.{
  Exprs, Binds, appl, choice, closure, symbol, raise, lambda, alge, nslit, no_exprs, expr, no_binds,
  bind,
}
use lazyscript.Ast
use lazyscript.Prelude.Int.{ℤ}
use lazyscript.CoreIr.Syntax.{Value, Expr, null, var}
use lazyscript.CoreIr.Lower.Monad.{Gen, pure}
use lazyscript.CoreIr.Lower.Heads.{c_string, after_dot}
use lazyscript.CoreIr.Lower.{
  Platform, Sub, SubBind, SubMember, when_null, add_value, lower_args, constr_or_null,
  lower_alge_value, lam_or_null, extract_pat_name, lower_lambda_value, add_member, lower_entries,
  nslit_or_null, lower_nslit_value, lower_bindings, lower_closure, val_or_null, lower_default,
  lower_value, lower_expr, lower_subs, lower_binds, lower_members, sub,
}
use lazyscript.CoreIr.Lower.Closed.{Gives-pure}
use lazyscript.CoreIr.Lower.Nulls.{
  is_ref, has_value, has_form, have_values, binds_have_form, members_have_values, is_given,
  is_given_value, is_some, Tells, TellsValue, TellsOption, lower_appl-given, lower_choice-given,
  add_value-some, add_member-some, loop-Tells, constr_or_null-given, nslit_or_null-given,
  lam_or_null-given, val_or_null-given, map-given, lower_bind-given, then_given,
}

args-Tells :
    (e : Sub) (es : List Sub) (p q : Bool)
    → TellsValue p e.to_value
    → TellsOption q (lower_args es)
    → TellsOption (p && q) (lower_args (e ∷ es))
unfolding lower_args
args-Tells e es p q h k = loop-Tells add_value p q _ _ add_value-some h k

entries-Tells :
    (m : SubMember) (ms : List SubMember) (p q : Bool)
    → TellsValue p m.rhs
    → TellsOption q (lower_entries ms)
    → TellsOption (p && q) (lower_entries (m ∷ ms))
unfolding lower_entries
entries-Tells m ms p q h k =
    loop-Tells (add_member (after_dot (c_string m.name))) p q _ _ (add_member-some _) h k

alge-Tells :
    (c : Bytes) (es : List Sub) (p : Bool)
    → TellsOption p (lower_args es)
    → TellsValue p (lower_alge_value c es)
unfolding lower_alge_value
alge-Tells c es p h =
    map-given is_some is_given_value (constr_or_null (c_string c)) _ p
      (constr_or_null-given (c_string c)) h

nslit-Tells :
    (ms : List SubMember) (p : Bool)
    → TellsOption p (lower_entries ms)
    → TellsValue p (lower_nslit_value ms)
unfolding lower_nslit_value
nslit-Tells ms p h = map-given is_some is_given_value nslit_or_null _ p nslit_or_null-given h

lambda-Tells :
    (x : Ast.Pattern.Pat) (m : Gen Expr) (p : Bool)
    → Tells p m
    → TellsValue p (lower_lambda_value x m)
unfolding lower_lambda_value
lambda-Tells x m p h =
    map-given is_given is_given_value (lam_or_null (extract_pat_name x)) m p (lam_or_null-given _) h

default-Tells : (m : Gen Value) (p : Bool) → TellsValue p m → Tells p (lower_default m)
unfolding lower_default
default-Tells m p h = map-given is_given_value is_given val_or_null m p val_or_null-given h

bindings-Tells :
    (b : SubBind) (bs : List SubBind) (body : Expr) (p q : Bool)
    → Tells q (lower_bindings bs body)
    → Tells p b.rhs
    → Tells (q && (is_ref b.lhs && p)) (lower_bindings (b ∷ bs) body)
unfolding lower_bindings
bindings-Tells b bs body p q h k = then_given q _ _ _ h (λ e _. lower_bind-given b.lhs b.rhs e p k)

closure-Tells :
    (m : Gen Expr) (bs : List SubBind) (p q : Bool)
    → Tells p m
    → ((e : Expr) → is_given e ≡ true → Tells q (lower_bindings bs e))
    → Tells (p && q) (lower_closure m bs)
unfolding lower_closure
closure-Tells m bs p q h k = then_given p q m _ h k

no_bindings-Tells : (body : Expr) → is_given body ≡ true → Tells true (lower_bindings [] body)
unfolding lower_bindings
no_bindings-Tells body h = Gives-pure body h

value-Tells : (v : Value) → is_given_value v ≡ true → TellsValue true (pure v)
value-Tells v h = Gives-pure v h

null-Tells : TellsValue false (pure null)
unfolding is_given_value when_null
null-Tells = Gives-pure null refl

no_args-Tells : TellsOption true (lower_args [])
unfolding lower_args
no_args-Tells = Gives-pure _ refl

no_entries-Tells : TellsOption true (lower_entries [])
unfolding lower_entries
no_entries-Tells = Gives-pure _ refl

int-given : (n : ℤ) → is_given_value (Value.int n) ≡ true
unfolding is_given_value when_null
int-given n = refl

str-given : (s : Bytes) → is_given_value (Value.str s) ≡ true
unfolding is_given_value when_null
str-given n = refl

var-given : (s : Bytes) → is_given_value (var s) ≡ true
unfolding is_given_value when_null
var-given n = refl

module _ (c : Platform) where
  mutual
    unfolding lower_value lower_expr has_value has_form

    value-form : (e : Ast.Syntax.Expr) → TellsValue (has_value e) (lower_value c e)
    value-form (Ast.Syntax.int n) = value-Tells _ (int-given _)
    value-form (Ast.Syntax.str s) = value-Tells _ (str-given (c_string s))
    value-form (Ast.Syntax.ref r) = value-Tells _ (var-given (c_string r))
    value-form (alge k es) = alge-Tells k (lower_subs c es) _ (args-form es)
    value-form (lambda p b) = lambda-Tells p (lower_expr c b) _ (expr-form b)
    value-form (nslit ms) = nslit-Tells (lower_members c ms) _ (members-form ms)
    value-form (appl _ _) = null-Tells
    value-form (choice _ _ _) = null-Tells
    value-form (closure _ _) = null-Tells
    value-form (symbol _) = null-Tells
    value-form (raise _) = null-Tells

    expr-form : (e : Ast.Syntax.Expr) → Tells (has_form e) (lower_expr c e)
    expr-form (appl f es) = lower_appl-given c.then_first f (sub c f) (lower_subs c es)
    expr-form (choice k l r) = lower_choice-given k (sub c l) (sub c r)
    expr-form (closure e bs) =
        closure-Tells (lower_expr c e) (lower_binds c bs) _ _ (expr-form e) (binds-form bs)
    expr-form (Ast.Syntax.int n) = default-Tells _ _ (value-Tells _ (int-given _))
    expr-form (Ast.Syntax.str s) = default-Tells _ _ (value-Tells _ (str-given (c_string s)))
    expr-form (Ast.Syntax.ref r) = default-Tells _ _ (value-Tells _ (var-given (c_string r)))
    expr-form (alge k es) = default-Tells _ _ (alge-Tells k (lower_subs c es) _ (args-form es))
    expr-form (lambda p b) = default-Tells _ _ (lambda-Tells p (lower_expr c b) _ (expr-form b))
    expr-form (nslit ms) = default-Tells _ _ (nslit-Tells (lower_members c ms) _ (members-form ms))
    expr-form (symbol _) = default-Tells _ _ null-Tells
    expr-form (raise _) = default-Tells _ _ null-Tells

    args-form : (es : Exprs) → TellsOption (have_values es) (lower_args (lower_subs c es))
    args-form no_exprs = no_args-Tells
    args-form (expr e es) = args-Tells (sub c e) (lower_subs c es) _ _ (value-form e) (args-form es)

    binds-form :
        (bs : Binds) (body : Expr)
        → is_given body ≡ true
        → Tells (binds_have_form bs) (lower_bindings (lower_binds c bs) body)
    binds-form no_binds body h = no_bindings-Tells body h
    binds-form (bind p e bs) body h =
        bindings-Tells (record { lhs = p; rhs = lower_expr c e }) (lower_binds c bs) body _ _
          (binds-form bs body h) (expr-form e)

    members-form :
        (ms : Ast.Syntax.Members)
        → TellsOption (members_have_values ms) (lower_entries (lower_members c ms))
    members-form Ast.Syntax.no_members = no_entries-Tells
    members-form (Ast.Syntax.member x e ms) =
        entries-Tells (record { name = x; rhs = lower_value c e }) (lower_members c ms) _ _
          (value-form e) (members-form ms)

-- Lowering an expression gives a Core IR expression, and not NULL, exactly when the syntax tree has a
-- form: applications and choices always have one, a symbol and a raise never, a constructor or a
-- namespace if all its parts are values, a lambda if its body has one, and a closure if its body has
-- one, each binding binds a plain reference, and each right side has a form. The result does not
-- depend on the names generated before.
pub lower_expr-is_given :
    (c : Platform) (e : Ast.Syntax.Expr) (n : ℕ) → is_given ((lower_expr c e n).0) ≡ has_form e
lower_expr-is_given c e n = (expr-form c e).at n
