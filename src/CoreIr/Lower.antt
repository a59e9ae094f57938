-- ===== src/CoreIr/Lower.antt =====
-- The lowering of the syntax tree to the Core IR, src/coreir/cir_lower_print.c. NULL is `null` or
-- `no_expr`. The static counter of `cir_gensym` is passed along, and does not overflow.
pub mod Heads
pub mod Monad
pub mod Closed
pub mod Pure
pub mod Safe
pub mod Nulls
pub mod Plain
pub mod Texts
pub mod Printed
mod Tests
use lazyscript.Prelude.{
  Bool, true, false, Option, none, some, List, [], ◌∷◌, ◌++◌, Bytes, codes, if◌then◌else◌,
}
use lazyscript.Prelude.Int.{ℤ}
use lazyscript.Common.LsInt
use lazyscript.Ast.Pattern.{Pat, ref, print_pat, prec_lowest}
use lazyscript.Ast.Syntax.{
  ChoiceKind, Exprs, Binds, int, str, alge, appl, lambda, closure, choice, nslit, symbol, raise,
  no_exprs, expr, no_binds, bind,
}
use lazyscript.Ast
use lazyscript.CoreIr.Syntax.{
  Value, Values, Members, Expr, null, no_expr, val, let1, app, ife, no_values, value, no_members,
  member,
}
use lazyscript.CoreIr.Lower.Monad.{Gen, ◌>>=◌, pure, gensym}
use lazyscript.CoreIr.Lower.Heads.{c_string, after_dot, prelude_sym, is_ifthenelse}

-- What the code takes from its platform: `atoll`, and the order in which the compiler evaluates the
-- two lowered arms among the arguments of `mk_exp_if`, which C leaves open.
pub record Platform : Type 0 where
  pub atoll : Bytes → ℤ
  pub then_first : Bool

-- a subexpression, by what `lower_value` and `lower_expr` do with it
pub record Sub : Type 0 where
  pub to_value : Gen Value
  pub to_expr : Gen Expr

-- the binding of a closure, with what `lower_expr` does with its right side
pub record SubBind : Type 0 where
  pub lhs : Pat
  pub rhs : Gen Expr

-- the entry of a namespace literal, with what `lower_value` does with its expression
pub record SubMember : Type 0 where
  pub name : Bytes
  pub rhs : Gen Value

-- a name that stands for a subexpression, and what will be bound to it
pub record Let : Type 0 where
  pub name : Bytes
  pub to_expr : Gen Expr

unfoldable pub extract_pat_name : Pat → Bytes
unfolding print_pat c_string
extract_pat_name (ref r) = c_string r
extract_pat_name p = c_string (print_pat prec_lowest p)

-- if (!v) a else b
unfoldable pub when_null {ℓ} : {A : Type ℓ} → Value → A → A → A
when_null null a b = a
when_null _ a b = b

-- if (!e) a else b
unfoldable pub when_no_expr {ℓ} : {A : Type ℓ} → Expr → A → A → A
when_no_expr no_expr a b = a
when_no_expr _ a b = b

-- The arguments of a constructor: the loop ends at the first that is no value.
unfoldable pub add_value : Value → Option Values → Option Values
add_value v none = none
add_value v (some vs) = some (value v vs)

unfoldable pub lower_args : List Sub → Gen (Option Values)
unfolding ◌>>=◌ pure add_value when_null
lower_args [] = pure (some no_values)
lower_args (e ∷ es) = do
  v ← e.to_value
  when_null v (pure none) (do vs ← lower_args es; pure (add_value v vs))

unfoldable pub constr_or_null : Bytes → Option Values → Value
constr_or_null c none = null
constr_or_null c (some vs) = Value.constr c vs

unfoldable pub lower_alge_value : Bytes → List Sub → Gen Value
unfolding ◌>>=◌ pure lower_args constr_or_null c_string
lower_alge_value c es = do vs ← lower_args es; pure (constr_or_null (c_string c) vs)

unfoldable pub lam_or_null : Bytes → Expr → Value
unfolding when_no_expr
lam_or_null x b = when_no_expr b null (Value.lam x b)

unfoldable pub lower_lambda_value : Pat → Gen Expr → Gen Value
unfolding ◌>>=◌ pure extract_pat_name lam_or_null
lower_lambda_value p body = do b ← body; pure (lam_or_null (extract_pat_name p) b)

-- The entries of a namespace literal, in the same way.
unfoldable pub add_member : Bytes → Value → Option Members → Option Members
add_member x v none = none
add_member x v (some ms) = some (member x v ms)

unfoldable pub lower_entries : List SubMember → Gen (Option Members)
unfolding ◌>>=◌ pure c_string after_dot when_null add_member
lower_entries [] = pure (some no_members)
lower_entries (m ∷ ms) = do
  v ← m.rhs
  when_null v (pure none)
      (do rest ← lower_entries ms; pure (add_member (after_dot (c_string m.name)) v rest))

unfoldable pub nslit_or_null : Option Members → Value
nslit_or_null none = null
nslit_or_null (some ms) = Value.nslit ms

unfoldable pub lower_nslit_value : List SubMember → Gen Value
unfolding ◌>>=◌ pure lower_entries nslit_or_null
lower_nslit_value ms = do entries ← lower_entries ms; pure (nslit_or_null entries)

-- Bindings, from the last one outwards. A pattern that is no reference gives NULL.
unfoldable pub let_or_null : Bytes → Expr → Expr → Expr
unfolding when_no_expr
let_or_null x rhs body = when_no_expr rhs no_expr (let1 x rhs body)

unfoldable pub lower_bind : Pat → Gen Expr → Expr → Gen Expr
unfolding ◌>>=◌ pure let_or_null c_string
lower_bind (ref x) rhs body = do r ← rhs; pure (let_or_null (c_string x) r body)
lower_bind _ rhs body = pure no_expr

unfoldable pub lower_bindings : List SubBind → Expr → Gen Expr
unfolding ◌>>=◌ pure lower_bind when_no_expr
lower_bindings [] body = pure body
lower_bindings (b ∷ bs) body = do
  inner ← lower_bindings bs body
  when_no_expr inner (pure no_expr) (lower_bind b.lhs b.rhs inner)

unfoldable pub lower_closure : Gen Expr → List SubBind → Gen Expr
unfolding ◌>>=◌ pure lower_bindings when_no_expr
lower_closure body bs = do b ← body; when_no_expr b (pure no_expr) (lower_bindings bs b)

-- A value that is NULL is replaced by a new variable, which a `let` will bind.
unfoldable pub named : Bytes → Value → Gen Expr → Gen (Value × List Let)
unfolding ◌>>=◌ pure gensym when_null
named pfx v m =
    when_null v (do x ← gensym pfx; pure (Value.var x, record { name = x; to_expr = m } ∷ []))
      (pure (v, []))

unfoldable pub name_sub : Bytes → Sub → Gen (Value × List Let)
unfolding ◌>>=◌ named
name_sub pfx e = do v ← e.to_value; named pfx v e.to_expr

unfoldable pub name_args : List Sub → Gen (Values × List Let)
unfolding ◌>>=◌ pure name_sub
name_args [] = pure (no_values, [])
name_args (e ∷ es) = do
  a ← name_sub (codes "a$") e
  rest ← name_args es
  pure (value (a.0) (rest.0), a.1 ++ rest.1)

-- for (i = letc - 1; i >= 0; i--) core = let(names[i], lower(exprs[i]), core)
unfoldable pub bind_lets : List Let → Expr → Gen Expr
unfolding ◌>>=◌ pure
bind_lets [] core = pure core
bind_lets (l ∷ ls) core = do inner ← bind_lets ls core; b ← l.to_expr; pure (let1 l.name b inner)

unfoldable pub arms : Bool → Gen Expr → Gen Expr → Gen (Expr × Expr)
unfolding ◌>>=◌ pure
arms true t e = do a ← t; b ← e; pure (a, b)
arms false t e = do b ← e; a ← t; pure (a, b)

unfoldable pub lower_if : Bool → Sub → Gen Expr → Gen Expr → Gen Expr
unfolding ◌>>=◌ name_sub arms bind_lets
lower_if then_first c t e = do
  cond ← name_sub (codes "c$") c
  ab ← arms then_first t e
  bind_lets (cond.1) (ife (cond.0) (ab.0) (ab.1))

unfoldable pub lower_member_app : Bytes → List Sub → Gen Expr
unfolding ◌>>=◌ name_args bind_lets
lower_member_app sym es = do args ← name_args es; bind_lets (args.1) (app (Value.var sym) (args.0))

unfoldable pub lower_app : Sub → List Sub → Gen Expr
unfolding ◌>>=◌ name_args name_sub bind_lets
lower_app f es = do
  args ← name_args es
  fun ← name_sub (codes "f$") f
  core ← bind_lets (args.1) (app (fun.0) (args.0))
  bind_lets (fun.1) core

unfoldable pub lower_appl_of : Option Bytes → Sub → List Sub → Gen Expr
unfolding lower_member_app lower_app
lower_appl_of (some sym) f es = lower_member_app sym es
lower_appl_of none f es = lower_app f es

unfoldable pub lower_appl : Bool → Ast.Syntax.Expr → Sub → List Sub → Gen Expr
unfolding is_ifthenelse prelude_sym lower_if lower_appl_of
lower_appl then_first fe f (c ∷ t ∷ e ∷ []) =
    if is_ifthenelse fe
    then lower_if then_first c t.to_expr e.to_expr
    else lower_appl_of (prelude_sym fe) f (c ∷ t ∷ e ∷ [])
lower_appl then_first fe f es = lower_appl_of (prelude_sym fe) f es

unfoldable pub choice_operator : ChoiceKind → Bytes
choice_operator ChoiceKind.lambda = codes "choice.lambda"
choice_operator ChoiceKind.expr = codes "choice.expr"
choice_operator ChoiceKind.catch = codes "choice.catch"

-- Both sides are tried as values before either is named.
unfoldable pub lower_choice : ChoiceKind → Sub → Sub → Gen Expr
unfolding ◌>>=◌ named bind_lets choice_operator
lower_choice kind l r = do
  lv ← l.to_value
  rv ← r.to_value
  left ← named (codes "c$") lv l.to_expr
  right ← named (codes "c$") rv r.to_expr
  core ←
      bind_lets (right.1)
        (app (Value.var (choice_operator kind)) (value (left.0) (value (right.0) no_values)))
  bind_lets (left.1) core

-- the last case of `lower_expr`
unfoldable pub val_or_null : Value → Expr
unfolding when_null
val_or_null v = when_null v no_expr (val v)

unfoldable pub lower_default : Gen Value → Gen Expr
unfolding ◌>>=◌ pure val_or_null
lower_default m = do v ← m; pure (val_or_null v)

unfoldable mutual
  unfolding pure lower_alge_value lower_lambda_value lower_nslit_value lower_closure lower_appl
      lower_choice lower_default LsInt.print c_string

  pub lower_value : Platform → Ast.Syntax.Expr → Gen Value
  lower_value c (int n) = pure (Value.int (c.atoll (LsInt.print n)))
  lower_value c (str s) = pure (Value.str (c_string s))
  lower_value c (Ast.Syntax.ref r) = pure (Value.var (c_string r))
  lower_value c (alge k es) = lower_alge_value k (lower_subs c es)
  lower_value c (lambda p b) = lower_lambda_value p (lower_expr c b)
  lower_value c (nslit ms) = lower_nslit_value (lower_members c ms)
  lower_value c _ = pure null

  pub lower_expr : Platform → Ast.Syntax.Expr → Gen Expr
  lower_expr c (appl f es) =
      lower_appl c.then_first f (record { to_value = lower_value c f; to_expr = lower_expr c f })
        (lower_subs c es)
  lower_expr c (choice k l r) =
      lower_choice k (record { to_value = lower_value c l; to_expr = lower_expr c l })
        (record { to_value = lower_value c r; to_expr = lower_expr c r })
  lower_expr c (closure e bs) = lower_closure (lower_expr c e) (lower_binds c bs)
  lower_expr c (int n) = lower_default (pure (Value.int (c.atoll (LsInt.print n))))
  lower_expr c (str s) = lower_default (pure (Value.str (c_string s)))
  lower_expr c (Ast.Syntax.ref r) = lower_default (pure (Value.var (c_string r)))
  lower_expr c (alge k es) = lower_default (lower_alge_value k (lower_subs c es))
  lower_expr c (lambda p b) = lower_default (lower_lambda_value p (lower_expr c b))
  lower_expr c (nslit ms) = lower_default (lower_nslit_value (lower_members c ms))
  lower_expr c (symbol s) = lower_default (pure null)
  lower_expr c (raise e) = lower_default (pure null)

  lower_subs : Platform → Exprs → List Sub
  lower_subs c no_exprs = []
  lower_subs c (expr e es) =
      record { to_value = lower_value c e; to_expr = lower_expr c e } ∷ lower_subs c es

  lower_binds : Platform → Binds → List SubBind
  lower_binds c no_binds = []
  lower_binds c (bind p e bs) = record { lhs = p; rhs = lower_expr c e } ∷ lower_binds c bs

  lower_members : Platform → Ast.Syntax.Members → List SubMember
  lower_members c Ast.Syntax.no_members = []
  lower_members c (Ast.Syntax.member x e ms) =
      record { name = x; rhs = lower_value c e } ∷ lower_members c ms

-- an expression as the functions above take it
abbrev pub sub : Platform → Ast.Syntax.Expr → Sub
sub c e = record { to_value = lower_value c e; to_expr = lower_expr c e }

-- `lscir_lower_prog`: the root; a program may have no expression
unfoldable pub lower_prog : Platform → Option Ast.Syntax.Expr → Gen Expr
unfolding pure lower_expr
lower_prog c none = pure no_expr
lower_prog c (some e) = lower_expr c e
