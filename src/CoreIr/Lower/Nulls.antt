-- ===== src/CoreIr/Lower/Nulls.antt =====
-- Where the lowering gives NULL.
pub mod Forms
use lazyscript.Prelude.{
  ℕ, Bool, true, false, ◌&&◌, ◌≡◌, refl, sym, ap, ◌∙◌, Option, none, some, List, [], ◌∷◌, Bytes,
  if◌then◌else◌,
}
use mathlib.Core.Path.{subst}
use lazyscript.Ast.Pattern.{Pat}
use lazyscript.Ast.Pattern
use lazyscript.Ast.Syntax.{
  ChoiceKind, Exprs, Binds, appl, choice, closure, symbol, raise, lambda, alge, nslit, no_exprs,
  expr, no_binds, bind,
}
use lazyscript.Ast
use lazyscript.CoreIr.Syntax.{
  Value, Values, Members, Expr, null, no_expr, val, let1, app, ife, effapp, token, match1, int, str,
  constr, lam, var, no_values, no_members,
}
use lazyscript.CoreIr.Syntax
use lazyscript.CoreIr.Lower.Monad.{Gen, ◌>>=◌, pure, gensym}
use lazyscript.CoreIr.Lower.Heads.{c_string, after_dot, prelude_sym, is_ifthenelse}
use lazyscript.CoreIr.Lower.{
  Platform, Sub, SubBind, SubMember, Let, when_null, when_no_expr, add_value, lower_args,
  constr_or_null, lower_alge_value, lam_or_null, extract_pat_name, lower_lambda_value, add_member,
  lower_entries, nslit_or_null, lower_nslit_value, let_or_null, lower_bind, lower_bindings,
  lower_closure, val_or_null, lower_default, lower_value, lower_expr, lower_subs, lower_binds,
  lower_members, bind_lets, lower_if, lower_member_app, lower_app, lower_appl_of, lower_appl,
  lower_choice,
}
use lazyscript.CoreIr.Lower.Closed.{Gives, Gives-bind, Gives-pure}

unfoldable pub is_ref : Pat → Bool
is_ref (Pattern.ref r) = true
is_ref _ = false

-- The syntax trees that have a Core IR form, as values and as expressions: a symbol and a raise have
-- none, an application always has one, a constructor or a namespace has one if its parts are values.
unfoldable mutual
  unfolding is_ref

  pub has_value : Ast.Syntax.Expr → Bool
  has_value (alge c es) = have_values es
  has_value (lambda p b) = has_form b
  has_value (nslit ms) = members_have_values ms
  has_value (Ast.Syntax.int n) = true
  has_value (Ast.Syntax.str s) = true
  has_value (Ast.Syntax.ref r) = true
  has_value _ = false

  pub has_form : Ast.Syntax.Expr → Bool
  has_form (appl f es) = true
  has_form (choice k l r) = true
  has_form (closure e bs) = has_form e && binds_have_form bs
  has_form (alge c es) = have_values es
  has_form (lambda p b) = has_form b
  has_form (nslit ms) = members_have_values ms
  has_form (Ast.Syntax.int n) = true
  has_form (Ast.Syntax.str s) = true
  has_form (Ast.Syntax.ref r) = true
  has_form _ = false

  pub have_values : Exprs → Bool
  have_values no_exprs = true
  have_values (expr e es) = has_value e && have_values es

  pub binds_have_form : Binds → Bool
  binds_have_form no_binds = true
  binds_have_form (bind p e bs) = binds_have_form bs && (is_ref p && has_form e)

  pub members_have_values : Ast.Syntax.Members → Bool
  members_have_values Ast.Syntax.no_members = true
  members_have_values (Ast.Syntax.member x e ms) = has_value e && members_have_values ms

unfoldable pub is_given : Expr → Bool
unfolding when_no_expr
is_given e = when_no_expr e false true

unfoldable pub is_given_value : Value → Bool
unfolding when_null
is_given_value v = when_null v false true

-- the result is given exactly if the test says so
abbrev pub Tells : Bool → Gen Expr → Type 0
Tells b m = Gives (λ e. is_given e ≡ b) m

abbrev pub TellsValue : Bool → Gen Value → Type 0
TellsValue b m = Gives (λ v. is_given_value v ≡ b) m

abbrev pub is_some : {A : Type 0} → Option A → Bool
is_some none = false
is_some (some a) = true

abbrev pub TellsOption : {A : Type 0} → Bool → Gen (Option A) → Type 0
TellsOption b m = Gives (λ o. is_some o ≡ b) m

when_null-split {ℓ κ} :
    {A : Type ℓ} (P : Bool → A → Type κ) (v : Value) {x y : A}
    → P false x
    → P true y
    → P (is_given_value v) (when_null v x y)
unfolding when_null is_given_value
when_null-split P null h k = h
when_null-split P (int _) h k = k
when_null-split P (str _) h k = k
when_null-split P (constr _ _) h k = k
when_null-split P (var _) h k = k
when_null-split P (lam _ _) h k = k
when_null-split P (Value.nslit _) h k = k

when_no_expr-split {ℓ κ} :
    {A : Type ℓ} (P : Bool → A → Type κ) (e : Expr) {x y : A}
    → P false x
    → (is_given e ≡ true → P true y)
    → P (is_given e) (when_no_expr e x y)
unfolding when_no_expr is_given
when_no_expr-split P no_expr h k = h
when_no_expr-split P (val _) h k = k refl
when_no_expr-split P (let1 _ _ _) h k = k refl
when_no_expr-split P (app _ _) h k = k refl
when_no_expr-split P (ife _ _ _) h k = k refl
when_no_expr-split P (effapp _ _ _) h k = k refl
when_no_expr-split P token h k = k refl
when_no_expr-split P (match1 _ _) h k = k refl

-- Applications and choices.
bind_lets-given :
    (ls : List Let) (core : Expr) → is_given core ≡ true → Tells true (bind_lets ls core)
unfolding bind_lets is_given
bind_lets-given [] core h = Gives-pure _ h
bind_lets-given (l ∷ ls) core h = Gives-bind _ _ (bind_lets-given ls core h) (λ inner _.
    Gives-bind {P = λ _. Unit} l.to_expr _ (record { at = λ n. tt })
      (λ b _. Gives-pure (let1 l.name b inner) refl))

Gives-after :
    {A B : Type 0} {Q : B → Type 0} (m : Gen A) (f : A → Gen B)
    → ((a : A) → Gives Q (f a))
    → Gives Q (m >>= f)
Gives-after m f h = Gives-bind {P = λ _. Unit} m f (record { at = λ n. tt }) (λ a u. h a)

ife-given : (c : Value) (a b : Expr) → is_given (ife c a b) ≡ true
unfolding is_given
ife-given c a b = refl

app-given : (f : Value) (vs : Values) → is_given (app f vs) ≡ true
unfolding is_given
app-given f vs = refl

lower_if-given : (first : Bool) (c : Sub) (t e : Gen Expr) → Tells true (lower_if first c t e)
unfolding lower_if ◌>>=◌
lower_if-given first c t e = record { at = λ n. (bind_lets-given _ _ (ife-given _ _ _)).at _ }

lower_appl_of-given :
    (o : Option Bytes) (f : Sub) (es : List Sub) → Tells true (lower_appl_of o f es)
unfolding lower_appl_of lower_member_app lower_app ◌>>=◌
lower_appl_of-given (some s) f es = record { at = λ n. (bind_lets-given _ _ (app-given _ _)).at _ }
lower_appl_of-given none f es = record {
  at = λ n. (bind_lets-given _ _ ((bind_lets-given _ _ (app-given _ _)).at _)).at _;
}

if-given :
    (b : Bool) {x y : Gen Expr} → Tells true x → Tells true y → Tells true (if b then x else y)
if-given true h k = h
if-given false h k = k

pub lower_appl-given :
    (first : Bool) (fe : Ast.Syntax.Expr) (f : Sub) (es : List Sub)
    → Tells true (lower_appl first fe f es)
unfolding lower_appl
lower_appl-given first fe f (c ∷ t ∷ e ∷ []) =
    if-given (is_ifthenelse fe) (lower_if-given first c _ _)
      (lower_appl_of-given (prelude_sym fe) f (c ∷ t ∷ e ∷ []))
lower_appl-given first fe f [] = lower_appl_of-given (prelude_sym fe) f []
lower_appl-given first fe f (a ∷ []) = lower_appl_of-given (prelude_sym fe) f (a ∷ [])
lower_appl-given first fe f (a ∷ b ∷ []) = lower_appl_of-given (prelude_sym fe) f (a ∷ b ∷ [])
lower_appl-given first fe f (a ∷ b ∷ c ∷ d ∷ es) =
    lower_appl_of-given (prelude_sym fe) f (a ∷ b ∷ c ∷ d ∷ es)

pub lower_choice-given : (k : ChoiceKind) (l r : Sub) → Tells true (lower_choice k l r)
unfolding lower_choice ◌>>=◌
lower_choice-given k l r = record {
  at = λ n. (bind_lets-given _ _ ((bind_lets-given _ _ (app-given _ _)).at _)).at _;
}

-- Values.
pub add_value-some : (v : Value) (o : Option Values) → is_some (add_value v o) ≡ is_some o
unfolding add_value
add_value-some v none = refl
add_value-some v (some vs) = refl

pub add_member-some :
    (x : Bytes) (v : Value) (o : Option Members) → is_some (add_member x v o) ≡ is_some o
unfolding add_member
add_member-some x v none = refl
add_member-some x v (some ms) = refl

-- one round of the loops that end at the first part that is no value
pub loop-Tells :
    {A : Type 0} (add : Value → Option A → Option A) (p q : Bool) (m : Gen Value)
    (rest : Gen (Option A))
    → ((v : Value) (o : Option A) → is_some (add v o) ≡ is_some o)
    → TellsValue p m
    → TellsOption q rest
    → TellsOption (p && q) (m >>= λ v. when_null v (pure none) (rest >>= λ o. pure (add v o)))
unfolding ◌>>=◌ pure
loop-Tells {A = A} add p q m rest h hm hr = record {
  at = λ n.
      when_null-split {A = Gen (Option A)} (λ b g. is_some ((g ((m n).1)).0) ≡ (b && q)) ((m n).0)
        refl (h _ _ ∙ hr.at _)
      ∙ ap (λ b. b && q) (hm.at n);
}

pub constr_or_null-given :
    (c : Bytes) (o : Option Values) → is_given_value (constr_or_null c o) ≡ is_some o
unfolding constr_or_null is_given_value when_null
constr_or_null-given c none = refl
constr_or_null-given c (some vs) = refl

pub nslit_or_null-given : (o : Option Members) → is_given_value (nslit_or_null o) ≡ is_some o
unfolding nslit_or_null is_given_value when_null
nslit_or_null-given none = refl
nslit_or_null-given (some vs) = refl

pub lam_or_null-given : (x : Bytes) (b : Expr) → is_given_value (lam_or_null x b) ≡ is_given b
unfolding lam_or_null is_given_value when_null
lam_or_null-given x b = when_no_expr-split (λ t v. is_given_value v ≡ t) b refl (λ _. refl)

let_or_null-given : (x : Bytes) (r body : Expr) → is_given (let_or_null x r body) ≡ is_given r
unfolding let_or_null is_given when_no_expr
let_or_null-given x r body = when_no_expr-split (λ t e. is_given e ≡ t) r refl (λ _. refl)

pub val_or_null-given : (v : Value) → is_given (val_or_null v) ≡ is_given_value v
unfolding val_or_null is_given when_no_expr
val_or_null-given v = when_null-split (λ t e. is_given e ≡ t) v refl refl

-- a result that is mapped keeps its test
pub map-given :
    {A B : Type 0} (t : A → Bool) (u : B → Bool) (f : A → B) (m : Gen A) (p : Bool)
    → ((a : A) → u (f a) ≡ t a)
    → Gives (λ a. t a ≡ p) m
    → Gives (λ b. u b ≡ p) (m >>= λ a. pure (f a))
unfolding ◌>>=◌ pure
map-given t u f m p h hm = record { at = λ n. h _ ∙ hm.at n }

pub lower_bind-given :
    (p : Pat) (m : Gen Expr) (body : Expr) (b : Bool)
    → Tells b m
    → Tells (is_ref p && b) (lower_bind p m body)
unfolding lower_bind is_ref pure is_given when_no_expr
lower_bind-given (Pattern.ref x) m body b h =
    map-given is_given is_given (λ r. let_or_null (c_string x) r body) m b
      (λ r. let_or_null-given (c_string x) r body) h
lower_bind-given _ m body b h = record { at = λ n. refl }

no_expr-given : is_given no_expr ≡ false
unfolding is_given when_no_expr
no_expr-given = refl

-- an expression that is not NULL, and what follows it
pub then_given :
    (p q : Bool) (m : Gen Expr) (f : Expr → Gen Expr)
    → Tells p m
    → ((e : Expr) → is_given e ≡ true → Tells q (f e))
    → Tells (p && q) (m >>= λ e. when_no_expr e (pure no_expr) (f e))
unfolding ◌>>=◌ pure
then_given p q m f hm hf = record {
  at = λ n.
      when_no_expr-split {A = Gen Expr} (λ b g. is_given ((g ((m n).1)).0) ≡ (b && q)) ((m n).0)
        no_expr-given (λ h. (hf _ h).at _)
      ∙ ap (λ b. b && q) (hm.at n);
}
