-- ===== src/CoreIr/Lower/Texts.antt =====
-- The parts of the lowering on subtrees whose lowering has a text form.
use lazyscript.Prelude.{Option, none, some, List, [], ◌∷◌, Bytes}
use lazyscript.Ast.Pattern.{Pat}
use lazyscript.Ast.Pattern
use lazyscript.CoreIr.Syntax.{
  Value, Values, Members, Expr, null, no_expr, val, let1, app, ife, effapp, token, match1, int, str,
  constr, lam, var, no_values, no_members,
}
use lazyscript.CoreIr.Text.Words.{IsName}
use lazyscript.CoreIr.Text.Printable.{
  Misses, value_keywords, expr_keywords, MissesExpr, HasText, HaveText, MembersHaveText,
  ExprHasText,
}
use lazyscript.CoreIr.Lower.Monad.{Gen, pure}
use lazyscript.CoreIr.Lower.Heads.{c_string, after_dot}
use lazyscript.CoreIr.Lower.{
  Sub, SubBind, SubMember, when_null, when_no_expr, add_value, lower_args, constr_or_null,
  lower_alge_value, lam_or_null, extract_pat_name, lower_lambda_value, add_member, lower_entries,
  nslit_or_null, lower_nslit_value, let_or_null, lower_bind, lower_bindings, lower_closure,
  val_or_null, lower_default,
}
use lazyscript.CoreIr.Lower.Closed.{Gives, Gives-bind, Gives-pure}
use lazyscript.CoreIr.Lower.Plain.{PlainLhs}

HasText-when_null {ℓ κ} :
    {A : Type ℓ} (P : A → Type κ) (v : Value) (x : A) {y : A}
    → HasText v
    → P y
    → P (when_null v x y)
unfolding when_null HasText
HasText-when_null P null x h k = absurd h
HasText-when_null P (int _) x h k = k
HasText-when_null P (str _) x h k = k
HasText-when_null P (constr _ _) x h k = k
HasText-when_null P (var _) x h k = k
HasText-when_null P (lam _ _) x h k = k
HasText-when_null P (Value.nslit _) x h k = k

HasText-when_no_expr {ℓ κ} :
    {A : Type ℓ} (P : A → Type κ) (e : Expr) (x : A) {y : A}
    → ExprHasText e
    → P y
    → P (when_no_expr e x y)
unfolding when_no_expr ExprHasText
HasText-when_no_expr P no_expr x h k = absurd h
HasText-when_no_expr P (val _) x h k = k
HasText-when_no_expr P (let1 _ _ _) x h k = k
HasText-when_no_expr P (app _ _) x h k = k
HasText-when_no_expr P (ife _ _ _) x h k = k
HasText-when_no_expr P (effapp _ _ _) x h k = k
HasText-when_no_expr P token x h k = k
HasText-when_no_expr P (match1 _ _) x h k = k

abbrev pub ArgsText : Option Values → Type 0
ArgsText none = ⊥
ArgsText (some vs) = HaveText vs

abbrev pub EntriesText : Option Members → Type 0
EntriesText none = ⊥
EntriesText (some ms) = MembersHaveText ms

pub add_value-text :
    (v : Value) (o : Option Values) → HasText v → ArgsText o → ArgsText (add_value v o)
unfolding add_value HaveText
add_value-text v none h k = absurd k
add_value-text v (some vs) h k = (h, k)

pub add_member-text :
    (x : Bytes) (v : Value) (o : Option Members)
    → IsName x
    → HasText v
    → EntriesText o
    → EntriesText (add_member x v o)
unfolding add_member MembersHaveText
add_member-text x v none n h k = absurd k
add_member-text x v (some ms) n h k = (n, h, k)

pub no_args-text : Gives ArgsText (lower_args [])
unfolding lower_args HaveText
no_args-text = Gives-pure (some no_values) tt

pub args-text :
    (e : Sub) (es : List Sub)
    → Gives HasText e.to_value
    → Gives ArgsText (lower_args es)
    → Gives ArgsText (lower_args (e ∷ es))
unfolding lower_args
args-text e es h hs = Gives-bind _ _ h (λ v k.
    HasText-when_null (Gives ArgsText) v (pure none) k
      (Gives-bind _ _ hs (λ vs ks. Gives-pure (add_value v vs) (add_value-text v vs k ks))))

pub no_entries-text : Gives EntriesText (lower_entries [])
unfolding lower_entries MembersHaveText
no_entries-text = Gives-pure (some no_members) tt

pub entries-text :
    (m : SubMember) (ms : List SubMember)
    → IsName (after_dot (c_string m.name))
    → Gives HasText m.rhs
    → Gives EntriesText (lower_entries ms)
    → Gives EntriesText (lower_entries (m ∷ ms))
unfolding lower_entries
entries-text m ms n h hs = Gives-bind _ _ h (λ v k.
    HasText-when_null (Gives EntriesText) v (pure none) k (
      Gives-bind _ _ hs (λ o ks.
        Gives-pure (add_member (after_dot (c_string m.name)) v o) (add_member-text _ v o n k ks))))

pub constr_or_null-text :
    (c : Bytes) (o : Option Values)
    → IsName c
    → Misses value_keywords c
    → ArgsText o
    → HasText (constr_or_null c o)
unfolding constr_or_null HasText
constr_or_null-text c none n m h = absurd h
constr_or_null-text c (some vs) n m h = (n, m, h)

pub constr_or_null-Misses :
    (c : Bytes) (o : Option Values) → Misses expr_keywords c → MissesExpr (constr_or_null c o)
unfolding constr_or_null
constr_or_null-Misses c none m = tt
constr_or_null-Misses c (some vs) m = m

pub alge-text :
    (c : Bytes) (es : List Sub)
    → IsName (c_string c)
    → Misses value_keywords (c_string c)
    → Gives ArgsText (lower_args es)
    → Gives HasText (lower_alge_value c es)
unfolding lower_alge_value
alge-text c es n m h =
    Gives-bind _ _ h
      (λ o k. Gives-pure (constr_or_null (c_string c) o) (constr_or_null-text (c_string c) o n m k))

pub nslit_or_null-text : (o : Option Members) → EntriesText o → HasText (nslit_or_null o)
unfolding nslit_or_null HasText
nslit_or_null-text none h = absurd h
nslit_or_null-text (some ms) h = h

pub nslit-text :
    (ms : List SubMember)
    → Gives EntriesText (lower_entries ms)
    → Gives HasText (lower_nslit_value ms)
unfolding lower_nslit_value
nslit-text ms h = Gives-bind _ _ h (λ o k. Gives-pure (nslit_or_null o) (nslit_or_null-text o k))

pub lam_or_null-text : (x : Bytes) (b : Expr) → IsName x → ExprHasText b → HasText (lam_or_null x b)
unfolding lam_or_null HasText
lam_or_null-text x b n h = HasText-when_no_expr HasText b null h (n, h)

pub lambda-text :
    (p : Pat) (m : Gen Expr)
    → IsName (extract_pat_name p)
    → Gives ExprHasText m
    → Gives HasText (lower_lambda_value p m)
unfolding lower_lambda_value
lambda-text p m n h =
    Gives-bind _ _ h
      (λ b k. Gives-pure (lam_or_null (extract_pat_name p) b) (lam_or_null-text _ b n k))

-- a value in the place of an expression
abbrev pub AsExpr : Value → Type 0
AsExpr v = HasText v × MissesExpr v

pub val_or_null-text : (v : Value) → AsExpr v → ExprHasText (val_or_null v)
unfolding val_or_null ExprHasText
val_or_null-text v h = HasText-when_null ExprHasText v no_expr (h.0) h

pub default-text : (m : Gen Value) → Gives AsExpr m → Gives ExprHasText (lower_default m)
unfolding lower_default
default-text m h = Gives-bind _ _ h (λ v k. Gives-pure (val_or_null v) (val_or_null-text v k))

pub let_or_null-text :
    (x : Bytes) (r body : Expr)
    → IsName x
    → ExprHasText r
    → ExprHasText body
    → ExprHasText (let_or_null x r body)
unfolding let_or_null ExprHasText
let_or_null-text x r body n h k = HasText-when_no_expr ExprHasText r no_expr h (n, h, k)

pub lower_bind-text :
    (p : Pat) (m : Gen Expr) (body : Expr)
    → PlainLhs p
    → Gives ExprHasText m
    → ExprHasText body
    → Gives ExprHasText (lower_bind p m body)
unfolding lower_bind
lower_bind-text (Pattern.ref x) m body n h k = Gives-bind _ _ h (λ r kr.
    Gives-pure (let_or_null (c_string x) r body) (let_or_null-text (c_string x) r body n kr k))
lower_bind-text _ m body n h k = absurd n

pub no_bindings-text : (body : Expr) → ExprHasText body → Gives ExprHasText (lower_bindings [] body)
unfolding lower_bindings
no_bindings-text body h = Gives-pure body h

pub bindings-text :
    (b : SubBind) (bs : List SubBind) (body : Expr)
    → PlainLhs b.lhs
    → Gives ExprHasText b.rhs
    → Gives ExprHasText (lower_bindings bs body)
    → Gives ExprHasText (lower_bindings (b ∷ bs) body)
unfolding lower_bindings
bindings-text b bs body n h k = Gives-bind _ _ k (λ inner ki.
    HasText-when_no_expr (Gives ExprHasText) inner (pure no_expr) ki
      (lower_bind-text b.lhs b.rhs inner n h ki))

pub closure-text :
    (m : Gen Expr) (bs : List SubBind)
    → Gives ExprHasText m
    → ((e : Expr) → ExprHasText e → Gives ExprHasText (lower_bindings bs e))
    → Gives ExprHasText (lower_closure m bs)
unfolding lower_closure
closure-text m bs h k =
    Gives-bind _ _ h (λ e he. HasText-when_no_expr (Gives ExprHasText) e (pure no_expr) he (k e he))
