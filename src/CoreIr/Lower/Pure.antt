-- ===== src/CoreIr/Lower/Pure.antt =====
-- The form of lowered programs: no effect application, no token, no match and no NULL value.
use lazyscript.Prelude.{Option, none, some, List, [], ◌∷◌, Bytes, All}
use lazyscript.Ast.Pattern.{Pat}
use lazyscript.Ast.Pattern
use lazyscript.CoreIr.Syntax.{
  Value, Values, Members, Expr, null, no_expr, val, let1, app, ife, effapp, token, match1,
  no_values, value, no_members, member, constr, lam, nslit,
}
use lazyscript.CoreIr.Lower.Monad.{Gen}
use lazyscript.CoreIr.Lower.Heads.{c_string, after_dot}
use lazyscript.CoreIr.Lower.{
  Sub, SubBind, SubMember, when_no_expr, add_value, lower_args, constr_or_null, lower_alge_value,
  lam_or_null, extract_pat_name, lower_lambda_value, add_member, lower_entries, nslit_or_null,
  lower_nslit_value, let_or_null, lower_bind, lower_bindings, lower_closure, val_or_null,
  lower_default,
}
use lazyscript.CoreIr.Lower.Closed.{
  Gives, Gives-bind, Gives-pure, May, Closed, GoodSub, May-when_null,
}

unfoldable mutual
  pub IsPureValue : Value → Type 0
  IsPureValue null = ⊥
  IsPureValue (constr c vs) = ArePure vs
  IsPureValue (lam x b) = IsPure b
  IsPureValue (nslit ms) = MembersArePure ms
  IsPureValue _ = Unit

  pub ArePure : Values → Type 0
  ArePure no_values = Unit
  ArePure (value v vs) = IsPureValue v × ArePure vs

  pub MembersArePure : Members → Type 0
  MembersArePure no_members = Unit
  MembersArePure (member x v ms) = IsPureValue v × MembersArePure ms

  pub IsPure : Expr → Type 0
  IsPure no_expr = Unit
  IsPure (val v) = IsPureValue v
  IsPure (let1 x a b) = IsPure a × IsPure b
  IsPure (app f vs) = IsPureValue f × ArePure vs
  IsPure (ife c a b) = IsPureValue c × IsPure a × IsPure b
  IsPure (effapp f t vs) = ⊥
  IsPure token = ⊥
  IsPure (match1 v cs) = ⊥

pub pure_closed : Closed IsPureValue ArePure IsPure
unfolding IsPure IsPureValue ArePure
pure_closed = record {
  no_args = tt;
  arg = λ h k. (h, k);
  call = λ h k. (h, k);
  branch = λ h k l. (h, k, l);
  fresh = λ b n t. tt;
  bound = λ b n t h k. (h, k);
  operator = λ k. tt;
}

abbrev MayArgs : Option Values → Type 0
MayArgs none = Unit
MayArgs (some vs) = ArePure vs

abbrev MayMembers : Option Members → Type 0
MayMembers none = Unit
MayMembers (some ms) = MembersArePure ms

add_value-pure :
    (v : Value) (o : Option Values) → IsPureValue v → MayArgs o → MayArgs (add_value v o)
unfolding add_value ArePure
add_value-pure v none h k = tt
add_value-pure v (some vs) h k = (h, k)

abbrev pub MayPure : Value → Type 0
MayPure v = May IsPureValue v

lower_args-pure : (es : List Sub) → All (GoodSub pure_closed) es → Gives MayArgs (lower_args es)
unfolding lower_args ArePure
lower_args-pure [] h = Gives-pure (some no_values) tt
lower_args-pure (e ∷ es) ((hv, _), hs) = Gives-bind _ _ hv (λ v h.
    May-when_null IsPureValue (Gives MayArgs) v h (Gives-pure none tt) (λ k.
      Gives-bind _ _ (lower_args-pure es hs)
        (λ vs ks. Gives-pure (add_value v vs) (add_value-pure v vs k ks))))

constr_or_null-pure : (c : Bytes) (o : Option Values) → MayArgs o → MayPure (constr_or_null c o)
unfolding constr_or_null IsPureValue
constr_or_null-pure c none h = tt
constr_or_null-pure c (some vs) h = h

pub lower_alge_value-pure :
    (c : Bytes) (es : List Sub)
    → All (GoodSub pure_closed) es
    → Gives MayPure (lower_alge_value c es)
unfolding lower_alge_value
lower_alge_value-pure c es h =
    Gives-bind _ _ (lower_args-pure es h)
      (λ vs k. Gives-pure (constr_or_null (c_string c) vs) (constr_or_null-pure (c_string c) vs k))

when_no_expr-either {ℓ κ} :
    {A : Type ℓ} (P : A → Type κ) (e : Expr) {a b : A} → P a → P b → P (when_no_expr e a b)
unfolding when_no_expr
when_no_expr-either P no_expr ha hb = ha
when_no_expr-either P (val _) ha hb = hb
when_no_expr-either P (let1 _ _ _) ha hb = hb
when_no_expr-either P (app _ _) ha hb = hb
when_no_expr-either P (ife _ _ _) ha hb = hb
when_no_expr-either P (effapp _ _ _) ha hb = hb
when_no_expr-either P token ha hb = hb
when_no_expr-either P (match1 _ _) ha hb = hb

lam_or_null-pure : (x : Bytes) (b : Expr) → IsPure b → MayPure (lam_or_null x b)
unfolding lam_or_null IsPureValue
lam_or_null-pure x b h = when_no_expr-either MayPure b tt h

pub lower_lambda_value-pure :
    (p : Pat) (m : Gen Expr) → Gives IsPure m → Gives MayPure (lower_lambda_value p m)
unfolding lower_lambda_value
lower_lambda_value-pure p m h =
    Gives-bind _ _ h
      (λ b k. Gives-pure (lam_or_null _ b) (lam_or_null-pure (extract_pat_name p) b k))

add_member-pure :
    (x : Bytes) (v : Value) (o : Option Members)
    → IsPureValue v
    → MayMembers o
    → MayMembers (add_member x v o)
unfolding add_member MembersArePure
add_member-pure x v none h k = tt
add_member-pure x v (some ms) h k = (h, k)

abbrev pub GoodMember : SubMember → Type 0
GoodMember m = Gives MayPure m.rhs

lower_entries-pure : (ms : List SubMember) → All GoodMember ms → Gives MayMembers (lower_entries ms)
unfolding lower_entries MembersArePure
lower_entries-pure [] h = Gives-pure (some no_members) tt
lower_entries-pure (m ∷ ms) (h, hs) = Gives-bind _ _ h (λ v k.
    May-when_null IsPureValue (Gives MayMembers) v k (Gives-pure none tt) (λ kv.
      Gives-bind _ _ (lower_entries-pure ms hs) (λ rest kr.
        Gives-pure (add_member _ v rest)
          (add_member-pure (after_dot (c_string m.name)) v rest kv kr))))

nslit_or_null-pure : (o : Option Members) → MayMembers o → MayPure (nslit_or_null o)
unfolding nslit_or_null IsPureValue
nslit_or_null-pure none h = tt
nslit_or_null-pure (some ms) h = h

pub lower_nslit_value-pure :
    (ms : List SubMember) → All GoodMember ms → Gives MayPure (lower_nslit_value ms)
unfolding lower_nslit_value
lower_nslit_value-pure ms h =
    Gives-bind _ _ (lower_entries-pure ms h)
      (λ o k. Gives-pure (nslit_or_null o) (nslit_or_null-pure o k))

let_or_null-pure :
    (x : Bytes) (r body : Expr) → IsPure r → IsPure body → IsPure (let_or_null x r body)
unfolding let_or_null IsPure
let_or_null-pure x r body h k = when_no_expr-either IsPure r tt (h, k)

lower_bind-pure :
    (p : Pat) (m : Gen Expr) (body : Expr)
    → Gives IsPure m
    → IsPure body
    → Gives IsPure (lower_bind p m body)
unfolding lower_bind IsPure
lower_bind-pure (Pattern.ref x) m body h hb = Gives-bind _ _ h (λ r k.
    Gives-pure (let_or_null (c_string x) r body) (let_or_null-pure (c_string x) r body k hb))
lower_bind-pure (Pattern.alge _ _) m body h hb = Gives-pure no_expr tt
lower_bind-pure (Pattern.as_pat _ _) m body h hb = Gives-pure no_expr tt
lower_bind-pure (Pattern.int _) m body h hb = Gives-pure no_expr tt
lower_bind-pure (Pattern.str _) m body h hb = Gives-pure no_expr tt
lower_bind-pure Pattern.wildcard m body h hb = Gives-pure no_expr tt
lower_bind-pure (Pattern.or_pat _ _) m body h hb = Gives-pure no_expr tt
lower_bind-pure (Pattern.caret _) m body h hb = Gives-pure no_expr tt

abbrev pub GoodBind : SubBind → Type 0
GoodBind b = Gives IsPure b.rhs

lower_bindings-pure :
    (bs : List SubBind) (body : Expr)
    → All GoodBind bs
    → IsPure body
    → Gives IsPure (lower_bindings bs body)
unfolding lower_bindings IsPure
lower_bindings-pure [] body h hb = Gives-pure _ hb
lower_bindings-pure (b ∷ bs) body (h, hs) hb =
    Gives-bind _ _ (lower_bindings-pure bs body hs hb) (λ inner k.
      when_no_expr-either (Gives IsPure) inner (Gives-pure no_expr tt)
        (lower_bind-pure b.lhs b.rhs inner h k))

pub lower_closure-pure :
    (m : Gen Expr) (bs : List SubBind)
    → Gives IsPure m
    → All GoodBind bs
    → Gives IsPure (lower_closure m bs)
unfolding lower_closure IsPure
lower_closure-pure m bs h hs = Gives-bind _ _ h (λ b k.
    when_no_expr-either (Gives IsPure) b (Gives-pure no_expr tt) (lower_bindings-pure bs b hs k))

val_or_null-pure : (v : Value) → MayPure v → IsPure (val_or_null v)
unfolding val_or_null IsPure
val_or_null-pure v h = May-when_null IsPureValue IsPure v h tt (λ k. k)

pub lower_default-pure : (m : Gen Value) → Gives MayPure m → Gives IsPure (lower_default m)
unfolding lower_default
lower_default-pure m h = Gives-bind _ _ h (λ v k. Gives-pure (val_or_null v) (val_or_null-pure v k))
