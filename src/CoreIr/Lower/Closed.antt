-- ===== src/CoreIr/Lower/Closed.antt =====
-- What the parts of the lowering that always give an expression keep, for any property of the Core
-- IR that its nodes keep.
use lazyscript.Prelude.{
  ℕ, ◌+◌, ◌≤◌, Bool, true, false, Option, none, some, List, [], ◌∷◌, ◌++◌, Bytes, All, arith,
  if◌then◌else◌,
}
use lazyscript.Prelude.Decimal.{show_ℕ}
use lazyscript.Ast
use lazyscript.Ast.Syntax.{ChoiceKind}
use lazyscript.CoreIr.Syntax.{
  Value, Values, Expr, null, let1, app, ife, no_values, value, int, str, constr, lam, nslit, var,
}
use lazyscript.CoreIr.Lower.Monad.{Gen, ◌>>=◌, pure, gensym}
use lazyscript.CoreIr.Lower.Heads.{is_ifthenelse, prelude_sym}
use lazyscript.CoreIr.Lower.{
  Sub, Let, when_null, named, name_sub, name_args, bind_lets, arms, lower_if, lower_member_app,
  lower_app, lower_appl_of, lower_appl, lower_choice, choice_operator,
}

-- every run gives a result with the property
pub record Gives {A : Type 0} (P : A → Type 0) (m : Gen A) : Type 0 where
  pub at : (n : ℕ) → P ((m n).0)

pub Gives-bind :
    {A B : Type 0} {P : A → Type 0} {Q : B → Type 0} (m : Gen A) (f : A → Gen B)
    → Gives P m
    → ((a : A) → P a → Gives Q (f a))
    → Gives Q (m >>= f)
unfolding ◌>>=◌
Gives-bind m f hm hf = record { at = λ n. (hf _ (hm.at n)).at _ }

pub Gives-pure : {A : Type 0} {P : A → Type 0} (a : A) → P a → Gives P (pure a)
unfolding pure
Gives-pure a h = record { at = λ n. h }

-- NULL, or a value with the property
abbrev pub May : (Value → Type 0) → Value → Type 0
May V null = Unit
May V v = V v

pub May-when_null {ℓ κ} :
    (V : Value → Type 0) {A : Type ℓ} (P : A → Type κ) (v : Value) {a b : A}
    → May V v
    → P a
    → (V v → P b)
    → P (when_null v a b)
unfolding when_null
May-when_null V P null h ha hb = ha
May-when_null V P (int _) h ha hb = hb h
May-when_null V P (str _) h ha hb = hb h
May-when_null V P (constr _ _) h ha hb = hb h
May-when_null V P (var _) h ha hb = hb h
May-when_null V P (lam _ _) h ha hb = hb h
May-when_null V P (nslit _) h ha hb = hb h

-- a lower-case letter
abbrev pub Letter : ℕ → Type 0
Letter b = (97 ≤ b) × (b ≤ 122)

-- the property of values and of expressions, with the nodes that keep it
pub record Closed (V : Value → Type 0) (Vs : Values → Type 0) (E : Expr → Type 0) : Type 0 where
  pub no_args : Vs no_values
  pub arg : {v : Value} {vs : Values} → V v → Vs vs → Vs (value v vs)
  pub call : {f : Value} {vs : Values} → V f → Vs vs → E (app f vs)
  pub branch : {c : Value} {a b : Expr} → V c → E a → E b → E (ife c a b)
  pub fresh : (b n : ℕ) → Letter b → V (var (b ∷ 36 ∷ show_ℕ n))
  pub bound :
      (b n : ℕ) {e body : Expr} → Letter b → E e → E body → E (let1 (b ∷ 36 ∷ show_ℕ n) e body)
  pub operator : (k : ChoiceKind) → V (var (choice_operator k))

All-append : (P : Let → Type 0) (xs ys : List Let) → All P xs → All P ys → All P (xs ++ ys)
All-append P [] ys h hs = hs
All-append P (x ∷ xs) ys (h, ht) hs = (h, All-append P xs ys ht hs)

Bool-if :
    {A : Type 0} (P : Gen A → Type 0) (b : Bool) {x y : Gen A} → P x → P y → P (if b then x else y)
Bool-if P true h k = h
Bool-if P false h k = k

module _ {V : Value → Type 0} {Vs : Values → Type 0} {E : Expr → Type 0}
    (closed : Closed V Vs E) where
  abbrev pub GoodSub : Sub → Type 0
  GoodSub e = Gives (May V) e.to_value × Gives E e.to_expr

  abbrev GoodLet : Let → Type 0
  GoodLet l = ((e body : Expr) → E e → E body → E (let1 l.name e body)) × Gives E l.to_expr

  abbrev Named : Value × List Let → Type 0
  Named p = V (p.0) × All GoodLet (p.1)

  fresh-Named :
      (b : ℕ) (m : Gen Expr)
      → Letter b
      → Gives E m
      → Gives Named
          (gensym (b ∷ 36 ∷ []) >>= λ x. pure (var x, record { name = x; to_expr = m } ∷ []))
  unfolding ◌>>=◌ pure gensym
  fresh-Named b m t hm = record {
    at = λ n.
        (closed.fresh b (n + 1) t, (((λ e body he hb. closed.bound b (n + 1) t he hb), hm), tt));
  }

  named-Named :
      (b : ℕ) (v : Value) (m : Gen Expr)
      → Letter b
      → May V v
      → Gives E m
      → Gives Named (named (b ∷ 36 ∷ []) v m)
  unfolding named
  named-Named b v m t h hm =
      May-when_null V (Gives Named) v h (fresh-Named b m t hm) (λ hv. Gives-pure _ (hv, tt))

  name_sub-Named : (b : ℕ) (e : Sub) → Letter b → GoodSub e → Gives Named (name_sub (b ∷ 36 ∷ []) e)
  unfolding name_sub
  name_sub-Named b e t h = Gives-bind _ _ (h.0) (λ v hv. named-Named b v _ t hv (h.1))

  abbrev NamedArgs : Values × List Let → Type 0
  NamedArgs p = Vs (p.0) × All GoodLet (p.1)

  name_args-NamedArgs : (es : List Sub) → All GoodSub es → Gives NamedArgs (name_args es)
  unfolding name_args
  name_args-NamedArgs [] h = Gives-pure _ (closed.no_args, tt)
  name_args-NamedArgs (e ∷ es) (h, hs) =
      Gives-bind _ _ (name_sub-Named 97 e (omega arith) h) (λ a ha.
        Gives-bind _ _ (name_args-NamedArgs es hs)
          (λ r hr. Gives-pure _ (closed.arg (ha.0) (hr.0), All-append GoodLet _ _ (ha.1) (hr.1))))

  bind_lets-E :
      (ls : List Let) (core : Expr) → All GoodLet ls → E core → Gives E (bind_lets ls core)
  unfolding bind_lets
  bind_lets-E [] core h hc = Gives-pure _ hc
  bind_lets-E (l ∷ ls) core (h, hs) hc =
      Gives-bind _ _ (bind_lets-E ls core hs hc)
        (λ inner hi. Gives-bind _ _ (h.1) (λ b hb. Gives-pure _ (h.0 b inner hb hi)))

  arms-E :
      (first : Bool) (t e : Gen Expr)
      → Gives E t
      → Gives E e
      → Gives (λ p. E (p.0) × E (p.1)) (arms first t e)
  unfolding arms
  arms-E true t e ht he =
      Gives-bind _ _ ht (λ a ha. Gives-bind _ _ he (λ b hb. Gives-pure _ (ha, hb)))
  arms-E false t e ht he =
      Gives-bind _ _ he (λ b hb. Gives-bind _ _ ht (λ a ha. Gives-pure _ (ha, hb)))

  lower_if-E :
      (first : Bool) (c : Sub) (t e : Gen Expr)
      → GoodSub c
      → Gives E t
      → Gives E e
      → Gives E (lower_if first c t e)
  unfolding lower_if
  lower_if-E first c t e hc ht he = Gives-bind _ _ (name_sub-Named 99 c (omega arith) hc) (λ v hv.
      Gives-bind _ _ (arms-E first t e ht he)
        (λ ab hab. bind_lets-E (v.1) _ (hv.1) (closed.branch (hv.0) (hab.0) (hab.1))))

  -- what the lowering of an application takes of its function
  abbrev pub GoodHead : Option Bytes → Sub → Type 0
  GoodHead none f = GoodSub f
  GoodHead (some sym) f = V (var sym)

  lower_appl_of-E :
      (o : Option Bytes) (f : Sub) (es : List Sub)
      → GoodHead o f
      → All GoodSub es
      → Gives E (lower_appl_of o f es)
  unfolding lower_appl_of lower_member_app lower_app
  lower_appl_of-E (some sym) f es h hs =
      Gives-bind _ _ (name_args-NamedArgs es hs)
        (λ a ha. bind_lets-E (a.1) _ (ha.1) (closed.call h (ha.0)))
  lower_appl_of-E none f es h hs = Gives-bind _ _ (name_args-NamedArgs es hs) (λ a ha.
      Gives-bind _ _ (name_sub-Named 102 f (omega arith) h) (λ g hg.
        Gives-bind _ _ (bind_lets-E (a.1) _ (ha.1) (closed.call (hg.0) (ha.0)))
          (λ core hc. bind_lets-E (g.1) core (hg.1) hc)))

  pub lower_appl-E :
      (first : Bool) (fe : Ast.Syntax.Expr) (f : Sub) (es : List Sub)
      → GoodHead (prelude_sym fe) f
      → All GoodSub es
      → Gives E (lower_appl first fe f es)
  unfolding lower_appl
  lower_appl-E first fe f (c ∷ t ∷ e ∷ []) h (hc, (ht, (he, _))) =
      Bool-if (λ m. Gives E m) (is_ifthenelse fe)
        (lower_if-E first c t.to_expr e.to_expr hc (ht.1) (he.1))
        (lower_appl_of-E _ f _ h (hc, (ht, (he, tt))))
  lower_appl-E first fe f [] h hs = lower_appl_of-E _ f [] h hs
  lower_appl-E first fe f (a ∷ []) h hs = lower_appl_of-E _ f _ h hs
  lower_appl-E first fe f (a ∷ b ∷ []) h hs = lower_appl_of-E _ f _ h hs
  lower_appl-E first fe f (a ∷ b ∷ c ∷ d ∷ es) h hs = lower_appl_of-E _ f _ h hs

  pub lower_choice-E :
      (k : ChoiceKind) (l r : Sub) → GoodSub l → GoodSub r → Gives E (lower_choice k l r)
  unfolding lower_choice
  lower_choice-E k l r hl hr = Gives-bind _ _ (hl.0) (λ lv hlv. Gives-bind _ _ (hr.0) (λ rv hrv.
      Gives-bind _ _ (named-Named 99 lv _ (omega arith) hlv (hl.1)) (λ a ha.
        Gives-bind _ _ (named-Named 99 rv _ (omega arith) hrv (hr.1)) (λ b hb.
          Gives-bind _ _
            (bind_lets-E (b.1) _ (hb.1) (
              closed.call (closed.operator k)
                (closed.arg (ha.0) (closed.arg (hb.0) closed.no_args))))
            (λ core hc. bind_lets-E (a.1) core (ha.1) hc)))))
