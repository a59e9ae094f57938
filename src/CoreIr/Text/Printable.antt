-- ===== src/CoreIr/Text/Printable.antt =====
-- The expressions that have a text form, and the fuel that reading it takes.
use lazyscript.Prelude.{ℕ, suc, ◌+◌, ◌≤◌, ◌≡◌, none, List, [], ◌∷◌, Bytes, All, codes, arith}
use lazyscript.CoreIr.Syntax.{
  Pat, Value, Values, Members, Expr, Cases, no_values, value, no_members, member, no_expr, let1,
  app, ife, effapp, match1,
}
use lazyscript.CoreIr.Syntax
use lazyscript.CoreIr.Text.Lexer.{strip}
use lazyscript.CoreIr.Text.Words.{IsName, IsQuotable, IsLong}

-- the name begins with none of the keywords
abbrev pub Misses : List Bytes → Bytes → Type 0
Misses kws x = All (λ kw. strip kw x ≡ none) kws

abbrev pub value_keywords : List Bytes
value_keywords = codes "int" ∷ codes "str" ∷ codes "var" ∷ codes "lam" ∷ codes "nslit" ∷ []

abbrev pub expr_keywords : List Bytes
expr_keywords =
    codes "app" ∷ codes "let" ∷ codes "if" ∷ codes "match" ∷ codes "effapp" ∷ codes "token" ∷ []

-- a constructor that stands as an expression
abbrev pub MissesExpr : Value → Type 0
MissesExpr (Value.constr c vs) = Misses expr_keywords c
MissesExpr _ = Unit

-- What has a text form: no node is NULL and none is a match, numbers fit a long long, strings hold
-- no quote, names are symbols, and a constructor begins with no keyword of its place.
unfoldable mutual
  pub HasText : Value → Type 0
  HasText Value.null = ⊥
  HasText (Value.int n) = IsLong n
  HasText (Value.str s) = IsQuotable s
  HasText (Value.var x) = IsName x
  HasText (Value.constr c vs) = IsName c × Misses value_keywords c × HaveText vs
  HasText (Value.lam p b) = IsName p × ExprHasText b
  HasText (Value.nslit ms) = MembersHaveText ms

  pub HaveText : Values → Type 0
  HaveText no_values = Unit
  HaveText (value v vs) = HasText v × HaveText vs

  pub MembersHaveText : Members → Type 0
  MembersHaveText no_members = Unit
  MembersHaveText (member x v ms) = IsName x × HasText v × MembersHaveText ms

  pub ExprHasText : Expr → Type 0
  ExprHasText no_expr = ⊥
  ExprHasText (Syntax.val v) = HasText v × MissesExpr v
  ExprHasText (let1 x b c) = IsName x × ExprHasText b × ExprHasText c
  ExprHasText (app f xs) = HasText f × HaveText xs
  ExprHasText (ife c t e) = HasText c × ExprHasText t × ExprHasText e
  ExprHasText (effapp f t xs) = HasText f × HasText t × HaveText xs
  ExprHasText Expr.token = Unit
  ExprHasText (match1 v cs) = ⊥

-- The fuel that a node needs.
unfoldable mutual
  pub size : Value → ℕ
  size (Value.constr c vs) = suc (sizes vs)
  size (Value.lam p b) = suc (expr_size b)
  size (Value.nslit ms) = suc (members_size ms)
  size _ = 1

  pub sizes : Values → ℕ
  sizes no_values = 1
  sizes (value v vs) = suc (size v + sizes vs)

  pub members_size : Members → ℕ
  members_size no_members = 1
  members_size (member x v ms) = suc (size v + members_size ms)

  pub expr_size : Expr → ℕ
  expr_size (Syntax.val v) = suc (size v)
  expr_size (let1 x b c) = suc (expr_size b + expr_size c)
  expr_size (app f xs) = suc (size f + sizes xs)
  expr_size (ife c t e) = suc (size c + (expr_size t + expr_size e))
  expr_size (effapp f t xs) = suc (size f + (size t + sizes xs))
  expr_size _ = 1

pub size-pos : (v : Value) → 1 ≤ size v
unfolding size
size-pos v = ground arith

pub sizes-pos : (vs : Values) → 1 ≤ sizes vs
unfolding sizes
sizes-pos vs = ground arith

pub members_size-pos : (ms : Members) → 1 ≤ members_size ms
unfolding members_size
members_size-pos ms = ground arith

pub expr_size-pos : (e : Expr) → 1 ≤ expr_size e
unfolding expr_size
expr_size-pos e = ground arith
