-- ===== src/CoreIr/Lower/Plain.antt =====
-- The syntax trees whose lowering has a text form, and what the parts of the lowering make of them.
use lazyscript.Prelude.{
  ℕ, zero, suc, ◌+◌, ◌/◌, ◌%◌, ◌<◌, Bool-cases, inl, inr, false, ◌≡◌, Option, none, some, [], ◌∷◌,
  Bytes, All, arith, ltb,
}
use lazyscript.Prelude.Decimal.{show_ℕ, digits_onto}
use lazyscript.Common.LsInt
use lazyscript.Ast.Pattern.{Pat}
use lazyscript.Ast.Pattern
use lazyscript.Ast.Syntax.{
  ChoiceKind, Exprs, Binds, appl, choice, closure, lambda, alge, nslit, no_exprs, expr, no_binds,
  bind,
}
use lazyscript.Ast
use lazyscript.CoreIr.Text.Lexer.{is_delimiter}
use lazyscript.CoreIr.Text.Words.{IsName, IsQuotable, IsLong}
use lazyscript.CoreIr.Text.Printable.{
  Misses, value_keywords, expr_keywords, HasText, HaveText, ExprHasText,
}
use lazyscript.CoreIr.Lower.Heads.{c_string, after_dot, prelude_sym}
use lazyscript.CoreIr.Lower.{Platform, extract_pat_name, choice_operator}
use lazyscript.CoreIr.Lower.Closed.{Closed, Letter}

-- what the function of an application needs, from the member of the prelude that it names
abbrev pub PlainHead : Option Bytes → Type 0 → Type 0
PlainHead none P = P
PlainHead (some sym) P = IsName sym

abbrev pub PlainLhs : Pat → Type 0
PlainLhs (Pattern.ref x) = IsName (c_string x)
PlainLhs _ = ⊥

-- No symbol or raise, except in a member of the prelude; only references are bound; the parts of
-- constructors and namespaces are values; names are symbols of the Core IR, and a constructor begins
-- with no keyword; strings hold no quote, and numbers fit a long long.
unfoldable mutual
  unfolding LsInt.print extract_pat_name c_string after_dot prelude_sym

  pub IsPlainValue : Platform → Ast.Syntax.Expr → Type 0
  IsPlainValue c (Ast.Syntax.int n) = IsLong (c.atoll (LsInt.print n))
  IsPlainValue c (Ast.Syntax.str s) = IsQuotable s
  IsPlainValue c (Ast.Syntax.ref r) = IsName (c_string r)
  IsPlainValue c (alge k es) =
      IsName (c_string k) × Misses value_keywords (c_string k) × ArePlainValues c es
  IsPlainValue c (lambda p b) = IsName (extract_pat_name p) × IsPlain c b
  IsPlainValue c (nslit ms) = MembersArePlain c ms
  IsPlainValue c _ = ⊥

  pub IsPlain : Platform → Ast.Syntax.Expr → Type 0
  IsPlain c (appl f es) = PlainHead (prelude_sym f) (IsPlain c f) × ArePlain c es
  IsPlain c (choice k l r) = IsPlain c l × IsPlain c r
  IsPlain c (closure e bs) = IsPlain c e × BindsArePlain c bs
  IsPlain c (Ast.Syntax.int n) = IsLong (c.atoll (LsInt.print n))
  IsPlain c (Ast.Syntax.str s) = IsQuotable s
  IsPlain c (Ast.Syntax.ref r) = IsName (c_string r)
  IsPlain c (alge k es) =
      (IsName (c_string k) × Misses value_keywords (c_string k) × ArePlainValues c es)
      × Misses expr_keywords (c_string k)
  IsPlain c (lambda p b) = IsName (extract_pat_name p) × IsPlain c b
  IsPlain c (nslit ms) = MembersArePlain c ms
  IsPlain c _ = ⊥

  pub ArePlainValues : Platform → Exprs → Type 0
  ArePlainValues c no_exprs = Unit
  ArePlainValues c (expr e es) = IsPlainValue c e × ArePlainValues c es

  pub ArePlain : Platform → Exprs → Type 0
  ArePlain c no_exprs = Unit
  ArePlain c (expr e es) = IsPlain c e × ArePlain c es

  pub BindsArePlain : Platform → Binds → Type 0
  BindsArePlain c no_binds = Unit
  BindsArePlain c (bind p e bs) = PlainLhs p × IsPlain c e × BindsArePlain c bs

  pub MembersArePlain : Platform → Ast.Syntax.Members → Type 0
  MembersArePlain c Ast.Syntax.no_members = Unit
  MembersArePlain c (Ast.Syntax.member x e ms) =
      IsName (after_dot (c_string x)) × IsPlainValue c e × MembersArePlain c ms

-- Generated names are symbols.
abbrev NoDelimiter : ℕ → Type 0
NoDelimiter b = is_delimiter b ≡ false

digit-NoDelimiter : (d : ℕ) → d < 10 → NoDelimiter (48 + d)
digit-NoDelimiter d h = ground arith

digits_onto-NoDelimiter :
    (fuel n : ℕ) (acc : Bytes) → All NoDelimiter acc → All NoDelimiter (digits_onto fuel n acc)
unfolding digits_onto
digits_onto-NoDelimiter zero n acc h = h
digits_onto-NoDelimiter (suc fuel) n acc h =
    let here : All NoDelimiter ((48 + n % 10) ∷ acc) =
      (digit-NoDelimiter (n % 10) (omega arith), h) in
    elim (Bool-cases (ltb n 10)) [
      | inl p ↦ rw p here
      | inr p ↦ rw p (digits_onto-NoDelimiter fuel (n / 10) ((48 + n % 10) ∷ acc) here)
    ]

Letter-IsName : (b : ℕ) (s : Bytes) → Letter b → All NoDelimiter s → IsName (b ∷ 36 ∷ s)
Letter-IsName b s h a = ground arith

fresh-IsName : (b n : ℕ) → Letter b → IsName (b ∷ 36 ∷ show_ℕ n)
unfolding show_ℕ
fresh-IsName b n h = Letter-IsName b _ h (digits_onto-NoDelimiter (suc n) n [] tt)

operator-IsName : (k : ChoiceKind) → IsName (choice_operator k)
unfolding choice_operator
operator-IsName ChoiceKind.lambda = ground arith
operator-IsName ChoiceKind.expr = ground arith
operator-IsName ChoiceKind.catch = ground arith

pub text_closed : Closed HasText HaveText ExprHasText
unfolding HasText HaveText ExprHasText
text_closed = record {
  no_args = tt;
  arg = λ h k. (h, k);
  call = λ h k. (h, k);
  branch = λ h k l. (h, k, l);
  fresh = λ b n t. fresh-IsName b n t;
  bound = λ b n t h k. (fresh-IsName b n t, h, k);
  operator = λ k. operator-IsName k;
}
