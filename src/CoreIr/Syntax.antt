-- ===== src/CoreIr/Syntax.antt =====
-- The data model of src/coreir/coreir.h. A `null` constructor is the NULL pointer, which the reader
-- stores where a part of the text is missing. Names are C strings that are not NULL, and a count
-- beside an array is the length of the list.
use lazyscript.Prelude.{Bool, true, false, Bytes}
use lazyscript.Prelude.Int.{ℤ}

mutual
  pub data Pat : Type 0 where
    null wildcard : Pat
    var : Bytes → Pat
    constr : Bytes → Pats → Pat
    int : ℤ → Pat
    str : Bytes → Pat

  pub data Pats : Type 0 where
    nil : Pats
    cons : Pat → Pats → Pats

mutual
  pub data Value : Type 0 where
    null : Value
    int : ℤ → Value
    str : Bytes → Value
    constr : Bytes → Values → Value
    var : Bytes → Value
    lam : Bytes → Expr → Value
    nslit : Members → Value

  pub data Values : Type 0 where
    no_values : Values
    value : Value → Values → Values

  -- the arrays `names` and `vals` of a namespace literal
  pub data Members : Type 0 where
    no_members : Members
    member : Bytes → Value → Members → Members

  pub data Expr : Type 0 where
    no_expr : Expr
    val : Value → Expr
    let1 : Bytes → Expr → Expr → Expr
    app : Value → Values → Expr
    ife : Value → Expr → Expr → Expr
    effapp : Value → Value → Values → Expr
    token : Expr
    match1 : Value → Cases → Expr

  pub data Cases : Type 0 where
    no_cases : Cases
    case : Pat → Expr → Cases → Cases

-- e && e->kind == LCIR_EXP_TOKEN
unfoldable pub is_token : Expr → Bool
is_token token = true
is_token _ = false
