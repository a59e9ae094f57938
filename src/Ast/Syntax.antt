-- ===== src/Ast/Syntax.antt =====
-- Expressions: src/expr and src/misc/bind.c, without the places in the source text that a node
-- carries for error messages and comments. No part of an expression is NULL.
use lazyscript.Prelude.{Bytes}
use lazyscript.Common.LsInt.{LsInt}
use lazyscript.Ast.Pattern.{Pat}

pub data ChoiceKind : Type 0 where
  lambda expr catch : ChoiceKind

mutual
  pub data Expr : Type 0 where
    alge : Bytes → Exprs → Expr
    appl : Expr → Exprs → Expr
    ref : Bytes → Expr
    int : LsInt → Expr
    str : Bytes → Expr
    lambda : Pat → Expr → Expr
    closure : Expr → Binds → Expr
    choice : ChoiceKind → Expr → Expr → Expr
    nslit : Members → Expr
    symbol : Bytes → Expr
    raise : Expr → Expr

  pub data Exprs : Type 0 where
    no_exprs : Exprs
    expr : Expr → Exprs → Exprs

  -- the bindings of a closure, in their order in the array
  pub data Binds : Type 0 where
    no_binds : Binds
    bind : Pat → Expr → Binds → Binds

  -- the arrays `names` and `exprs` of a namespace literal
  pub data Members : Type 0 where
    no_members : Members
    member : Bytes → Expr → Members → Members

-- lsealge_add_arg and lseappl_add_arg, on the arguments
unfoldable pub add_arg : Exprs → Expr → Exprs
add_arg no_exprs e = expr e no_exprs
add_arg (expr a as') e = expr a (add_arg as' e)

-- lsealge_concat_args and lseappl_concat_args, on the arguments
unfoldable pub concat_args : Exprs → Exprs → Exprs
concat_args no_exprs es = es
concat_args (expr a as') es = expr a (concat_args as' es)
