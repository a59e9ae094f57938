-- ===== src/CoreIr/Text/Reader.antt =====
-- The text reader, src/coreir/cir_text_reader.c. The functions for values and expressions are the
-- arguments `val` and `expr` of those for a list in parentheses.
use lazyscript.Prelude.{ℕ, zero, suc, true, false, Option, none, some, Bytes, codes}
use lazyscript.CoreIr.Syntax.{
  Pat, Pats, wildcard, Value, Values, Members, Expr, Cases, no_values, value, no_members, member,
  no_expr, let1, app, ife, effapp, match1, no_cases, case,
}
use lazyscript.CoreIr.Syntax
use lazyscript.CoreIr.Text.Lexer.{
  Read, bad_node, out_of_fuel, ◌>>=◌, ◌>>◌, pure, match, peek, read_symbol, read_string, read_int,
  accept_kw, named, closing, keyword,
}
use lazyscript.CoreIr.Text.Patterns.{parse_pat}

-- while (!peek(r, ')')) ...: a missing parenthesis does not end the loop
unfoldable pub parse_args : (Bytes → Read Value) → ℕ → Bytes → Read Values
unfolding ◌>>=◌ peek match
parse_args val zero = λ r. out_of_fuel
parse_args val (suc fuel) = do
  at_end ← peek 41
  elim at_end [
    | true ↦ do match 41; pure no_values
    | false ↦ do v ← val; vs ← parse_args val fuel; pure (value v vs)
  ]

abbrev pub add_member : Option Bytes → Value → Option Members → Bytes → Read (Option Members)
add_member x v none = pure none
add_member x v (some ms) = named (λ s. some (member s v ms)) x

-- while (peek(r, '(')) { ... }: (name value)
unfoldable pub parse_members : (Bytes → Read Value) → ℕ → Bytes → Read (Option Members)
unfolding ◌>>=◌ peek match read_symbol
parse_members val zero = λ r. out_of_fuel
parse_members val (suc fuel) = do
  more ← peek 40
  elim more [
    | false ↦ pure (some no_members)
    | true ↦ do
      match 40
      x ← read_symbol
      v ← val
      closed ← match 41
      elim closed [ false ↦ pure none | true ↦ do ms ← parse_members val fuel; add_member x v ms ]
  ]

module _ (val : Bytes → Read Value) (expr : Bytes → Read Expr) where
  unfoldable pub parse_nslit : ℕ → Bytes → Read Value
  unfolding ◌>>=◌ parse_members closing
  parse_nslit fuel = do
    ms ← parse_members val fuel
    elim ms [ none ↦ pure Value.null | some ms ↦ closing Value.null (pure (Value.nslit ms)) ]

  unfoldable pub parse_constr : ℕ → Bytes → Read Value
  unfolding ◌>>=◌ parse_args read_symbol
  parse_constr fuel = do
    c ← read_symbol
    elim c [
      | none ↦ pure Value.null
      | some c ↦ do vs ← parse_args val fuel; pure (Value.constr c vs)
    ]

  -- a value behind its opening parenthesis
  unfoldable pub parse_val_list : ℕ → Bytes → Read Value
  unfolding ◌>>=◌ keyword closing read_int read_string read_symbol parse_nslit parse_constr
  parse_val_list fuel =
      keyword (codes "int") (do n ← read_int; closing Value.null (pure (Value.int n)))
        (keyword (codes "str") (do s ← read_string; closing Value.null (named Value.str s))
          (keyword (codes "var") (do x ← read_symbol; closing Value.null (named Value.var x))
            (keyword (codes "lam")
              (do p ← read_symbol; b ← expr; closing Value.null (named (λ s. Value.lam s b) p))
              (keyword (codes "nslit") (parse_nslit fuel) (parse_constr fuel)))))

abbrev pub add_case : Pat → Expr → Option Cases → Option Cases
add_case p b none = none
add_case p b (some cs) = some (case p b cs)

-- How the loop over the cases ends: at the first text that is no case, with the cases read so far,
-- or in an error.
unfoldable pub parse_cases :
    (Bytes → Read Pat) → (Bytes → Read Expr) → ℕ → Bytes → Read (Option Cases)
unfolding ◌>>=◌ peek match accept_kw
parse_cases pat expr zero = λ r. out_of_fuel
parse_cases pat expr (suc fuel) = do
  more ← peek 40
  elim more [
    | false ↦ pure (some no_cases)
    | true ↦ do
      match 40
      p ← pat
      arrow ← accept_kw (codes "->")
      elim arrow [
        | false ↦ pure none
        | true ↦ do
          b ← expr
          closed ← match 41
          elim closed [
            | false ↦ pure none
            | true ↦ do cs ← parse_cases pat expr fuel; pure (add_case p b cs)
          ]
      ]
  ]

-- if (!v) return NULL; return mk_e_val(v);
abbrev pub e_val : Value → Expr
e_val Value.null = no_expr
e_val v = Syntax.val v

-- The table of pointers to cases is cast to a table of cases: only an empty one means what it says.
abbrev pub mk_e_match : Value → Cases → Bytes → Read Expr
mk_e_match v no_cases = pure (match1 v no_cases)
mk_e_match v (case _ _ _) = λ r. bad_node

module _ (val : Bytes → Read Value) (expr : Bytes → Read Expr) (pat : Bytes → Read Pat) where
  unfoldable pub parse_app : ℕ → Bytes → Read Expr
  unfolding ◌>>=◌ parse_args
  parse_app fuel = do f ← val; xs ← parse_args val fuel; pure (app f xs)

  unfoldable pub parse_let : Bytes → Read Expr
  unfolding ◌>>=◌ closing read_symbol
  parse_let = do x ← read_symbol; b ← expr; c ← expr; closing no_expr (named (λ s. let1 s b c) x)

  unfoldable pub parse_if : Bytes → Read Expr
  unfolding ◌>>=◌ closing
  parse_if = do c ← val; t ← expr; e ← expr; closing no_expr (pure (ife c t e))

  unfoldable pub parse_match : ℕ → Bytes → Read Expr
  unfolding ◌>>=◌ closing parse_cases
  parse_match fuel = do
    v ← val
    cs ← parse_cases pat expr fuel
    elim cs [ none ↦ pure no_expr | some cs ↦ closing no_expr (mk_e_match v cs) ]

  unfoldable pub parse_effapp : ℕ → Bytes → Read Expr
  unfolding ◌>>=◌ parse_args
  parse_effapp fuel = do f ← val; t ← val; xs ← parse_args val fuel; pure (effapp f t xs)

  -- `parse_val_tail` repeats the text of `parse_val_list`
  unfoldable pub parse_val_tail : ℕ → Bytes → Read Value
  unfolding parse_val_list
  parse_val_tail fuel = parse_val_list val expr fuel

  -- an expression behind its opening parenthesis
  unfoldable pub parse_expr_list : ℕ → Bytes → Read Expr
  unfolding ◌>>=◌ keyword closing parse_app parse_let parse_if parse_match parse_effapp
      parse_val_tail
  parse_expr_list fuel = keyword (codes "app") (parse_app fuel) (
      keyword (codes "let") parse_let (
        keyword (codes "if") parse_if (
          keyword (codes "match") (parse_match fuel) (
            keyword (codes "effapp") (parse_effapp fuel) (
              keyword (codes "token") (closing no_expr (pure Expr.token))
                (do v ← parse_val_tail fuel; pure (e_val v)))))))

-- a value without parentheses
abbrev pub bare_val : Option Bytes → Value
bare_val none = Value.null
bare_val (some s) = Value.var s

-- Each call spends a unit of fuel: a text that ends in a list of values is read without end.
unfoldable mutual
  unfolding ◌>>=◌ match read_symbol parse_val_list parse_expr_list parse_pat

  pub parse_val : ℕ → Bytes → Read Value
  parse_val zero = λ r. out_of_fuel
  parse_val (suc fuel) = do
    opened ← match 40
    elim opened [
      | true ↦ parse_val_list (parse_val fuel) (parse_expr fuel) fuel
      | false ↦ do s ← read_symbol; pure (bare_val s)
    ]

  pub parse_expr : ℕ → Bytes → Read Expr
  parse_expr zero = λ r. out_of_fuel
  parse_expr (suc fuel) = do
    opened ← match 40
    elim opened [
      | true ↦ parse_expr_list (parse_val fuel) (parse_expr fuel) (parse_pat fuel) fuel
      | false ↦ do v ← parse_val fuel; pure (e_val v)
    ]
