-- ===== src/CoreIr/Text/Patterns.antt =====
-- The patterns of the text reader, src/coreir/cir_text_reader.c.
use lazyscript.Prelude.{
  ℕ, zero, suc, true, false, Option, none, some, Bytes, codes, same, if◌then◌else◌,
}
use lazyscript.CoreIr.Syntax.{Pat, Pats, wildcard}
use lazyscript.CoreIr.Text.Lexer.{
  Read, out_of_fuel, ◌>>=◌, ◌>>◌, pure, match, peek, read_symbol, read_string, read_int, named,
  closing, keyword,
}

-- while (!peek(r, ')')) ..., for patterns
unfoldable pub parse_pats : (Bytes → Read Pat) → ℕ → Bytes → Read Pats
unfolding ◌>>=◌ peek match
parse_pats pat zero = λ r. out_of_fuel
parse_pats pat (suc fuel) = do
  at_end ← peek 41
  elim at_end [
    | true ↦ do match 41; pure Pats.nil
    | false ↦ do p ← pat; ps ← parse_pats pat fuel; pure (Pats.cons p ps)
  ]

unfoldable pub parse_pat_constr : (Bytes → Read Pat) → ℕ → Bytes → Read Pat
unfolding ◌>>=◌ parse_pats read_symbol
parse_pat_constr pat fuel = do
  c ← read_symbol
  elim c [ none ↦ pure Pat.null | some c ↦ do ps ← parse_pats pat fuel; pure (Pat.constr c ps) ]

unfoldable pub parse_pat_list : (Bytes → Read Pat) → ℕ → Bytes → Read Pat
unfolding ◌>>=◌ keyword closing read_int read_string read_symbol parse_pat_constr
parse_pat_list pat fuel = keyword (codes "_") (closing Pat.null (pure wildcard)) (
    keyword (codes "var") (do x ← read_symbol; closing Pat.null (named Pat.var x))
      (keyword (codes "int") (do n ← read_int; closing Pat.null (pure (Pat.int n)))
        (keyword (codes "str") (do s ← read_string; closing Pat.null (named Pat.str s))
          (parse_pat_constr pat fuel))))

-- a pattern without parentheses
abbrev pub bare_pat : Option Bytes → Pat
bare_pat none = Pat.null
bare_pat (some s) = if same s (codes "_") then wildcard else Pat.var s

unfoldable pub parse_pat : ℕ → Bytes → Read Pat
unfolding ◌>>=◌ match parse_pat_list read_symbol
parse_pat zero = λ r. out_of_fuel
parse_pat (suc fuel) = do
  opened ← match 40
  elim opened [
    | true ↦ parse_pat_list (parse_pat fuel) fuel
    | false ↦ do s ← read_symbol; pure (bare_pat s)
  ]
