-- ===== src/CoreIr/Text/Program.antt =====
-- Whole texts: `lscir_print` for a program with a root, src/coreir/cir_lower_print.c, and
-- `lscir_read_text` on the contents of a file, src/coreir/cir_text_reader.c.
pub mod Laws
use lazyscript.Prelude.{
  ℕ, Bool, true, false, ◌&&◌, Option, none, some, [], ◌∷◌, ◌++◌, Bytes, codes, length, leb, ◌==◌,
  if◌then◌else◌,
}
use lazyscript.CoreIr.Syntax.{Expr, no_expr}
use lazyscript.CoreIr.Text.Lexer.{
  Read, got, bad_node, out_of_fuel, skip, skip_ws, is_space, strip, then_read,
}
use lazyscript.CoreIr.Text.Printer.{print_expr}
use lazyscript.CoreIr.Text.Reader.{parse_expr}

unfoldable pub print_program : Expr → Bytes
unfolding print_expr
print_program root = codes "; CoreIR dump (temporary)\n" ++ print_expr root (10 ∷ [])

-- How a file is read: to a program, or to NULL, as it is empty, its header is another one, or it is
-- no expression.
pub data Loaded : Type 0 where
  program : Expr → Loaded
  empty_file bad_header parse_error : Loaded

abbrev pub header : Bytes
header = codes "LCIR v0"

-- the line up to its end, and the text from there
unfoldable pub span_line : Bytes → Bytes × Bytes
span_line [] = ([], [])
span_line (c ∷ r) = let more = span_line r in if c == 10 then ([], c ∷ r) else (c ∷ more.0, more.1)

unfoldable pub trim : Bytes → Bytes
trim [] = []
trim (c ∷ r) = if is_space c then trim r else c ∷ r

abbrev pub is_none : Option Bytes → Bool
is_none none = true
is_none (some r) = false

-- a first line that is too short for the header passes
unfoldable pub is_bad_header : Bytes → Bool
unfolding trim strip
is_bad_header line = let l = trim line in leb (length header) (length l) && is_none (strip header l)

abbrev pub loaded : Expr → Bytes → Read Loaded
loaded no_expr rest = got parse_error rest
loaded e rest = got (program e) rest

unfoldable pub parse_program : ℕ → Bytes → Read Loaded
unfolding parse_expr then_read
parse_program fuel r = then_read loaded (parse_expr fuel r)

-- the text behind a semicolon is `c ∷ r` without it
unfoldable pub read_from : ℕ → Bytes → Read Loaded
unfolding span_line is_bad_header parse_program
read_from fuel [] = parse_program fuel []
read_from fuel (c ∷ r) =
    let (line, rest) = span_line r in
    let plain = parse_program fuel (c ∷ r) in
    if c == 59
    then (if is_bad_header line then got bad_header rest else parse_program fuel rest)
    else plain

unfoldable pub read_text : ℕ → Bytes → Read Loaded
unfolding skip read_from
read_text fuel [] = got empty_file []
read_text fuel (c ∷ r) = read_from fuel (skip_ws (c ∷ r))
