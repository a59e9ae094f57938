-- ===== src/Ast/Pattern.antt =====
-- Patterns: src/pat/pat.c, src/pat/palge.c and src/pat/pas.c, with their printer at indent 0. No part
-- of a pattern is NULL; a name is the bytes of its string.
use lazyscript.Prelude.{ℕ, ◌+◌, ◌&&◌, ◌==◌, [], ◌∷◌, ◌++◌, Bytes, codes, same, ltb, if◌then◌else◌}
use lazyscript.Common.LsInt.{LsInt}
use lazyscript.Common.LsInt
use lazyscript.Common.Str.Literal

mutual
  pub data Pat : Type 0 where
    alge : Bytes → Pats → Pat
    as_pat : Bytes → Pat → Pat
    int : LsInt → Pat
    str : Bytes → Pat
    ref : Bytes → Pat
    wildcard : Pat
    or_pat : Pat → Pat → Pat
    caret : Pat → Pat

  pub data Pats : Type 0 where
    nil : Pats
    cons : Pat → Pats → Pats

-- lspalge_add_arg, on the arguments
unfoldable pub add_arg : Pats → Pat → Pats
add_arg nil p = cons p nil
add_arg (cons q qs) p = cons q (add_arg qs p)

-- lspalge_concat_args, on the arguments
unfoldable pub concat_args : Pats → Pats → Pats
concat_args nil ps = ps
concat_args (cons q qs) ps = cons q (concat_args qs ps)

unfoldable pub count : Pats → ℕ
count nil = 0
count (cons p ps) = count ps + 1

-- the precedences
abbrev pub prec_lowest : ℕ
prec_lowest = 0

abbrev pub prec_choice : ℕ
prec_choice = 1

abbrev pub prec_cons : ℕ
prec_cons = 2

abbrev pub prec_appl : ℕ
prec_appl = 4

-- the text in parentheses where the place binds tighter than the operator
unfoldable pub parens : ℕ → ℕ → Bytes → Bytes
parens level prec s = if ltb level prec then 40 ∷ (s ++ 41 ∷ []) else s

-- lspalge_print: from the number of arguments, the operands of the list operator, the arguments
-- behind commas and those behind spaces
unfoldable pub alge_text : ℕ → Bytes → ℕ → Bytes → Bytes → Bytes → Bytes
unfolding parens
alge_text prec c n operands commas spaces =
    if same c (codes ":") && n == 2
    then parens prec_cons prec operands
    else if same c (codes "[]")
    then 91 ∷ (commas ++ 93 ∷ [])
    else if same c (codes ",")
    then 40 ∷ (commas ++ 41 ∷ [])
    else if n == 0
    then c
    else parens prec_appl prec (c ++ spaces)

unfoldable mutual
  unfolding parens LsInt.print Literal.print count alge_text

  pub print_pat : ℕ → Pat → Bytes
  print_pat prec (alge c ps) =
      alge_text prec c (count ps) (print_operands ps) (print_commas ps) (print_spaces ps)
  print_pat prec (as_pat r p) =
      parens prec_appl prec (126 ∷ (r ++ 64 ∷ print_pat (prec_appl + 1) p))
  print_pat prec (int n) = LsInt.print n
  print_pat prec (str s) = Literal.print s
  print_pat prec (ref r) = 126 ∷ r
  print_pat prec wildcard = codes "_"
  print_pat prec (or_pat p q) =
      parens prec_choice prec
        (print_pat (prec_choice + 1) p ++ (codes " | " ++ print_pat prec_choice q))
  print_pat prec (caret p) = codes "^(" ++ (print_pat prec_lowest p ++ 41 ∷ [])

  -- the two operands of `:`
  print_operands : Pats → Bytes
  print_operands nil = []
  print_operands (cons p ps) = print_pat (prec_cons + 1) p ++ (codes " : " ++ print_operand ps)

  print_operand : Pats → Bytes
  print_operand nil = []
  print_operand (cons q ps) = print_pat prec_cons q

  print_commas : Pats → Bytes
  print_commas nil = []
  print_commas (cons p ps) = print_pat prec_lowest p ++ print_more ps

  print_more : Pats → Bytes
  print_more nil = []
  print_more (cons p ps) = codes ", " ++ (print_pat prec_lowest p ++ print_more ps)

  print_spaces : Pats → Bytes
  print_spaces nil = []
  print_spaces (cons p ps) = 32 ∷ (print_pat (prec_appl + 1) p ++ print_spaces ps)
