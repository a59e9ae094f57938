-- ===== src/CoreIr/Effects.antt =====
-- The effect discipline validator, the first half of src/coreir/cir_effects_type.c.
-- A run is `none` where the code reads through a NULL token, and otherwise the error count with the
-- lines written to the error stream.
pub mod Sites
pub mod Accepts
pub mod Counts
use lazyscript.Prelude.{
  ℕ, ◌+◌, Bool, true, false, ◌||◌, Option, none, some, List, [], ◌∷◌, ◌++◌, Bytes, codes, take,
  if◌then◌else◌,
}
use lazyscript.Prelude.Decimal.{show_ℤ}
use lazyscript.CoreIr.Syntax.{
  Value, Values, Members, Expr, Cases, null, int, str, constr, var, lam, nslit, no_values, value,
  no_members, member, no_expr, val, let1, app, ife, effapp, token, match1, no_cases, case, is_token,
}

abbrev pub Check : Type 0
Check = Option (ℕ × List Bytes)

-- no error, and nothing written
abbrev pub clean : Check
clean = some (0, [])

abbrev pub report : Bytes → Check
report line = some (1, line ∷ [])

-- `errs += …`, with what both parts write
infixr 60 ◌+?◌
abbrev pub ◌+?◌ : Check → Check → Check
some (n, a) +? some (m, b) = some (n + m, a ++ b)
some _ +? none = none
none +? c = none

-- `cir_val_repr` with a buffer of 64 bytes, of which `snprintf` fills 63
unfoldable pub val_text : Value → Bytes
val_text null = codes "<null>"
val_text (int n) = codes "int " ++ show_ℤ n
val_text (str s) = codes "str ..."
val_text (var x) = codes "var " ++ x
val_text (constr c xs) = c ++ codes "(...)"
val_text (lam p b) = codes "lam " ++ p
val_text (nslit ms) = codes "nslit{...}"

unfoldable pub val_repr : Value → Bytes
unfolding val_text
val_repr v = take 63 (val_text v)

-- the two tests of an effect application, each with its line
unfoldable pub check_scope : Bool → Value → Check
check_scope true f = clean
check_scope false f = report (
    codes "E: EffApp("
    ++ (val_repr f ++ codes "): requires in-scope token (introduce via (token) let).\n"))

unfoldable pub check_token : Value → Check
check_token null = none
check_token (var x) = clean
check_token v =
    report (codes "E: EffApp token must be a variable, got: " ++ (val_repr v ++ codes ".\n"))

unfoldable mutual
  pub validate_val : Value → Bool → Check
  validate_val (lam p body) t = validate_expr body false
  validate_val (nslit ms) t = validate_members ms t
  validate_val _ t = clean

  pub validate_vals : Values → Bool → Check
  validate_vals no_values t = clean
  validate_vals (value v vs) t = validate_val v t +? validate_vals vs t

  pub validate_members : Members → Bool → Check
  validate_members no_members t = clean
  validate_members (member x v ms) t = validate_val v t +? validate_members ms t

  pub validate_expr : Expr → Bool → Check
  validate_expr no_expr t = clean
  validate_expr (val v) t = validate_val v t
  validate_expr (let1 x bind body) t =
      validate_expr bind t +? validate_expr body (if is_token bind then true else t)
  validate_expr (app f xs) t = validate_val f t +? validate_vals xs t
  validate_expr (ife c e1 e2) t = validate_val c t +? (validate_expr e1 t +? validate_expr e2 t)
  validate_expr (match1 s cs) t = validate_val s t +? validate_cases cs t
  validate_expr (effapp f tok xs) t =
      check_scope t f +? (validate_val f t +? (check_token tok +? validate_vals xs t))
  validate_expr token t = clean

  pub validate_cases : Cases → Bool → Check
  validate_cases no_cases t = clean
  validate_cases (case p e cs) t = validate_expr e t +? validate_cases cs t

-- A program is its root; a missing program or root is `no_expr`.
unfoldable pub validate_effects : Expr → Check
unfolding validate_expr
validate_effects root = validate_expr root false
