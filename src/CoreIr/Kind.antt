-- ===== src/CoreIr/Kind.antt =====
-- The minimal type check, the second half of src/coreir/cir_effects_type.c: the arity count and the
-- kind check, which looks for effects.
pub mod Laws
use lazyscript.Prelude.{
  ℕ, suc, ◌+◌, Bool, true, false, ◌||◌, ◌&&◌, [], Bytes, codes, ltb, if◌then◌else◌,
}
use lazyscript.Prelude.Int.{ℤ, pos, negsuc}
use lazyscript.CoreIr.Syntax.{
  Value, Values, Expr, Cases, var, lam, no_values, value, no_expr, val, let1, app, ife, effapp,
  token, match1, no_cases, case, is_token,
}

unfoldable mutual
  pub val_has_effects : Value → Bool
  val_has_effects (lam p body) = expr_has_effects body false
  val_has_effects _ = false

  pub vals_have_effects : Values → Bool
  vals_have_effects no_values = false
  vals_have_effects (value v vs) = val_has_effects v || vals_have_effects vs

  -- the flag is passed down as in the source, where nothing reads it
  pub expr_has_effects : Expr → Bool → Bool
  expr_has_effects no_expr t = false
  expr_has_effects (val v) t = val_has_effects v
  expr_has_effects (let1 x bind body) t =
      expr_has_effects bind t || expr_has_effects body (if is_token bind then true else t)
  expr_has_effects (app f xs) t = vals_have_effects xs
  expr_has_effects (ife c e1 e2) t = expr_has_effects e1 t || expr_has_effects e2 t
  expr_has_effects (match1 s cs) t = cases_have_effects cs t
  expr_has_effects (effapp f tok xs) t = true
  expr_has_effects token t = false

  pub cases_have_effects : Cases → Bool → Bool
  cases_have_effects no_cases t = false
  cases_have_effects (case p e cs) t = expr_has_effects e t || cases_have_effects cs t

abbrev pub count_values : Values → ℕ
count_values no_values = 0
count_values (value v vs) = suc (count_values vs)

-- unknown for every name, until a registry exists
unfoldable pub natfun_arity : Bytes → ℤ
natfun_arity name = negsuc 0

-- ar >= 0 && argc > ar
unfoldable pub over_applied : ℤ → ℕ → ℕ
over_applied (pos ar) argc = if ltb ar argc then 1 else 0
over_applied (negsuc _) argc = 0

unfoldable pub head_arity : Value → Values → ℕ
unfolding natfun_arity over_applied
head_arity (var f) xs = over_applied (natfun_arity f) (count_values xs)
head_arity _ xs = 0

unfoldable mutual
  pub check_arity : Expr → ℕ
  check_arity no_expr = 0
  check_arity (val v) = 0
  check_arity (let1 x bind body) = check_arity bind + check_arity body
  check_arity (app f xs) = head_arity f xs
  check_arity (ife c e1 e2) = check_arity e1 + check_arity e2
  check_arity (match1 s cs) = check_arity_cases cs
  check_arity (effapp f tok xs) = 0
  check_arity token = 0

  pub check_arity_cases : Cases → ℕ
  check_arity_cases no_cases = 0
  check_arity_cases (case p e cs) = check_arity e + check_arity_cases cs

-- `g_kind_warn` and `g_kind_error`
pub record Options : Type 0 where
  pub kind_warn : Bool
  pub kind_error : Bool

-- the exit code, and what goes to the output and to the error stream
pub record Verdict : Type 0 where
  pub code : ℕ
  pub out : Bytes
  pub err : Bytes

abbrev pub out_ok : Bytes
out_ok = codes "OK\n"

abbrev pub out_type_error : Bytes
out_type_error = codes "E: type error\n"

abbrev pub err_kind : Bytes
err_kind = codes "E: kind error: IO detected in pure context\n"

abbrev pub warn_kind : Bytes
warn_kind = codes "W: kind: this term performs IO (effects)\n"

abbrev pub answer : ℕ → Bytes → Bytes → Verdict
answer c o e = record { code = c; out = o; err = e }

unfoldable pub typecheck_root : Options → Expr → Verdict
typecheck_root g root =
    if ltb 0 (check_arity root)
    then answer 1 out_type_error []
    else (let has_io = expr_has_effects root false in
        if g.kind_error && has_io
        then answer 1 [] err_kind
        else answer 0 out_ok (if g.kind_warn && has_io then warn_kind else []))

unfoldable pub typecheck : Options → Expr → Verdict
unfolding typecheck_root
typecheck g no_expr = answer 0 out_ok []
typecheck g root = typecheck_root g root
