-- ===== src/CoreIr/Effects/Counts.antt =====
-- The error count of the validator: the lines that it writes, and the effect of an outer token.
use lazyscript.Prelude.{
  ◌≤◌, Bool, true, false, ◌≡◌, refl, none, some, arith, length, length-append, if◌then◌else◌,
}
use lazyscript.CoreIr.Syntax.{
  Value, Values, Members, Expr, Cases, null, var, lam, nslit, no_values, value, no_members, member,
  no_expr, val, let1, app, ife, effapp, token, match1, no_cases, case, is_token,
}
use lazyscript.CoreIr.Effects.{
  Check, ◌+?◌, check_scope, check_token, validate_val, validate_vals, validate_members,
  validate_expr, validate_cases,
}

-- `Drops r r'`: the run `r'` counts no more errors than `r`, each run counts the lines that it
-- writes, and the one runs to its end when the other does.
abbrev pub Drops : Check → Check → Type 0
Drops (some (n, a)) (some (m, b)) = (m ≤ n) × (n ≡ length a) × (m ≡ length b)
Drops none none = Unit
Drops _ _ = ⊥

Drops-+? : (a a' b b' : Check) → Drops a a' → Drops b b' → Drops (a +? b) (a' +? b')
Drops-+? (some (n, a)) (some (n', a')) (some (m, b)) (some (m', b')) (p, q, r) (p', q', r') =
    (omega arith, omega (arith, length-append a b), omega (arith, length-append a' b'))
Drops-+? (some _) (some _) none none p q = tt
Drops-+? (some _) (some _) (some _) none p q = elim q [ ]
Drops-+? (some _) (some _) none (some _) p q = elim q [ ]
Drops-+? none none b b' p q = tt
Drops-+? (some _) none b b' p q = elim p [ ]
Drops-+? none (some _) b b' p q = elim p [ ]

-- The flag `u` is set wherever `t` is.
abbrev Below : Bool → Bool → Type 0
Below t u = (t ≡ true) → (u ≡ true)

check_scope-Drops : (t u : Bool) (f : Value) → Below t u → Drops (check_scope t f) (check_scope u f)
unfolding check_scope
check_scope-Drops true true f h = omega arith
check_scope-Drops true false f h = ground (arith, h refl)
check_scope-Drops false true f h = omega arith
check_scope-Drops false false f h = omega arith

check_token-Drops : (tok : Value) → Drops (check_token tok) (check_token tok)
unfolding check_token
check_token-Drops null = tt
check_token-Drops (var x) = omega arith
check_token-Drops _ = omega arith

Below-let : (k t u : Bool) → Below t u → Below (if k then true else t) (if k then true else u)
Below-let true t u h = λ _. refl
Below-let false t u h = h

mutual
  unfolding validate_expr

  value-Drops : (v : Value) (t u : Bool) → Below t u → Drops (validate_val v t) (validate_val v u)
  value-Drops (lam p b) t u h = expr-Drops b false false (λ e. e)
  value-Drops (nslit ms) t u h = members-Drops ms t u h
  value-Drops _ t u h = omega arith

  values-Drops :
      (vs : Values) (t u : Bool) → Below t u → Drops (validate_vals vs t) (validate_vals vs u)
  values-Drops no_values t u h = omega arith
  values-Drops (value v vs) t u h = Drops-+? _ _ _ _ (value-Drops v t u h) (values-Drops vs t u h)

  members-Drops :
      (ms : Members) (t u : Bool)
      → Below t u
      → Drops (validate_members ms t) (validate_members ms u)
  members-Drops no_members t u h = omega arith
  members-Drops (member x v ms) t u h =
      Drops-+? _ _ _ _ (value-Drops v t u h) (members-Drops ms t u h)

  expr-Drops : (e : Expr) (t u : Bool) → Below t u → Drops (validate_expr e t) (validate_expr e u)
  expr-Drops no_expr t u h = omega arith
  expr-Drops (val v) t u h = value-Drops v t u h
  expr-Drops (let1 x a b) t u h =
      Drops-+? _ _ _ _ (expr-Drops a t u h) (expr-Drops b _ _ (Below-let (is_token a) t u h))
  expr-Drops (app f xs) t u h = Drops-+? _ _ _ _ (value-Drops f t u h) (values-Drops xs t u h)
  expr-Drops (ife c a b) t u h =
      Drops-+? _ _ _ _ (value-Drops c t u h)
        (Drops-+? _ _ _ _ (expr-Drops a t u h) (expr-Drops b t u h))
  expr-Drops (match1 v cs) t u h = Drops-+? _ _ _ _ (value-Drops v t u h) (cases-Drops cs t u h)
  expr-Drops (effapp f tok xs) t u h = Drops-+? _ _ _ _ (check_scope-Drops t u f h) (
      Drops-+? _ _ _ _ (value-Drops f t u h)
        (Drops-+? _ _ _ _ (check_token-Drops tok) (values-Drops xs t u h)))
  expr-Drops token t u h = omega arith

  cases-Drops :
      (cs : Cases) (t u : Bool) → Below t u → Drops (validate_cases cs t) (validate_cases cs u)
  cases-Drops no_cases t u h = omega arith
  cases-Drops (case p e cs) t u h = Drops-+? _ _ _ _ (expr-Drops e t u h) (cases-Drops cs t u h)

-- Binding a token around an expression never adds an error to it: the run with a token in scope
-- ends when the one without does, counts at most as many errors, and the count of each is the
-- number of lines that it writes.
pub validate_expr-Drops : (e : Expr) → Drops (validate_expr e false) (validate_expr e true)
validate_expr-Drops e = expr-Drops e false true (λ _. refl)
