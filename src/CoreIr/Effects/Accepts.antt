-- ===== src/CoreIr/Effects/Accepts.antt =====
-- The two verdicts on a program: nothing to report, and no read through a NULL token.
use lazyscript.Prelude.{Bool, true, false, ◌≡◌, refl, ◌↔◌, ◌≢◌, none, some, [], ◌∷◌, arith}
use lazyscript.CoreIr.Syntax.{Value, Expr, null, int, str, constr, var, lam, nslit}
use lazyscript.CoreIr.Effects.{Check, clean, ◌+?◌, check_scope, check_token, validate_effects}
use lazyscript.CoreIr.Effects.Sites.{InExpr, IsVar, Verdict, validate_expr-Verdict}

+?-clean : (a b : Check) → (a +? b) ≡ clean → (a ≡ clean) × (b ≡ clean)
+?-clean none b h = ground arith
+?-clean (some a) none h = ground arith
+?-clean (some (n, [])) (some (m, b)) h = ground arith
+?-clean (some (n, x ∷ a)) (some (m, b)) h = ground arith

check_scope-clean : (s : Bool) (f : Value) → check_scope s f ≡ clean → s ≡ true
unfolding check_scope
check_scope-clean true f h = refl
check_scope-clean false f h = ground arith

check_token-clean : (tok : Value) → check_token tok ≡ clean → IsVar tok
unfolding check_token
check_token-clean (var x) h = tt
check_token-clean null h = ground arith
check_token-clean (int _) h = ground arith
check_token-clean (str _) h = ground arith
check_token-clean (constr _ _) h = ground arith
check_token-clean (lam _ _) h = ground arith
check_token-clean (nslit _) h = ground arith

check_token-var : (tok : Value) → IsVar tok → check_token tok ≡ clean
unfolding check_token
check_token-var (var x) h = refl
check_token-var null h = elim h [ ]
check_token-var _ h = elim h [ ]

clean_verdict : Verdict (λ r. r ≡ clean) (λ s tok. (s ≡ true) × IsVar tok)
unfolding check_scope
clean_verdict = record {
  nothing = refl;
  split = +?-clean;
  join = λ a b p q. rw (p, q);
  site = λ s f tok p q. (check_scope-clean s f p, check_token-clean tok q);
  site_scope = λ s f tok h. rw h.0;
  site_token = λ s tok h. check_token-var tok h.1;
}

-- The validator reports no error and writes nothing exactly when every effect application that
-- occurs in the program stands under a `let` that binds `(token)` with no lambda between the two,
-- and its token argument is a variable.
pub validate_effects-clean_iff :
    (root : Expr)
    → (validate_effects root ≡ clean)
      ↔ ((s : Bool) (tok : Value) → InExpr s tok false root → (s ≡ true) × IsVar tok)
unfolding validate_effects
validate_effects-clean_iff root = validate_expr-Verdict clean_verdict root false

+?-ne-none : (a b : Check) → (a +? b) ≢ none → (a ≢ none) × (b ≢ none)
+?-ne-none none b h = absurd (h refl)
+?-ne-none (some a) none h = absurd (h refl)
+?-ne-none (some (n, a)) (some (m, b)) h = (cc, cc)

+?-some : (a b : Check) → a ≢ none → b ≢ none → (a +? b) ≢ none
+?-some none b p q = absurd (p refl)
+?-some (some a) none p q = absurd (q refl)
+?-some (some (n, a)) (some (m, b)) p q = cc

check_scope-some : (s : Bool) (f : Value) → check_scope s f ≢ none
unfolding check_scope
check_scope-some true f = cc
check_scope-some false f = cc

check_token-some : (tok : Value) → tok ≢ null → check_token tok ≢ none
unfolding check_token
check_token-some null h = absurd (h refl)
check_token-some _ h = cc

check_token-null : (tok : Value) → check_token tok ≢ none → tok ≢ null
unfolding check_token
check_token-null tok h e = ground arith

run_verdict : Verdict (λ r. r ≢ none) (λ s tok. tok ≢ null)
run_verdict = record {
  nothing = cc;
  split = +?-ne-none;
  join = +?-some;
  site = λ s f tok p q. check_token-null tok q;
  site_scope = λ s f tok h. check_scope-some s f;
  site_token = λ s tok h. check_token-some tok h;
}

-- The validator runs to its end exactly when no effect application that occurs in the program has
-- a NULL token, which the reader leaves where a text ends too early; otherwise it reads through it.
pub validate_effects-some_iff :
    (root : Expr)
    → (validate_effects root ≢ none)
      ↔ ((s : Bool) (tok : Value) → InExpr s tok false root → tok ≢ null)
unfolding validate_effects
validate_effects-some_iff root = validate_expr-Verdict run_verdict root false
