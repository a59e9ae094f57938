-- ===== src/Thunk/Build/Sound/Expressions.antt =====
-- The construction of thunks in sound heaps, for syntax trees without a raise, which runs code.
use lazyscript.Prelude.{ℕ, ◌<◌, List, [], ◌∷◌, All, length}
use lazyscript.Ast.Syntax.{
  Expr, Exprs, Binds, Members, alge, appl, ref, int, str, lambda, closure, choice, nslit, symbol,
  raise, no_exprs, expr, no_binds, bind, no_members, member,
}
use lazyscript.Thunk.Heap.{Heap, Node}
use lazyscript.Thunk.Build.{
  Linked, Build, count_members, nslit_symbol, new_nslit, new_expr, new_exprs, new_binds,
  new_members,
}
use lazyscript.Thunk.Build.Sound.{sizes, Grows-refl, IsSound, Returns, Fits}
use lazyscript.Thunk.Build.Sound.Forms.{
  PtrIn, Sound, Builds-new_value, Sound-new_eappl, Sound-new_ealge, Sound-new_echoice,
  Sound-new_ref, Sound-new_elambda,
}
use lazyscript.Thunk.Build.Sound.Closures.{SoundBind, Sound-new_eclosure}

Sound-new_nslit : (n : ℕ) (bs : List Build) → All Sound bs → Sound (new_nslit n bs)
unfolding new_nslit nslit_symbol
Sound-new_nslit n bs hs =
    Sound-new_eappl _ bs
      (Sound-new_eappl _ (nslit_symbol n ∷ []) (Sound-new_ref _) (Sound-new_ealge _ [] tt, tt)) hs

-- No raise occurs.
unfoldable mutual
  pub Quiet : Expr → Type 0
  Quiet (alge k es) = AllQuiet es
  Quiet (appl f es) = Quiet f × AllQuiet es
  Quiet (choice k l r) = Quiet l × Quiet r
  Quiet (closure e bs) = Quiet e × QuietBinds bs
  Quiet (lambda p b) = Quiet b
  Quiet (int n) = Unit {0}
  Quiet (ref r) = Unit {0}
  Quiet (str s) = Unit {0}
  Quiet (symbol s) = Unit {0}
  Quiet (nslit ms) = QuietMembers ms
  Quiet (raise e) = ⊥

  pub AllQuiet : Exprs → Type 0
  AllQuiet no_exprs = Unit {0}
  AllQuiet (expr e es) = Quiet e × AllQuiet es

  pub QuietBinds : Binds → Type 0
  QuietBinds no_binds = Unit {0}
  QuietBinds (bind p e bs) = Quiet e × QuietBinds bs

  pub QuietMembers : Members → Type 0
  QuietMembers no_members = Unit {0}
  QuietMembers (member x e ms) = Quiet e × QuietMembers ms

module _ (c : Linked) where
  mutual
    unfolding new_expr new_exprs new_binds new_members Quiet AllQuiet QuietBinds QuietMembers

    Sound-new_expr : (e : Expr) → Quiet e → Sound (new_expr c e)
    Sound-new_expr (alge k es) q s env lt =
        Sound-new_ealge k (new_exprs c es) (new_exprs-Sound es q) s env lt
    Sound-new_expr (appl f es) (q, qs) s env lt =
        Sound-new_eappl (new_expr c f) (new_exprs c es) (Sound-new_expr f q) (new_exprs-Sound es qs)
          s env lt
    Sound-new_expr (choice k l r) (q, p) s env lt =
        Sound-new_echoice k (new_expr c l) (new_expr c r) (Sound-new_expr l q) (Sound-new_expr r p)
          s env lt
    Sound-new_expr (closure e bs) (q, qs) s env lt =
        Sound-new_eclosure c.marks (new_expr c e) (new_binds c bs) (Sound-new_expr e q)
          (new_binds-Sound bs qs) s env lt
    Sound-new_expr (lambda p b) q s env lt =
        Sound-new_elambda c.marks p (new_expr c b) (Sound-new_expr b q) s env lt
    Sound-new_expr (int n) q s env lt = Builds-new_value s (Node.int n) tt
    Sound-new_expr (ref r) q s env lt = Sound-new_ref r s env lt
    Sound-new_expr (str v) q s env lt = Builds-new_value s (Node.str v) tt
    Sound-new_expr (symbol v) q s env lt = Builds-new_value s (Node.symbol v) tt
    Sound-new_expr (nslit ms) q s env lt =
        Sound-new_nslit (count_members ms) (new_members c ms) (new_members-Sound ms q) s env lt
    Sound-new_expr (raise e) q s env lt = absurd q

    new_exprs-Sound : (es : Exprs) → AllQuiet es → All Sound (new_exprs c es)
    new_exprs-Sound no_exprs q = tt
    new_exprs-Sound (expr e es) (q, qs) = (Sound-new_expr e q, new_exprs-Sound es qs)

    new_binds-Sound : (bs : Binds) → QuietBinds bs → All SoundBind (new_binds c bs)
    new_binds-Sound no_binds q = tt
    new_binds-Sound (bind p e bs) (q, qs) = (Sound-new_expr e q, new_binds-Sound bs qs)

    new_members-Sound : (ms : Members) → QuietMembers ms → All Sound (new_members c ms)
    new_members-Sound no_members q = tt
    new_members-Sound (member x e ms) (q, qs) = (
      (λ s env lt. Builds-new_value s (Node.symbol x) tt),
      (Sound-new_expr e q, new_members-Sound ms qs),
    )

-- In a heap where every pointer leads to an object, and each environment is younger than its parent,
-- the construction of a syntax tree without a raise ends. It gives NULL or a thunk, and every object
-- is kept, and every pointer leads to an object again.
pub new_expr-Returns :
    (c : Linked) (e : Expr) (env : ℕ) (h : Heap)
    → Quiet e
    → IsSound h
    → env < length h.envs
    → Returns (Fits PtrIn (sizes h)) (new_expr c e env h)
new_expr-Returns c e env h q k lt =
    (Sound-new_expr c e q (sizes h) env lt).at h k (Grows-refl (sizes h))
