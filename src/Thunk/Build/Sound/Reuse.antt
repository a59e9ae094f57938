-- ===== src/Thunk/Build/Sound/Reuse.antt =====
-- Patterns whose variables are there, as on the right of an or-pattern, in sound heaps.
use lazyscript.Prelude.{ℕ, ◌<◌, Option, none, some, List, [], ◌∷◌, ◌++◌, Bytes, All, arith}
use mathlib.Core.Path.{subst}
use lazyscript.Ast
use lazyscript.Ast.Pattern.{nil, cons}
use lazyscript.Thunk.Heap.{Pat, Pats, as_pat, or_pat, caret, pat, no_pats, wildcard, M, ◌>>=◌}
use lazyscript.Thunk.Build.Pattern.{
  ref_cells, all_cells, around, both, reuse_cell, reuse_pat, reuse_pats,
}
use lazyscript.Thunk.Build.Sound.{
  Sizes, Grows, Grows-trans, Within, PatIn, Builds, Builds-bind, Builds-pure, Builds-option,
}
use lazyscript.Thunk.Build.Sound.Monotone.{below_mono, PatIn-mono}
use lazyscript.Thunk.Build.Sound.Actions.{Builds-get_target}
use lazyscript.Thunk.Build.Sound.Environments.{Builds-get_self, Builds-incr_nerrors}

-- NULL, or something with a property
abbrev pub Maybe : {A : Type 0} → (A → Type 0) → Option A → Type 0
Maybe P none = Unit {0}
Maybe P (some a) = P a

abbrev pub PatsIn : Sizes → Pats → Type 0
PatsIn s ps = All (λ c. c < s.bounds) (all_cells ps)

pub below-append :
    (n : ℕ) (xs ys : List ℕ)
    → All (λ c. c < n) xs
    → All (λ c. c < n) ys
    → All (λ c. c < n) (xs ++ ys)
below-append n [] ys a b = b
below-append n (x ∷ xs) ys (a, as') b = (a, below-append n xs ys as' b)

module _ {A B : Type 0} (V : Sizes → A → Type 0) (W : Sizes → B → Type 0) where
  Builds-around :
      (s : Sizes) (f : A → B) (o : Option A)
      → Maybe (V s) o
      → ((t : Sizes) (a : A) → Grows s t → V s a → W t (f a))
      → Builds s (λ t. Maybe (W t)) (around f o)
  unfolding around
  Builds-around s f none v w = Builds-pure s _ none (λ t g. tt)
  Builds-around s f (some a) v w = Builds-pure s _ (some (f a)) (λ t g. w t a g v)

  -- a part is built, and a pattern is made around it
  pub Builds-then_around :
      (s : Sizes) (f : A → B) (m : M (Option A))
      → Builds s (λ t. Maybe (V t)) m
      → ((t u : Sizes) (a : A) → Grows s t → Grows t u → V t a → W u (f a))
      → Builds s (λ t. Maybe (W t)) (m >>= around f)
  Builds-then_around s f m hm w =
      Builds-bind s _ _ m (around f) hm
        (λ o t g v. Builds-around t f o v (λ u a k x. w t u a g k x))

module _ {A B C : Type 0} (U : Sizes → A → Type 0) (V : Sizes → B → Type 0)
    (W : Sizes → C → Type 0) where
  -- two parts
  pub Builds-both :
      (s : Sizes) (f : A → B → C) (m : M (Option A)) (k : M (Option B))
      → Builds s (λ t. Maybe (U t)) m
      → ((t : Sizes) → Grows s t → Builds t (λ u. Maybe (V u)) k)
      → ((t u : Sizes) (a : A) (b : B) → Grows t u → U t a → V u b → W u (f a b))
      → ((t u : Sizes) (b : B) → Grows t u → V t b → V u b)
      → Builds s (λ t. Maybe (W t)) (both f m k)
  unfolding both
  Builds-both s f m k hm hk w v_mono = Builds-bind s _ _ m _ hm (λ o t g x.
      Builds-option t _ o _ _ (λ d. Builds-pure t _ none (λ _ _. tt))
        (λ p d. Builds-then_around V W t (f p) k (hk t g) (λ y u b gy gu z.
          w t u p b (Grows-trans t y u gy gu) (subst (Maybe (U t)) d x) (v_mono y u b gu z))))

abbrev pub CellIn : Sizes → ℕ → Type 0
CellIn s c = c < s.bounds

Builds-reuse_cell :
    (s : Sizes) (env : ℕ) (r : Bytes)
    → env < s.envs
    → Builds s (λ t. Maybe (CellIn t)) (reuse_cell env r)
unfolding reuse_cell
Builds-reuse_cell s env r lt = Builds-bind s _ _ _ _ (Builds-get_self s env lt r) (λ found t g v.
    Builds-option t _ found _ _
      (λ d.
        Builds-bind t _ _ _ _ (Builds-incr_nerrors t env (omega (arith, lt, g.envs)))
          (λ u z g' w. Builds-pure z _ none (λ _ _. tt)))
      (λ i d.
        Builds-bind t _ _ _ _ (Builds-get_target t i (subst (Within t.targets) d v))
          (λ o z g' w. Builds-pure z _ (some o.cell) (λ y k. omega (arith, w, k.bounds)))))

abbrev pub PatsIn-mono : (s t : Sizes) → Grows s t → (ps : Pats) → PatsIn s ps → PatsIn t ps
PatsIn-mono s t g ps w = below_mono _ _ (all_cells ps) g.bounds w

mutual
  unfolding reuse_pat reuse_pats ref_cells

  pub Builds-reuse_pat :
      (p : Ast.Pattern.Pat) (s : Sizes) (env : ℕ)
      → env < s.envs
      → Builds s (λ t. Maybe (PatIn t)) (reuse_pat p env)
  Builds-reuse_pat (Ast.Pattern.alge c ps) s env lt =
      Builds-then_around PatsIn PatIn s (Pat.alge c) (reuse_pats ps env)
        (Builds-reuse_pats ps s env lt) (λ t u qs g k w. PatsIn-mono t u k qs w)
  Builds-reuse_pat (Ast.Pattern.caret p) s env lt =
      Builds-then_around PatIn PatIn s caret (reuse_pat p env) (Builds-reuse_pat p s env lt)
        (λ t u q g k w. PatIn-mono t u k q w)
  Builds-reuse_pat (Ast.Pattern.as_pat r p) s env lt =
      Builds-both CellIn PatIn PatIn s as_pat (reuse_cell env r) (reuse_pat p env)
        (Builds-reuse_cell s env r lt) (λ t g. Builds-reuse_pat p t env (omega (arith, lt, g.envs)))
        (λ t u c q g a b. (omega (arith, a, g.bounds), b)) (λ t u q g w. PatIn-mono t u g q w)
  Builds-reuse_pat (Ast.Pattern.int v) s env lt = Builds-pure s _ (some (Pat.int v)) (λ _ _. tt)
  Builds-reuse_pat (Ast.Pattern.str v) s env lt = Builds-pure s _ (some (Pat.str v)) (λ _ _. tt)
  Builds-reuse_pat (Ast.Pattern.ref r) s env lt =
      Builds-then_around CellIn PatIn s Pat.ref (reuse_cell env r) (Builds-reuse_cell s env r lt)
        (λ t u c g k w. (omega (arith, w, k.bounds), tt))
  Builds-reuse_pat Ast.Pattern.wildcard s env lt = Builds-pure s _ (some wildcard) (λ _ _. tt)
  Builds-reuse_pat (Ast.Pattern.or_pat l r) s env lt =
      Builds-both PatIn PatIn PatIn s or_pat (reuse_pat l env) (reuse_pat r env)
        (Builds-reuse_pat l s env lt) (λ t g. Builds-reuse_pat r t env (omega (arith, lt, g.envs)))
        (λ t u p q g a b. below-append _ (ref_cells p) (ref_cells q) (PatIn-mono t u g p a) b)
        (λ t u q g w. PatIn-mono t u g q w)

  Builds-reuse_pats :
      (ps : Ast.Pattern.Pats) (s : Sizes) (env : ℕ)
      → env < s.envs
      → Builds s (λ t. Maybe (PatsIn t)) (reuse_pats ps env)
  Builds-reuse_pats nil s env lt = Builds-pure s _ (some no_pats) (λ _ _. tt)
  Builds-reuse_pats (cons p ps) s env lt =
      Builds-both PatIn PatsIn PatsIn s pat (reuse_pat p env) (reuse_pats ps env)
        (Builds-reuse_pat p s env lt)
        (λ t g. Builds-reuse_pats ps t env (omega (arith, lt, g.envs)))
        (λ t u p q g a b. below-append _ (ref_cells p) (all_cells q) (PatIn-mono t u g p a) b)
        (λ t u q g w. PatsIn-mono t u g q w)
