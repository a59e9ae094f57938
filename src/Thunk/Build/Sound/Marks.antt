-- ===== src/Thunk/Build/Sound/Marks.antt =====
-- The marks of or-patterns in sound heaps.
use lazyscript.Prelude.{ℕ, ◌<◌, true, false, ◌||◌, none, some, List, [], ◌∷◌, Bytes, All, arith}
use mathlib.Core.Path.{subst}
use lazyscript.Thunk.Heap.{Pat}
use lazyscript.Thunk.Build.Pattern.{
  Marks, points_to, ref_cells, mark_present, any_present, clear_mark, mark_clear, mark_used,
  mark_right, cleared,
}
use lazyscript.Thunk.Build.Sound.{
  Sizes, Grows, Grows-trans, Within, PatIn, Builds, Builds-bind, Builds-pure, Builds-option,
  Builds-bool,
}
use lazyscript.Thunk.Build.Sound.Monotone.{below_mono}
use lazyscript.Thunk.Build.Sound.Actions.{Builds-get_bound, Builds-set_bound, Builds-get_target}
use lazyscript.Thunk.Build.Sound.Environments.{Builds-get_self, Builds-incr_nerrors}

-- nothing is said of the value
abbrev pub Any : {A : Type 0} → Sizes → A → Type 0
Any s a = Unit {0}

module _ (m : Marks) where
  pub Builds-mark_present :
      (s : Sizes) (cs : List ℕ) → All (λ c. c < s.bounds) cs → Builds s Any (mark_present m cs)
  unfolding mark_present
  Builds-mark_present s [] w = Builds-pure s _ tt (λ t g. tt)
  Builds-mark_present s (c ∷ cs) (w, ws) =
      Builds-bind s _ _ _ _ (Builds-set_bound s c (some m.present) w)
        (λ u t g v. Builds-mark_present t cs (below_mono _ _ cs g.bounds ws))

  pub Builds-any_present :
      (s : Sizes) (cs : List ℕ) → All (λ c. c < s.bounds) cs → Builds s Any (any_present m cs)
  unfolding any_present
  Builds-any_present s [] w = Builds-pure s _ false (λ t g. tt)
  Builds-any_present s (c ∷ cs) (w, ws) = Builds-bind s _ _ _ _ (Builds-get_bound s c w) (λ b t g v.
      Builds-bool t _ (points_to b m.present) _ _ (Builds-pure t _ true (λ u g'. tt))
        (Builds-any_present t cs (below_mono _ _ cs g.bounds ws)))

  Builds-clear_mark : (s : Sizes) (c : ℕ) → c < s.bounds → Builds s Any (clear_mark m c)
  unfolding clear_mark
  Builds-clear_mark s c w = Builds-bind s _ _ _ _ (Builds-get_bound s c w) (λ b t g v.
      Builds-bool t _ (points_to b m.present || points_to b m.used) _ _
        (Builds-set_bound t c none (omega (arith, w, g.bounds))) (Builds-pure t _ tt (λ u g'. tt)))

  Builds-mark_clear :
      (s : Sizes) (cs : List ℕ) → All (λ c. c < s.bounds) cs → Builds s Any (mark_clear m cs)
  unfolding mark_clear
  Builds-mark_clear s [] w = Builds-pure s _ tt (λ t g. tt)
  Builds-mark_clear s (c ∷ cs) (w, ws) =
      Builds-bind s _ _ _ _ (Builds-clear_mark s c w)
        (λ u t g v. Builds-mark_clear t cs (below_mono _ _ cs g.bounds ws))

  pub Builds-cleared :
      {A : Type 0} (s : Sizes) (V : Sizes → A → Type 0) (l : Pat) (a : A)
      → PatIn s l
      → ((t : Sizes) → Grows s t → V t a)
      → Builds s V (cleared m l a)
  unfolding cleared
  Builds-cleared s V l a w v =
      Builds-bind s Any V _ _ (Builds-mark_clear s (ref_cells l) w)
        (λ u t g x. Builds-pure t V a (λ z g'. v z (Grows-trans s t z g g')))

  Builds-mark_used :
      (s : Sizes) (env : ℕ) (x : Bytes) → env < s.envs → Builds s Any (mark_used m env x)
  unfolding mark_used
  Builds-mark_used s env x lt = Builds-bind s _ _ _ _ (Builds-get_self s env lt x) (λ found t g v.
      Builds-option t _ found _ _
        (λ d.
          Builds-bind t _ _ _ _ (Builds-incr_nerrors t env (omega (arith, lt, g.envs)))
            (λ u z g' w. Builds-pure z _ true (λ y k. tt)))
        (λ i d.
          Builds-bind t _ _ _ _ (Builds-get_target t i (subst (Within t.targets) d v)) (λ o z g' w.
            Builds-bind z _ _ _ _ (Builds-get_bound z o.cell w) (λ b y k x.
              Builds-bool y _ (points_to b m.present) _ _
                (Builds-bind y _ _ _ _ (Builds-set_bound y o.cell _ (omega (arith, w, k.bounds)))
                  (λ u q r x. Builds-pure q _ false (λ _ _. tt)))
                (Builds-pure y _ false (λ _ _. tt))))))

  pub Builds-mark_right :
      (s : Sizes) (env : ℕ) (xs : List Bytes) → env < s.envs → Builds s Any (mark_right m env xs)
  unfolding mark_right
  Builds-mark_right s env [] lt = Builds-pure s _ false (λ t g. tt)
  Builds-mark_right s env (x ∷ xs) lt =
      Builds-bind s _ _ _ _ (Builds-mark_used s env x lt) (λ fresh t g v.
        Builds-bind t _ _ _ _ (Builds-mark_right t env xs (omega (arith, lt, g.envs)))
          (λ more z g' w. Builds-pure z _ (fresh || more) (λ _ _. tt)))
