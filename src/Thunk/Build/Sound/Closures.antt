-- ===== src/Thunk/Build/Sound/Closures.antt =====
-- The construction of closures in sound heaps.
use lazyscript.Prelude.{ℕ, ◌-◌, ◌<◌, true, false, none, some, List, [], ◌∷◌, All, arith}
use mathlib.Core.Path.{subst}
use lazyscript.Thunk.Heap.{bind_origin}
use lazyscript.Thunk.Build.{
  Build, SubBind, Bound, pending, target_count, new_lhss, new_rhss, new_eclosure,
}
use lazyscript.Thunk.Build.Pattern.{Marks}
use lazyscript.Thunk.Build.Sound.{
  Sizes, Grows, Grows-trans, PatIn, Builds, Builds-bind, Builds-pure, Builds-option, Builds-bool,
}
use lazyscript.Thunk.Build.Sound.Monotone.{PatIn-mono}
use lazyscript.Thunk.Build.Sound.Actions.{Builds-gets}
use lazyscript.Thunk.Build.Sound.Environments.{Builds-new, Builds-set_origins}
use lazyscript.Thunk.Build.Sound.Reuse.{Maybe}
use lazyscript.Thunk.Build.Sound.Marks.{Any}
use lazyscript.Thunk.Build.Sound.Patterns.{Builds-new_pat}
use lazyscript.Thunk.Build.Sound.Forms.{PtrIn, Sound}

-- the patterns of the bindings of a closure
abbrev BoundsIn : Sizes → List Bound → Type 0
BoundsIn s os = All (λ (o : Bound). PatIn s o.lhs) os

BoundsIn-mono : (s t : Sizes) (os : List Bound) → Grows s t → BoundsIn s os → BoundsIn t os
BoundsIn-mono s t [] g w = tt
BoundsIn-mono s t (o ∷ os) g (w, ws) = (PatIn-mono s t g o.lhs w, BoundsIn-mono s t os g ws)

Builds-target_count : (s : Sizes) → Builds s Any target_count
unfolding target_count
Builds-target_count s = Builds-gets s _

Builds-new_lhss :
    (m : Marks) (bs : List SubBind) (s : Sizes) (env : ℕ)
    → env < s.envs
    → Builds s (λ t. Maybe (BoundsIn t)) (new_lhss m bs env)
unfolding new_lhss
Builds-new_lhss m [] s env lt = Builds-pure s _ (some []) (λ _ _. tt)
Builds-new_lhss m (b ∷ bs) s env lt = Builds-bind s _ _ _ _ (Builds-target_count s) (λ first t g v.
    Builds-bind t _ _ _ _
      (Builds-new_pat m b.lhs t env pending (omega (arith, lt, g.envs)) (tt, tt))
      (λ p u gu w. Builds-bind u _ _ _ _ (Builds-target_count u) (λ last y gy x.
        Builds-option y _ p _ _ (λ d. Builds-pure y _ none (λ _ _. tt))
          (λ lhs d.
            let wy = PatIn-mono u y gy lhs (subst (Maybe (PatIn u)) d w) in
            Builds-bind y Any _ _ _
              (Builds-set_origins y first (last - first) (bind_origin lhs none) (wy, tt))
              (λ _ z gz _.
                Builds-bind z _ _ _ _
                  (Builds-new_lhss m bs z env
                    (omega (arith, lt, g.envs, gu.envs, gy.envs, gz.envs)))
                  (λ rest a ga q.
                    Builds-option a _ rest _ _ (λ e. Builds-pure a _ none (λ _ _. tt))
                      (λ os e.
                        Builds-pure a _
                          (some (record { lhs = lhs; first = first; count = last - first } ∷ os))
                          (λ c gc. (
                            PatIn-mono y c (Grows-trans y a c (Grows-trans y z a gz ga) gc) lhs wy,
                            BoundsIn-mono a c os gc (subst (Maybe (BoundsIn a)) e q),
                          )))))))))

abbrev pub SoundBind : SubBind → Type 0
SoundBind b = Sound b.rhs

Builds-new_rhss :
    (bs : List SubBind) (os : List Bound) (s : Sizes) (env : ℕ)
    → All SoundBind bs
    → BoundsIn s os
    → env < s.envs
    → Builds s Any (new_rhss bs os env)
unfolding new_rhss
Builds-new_rhss [] os s env h w lt = Builds-pure s _ true (λ _ _. tt)
Builds-new_rhss (b ∷ bs) [] s env h w lt = Builds-pure s _ true (λ _ _. tt)
Builds-new_rhss (b ∷ bs) (o ∷ os) s env (h, hs) (w, ws) lt =
    Builds-bind s _ _ _ _ (h s env lt) (λ r t g v.
      Builds-option t _ r _ _ (λ d. Builds-pure t _ false (λ _ _. tt))
        (λ p d.
          Builds-bind t Any _ _ _
            (Builds-set_origins t o.first o.count (bind_origin o.lhs (some p))
              (PatIn-mono s t g o.lhs w, subst (PtrIn t) d v))
            (λ _ u k _.
              Builds-new_rhss bs os u env hs (BoundsIn-mono s u os (Grows-trans s t u g k) ws)
                (omega (arith, lt, g.envs, k.envs)))))

pub Sound-new_eclosure :
    (m : Marks) (b : Build) (bs : List SubBind)
    → Sound b
    → All SoundBind bs
    → Sound (new_eclosure m b bs)
unfolding new_eclosure
Sound-new_eclosure m b bs h hs s env lt =
    Builds-bind s _ _ _ _ (Builds-new s env lt) (λ inner t g v.
      Builds-bind t _ _ _ _ (Builds-new_lhss m bs t inner v) (λ lhss u k w.
        Builds-option u _ lhss _ _ (λ d. Builds-pure u _ none (λ _ _. tt))
          (λ os d.
            Builds-bind u Any _ _ _
              (Builds-new_rhss bs os u inner hs (subst (Maybe (BoundsIn u)) d w)
                (omega (arith, v, k.envs)))
              (λ ok y gy _.
                Builds-bool y _ ok _ _ (h y inner (omega (arith, v, k.envs, gy.envs)))
                  (Builds-pure y _ none (λ _ _. tt))))))
