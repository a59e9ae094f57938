-- ===== src/Thunk/Build/Sound/Forms.antt =====
-- The functions for the forms of expressions in sound heaps.
use lazyscript.Prelude.{ℕ, ◌<◌, none, some, List, [], ◌∷◌, Bytes, All, arith}
use mathlib.Core.Path.{subst}
use lazyscript.Ast
use lazyscript.Ast.Syntax.{ChoiceKind}
use lazyscript.Thunk.Heap.{Ptr, Node, blank, lambda_origin}
use lazyscript.Thunk.Bottom.{new_value}
use lazyscript.Thunk.Build.{
  Build, new_args, new_eappl, new_fields, new_ealge, new_echoice, kind_number, new_ref, new_elambda,
}
use lazyscript.Thunk.Build.Pattern.{Marks}
use lazyscript.Thunk.Build.Sound.{
  Sizes, Grows-trans, Within, NodeIn, PatIn, Builds, Builds-bind, Builds-pure, Builds-option,
}
use lazyscript.Thunk.Build.Sound.Monotone.{Within-mono, All-mono, PatIn-mono}
use lazyscript.Thunk.Build.Sound.Actions.{Builds-alloc, Builds-alloc_whnf, Builds-set_node}
use lazyscript.Thunk.Build.Sound.Environments.{Builds-get, Builds-new}
use lazyscript.Thunk.Build.Sound.Reuse.{Maybe}
use lazyscript.Thunk.Build.Sound.Marks.{Any}
use lazyscript.Thunk.Build.Sound.Patterns.{Builds-new_pat}
use lazyscript.Thunk.Build.Sound.Patterns.{Builds-new_pat}

abbrev pub PtrIn : Sizes → Ptr → Type 0
PtrIn s p = Within s.thunks p

abbrev pub PtrsIn : Sizes → List Ptr → Type 0
PtrsIn s ps = All (Within s.thunks) ps

-- From each environment of a sound heap the construction gives NULL or a thunk.
abbrev pub Sound : Build → Type 0
Sound b = (s : Sizes) (env : ℕ) → env < s.envs → Builds s PtrIn (b env)

pub Builds-new_value : (s : Sizes) (n : Node) → NodeIn s n → Builds s PtrIn (new_value n)
unfolding new_value
Builds-new_value s n w =
    Builds-bind s _ _ _ _ (Builds-alloc_whnf s n w)
      (λ p t g v. Builds-pure t _ (some p) (λ u k. omega (arith, v, k.thunks)))

Builds-new_args :
    (bs : List Build) (s : Sizes) (env : ℕ)
    → All Sound bs
    → env < s.envs
    → Builds s (λ t. Maybe (PtrsIn t)) (new_args bs env)
unfolding new_args
Builds-new_args [] s env h lt = Builds-pure s _ (some []) (λ _ _. tt)
Builds-new_args (b ∷ bs) s env (h, hs) lt = Builds-bind s _ _ _ _ (h s env lt) (λ r t g v.
    Builds-option t _ r _ _ (λ d. Builds-pure t _ none (λ _ _. tt))
      (λ p d.
        Builds-bind t _ _ _ _ (Builds-new_args bs t env hs (omega (arith, lt, g.envs))) (λ ts u k w.
          Builds-option u _ ts _ _ (λ e. Builds-pure u _ none (λ _ _. tt))
            (λ ps e. Builds-pure u _ (some (some p ∷ ps)) (λ y gy. (
              Within-mono _ _ (some p) (Grows-trans t u y k gy).thunks (subst (PtrIn t) d v),
              All-mono _ _ ps gy.thunks (subst (Maybe (PtrsIn u)) e w),
            ))))))

pub Sound-new_eappl :
    (f : Build) (bs : List Build) → Sound f → All Sound bs → Sound (new_eappl f bs)
unfolding new_eappl
Sound-new_eappl f bs h hs s env lt = Builds-bind s _ _ _ _ (h s env lt) (λ r t g v.
    Builds-option t _ r _ _ (λ d. Builds-pure t _ none (λ _ _. tt))
      (λ p d.
        Builds-bind t _ _ _ _ (Builds-new_args bs t env hs (omega (arith, lt, g.envs))) (λ ts u k w.
          Builds-option u _ ts _ _ (λ e. Builds-pure u _ none (λ _ _. tt))
            (λ ps e.
              Builds-bind u _ _ _ _
                (Builds-alloc u (Node.appl (some p) ps) none
                  (
                    Within-mono _ _ (some p) k.thunks (subst (PtrIn t) d v),
                    subst (Maybe (PtrsIn u)) e w,
                  )
                  tt)
                (λ q y gy x. Builds-pure y _ (some q) (λ z gz. omega (arith, x, gz.thunks)))))))

Builds-new_fields :
    (bs : List Build) (s : Sizes) (env : ℕ)
    → All Sound bs
    → env < s.envs
    → Builds s PtrsIn (new_fields bs env)
unfolding new_fields
Builds-new_fields [] s env h lt = Builds-pure s _ [] (λ _ _. tt)
Builds-new_fields (b ∷ bs) s env (h, hs) lt = Builds-bind s _ _ _ _ (h s env lt) (λ r t g v.
    Builds-bind t _ _ _ _ (Builds-new_fields bs t env hs (omega (arith, lt, g.envs))) (λ ts u k w.
      Builds-pure u _ (r ∷ ts) (λ y gy.
        (Within-mono _ _ r (Grows-trans t u y k gy).thunks v, All-mono _ _ ts gy.thunks w))))

pub Sound-new_ealge : (c : Bytes) (bs : List Build) → All Sound bs → Sound (new_ealge c bs)
unfolding new_ealge
Sound-new_ealge c bs hs s env lt = Builds-bind s _ _ _ _ (Builds-alloc_whnf s blank tt) (λ q t g v.
    Builds-bind t _ _ _ _ (Builds-new_fields bs t env hs (omega (arith, lt, g.envs))) (λ ts u k w.
      Builds-bind u Any _ _ _ (Builds-set_node u q (Node.alge c ts) (omega (arith, v, k.thunks)) w)
        (λ x y gy _.
          Builds-pure y _ (some q) (λ z gz. omega (arith, v, k.thunks, gy.thunks, gz.thunks)))))

pub Sound-new_echoice :
    (k : ChoiceKind) (l r : Build) → Sound l → Sound r → Sound (new_echoice k l r)
unfolding new_echoice
Sound-new_echoice k l r hl hr s env lt =
    Builds-bind s _ _ _ _ (Builds-alloc s blank none tt tt) (λ q t g v.
      Builds-bind t _ _ _ _ (hl t env (omega (arith, lt, g.envs))) (λ left u gu x.
        Builds-bind u _ _ _ _ (hr u env (omega (arith, lt, g.envs, gu.envs))) (λ right y gy z.
          Builds-bind y Any _ _ _
            (Builds-set_node y q (Node.choice left right (kind_number k))
              (omega (arith, v, gu.thunks, gy.thunks)) (Within-mono _ _ left gy.thunks x, z))
            (λ _ a ga _.
              Builds-pure a _ (some q)
                (λ b gb. omega (arith, v, gu.thunks, gy.thunks, ga.thunks, gb.thunks))))))

pub Sound-new_ref : (name : Bytes) → Sound (new_ref name)
unfolding new_ref
Sound-new_ref name s env lt = Builds-bind s _ _ _ _ (Builds-get s env lt name) (λ target t g v.
    Builds-bind t _ _ _ _
      (Builds-alloc t (Node.ref name (some env) target) none (omega (arith, lt, g.envs), v) tt)
      (λ q u k w. Builds-pure u _ (some q) (λ y gy. omega (arith, w, gy.thunks))))

pub Sound-new_elambda :
    (m : Marks) (param : Ast.Pattern.Pat) (body : Build)
    → Sound body
    → Sound (new_elambda m param body)
unfolding new_elambda
Sound-new_elambda m param body h s env lt =
    Builds-bind s _ _ _ _ (Builds-new s env lt) (λ inner t g v.
      Builds-bind t _ _ _ _ (Builds-new_pat m param t inner (lambda_origin inner) v tt) (λ p u k w.
        Builds-option u _ p _ _ (λ d. Builds-pure u _ none (λ _ _. tt))
          (λ pattern_of d. Builds-bind u _ _ _ _ (h u inner (omega (arith, v, k.envs))) (λ b y gy x.
            Builds-option y _ b _ _ (λ e. Builds-pure y _ none (λ _ _. tt))
              (λ r e.
                Builds-new_value y
                  (Node.lambda (record { address = inner; pattern_of = pattern_of }) (some r))
                  (
                    PatIn-mono u y gy pattern_of (subst (Maybe (PatIn u)) d w),
                    subst (PtrIn y) e x,
                  ))))))
