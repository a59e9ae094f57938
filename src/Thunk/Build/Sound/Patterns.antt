-- ===== src/Thunk/Build/Sound/Patterns.antt =====
-- The construction of patterns in sound heaps.
use lazyscript.Prelude.{ℕ, ◌<◌, Option, none, some, Bytes, arith}
use mathlib.Core.Path.{subst}
use lazyscript.Ast
use lazyscript.Ast.Pattern.{nil, cons}
use lazyscript.Thunk.Heap.{Pat, as_pat, or_pat, caret, pat, no_pats, wildcard, Origin, M}
use lazyscript.Thunk.Build.Pattern.{
  Marks, ref_cells, all_cells, names, cleared, or_right, new_ref_pat, new_pat, new_pats,
}
use lazyscript.Thunk.Build.Sound.{
  Sizes, Grows-trans, Within, PatIn, OriginIn, Builds, Builds-bind, Builds-pure, Builds-option,
  Builds-bool,
}
use lazyscript.Thunk.Build.Sound.Monotone.{PatIn-mono, OriginIn-mono}
use lazyscript.Thunk.Build.Sound.Actions.{Builds-new_cell, Builds-get_target, Builds-new_target}
use lazyscript.Thunk.Build.Sound.Environments.{Builds-get_self, Builds-put, Builds-incr_nerrors}
use lazyscript.Thunk.Build.Sound.Marks.{
  Any, Builds-mark_present, Builds-any_present, Builds-cleared, Builds-mark_right,
}
use lazyscript.Thunk.Build.Sound.Reuse.{
  Maybe, PatsIn, below-append, Builds-then_around, Builds-both, CellIn, PatsIn-mono,
  Builds-reuse_pat,
}

module _ (m : Marks) where
  -- the end of an or-pattern, given its right side
  reused :
      (l : Pat) (o : Option Pat) (s : Sizes)
      → PatIn s l
      → Maybe (PatIn s) o
      → Builds s
          (λ t. Maybe (PatIn t))
          (elim o as (λ _. M (Option Pat)) [
            | none ↦ cleared m l none
            | some q ↦ cleared m l (some (or_pat l q))
          ])
  unfolding ref_cells
  reused l none s w v = Builds-cleared m s _ l none w (λ _ _. tt)
  reused l (some q) s w v = Builds-cleared m s _ l (some (or_pat l q)) w (λ t g.
      below-append _ (ref_cells l) (ref_cells q) (PatIn-mono s t g l w) (PatIn-mono s t g q v))

  Builds-or_right :
      (s : Sizes) (env : ℕ) (l : Pat) (r : Ast.Pattern.Pat)
      → env < s.envs
      → PatIn s l
      → Builds s (λ t. Maybe (PatIn t)) (or_right m env l r)
  unfolding or_right ref_cells
  Builds-or_right s env l r lt w =
      Builds-bind s Any _ _ _ (Builds-mark_present m s (ref_cells l) w) (λ u t g v.
        Builds-bind t Any _ _ _ (Builds-mark_right m t env (names r) (omega (arith, lt, g.envs)))
          (λ fresh z gz v.
            let wz = PatIn-mono s z (Grows-trans s t z g gz) l w in
            let ltz : env < z.envs = omega (arith, lt, g.envs, gz.envs) in
            Builds-bool z _ fresh _ _ (Builds-cleared m z _ l none wz (λ _ _. tt)) (
              Builds-bind z Any _ _ _ (Builds-any_present m z (ref_cells l) wz) (λ missed y gy v.
                let wy = PatIn-mono z y gy l wz in
                Builds-bool y _ missed _ _
                  (Builds-bind y Any _ _ _ (Builds-incr_nerrors y env (omega (arith, ltz, gy.envs)))
                    (λ u x gx v. Builds-cleared m x _ l none (PatIn-mono y x gx l wy) (λ _ _. tt)))
                  (Builds-bind y _ _ _ _ (Builds-reuse_pat r y env (omega (arith, ltz, gy.envs)))
                    (λ o x gx v. reused l o x (PatIn-mono y x gx l wy) v))))))

  Builds-new_ref_pat :
      (s : Sizes) (r : Bytes) (env : ℕ) (o : Origin)
      → env < s.envs
      → OriginIn s o
      → Builds s (λ t. Maybe (PatIn t)) (new_ref_pat r env o)
  unfolding new_ref_pat ref_cells
  Builds-new_ref_pat s r env o lt ho =
      Builds-bind s _ _ _ _ (Builds-get_self s env lt r) (λ found t g v.
        Builds-option t _ found _ _
          (λ d. Builds-bind t _ _ _ _ (Builds-new_cell t) (λ c u gu w.
            Builds-bind u _ _ _ _
              (Builds-new_target u o c (OriginIn-mono s u (Grows-trans s t u g gu) o ho) w)
              (λ i z gz x.
                Builds-bind z Any _ _ _
                  (Builds-put z env (omega (arith, lt, g.envs, gu.envs, gz.envs)) r i x)
                  (λ e y gy v.
                    Builds-pure y _ (some (Pat.ref c))
                      (λ q gq. (omega (arith, w, gz.bounds, gy.bounds, gq.bounds), tt))))))
          (λ i d.
            Builds-bind t _ _ _ _ (Builds-get_target t i (subst (Within t.targets) d v))
              (λ u z gz w.
                Builds-pure z _ (some (Pat.ref u.cell))
                  (λ q gq. (omega (arith, w, gq.bounds), tt)))))

  mutual
    unfolding new_pat new_pats ref_cells

    pub Builds-new_pat :
        (p : Ast.Pattern.Pat) (s : Sizes) (env : ℕ) (o : Origin)
        → env < s.envs
        → OriginIn s o
        → Builds s (λ t. Maybe (PatIn t)) (new_pat m p env o)
    Builds-new_pat (Ast.Pattern.alge c ps) s env o lt ho =
        Builds-then_around PatsIn PatIn s (Pat.alge c) (new_pats m ps env o)
          (Builds-new_pats ps s env o lt ho) (λ t u qs g k w. PatsIn-mono t u k qs w)
    Builds-new_pat (Ast.Pattern.as_pat r p) s env o lt ho =
        Builds-bind s CellIn _ _ _ (Builds-new_cell s) (λ c t g w.
          Builds-then_around PatIn PatIn t (as_pat c) (new_pat m p env o)
            (Builds-new_pat p t env o (omega (arith, lt, g.envs)) (OriginIn-mono s t g o ho))
            (λ y u q gy k v. (omega (arith, w, gy.bounds, k.bounds), PatIn-mono y u k q v)))
    Builds-new_pat (Ast.Pattern.caret p) s env o lt ho =
        Builds-then_around PatIn PatIn s caret (new_pat m p env o) (Builds-new_pat p s env o lt ho)
          (λ t u q g k w. PatIn-mono t u k q w)
    Builds-new_pat (Ast.Pattern.or_pat l r) s env o lt ho =
        Builds-bind s _ _ (new_pat m l env o) _ (Builds-new_pat l s env o lt ho) (λ q t g v.
          Builds-option t _ q _ _ (λ d. Builds-pure t _ none (λ _ _. tt))
            (λ left d.
              Builds-or_right t env left r (omega (arith, lt, g.envs))
                (subst (Maybe (PatIn t)) d v)))
    Builds-new_pat (Ast.Pattern.int v) s env o lt ho =
        Builds-pure s _ (some (Pat.int v)) (λ _ _. tt)
    Builds-new_pat (Ast.Pattern.str v) s env o lt ho =
        Builds-pure s _ (some (Pat.str v)) (λ _ _. tt)
    Builds-new_pat (Ast.Pattern.ref r) s env o lt ho = Builds-new_ref_pat s r env o lt ho
    Builds-new_pat Ast.Pattern.wildcard s env o lt ho = Builds-pure s _ (some wildcard) (λ _ _. tt)

    Builds-new_pats :
        (ps : Ast.Pattern.Pats) (s : Sizes) (env : ℕ) (o : Origin)
        → env < s.envs
        → OriginIn s o
        → Builds s (λ t. Maybe (PatsIn t)) (new_pats m ps env o)
    Builds-new_pats nil s env o lt ho = Builds-pure s _ (some no_pats) (λ _ _. tt)
    Builds-new_pats (cons p ps) s env o lt ho =
        Builds-both PatIn PatsIn PatsIn s pat (new_pat m p env o) (new_pats m ps env o)
          (Builds-new_pat p s env o lt ho)
          (λ t g. Builds-new_pats ps t env o (omega (arith, lt, g.envs)) (OriginIn-mono s t g o ho))
          (λ t u p q g a b. below-append _ (ref_cells p) (all_cells q) (PatIn-mono t u g p a) b)
          (λ t u q g w. PatsIn-mono t u g q w)
