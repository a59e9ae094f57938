-- ===== src/Thunk/Build/Keeps.antt =====
-- The nodes of the thunks under the construction of thunks from the syntax tree.
use lazyscript.Prelude.{
  ℕ, ◌≡◌, sym, ap, true, false, ◌||◌, Option, none, some, List, [], ◌∷◌, ◌++◌, Bytes,
}
use lazyscript.Ast.Pattern.{nil, cons}
use lazyscript.Ast
use lazyscript.Thunk.Heap.{Heap, Pat, Origin, M, new_cell}
use lazyscript.Thunk.Heap.Keeps.{Stays-same, Keeps}
use lazyscript.Thunk.Heap.Rules.{
  Keeps-pure, Keeps-bool, Keeps-option, Keeps-bind, Keeps-get_bound, Keeps-get_target,
  Keeps-set_bound,
}
use lazyscript.Thunk.Build.Pattern.{
  Marks, ref_cells, names, points_to, mark_present, any_present, clear_mark, mark_clear, mark_used,
  mark_right, around, both, cleared, or_right, new_ref_pat, new_pat, new_pats,
}
use lazyscript.Thunk.Build.Aside.{
  Keeps-Aside, Aside-get_self, Aside-put, Aside-incr_nerrors, Aside-new_target, Aside-around,
  Aside-reuse_pat,
}

module _ (n : ℕ) where
  Keeps-new_cell : Keeps n new_cell
  unfolding new_cell
  Keeps-new_cell = record {
    at = λ h a h' le e.
        let made : record h { bounds = h.bounds ++ none ∷ [] } ≡ h' = cc in
        Stays-same n h h' (ap (λ (x : Heap). x.thunks) (sym made));
  }

  Keeps-mark_present : (m : Marks) (cs : List ℕ) → Keeps n (mark_present m cs)
  unfolding mark_present
  Keeps-mark_present m [] = Keeps-pure n tt
  Keeps-mark_present m (c ∷ cs) =
      Keeps-bind n _ _ (Keeps-set_bound n c _) (λ u. Keeps-mark_present m cs)

  Keeps-any_present : (m : Marks) (cs : List ℕ) → Keeps n (any_present m cs)
  unfolding any_present
  Keeps-any_present m [] = Keeps-pure n false
  Keeps-any_present m (c ∷ cs) =
      Keeps-bind n _ _ (Keeps-get_bound n c)
        (λ b. Keeps-bool n (points_to b m.present) _ _ (Keeps-pure n true) (Keeps-any_present m cs))

  Keeps-clear_mark : (m : Marks) (c : ℕ) → Keeps n (clear_mark m c)
  unfolding clear_mark
  Keeps-clear_mark m c = Keeps-bind n _ _ (Keeps-get_bound n c) (λ b.
      Keeps-bool n (points_to b m.present || points_to b m.used) _ _ (Keeps-set_bound n c none)
        (Keeps-pure n tt))

  Keeps-mark_clear : (m : Marks) (cs : List ℕ) → Keeps n (mark_clear m cs)
  unfolding mark_clear
  Keeps-mark_clear m [] = Keeps-pure n tt
  Keeps-mark_clear m (c ∷ cs) = Keeps-bind n _ _ (Keeps-clear_mark m c) (λ u. Keeps-mark_clear m cs)

  Keeps-mark_used : (m : Marks) (env : ℕ) (x : Bytes) → Keeps n (mark_used m env x)
  unfolding mark_used
  Keeps-mark_used m env x = Keeps-bind n _ _ (Keeps-Aside n _ (Aside-get_self env x)) (λ found.
      Keeps-option n found _ _
        (Keeps-bind n _ _ (Keeps-Aside n _ (Aside-incr_nerrors env)) (λ u. Keeps-pure n true))
        (λ i. Keeps-bind n _ _ (Keeps-get_target n i) (λ t.
          Keeps-bind n _ _ (Keeps-get_bound n t.cell) (λ b.
            Keeps-bool n (points_to b m.present) _ _
              (Keeps-bind n _ _ (Keeps-set_bound n t.cell _) (λ u. Keeps-pure n false))
              (Keeps-pure n false)))))

  Keeps-mark_right : (m : Marks) (env : ℕ) (xs : List Bytes) → Keeps n (mark_right m env xs)
  unfolding mark_right
  Keeps-mark_right m env [] = Keeps-pure n false
  Keeps-mark_right m env (x ∷ xs) =
      Keeps-bind n _ _ (Keeps-mark_used m env x) (λ fresh.
        Keeps-bind n _ _ (Keeps-mark_right m env xs) (λ more. Keeps-pure n (fresh || more)))

  Keeps-around : {A B : Type 0} (f : A → B) (o : Option A) → Keeps n (around f o)
  Keeps-around f o = Keeps-Aside n _ (Aside-around f o)

  Keeps-both :
      {A B C : Type 0} (f : A → B → C) (m : M (Option A)) (k : M (Option B))
      → Keeps n m
      → Keeps n k
      → Keeps n (both f m k)
  unfolding both
  Keeps-both f m k hm hk = Keeps-bind n _ _ hm (λ x.
      Keeps-option n x _ _ (Keeps-pure n none)
        (λ p. Keeps-bind n _ _ hk (λ y. Keeps-around (f p) y)))

  Keeps-cleared : {A : Type 0} (m : Marks) (l : Pat) (a : A) → Keeps n (cleared m l a)
  unfolding cleared
  Keeps-cleared m l a = Keeps-bind n _ _ (Keeps-mark_clear m (ref_cells l)) (λ u. Keeps-pure n a)

  Keeps-or_right :
      (m : Marks) (env : ℕ) (l : Pat) (r : Ast.Pattern.Pat) → Keeps n (or_right m env l r)
  unfolding or_right
  Keeps-or_right m env l r = Keeps-bind n _ _ (Keeps-mark_present m (ref_cells l)) (λ u.
      Keeps-bind n _ _ (Keeps-mark_right m env (names r)) (λ fresh.
        Keeps-bool n fresh _ _ (Keeps-cleared m l none) (
          Keeps-bind n _ _ (Keeps-any_present m (ref_cells l)) (λ missed.
            Keeps-bool n missed _ _
              (Keeps-bind n _ _ (Keeps-Aside n _ (Aside-incr_nerrors env))
                (λ v. Keeps-cleared m l none))
              (Keeps-bind n _ _ (Keeps-Aside n _ (Aside-reuse_pat r env)) (λ o.
                Keeps-option n o _ _ (Keeps-cleared m l none)
                  (λ q. Keeps-cleared m l (some (Pat.or_pat l q)))))))))

  Keeps-new_ref_pat : (r : Bytes) (env : ℕ) (o : Origin) → Keeps n (new_ref_pat r env o)
  unfolding new_ref_pat
  Keeps-new_ref_pat r env o = Keeps-bind n _ _ (Keeps-Aside n _ (Aside-get_self env r)) (λ found.
      Keeps-option n found _ _
        (Keeps-bind n _ _ Keeps-new_cell (λ c.
          Keeps-bind n _ _ (Keeps-Aside n _ (Aside-new_target o c)) (λ i.
            Keeps-bind n _ _ (Keeps-Aside n _ (Aside-put env r i))
              (λ u. Keeps-pure n (some (Pat.ref c))))))
        (λ i. Keeps-bind n _ _ (Keeps-get_target n i) (λ t. Keeps-pure n (some (Pat.ref t.cell)))))

  mutual
    unfolding new_pat new_pats

    pub Keeps-new_pat :
        (m : Marks) (p : Ast.Pattern.Pat) (env : ℕ) (o : Origin) → Keeps n (new_pat m p env o)
    Keeps-new_pat m (Ast.Pattern.alge c ps) env o =
        Keeps-bind n (new_pats m ps env o) _ (Keeps-new_pats m ps env o)
          (λ qs. Keeps-around (Pat.alge c) qs)
    Keeps-new_pat m (Ast.Pattern.as_pat r p) env o = Keeps-bind n _ _ Keeps-new_cell (λ c.
        Keeps-bind n (new_pat m p env o) _ (Keeps-new_pat m p env o)
          (λ q. Keeps-around (Pat.as_pat c) q))
    Keeps-new_pat m (Ast.Pattern.caret p) env o =
        Keeps-bind n (new_pat m p env o) _ (Keeps-new_pat m p env o) (λ q. Keeps-around Pat.caret q)
    Keeps-new_pat m (Ast.Pattern.or_pat l r) env o =
        Keeps-bind n (new_pat m l env o) _ (Keeps-new_pat m l env o)
          (λ q. Keeps-option n q _ _ (Keeps-pure n none) (λ left. Keeps-or_right m env left r))
    Keeps-new_pat m (Ast.Pattern.int v) env o = Keeps-pure n _
    Keeps-new_pat m (Ast.Pattern.str s) env o = Keeps-pure n _
    Keeps-new_pat m (Ast.Pattern.ref r) env o = Keeps-new_ref_pat r env o
    Keeps-new_pat m Ast.Pattern.wildcard env o = Keeps-pure n _

    Keeps-new_pats :
        (m : Marks) (ps : Ast.Pattern.Pats) (env : ℕ) (o : Origin) → Keeps n (new_pats m ps env o)
    Keeps-new_pats m nil env o = Keeps-pure n _
    Keeps-new_pats m (cons p ps) env o =
        Keeps-both _ (new_pat m p env o) (new_pats m ps env o) (Keeps-new_pat m p env o)
          (Keeps-new_pats m ps env o)
