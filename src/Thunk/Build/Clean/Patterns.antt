-- ===== src/Thunk/Build/Clean/Patterns.antt =====
-- The construction of patterns, in which the marks are set and cleared.
use lazyscript.Prelude.{
  ℕ, ◌≡◌, sym, ap, ◌∙◌, ◌⊎◌, inl, inr, Bool, true, false, ◌||◌, Option, none, some, List, [], ◌∷◌,
  ◌++◌, Bytes, All, get_elem?, set, ◌==◌, ==_iff, Bool-cases, arith, zero, suc,
}
use lazyscript.Ast
use lazyscript.Ast.Pattern.{nil, cons}
use lazyscript.Thunk.Heap.{Ptr, Heap, Pat, Origin, M, done, ◌>>◌, pure, set_bound, new_cell}
use lazyscript.Thunk.Build.Pattern.{
  Marks, points_to, ref_cells, names, mark_present, any_present, clear_mark, mark_clear, mark_used,
  mark_right, both, cleared, or_right, new_ref_pat, new_pat, new_pats,
}
use lazyscript.Thunk.Build.Aside.{
  Aside, Aside-bool, Aside-pure, Aside-get_self, Aside-put, Aside-get_target, Aside-get_bound,
  Aside-incr_nerrors, Aside-new_target, Aside-around, Aside-reuse_pat, Aside-bind,
}
use lazyscript.Thunk.Build.Clean.{
  Takes, Takes-bind, Takes-Aside, Takes-weaken, Takes-option, Takes-bool, Takes-set_bound,
  Takes-read, is_mark, has, IsClean, Marked, set-cases, write_mark, IsClean-Marked, Marked-IsClean,
  is_present, is_used, All-has,
}

module _ (m : Marks) where
  mark_present-Marked :
      (cs ds : List ℕ)
      → All (λ c. has c ds ≡ true) cs
      → Takes (Marked m ds) (Marked m ds) (mark_present m cs)
  unfolding mark_present
  mark_present-Marked [] ds h = Takes-Aside (Marked m ds) _ (Aside-pure tt)
  mark_present-Marked (c ∷ cs) ds (h, hs) =
      Takes-bind _ _
        (Takes-set_bound c (some m.present)
          (λ bs old. write_mark m ds c m.present bs old (is_present m) h))
        (λ u. mark_present-Marked cs ds hs)

  -- a binding that holds a mark is one of the places
  Marked-has :
      (ds : List ℕ) (bs : List Ptr) (c : ℕ) (b : Ptr)
      → points_to b m.present ≡ true
      → Marked m ds bs
      → get_elem? bs c ≡ some b
      → has c ds ≡ true
  Marked-has ds bs c none p k e = cc
  Marked-has ds bs c (some a) p k e = elim (k c (some a) e) [ inl q ↦ cc | inr q ↦ q.1 ]

  mark_found-Marked :
      (ds : List ℕ) (c : ℕ) (b : Ptr)
      → Takes
          (λ bs. Marked m ds bs × (get_elem? bs c ≡ some b))
          (Marked m ds)
          (elim (points_to b m.present) as (λ _. M Bool) [
            | true ↦ set_bound c (some m.used) >> pure false
            | false ↦ pure false
          ])
  mark_found-Marked ds c b =
      Takes-bool (points_to b m.present) _ _
        (λ p.
          Takes-bind {Q = Marked m ds} _ _
            (Takes-set_bound c (some m.used) (λ bs old stood k.
              write_mark m ds c m.used bs old (is_used m) (Marked-has ds bs c b p (k.0) (k.1)) stood
                (k.0)))
            (λ u. Takes-Aside (Marked m ds) _ (Aside-pure false)))
        (λ p.
          Takes-weaken _ (λ bs k. k.0) (λ bs k. k) (Takes-Aside (Marked m ds) _ (Aside-pure false)))

  mark_used-Marked :
      (ds : List ℕ) (env : ℕ) (x : Bytes) → Takes (Marked m ds) (Marked m ds) (mark_used m env x)
  unfolding mark_used
  mark_used-Marked ds env x =
      Takes-bind _ _ (Takes-Aside (Marked m ds) _ (Aside-get_self env x)) (λ found.
        Takes-option found _ _
          (Takes-Aside (Marked m ds) _
            (Aside-bind _ _ (Aside-incr_nerrors env) (λ u. Aside-pure true)))
          (λ i.
            Takes-bind _ _ (Takes-Aside (Marked m ds) _ (Aside-get_target i))
              (λ t. Takes-read t.cell _ (mark_found-Marked ds t.cell))))

  mark_right-Marked :
      (ds : List ℕ) (env : ℕ) (xs : List Bytes)
      → Takes (Marked m ds) (Marked m ds) (mark_right m env xs)
  unfolding mark_right
  mark_right-Marked ds env [] = Takes-Aside (Marked m ds) _ (Aside-pure false)
  mark_right-Marked ds env (x ∷ xs) = Takes-bind _ _ (mark_used-Marked ds env x) (λ fresh.
      Takes-bind _ _ (mark_right-Marked ds env xs)
        (λ more. Takes-Aside (Marked m ds) _ (Aside-pure (fresh || more))))

  Aside-any_present : (cs : List ℕ) → Aside (any_present m cs)
  unfolding any_present
  Aside-any_present [] = Aside-pure false
  Aside-any_present (c ∷ cs) =
      Aside-bind _ _ (Aside-get_bound c)
        (λ b. Aside-bool (points_to b m.present) _ _ (Aside-pure true) (Aside-any_present cs))

  -- One binding is cleared.
  without :
      (c : ℕ) (cs : List ℕ) (bs : List Ptr) (old : Ptr)
      → get_elem? bs c ≡ some old
      → Marked m (c ∷ cs) bs
      → Marked m cs (set bs c none)
  without c cs bs old stood k i w e = elim (set-cases bs c none old i w stood e) [
    | inl (p, q) ↦ inl q
    | inr (p, at) ↦ elim (k i w at) [ inl q ↦ inl q | inr (q, r) ↦ inr (q, has_rest p r) ]
  ]
    where
      has_rest : {b d : Bool} → b ≡ false → (b || d) ≡ true → d ≡ true
      has_rest {b} {d} p r = ground arith

  not-Marked :
      (c : ℕ) (cs : List ℕ) (bs : List Ptr) (b : Ptr)
      → is_mark m b ≡ false
      → get_elem? bs c ≡ some b
      → Marked m (c ∷ cs) bs
      → Marked m cs bs
  not-Marked c cs bs b n stood k i w e = elim (k i w e) [
    | inl q ↦ inl q
    | inr (q, r) ↦ elim (Bool-cases (c == i)) [
      | inl p ↦
          let at : c ≡ i = (==_iff c i).0 p in
          let same_value : some b ≡ some w = sym stood ∙ ap (get_elem? bs) at ∙ e in cc
      | inr p ↦ inr (q, cc)
    ]
  ]

  clear_mark-Marked :
      (c : ℕ) (cs : List ℕ) → Takes (Marked m (c ∷ cs)) (Marked m cs) (clear_mark m c)
  unfolding clear_mark
  clear_mark-Marked c cs = Takes-read c _ (λ b.
      Takes-bool (is_mark m b) _ _
        (λ p. Takes-set_bound c none (λ bs old stood k. without c cs bs old stood (k.0)))
        (λ p.
          Takes-weaken _ (λ bs k. not-Marked c cs bs b p (k.1) (k.0)) (λ bs k. k)
            (Takes-Aside (Marked m cs) _ (Aside-pure tt))))

  mark_clear-Marked : (cs : List ℕ) → Takes (Marked m cs) (Marked m []) (mark_clear m cs)
  unfolding mark_clear
  mark_clear-Marked [] = Takes-Aside (Marked m []) _ (Aside-pure tt)
  mark_clear-Marked (c ∷ cs) = Takes-bind _ _ (clear_mark-Marked c cs) (λ u. mark_clear-Marked cs)

  cleared-IsClean :
      {A : Type 0} (l : Pat) (a : A) → Takes (Marked m (ref_cells l)) IsClean (cleared m l a)
  unfolding cleared
  cleared-IsClean l a = Takes-bind {Q = Marked m []} _ _ (mark_clear-Marked (ref_cells l)) (λ u.
      Takes-weaken _ (λ bs k. Marked-IsClean m bs k) (λ bs k. k)
        (Takes-Aside IsClean _ (Aside-pure a)))

  or_right-IsClean :
      (env : ℕ) (l : Pat) (r : Ast.Pattern.Pat) → Takes IsClean IsClean (or_right m env l r)
  unfolding or_right
  or_right-IsClean env l r =
      let cs = ref_cells l in
      Takes-bind {Q = Marked m cs} _ _
        (Takes-weaken _ (λ bs k. IsClean-Marked m cs bs k) (λ bs k. k)
          (mark_present-Marked cs cs (All-has cs cs (λ i h. h))))
        (λ u. Takes-bind _ _ (mark_right-Marked cs env (names r)) (λ fresh.
          Takes-bool fresh _ _ (λ p. cleared-IsClean l none)
            (λ p. Takes-bind _ _ (Takes-Aside (Marked m cs) _ (Aside-any_present cs)) (λ missed.
              Takes-bool missed _ _
                (λ q.
                  Takes-bind _ _ (Takes-Aside (Marked m cs) _ (Aside-incr_nerrors env))
                    (λ v. cleared-IsClean l none))
                (λ q. Takes-bind _ _ (Takes-Aside (Marked m cs) _ (Aside-reuse_pat r env)) (λ o.
                  Takes-option o _ _ (cleared-IsClean l none)
                    (λ k. cleared-IsClean l (some (Pat.or_pat l k)))))))))

-- New bindings are empty.
append_none :
    (bs : List Ptr) (i : ℕ) (v : Ptr)
    → get_elem? (bs ++ none ∷ []) i ≡ some v
    → (get_elem? bs i ≡ some v) ⊎ (v ≡ none)
append_none [] zero v e = inr (cc)
append_none [] (suc i) v e = cc
append_none (b ∷ bs) zero v e = inl e
append_none (b ∷ bs) (suc i) v e = append_none bs i v e

new_cell-IsClean : Takes IsClean IsClean new_cell
unfolding new_cell
new_cell-IsClean = record {
  at = λ h a h' e k i v at.
      let made : record h { bounds = h.bounds ++ none ∷ [] } ≡ h' = cc in
      let longer : h'.bounds ≡ h.bounds ++ none ∷ [] = ap (λ (x : Heap). x.bounds) (sym made) in
      elim (append_none h.bounds i v (ap (λ bs. get_elem? bs i) (sym longer) ∙ at)) [
        | inl p ↦ k i v p
        | inr p ↦ p
      ];
}

abbrev pub Stay : {A : Type 0} → M A → Type 0
Stay k = Takes IsClean IsClean k

pub aside : {A : Type 0} (k : M A) → Aside k → Stay k
aside k a = Takes-Aside IsClean k a

both-IsClean :
    {A B C : Type 0} (f : A → B → C) (k : M (Option A)) (l : M (Option B))
    → Stay k
    → Stay l
    → Stay (both f k l)
unfolding both
both-IsClean f k l hk hl = Takes-bind _ _ hk (λ x.
    Takes-option x _ _ (aside _ (Aside-pure none))
      (λ p. Takes-bind _ _ hl (λ y. aside _ (Aside-around (f p) y))))

new_ref_pat-IsClean : (r : Bytes) (env : ℕ) (o : Origin) → Stay (new_ref_pat r env o)
unfolding new_ref_pat
new_ref_pat-IsClean r env o = Takes-bind _ _ (aside _ (Aside-get_self env r)) (λ found.
    Takes-option found _ _
      (Takes-bind _ _ new_cell-IsClean (λ c. aside _ (
        Aside-bind _ _ (Aside-new_target o c)
          (λ i. Aside-bind _ _ (Aside-put env r i) (λ u. Aside-pure (some (Pat.ref c)))))))
      (λ i.
        aside _ (Aside-bind _ _ (Aside-get_target i) (λ t. Aside-pure (some (Pat.ref t.cell))))))

module _ (m : Marks) where
  mutual
    unfolding new_pat new_pats

    pub pat-IsClean : (p : Ast.Pattern.Pat) (env : ℕ) (o : Origin) → Stay (new_pat m p env o)
    pat-IsClean (Ast.Pattern.alge c ps) env o =
        Takes-bind (new_pats m ps env o) _ (pats-IsClean ps env o)
          (λ qs. aside _ (Aside-around (Pat.alge c) qs))
    pat-IsClean (Ast.Pattern.as_pat r p) env o = Takes-bind _ _ new_cell-IsClean (λ c.
        Takes-bind (new_pat m p env o) _ (pat-IsClean p env o)
          (λ q. aside _ (Aside-around (Pat.as_pat c) q)))
    pat-IsClean (Ast.Pattern.caret p) env o =
        Takes-bind (new_pat m p env o) _ (pat-IsClean p env o)
          (λ q. aside _ (Aside-around Pat.caret q))
    pat-IsClean (Ast.Pattern.or_pat l r) env o =
        Takes-bind (new_pat m l env o) _ (pat-IsClean l env o) (λ q.
          Takes-option q _ _ (aside _ (Aside-pure none)) (λ left. or_right-IsClean m env left r))
    pat-IsClean (Ast.Pattern.int v) env o = aside _ (Aside-pure _)
    pat-IsClean (Ast.Pattern.str s) env o = aside _ (Aside-pure _)
    pat-IsClean (Ast.Pattern.ref r) env o = new_ref_pat-IsClean r env o
    pat-IsClean Ast.Pattern.wildcard env o = aside _ (Aside-pure _)

    pats-IsClean : (ps : Ast.Pattern.Pats) (env : ℕ) (o : Origin) → Stay (new_pats m ps env o)
    pats-IsClean nil env o = aside _ (Aside-pure _)
    pats-IsClean (cons p ps) env o =
        both-IsClean _ (new_pat m p env o) (new_pats m ps env o) (pat-IsClean p env o)
          (pats-IsClean ps env o)

-- Where every binding of the heap is empty, the construction of a pattern that ends, with a pattern
-- or with NULL, leaves every binding empty: no mark of the check of an or-pattern stays behind.
pub new_pat-IsClean :
    (m : Marks) (p : Ast.Pattern.Pat) (env : ℕ) (o : Origin) (h h' : Heap) (r : Option Pat)
    → IsClean h.bounds
    → new_pat m p env o h ≡ done r h'
    → IsClean h'.bounds
new_pat-IsClean m p env o h h' r k e = (pat-IsClean m p env o).at h r h' e k
