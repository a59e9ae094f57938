-- ===== src/Thunk/Build/Sound/Actions.antt =====
-- The actions on thunks, bindings and targets in sound heaps.
use lazyscript.Prelude.{
  ℕ, suc, ◌≤◌, ◌<◌, ◌≡◌, refl, sym, ap, ◌∙◌, inl, inr, none, some, [], ◌∷◌, ◌++◌, length,
  length-append, length-set, set, arith, lt→ltb,
}
use mathlib.Core.Path.{subst}
use lazyscript.Thunk.Heap.{
  Ptr, Node, Thunk, Origin, Target, Heap, done, known, load, store, alloc, alloc_whnf, set_node,
  get_bound, set_bound, get_target, new_cell, new_target, and_then, ◌>>=◌, gets,
}
use lazyscript.Thunk.Heap.Steps.{get_elem?_within, get_elem?-append_cases, write_at_lem}
use lazyscript.Thunk.Build.Sound.{
  Sizes, sizes, Grows, Grows-refl, Grows-trans, Within, NodeIn, ThunkIn, OriginIn, TargetIn,
  IsSound, returns, Fits, Builds,
}
use lazyscript.Thunk.Build.Sound.Monotone.{Within-mono, NodeIn-mono, ThunkIn-mono, OriginIn-mono}
use lazyscript.Thunk.Build.Sound.Writes.{
  IsSound-same, with_thunks, more_thunks, IsSound-thunks, with_targets, more_targets,
  IsSound-targets, Fits-thunk, one_more, set_cases, Returns-eq,
}

-- The action does not look at the heap before it ends.
pub Builds-step :
    {A : Type 0} (s : Sizes) (V : Sizes → A → Type 0) (a : Heap → A) (f : Heap → Heap)
    → ((h : Heap) → IsSound h → Grows s (sizes h) → Fits V (sizes h) (a h) (f h))
    → Builds s V (λ h. done (a h) (f h))
Builds-step s V a f fits = record { at = λ h k g. returns (fits h k g) }

pub Builds-gets : {A : Type 0} (s : Sizes) (f : Heap → A) → Builds s (λ t a. Unit {0}) (gets f)
unfolding gets
Builds-gets s f =
    Builds-step s _ _ _ (λ h k g. record { sound = k; grown = Grows-refl (sizes h); value = tt })

module _ (s : Sizes) where
  pub Builds-alloc :
      (n : Node) (w : Ptr)
      → NodeIn s n
      → Within s.thunks w
      → Builds s (λ t p. p < t.thunks) (alloc n w)
  unfolding alloc
  Builds-alloc n w hn hw = Builds-step s _ _ _ (λ h k g.
      Fits-thunk h k (record { node = n; whnf = w })
        (ThunkIn-mono s _ (one_more s h g) _ (record { node = hn; whnf = hw })))

  pub Builds-alloc_whnf : (n : Node) → NodeIn s n → Builds s (λ t p. p < t.thunks) (alloc_whnf n)
  unfolding alloc_whnf
  Builds-alloc_whnf n hn = Builds-step s _ _ _ (λ h k g.
      Fits-thunk h k (record { node = n; whnf = some (length h.thunks) })
        (record { node = NodeIn-mono s _ (one_more s h g) n hn; whnf = omega arith }))

  pub Builds-set_node :
      (p : ℕ) (n : Node) → p < s.thunks → NodeIn s n → Builds s (λ t u. Unit {0}) (set_node p n)
  unfolding set_node load store known ◌>>=◌
  Builds-set_node p n lt hn = record {
    at = λ h k g.
        let found = get_elem?_within h.thunks p (lt→ltb p _ (omega (arith, g.thunks))) in
        let t = found.0 in
        let new_thunk : Thunk = record t { node = n } in
        let xs = set h.thunks p new_thunk in
        let le : length h.thunks ≤ length xs = omega (arith, length-set h.thunks p new_thunk) in
        let g' = more_thunks h k xs le in
        let w : ThunkIn (sizes (with_thunks h k xs)) new_thunk = record {
          node = NodeIn-mono s _ (Grows-trans s (sizes h) _ g g') n hn;
          whnf = Within-mono _ _ t.whnf le (k.thunks p t found.1).whnf;
        } in
        Returns-eq _ tt (with_thunks h k xs)
          (ap (λ o. and_then (λ (u : Thunk). store p (record u { node = n })) (known o h)) found.1
            ∙ write_at_lem h.thunks p new_thunk t (with_thunks h k) found.1)
          (record {
            sound = IsSound-thunks h k xs le (λ i u at.
                elim (set_cases h.thunks p i new_thunk u at) [
                  | inl old ↦ inl old
                  | inr (d, q) ↦ inr (subst (ThunkIn _) (sym q) w)
                ]);
            grown = g';
            value = tt;
          });
  }

  pub Builds-new_cell : Builds s (λ t c. c < t.bounds) new_cell
  unfolding new_cell
  Builds-new_cell = Builds-step s _ _ _ (λ h k g.
      let e = length-append h.bounds (none ∷ []) in
      let g' : Grows (sizes h) (sizes (record h { bounds = h.bounds ++ none ∷ [] })) = record {
        thunks = omega arith;
        bounds = omega (arith, e);
        targets = omega arith;
        envs = omega arith;
        counters = omega arith;
      } in
      record { sound = IsSound-same h k _ g' refl refl refl; grown = g'; value = omega (arith, e) })

  pub Builds-get_bound : (c : ℕ) → c < s.bounds → Builds s (λ t b. Unit {0}) (get_bound c)
  unfolding get_bound known
  Builds-get_bound c lt = record {
    at = λ h k g.
        let found = get_elem?_within h.bounds c (lt→ltb c _ (omega (arith, g.bounds))) in
        Returns-eq _ found.0 h (ap (λ o. known o h) found.1)
          (record { sound = k; grown = Grows-refl (sizes h); value = tt });
  }

  pub Builds-set_bound :
      (c : ℕ) (v : Ptr) → c < s.bounds → Builds s (λ t u. Unit {0}) (set_bound c v)
  unfolding set_bound
  Builds-set_bound c v lt = record {
    at = λ h k g.
        let found = get_elem?_within h.bounds c (lt→ltb c _ (omega (arith, g.bounds))) in
        let xs = set h.bounds c v in
        let g' : Grows (sizes h) (sizes (record h { bounds = xs })) = record {
          thunks = omega arith;
          bounds = omega (arith, length-set h.bounds c v);
          targets = omega arith;
          envs = omega arith;
          counters = omega arith;
        } in
        Returns-eq _ tt (record h { bounds = xs })
          (write_at_lem h.bounds c v found.0 (λ ys. record h { bounds = ys }) found.1)
          (record { sound = IsSound-same h k _ g' refl refl refl; grown = g'; value = tt });
  }

  pub Builds-get_target :
      (i : ℕ) → i < s.targets → Builds s (λ t u. u.cell < t.bounds) (get_target i)
  unfolding get_target known
  Builds-get_target i lt = record {
    at = λ h k g.
        let found = get_elem?_within h.targets i (lt→ltb i _ (omega (arith, g.targets))) in
        Returns-eq _ found.0 h (ap (λ o. known o h) found.1) (record {
          sound = k;
          grown = Grows-refl (sizes h);
          value = (k.targets i found.0 found.1).cell;
        });
  }

  pub Builds-new_target :
      (o : Origin) (c : ℕ)
      → OriginIn s o
      → c < s.bounds
      → Builds s (λ t i. i < t.targets) (new_target o c)
  unfolding new_target
  Builds-new_target o c ho lt = Builds-step s _ _ _ (λ h k g.
      let u : Target = record { origin = o; cell = c } in
      let xs = h.targets ++ u ∷ [] in
      let e : length xs ≡ suc (length h.targets) =
        omega (arith, length-append h.targets (u ∷ [])) in
      let le : length h.targets ≤ length xs = omega (arith, e) in
      let g' = more_targets h k xs le in
      let w : TargetIn (sizes (with_targets h k xs)) u = record {
        origin = OriginIn-mono s _ (Grows-trans s (sizes h) _ g g') o ho;
        cell = omega (arith, lt, g.bounds);
      } in
      record {
        sound = IsSound-targets h k xs le (λ i t at.
            elim (get_elem?-append_cases h.targets u i t at) [
              | inl old ↦ inl old
              | inr (d, q) ↦ inr (subst (TargetIn _) (sym q) w)
            ]);
        grown = g';
        value = omega (arith, e);
      })
