-- ===== src/Thunk/Eval/Whole/Actions.antt =====
-- The actions on thunks, bindings and environments in whole heaps.
use lazyscript.Prelude.{
  ℕ, ◌≤◌, ◌<◌, ◌≡◌, refl, sym, ap, ◌∙◌, inl, inr, none, some, [], ◌∷◌, ◌++◌, Bytes, length,
  length-set, get_elem?, set, arith, lt→ltb,
}
use mathlib.Core.Path.{subst}
use lazyscript.Thunk.Heap.{
  Ptr, Node, Thunk, Heap, M, done, known, load, store, alloc, alloc_whnf, set_whnf, set_node,
  get_bound, set_bound, get_target, and_then, ◌>>=◌, gets,
}
use lazyscript.Thunk.Heap.Steps.{
  get_elem?_within, bind-done, known-done, write_at-done, write_at_lem,
}
use lazyscript.Thunk.Env
use lazyscript.Thunk.Build.Aside.{Aside-get}
use lazyscript.Thunk.Build.Sound.{
  Sizes, sizes, Grows, Grows-refl, Grows-trans, Within, NodeIn, ThunkIn, TargetIn, Builds,
}
use lazyscript.Thunk.Build.Sound.Monotone.{Within-mono, NodeIn-mono}
use lazyscript.Thunk.Build.Sound.Writes.{
  set_cases, IsSound-same, with_thunks, more_thunks, IsSound-thunks,
}
use lazyscript.Thunk.Build.Sound.Actions.{
  Builds-alloc, Builds-alloc_whnf, Builds-set_node, Builds-gets,
}
use lazyscript.Thunk.Build.Sound.Environments.{Builds-get}
use lazyscript.Thunk.Eval.Whole.{IsWhole, Leaves, leaves, faulted, Kept, Safe, Safe-Builds}

-- an action that leaves the bindings alone
pub Safe-untouched :
    {A : Type 0} (s : Sizes) (V : Sizes → A → Type 0) (m : M A)
    → Builds s V m
    → ((h : Heap) (a : A) (h' : Heap) → m h ≡ done a h' → h'.bounds ≡ h.bounds)
    → Safe s V m
Safe-untouched s V m k same = Safe-Builds s V m k (λ h a h' e g w c b at.
    Within-mono _ _ b g.thunks
      (w.bounds c b (ap (λ bs. get_elem? bs c) (sym (same h a h' e)) ∙ at)))

module _ (s : Sizes) where
  pub Safe-gets : {A : Type 0} (f : Heap → A) → Safe s (λ t a. Unit {0}) (gets f)
  unfolding gets
  Safe-gets f = Safe-untouched s _ _ (Builds-gets s f) (λ h a h' e. same_heap f h a h' e)
    where
      same_heap :
          {A : Type 0} (f : Heap → A) (h : Heap) (a : A) (h' : Heap)
          → gets f h ≡ done a h'
          → h'.bounds ≡ h.bounds
      same_heap f h a h' e = let d : h ≡ h' = cc (e) in ap (λ (x : Heap). x.bounds) (sym d)

  pub Safe-alloc :
      (n : Node) (w : Ptr)
      → NodeIn s n
      → Within s.thunks w
      → Safe s (λ t p. p < t.thunks) (alloc n w)
  unfolding alloc
  Safe-alloc n w hn hw = Safe-untouched s _ _ (Builds-alloc s n w hn hw) (λ h a h' e.
      let d : record h { thunks = h.thunks ++ (record { node = n; whnf = w } ∷ []) } ≡ h' =
        cc (e) in
      ap (λ (x : Heap). x.bounds) (sym d))

  pub Safe-alloc_whnf : (n : Node) → NodeIn s n → Safe s (λ t p. p < t.thunks) (alloc_whnf n)
  unfolding alloc_whnf
  Safe-alloc_whnf n hn = Safe-untouched s _ _ (Builds-alloc_whnf s n hn) (λ h a h' e.
      let d : record h {
        thunks = h.thunks ++ (record { node = n; whnf = some (length h.thunks) } ∷ []);
      }
          ≡ h' =
        cc (e) in
      ap (λ (x : Heap). x.bounds) (sym d))

  -- a write over a thunk that is loaded
  rewritten :
      (p : ℕ) (f : Thunk → Thunk) (h : Heap) (u : Unit {0}) (h' : Heap)
      → (load (some p) >>= λ t. store p (f t)) h ≡ done u h'
      → h'.bounds ≡ h.bounds
  unfolding load store
  rewritten p f h u h' e =
      let r = bind-done _ _ h u h' e in
      let k = known-done (get_elem? h.thunks p) h r.value r.between r.first in
      let w =
        write_at-done r.between.thunks p (f r.value) (λ xs. record r.between { thunks = xs }) h'
          r.second in
      ap (λ (x : Heap). x.bounds) w.after ∙ ap (λ (x : Heap). x.bounds) k.1

  pub Safe-set_node :
      (p : ℕ) (n : Node) → p < s.thunks → NodeIn s n → Safe s (λ t u. Unit {0}) (set_node p n)
  unfolding set_node
  Safe-set_node p n lt hn =
      Safe-untouched s _ _ (Builds-set_node s p n lt hn)
        (λ h u h' e. rewritten p (λ t. record t { node = n }) h u h' e)

  -- an action that ends at once
  Safe-ends :
      {A : Type 0} (V : Sizes → A → Type 0) (m : M A)
      → ((h : Heap)
          → IsWhole h
          → Grows s (sizes h)
          → (a : A) × (h' : Heap) × (m h ≡ done a h') × Kept V (sizes h) a h')
      → Safe s V m
  Safe-ends V m ends = record {
    at = λ h k g. let r = ends h k g in subst (Leaves (Kept V (sizes h))) (sym r.2) (leaves r.3);
  }

  pub Safe-load : (p : Ptr) → Within s.thunks p → Safe s ThunkIn (load p)
  unfolding load known
  Safe-load none w = record { at = λ h k g. faulted }
  Safe-load (some p) w = Safe-ends _ _ (λ h k g.
      let found = get_elem?_within h.thunks p (lt→ltb p _ (omega (arith, w, g.thunks))) in
      (
        found.0,
        h,
        ap (λ o. known o h) found.1,
        record {
          whole = k;
          grown = Grows-refl (sizes h);
          value = k.sound.thunks p found.0 found.1;
        },
      ))

  pub Safe-get_target : (i : ℕ) → i < s.targets → Safe s TargetIn (get_target i)
  unfolding get_target known
  Safe-get_target i lt = Safe-ends _ _ (λ h k g.
      let found = get_elem?_within h.targets i (lt→ltb i _ (omega (arith, lt, g.targets))) in
      (
        found.0,
        h,
        ap (λ o. known o h) found.1,
        record {
          whole = k;
          grown = Grows-refl (sizes h);
          value = k.sound.targets i found.0 found.1;
        },
      ))

  pub Safe-get_bound : (c : ℕ) → c < s.bounds → Safe s (λ t b. Within t.thunks b) (get_bound c)
  unfolding get_bound known
  Safe-get_bound c lt = Safe-ends _ _ (λ h k g.
      let found = get_elem?_within h.bounds c (lt→ltb c _ (omega (arith, lt, g.bounds))) in
      (
        found.0,
        h,
        ap (λ o. known o h) found.1,
        record { whole = k; grown = Grows-refl (sizes h); value = k.bounds c found.0 found.1 },
      ))

  pub Safe-set_bound :
      (c : ℕ) (v : Ptr)
      → c < s.bounds
      → Within s.thunks v
      → Safe s (λ t u. Unit {0}) (set_bound c v)
  unfolding set_bound
  Safe-set_bound c v lt w = Safe-ends _ _ (λ h k g.
      let found = get_elem?_within h.bounds c (lt→ltb c _ (omega (arith, lt, g.bounds))) in
      let xs = set h.bounds c v in
      let g' : Grows (sizes h) (sizes (record h { bounds = xs })) = record {
        thunks = omega arith;
        bounds = omega (arith, length-set h.bounds c v);
        targets = omega arith;
        envs = omega arith;
        counters = omega arith;
      } in
      (
        tt,
        record h { bounds = xs },
        write_at_lem h.bounds c v found.0 (λ ys. record h { bounds = ys }) found.1,
        record {
          whole = record {
            sound = IsSound-same h k.sound _ g' refl refl refl;
            bounds = λ i b at. elim (set_cases h.bounds c i v b at) [
              | inl old ↦ k.bounds i b old
              | inr (d, q) ↦ subst (Within (length h.thunks)) (sym q) (Within-mono _ _ v g.thunks w)
            ];
          };
          grown = g';
          value = tt;
        },
      ))

  pub Safe-set_whnf :
      (p : ℕ) (v : Ptr) → p < s.thunks → Within s.thunks v → Safe s (λ t u. Unit {0}) (set_whnf p v)
  unfolding set_whnf load store known ◌>>=◌
  Safe-set_whnf p v lt w = Safe-ends _ _ (λ h k g.
      let found = get_elem?_within h.thunks p (lt→ltb p _ (omega (arith, lt, g.thunks))) in
      let t = found.0 in
      let new_thunk : Thunk = record t { whnf = v } in
      let xs = set h.thunks p new_thunk in
      let le : length h.thunks ≤ length xs = omega (arith, length-set h.thunks p new_thunk) in
      let g' = more_thunks h k.sound xs le in
      let n : ThunkIn (sizes (with_thunks h k.sound xs)) new_thunk = record {
        node = NodeIn-mono _ _ g' t.node (k.sound.thunks p t found.1).node;
        whnf = Within-mono _ _ v (Grows-trans s (sizes h) _ g g').thunks w;
      } in
      (
        tt,
        with_thunks h k.sound xs,
        ap (λ o. and_then (λ (u : Thunk). store p (record u { whnf = v })) (known o h)) found.1
            ∙ write_at_lem h.thunks p new_thunk t (with_thunks h k.sound) found.1,
        record {
          whole = record {
            sound = IsSound-thunks h k.sound xs le (λ i u at.
                elim (set_cases h.thunks p i new_thunk u at) [
                  | inl old ↦ inl old
                  | inr (d, q) ↦ inr (subst (ThunkIn (sizes (with_thunks h k.sound xs))) (sym q) n)
                ]);
            bounds = λ i b at. Within-mono _ _ b le (k.bounds i b at);
          };
          grown = g';
          value = tt;
        },
      ))

  pub Safe-get :
      (env : ℕ) (name : Bytes)
      → env < s.envs
      → Safe s (λ t o. Within t.targets o) (Env.get env name)
  Safe-get env name lt =
      Safe-untouched s _ _ (Builds-get s env lt name)
        (λ h a h' e. ((Aside-get env name).at h a h' e).bounds)
