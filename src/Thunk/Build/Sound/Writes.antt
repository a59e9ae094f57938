-- ===== src/Thunk/Build/Sound/Writes.antt =====
-- Writes to the lists of a sound heap.
use lazyscript.Prelude.{
  ℕ, zero, suc, ◌≤◌, ◌<◌, ◌≡◌, refl, sym, ap, ◌∙◌, ◌⊎◌, inl, inr, some, List, [], ◌∷◌, ◌++◌, length,
  length-append, get_elem?, set, arith,
}
use mathlib.Core.Path.{subst}
use lazyscript.Thunk.Heap.{Thunk, Target, Env, Heap, Outcome, done}
use lazyscript.Thunk.Heap.Steps.{get_elem?-append_cases}
use lazyscript.Thunk.Build.Sound.{
  Sizes, sizes, Grows, ThunkIn, TargetIn, EnvIn, IsSound, Returns, returns, Fits,
}
use lazyscript.Thunk.Build.Sound.Monotone.{ThunkIn-mono, TargetIn-mono, EnvIn-mono}

module _ (h : Heap) (k : IsSound h) where
  -- a heap with the same thunks, targets and environments, and no fewer objects
  pub IsSound-same :
      (h' : Heap)
      → Grows (sizes h) (sizes h')
      → h'.thunks ≡ h.thunks
      → h'.targets ≡ h.targets
      → h'.envs ≡ h.envs
      → IsSound h'
  IsSound-same h' g a b c = record {
    thunks = λ i t at. ThunkIn-mono _ _ g t (k.thunks i t (ap (λ xs. get_elem? xs i) (sym a) ∙ at));
    targets =
        λ i t at. TargetIn-mono _ _ g t (k.targets i t (ap (λ xs. get_elem? xs i) (sym b) ∙ at));
    envs = λ i e at. EnvIn-mono _ _ g i e (k.envs i e (ap (λ xs. get_elem? xs i) (sym c) ∙ at));
  }

  abbrev pub with_thunks : List Thunk → Heap
  with_thunks xs = record h { thunks = xs }

  pub more_thunks :
      (xs : List Thunk) → length h.thunks ≤ length xs → Grows (sizes h) (sizes (with_thunks xs))
  more_thunks xs le = record {
    thunks = le;
    bounds = omega arith;
    targets = omega arith;
    envs = omega arith;
    counters = omega arith;
  }

  pub IsSound-thunks :
      (xs : List Thunk)
      → length h.thunks ≤ length xs
      → ((i : ℕ) (t : Thunk)
          → get_elem? xs i ≡ some t
          → (get_elem? h.thunks i ≡ some t) ⊎ ThunkIn (sizes (with_thunks xs)) t)
      → IsSound (with_thunks xs)
  IsSound-thunks xs le cases = record {
    thunks = λ i t at. elim (cases i t at) [
      | inl old ↦ ThunkIn-mono _ _ (more_thunks xs le) t (k.thunks i t old)
      | inr w ↦ w
    ];
    targets = λ i t at. TargetIn-mono _ _ (more_thunks xs le) t (k.targets i t at);
    envs = λ i e at. EnvIn-mono _ _ (more_thunks xs le) i e (k.envs i e at);
  }

  abbrev pub with_targets : List Target → Heap
  with_targets xs = record h { targets = xs }

  pub more_targets :
      (xs : List Target) → length h.targets ≤ length xs → Grows (sizes h) (sizes (with_targets xs))
  more_targets xs le = record {
    thunks = omega arith;
    bounds = omega arith;
    targets = le;
    envs = omega arith;
    counters = omega arith;
  }

  pub IsSound-targets :
      (xs : List Target)
      → length h.targets ≤ length xs
      → ((i : ℕ) (t : Target)
          → get_elem? xs i ≡ some t
          → (get_elem? h.targets i ≡ some t) ⊎ TargetIn (sizes (with_targets xs)) t)
      → IsSound (with_targets xs)
  IsSound-targets xs le cases = record {
    thunks = λ i t at. ThunkIn-mono _ _ (more_targets xs le) t (k.thunks i t at);
    targets = λ i t at. elim (cases i t at) [
      | inl old ↦ TargetIn-mono _ _ (more_targets xs le) t (k.targets i t old)
      | inr w ↦ w
    ];
    envs = λ i e at. EnvIn-mono _ _ (more_targets xs le) i e (k.envs i e at);
  }

  abbrev pub with_envs : List Env → Heap
  with_envs xs = record h { envs = xs }

  pub more_envs :
      (xs : List Env) → length h.envs ≤ length xs → Grows (sizes h) (sizes (with_envs xs))
  more_envs xs le = record {
    thunks = omega arith;
    bounds = omega arith;
    targets = omega arith;
    envs = le;
    counters = omega arith;
  }

  pub IsSound-envs :
      (xs : List Env)
      → length h.envs ≤ length xs
      → ((i : ℕ) (e : Env)
          → get_elem? xs i ≡ some e
          → (get_elem? h.envs i ≡ some e) ⊎ EnvIn (sizes (with_envs xs)) i e)
      → IsSound (with_envs xs)
  IsSound-envs xs le cases = record {
    thunks = λ i t at. ThunkIn-mono _ _ (more_envs xs le) t (k.thunks i t at);
    targets = λ i t at. TargetIn-mono _ _ (more_envs xs le) t (k.targets i t at);
    envs = λ i e at. elim (cases i e at) [
      | inl old ↦ EnvIn-mono _ _ (more_envs xs le) i e (k.envs i e old)
      | inr w ↦ w
    ];
  }

  -- a thunk more, which may point to itself
  pub Fits-thunk :
      (t : Thunk)
      → ThunkIn (record (sizes h) { thunks = suc (length h.thunks) }) t
      → Fits (λ s p. p < s.thunks) (sizes h) (length h.thunks) (with_thunks (h.thunks ++ t ∷ []))
  Fits-thunk t w =
      let xs = h.thunks ++ t ∷ [] in
      let e : length xs ≡ suc (length h.thunks) = omega (arith, length-append h.thunks (t ∷ [])) in
      let w' : ThunkIn (sizes (with_thunks xs)) t =
        subst (λ n. ThunkIn (record (sizes h) { thunks = n }) t) (sym e) w in
      record {
        sound = IsSound-thunks xs (omega (arith, e)) (λ i u at.
            elim (get_elem?-append_cases h.thunks t i u at) [
              | inl old ↦ inl old
              | inr (d, q) ↦ inr (subst (ThunkIn _) (sym q) w')
            ]);
        grown = more_thunks xs (omega (arith, e));
        value = omega (arith, e);
      }

pub one_more :
    (s : Sizes) (h : Heap)
    → Grows s (sizes h)
    → Grows s (record (sizes h) { thunks = suc (length h.thunks) })
one_more s h g = record {
  thunks = omega (arith, g.thunks);
  bounds = g.bounds;
  targets = g.targets;
  envs = g.envs;
  counters = g.counters;
}

-- an element of a list with one replaced
pub set_cases :
    {A : Type 0} (xs : List A) (i j : ℕ) (v u : A)
    → get_elem? (set xs i v) j ≡ some u
    → (get_elem? xs j ≡ some u) ⊎ ((i ≡ j) × (u ≡ v))
set_cases [] i j v u e = cc
set_cases (x ∷ xs) zero zero v u e = inr (refl, cc)
set_cases (x ∷ xs) zero (suc j) v u e = inl e
set_cases (x ∷ xs) (suc i) zero v u e = inl e
set_cases (x ∷ xs) (suc i) (suc j) v u e = elim (set_cases xs i j v u e) [
  | inl p ↦ inl p
  | inr (p, q) ↦ inr (ap suc p, q)
]

pub Returns-eq :
    {A : Type 0} {P : A → Heap → Type 0} (o : Outcome A) (a : A) (h : Heap)
    → o ≡ done a h
    → P a h
    → Returns P o
Returns-eq {P = P} o a h e p = subst (Returns P) (sym e) (returns p)
