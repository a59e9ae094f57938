-- ===== src/Thunk/Match/Clear.antt =====
-- The bindings that `lstpat_clear_binds` of src/thunk/tpat.c empties.
use lazyscript.Prelude.{
  ℕ, ◌≡◌, refl, ap, sym, ◌∙◌, Bool, true, false, ◌||◌, none, some, length, get_elem?, set,
  length-set, ◌==◌, ==_iff, ltb, arith,
}
use mathlib.Core.Path.{subst}
use lazyscript.Thunk.Heap.{
  Pat, Pats, as_pat, wildcard, or_pat, caret, no_pats, pat, Heap, M, done, and_then, ◌>>=◌, ◌>>◌,
  pure, set_bound,
}
use lazyscript.Thunk.Heap.Steps.{
  bind-done, write_at-done, write_at_lem, get_elem?-set, get_elem?-set_ne, get_elem?_within,
}
use lazyscript.Thunk.Match.{clear_binds, clear_all}

-- Whether a reference of the pattern has its binding at the place `i`.
unfoldable mutual
  pub binds : Pat → ℕ → Bool
  binds (Pat.alge c ps) i = binds_any ps i
  binds (as_pat cell p) i = i == cell || binds p i
  binds (Pat.int v) i = false
  binds (Pat.str s) i = false
  binds (Pat.ref cell) i = i == cell
  binds wildcard i = false
  binds (or_pat l r) i = binds l i || binds r i
  binds (caret p) i = binds p i

  pub binds_any : Pats → ℕ → Bool
  binds_any no_pats i = false
  binds_any (pat p ps) i = binds p i || binds_any ps i

-- From `h` to `h'` the bindings at the places of `b` were emptied, and nothing else changed.
pub record Emptied (b : ℕ → Bool) (h h' : Heap) : Type 0 where
  pub rest : h' ≡ record h { bounds = h'.bounds }
  pub size : length h'.bounds ≡ length h.bounds
  pub emptied : (i : ℕ) → b i ≡ true → get_elem? h'.bounds i ≡ some none
  pub kept : (i : ℕ) → b i ≡ false → get_elem? h'.bounds i ≡ get_elem? h.bounds i

Emptied-none : (h h' : Heap) → done tt h ≡ done tt h' → Emptied (λ i. false) h h'
Emptied-none h h' e =
    let same_heap : h ≡ h' = cc in
    subst (λ x. Emptied (λ i. false) h x) same_heap
      (record { rest = refl; size = refl; emptied = λ i e. cc; kept = λ i e. refl })

Emptied-one :
    (cell : ℕ) (h h' : Heap) → set_bound cell none h ≡ done tt h' → Emptied (λ i. i == cell) h h'
unfolding set_bound
Emptied-one cell h h' e =
    let w = write_at-done h.bounds cell none (λ xs. record h { bounds = xs }) h' e in
    subst (λ x. Emptied (λ i. i == cell) h x) (sym w.after)
      (record {
        rest = refl;
        size = length-set h.bounds cell none;
        emptied = λ i e.
            let at : cell ≡ i = sym ((==_iff i cell).0 e) in
            subst (λ j. get_elem? (set h.bounds cell none) j ≡ some none) at
              (get_elem?-set h.bounds cell none w.old w.stood);
        kept = λ i e.
            get_elem?-set_ne h.bounds cell i none
              (λ (at : cell ≡ i). cc (e, (==_iff i cell).1 (sym at)));
      })

or_false_left : (a b : Bool) → (a || b) ≡ false → a ≡ false
or_false_left false b e = refl
or_false_left true b e = cc

or_false_right : (a b : Bool) → (a || b) ≡ false → b ≡ false
or_false_right false b e = e
or_false_right true b e = cc

Emptied-both :
    (b c : ℕ → Bool) (h h1 h2 : Heap)
    → Emptied b h h1
    → Emptied c h1 h2
    → Emptied (λ i. b i || c i) h h2
Emptied-both b c h h1 h2 p q = record {
  rest = q.rest ∙ ap (λ (x : Heap). record x { bounds = h2.bounds }) p.rest;
  size = q.size ∙ p.size;
  emptied = λ i e. twice i (b i) (c i) refl refl e;
  kept = λ i e. q.kept i (or_false_right (b i) (c i) e) ∙ p.kept i (or_false_left (b i) (c i) e);
}
  where
    twice :
        (i : ℕ) (x y : Bool)
        → b i ≡ x
        → c i ≡ y
        → (x || y) ≡ true
        → get_elem? h2.bounds i ≡ some none
    twice i x true eb ec e = q.emptied i ec
    twice i true false eb ec e = q.kept i ec ∙ p.emptied i eb
    twice i false false eb ec e = cc

bind-Emptied :
    (m k : M (Unit {0})) (b c : ℕ → Bool) (h h2 : Heap)
    → ((h' : Heap) → m h ≡ done tt h' → Emptied b h h')
    → ((h1 h' : Heap) → k h1 ≡ done tt h' → Emptied c h1 h')
    → (m >> k) h ≡ done tt h2
    → Emptied (λ i. b i || c i) h h2
bind-Emptied m k b c h h2 p q e =
    let s = bind-done m (λ _. k) h tt h2 e in
    Emptied-both b c h s.between h2 (p s.between s.first) (q s.between h2 s.second)

mutual
  unfolding clear_binds clear_all binds binds_any pure

  clear_binds_lem : (p : Pat) (h h' : Heap) → clear_binds p h ≡ done tt h' → Emptied (binds p) h h'
  clear_binds_lem (Pat.alge c ps) h h' e = clear_all_lem ps h h' e
  clear_binds_lem (as_pat cell p) h h' e =
      bind-Emptied (set_bound cell none) (clear_binds p) _ _ h h' (Emptied-one cell h)
        (clear_binds_lem p) e
  clear_binds_lem (Pat.int v) h h' e = Emptied-none h h' e
  clear_binds_lem (Pat.str s) h h' e = Emptied-none h h' e
  clear_binds_lem (Pat.ref cell) h h' e = Emptied-one cell h h' e
  clear_binds_lem wildcard h h' e = Emptied-none h h' e
  clear_binds_lem (or_pat l r) h h' e =
      bind-Emptied (clear_binds l) (clear_binds r) _ _ h h' (clear_binds_lem l h)
        (clear_binds_lem r) e
  clear_binds_lem (caret p) h h' e = clear_binds_lem p h h' e

  clear_all_lem :
      (ps : Pats) (h h' : Heap) → clear_all ps h ≡ done tt h' → Emptied (binds_any ps) h h'
  clear_all_lem no_pats h h' e = Emptied-none h h' e
  clear_all_lem (pat p ps) h h' e =
      bind-Emptied (clear_binds p) (clear_all ps) _ _ h h' (clear_binds_lem p h) (clear_all_lem ps)
        e

pub Emptied-clear_binds :
    (p : Pat) (h h' : Heap) → clear_binds p h ≡ done tt h' → Emptied (binds p) h h'
Emptied-clear_binds = clear_binds_lem

-- The place of each binding of the pattern stands in the heap.
abbrev pub Allocated : Pat → Heap → Type 0
Allocated p h = (i : ℕ) → binds p i ≡ true → ltb i (length h.bounds) ≡ true

pub record Ends (m : M (Unit {0})) (h : Heap) : Type 0 where
  pub after : Heap
  pub ends : m h ≡ done tt after

Ends-set_bound :
    (cell : ℕ) (h : Heap) → ltb cell (length h.bounds) ≡ true → Ends (set_bound cell none) h
unfolding set_bound
Ends-set_bound cell h lt =
    let (v, at) = get_elem?_within h.bounds cell lt in
    record {
      after = record h { bounds = set h.bounds cell none };
      ends = write_at_lem h.bounds cell none v (λ xs. record h { bounds = xs }) at;
    }

Ends-bind :
    (m k : M (Unit {0})) (h : Heap)
    → Ends m h
    → ((h' : Heap) → m h ≡ done tt h' → Ends k h')
    → Ends (m >> k) h
unfolding ◌>>=◌
Ends-bind m k h p q =
    let r = q p.after p.ends in
    record { after = r.after; ends = ap (and_then (λ _. k)) p.ends ∙ r.ends }

or_left : (a b : Bool) → a ≡ true → (a || b) ≡ true
or_left a b e = ground arith

or_right : (a b : Bool) → b ≡ true → (a || b) ≡ true
or_right a b e = ground arith

abbrev Below : (ℕ → Bool) → ℕ → Type 0
Below b n = (i : ℕ) → b i ≡ true → ltb i n ≡ true

mutual
  unfolding clear_binds clear_all binds binds_any pure

  clear_binds-Ends :
      (p : Pat) (h : Heap) (n : ℕ)
      → length h.bounds ≡ n
      → Below (binds p) n
      → Ends (clear_binds p) h
  clear_binds-Ends (Pat.alge c ps) h n e lt = clear_all-Ends ps h n e lt
  clear_binds-Ends (as_pat cell p) h n e lt =
      Ends-bind (set_bound cell none) (clear_binds p) h
        (Ends-set_bound cell h
          (ap (ltb cell) e ∙ lt cell (or_left _ _ ((==_iff cell cell).1 refl))))
        (λ h' r.
          clear_binds-Ends p h' n ((Emptied-one cell h h' r).size ∙ e)
            (λ i b. lt i (or_right (i == cell) _ b)))
  clear_binds-Ends (Pat.int v) h n e lt = record { after = h; ends = refl }
  clear_binds-Ends (Pat.str s) h n e lt = record { after = h; ends = refl }
  clear_binds-Ends (Pat.ref cell) h n e lt =
      Ends-set_bound cell h (ap (ltb cell) e ∙ lt cell ((==_iff cell cell).1 refl))
  clear_binds-Ends wildcard h n e lt = record { after = h; ends = refl }
  clear_binds-Ends (or_pat l r) h n e lt =
      Ends-bind (clear_binds l) (clear_binds r) h
        (clear_binds-Ends l h n e (λ i b. lt i (or_left _ _ b)))
        (λ h' q.
          clear_binds-Ends r h' n ((clear_binds_lem l h h' q).size ∙ e)
            (λ i b. lt i (or_right (binds l i) _ b)))
  clear_binds-Ends (caret p) h n e lt = clear_binds-Ends p h n e lt

  clear_all-Ends :
      (ps : Pats) (h : Heap) (n : ℕ)
      → length h.bounds ≡ n
      → Below (binds_any ps) n
      → Ends (clear_all ps) h
  clear_all-Ends no_pats h n e lt = record { after = h; ends = refl }
  clear_all-Ends (pat p ps) h n e lt =
      Ends-bind (clear_binds p) (clear_all ps) h
        (clear_binds-Ends p h n e (λ i b. lt i (or_left _ _ b)))
        (λ h' q.
          clear_all-Ends ps h' n ((clear_binds_lem p h h' q).size ∙ e)
            (λ i b. lt i (or_right (binds p i) _ b)))

-- When the bindings of a pattern are in the heap, `lstpat_clear_binds` ends; then each of them is
-- empty, the other bindings are as they were, and nothing else has changed.
pub clear_binds-Emptied :
    (p : Pat) (h : Heap)
    → Allocated p h
    → (h' : Heap) × (clear_binds p h ≡ done tt h') × Emptied (binds p) h h'
clear_binds-Emptied p h lt =
    let r = clear_binds-Ends p h (length h.bounds) refl lt in
    (r.after, r.ends, Emptied-clear_binds p h r.after r.ends)
