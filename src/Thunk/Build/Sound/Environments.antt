-- ===== src/Thunk/Build/Sound/Environments.antt =====
-- The actions on environments, and on the origins of targets, in sound heaps.
use lazyscript.Prelude.{
  ℕ, zero, suc, ◌≤◌, ◌<◌, ◌≡◌, refl, sym, ap, ◌∙◌, inl, inr, ◌⊎◌, Option, none, some, List, [], ◌∷◌,
  ◌++◌, Bytes, Bool-cases, length, length-append, length-set, get_elem?, set, arith, lt→ltb, same,
  if◌then◌else◌,
}
use mathlib.Core.Path.{subst}
use lazyscript.Thunk.Heap.{
  Origin, Target, Env, Counter, Heap, known, get_env, and_then, ◌>>=◌, write_at,
}
use lazyscript.Thunk.Heap.Steps.{get_elem?_within, get_elem?-append_cases, write_at_lem}
use lazyscript.Thunk.Env
use lazyscript.Thunk.Env.{
  find, put_entry, store_env, new_counter, add_env, counter_for, get_self, put, update_counter,
  incr_nerrors,
}
use lazyscript.Thunk.Env.Lookup.{
  find-put_entry, Nearest, here, outer, missing, WellParented, get-Nearest,
}
use lazyscript.Thunk.Build.{set_origins, with_origin}
use lazyscript.Thunk.Build.Sound.{
  Sizes, sizes, Grows, Grows-refl, Grows-trans, Within, OriginIn, TargetIn, EnvIn, IsSound, Builds,
  Builds-bind, Builds-pure,
}
use lazyscript.Thunk.Build.Sound.Monotone.{OriginIn-mono}
use lazyscript.Thunk.Build.Sound.Writes.{
  with_envs, more_envs, IsSound-envs, IsSound-same, IsSound-targets, more_targets, with_targets,
  Returns-eq, set_cases,
}
use lazyscript.Thunk.Build.Sound.Actions.{Builds-step}

-- What is found for a name is the target of an entry.
found-Within :
    (n : ℕ) (e : Env) (name : Bytes) (o : Option ℕ)
    → ((t : ℕ) → find name e.refs ≡ some t → t < n)
    → find name e.refs ≡ o
    → Within n o
found-Within n e name none below eq = tt
found-Within n e name (some t) below eq = below t eq

-- the entries after one has been put
put-below :
    (n : ℕ) (e : Env) (name x : Bytes) (i t : ℕ)
    → i < n
    → ((t : ℕ) → find x e.refs ≡ some t → t < n)
    → find x (put_entry name i e.refs) ≡ some t
    → t < n
put-below n e name x i t lt below at =
    let r : (if same name x then some i else find x e.refs) ≡ some t =
      sym (find-put_entry name x i e.refs) ∙ at in
    elim (Bool-cases (same name x)) [
      | inl y ↦ let d : i ≡ t = cc (rw y at r) in omega (arith, d, lt)
      | inr y ↦ below t (rw y at r)
    ]

Nearest-Within :
    (h : Heap) (name : Bytes) (i : ℕ) (o : Option ℕ)
    → IsSound h
    → Nearest h name i o
    → Within (length h.targets) o
Nearest-Within h name i o k (here at f) = (k.envs i _ at).refs name _ f
Nearest-Within h name i o k (outer at f up n) = Nearest-Within h name _ o k n
Nearest-Within h name i o k (missing at f up) = tt

IsSound-WellParented : (h : Heap) → IsSound h → WellParented h
IsSound-WellParented h k = record { older = λ i p e at up. (k.envs i e at).older p up }

no_entry : {n : ℕ} (name : Bytes) (t : ℕ) → find name [] ≡ some t → t < n
unfolding find
no_entry name t at = cc

Builds-read_counter :
    (s : Sizes) (c : ℕ)
    → c < s.counters
    → Builds {A = Counter} s (λ t x. c < t.counters) (λ h. known (get_elem? h.counters c) h)
unfolding known
Builds-read_counter s c lt = record {
  at = λ h k g.
      let found = get_elem?_within h.counters c (lt→ltb c _ (omega (arith, lt, g.counters))) in
      Returns-eq _ found.0 h (ap (λ o. known o h) found.1)
        (record { sound = k; grown = Grows-refl (sizes h); value = omega (arith, lt, g.counters) });
}

Builds-write_counter :
    (s : Sizes) (c : ℕ) (x : Counter)
    → c < s.counters
    → Builds s (λ t u. Unit {0}) (λ h. write_at h.counters c x (λ cs. record h { counters = cs }))
Builds-write_counter s c x lt = record {
  at = λ h k g.
      let found = get_elem?_within h.counters c (lt→ltb c _ (omega (arith, lt, g.counters))) in
      let xs = set h.counters c x in
      let g' : Grows (sizes h) (sizes (record h { counters = xs })) = record {
        thunks = omega arith;
        bounds = omega arith;
        targets = omega arith;
        envs = omega arith;
        counters = omega (arith, length-set h.counters c x);
      } in
      Returns-eq _ tt (record h { counters = xs })
        (write_at_lem h.counters c x found.0 (λ cs. record h { counters = cs }) found.1)
        (record { sound = IsSound-same h k _ g' refl refl refl; grown = g'; value = tt });
}

-- a child of `env`
Builds-add_env :
    (s : Sizes) (c : ℕ)
    → c < s.counters
    → (env : ℕ) → env < s.envs
    → Builds s (λ t e. e < t.envs) (add_env (record { refs = []; counter = c; parent = some env }))
unfolding add_env
Builds-add_env s c below env lt = Builds-step s _ _ _ (λ h k g.
    let child : Env = record { refs = []; counter = c; parent = some env } in
    let xs = h.envs ++ child ∷ [] in
    let e : length xs ≡ suc (length h.envs) = omega (arith, length-append h.envs (child ∷ [])) in
    let le : length h.envs ≤ length xs = omega (arith, e) in
    let w : EnvIn (sizes (with_envs h k xs)) (length h.envs) child = record {
      older = λ p up. let d : env ≡ p = cc up in omega (arith, d, lt, g.envs);
      refs = λ name t at. no_entry name t at;
      counter = omega (arith, below, g.counters);
    } in
    record {
      sound = IsSound-envs h k xs le (λ j x at. elim (get_elem?-append_cases h.envs child j x at) [
        | inl old ↦ inl old
        | inr (d, q) ↦ inr (
            subst (λ (y : Env). EnvIn (sizes (with_envs h k xs)) j y) (sym q)
              (subst (λ n. EnvIn (sizes (with_envs h k xs)) n child) (sym d) w))
      ]);
      grown = more_envs h k xs le;
      value = omega (arith, e);
    })

module _ (s : Sizes) (env : ℕ) (lt : env < s.envs) where
  Builds-get_env :
      Builds s
        (λ t e.
          ((name : Bytes) (i : ℕ) → find name e.refs ≡ some i → i < t.targets)
          × (e.counter < t.counters))
        (get_env env)
  unfolding get_env known
  Builds-get_env = record {
    at = λ h k g.
        let found = get_elem?_within h.envs env (lt→ltb env _ (omega (arith, lt, g.envs))) in
        let w = k.envs env found.0 found.1 in
        Returns-eq _ found.0 h (ap (λ o. known o h) found.1)
          (record { sound = k; grown = Grows-refl (sizes h); value = (w.refs, w.counter) });
  }

  pub Builds-get_self : (name : Bytes) → Builds s (λ t o. Within t.targets o) (get_self env name)
  unfolding get_self
  Builds-get_self name = Builds-bind s _ _ _ _ Builds-get_env (λ e t g v. Builds-pure t _ _ (λ u g'.
      found-Within u.targets e name _ (λ i at. omega (arith, v.0 name i at, g'.targets)) refl))

  pub Builds-get : (name : Bytes) → Builds s (λ t o. Within t.targets o) (Env.get env name)
  Builds-get name = record {
    at = λ h k g.
        let r = get-Nearest h env name (IsSound-WellParented h k) (omega (arith, lt, g.envs)) in
        Returns-eq _ r.0 h r.1 (record {
          sound = k;
          grown = Grows-refl (sizes h);
          value = Nearest-Within h name env r.0 k r.2;
        });
  }

  pub Builds-put :
      (name : Bytes) (i : ℕ) → i < s.targets → Builds s (λ t u. Unit {0}) (put env name i)
  unfolding put get_env known store_env ◌>>=◌
  Builds-put name i below = record {
    at = λ h k g.
        let found = get_elem?_within h.envs env (lt→ltb env _ (omega (arith, lt, g.envs))) in
        let e = found.0 in
        let new_env : Env = record e { refs = put_entry name i e.refs } in
        let xs = set h.envs env new_env in
        let le : length h.envs ≤ length xs = omega (arith, length-set h.envs env new_env) in
        let stood = k.envs env e found.1 in
        let w : EnvIn (sizes (with_envs h k xs)) env new_env = record {
          older = stood.older;
          refs = λ x t at.
              put-below _ e name x i t (omega (arith, below, g.targets)) (stood.refs x) at;
          counter = stood.counter;
        } in
        Returns-eq _ tt (with_envs h k xs)
          (ap
              (λ o.
                and_then (λ (x : Env). store_env env (record x { refs = put_entry name i x.refs }))
                  (known o h))
              found.1
            ∙ write_at_lem h.envs env new_env e (with_envs h k) found.1)
          (record {
            sound = IsSound-envs h k xs le (λ j x at. elim (set_cases h.envs env j new_env x at) [
              | inl old ↦ inl old
              | inr (d, q) ↦ inr (
                  subst (λ (y : Env). EnvIn (sizes (with_envs h k xs)) j y) (sym q)
                    (subst (λ n. EnvIn (sizes (with_envs h k xs)) n new_env) d w))
            ]);
            grown = more_envs h k xs le;
            value = tt;
          });
  }

  Builds-update_counter :
      (f : Counter → Counter) → Builds s (λ t u. Unit {0}) (update_counter env f)
  unfolding update_counter
  Builds-update_counter f = Builds-bind s _ _ _ _ Builds-get_env (λ e t g v.
      Builds-bind t (λ u c. e.counter < u.counters) _
        (λ h. known (get_elem? h.counters e.counter) h)
        (λ c h. write_at h.counters e.counter (f c) (λ cs. record h { counters = cs }))
        (Builds-read_counter t e.counter v.1)
        (λ c u g' w. Builds-write_counter u e.counter (f c) w))

  pub Builds-incr_nerrors : Builds s (λ t u. Unit {0}) (incr_nerrors env)
  unfolding incr_nerrors
  Builds-incr_nerrors = Builds-update_counter _

  -- a new environment with a parent
  pub Builds-new : Builds s (λ t e. e < t.envs) (Env.new (some env))
  unfolding Env.new counter_for
  Builds-new =
      Builds-bind s (λ t c. c < t.counters) _ _ _
        (Builds-bind s _ _ _ _ Builds-get_env
          (λ e t g v. Builds-pure t _ _ (λ u g'. omega (arith, v.1, g'.counters))))
        (λ c t g below. Builds-add_env t c below env (omega (arith, lt, g.envs)))

-- The origins of some targets are written.
get_elem?-with_origin :
    (first count : ℕ) (o : Origin) (ts : List Target) (i : ℕ) (t : Target)
    → get_elem? (with_origin first count o ts) i ≡ some t
    → (get_elem? ts i ≡ some t)
      ⊎ ((old : Target) × (get_elem? ts i ≡ some old) × (t ≡ record old { origin = o }))
unfolding with_origin
get_elem?-with_origin first count o [] i t e = inl e
get_elem?-with_origin (suc first) count o (x ∷ ts) zero t e = inl e
get_elem?-with_origin (suc first) count o (x ∷ ts) (suc i) t e =
    get_elem?-with_origin first count o ts i t e
get_elem?-with_origin zero zero o (x ∷ ts) i t e = inl e
get_elem?-with_origin zero (suc count) o (x ∷ ts) zero t e = inr (x, refl, cc)
get_elem?-with_origin zero (suc count) o (x ∷ ts) (suc i) t e =
    get_elem?-with_origin zero count o ts i t e

length-with_origin :
    (first count : ℕ) (o : Origin) (ts : List Target)
    → length (with_origin first count o ts) ≡ length ts
unfolding with_origin
length-with_origin first count o [] = refl
length-with_origin (suc first) count o (x ∷ ts) = ap suc (length-with_origin first count o ts)
length-with_origin zero zero o (x ∷ ts) = refl
length-with_origin zero (suc count) o (x ∷ ts) = ap suc (length-with_origin zero count o ts)

pub Builds-set_origins :
    (s : Sizes) (first count : ℕ) (o : Origin)
    → OriginIn s o
    → Builds s (λ t u. Unit {0}) (set_origins first count o)
unfolding set_origins
Builds-set_origins s first count o ho = Builds-step s _ _ _ (λ h k g.
    let xs = with_origin first count o h.targets in
    let le : length h.targets ≤ length xs =
      omega (arith, length-with_origin first count o h.targets) in
    let g' = more_targets h k xs le in
    record {
      sound = IsSound-targets h k xs le (λ i t at.
          elim (get_elem?-with_origin first count o h.targets i t at) [
            | inl old ↦ inl old
            | inr (old, stood, q) ↦
                let w : TargetIn (sizes (with_targets h k xs)) (record old { origin = o }) =
                  record {
                    origin = OriginIn-mono s _ (Grows-trans s (sizes h) _ g g') o ho;
                    cell = (k.targets i old stood).cell;
                  } in
                inr (subst (TargetIn (sizes (with_targets h k xs))) (sym q) w)
          ]);
      grown = g';
      value = tt;
    })
