-- ===== src/Thunk/Env/Update.antt =====
-- Changes to the environments of src/thunk/tenv.c.
use lazyscript.Prelude.{
  ℕ, ◌<◌, ◌≡◌, ◌≢◌, refl, ap, sym, ◌∙◌, true, false, Option, none, some, [], ◌∷◌, ◌++◌, Bytes,
  get_elem?, length, same, ◌⊎◌, inl, inr, ◌&&◌, ◌==◌, ==_iff, Bool-cases, if◌then◌else◌, arith,
}
use mathlib.Core.Path.{subst}
use lazyscript.Thunk.Heap.{Heap, Env, done, pure, known, get_env}
use lazyscript.Thunk.Heap.Steps.{
  bind-done, known-done, write_at-done, get_elem?-set, get_elem?-set_ne, get_elem?-append_last,
  get_elem?-append_cases, get_elem?-below,
}
use lazyscript.Thunk.Env.{
  find, put_entry, store_env, get_self, put, new, new_counter, counter_for, add_env,
}
use lazyscript.Thunk.Env.Lookup.{find-put_entry, WellParented}

-- The environment at `env` is `e` before, and `e` with the entry after; the others are as before.
pub record Put (env : ℕ) (name : Bytes) (target : ℕ) (h h' : Heap) : Type 0 where
  pub e : Env
  pub before : get_elem? h.envs env ≡ some e
  pub after : get_elem? h'.envs env ≡ some (record e { refs = put_entry name target e.refs })
  pub others : (i : ℕ) → env ≢ i → get_elem? h'.envs i ≡ get_elem? h.envs i
  pub rest : h' ≡ record h { envs = h'.envs }

pub put-Put :
    (env : ℕ) (name : Bytes) (target : ℕ) (h h' : Heap)
    → put env name target h ≡ done tt h'
    → Put env name target h h'
unfolding put get_env store_env
put-Put env name target h h' r =
    let changed = λ (e : Env). record e { refs = put_entry name target e.refs } in
    let s = bind-done (get_env env) (λ e. store_env env (changed e)) h tt h' r in
    let (at, same_heap) = known-done (get_elem? h.envs env) h s.value s.between s.first in
    let second : store_env env (changed s.value) h ≡ done tt h' =
      ap (λ x. store_env env (changed s.value) x) (sym same_heap) ∙ s.second in
    let w = write_at-done h.envs env (changed s.value) (λ es. record h { envs = es }) h' second in
    subst (λ x. Put env name target h x) (sym w.after)
      (record {
        e = s.value;
        before = at;
        after = get_elem?-set h.envs env (changed s.value) w.old w.stood;
        others = λ i ne. get_elem?-set_ne h.envs env i (changed s.value) ne;
        rest = refl;
      })

get_self-env :
    (env : ℕ) (x : Bytes) (h : Heap) (o : Option ℕ)
    → get_self env x h ≡ done o h
    → (e : Env) × (get_elem? h.envs env ≡ some e) × (o ≡ find x e.refs)
unfolding get_self get_env pure
get_self-env env x h o r =
    let s = bind-done (get_env env) (λ e. pure (find x e.refs)) h o h r in
    let (at, same_heap) = known-done (get_elem? h.envs env) h s.value s.between s.first in
    (s.value, at, cc (s.second))

at-Put :
    (env i : ℕ) (name x : Bytes) (target : ℕ) (h h' : Heap) (e e' : Env)
    → Put env name target h h'
    → get_elem? h.envs i ≡ some e
    → get_elem? h'.envs i ≡ some e'
    → ((env == i) ≡ true) ⊎ ((env == i) ≡ false)
    → find x e'.refs ≡ (if env == i && same name x then some target else find x e.refs)
at-Put env i name x target h h' e e' p at at' (inl eq) =
    let found = find-put_entry name x target (p.e).refs in
    let here : env ≡ i = (==_iff env i).0 eq in
    let before : get_elem? h.envs i ≡ some p.e = ap (get_elem? h.envs) (sym here) ∙ p.before in
    let after = ap (get_elem? h'.envs) (sym here) ∙ p.after in
    let old : p.e ≡ e = cc in
    let new_refs : put_entry name target (p.e).refs ≡ e'.refs = cc in
    rw eq (
      sym (ap (find x) new_refs)
      ∙ found
      ∙ ap (λ (y : Env). if same name x then some target else find x y.refs) old)
at-Put env i name x target h h' e e' p at at' (inr ne) =
    let other = p.others i (λ eq. cc (ne, (==_iff env i).1 eq)) in
    let same_env : e' ≡ e = cc in rw ne (ap (λ (y : Env). find x y.refs) same_env)

-- After `lstenv_put`, the entry of the name in that environment leads to the new target; every other
-- entry, in this environment and in the others, leads to where it led before.
pub put-get_self :
    (env i : ℕ) (name x : Bytes) (target : ℕ) (h h' : Heap) (o o' : Option ℕ)
    → put env name target h ≡ done tt h'
    → get_self i x h ≡ done o h
    → get_self i x h' ≡ done o' h'
    → o' ≡ (if env == i && same name x then some target else o)
put-get_self env i name x target h h' o o' r f f' =
    let p = put-Put env name target h h' r in
    let (e, at, found) = get_self-env i x h o f in
    let (e', at', found') = get_self-env i x h' o' f' in
    found'
    ∙ at-Put env i name x target h h' e e' p at at' (Bool-cases (env == i))
    ∙ ap (λ y. if env == i && same name x then some target else y) (sym found)

put-WellParented :
    (env : ℕ) (name : Bytes) (target : ℕ) (h h' : Heap)
    → put env name target h ≡ done tt h'
    → WellParented h
    → WellParented h'
put-WellParented env name target h h' r w =
    let q = put-Put env name target h h' r in
    record {
      older = λ i p e at up. elim (Bool-cases (env == i)) [
        | inl eq ↦
            let here : env ≡ i = (==_iff env i).0 eq in
            let after = ap (get_elem? h'.envs) (sym here) ∙ q.after in
            let old_up : (q.e).parent ≡ some p = cc in
            w.older i p q.e (ap (get_elem? h.envs) (sym here) ∙ q.before) old_up
        | inr ne ↦ w.older i p e (sym (q.others i (λ eq. cc (ne, (==_iff env i).1 eq))) ∙ at) up
      ];
    }

-- What `lstenv_new` has done when it has made the environment `i`.
record Made (parent : Option ℕ) (h h' : Heap) (i : ℕ) : Type 0 where
  pub counter : ℕ
  pub place : i ≡ length h.envs
  pub envs : h'.envs ≡ h.envs ++ (record { refs = []; counter = counter; parent = parent } ∷ [])
  pub parent_known : (p : ℕ) → parent ≡ some p → p < length h.envs

counter_for-envs :
    (parent : Option ℕ) (h h' : Heap) (c : ℕ)
    → counter_for parent h ≡ done c h'
    → (h'.envs ≡ h.envs) × ((p : ℕ) → parent ≡ some p → p < length h.envs)
unfolding counter_for new_counter get_env pure
counter_for-envs none h h' c r = (cc, λ p e. cc)
counter_for-envs (some q) h h' c r =
    let s = bind-done (get_env q) (λ e. pure e.counter) h c h' r in
    let (at, same_heap) = known-done (get_elem? h.envs q) h s.value s.between s.first in
    (
      cc (s.second),
      λ p e.
          let place : q ≡ p = cc in
          subst (λ j. j < length h.envs) place (get_elem?-below h.envs q s.value at),
    )

new-Made : (parent : Option ℕ) (h h' : Heap) (i : ℕ) → new parent h ≡ done i h' → Made parent h h' i
unfolding new add_env
new-Made parent h h' i r =
    let s =
      bind-done (counter_for parent)
        (λ c. add_env (record { refs = []; counter = c; parent = parent })) h i h' r in
    let (same_envs, known) = counter_for-envs parent h s.between s.value s.first in
    let place : length (s.between).envs ≡ i = cc (s.second) in
    let grown : (s.between).envs ++ (record { refs = []; counter = s.value; parent = parent } ∷ [])
        ≡ h'.envs =
      cc (s.second) in
    record {
      counter = s.value;
      place = sym place ∙ ap length same_envs;
      envs =
          sym grown
          ∙ ap (λ es. es ++ (record { refs = []; counter = s.value; parent = parent } ∷ []))
              same_envs;
      parent_known = known;
    }

-- `lstenv_new` and `lstenv_put` keep each environment younger than its parent. The environment that
-- `lstenv_new` makes is new, has no entry, and has the parent it was given.
pub keep-WellParented :
    (parent : Option ℕ) (env i : ℕ) (name : Bytes) (target : ℕ) (h h' h2 : Heap)
    → WellParented h
    → put env name target h ≡ done tt h'
    → new parent h ≡ done i h2
    → WellParented h'
      × WellParented h2
      × (i ≡ length h.envs)
      × ((c : ℕ) × (get_elem? h2.envs i
            ≡ some (record { refs = []; counter = c; parent = parent })))
keep-WellParented parent env i name target h h' h2 w r n =
    let m = new-Made parent h h2 i n in
    let made : Env = record { refs = []; counter = m.counter; parent = parent } in
    (
      put-WellParented env name target h h' r w,
      record {
        older = λ j p e at up.
            elim (get_elem?-append_cases h.envs made j e
              (ap (λ es. get_elem? es j) (sym m.envs) ∙ at)) [
                | inl old ↦ w.older j p e old up
                | inr (last, is_made) ↦
                    let parent_up : parent ≡ some p = cc in
                    omega (arith, m.parent_known p parent_up, last)
              ];
      },
      m.place,
      (
        m.counter,
        ap (get_elem? h2.envs) m.place
            ∙ ap (λ es. get_elem? es (length h.envs)) m.envs
            ∙ get_elem?-append_last h.envs made,
      ),
    )
