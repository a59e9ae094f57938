-- ===== src/Thunk/Build/Aside.antt =====
-- Actions on environments, targets and counters, which touch neither thunks nor bindings.
use lazyscript.Prelude.{
  ℕ, zero, suc, ◌≡◌, refl, ap, ◌∙◌, Bool, true, false, Option, none, some, Bytes, get_elem?,
}
use lazyscript.Ast
use lazyscript.Ast.Pattern.{nil, cons}
use lazyscript.Thunk.Heap.{
  Pat, Heap, Env, Counter, Origin, M, done, ◌>>=◌, pure, gets, no_fuel, known, get_bound,
  get_target, get_env, new_target,
}
use lazyscript.Thunk.Heap.Steps.{bind-done, known-done, write_at-done}
use lazyscript.Thunk.Heap.Keeps.{Stays-same, Keeps}
use lazyscript.Thunk.Env
use lazyscript.Thunk.Env.{
  find, store_env, new_counter, add_env, counter_for, get_self, get_within, put, update_counter,
  incr_nerrors,
}
use mathlib.Core.Path.{subst}
use lazyscript.Thunk.Build.{set_origins}
use lazyscript.Thunk.Build.Pattern.{around, both, reuse_cell, reuse_pat, reuse_pats}

-- The thunks and the bindings are as they were.
pub record Untouched (h h' : Heap) : Type 0 where
  pub thunks : h'.thunks ≡ h.thunks
  pub bounds : h'.bounds ≡ h.bounds

Untouched-eq : (h h' : Heap) → h' ≡ h → Untouched h h'
Untouched-eq h h' e = record {
  thunks = ap (λ (x : Heap). x.thunks) e;
  bounds = ap (λ (x : Heap). x.bounds) e;
}

pub record Aside {A : Type 0} (m : M A) : Type 0 where
  pub at : (h : Heap) (a : A) (h' : Heap) → m h ≡ done a h' → Untouched h h'

pub Keeps-Aside : {A : Type 0} (n : ℕ) (m : M A) → Aside m → Keeps n m
Keeps-Aside n m k = record { at = λ h a h' le e. Stays-same n h h' ((k.at h a h' e).thunks) }

pub Aside-bind :
    {A B : Type 0} (m : M A) (f : A → M B) → Aside m → ((a : A) → Aside (f a)) → Aside (m >>= f)
Aside-bind m f km kf = record {
  at = λ h b h' e.
      let s = bind-done m f h b h' e in
      let p = km.at h s.value s.between s.first in
      let q = (kf s.value).at s.between b h' s.second in
      record { thunks = q.thunks ∙ p.thunks; bounds = q.bounds ∙ p.bounds };
}

module _ {A : Type 0} where
  pub Aside-pure : (a : A) → Aside (pure a)
  unfolding pure
  Aside-pure a = record { at = λ h b h' e. Untouched-eq h h' (cc) }

  pub Aside-no_fuel : Aside (no_fuel {A = A})
  unfolding no_fuel
  Aside-no_fuel = record { at = λ h b h' e. cc }

  pub Aside-gets : (f : Heap → A) → Aside (gets f)
  unfolding gets
  Aside-gets f = record { at = λ h b h' e. Untouched-eq h h' (cc) }

  pub Aside-known : (f : Heap → Option A) → Aside (λ h. known (f h) h)
  Aside-known f = record { at = λ h b h' e. Untouched-eq h h' ((known-done (f h) h b h' e).1) }

  pub Aside-option :
      {B : Type 0} (o : Option B) (m : M A) (f : B → M A)
      → Aside m
      → ((b : B) → Aside (f b))
      → Aside (elim o as (λ _. M A) [ none ↦ m | some b ↦ f b ])
  Aside-option none m f km kf = km
  Aside-option (some b) m f km kf = kf b

  pub Aside-bool :
      (b : Bool) (m k : M A)
      → Aside m
      → Aside k
      → Aside (elim b as (λ _. M A) [ true ↦ m | false ↦ k ])
  Aside-bool true m k km kk = km
  Aside-bool false m k km kk = kk

-- Environments.
Aside-get_env : (i : ℕ) → Aside (get_env i)
unfolding get_env
Aside-get_env i = Aside-known (λ h. get_elem? h.envs i)

pub Aside-get_target : (i : ℕ) → Aside (get_target i)
unfolding get_target
Aside-get_target i = Aside-known (λ h. get_elem? h.targets i)

pub Aside-get_bound : (c : ℕ) → Aside (get_bound c)
unfolding get_bound
Aside-get_bound c = Aside-known (λ h. get_elem? h.bounds c)

pub Aside-get_self : (env : ℕ) (name : Bytes) → Aside (get_self env name)
unfolding get_self
Aside-get_self env name = Aside-bind _ _ (Aside-get_env env) (λ e. Aside-pure (find name e.refs))

Aside-get_within : (k env : ℕ) (name : Bytes) → Aside (get_within k env name)
unfolding get_within
Aside-get_within zero env name = Aside-no_fuel
Aside-get_within (suc k) env name = Aside-bind _ _ (Aside-get_env env) (λ e.
    Aside-option (find name e.refs) _ _
      (Aside-option e.parent _ _ (Aside-pure none) (λ p. Aside-get_within k p name))
      (λ target. Aside-pure (some target)))

pub Aside-get : (env : ℕ) (name : Bytes) → Aside (Env.get env name)
unfolding Env.get
Aside-get env name = Aside-bind _ _ (Aside-gets _) (λ k. Aside-get_within k env name)

Aside-store_env : (i : ℕ) (e : Env) → Aside (store_env i e)
unfolding store_env
Aside-store_env i e = record {
  at = λ h b h' eq.
      let w = write_at-done h.envs i e (λ es. record h { envs = es }) h' eq in
      record {
        thunks = ap (λ (x : Heap). x.thunks) w.after;
        bounds = ap (λ (x : Heap). x.bounds) w.after;
      };
}

pub Aside-put : (env : ℕ) (name : Bytes) (target : ℕ) → Aside (put env name target)
unfolding put
Aside-put env name target = Aside-bind _ _ (Aside-get_env env) (λ e. Aside-store_env env _)

Aside-update_counter : (env : ℕ) (f : Counter → Counter) → Aside (update_counter env f)
unfolding update_counter
Aside-update_counter env f = Aside-bind _ _ (Aside-get_env env) (λ e.
    Aside-bind _ _ (Aside-known (λ h. get_elem? h.counters e.counter)) (λ c. record {
      at = λ h b h' eq.
          let w =
            write_at-done h.counters e.counter (f c) (λ cs. record h { counters = cs }) h' eq in
          record {
            thunks = ap (λ (x : Heap). x.thunks) w.after;
            bounds = ap (λ (x : Heap). x.bounds) w.after;
          };
    }))

pub Aside-incr_nerrors : (env : ℕ) → Aside (incr_nerrors env)
unfolding incr_nerrors
Aside-incr_nerrors env = Aside-update_counter env _

Aside-step :
    {A : Type 0} (a : Heap → A) (g : Heap → Heap)
    → ((h : Heap) → Untouched h (g h))
    → Aside (λ h. done (a h) (g h))
Aside-step a g u = record {
  at = λ h b h' e. let same_heap : g h ≡ h' = cc in subst (Untouched h) same_heap (u h);
}

Aside-new_counter : Aside new_counter
unfolding new_counter
Aside-new_counter = Aside-step _ _ (λ h. record { thunks = refl; bounds = refl })

Aside-add_env : (e : Env) → Aside (add_env e)
unfolding add_env
Aside-add_env e = Aside-step _ _ (λ h. record { thunks = refl; bounds = refl })

Aside-counter_for : (parent : Option ℕ) → Aside (counter_for parent)
unfolding counter_for
Aside-counter_for none = Aside-new_counter
Aside-counter_for (some p) = Aside-bind _ _ (Aside-get_env p) (λ e. Aside-pure e.counter)

pub Aside-new : (parent : Option ℕ) → Aside (Env.new parent)
unfolding Env.new
Aside-new parent = Aside-bind _ _ (Aside-counter_for parent) (λ c. Aside-add_env _)

pub Aside-new_target : (o : Origin) (c : ℕ) → Aside (new_target o c)
unfolding new_target
Aside-new_target o c = Aside-step _ _ (λ h. record { thunks = refl; bounds = refl })

pub Aside-set_origins : (first count : ℕ) (o : Origin) → Aside (set_origins first count o)
unfolding set_origins
Aside-set_origins first count o = Aside-step _ _ (λ h. record { thunks = refl; bounds = refl })

-- Patterns that only reuse bindings.
pub Aside-around : {A B : Type 0} (f : A → B) (o : Option A) → Aside (around f o)
unfolding around
Aside-around f none = Aside-pure none
Aside-around f (some a) = Aside-pure (some (f a))

Aside-both :
    {A B C : Type 0} (f : A → B → C) (m : M (Option A)) (k : M (Option B))
    → Aside m
    → Aside k
    → Aside (both f m k)
unfolding both
Aside-both f m k hm hk =
    Aside-bind _ _ hm (λ x.
      Aside-option x _ _ (Aside-pure none) (λ p. Aside-bind _ _ hk (λ y. Aside-around (f p) y)))

Aside-reuse_cell : (env : ℕ) (name : Bytes) → Aside (reuse_cell env name)
unfolding reuse_cell
Aside-reuse_cell env name = Aside-bind _ _ (Aside-get_self env name) (λ found.
    Aside-option found _ _ (Aside-bind _ _ (Aside-incr_nerrors env) (λ u. Aside-pure none))
      (λ i. Aside-bind _ _ (Aside-get_target i) (λ t. Aside-pure (some t.cell))))

mutual
  unfolding reuse_pat reuse_pats

  pub Aside-reuse_pat : (p : Ast.Pattern.Pat) (env : ℕ) → Aside (reuse_pat p env)
  Aside-reuse_pat (Ast.Pattern.alge c ps) env =
      Aside-bind (reuse_pats ps env) _ (Aside-reuse_pats ps env)
        (λ qs. Aside-around (Pat.alge c) qs)
  Aside-reuse_pat (Ast.Pattern.caret p) env =
      Aside-bind (reuse_pat p env) _ (Aside-reuse_pat p env) (λ q. Aside-around Pat.caret q)
  Aside-reuse_pat (Ast.Pattern.as_pat r p) env =
      Aside-both _ _ (reuse_pat p env) (Aside-reuse_cell env r) (Aside-reuse_pat p env)
  Aside-reuse_pat (Ast.Pattern.int v) env = Aside-pure _
  Aside-reuse_pat (Ast.Pattern.str s) env = Aside-pure _
  Aside-reuse_pat (Ast.Pattern.ref r) env =
      Aside-bind _ _ (Aside-reuse_cell env r) (λ c. Aside-around Pat.ref c)
  Aside-reuse_pat Ast.Pattern.wildcard env = Aside-pure _
  Aside-reuse_pat (Ast.Pattern.or_pat l r) env =
      Aside-both _ (reuse_pat l env) (reuse_pat r env) (Aside-reuse_pat l env)
        (Aside-reuse_pat r env)

  Aside-reuse_pats : (ps : Ast.Pattern.Pats) (env : ℕ) → Aside (reuse_pats ps env)
  Aside-reuse_pats nil env = Aside-pure _
  Aside-reuse_pats (cons p ps) env =
      Aside-both _ (reuse_pat p env) (reuse_pats ps env) (Aside-reuse_pat p env)
        (Aside-reuse_pats ps env)
