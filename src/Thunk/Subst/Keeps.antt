-- ===== src/Thunk/Subst/Keeps.antt =====
-- The nodes of the thunks under the capture of bindings in src/thunk/thunk.c.
use lazyscript.Prelude.{
  ℕ, zero, suc, ◌≤◌, ◌≡◌, refl, ap, sym, ◌∙◌, true, false, Option, none, some, List, [], ◌∷◌, Bytes,
  length, get_elem?, ◌==◌, arith,
}
use lazyscript.Thunk.Heap.{
  Ptr, Heap, Node, alge, appl, choice, lambda, ref, blank, Thunk, Origin, bind_origin,
  lambda_origin, builtin_origin, M, done, ◌>>=◌, ◌>>◌, pure, load, set_node, get_bound, get_env,
}
use lazyscript.Thunk.Heap.Steps.{bind-done, known-done}
use lazyscript.Thunk.Heap.Keeps.{resolved, Stays, Stays-trans, Keeps}
use lazyscript.Thunk.Heap.Reads.{
  Reads, Reads-pure, Reads-gets, Reads-no_fuel, Reads-known, Reads-bind, Reads-option,
}
use lazyscript.Thunk.Heap.Rules.{
  Keeps-pure, Keeps-no_fuel, Keeps-bool, Keeps-option, Keeps-bind, Keeps-get_bound,
  Keeps-get_target, Keeps-alloc, Keeps-alloc_whnf, Keeps-set_node, set_node-Stays,
}
use lazyscript.Thunk.Env.{find, get, get_within}
use lazyscript.Thunk.Subst.{
  Memo, subst_lookup, subst_bind, resolve, bound_or, captured, subst_args, subst_node,
  subst_param_rec, subst_param,
}

Reads-get_within : (k env : ℕ) (name : Bytes) → Reads (get_within k env name)
unfolding get_within get_env
Reads-get_within zero env name = Reads-no_fuel
Reads-get_within (suc k) env name = Reads-bind _ _ (Reads-known (λ h. get_elem? h.envs env)) (λ e.
    Reads-option (find name e.refs) _ _
      (Reads-option e.parent _ _ (Reads-pure none) (λ p. Reads-get_within k p name))
      (λ target. Reads-pure (some target)))

Reads-get : (env : ℕ) (name : Bytes) → Reads (get env name)
unfolding get
Reads-get env name = Reads-bind _ _ (Reads-gets _) (λ k. Reads-get_within k env name)

-- The action leaves the nodes alone when it starts where the thunk at `p` has the node `nd`.
pub record KeepsAt {A : Type 0} (n p : ℕ) (nd : Node) (m : M A) : Type 0 where
  pub at :
      (h : Heap) (a : A) (h' : Heap) (t : Thunk)
      → n ≤ length h.thunks
      → get_elem? h.thunks p ≡ some t
      → t.node ≡ nd
      → m h ≡ done a h'
      → Stays n h h'

module _ {A : Type 0} (n p : ℕ) (nd : Node) where
  pub KeepsAt-of : (m : M A) → Keeps n m → KeepsAt n p nd m
  KeepsAt-of m k = record { at = λ h a h' t le at eq e. k.at h a h' le e }

  pub KeepsAt-bind :
      {B : Type 0} (m : M B) (f : B → M A)
      → KeepsAt n p nd m
      → ((b : B) → Keeps n (f b))
      → KeepsAt n p nd (m >>= f)
  KeepsAt-bind m f km kf = record {
    at = λ h a h' t le at eq e.
        let s = bind-done m f h a h' e in
        let before = km.at h s.value s.between t le at eq s.first in
        Stays-trans n h s.between h' before
          ((kf s.value).at s.between a h' (omega (arith, le, before.longer)) s.second);
  }

  KeepsAt-read :
      {B : Type 0} (m : M B) (f : B → M A)
      → Reads m
      → ((b : B) → KeepsAt n p nd (f b))
      → KeepsAt n p nd (m >>= f)
  KeepsAt-read m f rm kf = record {
    at = λ h a h' t le at eq e.
        let s = bind-done m f h a h' e in
        let same_heap = rm.at h s.value s.between s.first in
        (kf s.value).at h a h' t le at eq (ap (f s.value) (sym same_heap) ∙ s.second);
  }

  KeepsAt-option :
      {B : Type 0} (o : Option B) (m : M A) (f : B → M A)
      → KeepsAt n p nd m
      → ((b : B) → KeepsAt n p nd (f b))
      → KeepsAt n p nd (elim o as (λ _. M A) [ none ↦ m | some b ↦ f b ])
  KeepsAt-option none m f km kf = km
  KeepsAt-option (some b) m f km kf = kf b

pub Keeps-load_at :
    {A : Type 0} (n p : ℕ) (f : Thunk → M A)
    → ((t : Thunk) → KeepsAt n p t.node (f t))
    → Keeps n (load (some p) >>= f)
unfolding load
Keeps-load_at n p f kf = record {
  at = λ h a h' le e.
      let s = bind-done (load (some p)) f h a h' e in
      let (at, same_heap) = known-done (get_elem? h.thunks p) h s.value s.between s.first in
      (kf s.value).at h a h' s.value le at refl (ap (f s.value) (sym same_heap) ∙ s.second);
}

-- the write of the target that was found
KeepsAt-found :
    (n p i : ℕ) (name : Bytes) (env : Option ℕ)
    → KeepsAt n p (ref name env none) (set_node p (ref name env (some i)) >> pure (some i))
KeepsAt-found n p i name env =
    KeepsAt-bind n p _ _ _
      (record {
        at = λ h a h' t le at eq e. set_node-Stays n p _ h h' e (λ u there lt.
            let same_thunk : u ≡ t = cc in
            resolved (ap (λ (x : Thunk). x.node) same_thunk ∙ eq) refl);
      })
      (λ _. Keeps-pure n (some i))

pub KeepsAt-resolve :
    (n p : ℕ) (name : Bytes) (env : Option ℕ) (target : Option ℕ)
    → KeepsAt n p (ref name env target) (resolve p name env target)
unfolding resolve
KeepsAt-resolve n p name env (some i) = KeepsAt-of n p _ _ (Keeps-pure n (some i))
KeepsAt-resolve n p name none none = KeepsAt-of n p _ _ (Keeps-pure n none)
KeepsAt-resolve n p name (some e) none =
    KeepsAt-read n p _ (get e name) _ (Reads-get e name) (λ found.
      KeepsAt-option n p _ found _ _ (KeepsAt-of n p _ _ (Keeps-pure n none))
        (λ i. KeepsAt-found n p i name (some e)))

module _ (n : ℕ) where
  Keeps-lambda_captured :
      (a param c : ℕ) (t : Ptr)
      → Keeps n (elim (a == param) as (λ _. M Ptr) [
        | true ↦ do b ← get_bound c; pure (bound_or b t)
        | false ↦ pure t
      ])
  Keeps-lambda_captured a param c t =
      Keeps-bool n (a == param) _ _
        (Keeps-bind n _ _ (Keeps-get_bound n c) (λ b. Keeps-pure n (bound_or b t))) (Keeps-pure n t)

  Keeps-captured : (param : ℕ) (t : Ptr) (i : Option ℕ) → Keeps n (captured param t i)
  unfolding captured
  Keeps-captured param t none = Keeps-pure n t
  Keeps-captured param t (some i) =
      Keeps-bind n _ _ (Keeps-get_target n i) (λ g. by_origin g.origin g.cell)
    where
      by_origin :
          (o : Origin) (c : ℕ)
          → Keeps n (elim o as (λ _. M Ptr) [
            | lambda_origin a ↦ elim (a == param) [
              | true ↦ do b ← get_bound c; pure (bound_or b t)
              | false ↦ pure t
            ]
            | bind_origin l r ↦ pure t
            | builtin_origin b ↦ pure t
          ])
      by_origin (lambda_origin a) c = Keeps-lambda_captured a param c t
      by_origin (bind_origin l r) c = Keeps-pure n t
      by_origin (builtin_origin b) c = Keeps-pure n t

  module _ (rec : Ptr → Memo → M (Ptr × Memo))
      (keeps : (t : Ptr) (m : Memo) → Keeps n (rec t m)) where
    Keeps-subst_args : (ts : List Ptr) (m : Memo) → Keeps n (subst_args rec ts m)
    unfolding subst_args
    Keeps-subst_args [] m = Keeps-pure n ([], m)
    Keeps-subst_args (t ∷ ts) m =
        Keeps-bind n _ _ (keeps t m)
          (λ u. Keeps-bind n _ _ (Keeps-subst_args ts u.1) (λ us. Keeps-pure n (u.0 ∷ us.0, us.1)))

    -- the node of a copy is filled, and the copy given
    filled :
        (q : ℕ) (nd : Node) (m : Memo)
        → n ≤ q
        → Keeps {A = Ptr × Memo} n (set_node q nd >> pure (some q, m))
    filled q nd m le = Keeps-bind n _ _ (Keeps-set_node n q nd le) (λ _. Keeps-pure n (some q, m))

    KeepsAt-subst_node :
        (param p : ℕ) (nd : Node) (m : Memo) → KeepsAt n p nd (subst_node rec param p nd m)
    unfolding subst_node
    KeepsAt-subst_node param p (ref name env target) m =
        KeepsAt-bind n p _ _ _ (KeepsAt-resolve n p name env target)
          (λ i. Keeps-bind n _ _ (Keeps-captured param (some p) i) (λ r. Keeps-pure n (r, m)))
    KeepsAt-subst_node param p (alge c args) m = KeepsAt-of n p _ _ (
        Keeps-alloc_whnf n blank _ (λ q le.
          Keeps-bind n _ _ (Keeps-subst_args args (subst_bind m p q))
            (λ us. filled q (alge c us.0) us.1 le)))
    KeepsAt-subst_node param p (appl func args) m = KeepsAt-of n p _ _ (
        Keeps-alloc n blank none _ (λ q le. Keeps-bind n _ _ (keeps func m) (λ f.
          Keeps-bind n _ _ (Keeps-subst_args args (subst_bind f.1 p q))
            (λ us. filled q (appl f.0 us.0) us.1 le))))
    KeepsAt-subst_node param p (choice l r k) m = KeepsAt-of n p _ _ (
        Keeps-alloc n blank none _ (λ q le.
          Keeps-bind n _ _ (keeps l (subst_bind m p q))
            (λ l'. Keeps-bind n _ _ (keeps r l'.1) (λ r'. filled q (choice l'.0 r'.0 k) r'.1 le))))
    KeepsAt-subst_node param p (lambda pt body) m = KeepsAt-of n p _ _ (
        Keeps-alloc_whnf n blank _ (λ q le.
          Keeps-bind n _ _ (keeps body (subst_bind m p q)) (λ b. filled q (lambda pt b.0) b.1 le)))
    KeepsAt-subst_node param p _ m = KeepsAt-of n p _ _ (Keeps-pure n (some p, m))

  Keeps-subst_param_rec :
      (fuel param : ℕ) (t : Ptr) (m : Memo) → Keeps n (subst_param_rec fuel param t m)
  unfolding subst_param_rec
  Keeps-subst_param_rec zero param t m = Keeps-no_fuel n
  Keeps-subst_param_rec (suc fuel) param none m = Keeps-pure n (none, m)
  Keeps-subst_param_rec (suc fuel) param (some p) m =
      Keeps-option n (subst_lookup m p) _ _
        (Keeps-load_at n p _ (λ t.
          KeepsAt-subst_node (subst_param_rec fuel param) (Keeps-subst_param_rec fuel param) param p
            t.node m))
        (λ q. Keeps-pure n (some q, m))

  pub Keeps-subst_param : (fuel param : ℕ) (t : Ptr) → Keeps n (subst_param fuel param t)
  unfolding subst_param
  Keeps-subst_param fuel param t =
      Keeps-bind n _ _ (Keeps-subst_param_rec fuel param t []) (λ r. Keeps-pure n r.0)
