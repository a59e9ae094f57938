-- ===== src/Thunk/Subst.antt =====
-- The capture of a parameter's bindings in a value: `lsthunk_subst_param` and the functions around
-- it of src/thunk/thunk.c.
pub mod Keeps
use lazyscript.Prelude.{
  ℕ, zero, suc, Bool, true, false, Option, none, some, List, [], ◌∷◌, Bytes, ◌==◌, if◌then◌else◌,
}
use lazyscript.Thunk.Heap.{
  Ptr, Node, alge, appl, choice, lambda, ref, blank, Target, bind_origin, lambda_origin,
  builtin_origin, M, ◌>>=◌, ◌>>◌, pure, no_fuel, load, alloc, alloc_whnf, set_node, get_bound,
  get_target,
}
use lazyscript.Thunk.Heap
use lazyscript.Thunk.Env

-- the thunks met, each with its copy
abbrev pub Memo : Type 0
Memo = List (ℕ × ℕ)

unfoldable pub subst_lookup : Memo → ℕ → Ptr
subst_lookup [] k = none
subst_lookup ((key, val) ∷ m) k = if key == k then some val else subst_lookup m k

abbrev pub subst_bind : Memo → ℕ → ℕ → Memo
subst_bind m k v = (k, v) ∷ m

-- the target of a reference, looked up in its environment and kept in the node
unfoldable pub resolve : ℕ → Bytes → Option ℕ → Option ℕ → M (Option ℕ)
unfolding ◌>>=◌ pure set_node Env.get
resolve p name env (some i) = pure (some i)
resolve p name none none = pure none
resolve p name (some e) none = do
  found ← Env.get e name
  elim found [
    | none ↦ pure none
    | some i ↦ do set_node p (ref name (some e) (some i)); pure (some i)
  ]

abbrev pub bound_or : Ptr → Ptr → Ptr
bound_or (some b) t = some b
bound_or none t = t

-- what stands for a reference that is resolved
unfoldable pub captured : ℕ → Ptr → Option ℕ → M Ptr
unfolding ◌>>=◌ pure get_target get_bound
captured param t none = pure t
captured param t (some i) = do
  g ← get_target i
  elim g.origin [
    | lambda_origin a ↦ elim (a == param) [
      | true ↦ do b ← get_bound g.cell; pure (bound_or b t)
      | false ↦ pure t
    ]
    | bind_origin l r ↦ pure t
    | builtin_origin b ↦ pure t
  ]

-- the loop over the arguments, with the call for one of them
unfoldable pub subst_args : (Ptr → Memo → M (Ptr × Memo)) → List Ptr → Memo → M (List Ptr × Memo)
unfolding ◌>>=◌ pure
subst_args rec [] m = pure ([], m)
subst_args rec (t ∷ ts) m = do (u, m1) ← rec t m; (us, m2) ← subst_args rec ts m1; pure (u ∷ us, m2)

-- what is done with a thunk that has no copy
unfoldable pub subst_node : (Ptr → Memo → M (Ptr × Memo)) → ℕ → ℕ → Node → Memo → M (Ptr × Memo)
unfolding ◌>>=◌ pure resolve captured subst_args alloc alloc_whnf set_node
subst_node rec param p (ref name env target) m = do
  i ← resolve p name env target
  r ← captured param (some p) i
  pure (r, m)
subst_node rec param p (alge c args) m = do
  q ← alloc_whnf blank
  (us, m1) ← subst_args rec args (subst_bind m p q)
  set_node q (alge c us)
  pure (some q, m1)
subst_node rec param p (appl func args) m = do
  q ← alloc blank none
  (f, m1) ← rec func m
  (us, m2) ← subst_args rec args (subst_bind m1 p q)
  set_node q (appl f us)
  pure (some q, m2)
subst_node rec param p (choice l r k) m = do
  q ← alloc blank none
  (l', m1) ← rec l (subst_bind m p q)
  (r', m2) ← rec r m1
  set_node q (choice l' r' k)
  pure (some q, m2)
subst_node rec param p (lambda q body) m = do
  n ← alloc_whnf blank
  (b, m1) ← rec body (subst_bind m p n)
  set_node n (lambda q b)
  pure (some n, m1)
subst_node rec param p _ m = pure (some p, m)

unfoldable pub subst_param_rec : ℕ → ℕ → Ptr → Memo → M (Ptr × Memo)
unfolding ◌>>=◌ pure no_fuel load subst_lookup subst_node
subst_param_rec zero param t m = no_fuel
subst_param_rec (suc fuel) param none m = pure (none, m)
subst_param_rec (suc fuel) param (some p) m = elim (subst_lookup m p) [
  | some q ↦ pure (some q, m)
  | none ↦ do t ← load (some p); subst_node (subst_param_rec fuel param) param p t.node m
]

-- `param` is the address of the parameter
unfoldable pub subst_param : ℕ → ℕ → Ptr → M Ptr
unfolding ◌>>=◌ pure subst_param_rec
subst_param fuel param t = do (r, _) ← subst_param_rec fuel param t []; pure r
