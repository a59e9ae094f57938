-- ===== src/Thunk/Eval/Whole/Subst.antt =====
-- The capture of a parameter's bindings in whole heaps.
use lazyscript.Prelude.{
  ℕ, zero, suc, ◌<◌, true, false, Option, none, some, List, [], ◌∷◌, Bytes, All, ◌==◌, arith,
  Bool-cases, inl, inr,
}
use mathlib.Core.Path.{subst}
use lazyscript.Thunk.Heap.{
  Ptr, Node, alge, appl, choice, lambda, ref, int, str, symbol, builtin, bottom, blank, Origin,
  bind_origin, lambda_origin, builtin_origin, M, ◌>>=◌, pure, set_node, get_bound,
}
use lazyscript.Thunk.Subst.{
  Memo, subst_lookup, subst_bind, resolve, bound_or, captured, subst_args, subst_node,
  subst_param_rec, subst_param,
}
use lazyscript.Thunk.Build.Sound.{Sizes, Grows, Grows-trans, Within, NodeIn, ThunkIn, TargetIn}
use lazyscript.Thunk.Build.Sound.Monotone.{Within-mono, All-mono, PatIn-mono}
use lazyscript.Thunk.Build.Sound.Marks.{Any}
use lazyscript.Thunk.Build.Sound.Forms.{PtrIn, PtrsIn}
use lazyscript.Thunk.Eval.Whole.{Safe, Safe-bind, Safe-pure, Safe-no_fuel, Safe-bool, Safe-option}
use lazyscript.Thunk.Eval.Whole.Actions.{
  Safe-load, Safe-alloc, Safe-alloc_whnf, Safe-set_node, Safe-get_bound, Safe-get_target, Safe-get,
}

abbrev TargetsIn : Sizes → Option ℕ → Type 0
TargetsIn s o = Within s.targets o

pub Safe-resolve :
    (s : Sizes) (p : ℕ) (name : Bytes) (env target : Option ℕ)
    → p < s.thunks
    → Within s.envs env
    → Within s.targets target
    → Safe s TargetsIn (resolve p name env target)
unfolding resolve
Safe-resolve s p name env (some i) lt w v =
    Safe-pure s _ (some i) (λ t g. Within-mono _ _ (some i) g.targets v)
Safe-resolve s p name none none lt w v = Safe-pure s _ none (λ _ _. tt)
Safe-resolve s p name (some e) none lt w v =
    Safe-bind s TargetsIn _ _ _ (Safe-get s e name w) (λ found t g x.
      Safe-option t _ found _ _ (λ d. Safe-pure t _ none (λ _ _. tt))
        (λ i d.
          let below : i < t.targets = subst (Within t.targets) d x in
          Safe-bind t Any _ _ _
            (Safe-set_node t p (ref name (some e) (some i)) (omega (arith, lt, g.thunks))
              (omega (arith, w, g.envs), below))
            (λ _ u k _.
              Safe-pure u _ (some i) (λ y gy. omega (arith, below, k.targets, gy.targets)))))

bound_or-PtrIn : (s : Sizes) (b t : Ptr) → PtrIn s b → PtrIn s t → PtrIn s (bound_or b t)
bound_or-PtrIn s none t w v = v
bound_or-PtrIn s (some b) t w v = w

Safe-by_origin :
    (s : Sizes) (param : ℕ) (t : Ptr) (o : Origin) (c : ℕ)
    → PtrIn s t
    → c < s.bounds
    → Safe s PtrIn (elim o as (λ _. M Ptr) [
      | lambda_origin a ↦ elim (a == param) as (λ _. M Ptr) [
        | true ↦ do b ← get_bound c; pure (bound_or b t)
        | false ↦ pure t
      ]
      | bind_origin l r ↦ pure t
      | builtin_origin b ↦ pure t
    ])
Safe-by_origin s param t (lambda_origin a) c w lt =
    Safe-bool s _ (a == param) _ _
      (Safe-bind s PtrIn _ _ _ (Safe-get_bound s c lt) (λ b u g v.
        Safe-pure u _ (bound_or b t) (λ y k.
          bound_or-PtrIn y b t (Within-mono _ _ b k.thunks v)
            (Within-mono _ _ t (Grows-trans s u y g k).thunks w))))
      (Safe-pure s _ t (λ u g. Within-mono _ _ t g.thunks w))
Safe-by_origin s param t (bind_origin l r) c w lt =
    Safe-pure s _ t (λ u g. Within-mono _ _ t g.thunks w)
Safe-by_origin s param t (builtin_origin b) c w lt =
    Safe-pure s _ t (λ u g. Within-mono _ _ t g.thunks w)

Safe-captured :
    (s : Sizes) (param : ℕ) (t : Ptr) (i : Option ℕ)
    → PtrIn s t
    → TargetsIn s i
    → Safe s PtrIn (captured param t i)
unfolding captured
Safe-captured s param t none w v = Safe-pure s _ t (λ u g. Within-mono _ _ t g.thunks w)
Safe-captured s param t (some i) w v =
    Safe-bind s TargetIn _ _ _ (Safe-get_target s i v)
      (λ g u k x. Safe-by_origin u param t g.origin g.cell (Within-mono _ _ t k.thunks w) x.cell)

-- The copies are thunks.
abbrev MemoIn : Sizes → Memo → Type 0
MemoIn s m = All (λ (e : ℕ × ℕ). e.1 < s.thunks) m

MemoIn-mono : (s t : Sizes) (m : Memo) → Grows s t → MemoIn s m → MemoIn t m
MemoIn-mono s t [] g w = tt
MemoIn-mono s t (e ∷ m) g (w, ws) = (omega (arith, w, g.thunks), MemoIn-mono s t m g ws)

subst_lookup-Within : (s : Sizes) (m : Memo) (k : ℕ) → MemoIn s m → PtrIn s (subst_lookup m k)
unfolding subst_lookup
subst_lookup-Within s [] k w = tt
subst_lookup-Within s ((key, v) ∷ m) k (w, ws) = elim (Bool-cases (key == k)) [
  | inl y ↦ rw y w
  | inr y ↦ rw y (subst_lookup-Within s m k ws)
]

abbrev CopyIn : Sizes → Ptr × Memo → Type 0
CopyIn s r = PtrIn s r.0 × MemoIn s r.1

abbrev CopiesIn : Sizes → List Ptr × Memo → Type 0
CopiesIn s r = PtrsIn s r.0 × MemoIn s r.1

module _ (rec : Ptr → Memo → M (Ptr × Memo))
    (safe : (s : Sizes) (t : Ptr) (m : Memo)
      → PtrIn s t
      → MemoIn s m
      → Safe s CopyIn (rec t m)) where
  Safe-subst_args :
      (ts : List Ptr) (s : Sizes) (m : Memo)
      → PtrsIn s ts
      → MemoIn s m
      → Safe s CopiesIn (subst_args rec ts m)
  unfolding subst_args
  Safe-subst_args [] s m w v = Safe-pure s _ ([], m) (λ t g. (tt, MemoIn-mono s t m g v))
  Safe-subst_args (t ∷ ts) s m (w, ws) v =
      Safe-bind s CopyIn CopiesIn _ _ (safe s t m w v) (λ r u g x.
        Safe-bind u CopiesIn CopiesIn _ _
          (Safe-subst_args ts u r.1 (All-mono _ _ ts g.thunks ws) x.1)
          (λ q y k z.
            Safe-pure y _ (r.0 ∷ q.0, q.1)
              (λ a ga. (
                (
                  Within-mono _ _ r.0 (Grows-trans u y a k ga).thunks x.0,
                  All-mono _ _ q.0 ga.thunks z.0,
                ),
                MemoIn-mono y a q.1 ga z.1,
              ))))

  kept_self :
      (s : Sizes) (p : ℕ) (m : Memo) → p < s.thunks → MemoIn s m → Safe s CopyIn (pure (some p, m))
  kept_self s p m lt v =
      Safe-pure s _ (some p, m) (λ t g. (omega (arith, lt, g.thunks), MemoIn-mono s t m g v))

  -- the copy is filled, and is the answer
  filled :
      (s : Sizes) (q : ℕ) (n : Node) (m : Memo)
      → q < s.thunks
      → NodeIn s n
      → MemoIn s m
      → Safe s CopyIn (set_node q n >>= λ _. pure (some q, m))
  filled s q n m lt w v =
      Safe-bind s Any _ _ _ (Safe-set_node s q n lt w)
        (λ _ t g _. kept_self t q m (omega (arith, lt, g.thunks)) (MemoIn-mono s t m g v))

  Safe-subst_node :
      (s : Sizes) (param p : ℕ) (n : Node) (m : Memo)
      → p < s.thunks
      → NodeIn s n
      → MemoIn s m
      → Safe s CopyIn (subst_node rec param p n m)
  unfolding subst_node
  Safe-subst_node s param p (ref name env target) m lt (w, x) v =
      Safe-bind s TargetsIn _ _ _ (Safe-resolve s p name env target lt w x) (λ i t g y.
        Safe-bind t PtrIn _ _ _ (Safe-captured t param (some p) i (omega (arith, lt, g.thunks)) y)
          (λ r u k z.
            Safe-pure u _ (r, m)
              (λ a ga. (
                Within-mono _ _ r ga.thunks z,
                MemoIn-mono s a m (Grows-trans s u a (Grows-trans s t u g k) ga) v,
              ))))
  Safe-subst_node s param p (alge c args) m lt w v =
      Safe-bind s (λ t q. q < t.thunks) CopyIn _ _ (Safe-alloc_whnf s blank tt)
        (λ q t g y.
          Safe-bind t CopiesIn CopyIn _ _
            (Safe-subst_args args t (subst_bind m p q) (All-mono _ _ args g.thunks w)
              (y, MemoIn-mono s t m g v))
            (λ r u k z. filled u q (alge c r.0) r.1 (omega (arith, y, k.thunks)) z.0 z.1))
  Safe-subst_node s param p (appl func args) m lt (w, ws) v =
      Safe-bind s (λ t q. q < t.thunks) CopyIn _ _ (Safe-alloc s blank none tt tt)
        (λ q t g y.
          Safe-bind t CopyIn CopyIn _ _
            (safe t func m (Within-mono _ _ func g.thunks w) (MemoIn-mono s t m g v))
            (λ f u k x.
              let below : q < u.thunks = omega (arith, y, k.thunks) in
              Safe-bind u CopiesIn CopyIn _ _
                (Safe-subst_args args u (subst_bind f.1 p q)
                  (All-mono _ _ args (Grows-trans s t u g k).thunks ws) (below, x.1))
                (λ r a ka z.
                  filled a q (appl f.0 r.0) r.1 (omega (arith, below, ka.thunks))
                    (Within-mono _ _ f.0 ka.thunks x.0, z.0) z.1)))
  Safe-subst_node s param p (choice l r k) m lt (w, x) v =
      Safe-bind s (λ t q. q < t.thunks) CopyIn _ _ (Safe-alloc s blank none tt tt)
        (λ q t g y.
          Safe-bind t CopyIn CopyIn _ _
            (safe t l (subst_bind m p q) (Within-mono _ _ l g.thunks w) (y, MemoIn-mono s t m g v))
            (λ a u gu z.
              Safe-bind u CopyIn CopyIn _ _
                (safe u r a.1 (Within-mono _ _ r (Grows-trans s t u g gu).thunks x) z.1)
                (λ b o go d.
                  filled o q (choice a.0 b.0 k) b.1 (omega (arith, y, gu.thunks, go.thunks))
                    (Within-mono _ _ a.0 go.thunks z.0, d.0) d.1)))
  Safe-subst_node s param p (lambda q body) m lt (w, x) v =
      Safe-bind s (λ t n. n < t.thunks) CopyIn _ _ (Safe-alloc_whnf s blank tt)
        (λ n t g y.
          Safe-bind t CopyIn CopyIn _ _
            (safe t body (subst_bind m p n) (Within-mono _ _ body g.thunks x)
              (y, MemoIn-mono s t m g v))
            (λ b u k z.
              filled u n (lambda q b.0) b.1 (omega (arith, y, k.thunks))
                (PatIn-mono s u (Grows-trans s t u g k) q.pattern_of w, z.0) z.1))
  Safe-subst_node s param p (int i) m lt w v = kept_self s p m lt v
  Safe-subst_node s param p (str i) m lt w v = kept_self s p m lt v
  Safe-subst_node s param p (symbol i) m lt w v = kept_self s p m lt v
  Safe-subst_node s param p (builtin b) m lt w v = kept_self s p m lt v
  Safe-subst_node s param p (bottom b xs) m lt w v = kept_self s p m lt v
  Safe-subst_node s param p blank m lt w v = kept_self s p m lt v

Safe-subst_param_rec :
    (fuel : ℕ) (param : ℕ) (s : Sizes) (t : Ptr) (m : Memo)
    → PtrIn s t
    → MemoIn s m
    → Safe s CopyIn (subst_param_rec fuel param t m)
unfolding subst_param_rec
Safe-subst_param_rec zero param s t m w v = Safe-no_fuel s _
Safe-subst_param_rec (suc fuel) param s none m w v =
    Safe-pure s _ (none, m) (λ t g. (tt, MemoIn-mono s t m g v))
Safe-subst_param_rec (suc fuel) param s (some p) m w v =
    Safe-option s _ (subst_lookup m p) _ _
      (λ d. Safe-bind s ThunkIn _ _ _ (Safe-load s (some p) w) (λ n t g x.
        Safe-subst_node (subst_param_rec fuel param)
          (λ s t m w v. Safe-subst_param_rec fuel param s t m w v) t param p n.node m
          (omega (arith, w, g.thunks)) x.node (MemoIn-mono s t m g v)))
      (λ q d.
        let below : q < s.thunks = subst (PtrIn s) d (subst_lookup-Within s m p v) in
        Safe-pure s _ (some q, m) (λ t g. (omega (arith, below, g.thunks), MemoIn-mono s t m g v)))

pub Safe-subst_param :
    (fuel param : ℕ) (s : Sizes) (t : Ptr) → PtrIn s t → Safe s PtrIn (subst_param fuel param t)
unfolding subst_param
Safe-subst_param fuel param s t w =
    Safe-bind s CopyIn _ _ _ (Safe-subst_param_rec fuel param s t [] w tt)
      (λ r u g v. Safe-pure u _ r.0 (λ a k. Within-mono _ _ r.0 k.thunks v.0))
