-- ===== src/Thunk/Eval/Whole/Match.antt =====
-- Matching in whole heaps.
use lazyscript.Prelude.{
  ℕ, ◌<◌, Bool, true, false, ◌&&◌, none, some, List, [], ◌∷◌, ◌++◌, Bytes, All, length, same, ◌==◌,
  arith,
}
use lazyscript.Thunk.Heap.{
  Ptr, Pat, Pats, as_pat, wildcard, or_pat, caret, no_pats, pat, Node, bottom, M,
}
use lazyscript.Thunk.Match.{
  is_bottom, clear_binds, clear_all, count_pats, match_ref, match_caught, match_constr, match_pat,
  match_all,
}
use lazyscript.Thunk.Build.Pattern.{ref_cells, all_cells}
use lazyscript.Thunk.Build.Sound.{Sizes, Grows-trans, NodeIn, PatIn, ThunkIn}
use lazyscript.Thunk.Build.Sound.Monotone.{Within-mono, All-mono, PatIn-mono}
use lazyscript.Thunk.Build.Sound.Marks.{Any}
use lazyscript.Thunk.Build.Sound.Reuse.{PatsIn, PatsIn-mono}
use lazyscript.Thunk.Build.Sound.Forms.{PtrIn, PtrsIn}
use lazyscript.Thunk.Eval.Whole.{Safe, Safe-bind, Safe-pure, Safe-bool}
use lazyscript.Thunk.Eval.Whole.Actions.{Safe-load, Safe-set_bound}

-- the parts of a list of places
below-parts :
    (n : ℕ) (xs ys : List ℕ)
    → All (λ c. c < n) (xs ++ ys)
    → All (λ c. c < n) xs × All (λ c. c < n) ys
below-parts n [] ys a = (tt, a)
below-parts n (x ∷ xs) ys (a, as') = let r = below-parts n xs ys as' in ((a, r.0), r.1)

pub Safe-is_bottom : (s : Sizes) (p : Ptr) → PtrIn s p → Safe s Any (is_bottom p)
unfolding is_bottom
Safe-is_bottom s none w = Safe-pure s _ false (λ _ _. tt)
Safe-is_bottom s (some p) w =
    Safe-bind s _ _ _ _ (Safe-load s (some p) w) (λ t u g v. Safe-pure u _ _ (λ _ _. tt))

mutual
  unfolding clear_binds clear_all ref_cells

  pub Safe-clear_binds : (p : Pat) (s : Sizes) → PatIn s p → Safe s Any (clear_binds p)
  Safe-clear_binds (Pat.alge c ps) s w = Safe-clear_all ps s w
  Safe-clear_binds (as_pat cell p) s (w, ws) =
      Safe-bind s Any _ _ _ (Safe-set_bound s cell none w tt)
        (λ u t g v. Safe-clear_binds p t (PatIn-mono s t g p ws))
  Safe-clear_binds (Pat.int v) s w = Safe-pure s _ tt (λ _ _. tt)
  Safe-clear_binds (Pat.str v) s w = Safe-pure s _ tt (λ _ _. tt)
  Safe-clear_binds (Pat.ref cell) s (w, ws) = Safe-set_bound s cell none w tt
  Safe-clear_binds wildcard s w = Safe-pure s _ tt (λ _ _. tt)
  Safe-clear_binds (or_pat l r) s w =
      let parts = below-parts _ (ref_cells l) (ref_cells r) w in
      Safe-bind s Any _ (clear_binds l) _ (Safe-clear_binds l s parts.0)
        (λ u t g v. Safe-clear_binds r t (PatIn-mono s t g r parts.1))
  Safe-clear_binds (caret p) s w = Safe-clear_binds p s w

  Safe-clear_all : (ps : Pats) (s : Sizes) → PatsIn s ps → Safe s Any (clear_all ps)
  Safe-clear_all no_pats s w = Safe-pure s _ tt (λ _ _. tt)
  Safe-clear_all (pat p ps) s w =
      let parts = below-parts _ (ref_cells p) (all_cells ps) w in
      Safe-bind s Any _ (clear_binds p) _ (Safe-clear_binds p s parts.0)
        (λ u t g v. Safe-clear_all ps t (PatsIn-mono s t g ps parts.1))

Safe-match_ref :
    (s : Sizes) (cell : ℕ) (t : Ptr) → cell < s.bounds → PtrIn s t → Safe s Any (match_ref cell t)
unfolding match_ref
Safe-match_ref s cell t lt w = Safe-bind s Any _ _ _ (Safe-is_bottom s t w) (λ b u g v.
    Safe-bool u _ b _ _ (Safe-pure u _ false (λ _ _. tt)) (
      Safe-bind u Any _ _ _
        (Safe-set_bound u cell t (omega (arith, lt, g.bounds)) (Within-mono _ _ t g.thunks w))
        (λ _ y k _. Safe-pure y _ true (λ _ _. tt))))

Safe-ref_caught :
    (s : Sizes) (cell : ℕ) (n : Node)
    → cell < s.bounds
    → NodeIn s n
    → Safe s Any (match_caught (Pat.ref cell) n)
unfolding match_caught
Safe-ref_caught s cell (bottom msg []) lt w = Safe-pure s _ false (λ _ _. tt)
Safe-ref_caught s cell (bottom msg (a ∷ args)) lt (w, ws) =
    Safe-bind s Any _ _ _ (Safe-set_bound s cell a lt w) (λ _ y k _. Safe-pure y _ true (λ _ _. tt))
Safe-ref_caught s cell _ lt w = Safe-pure s _ false (λ _ _. tt)

Safe-wildcard_caught : (s : Sizes) (n : Node) → Safe s Any (match_caught wildcard n)
unfolding match_caught
Safe-wildcard_caught s (bottom msg args) = Safe-pure s _ true (λ _ _. tt)
Safe-wildcard_caught s _ = Safe-pure s _ false (λ _ _. tt)

Safe-match_caught :
    (s : Sizes) (p : Pat) (n : Node) → PatIn s p → NodeIn s n → Safe s Any (match_caught p n)
unfolding ref_cells match_caught
Safe-match_caught s (Pat.ref cell) n (w, ws) v = Safe-ref_caught s cell n w v
Safe-match_caught s wildcard n w v = Safe-wildcard_caught s n
Safe-match_caught s _ n w v = Safe-pure s _ false (λ _ _. tt)

Safe-match_constr :
    (s : Sizes) (c : Bytes) (k : ℕ) (rest : List Ptr → M Bool) (n : Node)
    → NodeIn s n
    → ((args : List Ptr) → PtrsIn s args → Safe s Any (rest args))
    → Safe s Any (match_constr c k rest n)
unfolding match_constr
Safe-match_constr s c k rest (Node.alge c' args) w h =
    Safe-bool s _ (same c c' && k == length args) _ _ (h args w) (Safe-pure s _ false (λ _ _. tt))
Safe-match_constr s c k rest _ w h = Safe-pure s _ false (λ _ _. tt)

module _ (eval0 : Ptr → M Ptr)
    (safe : (s : Sizes) (t : Ptr) → PtrIn s t → Safe s PtrIn (eval0 t)) where
  mutual
    unfolding match_pat match_all ref_cells

    pub Safe-match_pat :
        (p : Pat) (s : Sizes) (t : Ptr) → PatIn s p → PtrIn s t → Safe s Any (match_pat eval0 p t)
    Safe-match_pat (Pat.alge c ps) s t w v = Safe-bind s PtrIn _ _ _ (safe s t v) (λ r u g x.
        Safe-bind u ThunkIn _ _ _ (Safe-load u r x) (λ n y k z.
          Safe-match_constr y c (count_pats ps) (match_all eval0 ps) n.node z.node
            (λ args q. Safe-match_all ps y args (PatsIn-mono s y (Grows-trans s u y g k) ps w) q)))
    Safe-match_pat (as_pat cell p) s t (w, ws) v =
        Safe-bind s Any _ (match_pat eval0 p t) _ (Safe-match_pat p s t ws v) (λ b u g x.
          Safe-bool u _ b _ _
            (Safe-match_ref u cell t (omega (arith, w, g.bounds)) (Within-mono _ _ t g.thunks v))
            (Safe-pure u _ false (λ _ _. tt)))
    Safe-match_pat (Pat.int i) s t w v =
        Safe-bind s ThunkIn _ _ _ (Safe-load s t v) (λ n u g x. Safe-pure u _ _ (λ _ _. tt))
    Safe-match_pat (Pat.str i) s t w v =
        Safe-bind s ThunkIn _ _ _ (Safe-load s t v) (λ n u g x. Safe-pure u _ _ (λ _ _. tt))
    Safe-match_pat (Pat.ref cell) s t (w, ws) v = Safe-match_ref s cell t w v
    Safe-match_pat wildcard s t w v =
        Safe-bind s Any _ _ _ (Safe-is_bottom s t v) (λ b u g x. Safe-pure u _ _ (λ _ _. tt))
    Safe-match_pat (caret p) s t w v = Safe-bind s PtrIn _ _ _ (safe s t v) (λ r u g x.
        Safe-bind u Any _ _ _ (Safe-is_bottom u r x) (λ b y k _.
          Safe-bool y _ b _ _
            (Safe-bind y ThunkIn _ _ _ (Safe-load y r (Within-mono _ _ r k.thunks x)) (λ n z gz q.
              Safe-match_caught z p n.node
                (PatIn-mono s z (Grows-trans s u z g (Grows-trans u y z k gz)) p w) q.node))
            (Safe-pure y _ false (λ _ _. tt))))
    Safe-match_pat (or_pat l r) s t w v =
        let parts = below-parts _ (ref_cells l) (ref_cells r) w in
        Safe-bind s Any _ (match_pat eval0 l t) _ (Safe-match_pat l s t parts.0 v) (λ b u g x.
          Safe-bool u _ b _ _ (Safe-pure u _ true (λ _ _. tt)) (
            Safe-bind u Any _ _ _ (Safe-clear_binds l u (PatIn-mono s u g l parts.0)) (λ _ y k _.
              Safe-match_pat r y t (PatIn-mono s y (Grows-trans s u y g k) r parts.1)
                (Within-mono _ _ t (Grows-trans s u y g k).thunks v))))

    Safe-match_all :
        (ps : Pats) (s : Sizes) (ts : List Ptr)
        → PatsIn s ps
        → PtrsIn s ts
        → Safe s Any (match_all eval0 ps ts)
    Safe-match_all no_pats s ts w v = Safe-pure s _ true (λ _ _. tt)
    Safe-match_all (pat p ps) s [] w v = Safe-pure s _ true (λ _ _. tt)
    Safe-match_all (pat p ps) s (t ∷ ts) w (v, vs) =
        let parts = below-parts _ (ref_cells p) (all_cells ps) w in
        Safe-bind s Any _ (match_pat eval0 p t) _ (Safe-match_pat p s t parts.0 v) (λ b u g x.
          Safe-match_all ps u ts (PatsIn-mono s u g ps parts.1) (All-mono _ _ ts g.thunks vs))
