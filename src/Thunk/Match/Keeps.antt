-- ===== src/Thunk/Match/Keeps.antt =====
-- The nodes of the thunks under the matching of src/thunk/thunk.c.
use lazyscript.Prelude.{ℕ, Bool, ◌&&◌, none, some, List, [], ◌∷◌, Bytes, length, same, ◌==◌}
use lazyscript.Thunk.Heap.{
  Ptr, Pat, Pats, as_pat, wildcard, or_pat, caret, no_pats, pat, Node, bottom, M,
}
use lazyscript.Thunk.Heap.Keeps.{Keeps}
use lazyscript.Thunk.Heap.Rules.{
  keeps_rules, Keeps-pure, Keeps-bool, Keeps-bind, Keeps-load, Keeps-set_bound,
}
use lazyscript.Thunk.Match.{
  is_bottom, clear_binds, clear_all, match_ref, match_caught, match_constr, count_pats, match_pat,
  match_all,
}

module _ (n : ℕ) where
  pub Keeps-is_bottom : (t : Ptr) → Keeps n (is_bottom t)
  unfolding is_bottom
  Keeps-is_bottom none = search keeps_rules
  Keeps-is_bottom (some p) = search keeps_rules

  mutual
    unfolding clear_binds clear_all

    pub Keeps-clear_binds : (p : Pat) → Keeps n (clear_binds p)
    Keeps-clear_binds (Pat.alge c ps) = Keeps-clear_all ps
    Keeps-clear_binds (as_pat cell p) =
        Keeps-bind n _ _ (Keeps-set_bound n cell none) (λ _. Keeps-clear_binds p)
    Keeps-clear_binds (Pat.int v) = Keeps-pure n tt
    Keeps-clear_binds (Pat.str s) = Keeps-pure n tt
    Keeps-clear_binds (Pat.ref cell) = Keeps-set_bound n cell none
    Keeps-clear_binds wildcard = Keeps-pure n tt
    Keeps-clear_binds (or_pat l r) =
        Keeps-bind n _ _ (Keeps-clear_binds l) (λ _. Keeps-clear_binds r)
    Keeps-clear_binds (caret p) = Keeps-clear_binds p

    pub Keeps-clear_all : (ps : Pats) → Keeps n (clear_all ps)
    Keeps-clear_all no_pats = Keeps-pure n tt
    Keeps-clear_all (pat p ps) = Keeps-bind n _ _ (Keeps-clear_binds p) (λ _. Keeps-clear_all ps)

  Keeps-match_ref : (cell : ℕ) (t : Ptr) → Keeps n (match_ref cell t)
  unfolding match_ref
  Keeps-match_ref cell t =
      Keeps-bind n _ _ (Keeps-is_bottom t)
        (λ b. Keeps-bool n b _ _ (search keeps_rules) (search keeps_rules))

  Keeps-caught_ref : (cell : ℕ) (nd : Node) → Keeps n (match_caught (Pat.ref cell) nd)
  unfolding match_caught
  Keeps-caught_ref cell (bottom msg []) = search keeps_rules
  Keeps-caught_ref cell (bottom msg (a ∷ args)) = search keeps_rules
  Keeps-caught_ref cell _ = search keeps_rules

  Keeps-caught_any : (nd : Node) → Keeps n (match_caught wildcard nd)
  unfolding match_caught
  Keeps-caught_any (bottom msg args) = search keeps_rules
  Keeps-caught_any _ = search keeps_rules

  Keeps-match_caught : (p : Pat) (nd : Node) → Keeps n (match_caught p nd)
  unfolding match_caught
  Keeps-match_caught wildcard nd = Keeps-caught_any nd
  Keeps-match_caught (Pat.ref cell) nd = Keeps-caught_ref cell nd
  Keeps-match_caught _ nd = search keeps_rules

  Keeps-match_constr :
      (c : Bytes) (k : ℕ) (rest : List Ptr → M Bool) (nd : Node)
      → ((args : List Ptr) → Keeps n (rest args))
      → Keeps n (match_constr c k rest nd)
  unfolding match_constr
  Keeps-match_constr c k rest (Node.alge c' args) kr =
      Keeps-bool n (same c c' && k == length args) _ _ (kr args) (search keeps_rules)
  Keeps-match_constr c k rest _ kr = search keeps_rules

module _ (n : ℕ) (eval0 : Ptr → M Ptr) (keeps : (t : Ptr) → Keeps n (eval0 t)) where
  mutual
    unfolding match_pat match_all

    pub Keeps-match_pat : (p : Pat) (t : Ptr) → Keeps n (match_pat eval0 p t)
    Keeps-match_pat (Pat.alge c ps) t = Keeps-bind n _ _ (keeps t) (λ w.
        Keeps-bind n _ _ (Keeps-load n w)
          (λ v. Keeps-match_constr n c (count_pats ps) _ v.node (λ args. Keeps-match_all ps args)))
    Keeps-match_pat (as_pat cell p) t =
        Keeps-bind n _ _ (Keeps-match_pat p t)
          (λ b. Keeps-bool n b _ _ (Keeps-match_ref n cell t) (search keeps_rules))
    Keeps-match_pat (Pat.int v) t = search keeps_rules
    Keeps-match_pat (Pat.str s) t = search keeps_rules
    Keeps-match_pat (Pat.ref cell) t = Keeps-match_ref n cell t
    Keeps-match_pat wildcard t = search (keeps_rules, Keeps-is_bottom)
    Keeps-match_pat (caret p) t = Keeps-bind n _ _ (keeps t) (λ w.
        Keeps-bind n _ _ (Keeps-is_bottom n w) (λ b.
          Keeps-bool n b _ _
            (Keeps-bind n _ _ (Keeps-load n w) (λ v. Keeps-match_caught n p v.node))
            (search keeps_rules)))
    Keeps-match_pat (or_pat l r) t = Keeps-bind n _ _ (Keeps-match_pat l t) (λ b.
        Keeps-bool n b _ _ (search keeps_rules)
          (Keeps-bind n _ _ (Keeps-clear_binds n l) (λ _. Keeps-match_pat r t)))

    pub Keeps-match_all : (ps : Pats) (ts : List Ptr) → Keeps n (match_all eval0 ps ts)
    Keeps-match_all no_pats ts = search keeps_rules
    Keeps-match_all (pat p ps) [] = search keeps_rules
    Keeps-match_all (pat p ps) (t ∷ ts) =
        Keeps-bind n _ _ (Keeps-match_pat p t) (λ _. Keeps-match_all ps ts)
