-- ===== src/Thunk/Build/Clean/Expressions.antt =====
-- The bindings while a syntax tree without a raise is made into thunks.
use lazyscript.Prelude.{
  ℕ, ◌≡◌, sym, ap, ◌∙◌, ◌-◌, true, false, none, some, List, [], ◌∷◌, Bytes, All, length, get_elem?,
  ◌++◌,
}
use mathlib.Core.Path.{subst}
use lazyscript.Ast
use lazyscript.Ast.Syntax.{
  Expr, Exprs, Binds, Members, ChoiceKind, alge, appl, ref, int, str, lambda, closure, choice,
  nslit, symbol, raise, no_exprs, expr, no_binds, bind, no_members, member,
}
use lazyscript.Thunk.Heap.{
  Ptr, Heap, Thunk, Node, blank, bind_origin, M, done, pure, load, store, alloc, alloc_whnf,
  set_node,
}
use lazyscript.Thunk.Heap.Steps.{bind-done, known-done, write_at-done}
use lazyscript.Thunk.Bottom.{new_value}
use lazyscript.Thunk.Build.{
  Linked, Build, SubBind, Bound, new_args, new_eappl, new_fields, new_ealge, new_echoice,
  kind_number, new_ref, new_elambda, pending, target_count, new_lhss, new_rhss, new_eclosure,
  count_members, nslit_symbol, new_nslit, new_expr, new_exprs, new_binds, new_members,
}
use lazyscript.Thunk.Build.Pattern.{Marks}
use lazyscript.Thunk.Build.Aside.{Aside-pure, Aside-gets, Aside-get, Aside-new, Aside-set_origins}
use lazyscript.Thunk.Build.Sound.Expressions.{Quiet, AllQuiet, QuietBinds, QuietMembers}
use lazyscript.Thunk.Build.Clean.{Takes-bind, Takes-option, Takes-bool, IsClean}
use lazyscript.Thunk.Build.Clean.Patterns.{Stay, aside, pat-IsClean}

Stay-pure : {A : Type 0} (a : A) → Stay (pure a)
Stay-pure a = aside _ (Aside-pure a)

-- an action that leaves the bindings as they are
same_bounds :
    {A : Type 0} (m : M A)
    → ((h : Heap) (a : A) (h' : Heap) → m h ≡ done a h' → h.bounds ≡ h'.bounds)
    → Stay m
same_bounds m f = record { at = λ h a h' e k. subst IsClean (f h a h' e) k }

module _ (n : Node) where
  Stay-alloc : (w : Ptr) → Stay (alloc n w)
  unfolding alloc
  Stay-alloc w = same_bounds _ (λ h a h' e.
      let made : (record h { thunks = h.thunks ++ record { node = n; whnf = w } ∷ [] }) ≡ h' =
        cc (e) in
      ap (λ (x : Heap). x.bounds) made)

  Stay-alloc_whnf : Stay (alloc_whnf n)
  unfolding alloc_whnf
  Stay-alloc_whnf = same_bounds _ (λ h a h' e.
      let t : Thunk = record { node = n; whnf = some (length h.thunks) } in
      let made : (record h { thunks = h.thunks ++ t ∷ [] }) ≡ h' = cc (e) in
      ap (λ (x : Heap). x.bounds) made)

  Stay-set_node : (p : ℕ) → Stay (set_node p n)
  unfolding set_node load store
  Stay-set_node p = same_bounds _ (λ h a h' e.
      let s = bind-done (load (some p)) (λ t. store p (record t { node = n })) h tt h' e in
      let (at, same_heap) = known-done (get_elem? h.thunks p) h s.value s.between s.first in
      let k = λ (xs : List Thunk). record (s.between) { thunks = xs } in
      let r = write_at-done (s.between).thunks p (record (s.value) { node = n }) k h' s.second in
      sym (ap (λ (x : Heap). x.bounds) r.after ∙ ap (λ (x : Heap). x.bounds) same_heap))

  Stay-new_value : Stay (new_value n)
  unfolding new_value
  Stay-new_value = Takes-bind _ _ Stay-alloc_whnf (λ q. Stay-pure (some q))

abbrev Clean : Build → Type 0
Clean b = (env : ℕ) → Stay (b env)

Stay-new_args : (bs : List Build) (env : ℕ) → All Clean bs → Stay (new_args bs env)
unfolding new_args
Stay-new_args [] env h = Stay-pure (some [])
Stay-new_args (b ∷ bs) env (h, hs) = Takes-bind _ _ (h env) (λ t.
    Takes-option t _ _ (Stay-pure none) (λ p.
      Takes-bind _ _ (Stay-new_args bs env hs)
        (λ ts. Takes-option ts _ _ (Stay-pure none) (λ ps. Stay-pure (some (some p ∷ ps))))))

Clean-new_eappl : (f : Build) (bs : List Build) → Clean f → All Clean bs → Clean (new_eappl f bs)
unfolding new_eappl
Clean-new_eappl f bs h hs env = Takes-bind _ _ (h env) (λ func.
    Takes-option func _ _ (Stay-pure none) (λ p. Takes-bind _ _ (Stay-new_args bs env hs) (λ ts.
      Takes-option ts _ _ (Stay-pure none) (λ ps.
        Takes-bind _ _ (Stay-alloc (Node.appl (some p) ps) none) (λ q. Stay-pure (some q))))))

Stay-new_fields : (bs : List Build) (env : ℕ) → All Clean bs → Stay (new_fields bs env)
unfolding new_fields
Stay-new_fields [] env h = Stay-pure []
Stay-new_fields (b ∷ bs) env (h, hs) =
    Takes-bind _ _ (h env)
      (λ t. Takes-bind _ _ (Stay-new_fields bs env hs) (λ ts. Stay-pure (t ∷ ts)))

Clean-new_ealge : (c : Bytes) (bs : List Build) → All Clean bs → Clean (new_ealge c bs)
unfolding new_ealge
Clean-new_ealge c bs hs env = Takes-bind _ _ (Stay-alloc_whnf blank) (λ q.
    Takes-bind _ _ (Stay-new_fields bs env hs)
      (λ ts. Takes-bind _ _ (Stay-set_node (Node.alge c ts) q) (λ u. Stay-pure (some q))))

Clean-new_echoice : (k : ChoiceKind) (l r : Build) → Clean l → Clean r → Clean (new_echoice k l r)
unfolding new_echoice
Clean-new_echoice k l r hl hr env = Takes-bind _ _ (Stay-alloc blank none) (λ q.
    Takes-bind _ _ (hl env) (λ left. Takes-bind _ _ (hr env) (λ right.
      Takes-bind _ _ (Stay-set_node (Node.choice left right (kind_number k)) q)
        (λ u. Stay-pure (some q)))))

Clean-new_ref : (x : Bytes) → Clean (new_ref x)
unfolding new_ref
Clean-new_ref x env = Takes-bind _ _ (aside _ (Aside-get env x)) (λ target.
    Takes-bind _ _ (Stay-alloc (Node.ref x (some env) target) none) (λ q. Stay-pure (some q)))

Clean-new_elambda :
    (m : Marks) (p : Ast.Pattern.Pat) (b : Build) → Clean b → Clean (new_elambda m p b)
unfolding new_elambda
Clean-new_elambda m p b h env = Takes-bind _ _ (aside _ (Aside-new (some env))) (λ inner.
    Takes-bind _ _ (pat-IsClean m p inner _) (λ o. Takes-option o _ _ (Stay-pure none) (λ q.
      Takes-bind _ _ (h inner) (λ body. Takes-option body _ _ (Stay-pure none) (λ t.
        Stay-new_value (Node.lambda (record { address = inner; pattern_of = q }) (some t)))))))

Stay-target_count : Stay target_count
unfolding target_count
Stay-target_count = aside _ (Aside-gets _)

Stay-new_lhss : (m : Marks) (bs : List SubBind) (env : ℕ) → Stay (new_lhss m bs env)
unfolding new_lhss
Stay-new_lhss m [] env = Stay-pure (some [])
Stay-new_lhss m (b ∷ bs) env = Takes-bind _ _ Stay-target_count (λ first.
    Takes-bind _ _ (pat-IsClean m b.lhs env pending) (λ p. Takes-bind _ _ Stay-target_count (λ last.
      Takes-option p _ _ (Stay-pure none) (λ lhs.
        Takes-bind _ _ (aside _ (Aside-set_origins first (last - first) (bind_origin lhs none)))
          (λ u. Takes-bind _ _ (Stay-new_lhss m bs env) (λ rest.
            Takes-option rest _ _ (Stay-pure none) (λ bounds.
              Stay-pure
                (some (record { lhs = lhs; first = first; count = last - first } ∷ bounds)))))))))

abbrev CleanBind : SubBind → Type 0
CleanBind b = Clean b.rhs

Stay-new_rhss :
    (bs : List SubBind) (os : List Bound) (env : ℕ) → All CleanBind bs → Stay (new_rhss bs os env)
unfolding new_rhss
Stay-new_rhss [] os env h = Stay-pure true
Stay-new_rhss (b ∷ bs) [] env h = Stay-pure true
Stay-new_rhss (b ∷ bs) (o ∷ os) env (h, hs) = Takes-bind _ _ (h env) (λ rhs.
    Takes-option rhs _ _ (Stay-pure false) (λ t.
      Takes-bind _ _ (aside _ (Aside-set_origins o.first o.count _))
        (λ u. Stay-new_rhss bs os env hs)))

Clean-new_eclosure :
    (m : Marks) (b : Build) (bs : List SubBind)
    → Clean b
    → All CleanBind bs
    → Clean (new_eclosure m b bs)
unfolding new_eclosure
Clean-new_eclosure m b bs h hs env = Takes-bind _ _ (aside _ (Aside-new (some env))) (λ inner.
    Takes-bind _ _ (Stay-new_lhss m bs inner) (λ lhss.
      Takes-option lhss _ _ (Stay-pure none) (λ bounds.
        Takes-bind _ _ (Stay-new_rhss bs bounds inner hs)
          (λ ok. Takes-bool ok _ _ (λ _. h inner) (λ _. Stay-pure none)))))

Clean-new_nslit : (k : ℕ) (bs : List Build) → All Clean bs → Clean (new_nslit k bs)
unfolding new_nslit nslit_symbol
Clean-new_nslit k bs hs =
    Clean-new_eappl _ bs
      (Clean-new_eappl _ (nslit_symbol k ∷ []) (Clean-new_ref _) (Clean-new_ealge _ [] tt, tt)) hs

module _ (c : Linked) where
  mutual
    unfolding new_expr new_exprs new_binds new_members Quiet AllQuiet QuietBinds QuietMembers

    pub Clean-new_expr : (e : Expr) → Quiet e → Clean (new_expr c e)
    Clean-new_expr (alge k es) q env = Clean-new_ealge k (new_exprs c es) (new_exprs-Clean es q) env
    Clean-new_expr (appl f es) (q, qs) env =
        Clean-new_eappl (new_expr c f) (new_exprs c es) (Clean-new_expr f q) (new_exprs-Clean es qs)
          env
    Clean-new_expr (choice k l r) (q, p) env =
        Clean-new_echoice k (new_expr c l) (new_expr c r) (Clean-new_expr l q) (Clean-new_expr r p)
          env
    Clean-new_expr (closure e bs) (q, qs) env =
        Clean-new_eclosure c.marks (new_expr c e) (new_binds c bs) (Clean-new_expr e q)
          (new_binds-Clean bs qs) env
    Clean-new_expr (lambda p b) q env =
        Clean-new_elambda c.marks p (new_expr c b) (Clean-new_expr b q) env
    Clean-new_expr (int n) q env = Stay-new_value (Node.int n)
    Clean-new_expr (ref r) q env = Clean-new_ref r env
    Clean-new_expr (str v) q env = Stay-new_value (Node.str v)
    Clean-new_expr (symbol v) q env = Stay-new_value (Node.symbol v)
    Clean-new_expr (nslit ms) q env =
        Clean-new_nslit (count_members ms) (new_members c ms) (new_members-Clean ms q) env
    Clean-new_expr (raise e) q env = absurd q

    new_exprs-Clean : (es : Exprs) → AllQuiet es → All Clean (new_exprs c es)
    new_exprs-Clean no_exprs q = tt
    new_exprs-Clean (expr e es) (q, qs) = (Clean-new_expr e q, new_exprs-Clean es qs)

    new_binds-Clean : (bs : Binds) → QuietBinds bs → All CleanBind (new_binds c bs)
    new_binds-Clean no_binds q = tt
    new_binds-Clean (bind p e bs) (q, qs) = (Clean-new_expr e q, new_binds-Clean bs qs)

    new_members-Clean : (ms : Members) → QuietMembers ms → All Clean (new_members c ms)
    new_members-Clean no_members q = tt
    new_members-Clean (member x e ms) (q, qs) =
        ((λ env. Stay-new_value (Node.symbol x)), (Clean-new_expr e q, new_members-Clean ms qs))
