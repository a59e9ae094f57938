-- ===== src/Thunk/Build/Stays.antt =====
-- The nodes of the thunks when a program is built and evaluated.
use lazyscript.Prelude.{
  ℕ, ◌≡◌, true, false, none, some, List, [], ◌∷◌, ◌++◌, ◌-◌, Bytes, All, codes, length, get_elem?,
  arith,
}
use lazyscript.Ast.Syntax.{
  Expr, Exprs, Binds, Members, ChoiceKind, alge, appl, ref, int, str, lambda, closure, choice,
  nslit, symbol, raise, no_exprs, expr, no_binds, bind, no_members, member,
}
use lazyscript.Ast
use lazyscript.Thunk.Heap.{Ptr, Heap, Thunk, Node, M, done, ◌>>=◌, ◌>>◌, pure}
use lazyscript.Thunk.Heap
use lazyscript.Thunk.Heap.Steps.{get_elem?-below}
use lazyscript.Thunk.Heap.Keeps.{Since, Keeps}
use lazyscript.Thunk.Heap.Rules.{
  Keeps-pure, Keeps-gets, Keeps-bool, Keeps-option, Keeps-bind, Keeps-alloc, Keeps-alloc_whnf,
  Keeps-set_node,
}
use lazyscript.Thunk.Match.Keeps.{Keeps-is_bottom}
use lazyscript.Thunk.Choice
use lazyscript.Thunk.Choice.Keeps.{Keeps-new_value, Keeps-new_bottom}
use lazyscript.Thunk.Eval.{eval0}
use lazyscript.Thunk.Eval.Keeps.{BuiltinsKeep, Keeps-eval0}
use lazyscript.Thunk.Build.Pattern.{Marks}
use lazyscript.Thunk.Build.{
  Linked, Build, SubBind, Bound, new_args, new_eappl, new_fields, new_ealge, new_echoice,
  kind_number, new_ref, new_elambda, pending, target_count, new_lhss, new_rhss, new_eclosure,
  new_raise, count_members, nslit_symbol, new_nslit, new_expr, new_exprs, new_binds, new_members,
  prog_eval,
}
use lazyscript.Thunk.Build.Aside.{Keeps-Aside, Aside-get, Aside-new, Aside-set_origins}
use lazyscript.Thunk.Build.Keeps.{Keeps-new_pat}

module _ (n : ℕ) where
  abbrev Kept : Build → Type 0
  Kept b = (env : ℕ) → Keeps n (b env)

  Keeps-new_args : (bs : List Build) (env : ℕ) → All Kept bs → Keeps n (new_args bs env)
  unfolding new_args
  Keeps-new_args [] env h = Keeps-pure n (some [])
  Keeps-new_args (b ∷ bs) env (h, hs) = Keeps-bind n _ _ (h env) (λ t.
      Keeps-option n t _ _ (Keeps-pure n none) (λ p.
        Keeps-bind n _ _ (Keeps-new_args bs env hs) (λ ts.
          Keeps-option n ts _ _ (Keeps-pure n none) (λ ps. Keeps-pure n (some (some p ∷ ps))))))

  Keeps-new_eappl : (f : Build) (bs : List Build) → Kept f → All Kept bs → Kept (new_eappl f bs)
  unfolding new_eappl
  Keeps-new_eappl f bs h hs env = Keeps-bind n _ _ (h env) (λ func.
      Keeps-option n func _ _ (Keeps-pure n none) (λ p.
        Keeps-bind n _ _ (Keeps-new_args bs env hs) (λ ts.
          Keeps-option n ts _ _ (Keeps-pure n none)
            (λ ps. Keeps-alloc n (Node.appl (some p) ps) none _ (λ q le. Keeps-pure n (some q))))))

  Keeps-new_fields : (bs : List Build) (env : ℕ) → All Kept bs → Keeps n (new_fields bs env)
  unfolding new_fields
  Keeps-new_fields [] env h = Keeps-pure n []
  Keeps-new_fields (b ∷ bs) env (h, hs) =
      Keeps-bind n _ _ (h env)
        (λ t. Keeps-bind n _ _ (Keeps-new_fields bs env hs) (λ ts. Keeps-pure n (t ∷ ts)))

  Keeps-new_ealge : (c : Bytes) (bs : List Build) → All Kept bs → Kept (new_ealge c bs)
  unfolding new_ealge
  Keeps-new_ealge c bs hs env = Keeps-alloc_whnf n Heap.blank _ (λ q le.
      Keeps-bind n _ _ (Keeps-new_fields bs env hs) (λ ts.
        Keeps-bind n _ _ (Keeps-set_node n q (Node.alge c ts) le) (λ u. Keeps-pure n (some q))))

  Keeps-new_echoice : (k : ChoiceKind) (l r : Build) → Kept l → Kept r → Kept (new_echoice k l r)
  unfolding new_echoice
  Keeps-new_echoice k l r hl hr env = Keeps-alloc n Heap.blank none _ (λ q le.
      Keeps-bind n _ _ (hl env) (λ left. Keeps-bind n _ _ (hr env) (λ right.
        Keeps-bind n _ _ (Keeps-set_node n q (Node.choice left right (kind_number k)) le)
          (λ u. Keeps-pure n (some q)))))

  Keeps-new_ref : (x : Bytes) → Kept (new_ref x)
  unfolding new_ref
  Keeps-new_ref x env = Keeps-bind n _ _ (Keeps-Aside n _ (Aside-get env x)) (λ target.
      Keeps-alloc n (Node.ref x (some env) target) none _ (λ q le. Keeps-pure n (some q)))

  Keeps-new_elambda :
      (m : Marks) (p : Ast.Pattern.Pat) (b : Build) → Kept b → Kept (new_elambda m p b)
  unfolding new_elambda
  Keeps-new_elambda m p b h env =
      Keeps-bind n _ _ (Keeps-Aside n _ (Aside-new (some env))) (λ inner.
        Keeps-bind n _ _ (Keeps-new_pat n m p inner _) (λ o.
          Keeps-option n o _ _ (Keeps-pure n none) (λ q. Keeps-bind n _ _ (h inner) (λ body.
            Keeps-option n body _ _ (Keeps-pure n none) (λ t.
              Keeps-new_value n
                (Node.lambda (record { address = inner; pattern_of = q }) (some t)))))))

  abbrev KeptBind : SubBind → Type 0
  KeptBind b = Kept b.rhs

  Keeps-target_count : Keeps n target_count
  unfolding target_count
  Keeps-target_count = Keeps-gets n _

  Keeps-new_lhss : (m : Marks) (bs : List SubBind) (env : ℕ) → Keeps n (new_lhss m bs env)
  unfolding new_lhss
  Keeps-new_lhss m [] env = Keeps-pure n (some [])
  Keeps-new_lhss m (b ∷ bs) env = Keeps-bind n _ _ Keeps-target_count (λ first.
      Keeps-bind n _ _ (Keeps-new_pat n m b.lhs env pending) (λ p.
        Keeps-bind n _ _ Keeps-target_count (λ last.
          Keeps-option n p _ _ (Keeps-pure n none) (λ lhs.
            Keeps-bind n _ _
              (Keeps-Aside n _ (Aside-set_origins first (last - first) (Heap.bind_origin lhs none)))
              (λ u. Keeps-bind n _ _ (Keeps-new_lhss m bs env) (λ rest.
                Keeps-option n rest _ _ (Keeps-pure n none) (λ bounds.
                  Keeps-pure n (
                    some
                      (record { lhs = lhs; first = first; count = last - first } ∷ bounds)))))))))

  Keeps-new_rhss :
      (bs : List SubBind) (os : List Bound) (env : ℕ)
      → All KeptBind bs
      → Keeps n (new_rhss bs os env)
  unfolding new_rhss
  Keeps-new_rhss [] os env h = Keeps-pure n true
  Keeps-new_rhss (b ∷ bs) [] env h = Keeps-pure n true
  Keeps-new_rhss (b ∷ bs) (o ∷ os) env (h, hs) = Keeps-bind n _ _ (h env) (λ rhs.
      Keeps-option n rhs _ _ (Keeps-pure n false) (λ t.
        Keeps-bind n _ _ (Keeps-Aside n _ (Aside-set_origins o.first o.count _))
          (λ u. Keeps-new_rhss bs os env hs)))

  Keeps-new_eclosure :
      (m : Marks) (b : Build) (bs : List SubBind)
      → Kept b
      → All KeptBind bs
      → Kept (new_eclosure m b bs)
  unfolding new_eclosure
  Keeps-new_eclosure m b bs h hs env =
      Keeps-bind n _ _ (Keeps-Aside n _ (Aside-new (some env))) (λ inner.
        Keeps-bind n _ _ (Keeps-new_lhss m bs inner) (λ lhss.
          Keeps-option n lhss _ _ (Keeps-pure n none) (λ bounds.
            Keeps-bind n _ _ (Keeps-new_rhss bs bounds inner hs)
              (λ ok. Keeps-bool n ok _ _ (h inner) (Keeps-pure n none)))))

  Keeps-new_raise :
      (c : Linked) (b : Build)
      → ((t : Ptr) → Keeps n (c.eval0 t))
      → ((t : Ptr) → Keeps n (c.deep_print t))
      → Kept b
      → Kept (new_raise c b)
  unfolding new_raise
  Keeps-new_raise c b he hd h env = Keeps-bind n _ _ (h env) (λ arg.
      Keeps-option n arg _ _ (Keeps-pure n none) (λ t. Keeps-bind n _ _ (he (some t)) (λ v.
        Keeps-bind n _ _ (Keeps-is_bottom n v) (λ bad. Keeps-bool n bad _ _ (Keeps-pure n v) (
          Keeps-bind n _ _ (hd v)
            (λ text. Keeps-new_bottom n (codes "raise: " ++ text) (v ∷ [])))))))

  Keeps-nslit_symbol : (k : ℕ) → Kept (nslit_symbol k)
  unfolding nslit_symbol
  Keeps-nslit_symbol k = Keeps-new_ealge _ [] tt

  Keeps-new_nslit : (k : ℕ) (bs : List Build) → All Kept bs → Kept (new_nslit k bs)
  unfolding new_nslit
  Keeps-new_nslit k bs h =
      Keeps-new_eappl (new_eappl (new_ref (codes "prelude")) (nslit_symbol k ∷ [])) bs
        (Keeps-new_eappl (new_ref (codes "prelude")) (nslit_symbol k ∷ []) (Keeps-new_ref _)
          (Keeps-nslit_symbol k, tt))
        h

  module _ (c : Linked) (he : (t : Ptr) → Keeps n (c.eval0 t))
      (hd : (t : Ptr) → Keeps n (c.deep_print t)) where
    mutual
      unfolding new_expr new_exprs new_binds new_members

      pub Keeps-new_expr : (e : Expr) → Kept (new_expr c e)
      Keeps-new_expr (alge k es) env = Keeps-new_ealge k (new_exprs c es) (Keeps-new_exprs es) env
      Keeps-new_expr (appl f es) env =
          Keeps-new_eappl (new_expr c f) (new_exprs c es) (Keeps-new_expr f) (Keeps-new_exprs es)
            env
      Keeps-new_expr (choice k l r) env =
          Keeps-new_echoice k (new_expr c l) (new_expr c r) (Keeps-new_expr l) (Keeps-new_expr r)
            env
      Keeps-new_expr (closure e bs) env =
          Keeps-new_eclosure c.marks (new_expr c e) (new_binds c bs) (Keeps-new_expr e)
            (Keeps-new_binds bs) env
      Keeps-new_expr (lambda p b) env =
          Keeps-new_elambda c.marks p (new_expr c b) (Keeps-new_expr b) env
      Keeps-new_expr (int v) env = Keeps-new_value n (Node.int v)
      Keeps-new_expr (ref r) env = Keeps-new_ref r env
      Keeps-new_expr (str s) env = Keeps-new_value n (Node.str s)
      Keeps-new_expr (symbol s) env = Keeps-new_value n (Node.symbol s)
      Keeps-new_expr (nslit ms) env =
          Keeps-new_nslit (count_members ms) (new_members c ms) (Keeps-new_members ms) env
      Keeps-new_expr (raise e) env = Keeps-new_raise c (new_expr c e) he hd (Keeps-new_expr e) env

      Keeps-new_exprs : (es : Exprs) → All Kept (new_exprs c es)
      Keeps-new_exprs no_exprs = tt
      Keeps-new_exprs (expr e es) = (Keeps-new_expr e, Keeps-new_exprs es)

      Keeps-new_binds : (bs : Binds) → All KeptBind (new_binds c bs)
      Keeps-new_binds no_binds = tt
      Keeps-new_binds (bind p e bs) = (Keeps-new_expr e, Keeps-new_binds bs)

      Keeps-new_members : (ms : Members) → All Kept (new_members c ms)
      Keeps-new_members no_members = tt
      Keeps-new_members (member x e ms) =
          ((λ env. Keeps-new_value n (Node.symbol x)), (Keeps-new_expr e, Keeps-new_members ms))

    pub Keeps-prog_eval : (e : Expr) → Kept (prog_eval c e)
    unfolding prog_eval
    Keeps-prog_eval e env =
        Keeps-bind n _ _ (Keeps-new_expr e env)
          (λ t. Keeps-option n t _ _ (Keeps-pure n none) (λ p. he (some p)))

-- the evaluator with its fuel and the functions of the builtins, as the construction calls it
abbrev pub linked :
    (Choice.Calls → ℕ → List Ptr → Ptr → M Ptr) → ℕ → (Ptr → M Bytes) → Marks → Linked
linked call fuel deep_print marks = record {
  eval0 = eval0 call fuel;
  deep_print = deep_print;
  marks = marks;
}

-- Where the functions of the builtins and the printer of values do so, a program that is built and
-- evaluated leaves the node of each thunk that was there as it was, but that a reference without a
-- target may have got one.
pub prog_eval-Since :
    (call : Choice.Calls → ℕ → List Ptr → Ptr → M Ptr) (deep_print : Ptr → M Bytes)
    → BuiltinsKeep call
    → ((n : ℕ) (t : Ptr) → Keeps n (deep_print t))
    → (fuel : ℕ) (marks : Marks) (e : Expr) (env : ℕ) (h h' : Heap) (r : Ptr)
    → prog_eval (linked call fuel deep_print marks) e env h ≡ done r h'
    → (i : ℕ) (u : Thunk) → get_elem? h.thunks i ≡ some u
    → Since u.node i h'
prog_eval-Since call deep_print hc hd fuel marks e env h h' r eq i u at =
    ((Keeps-prog_eval (length h.thunks) (linked call fuel deep_print marks)
          (Keeps-eval0 call hc fuel (length h.thunks)) (hd (length h.thunks)) e env).at
        h r h' (omega arith) eq).nodes
      i u (get_elem?-below h.thunks i u at) at
