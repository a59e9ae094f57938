-- ===== src/Thunk/Build.antt =====
-- Thunks from the syntax tree: `lsthunk_new_expr` and the functions that it calls in
-- src/thunk/thunk.c, and `lsprog_eval`.
pub mod Pattern
pub mod Aside
pub mod Keeps
pub mod Stays
pub mod Clean
pub mod Sound
pub mod Whole
mod Tests
use lazyscript.Prelude.{
  ℕ, zero, suc, ◌+◌, ◌*◌, ◌-◌, Bool, true, false, Option, none, some, List, [], ◌∷◌, ◌++◌, Bytes,
  codes, length,
}
use lazyscript.Prelude.Decimal.{show_ℕ}
use lazyscript.Ast.Syntax.{
  Expr, Exprs, Binds, Members, ChoiceKind, alge, appl, ref, int, str, lambda, closure, choice,
  nslit, symbol, raise, no_exprs, expr, no_binds, bind, no_members, member,
}
use lazyscript.Ast
use lazyscript.Thunk.Heap.{
  Ptr, Node, blank, Origin, bind_origin, lambda_origin, Pat, wildcard, Target, M, Heap, done, ◌>>=◌,
  ◌>>◌, pure, gets, alloc, alloc_whnf, set_node,
}
use lazyscript.Thunk.Heap
use lazyscript.Thunk.Env
use lazyscript.Thunk.Match.{is_bottom}
use lazyscript.Thunk.Bottom.{new_value, new_bottom}
use lazyscript.Thunk.Build.Pattern.{Marks, new_pat}

-- What the construction calls of the rest: the evaluator, and the text that `lsthunk_deep_print`
-- writes, for a raise; the sentinels of the patterns.
pub record Linked : Type 0 where
  pub eval0 : Ptr → M Ptr
  pub deep_print : Ptr → M Bytes
  pub marks : Marks

-- the construction of a subexpression, from its environment
abbrev pub Build : Type 0
Build = ℕ → M Ptr

-- Arguments, up to the first that is NULL.
unfoldable pub new_args : List Build → ℕ → M (Option (List Ptr))
unfolding ◌>>=◌ pure
new_args [] env = pure (some [])
new_args (a ∷ as') env = do
  t ← a env
  elim t [
    | none ↦ pure none
    | some p ↦ do
      ts ← new_args as' env
      elim ts [ none ↦ pure none | some ps ↦ pure (some (some p ∷ ps)) ]
  ]

unfoldable pub new_eappl : Build → List Build → Build
unfolding ◌>>=◌ pure new_args alloc
new_eappl f as' env = do
  func ← f env
  elim func [
    | none ↦ pure none
    | some p ↦ do
      ts ← new_args as' env
      elim ts [
        | none ↦ pure none
        | some ps ↦ do q ← alloc (Node.appl (some p) ps) none; pure (some q)
      ]
  ]

-- The arguments of a constructor, NULL or not.
unfoldable pub new_fields : List Build → ℕ → M (List Ptr)
unfolding ◌>>=◌ pure
new_fields [] env = pure []
new_fields (a ∷ as') env = do t ← a env; ts ← new_fields as' env; pure (t ∷ ts)

unfoldable pub new_ealge : Bytes → List Build → Build
unfolding ◌>>=◌ pure new_fields alloc_whnf set_node
new_ealge c as' env = do
  q ← alloc_whnf blank
  ts ← new_fields as' env
  set_node q (Node.alge c ts)
  pure (some q)

abbrev pub kind_number : ChoiceKind → ℕ
kind_number ChoiceKind.lambda = 1
kind_number ChoiceKind.expr = 2
kind_number ChoiceKind.catch = 3

unfoldable pub new_echoice : ChoiceKind → Build → Build → Build
unfolding ◌>>=◌ pure alloc set_node
new_echoice k l r env = do
  q ← alloc blank none
  left ← l env
  right ← r env
  set_node q (Node.choice left right (kind_number k))
  pure (some q)

unfoldable pub new_ref : Bytes → Build
unfolding ◌>>=◌ pure alloc Env.get
new_ref name env = do
  target ← Env.get env name
  q ← alloc (Node.ref name (some env) target) none
  pure (some q)

-- The environment of a lambda is new, and its number stands for the address of the parameter.
unfoldable pub new_elambda : Marks → Ast.Pattern.Pat → Build → Build
unfolding ◌>>=◌ pure new_value Env.new new_pat
new_elambda marks param body env = do
  inner ← Env.new (some env)
  p ← new_pat marks param inner (lambda_origin inner)
  elim p [
    | none ↦ pure none
    | some pattern_of ↦ do
      b ← body inner
      elim b [
        | none ↦ pure none
        | some t ↦
            new_value (Node.lambda (record { address = inner; pattern_of = pattern_of }) (some t))
      ]
  ]

-- a binding of a closure
pub record SubBind : Type 0 where
  pub lhs : Ast.Pattern.Pat
  pub rhs : Build

-- A binding whose pattern is built: the targets from `first`, `count` many, share its origin.
pub record Bound : Type 0 where
  pub lhs : Pat
  pub first : ℕ
  pub count : ℕ

-- the origin while its pattern is not known
abbrev pub pending : Origin
pending = bind_origin wildcard none

-- how many targets there are
unfoldable pub target_count : M ℕ
unfolding gets
target_count = gets (λ h. length h.targets)

-- the origins of `count` targets behind the first `first` ones
unfoldable pub with_origin : ℕ → ℕ → Origin → List Target → List Target
with_origin first count o [] = []
with_origin (suc first) count o (t ∷ ts) = t ∷ with_origin first count o ts
with_origin zero zero o (t ∷ ts) = t ∷ ts
with_origin zero (suc count) o (t ∷ ts) = record t { origin = o } ∷ with_origin zero count o ts

unfoldable pub set_origins : ℕ → ℕ → Origin → M (Unit {0})
unfolding with_origin
set_origins first count o h = done tt (record h { targets = with_origin first count o h.targets })

-- The patterns of the bindings, which their targets know from then on.
unfoldable pub new_lhss : Marks → List SubBind → ℕ → M (Option (List Bound))
unfolding ◌>>=◌ pure target_count new_pat set_origins
new_lhss marks [] env = pure (some [])
new_lhss marks (b ∷ bs) env = do
  first ← target_count
  p ← new_pat marks b.lhs env pending
  last ← target_count
  elim p [
    | none ↦ pure none
    | some lhs ↦ do
      set_origins first (last - first) (bind_origin lhs none)
      rest ← new_lhss marks bs env
      elim rest [
        | none ↦ pure none
        | some bounds ↦
            pure (some (record { lhs = lhs; first = first; count = last - first } ∷ bounds))
      ]
  ]

-- The right sides. Until then the right side of an origin is NULL, as the memory is cleared.
unfoldable pub new_rhss : List SubBind → List Bound → ℕ → M Bool
unfolding ◌>>=◌ pure set_origins
new_rhss [] os env = pure true
new_rhss (b ∷ bs) [] env = pure true
new_rhss (b ∷ bs) (o ∷ os) env = do
  rhs ← b.rhs env
  elim rhs [
    | none ↦ pure false
    | some t ↦ do set_origins o.first o.count (bind_origin o.lhs (some t)); new_rhss bs os env
  ]

unfoldable pub new_eclosure : Marks → Build → List SubBind → Build
unfolding ◌>>=◌ pure Env.new new_lhss new_rhss
new_eclosure marks body bs env = do
  inner ← Env.new (some env)
  lhss ← new_lhss marks bs inner
  elim lhss [
    | none ↦ pure none
    | some bounds ↦ do
      ok ← new_rhss bs bounds inner
      elim ok [ false ↦ pure none | true ↦ body inner ]
  ]

-- A raise is evaluated while it is built.
unfoldable pub new_raise : Linked → Build → Build
unfolding ◌>>=◌ pure is_bottom new_bottom
new_raise c a env = do
  arg ← a env
  elim arg [
    | none ↦ pure none
    | some t ↦ do
      v ← c.eval0 (some t)
      bad ← is_bottom v
      elim bad [
        | true ↦ pure v
        | false ↦ do text ← c.deep_print v; new_bottom (codes "raise: " ++ text) (v ∷ [])
      ]
  ]

unfoldable pub nslit_symbol : ℕ → Build
unfolding show_ℕ new_ealge
nslit_symbol n = new_ealge (codes "nslit$" ++ show_ℕ (n * 2)) []

-- (~prelude nslit$2n), applied to the names and the members
unfoldable pub new_nslit : ℕ → List Build → Build
unfolding new_eappl new_ref nslit_symbol
new_nslit n members =
    new_eappl (new_eappl (new_ref (codes "prelude")) (nslit_symbol n ∷ [])) members

unfoldable pub count_members : Members → ℕ
count_members no_members = 0
count_members (member x e ms) = suc (count_members ms)

unfoldable mutual
  unfolding new_eappl new_ealge new_echoice new_eclosure new_elambda new_value new_ref new_nslit
      new_raise count_members

  pub new_expr : Linked → Expr → Build
  new_expr c (alge k es) env = new_ealge k (new_exprs c es) env
  new_expr c (appl f es) env = new_eappl (new_expr c f) (new_exprs c es) env
  new_expr c (choice k l r) env = new_echoice k (new_expr c l) (new_expr c r) env
  new_expr c (closure e bs) env = new_eclosure c.marks (new_expr c e) (new_binds c bs) env
  new_expr c (lambda p b) env = new_elambda c.marks p (new_expr c b) env
  new_expr c (int n) env = new_value (Node.int n)
  new_expr c (ref r) env = new_ref r env
  new_expr c (str s) env = new_value (Node.str s)
  new_expr c (symbol s) env = new_value (Node.symbol s)
  new_expr c (nslit ms) env = new_nslit (count_members ms) (new_members c ms) env
  new_expr c (raise e) env = new_raise c (new_expr c e) env

  pub new_exprs : Linked → Exprs → List Build
  new_exprs c no_exprs = []
  new_exprs c (expr e es) = new_expr c e ∷ new_exprs c es

  pub new_binds : Linked → Binds → List SubBind
  new_binds c no_binds = []
  new_binds c (bind p e bs) = record { lhs = p; rhs = new_expr c e } ∷ new_binds c bs

  -- each member is its name, as a symbol, and its expression
  pub new_members : Linked → Members → List Build
  new_members c no_members = []
  new_members c (member x e ms) =
      (λ env. new_value (Node.symbol x)) ∷ new_expr c e ∷ new_members c ms

unfoldable pub prog_eval : Linked → Expr → Build
unfolding ◌>>=◌ pure new_expr
prog_eval c e env = do t ← new_expr c e env; elim t [ none ↦ pure none | some p ↦ c.eval0 (some p) ]
