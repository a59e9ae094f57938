-- ===== src/Thunk/Build/Pattern.antt =====
-- Patterns of thunks from the syntax tree, `lstpat_new_pat` of src/thunk/tpat.c, in an environment
-- and for an origin, which its callers always give. While an or-pattern is checked, the bindings of
-- its left side hold marks, two addresses that are no thunk's.
use lazyscript.Prelude.{
  ℕ, Bool, true, false, ◌||◌, Option, none, some, List, [], ◌∷◌, ◌++◌, Bytes, ◌==◌,
}
use lazyscript.Ast
use lazyscript.Ast.Pattern.{nil, cons}
use lazyscript.Thunk.Heap.{
  Ptr, Pat, Pats, as_pat, wildcard, or_pat, caret, no_pats, pat, Origin, M, ◌>>=◌, ◌>>◌, pure,
  get_bound, set_bound, get_target, new_cell, new_target,
}
use lazyscript.Thunk.Env

-- the addresses `ls_or_mark_present` and `ls_or_mark_used`
pub record Marks : Type 0 where
  pub present : ℕ
  pub used : ℕ

abbrev pub points_to : Ptr → ℕ → Bool
points_to none a = false
points_to (some p) a = p == a

-- The bindings of a pattern, in the order in which the functions for the marks walk to them.
unfoldable mutual
  pub ref_cells : Pat → List ℕ
  ref_cells (Pat.alge c ps) = all_cells ps
  ref_cells (as_pat cell p) = cell ∷ ref_cells p
  ref_cells (Pat.int v) = []
  ref_cells (Pat.str s) = []
  ref_cells (Pat.ref cell) = cell ∷ []
  ref_cells wildcard = []
  ref_cells (or_pat l r) = ref_cells l ++ ref_cells r
  ref_cells (caret p) = ref_cells p

  pub all_cells : Pats → List ℕ
  all_cells no_pats = []
  all_cells (pat p ps) = ref_cells p ++ all_cells ps

-- The names of a pattern, in the order in which `lspat_walk_mark_right` meets them.
unfoldable mutual
  pub names : Ast.Pattern.Pat → List Bytes
  names (Ast.Pattern.alge c ps) = all_names ps
  names (Ast.Pattern.as_pat r p) = names p ++ r ∷ []
  names (Ast.Pattern.int v) = []
  names (Ast.Pattern.str s) = []
  names (Ast.Pattern.ref r) = r ∷ []
  names Ast.Pattern.wildcard = []
  names (Ast.Pattern.or_pat l r) = names l ++ names r
  names (Ast.Pattern.caret p) = names p

  pub all_names : Ast.Pattern.Pats → List Bytes
  all_names nil = []
  all_names (cons p ps) = names p ++ all_names ps

unfoldable pub mark_present : Marks → List ℕ → M (Unit {0})
unfolding ◌>>=◌ pure set_bound
mark_present m [] = pure tt
mark_present m (c ∷ cs) = do set_bound c (some m.present); mark_present m cs

unfoldable pub any_present : Marks → List ℕ → M Bool
unfolding ◌>>=◌ pure get_bound
any_present m [] = pure false
any_present m (c ∷ cs) = do
  b ← get_bound c
  elim (points_to b m.present) [ true ↦ pure true | false ↦ any_present m cs ]

unfoldable pub clear_mark : Marks → ℕ → M (Unit {0})
unfolding ◌>>=◌ pure get_bound set_bound
clear_mark m c = do
  b ← get_bound c
  elim (points_to b m.present || points_to b m.used) [ true ↦ set_bound c none | false ↦ pure tt ]

unfoldable pub mark_clear : Marks → List ℕ → M (Unit {0})
unfolding ◌>>=◌ pure clear_mark
mark_clear m [] = pure tt
mark_clear m (c ∷ cs) = do clear_mark m c; mark_clear m cs

-- The name of the right side is marked as used. The answer is whether it is a new one.
unfoldable pub mark_used : Marks → ℕ → Bytes → M Bool
unfolding ◌>>=◌ pure get_bound set_bound get_target Env.get_self Env.incr_nerrors
mark_used m env name = do
  found ← Env.get_self env name
  elim found [
    | none ↦ do Env.incr_nerrors env; pure true
    | some i ↦ do
      t ← get_target i
      b ← get_bound t.cell
      elim (points_to b m.present) [
        | true ↦ do set_bound t.cell (some m.used); pure false
        | false ↦ pure false
      ]
  ]

unfoldable pub mark_right : Marks → ℕ → List Bytes → M Bool
unfolding ◌>>=◌ pure mark_used
mark_right m env [] = pure false
mark_right m env (x ∷ xs) = do
  fresh ← mark_used m env x
  more ← mark_right m env xs
  pure (fresh || more)

-- a pattern around a part that may be NULL
unfoldable pub around : {A B : Type 0} → (A → B) → Option A → M (Option B)
unfolding pure
around f none = pure none
around f (some p) = pure (some (f p))

-- two parts, up to the first that is NULL
unfoldable pub both : {A B C : Type 0} → (A → B → C) → M (Option A) → M (Option B) → M (Option C)
unfolding ◌>>=◌ pure around
both f a b = do x ← a; elim x [ none ↦ pure none | some p ↦ do y ← b; around (f p) y ]

unfoldable pub reuse_cell : ℕ → Bytes → M (Option ℕ)
unfolding ◌>>=◌ pure get_target Env.get_self Env.incr_nerrors
reuse_cell env name = do
  found ← Env.get_self env name
  elim found [
    | none ↦ do Env.incr_nerrors env; pure none
    | some i ↦ do t ← get_target i; pure (some t.cell)
  ]

-- `lstpat_new_pat_reuse_only`
unfoldable mutual
  unfolding ◌>>=◌ pure around both reuse_cell

  pub reuse_pat : Ast.Pattern.Pat → ℕ → M (Option Pat)
  reuse_pat (Ast.Pattern.alge c ps) env = do qs ← reuse_pats ps env; around (Pat.alge c) qs
  reuse_pat (Ast.Pattern.caret p) env = do q ← reuse_pat p env; around caret q
  reuse_pat (Ast.Pattern.as_pat r p) env = both as_pat (reuse_cell env r) (reuse_pat p env)
  reuse_pat (Ast.Pattern.int v) env = pure (some (Pat.int v))
  reuse_pat (Ast.Pattern.str s) env = pure (some (Pat.str s))
  reuse_pat (Ast.Pattern.ref r) env = do c ← reuse_cell env r; around Pat.ref c
  reuse_pat Ast.Pattern.wildcard env = pure (some wildcard)
  reuse_pat (Ast.Pattern.or_pat l r) env = both or_pat (reuse_pat l env) (reuse_pat r env)

  pub reuse_pats : Ast.Pattern.Pats → ℕ → M (Option Pats)
  reuse_pats nil env = pure (some no_pats)
  reuse_pats (cons p ps) env = both pat (reuse_pat p env) (reuse_pats ps env)

-- the marks of the left side are cleared on each way out
unfoldable pub cleared : {A : Type 0} → Marks → Pat → A → M A
unfolding ◌>>=◌ pure mark_clear ref_cells
cleared m l a = do mark_clear m (ref_cells l); pure a

-- The right side of an or-pattern, given the left one.
unfoldable pub or_right : Marks → ℕ → Pat → Ast.Pattern.Pat → M (Option Pat)
unfolding ◌>>=◌ pure mark_present mark_right any_present reuse_pat cleared Env.incr_nerrors names
    ref_cells
or_right m env l right = do
  mark_present m (ref_cells l)
  fresh ← mark_right m env (names right)
  elim fresh [
    | true ↦ cleared m l none
    | false ↦ do
      missed ← any_present m (ref_cells l)
      elim missed [
        | true ↦ do Env.incr_nerrors env; cleared m l none
        | false ↦ do
          r ← reuse_pat right env
          elim r [ none ↦ cleared m l none | some q ↦ cleared m l (some (or_pat l q)) ]
      ]
  ]

-- a reference shares the binding of its name in the environment
unfoldable pub new_ref_pat : Bytes → ℕ → Origin → M (Option Pat)
unfolding ◌>>=◌ pure get_target new_cell new_target Env.get_self Env.put
new_ref_pat r env o = do
  existing ← Env.get_self env r
  elim existing [
    | some i ↦ do t ← get_target i; pure (some (Pat.ref t.cell))
    | none ↦ do c ← new_cell; i ← new_target o c; Env.put env r i; pure (some (Pat.ref c))
  ]

-- `lstpat_new_pat`. The reference of an as-pattern is not entered in the environment.
unfoldable mutual
  unfolding ◌>>=◌ pure around both new_cell new_ref_pat or_right

  pub new_pat : Marks → Ast.Pattern.Pat → ℕ → Origin → M (Option Pat)
  new_pat m (Ast.Pattern.alge c ps) env o = do qs ← new_pats m ps env o; around (Pat.alge c) qs
  new_pat m (Ast.Pattern.as_pat r p) env o = do
    c ← new_cell
    q ← new_pat m p env o
    around (as_pat c) q
  new_pat m (Ast.Pattern.caret p) env o = do q ← new_pat m p env o; around caret q
  new_pat m (Ast.Pattern.or_pat l r) env o = do
    q ← new_pat m l env o
    elim q [ none ↦ pure none | some left ↦ or_right m env left r ]
  new_pat m (Ast.Pattern.int v) env o = pure (some (Pat.int v))
  new_pat m (Ast.Pattern.str s) env o = pure (some (Pat.str s))
  new_pat m (Ast.Pattern.ref r) env o = new_ref_pat r env o
  new_pat m Ast.Pattern.wildcard env o = pure (some wildcard)

  pub new_pats : Marks → Ast.Pattern.Pats → ℕ → Origin → M (Option Pats)
  new_pats m nil env o = pure (some no_pats)
  new_pats m (cons p ps) env o = both pat (new_pat m p env o) (new_pats m ps env o)
