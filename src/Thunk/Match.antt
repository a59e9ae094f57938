-- ===== src/Thunk/Match.antt =====
-- Matching of thunks against patterns: `lsthunk_match_pat` and the functions around it of
-- src/thunk/thunk.c, and `lstpat_clear_binds` of src/thunk/tpat.c. `eval0` is the evaluator.
pub mod Clear
pub mod Shallow
pub mod Keeps
use lazyscript.Prelude.{
  ℕ, suc, Bool, true, false, not, ◌&&◌, Option, none, some, List, [], ◌∷◌, Bytes, length, same,
  ◌==◌, if◌then◌else◌,
}
use lazyscript.Common.LsInt.{LsInt, eq}
use lazyscript.Thunk.Heap.{
  Ptr, Pat, Pats, as_pat, wildcard, or_pat, caret, no_pats, pat, Thunk, Node, bottom, M, ◌>>=◌,
  ◌>>◌, pure, load, set_bound,
}
use lazyscript.Thunk.Heap

unfoldable pub is_bottom_node : Node → Bool
is_bottom_node (bottom msg args) = true
is_bottom_node _ = false

unfoldable pub is_bottom : Ptr → M Bool
unfolding ◌>>=◌ pure load is_bottom_node
is_bottom none = pure false
is_bottom (some p) = do t ← load (some p); pure (is_bottom_node t.node)

unfoldable mutual
  unfolding ◌>>=◌ set_bound pure

  pub clear_binds : Pat → M (Unit {0})
  clear_binds (Pat.alge c ps) = clear_all ps
  clear_binds (as_pat cell p) = do set_bound cell none; clear_binds p
  clear_binds (Pat.int v) = pure tt
  clear_binds (Pat.str s) = pure tt
  clear_binds (Pat.ref cell) = set_bound cell none
  clear_binds wildcard = pure tt
  clear_binds (or_pat l r) = do clear_binds l; clear_binds r
  clear_binds (caret p) = clear_binds p

  pub clear_all : Pats → M (Unit {0})
  clear_all no_pats = pure tt
  clear_all (pat p ps) = do clear_binds p; clear_all ps

unfoldable pub count_pats : Pats → ℕ
count_pats no_pats = 0
count_pats (pat p ps) = suc (count_pats ps)

abbrev pub match_int : LsInt → Node → Bool
match_int v (Node.int w) = eq v w
match_int v _ = false

abbrev pub match_str : Bytes → Node → Bool
match_str s (Node.str s') = same s s'
match_str s _ = false

unfoldable pub match_ref : ℕ → Ptr → M Bool
unfolding ◌>>=◌ is_bottom set_bound pure
match_ref cell t = do
  b ← is_bottom t
  elim b [ true ↦ pure false | false ↦ do set_bound cell t; pure true ]

-- what a caret pattern does with a value
unfoldable pub match_caught : Pat → Node → M Bool
unfolding ◌>>=◌ set_bound pure
match_caught wildcard (bottom msg args) = pure true
match_caught (Pat.ref cell) (bottom msg []) = pure false
match_caught (Pat.ref cell) (bottom msg (a ∷ args)) = do set_bound cell a; pure true
match_caught _ _ = pure false

-- the constructors and the numbers of arguments, and then the arguments by `rest`
unfoldable pub match_constr : Bytes → ℕ → (List Ptr → M Bool) → Node → M Bool
unfolding pure
match_constr c n rest (Node.alge c' args) = elim (same c c' && n == length args) [
  | true ↦ rest args
  | false ↦ pure false
]
match_constr c n rest _ = pure false

-- As `lsthunk_match_alge` does, `match_all` goes on whatever the results of the arguments are: the
-- code tests for a negative result, and there is none.
unfoldable mutual
  unfolding ◌>>=◌ is_bottom load pure match_ref match_caught match_constr clear_binds count_pats

  pub match_pat : (Ptr → M Ptr) → Pat → Ptr → M Bool
  match_pat eval0 (Pat.alge c ps) t = do
    w ← eval0 t
    v ← load w
    match_constr c (count_pats ps) (match_all eval0 ps) v.node
  match_pat eval0 (as_pat cell p) t = do
    b ← match_pat eval0 p t
    elim b [ true ↦ match_ref cell t | false ↦ pure false ]
  match_pat eval0 (Pat.int v) t = do n ← load t; pure (match_int v n.node)
  match_pat eval0 (Pat.str s) t = do n ← load t; pure (match_str s n.node)
  match_pat eval0 (Pat.ref cell) t = match_ref cell t
  match_pat eval0 wildcard t = do b ← is_bottom t; pure (not b)
  match_pat eval0 (caret p) t = do
    w ← eval0 t
    b ← is_bottom w
    elim b [ true ↦ do v ← load w; match_caught p v.node | false ↦ pure false ]
  match_pat eval0 (or_pat l r) t = do
    b ← match_pat eval0 l t
    elim b [ true ↦ pure true | false ↦ do clear_binds l; match_pat eval0 r t ]

  pub match_all : (Ptr → M Ptr) → Pats → List Ptr → M Bool
  match_all eval0 no_pats ts = pure true
  match_all eval0 (pat p ps) [] = pure true
  match_all eval0 (pat p ps) (t ∷ ts) = do match_pat eval0 p t; match_all eval0 ps ts
