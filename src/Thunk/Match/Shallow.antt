-- ===== src/Thunk/Match/Shallow.antt =====
-- How far the matching of src/thunk/thunk.c looks into a thunk.
use lazyscript.Prelude.{
  ℕ, ◌≡◌, refl, ap, sym, ◌∙◌, Bool, true, false, ◌&&◌, some, List, [], ◌∷◌, Bytes, get_elem?,
  length, same, ◌==◌,
}
use lazyscript.Thunk.Heap.{
  Ptr, Pat, Pats, no_pats, pat, Node, Thunk, Heap, M, done, ◌>>=◌, pure, load, known, and_then,
}
use lazyscript.Thunk.Heap.Steps.{bind-done}
use lazyscript.Thunk.Match.{match_pat, match_all, match_constr, count_pats}

match_all-true :
    (eval0 : Ptr → M Ptr) (ps : Pats) (ts : List Ptr) (h h' : Heap) (b : Bool)
    → match_all eval0 ps ts h ≡ done b h'
    → b ≡ true
unfolding match_all pure
match_all-true eval0 no_pats ts h h' b e = cc
match_all-true eval0 (pat p ps) [] h h' b e = cc
match_all-true eval0 (pat p ps) (t ∷ ts) h h' b e =
    let s = bind-done (match_pat eval0 p t) (λ _. match_all eval0 ps ts) h b h' e in
    match_all-true eval0 ps ts s.between h' b s.second

load-done :
    (q : ℕ) (h : Heap) (v : Thunk) → get_elem? h.thunks q ≡ some v → load (some q) h ≡ done v h
unfolding load known
load-done q h v at = rw at refl

guarded_true :
    (g : Bool) (m : M Bool) (h h' : Heap) (b : Bool)
    → (m h ≡ done b h' → b ≡ true)
    → (elim g as (λ _. M Bool) [ true ↦ m | false ↦ pure false ]) h ≡ done b h'
    → b ≡ g
unfolding pure
guarded_true true m h h' b t e = t e
guarded_true false m h h' b t e = cc

-- A constructor pattern is matched with a thunk that evaluates to a constructor: when the matching
-- ends, its result says whether the two constructors are the same, with equally many arguments. The
-- results for the arguments do not count.
pub match_pat-shallow :
    (eval0 : Ptr → M Ptr) (c : Bytes) (ps : Pats) (t : Ptr) (h h1 h' : Heap) (b : Bool) (q : ℕ)
    (w : Ptr) (c' : Bytes) (args : List Ptr)
    → eval0 t h ≡ done (some q) h1
    → get_elem? h1.thunks q ≡ some (record { node = Node.alge c' args; whnf = w })
    → match_pat eval0 (Pat.alge c ps) t h ≡ done b h'
    → b ≡ (same c c' && count_pats ps == length args)
unfolding match_pat match_constr ◌>>=◌
match_pat-shallow eval0 c ps t h h1 h' b q w c' args ev at e =
    let v : Thunk = record { node = Node.alge c' args; whnf = w } in
    let rest = λ (t' : Thunk). match_constr c (count_pats ps) (match_all eval0 ps) t'.node in
    let to_value : (load (some q) >>= rest) h1 ≡ done b h' =
      sym (ap (and_then (λ w'. load w' >>= rest)) ev) ∙ e in
    guarded_true (same c c' && count_pats ps == length args) (match_all eval0 ps args) h1 h' b
      (match_all-true eval0 ps args h1 h' b)
      (sym (ap (and_then rest) (load-done q h1 v at)) ∙ to_value)
