-- ===== src/Builtins/Sum.antt =====
-- The value of a sum and of a difference, src/builtins/arith.c under src/thunk/thunk.c.
use lazyscript.Prelude.{
  ℕ, suc, ◌≡◌, refl, ap, ◌∙◌, Bool, true, false, none, some, [], ◌∷◌, ◌++◌, Bytes, codes, get_elem?,
  length, if◌then◌else◌, arith,
}
use lazyscript.Common.LsInt.{LsInt}
use lazyscript.Common.LsInt
use lazyscript.Thunk.Heap.{
  Ptr, Heap, Builtin, Node, int, builtin, Thunk, M, done, ◌>>=◌, and_then, pure, gets, known, load,
  alloc_whnf,
}
use lazyscript.Thunk.Heap.Steps.{get_elem?-append_last, get_elem?-below}
use lazyscript.Thunk.Heap.Keeps.{Grown, same_node, resolved}
use lazyscript.Thunk.Match.{is_bottom_node, is_bottom}
use lazyscript.Thunk.Bottom.{new_value}
use lazyscript.Thunk.Choice.{Calls}
use lazyscript.Thunk.Eval.{
  returned, apply_builtin, eval_builtin, eval_applied, eval_node, eval0_loaded, eval, eval0,
}
use lazyscript.Builtins.Args.{or_bottom, eval_arg, unless_bottom}
use lazyscript.Builtins.Arith.{on_ints, on_values, binary, add, sub}
use lazyscript.Builtins.Table.{call}
use lazyscript.Thunk.Eval.Keeps.{Keeps-eval0}
use lazyscript.Builtins.Keeps.{call-Keep}

abbrev pub grow : Heap → Node → Heap
grow h nd = record h {
  thunks = h.thunks ++ (record { node = nd; whnf = some (length h.thunks) } ∷ []);
}

-- a value that is there, and an integer
abbrev pub IntAt : Heap → ℕ → LsInt → Type 0
IntAt h p v = (w : Ptr) × (get_elem? h.thunks p ≡ some (record { node = int v; whnf = w }))

int-unless_bottom :
    (h : Heap) (p : ℕ) (v : LsInt) (rest : M Ptr)
    → IntAt h p v
    → unless_bottom (some p) rest h ≡ rest h
unfolding unless_bottom is_bottom is_bottom_node load known pure ◌>>=◌
int-unless_bottom h p v rest (w, at) = rw (at, known, and_then) refl

int-eval_arg :
    (c : Calls) (a : Ptr) (msg : Bytes) (h h1 : Heap) (q : ℕ)
    → c.eval0 a h ≡ done (some q) h1
    → eval_arg c a msg h ≡ done (some q) h1
unfolding eval_arg or_bottom pure ◌>>=◌
int-eval_arg c a msg h h1 q e = ap (and_then (or_bottom msg)) e

ints-on_values :
    (name : Bytes) (op : LsInt → LsInt → Node) (h : Heap) (l r : ℕ) (v w : LsInt)
    → IntAt h l v
    → IntAt h r w
    → on_values name op (some l) (some r) h ≡ done (some (length h.thunks)) (grow h (op v w))
unfolding on_values on_ints load known ◌>>=◌ new_value alloc_whnf pure
ints-on_values name op h l r v w (x, at) (y, bt) =
    rw (at, load, known, and_then) (rw (bt, known, and_then) refl)

-- the two arguments evaluate to integers, one after the other
binary_lem :
    (name : Bytes) (op : LsInt → LsInt → Node) (c : Calls) (a b : Ptr) (h h1 h2 : Heap) (l r : ℕ)
    (v w : LsInt)
    → c.eval0 a h ≡ done (some l) h1
    → IntAt h1 l v
    → c.eval0 b h1 ≡ done (some r) h2
    → IntAt h2 l v
    → IntAt h2 r w
    → binary name op c (a ∷ b ∷ []) h ≡ done (some (length h2.thunks)) (grow h2 (op v w))
unfolding binary ◌>>=◌
binary_lem name op c a b h h1 h2 l r v w ea at eb at2 bt =
    ap (and_then _) (int-eval_arg c a (name ++ codes ": arg1") h h1 l ea)
    ∙ int-unless_bottom h1 l v _ at
    ∙ ap (and_then _) (int-eval_arg c b (name ++ codes ": arg2") h1 h2 r eb)
    ∙ int-unless_bottom h2 r w _ bt
    ∙ ints-on_values name op h2 l r v w at2 bt

-- an integer thunk is still there after an evaluation
IntAt-eval0 :
    (fuel l : ℕ) (b : Ptr) (h h' : Heap) (r : Ptr) (v : LsInt)
    → eval0 call fuel b h ≡ done r h'
    → IntAt h l v
    → IntAt h' l v
IntAt-eval0 fuel l b h h' r v e (w, at) =
    let k = (Keeps-eval0 call call-Keep fuel (length h.thunks) b).at h r h' (omega arith) e in
    let s = k.nodes l (record { node = int v; whnf = w }) (get_elem?-below h.thunks l _ at) at in
    from_Since s.thunk s.there s.grown
  where
    from_Since : (t : Thunk) → get_elem? h'.thunks l ≡ some t → Grown (int v) t.node → IntAt h' l v
    from_Since t there (same_node n) =
        (t.whnf, there ∙ ap (λ nd. some (record { node = nd; whnf = t.whnf })) n)
    from_Since t there (resolved n m) = cc

-- the new integer is its own value
value_lem :
    (j : ℕ) (h : Heap) (s : LsInt)
    → eval call (suc (suc j)) (some (length h.thunks)) [] (grow h (int s))
      ≡ done (some (length h.thunks)) (grow h (int s))
unfolding eval eval0 eval_node eval0_loaded is_bottom_node load known pure ◌>>=◌
value_lem j h s =
    let at =
      get_elem?-append_last h.thunks (record { node = int s; whnf = some (length h.thunks) }) in
    rw (at, known, and_then) (rw (at, known, and_then) refl)

abbrev pub func_of : Bool → ℕ
func_of minus = if minus then 1 else 0

abbrev pub op_of : Bool → LsInt → LsInt → LsInt
op_of minus = if minus then LsInt.sub else LsInt.add

-- the builtins `add` and `sub`, of two arguments and without attributes
abbrev pub arith_builtin : Bool → Builtin
arith_builtin minus = record {
  arity = 2;
  func = func_of minus;
  data_ptr = none;
  effect = false;
  env_access = false;
}

call_lem :
    (minus : Bool) (c : Calls) (a b : Ptr) (h h1 h2 : Heap) (l r : ℕ) (v w : LsInt)
    → c.eval0 a h ≡ done (some l) h1
    → IntAt h1 l v
    → c.eval0 b h1 ≡ done (some r) h2
    → IntAt h2 l v
    → IntAt h2 r w
    → call c (func_of minus) (a ∷ b ∷ []) none h
      ≡ done (some (length h2.thunks)) (grow h2 (int (op_of minus v w)))
unfolding call add sub
call_lem true c a b h h1 h2 l r v w =
    binary_lem (codes "sub") (λ v w. int (LsInt.sub v w)) c a b h h1 h2 l r v w
call_lem false c a b h h1 h2 l r v w =
    binary_lem (codes "add") (λ v w. int (LsInt.add v w)) c a b h h1 h2 l r v w

returned_lem :
    (j : ℕ) (h : Heap) (s : LsInt)
    → returned call
        (suc (suc j))
        (record { eval = eval call (suc (suc j)); eval0 = eval0 call (suc (suc j)) })
        (some (length h.thunks))
        []
        (grow h (int s))
      ≡ done (some (length h.thunks)) (grow h (int s))
unfolding returned is_bottom is_bottom_node load known pure ◌>>=◌
returned_lem j h s =
    let at =
      get_elem?-append_last h.thunks (record { node = int s; whnf = some (length h.thunks) }) in
    rw (at, known, and_then) (value_lem j h s)

-- The builtin `add` or `sub` is applied to two thunks. When the first evaluates to an integer, and
-- then the second does, both with the same fuel of at least two units, the application ends with one
-- unit more: its value is a new thunk with what `lsint_add` or `lsint_sub` gives for the two
-- integers, which for `lsint_sub` is not always their difference.
pub eval-arith :
    (minus : Bool) (j p : ℕ) (u : Ptr) (a b : Ptr) (h h1 h2 : Heap) (l r : ℕ) (v w : LsInt)
    → get_elem? h.thunks p ≡ some (record { node = builtin (arith_builtin minus); whnf = u })
    → eval0 call (suc (suc j)) a h ≡ done (some l) h1
    → IntAt h1 l v
    → eval0 call (suc (suc j)) b h1 ≡ done (some r) h2
    → IntAt h2 r w
    → eval call (suc (suc (suc j))) (some p) (a ∷ b ∷ []) h
      ≡ done (some (length h2.thunks)) (grow h2 (int (op_of minus v w)))
unfolding eval eval_node eval_applied eval_builtin apply_builtin returned is_bottom_node load known
    gets pure ◌>>=◌
eval-arith minus j p u a b h h1 h2 l r v w pt ea at eb bt =
    let c : Calls = record { eval = eval call (suc (suc j)); eval0 = eval0 call (suc (suc j)) } in
    let at2 = IntAt-eval0 (suc (suc j)) l b h1 h2 (some r) v eb at in
    let returned_as = λ (ret : Ptr). returned call (suc (suc j)) c ret [] in
    rw (pt, known, and_then)
      (ap (and_then returned_as) (call_lem minus c a b h h1 h2 l r v w ea at eb at2 bt)
        ∙ returned_lem j h2 (op_of minus v w))
