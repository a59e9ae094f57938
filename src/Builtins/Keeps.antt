-- ===== src/Builtins/Keeps.antt =====
-- The nodes of the thunks under the builtins of src/builtins.
use lazyscript.Prelude.{ℕ, zero, suc, none, some, List, [], ◌∷◌, ◌++◌, Bytes, codes}
use lazyscript.Common.LsInt.{LsInt}
use lazyscript.Common.LsInt
use lazyscript.Runtime.Effects
use lazyscript.Thunk.Heap.{Ptr, Node, int, M}
use lazyscript.Thunk.Heap.Keeps.{Keeps, Stays-same}
use lazyscript.Thunk.Heap.Rules.{
  Keeps-pure, Keeps-fail, Keeps-bool, Keeps-bind, Keeps-load, Keeps-alloc,
}
use lazyscript.Thunk.Match.Keeps.{Keeps-is_bottom}
use lazyscript.Thunk.Choice.{Calls}
use lazyscript.Thunk.Choice.Keeps.{Keeping, Keeps-new_value, Keeps-new_bottom}
use lazyscript.Thunk.Eval.Keeps.{BuiltinsKeep}
use lazyscript.Builtins.Args.{or_bottom, eval_arg, unless_bottom}
use lazyscript.Builtins.Arith.{less, truth, on_ints, on_values, binary, add, sub, lt}
use lazyscript.Builtins.Seq.{update_effects, second, seq}
use lazyscript.Builtins.Table.{call}

module _ (n : ℕ) where
  Keeps-or_bottom : (msg : Bytes) (v : Ptr) → Keeps n (or_bottom msg v)
  unfolding or_bottom
  Keeps-or_bottom msg none = Keeps-new_bottom n msg []
  Keeps-or_bottom msg (some v) = Keeps-pure n (some v)

  Keeps-unless_bottom : (v : Ptr) (rest : M Ptr) → Keeps n rest → Keeps n (unless_bottom v rest)
  unfolding unless_bottom
  Keeps-unless_bottom v rest k =
      Keeps-bind n _ _ (Keeps-is_bottom n v) (λ b. Keeps-bool n b _ _ (Keeps-pure n v) k)

  Keeps-on_int :
      (name : Bytes) (op : LsInt → LsInt → Node) (v : LsInt) (y : Node)
      → Keeps n (on_ints name op (int v) y)
  unfolding on_ints
  Keeps-on_int name op v (int w) = Keeps-new_value n (op v w)
  Keeps-on_int name op v _ = Keeps-new_bottom n (name ++ codes ": invalid type") []

  Keeps-on_ints :
      (name : Bytes) (op : LsInt → LsInt → Node) (x y : Node) → Keeps n (on_ints name op x y)
  unfolding on_ints
  Keeps-on_ints name op (int v) y = Keeps-on_int name op v y
  Keeps-on_ints name op _ y = Keeps-new_bottom n (name ++ codes ": invalid type") []

  Keeps-on_values :
      (name : Bytes) (op : LsInt → LsInt → Node) (l r : Ptr) → Keeps n (on_values name op l r)
  unfolding on_values
  Keeps-on_values name op (some l) (some r) =
      Keeps-bind n _ _ (Keeps-load n (some l))
        (λ x. Keeps-bind n _ _ (Keeps-load n (some r)) (λ y. Keeps-on_ints name op x.node y.node))
  Keeps-on_values name op none r = Keeps-new_bottom n (name ++ codes ": arg eval") []
  Keeps-on_values name op (some l) none = Keeps-new_bottom n (name ++ codes ": arg eval") []

  Keeps-update_effects : (f : Effects.State → Effects.State) → Keeps n (update_effects f)
  unfolding update_effects
  Keeps-update_effects f = record { at = λ h a h' le e. Stays-same n h h' (cc) }

  module _ (c : Calls) (keeping : Keeping c) where
    Keeps-eval_arg : (arg : Ptr) (msg : Bytes) → Keeps n (eval_arg c arg msg)
    unfolding eval_arg
    Keeps-eval_arg arg msg = Keeps-bind n _ _ (keeping.evaluates0 n arg) (Keeps-or_bottom msg)

    Keeps-binary :
        (name : Bytes) (op : LsInt → LsInt → Node) (args : List Ptr)
        → Keeps n (binary name op c args)
    unfolding binary
    Keeps-binary name op [] = Keeps-fail n
    Keeps-binary name op (a ∷ []) = Keeps-fail n
    Keeps-binary name op (a ∷ b ∷ rest) = Keeps-bind n _ _ (Keeps-eval_arg a _) (λ lhs.
        Keeps-unless_bottom lhs _ (
          Keeps-bind n _ _ (Keeps-eval_arg b _)
            (λ rhs. Keeps-unless_bottom rhs _ (Keeps-on_values name op lhs rhs))))

    Keeps-second : (k : ℕ) (v snd d : Ptr) → Keeps n (second k c v snd d)
    unfolding second
    Keeps-second k none snd d = Keeps-new_bottom n (codes "seq: first eval") []
    Keeps-second k (some v) snd none = Keeps-pure n snd
    Keeps-second k (some v) snd (some d) =
        Keeps-alloc n _ none _ (λ q le. keeping.evaluates n (some q) (snd ∷ []))

    Keeps-seq : (k : ℕ) (args : List Ptr) (d : Ptr) → Keeps n (seq k c args d)
    unfolding seq
    Keeps-seq k [] d = Keeps-fail n
    Keeps-seq k (fst ∷ []) d = Keeps-fail n
    Keeps-seq k (fst ∷ snd ∷ rest) d = Keeps-bind n _ _ (Keeps-update_effects Effects.begin) (λ _.
        Keeps-bind n _ _ (Keeps-eval_arg fst (codes "seq: first")) (λ v.
          Keeps-bind n _ _ (Keeps-update_effects Effects.end)
            (λ _. Keeps-unless_bottom v _ (Keeps-second k v snd d))))

pub call-Keep : BuiltinsKeep call
unfolding call add sub lt
call-Keep c keeping n zero args d =
    Keeps-binary n c keeping (codes "add") (λ v w. int (LsInt.add v w)) args
call-Keep c keeping n (suc zero) args d =
    Keeps-binary n c keeping (codes "sub") (λ v w. int (LsInt.sub v w)) args
call-Keep c keeping n (suc (suc zero)) args d =
    Keeps-binary n c keeping (codes "lt") (λ v w. truth (less (LsInt.get v) (LsInt.get w))) args
call-Keep c keeping n (suc (suc (suc zero))) args d = Keeps-seq n c keeping 3 args d
call-Keep c keeping n (suc (suc (suc (suc f)))) args d = Keeps-fail n
