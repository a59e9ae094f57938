-- ===== src/Builtins/Arith.antt =====
-- The builtins on integers, src/builtins/arith.c.
use lazyscript.Prelude.{
  Bool, true, false, some, List, [], ◌∷◌, ◌++◌, Bytes, codes, ltb, if◌then◌else◌,
}
use lazyscript.Prelude.Int.{ℤ, pos, negsuc}
use lazyscript.Common.LsInt.{LsInt}
use lazyscript.Common.LsInt
use lazyscript.Thunk.Heap.{Ptr, Node, int, alge, M, ◌>>=◌, fail, load}
use lazyscript.Thunk.Bottom.{new_value, new_bottom}
use lazyscript.Thunk.Choice.{Calls}
use lazyscript.Builtins.Args.{eval_arg, unless_bottom}

-- what is done with the nodes of two arguments: integers, or an error
unfoldable pub on_ints : Bytes → (LsInt → LsInt → Node) → Node → Node → M Ptr
unfolding new_value new_bottom
on_ints name op (int v) (int w) = new_value (op v w)
on_ints name op _ _ = new_bottom (name ++ codes ": invalid type") []

unfoldable pub on_values : Bytes → (LsInt → LsInt → Node) → Ptr → Ptr → M Ptr
unfolding ◌>>=◌ load new_bottom on_ints
on_values name op (some l) (some r) = do
  x ← load (some l)
  y ← load (some r)
  on_ints name op x.node y.node
on_values name op _ _ = new_bottom (name ++ codes ": arg eval") []

-- a builtin of two integers, with its name and the node of its result
unfoldable pub binary : Bytes → (LsInt → LsInt → Node) → Calls → List Ptr → M Ptr
unfolding ◌>>=◌ fail eval_arg unless_bottom on_values
binary name op c (a ∷ b ∷ rest) = do
  lhs ← eval_arg c a (name ++ codes ": arg1")
  unless_bottom lhs (do
    rhs ← eval_arg c b (name ++ codes ": arg2")
    unless_bottom rhs (on_values name op lhs rhs))
binary name op c _ = fail

unfoldable pub add : Calls → List Ptr → M Ptr
unfolding binary LsInt.add
add = binary (codes "add") (λ v w. int (LsInt.add v w))

unfoldable pub sub : Calls → List Ptr → M Ptr
unfolding binary LsInt.sub
sub = binary (codes "sub") (λ v w. int (LsInt.sub v w))

unfoldable pub less : ℤ → ℤ → Bool
less (pos a) (pos b) = ltb a b
less (pos a) (negsuc b) = false
less (negsuc a) (pos b) = true
less (negsuc a) (negsuc b) = ltb b a

abbrev pub truth : Bool → Node
truth b = alge (if b then codes "true" else codes "false") []

unfoldable pub lt : Calls → List Ptr → M Ptr
unfolding binary less LsInt.get
lt = binary (codes "lt") (λ v w. truth (less (LsInt.get v) (LsInt.get w)))
