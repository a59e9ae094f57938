-- ===== src/Thunk/Bottom.antt =====
-- Bottoms of src/thunk/thunk.c: how they are made, merged and told apart.
pub mod Merge
use lazyscript.Prelude.{
  ℕ, zero, suc, Bool, true, false, ◌&&◌, ◌||◌, not, Option, none, some, List, [], ◌∷◌, ◌++◌, Bytes,
  codes, length, take, drop, same, ltb, ◌==◌, if◌then◌else◌,
}
use lazyscript.Thunk.Heap.{
  Ptr, Pat, Param, Builtin, Node, alge, appl, choice, lambda, ref, int, str, symbol, builtin,
  bottom, blank, Thunk, Target, bind_origin, lambda_origin, builtin_origin, M, Heap, ◌>>=◌, ◌>>◌,
  pure, fail, no_fuel, gets, load, alloc, alloc_whnf, set_whnf, set_node, get_bound, get_target,
}
use lazyscript.Runtime.Effects
use lazyscript.Thunk.Match.{is_bottom_node, is_bottom, clear_binds, match_pat}
use lazyscript.Thunk.Subst.{resolve, subst_param}

unfoldable pub new_value : Node → M Ptr
unfolding ◌>>=◌ pure alloc_whnf
new_value n = do q ← alloc_whnf n; pure (some q)

unfoldable pub new_bottom : Bytes → List Ptr → M Ptr
unfolding new_value
new_bottom msg args = new_value (bottom msg args)

-- the messages with "; " between them, when there are two
unfoldable pub join : Bytes → Bytes → Bytes
join [] b = b
join (x ∷ a) [] = x ∷ a
join (x ∷ a) (y ∷ b) = (x ∷ a) ++ (codes "; " ++ (y ∷ b))

-- two thunks that are no NULL pointers
unfoldable pub merge_nodes : ℕ → ℕ → Node → Node → M Ptr
unfolding pure join new_bottom
merge_nodes a b (bottom m xs) (bottom n ys) = new_bottom (join m n) (xs ++ ys)
merge_nodes a b (bottom m xs) _ = pure (some b)
merge_nodes a b _ _ = pure (some a)

unfoldable pub bottom_merge : Ptr → Ptr → M Ptr
unfolding ◌>>=◌ pure load merge_nodes
bottom_merge none b = pure b
bottom_merge (some a) none = pure (some a)
bottom_merge (some a) (some b) = do
  x ← load (some a)
  y ← load (some b)
  merge_nodes a b x.node y.node

abbrev pub lambda_match_failure : Bytes
lambda_match_failure = codes "lambda match failure"

-- `is_lambda_match_failure_err` at a node
unfoldable pub is_lambda_match_failure : Node → Bool
is_lambda_match_failure (bottom m xs) = same m lambda_match_failure
is_lambda_match_failure _ = false

-- How a result of the left arm is taken: NULL, a failure to match, another bottom, or a value.
pub data Verdict : Type 0 where
  null no_match other_bottom value : Verdict

unfoldable pub judge_node : Node → Verdict
unfolding is_lambda_match_failure
judge_node (bottom m xs) = if is_lambda_match_failure (bottom m xs) then no_match else other_bottom
judge_node _ = value

unfoldable pub judge : Ptr → M Verdict
unfolding ◌>>=◌ pure load judge_node
judge none = pure null
judge (some p) = do t ← load (some p); pure (judge_node t.node)
