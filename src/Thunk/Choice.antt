-- ===== src/Thunk/Choice.antt =====
-- Evaluation of a choice, `lsthunk_eval_choice` of src/thunk/thunk.c.
pub mod Keeps
use lazyscript.Prelude.{
  ℕ, zero, suc, Bool, true, false, ◌&&◌, ◌||◌, not, Option, none, some, List, [], ◌∷◌, ◌++◌, Bytes,
  codes, length, take, drop, same, ltb, ◌==◌, if◌then◌else◌,
}
use lazyscript.Thunk.Heap.{
  Ptr, Pat, Param, Builtin, Node, alge, appl, choice, lambda, ref, int, str, symbol, builtin,
  bottom, blank, Thunk, Target, bind_origin, lambda_origin, builtin_origin, M, Heap, ◌>>=◌, ◌>>◌,
  pure, fail, no_fuel, gets, load, alloc, alloc_whnf, set_whnf, set_node, get_bound, get_target,
}
use lazyscript.Runtime.Effects
use lazyscript.Thunk.Match.{is_bottom_node, is_bottom, clear_binds, match_pat}
use lazyscript.Thunk.Subst.{resolve, subst_param}
use lazyscript.Thunk.Bottom.{
  new_value, new_bottom, bottom_merge, judge, Verdict, null, no_match, other_bottom, value,
  lambda_match_failure,
}

-- The two functions that evaluate, as the functions below call them.
pub record Calls : Type 0 where
  pub eval : Ptr → List Ptr → M Ptr
  pub eval0 : Ptr → M Ptr

module _ (c : Calls) where
  -- the right arm, after a failure `left` of the left one
  unfoldable pub fall_back : Ptr → Ptr → List Ptr → M Ptr
  unfolding ◌>>=◌ pure is_bottom bottom_merge
  fall_back left r args = do
    right ← c.eval r args
    b ← is_bottom right
    elim b [ true ↦ bottom_merge left right | false ↦ pure right ]

  unfoldable pub choice_lambda : Ptr → Ptr → Ptr → List Ptr → M Ptr
  unfolding ◌>>=◌ pure judge fall_back
  choice_lambda l r arg args = do
    left1 ← c.eval l (arg ∷ [])
    v ← judge left1
    elim v [
      | null ↦ c.eval r (arg ∷ args)
      | no_match ↦ fall_back left1 r (arg ∷ args)
      | other_bottom ↦ pure left1
      | value ↦ c.eval left1 args
    ]

  unfoldable pub choice_catch : Ptr → Ptr → List Ptr → M Ptr
  unfolding ◌>>=◌ pure judge new_bottom
  choice_catch l r args = do
    left ← c.eval l args
    v ← judge left
    elim v [
      | null ↦ do b ← new_bottom (codes "null") []; c.eval r (b ∷ [])
      | no_match ↦ c.eval r (left ∷ [])
      | other_bottom ↦ c.eval r (left ∷ [])
      | value ↦ pure left
    ]

  unfoldable pub choice_default : ℕ → Ptr → Ptr → List Ptr → M Ptr
  unfolding ◌>>=◌ pure judge fall_back
  choice_default k l r args = do
    left ← c.eval l args
    v ← judge left
    elim v [
      | null ↦ c.eval r args
      | no_match ↦ fall_back left r args
      | other_bottom ↦ elim (k == 1) [ true ↦ pure left | false ↦ fall_back left r args ]
      | value ↦ pure left
    ]

  unfoldable pub eval_choice : Ptr → Ptr → ℕ → List Ptr → M Ptr
  unfolding choice_lambda choice_catch choice_default
  eval_choice l r k [] = if k == 3 then choice_catch l r [] else choice_default k l r []
  eval_choice l r k (arg ∷ args) =
      if k == 1
      then choice_lambda l r arg args
      else if k == 3
      then choice_catch l r (arg ∷ args)
      else choice_default k l r (arg ∷ args)
