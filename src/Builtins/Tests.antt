-- ===== src/Builtins/Tests.antt =====
-- Runs of the builtins of src/builtins at small heaps.
use lazyscript.Prelude.{ℕ, zero, suc, ◌≡◌, refl, true, none, some, [], ◌∷◌, get_elem?, arith}
use mathlib.Core.Path.{subst}
use lazyscript.Prelude.Int.{pos}
use lazyscript.Common.LsInt.{LsInt}
use lazyscript.Common.LsInt
use lazyscript.Runtime.Effects
use lazyscript.Thunk.Heap.{
  Node, int, builtin, Thunk, Heap, done, ◌>>=◌, pure, fail, no_fuel, gets, known, load, store,
  alloc, alloc_whnf, set_whnf,
}
use lazyscript.Thunk.Match.{is_bottom_node, is_bottom}
use lazyscript.Thunk.Bottom.{new_value, new_bottom}
use lazyscript.Thunk.Choice.{Calls}
use lazyscript.Thunk.Eval.{
  returned, apply_builtin, eval_builtin, eval_applied, eval_node, value_of, eval0_loaded, eval,
  eval0,
}
use lazyscript.Thunk.Heap.Keeps.{Since}
use lazyscript.Thunk.Build.Sound.{ThunkIn, sizes}
use lazyscript.Thunk.Build.Sound.Forms.{PtrIn}
use lazyscript.Thunk.Eval.Whole.{IsWhole, Kept}
use lazyscript.Thunk.Eval.Whole.Evaluator.{eval-Kept}
use lazyscript.Builtins.Whole.{call-Safe}
use lazyscript.Thunk.Eval.Keeps.{eval-Since}
use lazyscript.Builtins.Keeps.{call-Keep}
use lazyscript.Builtins.Args.{or_bottom, eval_arg, unless_bottom}
use lazyscript.Builtins.Arith.{on_ints, on_values, binary, add, sub}
use lazyscript.Builtins.Seq.{update_effects, second, seq}
use lazyscript.Builtins.Table.{call}
use lazyscript.Builtins.Sum.{grow, arith_builtin, eval-arith}
use lazyscript.Builtins.Order.{seq-effects}

evaluating : Unit {0}
unfolding ◌>>=◌ pure fail no_fuel gets known load store alloc alloc_whnf set_whnf is_bottom_node
    is_bottom new_value new_bottom returned apply_builtin eval_builtin eval_applied eval_node
    value_of eval0_loaded eval eval0 or_bottom eval_arg unless_bottom on_ints on_values binary add
    sub update_effects second seq call Effects.allowed Effects.begin Effects.end
evaluating = tt

abbrev thunk : Node → Thunk
thunk nd = record { node = nd; whnf = none }

abbrev two : LsInt
two = some (pos 2)

abbrev seven : LsInt
seven = some (pos 7)

-- 7, 2, and the builtin `sub`, where effects are forbidden
abbrev heap0 : Heap
heap0 = record {
  thunks = thunk (int seven) ∷ thunk (int two) ∷ thunk (builtin (arith_builtin true)) ∷ [];
  bounds = [];
  targets = [];
  envs = [];
  counters = [];
  effects = record { strict = true; depth = 0 };
}

-- after the evaluation of the first thunk, and of the second
abbrev heap1 : Heap
heap1 = record heap0 {
  thunks =
      record { node = int seven; whnf = some 0 }
      ∷ thunk (int two)
      ∷ thunk (builtin (arith_builtin true))
      ∷ [];
}

abbrev heap2 : Heap
heap2 = record heap0 {
  thunks =
      record { node = int seven; whnf = some 0 }
      ∷ record { node = int two; whnf = some 1 }
      ∷ thunk (builtin (arith_builtin true))
      ∷ [];
}

eval-arith_example :
    eval call 3 (some 2) (some 0 ∷ some 1 ∷ []) heap0
    ≡ done (some 3) (grow heap2 (int (LsInt.sub seven two)))
eval-arith_example =
    eval-arith true 0 2 none (some 0) (some 1) heap0 heap1 heap2 0 1 seven two refl
      (unfold evaluating in refl) (some 0, refl) (unfold evaluating in refl) (some 1, refl)

sub_run :
    eval call 3 (some 2) (some 0 ∷ some 1 ∷ []) heap0
    ≡ done (some 3) (grow heap2 (int (LsInt.sub seven two)))
unfolding evaluating
sub_run = refl

abbrev calls : Calls
calls = record { eval = eval call 2; eval0 = eval0 call 2 }

abbrev allowing : Heap
allowing = record heap1 { effects = record { strict = true; depth = 1 } }

seq-effects_example :
    (Effects.allowed (Effects.begin heap0.effects) ≡ true)
    × (seq 3 calls (some 0 ∷ some 1 ∷ []) none heap0 ≡ done (some 1) heap1)
seq-effects_example =
    seq-effects 3 calls (some 0) (some 1) heap0 allowing 0
      (record { node = int seven; whnf = some 0 }) (unfold evaluating in refl) refl
      (unfold evaluating in refl) (unfold evaluating in refl)

eval-Since_example : Since (builtin (arith_builtin true)) 2 (grow heap2 (int (LsInt.sub seven two)))
eval-Since_example =
    eval-Since call call-Keep 3 (some 2) (some 0 ∷ some 1 ∷ []) heap0
      (grow heap2 (int (LsInt.sub seven two))) (some 3) sub_run 2
      (thunk (builtin (arith_builtin true))) refl

heap0_thunk : (i : ℕ) (t : Thunk) → get_elem? heap0.thunks i ≡ some t → ThunkIn (sizes heap0) t
heap0_thunk zero t at =
    let d : thunk (int seven) ≡ t = cc (at) in
    subst (ThunkIn (sizes heap0)) d (record { node = tt; whnf = tt })
heap0_thunk (suc zero) t at =
    let d : thunk (int two) ≡ t = cc (at) in
    subst (ThunkIn (sizes heap0)) d (record { node = tt; whnf = tt })
heap0_thunk (suc (suc zero)) t at =
    let d : thunk (builtin (arith_builtin true)) ≡ t = cc (at) in
    subst (ThunkIn (sizes heap0)) d (record { node = tt; whnf = tt })
heap0_thunk (suc (suc (suc i))) t at = cc

heap0-IsWhole : IsWhole heap0
heap0-IsWhole = record {
  sound = record { thunks = heap0_thunk; targets = λ i t at. cc; envs = λ i e at. cc };
  bounds = λ c b at. cc;
}

eval-Kept_example : Kept PtrIn (sizes heap0) (some 3) (grow heap2 (int (LsInt.sub seven two)))
eval-Kept_example =
    eval-Kept call call-Safe 3 (some 2) (some 0 ∷ some 1 ∷ []) heap0
      (grow heap2 (int (LsInt.sub seven two))) (some 3) heap0-IsWhole (omega arith)
      (omega arith, (omega arith, tt)) sub_run
