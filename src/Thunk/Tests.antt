-- ===== src/Thunk/Tests.antt =====
-- Runs of the evaluator of src/thunk at small heaps.
use lazyscript.Prelude.{
  ℕ, zero, suc, ◌<◌, ◌≡◌, refl, true, false, ◌&&◌, Option, none, some, List, [], ◌∷◌, codes,
  get_elem?, ltb, same, ◌==◌, if◌then◌else◌, arith,
}
use lazyscript.Common.LsInt.{LsInt, eq}
use lazyscript.Prelude.Int.{pos}
use lazyscript.Runtime.Effects
use lazyscript.Thunk.Heap.{
  Ptr, Pat, no_pats, pat, Param, Node, alge, appl, lambda, ref, bottom, Thunk, lambda_origin, Env,
  Heap, M, Outcome, done, fault, out_of_fuel, ◌>>=◌, pure, fail, no_fuel, gets, known, load, store,
  alloc, alloc_whnf, set_whnf, set_node, get_bound, set_bound, get_target, get_env,
}
use lazyscript.Thunk.Env.{
  find, put_entry, store_env, get_self, get_within, get, put, new, new_counter, counter_for,
  add_env,
}
use lazyscript.Thunk.Env.Lookup.{WellParented, Nearest, get-Nearest}
use lazyscript.Thunk.Env.Update.{put-get_self}
use lazyscript.Thunk.Match.{
  is_bottom_node, is_bottom, clear_binds, clear_all, count_pats, match_ref, match_caught,
  match_constr, match_pat, match_all,
}
use lazyscript.Thunk.Match.Clear.{binds, Emptied, clear_binds-Emptied}
use lazyscript.Thunk.Match.Shallow.{match_pat-shallow}
use lazyscript.Thunk.Subst.{
  resolve, subst_lookup, captured, subst_args, subst_node, subst_param_rec, subst_param,
}
use lazyscript.Thunk.Bottom.{
  new_value, new_bottom, join, merge_nodes, bottom_merge, is_lambda_match_failure, judge_node,
  judge,
}
use lazyscript.Thunk.Choice.{
  Calls, fall_back, choice_lambda, choice_catch, choice_default, eval_choice,
}
use lazyscript.Thunk.Eval.{
  leave_lambda, enter_lambda, eval_lambda, returned, returned0, apply_builtin, eval_builtin,
  force_origin, eval_target, eval_ref, eval_applied, eval_node, value_of, eval0_loaded, eval, eval0,
}
use lazyscript.Thunk.Eval.Memo.{eval0_again}
use lazyscript.Thunk.Eval.Lambda.{eval_lambda-clears}

-- builtins that give NULL
abbrev no_builtins : Calls → ℕ → List Ptr → Ptr → M Ptr
no_builtins c f args d = pure none

abbrev heap_of : {A : Type 0} → Outcome A → Heap
heap_of (done a h) = h
heap_of fault = record {
  thunks = [];
  bounds = [];
  targets = [];
  envs = [];
  counters = [];
  effects = record { strict = false; depth = 0 };
}
heap_of out_of_fuel = record {
  thunks = [];
  bounds = [];
  targets = [];
  envs = [];
  counters = [];
  effects = record { strict = false; depth = 0 };
}

abbrev five : LsInt
five = some (pos 5)

abbrev thunk : Node → Thunk
thunk nd = record { node = nd; whnf = none }

abbrev x_param : Param
x_param = record { address = 0; pattern_of = Pat.ref 0 }

-- 5, the reference ~x, \~x -> ~x, and its application to 5
abbrev id_heap : Heap
id_heap = record {
  thunks =
      thunk (Node.int five)
      ∷ thunk (ref (codes "x") none (some 0))
      ∷ thunk (lambda x_param (some 1))
      ∷ thunk (appl (some 2) (some 0 ∷ []))
      ∷ [];
  bounds = none ∷ [];
  targets = record { origin = lambda_origin 0; cell = 0 } ∷ [];
  envs = [];
  counters = [];
  effects = record { strict = false; depth = 0 };
}

-- all that the runs below compute with
evaluating : Unit {0}
unfolding eq same ◌>>=◌ pure fail no_fuel gets known load store alloc alloc_whnf set_whnf set_node
    get_bound set_bound get_target get_env find put_entry store_env get_self get_within get put new
    new_counter counter_for add_env is_bottom_node is_bottom clear_binds clear_all count_pats
    match_ref match_caught match_constr match_pat match_all resolve subst_lookup captured subst_args
    subst_node subst_param_rec subst_param new_value new_bottom join merge_nodes bottom_merge
    is_lambda_match_failure judge_node judge fall_back choice_lambda choice_catch choice_default
    eval_choice leave_lambda enter_lambda eval_lambda returned returned0 apply_builtin eval_builtin
    force_origin eval_target eval_ref eval_applied eval_node value_of eval0_loaded eval eval0
    Effects.allowed
evaluating = tt

abbrev id_run : Outcome Ptr
id_run = eval0 no_builtins 10 (some 3) id_heap

id_gives_five : id_run ≡ done (some 0) (heap_of id_run)
unfolding evaluating
id_gives_five = refl

eval0_again_example : eval0 no_builtins 1 (some 3) (heap_of id_run) ≡ done (some 0) (heap_of id_run)
eval0_again_example = eval0_again no_builtins 10 0 3 0 id_heap (heap_of id_run) id_gives_five

abbrev lambda_calls : Calls
lambda_calls = record { eval = eval no_builtins 8; eval0 = eval0 no_builtins 8 }

abbrev lambda_run : Outcome Ptr
lambda_run = eval_lambda no_builtins 8 lambda_calls x_param (some 1) (some 0 ∷ []) id_heap

lambda_gives_five : lambda_run ≡ done (some 0) (heap_of lambda_run)
unfolding evaluating
lambda_gives_five = refl

eval_lambda-clears_example : get_elem? (heap_of lambda_run).bounds 0 ≡ some none
eval_lambda-clears_example =
    eval_lambda-clears no_builtins 8 lambda_calls x_param (some 1) (some 0 ∷ []) id_heap
      (heap_of lambda_run) (some 0) lambda_gives_five 0 (unfold binds in refl)

-- ~a@(~b | ~a), with three bindings in the heap
abbrev both_pattern : Pat
both_pattern = Pat.as_pat 0 (Pat.or_pat (Pat.ref 1) (Pat.ref 0))

abbrev bound_heap : Heap
bound_heap = record id_heap { bounds = some 0 ∷ some 1 ∷ some 2 ∷ [] }

both_allocated : (i : ℕ) → binds both_pattern i ≡ true → ltb i 3 ≡ true
unfolding binds
both_allocated i e = ground arith

clear_binds-Emptied_example :
    (h' : Heap) × (clear_binds both_pattern bound_heap ≡ done tt h')
    × Emptied (binds both_pattern) bound_heap h'
clear_binds-Emptied_example = clear_binds-Emptied both_pattern bound_heap both_allocated

-- (C 2), and the pattern (C 1)
abbrev constr_heap : Heap
constr_heap = record id_heap {
  thunks = thunk (Node.int (some (pos 2))) ∷ thunk (alge (codes "C") (some 0 ∷ [])) ∷ [];
}

abbrev one_pattern : Pat
one_pattern = Pat.alge (codes "C") (pat (Pat.int (some (pos 1))) no_pats)

abbrev constr_heap' : Heap
constr_heap' = heap_of (match_pat (eval0 no_builtins 5) one_pattern (some 1) constr_heap)

wrong_match :
    match_pat (eval0 no_builtins 5) one_pattern (some 1) constr_heap ≡ done true constr_heap'
unfolding evaluating
wrong_match = refl

match_pat-shallow_example : true ≡ (same (codes "C") (codes "C") && 1 == 1)
unfolding count_pats
match_pat-shallow_example =
    match_pat-shallow (eval0 no_builtins 5) (codes "C") (pat (Pat.int (some (pos 1))) no_pats)
      (some 1) constr_heap constr_heap' constr_heap' true 1 (some 1) (codes "C") (some 0 ∷ [])
      (unfold evaluating in refl) (unfold evaluating in refl) wrong_match

-- an environment with ~x, and in it one with ~y
abbrev outer_env : Env
outer_env = record { refs = (codes "x", 7) ∷ []; counter = 0; parent = none }

abbrev inner_env : Env
inner_env = record { refs = (codes "y", 8) ∷ []; counter = 0; parent = some 0 }

abbrev env_heap : Heap
env_heap = record id_heap { envs = outer_env ∷ inner_env ∷ [] }

env_heap_older :
    (i p : ℕ) (e : Env) → get_elem? env_heap.envs i ≡ some e → e.parent ≡ some p → p < i
env_heap_older zero p e at up = cc
env_heap_older (suc zero) p e at up =
    let same_env : inner_env ≡ e = cc in let first : ◌≡◌ {A = ℕ} 0 p = cc in omega (arith, first)
env_heap_older (suc (suc i)) p e at up = cc

env_heap-WellParented : WellParented env_heap
env_heap-WellParented = record { older = env_heap_older }

get-Nearest_example :
    (o : Option ℕ) × (get 1 (codes "x") env_heap ≡ done o env_heap)
    × Nearest env_heap (codes "x") 1 o
get-Nearest_example = get-Nearest env_heap 1 (codes "x") env_heap-WellParented (omega arith)

found_outside : get 1 (codes "x") env_heap ≡ done (some 7) env_heap
unfolding evaluating
found_outside = refl

abbrev put_heap : Heap
put_heap = heap_of (put 1 (codes "x") 9 env_heap)

put_ends : put 1 (codes "x") 9 env_heap ≡ done tt put_heap
unfolding evaluating
put_ends = refl

abbrev nine : Option ℕ
nine = some 9

put-get_self_example : nine ≡ (if 1 == 1 && same (codes "x") (codes "x") then nine else none)
put-get_self_example =
    put-get_self 1 1 (codes "x") (codes "x") 9 env_heap put_heap none (some 9) put_ends
      (unfold evaluating in refl) (unfold evaluating in refl)

abbrev new_heap : Heap
new_heap = heap_of (new (some 1) env_heap)

abbrev made_env : ℕ → Env
made_env c = record { refs = []; counter = c; parent = some 1 }

new_ends : new (some 1) env_heap ≡ done 2 new_heap
unfolding evaluating
new_ends = refl

-- three bottoms, the second with no message
abbrev bottoms : Heap
bottoms = record id_heap {
  thunks =
      thunk (bottom (codes "a") (some 0 ∷ []))
      ∷ thunk (bottom [] (some 1 ∷ []))
      ∷ thunk (bottom (codes "c") [])
      ∷ [];
}

both_reported : join (codes "a") (join [] (codes "c")) ≡ codes "a; c"
unfolding join
both_reported = refl
