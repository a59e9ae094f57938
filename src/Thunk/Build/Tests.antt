-- ===== src/Thunk/Build/Tests.antt =====
-- Programs that are built, and evaluated, in a small heap.
use mathlib.Core.Path.{subst}
use lazyscript.Prelude.{
  zero, suc, arith, get_elem?, ◌<◌, Option, ℕ, ◌≡◌, refl, false, some, none, List, [], ◌∷◌, Bytes,
  codes, same,
}
use lazyscript.Prelude.Int.{pos}
use lazyscript.Ast.Pattern.{or_pat, alge, cons, nil}
use lazyscript.Ast.Pattern
use lazyscript.Ast
use lazyscript.Ast.Syntax.{Expr, appl, lambda, int, ref, expr, no_exprs}
use lazyscript.Thunk.Heap.{
  Ptr, Heap, Thunk, Node, Outcome, lambda_origin, done, fault, out_of_fuel, M, ◌>>=◌, pure, fail,
  no_fuel, gets, known, load, store, alloc, alloc_whnf, set_whnf, set_node, get_bound, set_bound,
  get_target, get_env, new_cell, new_target,
}
use lazyscript.Thunk.Heap
use lazyscript.Thunk.Heap.Keeps.{Since}
use lazyscript.Thunk.Heap.Rules.{Keeps-pure}
use lazyscript.Thunk.Env.{
  find, put_entry, store_env, get_self, get_within, get, put, new, new_counter, counter_for,
  add_env, update_counter, incr_nerrors,
}
use lazyscript.Thunk.Match.{is_bottom_node, is_bottom, clear_binds, match_ref, match_pat}
use lazyscript.Thunk.Subst.{
  resolve, subst_lookup, captured, subst_args, subst_node, subst_param_rec, subst_param,
}
use lazyscript.Thunk.Bottom.{new_value, new_bottom}
use lazyscript.Thunk.Choice
use lazyscript.Thunk.Eval.{
  leave_lambda, enter_lambda, eval_lambda, returned, returned0, apply_builtin, eval_builtin,
  force_origin, eval_target, eval_ref, eval_applied, eval_node, value_of, eval0_loaded, eval, eval0,
}
use lazyscript.Thunk.Eval.Keeps.{BuiltinsKeep}
use lazyscript.Thunk.Build.Pattern.{
  Marks, ref_cells, names, mark_present, any_present, clear_mark, mark_clear, mark_used, mark_right,
  around, both, reuse_cell, reuse_pat, cleared, or_right, new_ref_pat, new_pat,
}
use lazyscript.Thunk.Build.{new_args, new_eappl, new_ref, new_elambda, new_expr, prog_eval}
use lazyscript.Thunk.Build.Sound.{sizes, ThunkIn, EnvIn, IsSound, Returns, Fits}
use lazyscript.Thunk.Build.Sound.Forms.{PtrIn}
use lazyscript.Thunk.Build.Sound.Expressions.{Quiet, new_expr-Returns}
use lazyscript.Thunk.Build.Stays.{linked, prog_eval-Since}
use lazyscript.Thunk.Build.Clean.{IsClean}
use lazyscript.Thunk.Build.Whole.{prog_eval-Kept}
use lazyscript.Thunk.Eval.Whole.{Kept}
use lazyscript.Thunk.Eval.Whole.Choices.{Safe-ptr}
use lazyscript.Thunk.Eval.Whole.References.{BuiltinsSafe}
use lazyscript.Thunk.Build.Clean.Patterns.{new_pat-IsClean}

evaluating : Unit {0}
unfolding ◌>>=◌ pure fail no_fuel gets known load store alloc alloc_whnf set_whnf set_node get_bound
    set_bound get_target get_env new_cell new_target find put_entry store_env get_self get_within
    get put new new_counter counter_for add_env update_counter incr_nerrors is_bottom_node is_bottom
    clear_binds match_ref match_pat resolve subst_lookup captured subst_args subst_node
    subst_param_rec subst_param new_value new_bottom leave_lambda enter_lambda eval_lambda returned
    returned0 apply_builtin eval_builtin force_origin eval_target eval_ref eval_applied eval_node
    value_of eval0_loaded eval eval0 ref_cells names mark_present any_present clear_mark mark_clear
    mark_used mark_right around both reuse_cell reuse_pat cleared or_right new_ref_pat new_pat
    new_args new_eappl new_ref new_elambda new_expr prog_eval same
evaluating = tt

-- one thunk, and one environment without entries
abbrev start : Heap
start = record {
  thunks = record { node = Node.int (some (pos 7)); whnf = none } ∷ [];
  bounds = [];
  targets = [];
  envs = record { refs = []; counter = 0; parent = none } ∷ [];
  counters = record { nwarn = 0; nerror = 0; nfatal = 0 } ∷ [];
  effects = record { strict = false; depth = 0 };
}

abbrev heap_of : {A : Type 0} → Outcome A → Heap
heap_of (done a h) = h
heap_of fault = start
heap_of out_of_fuel = start

abbrev marks : Marks
marks = record { present = 1_000; used = 1_001 }

abbrev x_ref : Ast.Pattern.Pat
x_ref = Pattern.ref (codes "x")

-- `Some ~x | ~x`
abbrev some_or_x : Ast.Pattern.Pat
some_or_x = or_pat (alge (codes "Some") (cons x_ref nil)) x_ref

abbrev shared : Heap.Pat
shared = Heap.or_pat (Heap.alge (codes "Some") (Heap.pat (Heap.ref 0) Heap.no_pats)) (Heap.ref 0)

shared_run :
    new_pat marks some_or_x 0 (lambda_origin 0) start
    ≡ done (some shared) (heap_of (new_pat marks some_or_x 0 (lambda_origin 0) start))
unfolding evaluating
shared_run = refl

new_pat-IsClean_example :
    IsClean (heap_of (new_pat marks some_or_x 0 (lambda_origin 0) start)).bounds
new_pat-IsClean_example =
    new_pat-IsClean marks some_or_x 0 (lambda_origin 0) start _ (some shared) (λ i v e. cc)
      shared_run

-- `~x@_ | ~x`
abbrev as_or_x : Ast.Pattern.Pat
as_or_x = or_pat (Pattern.as_pat (codes "x") Pattern.wildcard) x_ref

as_refused :
    new_pat marks as_or_x 0 (lambda_origin 0) start
    ≡ done none (heap_of (new_pat marks as_or_x 0 (lambda_origin 0) start))
unfolding evaluating
as_refused = refl

-- builtins that give NULL
abbrev no_builtins : Choice.Calls → ℕ → List Ptr → Ptr → M Ptr
no_builtins c f args d = pure none

no_builtins-Keep : BuiltinsKeep no_builtins
no_builtins-Keep c k n f args d = Keeps-pure n none

abbrev no_text : Ptr → M Bytes
no_text t = pure []

-- `(\~x -> ~x) 5`
abbrev identity : Expr
identity = appl (lambda x_ref (ref (codes "x"))) (expr (int (some (pos 5))) no_exprs)

abbrev run : Outcome Ptr
run = prog_eval (linked no_builtins 10 no_text marks) identity 0 start

run_ends : run ≡ done (some 3) (heap_of run)
unfolding evaluating
run_ends = refl

prog_eval-Since_example : Since (Node.int (some (pos 7))) 0 (heap_of run)
prog_eval-Since_example =
    prog_eval-Since no_builtins no_text no_builtins-Keep (λ n t. Keeps-pure n []) 10 marks identity
      0 start (heap_of run) (some 3) run_ends 0
      (record { node = Node.int (some (pos 7)); whnf = none }) refl

start_thunk : (i : ℕ) (t : Heap.Thunk) → get_elem? start.thunks i ≡ some t → ThunkIn (sizes start) t
start_thunk zero t at =
    let only : Heap.Thunk = record { node = Node.int (some (pos 7)); whnf = none } in
    let d : only ≡ t = cc (at) in subst (ThunkIn (sizes start)) d (record { node = tt; whnf = tt })
start_thunk (suc i) t at = cc

no_parent : (p : ℕ) → ◌≡◌ {A = Option ℕ} none (some p) → p < 0
no_parent p up = cc

no_name : (name : Bytes) (t : ℕ) → find name [] ≡ some t → ⊥
unfolding find
no_name name t found = cc

start_env : (i : ℕ) (e : Heap.Env) → get_elem? start.envs i ≡ some e → EnvIn (sizes start) i e
start_env zero e at =
    let only : Heap.Env = record { refs = []; counter = 0; parent = none } in
    let d : only ≡ e = cc (at) in
    subst (EnvIn (sizes start) 0) d (record {
      older = λ p up. no_parent p up;
      refs = λ name t found. absurd (no_name name t found);
      counter = omega arith;
    })
start_env (suc i) e at = cc

start-IsSound : IsSound start
unfolding find
start-IsSound = record { thunks = start_thunk; targets = λ i t at. cc; envs = start_env }

new_expr-Returns_example :
    Returns
      (Fits PtrIn (sizes start))
      (new_expr (linked no_builtins 10 no_text marks) identity 0 start)
unfolding Quiet
new_expr-Returns_example =
    new_expr-Returns (linked no_builtins 10 no_text marks) identity 0 start (tt, (tt, tt))
      start-IsSound (omega arith)

no_builtins-Safe : BuiltinsSafe no_builtins
no_builtins-Safe c safe s f args d w = Safe-ptr s none tt

prog_eval-Kept_example : Kept PtrIn (sizes start) (some 3) (heap_of run)
unfolding Quiet
prog_eval-Kept_example =
    prog_eval-Kept no_builtins no_text no_builtins-Safe 10 marks identity 0 start (heap_of run)
      (some 3) (tt, (tt, tt)) start-IsSound (λ i v e. cc) (omega arith) run_ends
