-- ===== src/Thunk/Build/Whole.antt =====
-- Programs that are built and evaluated, from a heap without bound variables.
use lazyscript.Prelude.{ℕ, ◌<◌, ◌≡◌, none, some, List, length, sym, Bytes}
use mathlib.Core.Path.{subst}
use lazyscript.Ast.Syntax.{Expr}
use lazyscript.Thunk.Heap.{Ptr, Heap, M, Outcome, done, fault, out_of_fuel, pure}
use lazyscript.Thunk.Heap.Steps.{bind-done}
use lazyscript.Thunk.Choice.{Calls}
use lazyscript.Thunk.Eval.Whole.{IsWhole, Kept, Leaves-done, Safe-option}
use lazyscript.Thunk.Eval.Whole.Choices.{Safe-ptr}
use lazyscript.Thunk.Eval.Whole.References.{BuiltinsSafe}
use lazyscript.Thunk.Eval.Whole.Evaluator.{Safe-eval0}
use lazyscript.Thunk.Build.Pattern.{Marks}
use lazyscript.Thunk.Build.{new_expr, prog_eval}
use lazyscript.Thunk.Build.Sound.{sizes, Grows-refl, Grows-trans, Within, IsSound, Returns, returns}
use lazyscript.Thunk.Build.Sound.Forms.{PtrIn}
use lazyscript.Thunk.Build.Sound.Expressions.{Quiet, new_expr-Returns}
use lazyscript.Thunk.Build.Clean.{IsClean}
use lazyscript.Thunk.Build.Clean.Expressions.{Clean-new_expr}
use lazyscript.Thunk.Build.Stays.{linked}

Fits-Returns :
    {A : Type 0} {P : A → Heap → Type 0} (o : Outcome A) (a : A) (h : Heap)
    → Returns P o
    → o ≡ done a h
    → P a h
Fits-Returns {P = P} (done b k) a h (returns p) e =
    let d : b ≡ a = cc (e) in let q : k ≡ h = cc (e) in subst (λ x. P x h) d (subst (P b) q p)
Fits-Returns fault a h r e = elim r [ ]
Fits-Returns out_of_fuel a h r e = elim r [ ]

-- a sound heap in which nothing is bound
pub IsClean-IsWhole : (h : Heap) → IsSound h → IsClean h.bounds → IsWhole h
IsClean-IsWhole h k empty = record {
  sound = k;
  bounds = λ c b at. subst (Within (length h.thunks)) (sym (empty c b at)) tt;
}

-- In a heap where every pointer leads to an object, each environment is younger than its parent and
-- every binding is empty, and where the functions of the builtins keep a heap so, with values that
-- are NULL or thunks of it, a program without a raise is built and evaluated. When this ends, every
-- pointer leads to an object again, those in bindings included, each environment is younger than its
-- parent, no object has gone, and the value is NULL or a thunk of the heap.
pub prog_eval-Kept :
    (call : Calls → ℕ → List Ptr → Ptr → M Ptr) (deep_print : Ptr → M Bytes)
    → BuiltinsSafe call
    → (fuel : ℕ) (marks : Marks) (e : Expr) (env : ℕ) (h h' : Heap) (r : Ptr) → Quiet e
    → IsSound h
    → IsClean h.bounds
    → env < length h.envs
    → prog_eval (linked call fuel deep_print marks) e env h ≡ done r h'
    → Kept PtrIn (sizes h) r h'
unfolding prog_eval
prog_eval-Kept call deep_print builtins fuel marks e env h h' r q k empty lt eq =
    let c = linked call fuel deep_print marks in
    let s = bind-done (new_expr c e env) _ h r h' eq in
    let built = Fits-Returns _ s.value s.between (new_expr-Returns c e env h q k lt) s.first in
    let clean = (Clean-new_expr c e q env).at h s.value s.between s.first empty in
    let here = sizes (s.between) in
    let runs =
      Safe-option here PtrIn s.value (pure none) (λ p. c.eval0 (some p))
        (λ _. Safe-ptr here none tt)
        (λ p d. Safe-eval0 call builtins fuel here (some p) (subst (PtrIn here) d built.value)) in
    let kept =
      Leaves-done _ r h'
        (runs.at s.between (IsClean-IsWhole s.between built.sound clean) (Grows-refl here))
        s.second in
    record {
      whole = kept.whole;
      grown = Grows-trans (sizes h) here (sizes h') built.grown kept.grown;
      value = kept.value;
    }
