-- ===== src/Thunk/Build/Sound/Monotone.antt =====
-- What is in range in sound heaps, when there are more objects.
use lazyscript.Prelude.{ℕ, ◌≤◌, ◌<◌, Option, none, some, List, [], ◌∷◌, All, arith}
use lazyscript.Thunk.Heap.{
  Ptr, Pat, Node, alge, appl, choice, lambda, ref, int, str, symbol, builtin, bottom, blank, Thunk,
  Origin, bind_origin, lambda_origin, builtin_origin, Target, Env,
}
use lazyscript.Thunk.Build.Pattern.{ref_cells}
use lazyscript.Thunk.Build.Sound.{
  Sizes, Grows, Within, PatIn, NodeIn, ThunkIn, OriginIn, TargetIn, EnvIn,
}

-- What is in range stays in range.
pub Within-mono : (m n : ℕ) (p : Option ℕ) → m ≤ n → Within m p → Within n p
Within-mono m n none le w = tt
Within-mono m n (some p) le w = omega (arith, le, w)

pub All-mono : (m n : ℕ) (ps : List Ptr) → m ≤ n → All (Within m) ps → All (Within n) ps
All-mono m n [] le w = tt
All-mono m n (p ∷ ps) le (w, ws) = (Within-mono m n p le w, All-mono m n ps le ws)

pub below_mono : (m n : ℕ) (cs : List ℕ) → m ≤ n → All (λ c. c < m) cs → All (λ c. c < n) cs
below_mono m n [] le w = tt
below_mono m n (c ∷ cs) le (w, ws) = (omega (arith, le, w), below_mono m n cs le ws)

module _ (s t : Sizes) (g : Grows s t) where
  pub PatIn-mono : (p : Pat) → PatIn s p → PatIn t p
  PatIn-mono p w = below_mono _ _ (ref_cells p) g.bounds w

  pub NodeIn-mono : (n : Node) → NodeIn s n → NodeIn t n
  NodeIn-mono (alge c ps) w = All-mono _ _ ps g.thunks w
  NodeIn-mono (appl f ps) (w, ws) = (Within-mono _ _ f g.thunks w, All-mono _ _ ps g.thunks ws)
  NodeIn-mono (choice l r k) (w, v) = (Within-mono _ _ l g.thunks w, Within-mono _ _ r g.thunks v)
  NodeIn-mono (lambda param body) (w, v) =
      (PatIn-mono param.pattern_of w, Within-mono _ _ body g.thunks v)
  NodeIn-mono (ref name env target) (w, v) =
      (Within-mono _ _ env g.envs w, Within-mono _ _ target g.targets v)
  NodeIn-mono (int v) w = tt
  NodeIn-mono (str v) w = tt
  NodeIn-mono (symbol v) w = tt
  NodeIn-mono (builtin b) w = tt
  NodeIn-mono (bottom m ps) w = All-mono _ _ ps g.thunks w
  NodeIn-mono blank w = tt

  pub ThunkIn-mono : (u : Thunk) → ThunkIn s u → ThunkIn t u
  ThunkIn-mono u w = record {
    node = NodeIn-mono u.node w.node;
    whnf = Within-mono _ _ u.whnf g.thunks w.whnf;
  }

  pub OriginIn-mono : (o : Origin) → OriginIn s o → OriginIn t o
  OriginIn-mono (bind_origin p rhs) (w, v) = (PatIn-mono p w, Within-mono _ _ rhs g.thunks v)
  OriginIn-mono (lambda_origin a) w = tt
  OriginIn-mono (builtin_origin b) w = omega (arith, g.thunks, w)

  pub TargetIn-mono : (u : Target) → TargetIn s u → TargetIn t u
  TargetIn-mono u w = record {
    origin = OriginIn-mono u.origin w.origin;
    cell = omega (arith, g.bounds, w.cell);
  }

  pub EnvIn-mono : (i : ℕ) (e : Env) → EnvIn s i e → EnvIn t i e
  EnvIn-mono i e w = record {
    older = w.older;
    refs = λ name j at. let lt = w.refs name j at in omega (arith, g.targets, lt);
    counter = omega (arith, g.counters, w.counter);
  }
