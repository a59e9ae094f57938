-- ===== src/Builtins/Whole.antt =====
-- The builtins of src/builtins in whole heaps.
use lazyscript.Prelude.{ℕ, zero, suc, none, some, List, [], ◌∷◌, ◌++◌, Bytes, codes, ◌<◌, refl}
use lazyscript.Common.LsInt.{LsInt}
use lazyscript.Common.LsInt
use lazyscript.Runtime.Effects
use lazyscript.Thunk.Heap.{Ptr, Node, int, M}
use lazyscript.Thunk.Choice.{Calls}
use lazyscript.Thunk.Build.Sound.{Sizes, sizes, Grows, Grows-refl, NodeIn, ThunkIn}
use lazyscript.Thunk.Build.Sound.Monotone.{Within-mono}
use lazyscript.Thunk.Build.Sound.Writes.{IsSound-same}
use lazyscript.Thunk.Build.Sound.Marks.{Any}
use lazyscript.Thunk.Build.Sound.Forms.{PtrIn, PtrsIn}
use lazyscript.Thunk.Eval.Whole.{leaves, Safe, Safe-bind, Safe-fail, Safe-bool}
use lazyscript.Thunk.Eval.Whole.Actions.{Safe-load, Safe-alloc}
use lazyscript.Thunk.Eval.Whole.Match.{Safe-is_bottom}
use lazyscript.Thunk.Eval.Whole.Choices.{IsSafe, Safe-ptr, Safe-new_value, Safe-new_bottom}
use lazyscript.Thunk.Eval.Whole.References.{BuiltinsSafe}
use lazyscript.Builtins.Args.{or_bottom, eval_arg, unless_bottom}
use lazyscript.Builtins.Arith.{less, truth, on_ints, on_values, binary, add, sub, lt}
use lazyscript.Builtins.Seq.{update_effects, second, seq}
use lazyscript.Builtins.Table.{call}

Safe-or_bottom : (s : Sizes) (msg : Bytes) (v : Ptr) → PtrIn s v → Safe s PtrIn (or_bottom msg v)
unfolding or_bottom
Safe-or_bottom s msg none w = Safe-new_bottom s msg [] tt
Safe-or_bottom s msg (some v) w = Safe-ptr s (some v) w

-- a value that is a bottom, or what follows in a heap that has grown
Safe-unless_bottom :
    (s : Sizes) (v : Ptr) (rest : M Ptr)
    → PtrIn s v
    → ((t : Sizes) → Grows s t → Safe t PtrIn rest)
    → Safe s PtrIn (unless_bottom v rest)
unfolding unless_bottom
Safe-unless_bottom s v rest w k =
    Safe-bind s Any _ _ _ (Safe-is_bottom s v w)
      (λ b t g _. Safe-bool t _ b _ _ (Safe-ptr t v (Within-mono _ _ v g.thunks w)) (k t g))

module _ (name : Bytes) (op : LsInt → LsInt → Node)
    (fits : (s : Sizes) (v w : LsInt) → NodeIn s (op v w)) where
  Safe-on_int : (s : Sizes) (v : LsInt) (y : Node) → Safe s PtrIn (on_ints name op (int v) y)
  unfolding on_ints
  Safe-on_int s v (int w) = Safe-new_value s (op v w) (fits s v w)
  Safe-on_int s v _ = Safe-new_bottom s (name ++ codes ": invalid type") [] tt

  Safe-on_ints : (s : Sizes) (x y : Node) → Safe s PtrIn (on_ints name op x y)
  unfolding on_ints
  Safe-on_ints s (int v) y = Safe-on_int s v y
  Safe-on_ints s _ y = Safe-new_bottom s (name ++ codes ": invalid type") [] tt

  Safe-on_values :
      (s : Sizes) (l r : Ptr) → PtrIn s l → PtrIn s r → Safe s PtrIn (on_values name op l r)
  unfolding on_values
  Safe-on_values s (some l) (some r) w v =
      Safe-bind s ThunkIn _ _ _ (Safe-load s (some l) w) (λ x t g _.
        Safe-bind t ThunkIn _ _ _ (Safe-load t (some r) (Within-mono _ _ (some r) g.thunks v))
          (λ y u k _. Safe-on_ints u x.node y.node))
  Safe-on_values s none r w v = Safe-new_bottom s (name ++ codes ": arg eval") [] tt
  Safe-on_values s (some l) none w v = Safe-new_bottom s (name ++ codes ": arg eval") [] tt

Safe-update_effects :
    (s : Sizes) (f : Effects.State → Effects.State) → Safe s Any (update_effects f)
unfolding update_effects
Safe-update_effects s f = record {
  at = λ h k g. leaves (record {
    whole = record {
      sound = IsSound-same h k.sound _ (Grows-refl (sizes h)) refl refl refl;
      bounds = k.bounds;
    };
    grown = Grows-refl (sizes h);
    value = tt;
  });
}

module _ (c : Calls) (safe : IsSafe c) where
  Safe-eval_arg :
      (s : Sizes) (arg : Ptr) (msg : Bytes) → PtrIn s arg → Safe s PtrIn (eval_arg c arg msg)
  unfolding eval_arg
  Safe-eval_arg s arg msg w =
      Safe-bind s PtrIn _ _ _ (safe.evaluates0 s arg w) (λ v t g x. Safe-or_bottom t msg v x)

  Safe-binary :
      (name : Bytes) (op : LsInt → LsInt → Node)
      → ((s : Sizes) (v w : LsInt) → NodeIn s (op v w))
      → (s : Sizes) (args : List Ptr) → PtrsIn s args
      → Safe s PtrIn (binary name op c args)
  unfolding binary
  Safe-binary name op fits s [] w = Safe-fail s _
  Safe-binary name op fits s (a ∷ []) w = Safe-fail s _
  Safe-binary name op fits s (a ∷ b ∷ rest) (wa, (wb, ws)) =
      Safe-bind s PtrIn _ _ _ (Safe-eval_arg s a _ wa) (λ lhs t g x.
        Safe-unless_bottom t lhs _ x (λ u k.
          Safe-bind u PtrIn _ _ _
            (Safe-eval_arg u b _ (Within-mono _ _ b k.thunks (Within-mono _ _ b g.thunks wb)))
            (λ rhs y gy z. Safe-unless_bottom y rhs _ z (λ a ga.
              Safe-on_values name op fits a lhs rhs
                (Within-mono _ _ lhs ga.thunks
                  (Within-mono _ _ lhs gy.thunks (Within-mono _ _ lhs k.thunks x)))
                (Within-mono _ _ rhs ga.thunks z)))))

  Safe-second :
      (s : Sizes) (k : ℕ) (v snd d : Ptr) → PtrIn s snd → Safe s PtrIn (second k c v snd d)
  unfolding second
  Safe-second s k none snd d w = Safe-new_bottom s (codes "seq: first eval") [] tt
  Safe-second s k (some v) snd none w = Safe-ptr s snd w
  Safe-second s k (some v) snd (some d) w =
      Safe-bind s (λ t q. q < t.thunks) _ _ _ (Safe-alloc s _ none tt tt)
        (λ q t g x. safe.evaluates t (some q) (snd ∷ []) x (Within-mono _ _ snd g.thunks w, tt))

  Safe-seq :
      (s : Sizes) (k : ℕ) (args : List Ptr) (d : Ptr)
      → PtrsIn s args
      → Safe s PtrIn (seq k c args d)
  unfolding seq
  Safe-seq s k [] d w = Safe-fail s _
  Safe-seq s k (fst ∷ []) d w = Safe-fail s _
  Safe-seq s k (fst ∷ snd ∷ rest) d (wf, (ws, _)) =
      Safe-bind s Any _ _ _ (Safe-update_effects s Effects.begin) (λ _ t g _.
        Safe-bind t PtrIn _ _ _
          (Safe-eval_arg t fst (codes "seq: first") (Within-mono _ _ fst g.thunks wf))
          (λ v u k' x. Safe-bind u Any _ _ _ (Safe-update_effects u Effects.end) (λ _ y gy _.
            Safe-unless_bottom y v _ (Within-mono _ _ v gy.thunks x) (λ z gz.
              Safe-second z k v snd d (
                Within-mono _ _ snd gz.thunks (
                  Within-mono _ _ snd gy.thunks
                    (Within-mono _ _ snd k'.thunks (Within-mono _ _ snd g.thunks ws))))))))

pub call-Safe : BuiltinsSafe call
unfolding call add sub lt
call-Safe c safe s zero args d w =
    Safe-binary c safe (codes "add") (λ v w. int (LsInt.add v w)) (λ s v w. tt) s args w
call-Safe c safe s (suc zero) args d w =
    Safe-binary c safe (codes "sub") (λ v w. int (LsInt.sub v w)) (λ s v w. tt) s args w
call-Safe c safe s (suc (suc zero)) args d w =
    Safe-binary c safe (codes "lt") (λ v w. truth (less (LsInt.get v) (LsInt.get w))) (λ s v w. tt)
      s args w
call-Safe c safe s (suc (suc (suc zero))) args d w = Safe-seq c safe s 3 args d w
call-Safe c safe s (suc (suc (suc (suc f)))) args d w = Safe-fail s _
