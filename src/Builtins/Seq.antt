-- ===== src/Builtins/Seq.antt =====
-- The builtins that order effects, src/builtins/seq.c.
use lazyscript.Prelude.{ℕ, false, none, some, List, [], ◌∷◌, codes}
use lazyscript.Runtime.Effects
use lazyscript.Thunk.Heap.{Ptr, builtin, M, done, ◌>>=◌, ◌>>◌, pure, fail, alloc}
use lazyscript.Thunk.Bottom.{new_bottom}
use lazyscript.Thunk.Choice.{Calls}
use lazyscript.Builtins.Args.{eval_arg, unless_bottom}

unfoldable pub update_effects : (Effects.State → Effects.State) → M (Unit {0})
update_effects f h = done tt (record h { effects = f h.effects })

-- the second argument, behind a first one that is no bottom; the builtin is known by `seq_func`, and
-- `data_ptr` is LSSEQ_SIMPLE, which is 0, or LSSEQ_CHAIN
unfoldable pub second : ℕ → Calls → Ptr → Ptr → Ptr → M Ptr
unfolding ◌>>=◌ pure alloc new_bottom
second seq_func c none snd data_ptr = new_bottom (codes "seq: first eval") []
second seq_func c (some v) snd none = pure snd
second seq_func c (some v) snd (some d) = do
  b ←
      alloc
        (builtin (record {
          arity = 2;
          func = seq_func;
          data_ptr = some d;
          effect = false;
          env_access = false;
        }))
        none
  c.eval (some b) (snd ∷ [])

unfoldable pub seq : ℕ → Calls → List Ptr → Ptr → M Ptr
unfolding ◌>>=◌ fail update_effects Effects.begin Effects.end eval_arg unless_bottom second
seq seq_func c (fst ∷ snd ∷ rest) data_ptr = do
  update_effects Effects.begin
  v ← eval_arg c fst (codes "seq: first")
  update_effects Effects.end
  unless_bottom v (second seq_func c v snd data_ptr)
seq seq_func c _ data_ptr = fail
