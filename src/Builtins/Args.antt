-- ===== src/Builtins/Args.antt =====
-- The arguments of a builtin, `ls_eval_arg` of src/runtime/error.h.
use lazyscript.Prelude.{true, false, none, some, [], Bytes}
use lazyscript.Thunk.Heap.{Ptr, M, ◌>>=◌, pure}
use lazyscript.Thunk.Match.{is_bottom}
use lazyscript.Thunk.Bottom.{new_bottom}
use lazyscript.Thunk.Choice.{Calls}

unfoldable pub or_bottom : Bytes → Ptr → M Ptr
unfolding pure new_bottom
or_bottom msg none = new_bottom msg []
or_bottom msg (some v) = pure (some v)

unfoldable pub eval_arg : Calls → Ptr → Bytes → M Ptr
unfolding ◌>>=◌ or_bottom
eval_arg c arg msg = do v ← c.eval0 arg; or_bottom msg v

-- a bottom is returned, and otherwise the block goes on
unfoldable pub unless_bottom : Ptr → M Ptr → M Ptr
unfolding ◌>>=◌ pure is_bottom
unless_bottom v rest = do b ← is_bottom v; elim b [ true ↦ pure v | false ↦ rest ]
