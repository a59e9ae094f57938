-- ===== src/Builtins/Table.antt =====
-- The functions of src/builtins that a builtin's number stands for.
use lazyscript.Prelude.{ℕ, zero, suc, List}
use lazyscript.Thunk.Heap.{Ptr, M, fail}
use lazyscript.Thunk.Choice.{Calls}
use lazyscript.Builtins.Arith.{add, sub, lt}
use lazyscript.Builtins.Seq.{seq}

-- `lti_func`: lsbuiltin_add, lsbuiltin_sub, lsbuiltin_lt and lsbuiltin_seq
unfoldable pub call : Calls → ℕ → List Ptr → Ptr → M Ptr
unfolding fail add sub lt seq
call c zero args data_ptr = add c args
call c (suc zero) args data_ptr = sub c args
call c (suc (suc zero)) args data_ptr = lt c args
call c (suc (suc (suc zero))) args data_ptr = seq 3 c args data_ptr
call c (suc (suc (suc (suc f)))) args data_ptr = fail
