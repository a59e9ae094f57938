-- ===== src/Thunk/Env.antt =====
-- Environments of names, src/thunk/tenv.c.
pub mod Lookup
pub mod Update
use lazyscript.Prelude.{
  ℕ, zero, suc, ◌+◌, Bool, true, false, Option, none, some, List, [], ◌∷◌, ◌++◌, Bytes, get_elem?,
  set, length, same, if◌then◌else◌,
}
use lazyscript.Thunk.Heap.{
  Ptr, Heap, Env, Counter, Node, Origin, builtin, builtin_origin, M, Outcome, done, fault,
  out_of_fuel, ◌>>=◌, ◌>>◌, pure, gets, known, no_fuel, get_env, alloc, new_cell, new_target,
  write_at,
}

-- the walk along the entries
unfoldable pub find : Bytes → List (Bytes × ℕ) → Option ℕ
find name [] = none
find name ((x, target) ∷ refs) = if same x name then some target else find name refs

-- the target of an entry is replaced, or an entry is added at the tail
unfoldable pub put_entry : Bytes → ℕ → List (Bytes × ℕ) → List (Bytes × ℕ)
put_entry name target [] = (name, target) ∷ []
put_entry name target ((x, old) ∷ refs) =
    if same x name then (x, target) ∷ refs else (x, old) ∷ put_entry name target refs

unfoldable pub store_env : ℕ → Env → M (Unit {0})
store_env i e h = write_at h.envs i e (λ es. record h { envs = es })

unfoldable pub new_counter : M ℕ
new_counter h =
    done (length h.counters)
      (record h { counters = h.counters ++ (record { nwarn = 0; nerror = 0; nfatal = 0 } ∷ []) })

unfoldable pub add_env : Env → M ℕ
add_env e h = done (length h.envs) (record h { envs = h.envs ++ e ∷ [] })

unfoldable pub counter_for : Option ℕ → M ℕ
unfolding ◌>>=◌ new_counter get_env pure
counter_for none = new_counter
counter_for (some p) = do e ← get_env p; pure e.counter

unfoldable pub new : Option ℕ → M ℕ
unfolding ◌>>=◌ counter_for add_env
new parent = do c ← counter_for parent; add_env (record { refs = []; counter = c; parent = parent })

unfoldable pub get_self : ℕ → Bytes → M (Option ℕ)
unfolding ◌>>=◌ find get_env pure
get_self env name = do e ← get_env env; pure (find name e.refs)

-- Each call goes to a parent; as many calls as there are environments are enough.
unfoldable pub get_within : ℕ → ℕ → Bytes → M (Option ℕ)
unfolding ◌>>=◌ find get_env pure no_fuel
get_within zero env name = no_fuel
get_within (suc fuel) env name = do
  e ← get_env env
  elim (find name e.refs) [
    | some target ↦ pure (some target)
    | none ↦ elim e.parent [ none ↦ pure none | some p ↦ get_within fuel p name ]
  ]

unfoldable pub get : ℕ → Bytes → M (Option ℕ)
unfolding ◌>>=◌ get_within gets
get env name = do n ← gets (λ h. length h.envs); get_within n env name

unfoldable pub put : ℕ → Bytes → ℕ → M (Unit {0})
unfolding ◌>>=◌ get_env put_entry store_env
put env name target = do
  e ← get_env env
  store_env env (record e { refs = put_entry name target e.refs })

unfoldable pub update_counter : ℕ → (Counter → Counter) → M (Unit {0})
unfolding ◌>>=◌ get_env known
update_counter env f = do
  e ← get_env env
  c ← λ h. known (get_elem? h.counters e.counter) h
  λ h. write_at h.counters e.counter (f c) (λ cs. record h { counters = cs })

unfoldable pub incr_nwarnings : ℕ → M (Unit {0})
unfolding update_counter
incr_nwarnings env = update_counter env (λ c. record c { nwarn = c.nwarn + 1 })

unfoldable pub incr_nerrors : ℕ → M (Unit {0})
unfolding update_counter
incr_nerrors env = update_counter env (λ c. record c { nerror = c.nerror + 1 })

unfoldable pub incr_nfatals : ℕ → M (Unit {0})
unfolding update_counter
incr_nfatals env = update_counter env (λ c. record c { nfatal = c.nfatal + 1 })

unfoldable pub get_counter : ℕ → M Counter
unfolding ◌>>=◌ get_env known
get_counter env = do e ← get_env env; λ h. known (get_elem? h.counters e.counter) h

-- the attributes of the builtin are LSBATTR_PURE, that is none
unfoldable pub put_builtin : ℕ → Bytes → ℕ → ℕ → Ptr → M (Unit {0})
unfolding ◌>>=◌ alloc new_cell new_target put
put_builtin env name arity func data_ptr = do
  t ←
      alloc
        (builtin (record {
          arity = arity;
          func = func;
          data_ptr = data_ptr;
          effect = false;
          env_access = false;
        }))
        none
  c ← new_cell
  target ← new_target (builtin_origin t) c
  put env name target
