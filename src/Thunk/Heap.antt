-- ===== src/Thunk/Heap.antt =====
-- The objects of src/thunk/thunk.c, src/thunk/tpat.c and src/thunk/tenv.c in a heap, and the actions
-- on it. A pointer is `none` for NULL, and otherwise the place of its object. Locations, traces and
-- messages to stderr are left out. Strings are interned, so that they are compared by their bytes.
pub mod Steps
pub mod Keeps
pub mod Reads
pub mod Rules
use lazyscript.Prelude.{
  ℕ, zero, suc, ◌+◌, Bool, true, false, Option, none, some, List, [], ◌∷◌, ◌++◌, Bytes, get_elem?,
  set, length, same, if◌then◌else◌,
}
use lazyscript.Common.LsInt.{LsInt}
use lazyscript.Runtime.Effects

abbrev pub Ptr : Type 0
Ptr = Option ℕ

mutual
  -- A pattern is a tree. A reference has the place of its binding, `r.bound`, which other
  -- references of the name share; the reference of an as-pattern is one too.
  pub data Pat : Type 0 where
    alge : Bytes → Pats → Pat
    as_pat : ℕ → Pat → Pat
    int : LsInt → Pat
    str : Bytes → Pat
    ref : ℕ → Pat
    wildcard : Pat
    or_pat : Pat → Pat → Pat
    caret : Pat → Pat

  pub data Pats : Type 0 where
    no_pats : Pats
    pat : Pat → Pats → Pats

-- A pattern with its address.
pub record Param : Type 0 where
  pub address : ℕ
  pub pattern_of : Pat

-- `lstbuiltin_t`; the function is known by a number
pub record Builtin : Type 0 where
  pub arity : ℕ
  pub func : ℕ
  pub data_ptr : Ptr
  pub effect : Bool
  pub env_access : Bool

-- The union in `struct lsthunk`; `blank` is memory that is not yet filled.
pub data Node : Type 0 where
  alge : Bytes → List Ptr → Node
  appl : Ptr → List Ptr → Node
  choice : Ptr → Ptr → ℕ → Node
  lambda : Param → Ptr → Node
  ref : Bytes → Option ℕ → Option ℕ → Node
  int : LsInt → Node
  str symbol : Bytes → Node
  builtin : Builtin → Node
  bottom : Bytes → List Ptr → Node
  blank : Node

pub record Thunk : Type 0 where
  pub node : Node
  pub whnf : Ptr

-- `lstref_target_origin_t`
pub data Origin : Type 0 where
  bind_origin : Pat → Ptr → Origin
  lambda_origin : ℕ → Origin
  builtin_origin : ℕ → Origin

-- `lstref_target_t`: the pattern is a reference, by the place of its binding
pub record Target : Type 0 where
  pub origin : Origin
  pub cell : ℕ

-- `lscounter_t`
pub record Counter : Type 0 where
  pub nwarn : ℕ
  pub nerror : ℕ
  pub nfatal : ℕ

-- `lstenv_t`, with the entries from the head; an environment shares the counter of its parent
pub record Env : Type 0 where
  pub refs : List (Bytes × ℕ)
  pub counter : ℕ
  pub parent : Option ℕ

pub record Heap : Type 0 where
  pub thunks : List Thunk
  pub bounds : List Ptr
  pub targets : List Target
  pub envs : List Env
  pub counters : List Counter
  pub effects : Effects.State

-- How an action ends: with a value, in a failed assertion or a read through NULL, or not within
-- the fuel.
pub data Outcome (A : Type 0) : Type 0 where
  done : A → Heap → Outcome A
  fault out_of_fuel : Outcome A

abbrev pub M : Type 0 → Type 0
M A = Heap → Outcome A

abbrev pub and_then : {A B : Type 0} → (A → M B) → Outcome A → Outcome B
and_then f (done a h) = f a h
and_then f fault = fault
and_then f out_of_fuel = out_of_fuel

infixl 5 ◌>>=◌ ◌>>◌
unfoldable pub ◌>>=◌ : {A B : Type 0} → M A → (A → M B) → M B
◌>>=◌ m f h = and_then f (m h)

abbrev pub ◌>>◌ : {A B : Type 0} → M A → M B → M B
m >> k = m >>= λ _. k

unfoldable pub pure : {A : Type 0} → A → M A
pure a h = done a h

unfoldable pub fail : {A : Type 0} → M A
fail h = fault

unfoldable pub no_fuel : {A : Type 0} → M A
no_fuel h = out_of_fuel

unfoldable pub gets : {A : Type 0} → (Heap → A) → M A
gets f h = done (f h) h

-- what a pointer or a place leads to
unfoldable pub known : {A : Type 0} → Option A → M A
known none h = fault
known (some a) h = done a h

unfoldable pub load : Ptr → M Thunk
unfolding known
load none h = fault
load (some p) h = known (get_elem? h.thunks p) h

-- a write to a place where an object stands
abbrev pub write_at : {A : Type 0} → List A → ℕ → A → (List A → Heap) → Outcome (Unit {0})
write_at xs i v put_back = elim (get_elem? xs i) [
  | none ↦ fault
  | some _ ↦ done tt (put_back (set xs i v))
]

unfoldable pub store : ℕ → Thunk → M (Unit {0})
store p t h = write_at h.thunks p t (λ xs. record h { thunks = xs })

unfoldable pub alloc : Node → Ptr → M ℕ
alloc n w h =
    done (length h.thunks) (record h { thunks = h.thunks ++ (record { node = n; whnf = w } ∷ []) })

-- a node that points to itself as its value
unfoldable pub alloc_whnf : Node → M ℕ
alloc_whnf n h =
    let p = length h.thunks in
    done p (record h { thunks = h.thunks ++ (record { node = n; whnf = some p } ∷ []) })

unfoldable pub set_whnf : ℕ → Ptr → M (Unit {0})
unfolding ◌>>=◌ load store
set_whnf p w = do t ← load (some p); store p (record t { whnf = w })

unfoldable pub set_node : ℕ → Node → M (Unit {0})
unfolding ◌>>=◌ load store
set_node p n = do t ← load (some p); store p (record t { node = n })

unfoldable pub get_bound : ℕ → M Ptr
unfolding known
get_bound c h = known (get_elem? h.bounds c) h

unfoldable pub set_bound : ℕ → Ptr → M (Unit {0})
set_bound c v h = write_at h.bounds c v (λ xs. record h { bounds = xs })

unfoldable pub get_target : ℕ → M Target
unfolding known
get_target i h = known (get_elem? h.targets i) h

unfoldable pub get_env : ℕ → M Env
unfolding known
get_env i h = known (get_elem? h.envs i) h

-- `lstpat_new_ref`: a new place for a binding, which is empty
unfoldable pub new_cell : M ℕ
new_cell h = done (length h.bounds) (record h { bounds = h.bounds ++ none ∷ [] })

-- `lstref_target_new`
unfoldable pub new_target : Origin → ℕ → M ℕ
new_target o c h =
    done (length h.targets)
      (record h { targets = h.targets ++ (record { origin = o; cell = c } ∷ []) })
