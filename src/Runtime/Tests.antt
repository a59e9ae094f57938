-- ===== src/Runtime/Tests.antt =====
-- Runs of the guard and of the table of modules, and their theorems at these.
use lazyscript.Prelude.{true, false, ◌||◌, ◌≡◌, refl, none, [], ◌∷◌, Bytes, codes, same, arith}
use lazyscript.Runtime.Effects.{
  State, enter, leave, run, allowed, Balanced, empty, nested, run-Balanced, allowed-nested,
}
use lazyscript.Runtime.Modules.{is_loaded, mark_loaded, unmade, is_loaded-mark_loaded}

abbrev strict_state : State
strict_state = record { strict = true; depth = 0 }

outside : allowed strict_state ≡ false
unfolding allowed
outside = refl

nested_twice : Balanced (enter ∷ leave ∷ enter ∷ leave ∷ [])
nested_twice = nested {w = []} empty (nested {w = []} {v = []} empty empty)

run-Balanced_example : run (enter ∷ leave ∷ enter ∷ leave ∷ []) strict_state ≡ strict_state
run-Balanced_example = run-Balanced (enter ∷ leave ∷ enter ∷ leave ∷ []) strict_state nested_twice

allowed-nested_example :
    (allowed (run (enter ∷ enter ∷ leave ∷ enter ∷ leave ∷ []) strict_state) ≡ true)
    × (allowed (run (enter ∷ enter ∷ leave ∷ enter ∷ leave ∷ leave ∷ []) strict_state)
        ≡ allowed strict_state)
allowed-nested_example =
    allowed-nested (enter ∷ leave ∷ enter ∷ leave ∷ []) strict_state nested_twice

abbrev path : Bytes
path = codes "a"

abbrev other : Bytes
other = codes "b"

is_loaded-mark_loaded_example :
    is_loaded (mark_loaded none path) other ≡ (same path other || is_loaded none other)
is_loaded-mark_loaded_example =
    is_loaded-mark_loaded (λ _. false) none path other (unmade (λ _. refl))
      (unfold mark_loaded in omega arith)
