-- ===== src/Runtime/Effects.antt =====
-- The guard of side effects, src/runtime/effects.c: its two variables are the state.
use lazyscript.Prelude.{
  ℕ, ◌+◌, ◌-◌, Bool, true, false, ◌&&◌, ◌||◌, not, ◌≡◌, refl, ap, ◌∙◌, List, [], ◌∷◌, ◌++◌, ltb,
  if◌then◌else◌, arith,
}

pub record State : Type 0 where
  pub strict : Bool
  pub depth : ℕ

unfoldable pub set_strict : Bool → State → State
set_strict on s = record s { strict = on }

unfoldable pub begin : State → State
begin s = if s.strict then record s { depth = s.depth + 1 } else s

unfoldable pub end : State → State
end s = if s.strict && ltb 0 s.depth then record s { depth = s.depth - 1 } else s

unfoldable pub allowed : State → Bool
allowed s = not s.strict || ltb 0 s.depth

-- The calls that a run of the interpreter makes.
pub data Call : Type 0 where
  enter leave : Call

unfoldable pub run : List Call → State → State
unfolding begin end
run [] s = s
run (enter ∷ w) s = run w (begin s)
run (leave ∷ w) s = run w (end s)

-- Each call of `begin` has its call of `end`.
pub data Balanced : List Call → Type 0 where
  empty : Balanced []
  nested : {w v : List Call} → Balanced w → Balanced v → Balanced (enter ∷ (w ++ leave ∷ v))

run-append : (w v : List Call) (s : State) → run (w ++ v) s ≡ run v (run w s)
unfolding run
run-append [] v s = refl
run-append (enter ∷ w) v s = run-append w v (begin s)
run-append (leave ∷ w) v s = run-append w v (end s)

end-begin_at :
    (b : Bool) (d : ℕ)
    → end (begin (record { strict = b; depth = d })) ≡ record { strict = b; depth = d }
unfolding end begin
end-begin_at true d =
    let counted : (ltb 0 (d + 1)) ≡ true = ground arith in
    let same_depth : d + 1 - 1 ≡ d = omega arith in rw (counted, same_depth)
end-begin_at false d = refl

pub end-begin : (s : State) → end (begin s) ≡ s
end-begin s = end-begin_at s.strict s.depth

-- Calls that are balanced leave the guard as it was.
pub run-Balanced : (w : List Call) (s : State) → Balanced w → run w s ≡ s
unfolding run
run-Balanced _ s empty = refl
run-Balanced _ s (nested {w} {v} bw bv) =
    run-append w (leave ∷ v) (begin s)
    ∙ ap (λ t. run v (end t)) (run-Balanced w (begin s) bw)
    ∙ ap (run v) (end-begin s)
    ∙ run-Balanced v s bv

allowed-begin : (s : State) → allowed (begin s) ≡ true
unfolding allowed begin
allowed-begin s = ground arith

run-enter : (w : List Call) (s : State) → run (enter ∷ w) s ≡ run w (begin s)
unfolding run
run-enter w s = refl

-- Between a call of `begin` and its call of `end` effects are allowed, and behind it they are allowed
-- as they were before.
pub allowed-nested :
    (w : List Call) (s : State)
    → Balanced w
    → (allowed (run (enter ∷ w) s) ≡ true)
      × (allowed (run (enter ∷ (w ++ leave ∷ [])) s) ≡ allowed s)
allowed-nested w s b = (
  ap allowed (run-enter w s ∙ run-Balanced w (begin s) b) ∙ allowed-begin s,
  ap allowed (run-Balanced (enter ∷ (w ++ leave ∷ [])) s (nested b empty)),
)
