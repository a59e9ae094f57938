-- ===== src/Prelude/Decimal.antt =====
-- What printf writes for %d and %lld.
use Prim.Native.Nat.{ℕ, zero, suc, ◌+◌, ◌/◌, ◌%◌}
use mathlib.Core.List.{[], ◌∷◌}
use lazyscript.Prelude.Tests.{ltb, if◌then◌else◌}
use lazyscript.Prelude.Lists.{Bytes}
use lazyscript.Prelude.Int.{ℤ, pos, negsuc}

-- The digits of `n` in front of `acc`; a fuel above `n` is enough, as each round divides by ten.
unfoldable pub digits_onto : ℕ → ℕ → Bytes → Bytes
digits_onto zero n acc = acc
digits_onto (suc fuel) n acc =
    let here = (b'0' + n % 10) ∷ acc in
    let rest = digits_onto fuel (n / 10) here in if ltb n 10 then here else rest

unfoldable pub show_ℕ : ℕ → Bytes
unfolding digits_onto
show_ℕ n = digits_onto (suc n) n []

unfoldable pub show_ℤ : ℤ → Bytes
unfolding show_ℕ
show_ℤ (pos n) = show_ℕ n
show_ℤ (negsuc n) = b'-' ∷ show_ℕ (suc n)
