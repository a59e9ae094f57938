-- ===== src/CoreIr/Lower/Monad.antt =====
-- The state of the lowering: the counter of `cir_gensym`.
use lazyscript.Prelude.{ℕ, ◌+◌, ◌++◌, Bytes}
use lazyscript.Prelude.Decimal.{show_ℕ}

abbrev pub Gen : Type 0 → Type 0
Gen A = ℕ → A × ℕ

infixl 5 ◌>>=◌
unfoldable pub ◌>>=◌ : {A B : Type 0} → Gen A → (A → Gen B) → Gen B
◌>>=◌ m f n = f ((m n).0) ((m n).1)

unfoldable pub pure : {A : Type 0} → A → Gen A
pure a n = (a, n)

-- the prefix with the number of the call
unfoldable pub gensym : Bytes → Gen Bytes
unfolding show_ℕ
gensym pfx n = (pfx ++ show_ℕ (n + 1), n + 1)
