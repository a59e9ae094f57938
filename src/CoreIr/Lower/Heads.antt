-- ===== src/CoreIr/Lower/Heads.antt =====
-- The heads that the lowering of an application looks for: `ifthenelse`, and members of the prelude
-- such as (~prelude .env .sym), whose parts are grouped in one of two ways.
use lazyscript.Prelude.{
  Bool, false, Option, none, some, ◌∷◌, [], Bytes, codes, same, ◌==◌, if◌then◌else◌,
}
use lazyscript.Ast.Syntax.{Expr, no_exprs, expr, alge, appl, ref, symbol}

-- A string of the syntax tree as a C string, which ends at its first NUL byte.
unfoldable pub c_string : Bytes → Bytes
c_string [] = []
c_string (b ∷ s) = let rest = c_string s in if b == 0 then [] else b ∷ rest

-- the name without a dot in front
unfoldable pub after_dot : Bytes → Bytes
after_dot [] = []
after_dot (b ∷ s) = if b == 46 then s else b ∷ s

unfoldable pub is_ifthenelse : Expr → Bool
unfolding c_string
is_ifthenelse (ref r) = same (c_string r) (codes "ifthenelse")
is_ifthenelse _ = false

unfoldable pub is_prelude : Expr → Bool
unfolding c_string
is_prelude (ref r) = same (c_string r) (codes "prelude")
is_prelude _ = false

-- a symbol, or a constructor without arguments
unfoldable pub atom : Expr → Option Bytes
unfolding c_string
atom (symbol s) = some (c_string s)
atom (alge c no_exprs) = some (c_string c)
atom _ = none

abbrev is_env_name : Option Bytes → Bool
is_env_name none = false
is_env_name (some s) = same s (codes ".env")

unfoldable pub is_env : Expr → Bool
unfolding atom
is_env e = is_env_name (atom e)

abbrev without_dot : Option Bytes → Option Bytes
without_dot none = none
without_dot (some s) = some (after_dot s)

unfoldable pub dotted : Expr → Option Bytes
unfolding atom after_dot
dotted e = without_dot (atom e)

-- a function applied to `.env`
unfoldable pub is_env_call : Expr → Bool
unfolding is_env
is_env_call (appl f (expr k no_exprs)) = is_env k
is_env_call _ = false

-- the one argument of the reference `prelude`
unfoldable pub member_sym : Expr → Option Bytes
unfolding is_env_call dotted c_string
member_sym (ref r) = some (c_string r)
member_sym (alge c no_exprs) = some (c_string c)
member_sym (appl f (expr a no_exprs)) = if is_env_call f then dotted a else none
member_sym _ = none

-- (~prelude .env)
unfoldable pub is_prelude_env : Expr → Bool
unfolding is_prelude is_env
is_prelude_env (appl f (expr k no_exprs)) = if is_prelude f then is_env k else false
is_prelude_env _ = false

-- the member that the function of an application names
unfoldable pub prelude_sym : Expr → Option Bytes
unfolding is_prelude member_sym is_prelude_env dotted
prelude_sym (appl f (expr a no_exprs)) =
    if is_prelude f then member_sym a else if is_prelude_env f then dotted a else none
prelude_sym _ = none
