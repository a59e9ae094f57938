-- ===== src/CoreIr/Runtime.antt =====
-- Runtime values, environments and the printers of values, of src/coreir/cir_eval_runtime.c.
use lazyscript.Prelude.{
  ℕ, zero, suc, Bool, true, false, ◌||◌, Option, none, some, List, [], ◌∷◌, ◌++◌, Bytes, codes,
  same, if◌then◌else◌,
}
use lazyscript.Prelude.Int.{ℤ, pos}
use lazyscript.Prelude.Decimal.{show_ℕ, show_ℤ}
use lazyscript.CoreIr.Syntax.{Expr}

-- A count beside an array (`argc`, `capc`) is the length of the list.
mutual
  pub data Rv : Type 0 where
    int : ℤ → Rv
    str : Bytes → Rv
    unit token : Rv
    lam : Bytes → Expr → Env → Rv
    symbol : Bytes → Rv
    natfun : Bytes → ℕ → Rvs → Rv
    constr : Bytes → Rvs → Rv
    bottom : Bytes → BotArgs → Rv

  pub data Rvs : Type 0 where
    nil : Rvs
    cons : Rv → Rvs → Rvs

  -- The array that a bottom points to: one that is there, or one of so many elements on the stack of
  -- a call that has returned.
  pub data BotArgs : Type 0 where
    array : Rvs → BotArgs
    gone : ℕ → BotArgs

  -- the linked list of `env_bind`, the newest binding first
  pub data Env : Type 0 where
    empty : Env
    bind : Bytes → Rv → Env → Env

unfoldable pub env_lookup : Env → Bytes → Option Rv
env_lookup empty x = none
env_lookup (bind y v env) x = if same y x then some v else env_lookup env x

abbrev pub append : Rvs → Rvs → Rvs
append nil ws = ws
append (cons v vs) ws = cons v (append vs ws)

abbrev pub count : Rvs → ℕ
count nil = 0
count (cons v vs) = suc (count vs)

-- the two spellings of the list constructors
unfoldable pub is_cons : Bytes → Bool
is_cons c = same c (codes ":") || same c (codes "Cons")

unfoldable pub is_nil : Bytes → Bool
is_nil c = same c (codes "[]") || same c (codes "Nil")

unfoldable pub truthy : Rv → Bool
truthy (int (pos zero)) = false
truthy (int _) = true
truthy (symbol s) =
    if same s (codes "true") then true else if same s (codes "false") then false else true
truthy unit = false
truthy _ = true

-- what is written, where nothing is read from an array that is gone
abbrev pub Written : Type 0
Written = Option Bytes

abbrev pub around : (Bytes → Bytes) → Written → Written
around f none = none
around f (some s) = some (f s)

abbrev pub behind : Written → Written → Written
behind none w = none
behind (some s) w = around (λ t. s ++ t) w

unfoldable mutual
  pub print_value_inline : Rv → Written
  print_value_inline unit = some (codes "()")
  print_value_inline (int n) = some (show_ℤ n)
  print_value_inline (str s) = some s
  print_value_inline (symbol s) = some s
  print_value_inline (constr c nil) = some c
  print_value_inline (constr c (cons v vs)) =
      around (λ s. codes "(" ++ (c ++ (s ++ codes ")"))) (print_spaced (cons v vs))
  print_value_inline (bottom msg as') =
      around (λ s. codes "<bottom msg=\"" ++ (msg ++ (codes "\"" ++ (s ++ codes ">"))))
        (print_bot_args as')
  print_value_inline _ = some (codes "<v>")

  -- each argument behind a space
  pub print_spaced : Rvs → Written
  print_spaced nil = some []
  print_spaced (cons v vs) =
      around (λ s. codes " " ++ s) (behind (print_value_inline v) (print_spaced vs))

  pub print_bot_args : BotArgs → Written
  print_bot_args (array vs) = print_args vs
  print_bot_args (gone zero) = some []
  print_bot_args (gone (suc n)) = none

  pub print_args : Rvs → Written
  print_args nil = some []
  print_args (cons v vs) =
      around (λ s. codes " args=[" ++ s) (behind (print_value_inline v) (print_rest vs))

  pub print_rest : Rvs → Written
  print_rest nil = some (codes "]")
  print_rest (cons v vs) =
      around (λ s. codes ", " ++ s) (behind (print_value_inline v) (print_rest vs))

-- an element or an argument in `print_value`, which does not descend
unfoldable pub print_flat : Rv → Bytes
print_flat (int n) = show_ℤ n
print_flat (str s) = s
print_flat (symbol s) = s
print_flat unit = codes "()"
print_flat _ = codes "<v>"

unfoldable pub print_flat_args : Rvs → Bytes
unfolding print_flat
print_flat_args nil = []
print_flat_args (cons v vs) = codes " " ++ (print_flat v ++ print_flat_args vs)

-- The elements of a chain of list cells that ends in a nil constructor.
unfoldable pub list_elems : Rv → Option (List Rv)
unfolding is_cons is_nil
list_elems (constr c nil) = if is_nil c then some [] else none
list_elems (constr c (cons v (cons rest nil))) =
    let tail = list_elems rest in
    if is_cons c then elim tail [ none ↦ none | some vs ↦ some (v ∷ vs) ] else none
list_elems _ = none

unfoldable pub print_elems : List Rv → Bytes
unfolding print_flat
print_elems [] = []
print_elems (v ∷ []) = print_flat v
print_elems (v ∷ w ∷ vs) = print_flat v ++ (codes ", " ++ print_elems (w ∷ vs))

-- the part of `print_value` for constructors that are no complete list
unfoldable pub print_constr : Bytes → Rvs → Option (List Rv) → Bytes
unfolding print_elems print_flat_args
print_constr c vs (some elems) = codes "[" ++ (print_elems elems ++ codes "]\n")
print_constr c vs none = codes "(" ++ (c ++ (print_flat_args vs ++ codes ")\n"))

unfoldable pub print_value : Rv → Written
unfolding print_value_inline print_constr list_elems
print_value unit = some (codes "()\n")
print_value (int n) = some (show_ℤ n ++ codes "\n")
print_value (str s) = some (s ++ codes "\n")
print_value (symbol s) = some (s ++ codes "\n")
print_value (lam p b env) = some (codes "<lam>\n")
print_value token = some (codes "<token>\n")
print_value (natfun name arity caps) = some (
    codes "<fun "
    ++ (name
        ++ (codes "/" ++ (show_ℕ arity ++ (codes ":" ++ (show_ℕ (count caps) ++ codes ">\n"))))))
print_value (constr c vs) = some (print_constr c vs (list_elems (constr c vs)))
print_value (bottom msg as') = around (λ s. s ++ codes "\n") (print_value_inline (bottom msg as'))
