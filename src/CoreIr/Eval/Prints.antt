-- ===== src/CoreIr/Eval/Prints.antt =====
-- The printing of values that point to no array that is gone.
use lazyscript.Prelude.{none, some, ◌++◌, Bytes}
use lazyscript.CoreIr.Syntax.{Expr}
use lazyscript.CoreIr.Runtime.{
  Rv, Rvs, bottom, array, gone, nil, cons, Written, around, behind, print_value_inline,
  print_spaced, print_args, print_rest, print_value,
}
use lazyscript.CoreIr.Eval.{written}
use lazyscript.CoreIr.Eval.Ensures.{Ensures, Only, OnlyAll}

-- What is printed of a value in which no array is gone.
abbrev pub IsWritten : Written → Type 0
IsWritten none = ⊥
IsWritten (some s) = Unit

IsWritten-around : (f : Bytes → Bytes) (w : Written) → IsWritten w → IsWritten (around f w)
IsWritten-around f (some s) h = tt
IsWritten-around f none h = h

IsWritten-behind : (w w' : Written) → IsWritten w → IsWritten w' → IsWritten (behind w w')
IsWritten-behind none w' h k = h
IsWritten-behind (some s) w' h k = IsWritten-around (λ t. s ++ t) w' k

mutual
  unfolding print_value_inline Only

  inline-IsWritten : (L : Expr → Type 0) (v : Rv) → Only ⊥ L v → IsWritten (print_value_inline v)
  inline-IsWritten L (Rv.constr c nil) h = tt
  inline-IsWritten L (Rv.constr c (cons v vs)) h =
      IsWritten-around _ _ (spaced-IsWritten L (cons v vs) h)
  inline-IsWritten L (bottom msg (array vs)) h = IsWritten-around _ _ (args-IsWritten L vs h)
  inline-IsWritten L (bottom msg (gone n)) h = absurd h
  inline-IsWritten L (Rv.int n) h = tt
  inline-IsWritten L (Rv.str s) h = tt
  inline-IsWritten L (Rv.symbol s) h = tt
  inline-IsWritten L Rv.unit h = tt
  inline-IsWritten L Rv.token h = tt
  inline-IsWritten L (Rv.lam p b env) h = tt
  inline-IsWritten L (Rv.natfun n a cs) h = tt

  spaced-IsWritten : (L : Expr → Type 0) (vs : Rvs) → OnlyAll ⊥ L vs → IsWritten (print_spaced vs)
  spaced-IsWritten L nil h = tt
  spaced-IsWritten L (cons v vs) h = IsWritten-around _ _ (
      IsWritten-behind (print_value_inline v) (print_spaced vs) (inline-IsWritten L v h.0)
        (spaced-IsWritten L vs h.1))

  args-IsWritten : (L : Expr → Type 0) (vs : Rvs) → OnlyAll ⊥ L vs → IsWritten (print_args vs)
  args-IsWritten L nil h = tt
  args-IsWritten L (cons v vs) h = IsWritten-around _ _ (
      IsWritten-behind (print_value_inline v) (print_rest vs) (inline-IsWritten L v h.0)
        (rest-IsWritten L vs h.1))

  rest-IsWritten : (L : Expr → Type 0) (vs : Rvs) → OnlyAll ⊥ L vs → IsWritten (print_rest vs)
  rest-IsWritten L nil h = tt
  rest-IsWritten L (cons v vs) h = IsWritten-around _ _ (
      IsWritten-behind (print_value_inline v) (print_rest vs) (inline-IsWritten L v h.0)
        (rest-IsWritten L vs h.1))

pub value-IsWritten : (L : Expr → Type 0) (v : Rv) → Only ⊥ L v → IsWritten (print_value v)
unfolding print_value
value-IsWritten L (bottom msg as') h = IsWritten-around _ _ (inline-IsWritten L (bottom msg as') h)
value-IsWritten L (Rv.constr c vs) h = tt
value-IsWritten L (Rv.int n) h = tt
value-IsWritten L (Rv.str s) h = tt
value-IsWritten L (Rv.symbol s) h = tt
value-IsWritten L Rv.unit h = tt
value-IsWritten L Rv.token h = tt
value-IsWritten L (Rv.lam p b env) h = tt
value-IsWritten L (Rv.natfun n a cs) h = tt

pub written-Ensures : (w : Written) → IsWritten w → Ensures ⊥ (λ _. Unit {0}) (written w)
unfolding written
written-Ensures (some s) h = Ensures.value tt
written-Ensures none h = absurd h
