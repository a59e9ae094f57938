-- ===== src/Builtins/Order.antt =====
-- The guard of side effects around the first argument of `seq`, src/builtins/seq.c.
use lazyscript.Prelude.{
  ℕ, ◌≡◌, refl, ap, ◌∙◌, Bool, true, false, none, some, [], ◌∷◌, codes, get_elem?, arith,
}
use lazyscript.Runtime.Effects
use lazyscript.Thunk.Heap.{Ptr, Heap, Thunk, M, done, ◌>>=◌, and_then, pure, known, load}
use lazyscript.Thunk.Match.{is_bottom_node, is_bottom}
use lazyscript.Thunk.Choice.{Calls}
use lazyscript.Builtins.Args.{or_bottom, eval_arg, unless_bottom}
use lazyscript.Builtins.Seq.{update_effects, second, seq}

allowed-begin :
    (b : Bool) (d : ℕ) → Effects.allowed (Effects.begin (record { strict = b; depth = d })) ≡ true
unfolding Effects.allowed Effects.begin
allowed-begin true d = ground arith
allowed-begin false d = refl

value-unless_bottom :
    (h : Heap) (q : ℕ) (t : Thunk) (rest : M Ptr)
    → get_elem? h.thunks q ≡ some t
    → is_bottom_node t.node ≡ false
    → unless_bottom (some q) rest h ≡ rest h
unfolding unless_bottom is_bottom load known pure ◌>>=◌
value-unless_bottom h q t rest at e = rw (at, known, and_then) (rw (e, and_then) refl)

-- `seq` of two thunks, with LSSEQ_SIMPLE: effects are allowed while the first is evaluated. When that
-- gives a value that is no bottom, and leaves the guard as it found it, then `seq` ends with the
-- second thunk, not evaluated, and the guard is as it was before; the rest of the heap is as the
-- evaluation left it.
pub seq-effects :
    (k : ℕ) (c : Calls) (fst snd : Ptr) (h h1 : Heap) (q : ℕ) (t : Thunk)
    → c.eval0 fst (record h { effects = Effects.begin h.effects }) ≡ done (some q) h1
    → get_elem? h1.thunks q ≡ some t
    → is_bottom_node t.node ≡ false
    → h1.effects ≡ Effects.begin h.effects
    → (Effects.allowed (Effects.begin h.effects) ≡ true)
      × (seq k c (fst ∷ snd ∷ []) none h ≡ done snd (record h1 { effects = h.effects }))
unfolding seq update_effects second eval_arg or_bottom pure ◌>>=◌
seq-effects k c fst snd h h1 q t e at value guard =
    let h2 = record h1 { effects = Effects.end h1.effects } in
    let restored : Effects.end h1.effects ≡ h.effects =
      ap Effects.end guard ∙ Effects.end-begin h.effects in
    (
      allowed-begin h.effects.strict h.effects.depth,
      ap (and_then _) (ap (and_then (or_bottom (codes "seq: first"))) e)
          ∙ value-unless_bottom h2 q t _ at value
          ∙ ap (λ (s : Effects.State). done snd (record h1 { effects = s })) restored,
    )
