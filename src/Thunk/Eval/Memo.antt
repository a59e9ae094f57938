-- ===== src/Thunk/Eval/Memo.antt =====
-- What `lsthunk_eval0` of src/thunk/thunk.c keeps in `lt_whnf`.
use lazyscript.Prelude.{ℕ, zero, suc, ◌≡◌, refl, ap, sym, ◌∙◌, Option, none, some, List, get_elem?}
use lazyscript.Thunk.Heap.{
  Ptr, Thunk, Heap, M, done, ◌>>=◌, ◌>>◌, pure, known, no_fuel, load, store, set_whnf,
}
use lazyscript.Thunk.Heap.Steps.{bind-done, known-done, write_at-done, get_elem?-set}
use lazyscript.Thunk.Choice.{Calls}
use lazyscript.Thunk.Eval.{eval, eval0, eval0_loaded, value_of}

-- The thunk at `p` has the value `r`.
pub record Kept (p r : ℕ) (h : Heap) : Type 0 where
  pub thunk : Thunk
  pub there : get_elem? h.thunks p ≡ some thunk
  pub cached : thunk.whnf ≡ some r

set_whnf-Kept : (p r : ℕ) (h h' : Heap) → set_whnf p (some r) h ≡ done tt h' → Kept p r h'
unfolding set_whnf load store
set_whnf-Kept p r h h' e =
    let s1 = bind-done (load (some p)) (λ t. store p (record t { whnf = some r })) h tt h' e in
    let (at, same_heap) = known-done (get_elem? h.thunks p) h s1.value s1.between s1.first in
    let t' : Thunk = record (s1.value) { whnf = some r } in
    let w =
      write_at-done s1.between.thunks p t' (λ xs. record (s1.between) { thunks = xs }) h'
        s1.second in
    record {
      thunk = t';
      there =
          ap (λ (x : Heap). get_elem? x.thunks p) w.after
          ∙ get_elem?-set s1.between.thunks p t' w.old w.stood;
      cached = refl;
    }

store-Kept :
    (p r : ℕ) (m : M Ptr) (h h' : Heap)
    → (do r' ← m; set_whnf p r'; pure r') h ≡ done (some r) h'
    → Kept p r h'
unfolding pure
store-Kept p r m h h' e =
    let s1 = bind-done m (λ r'. set_whnf p r' >> pure r') h (some r) h' e in
    let s2 =
      bind-done (set_whnf p s1.value) (λ _. pure s1.value) s1.between (some r) h' s1.second in
    let same_value : s1.value ≡ some r = cc (s2.second) in
    let same_heap : s2.between ≡ h' = cc (s2.second) in
    set_whnf-Kept p r s1.between h' (cc (s2.first, same_value, same_heap))

module _ (call : Calls → ℕ → List Ptr → Ptr → M Ptr) (n : ℕ) (c : Calls) where
  loaded-Kept :
      (p r : ℕ) (t : Thunk) (o : Option ℕ) (h h' : Heap)
      → get_elem? h.thunks p ≡ some t
      → t.whnf ≡ o
      → eval0_loaded call n c p t h ≡ done (some r) h'
      → Kept p r h'
  unfolding eval0_loaded pure
  loaded-Kept p r t none h h' at w e =
      store-Kept p r (value_of call n c p t.node) h h' (sym (rw (w, eval0_loaded) refl) ∙ e)
  loaded-Kept p r t (some v) h h' at w e =
      let e' : done (some v) h ≡ done (some r) h' = sym (rw (w, eval0_loaded) refl) ∙ e in
      record { thunk = t; there = cc; cached = cc }

Kept-eval0 :
    (call : Calls → ℕ → List Ptr → Ptr → M Ptr) (n p r : ℕ) (h : Heap)
    → Kept p r h
    → eval0 call (suc n) (some p) h ≡ done (some r) h
unfolding eval0 eval0_loaded load known ◌>>=◌ pure
Kept-eval0 call n p r h k = rw (k.there, eval0, load, known) (rw (k.cached, eval0_loaded) refl)

eval0-Kept :
    (call : Calls → ℕ → List Ptr → Ptr → M Ptr) (n p r : ℕ) (h h' : Heap)
    → eval0 call n (some p) h ≡ done (some r) h'
    → Kept p r h'
unfolding eval0 no_fuel load
eval0-Kept call zero p r h h' e = cc
eval0-Kept call (suc n) p r h h' e =
    let c : Calls = record { eval = eval call n; eval0 = eval0 call n } in
    let s = bind-done (load (some p)) (λ t. eval0_loaded call n c p t) h (some r) h' e in
    let (at, same_heap) = known-done (get_elem? h.thunks p) h s.value s.between s.first in
    loaded-Kept call n c p r s.value (s.value).whnf s.between h' (cc (at, same_heap)) refl s.second

-- When `lsthunk_eval0` of a thunk ends with a value that is not NULL, then a second call at once gives
-- the same value and changes nothing, whatever the functions of the builtins do and whatever fuel
-- above 0 it has.
pub eval0_again :
    (call : Calls → ℕ → List Ptr → Ptr → M Ptr) (n m p r : ℕ) (h h' : Heap)
    → eval0 call n (some p) h ≡ done (some r) h'
    → eval0 call (suc m) (some p) h' ≡ done (some r) h'
eval0_again call n m p r h h' e = Kept-eval0 call m p r h' (eval0-Kept call n p r h h' e)
