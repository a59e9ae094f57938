-- ===== src/Thunk/Heap/Rules.antt =====
-- One rule for each way to build an action on the heap of src/thunk.
use lazyscript.Prelude.{
  ℕ, ◌≤◌, ◌<◌, ◌≡◌, refl, ap, sym, Bool, true, false, Option, none, some, List, [], ◌∷◌, ◌++◌,
  get_elem?, length, arith,
}
use mathlib.Core.Path.{subst}
use lazyscript.Thunk.Heap.{
  Ptr, Node, Thunk, Heap, M, done, ◌>>=◌, pure, fail, no_fuel, gets, known, load, store, alloc,
  alloc_whnf, set_whnf, set_node, get_bound, set_bound, get_target,
}
use lazyscript.Thunk.Heap.Steps.{bind-done, known-done, write_at-done}
use lazyscript.Thunk.Heap.Keeps.{
  Grown, same_node, Stays, Stays-same, Stays-trans, Stays-alloc, Stays-set, Keeps,
}

module _ {A : Type 0} (n : ℕ) where
  pub Keeps-pure : (a : A) → Keeps n (pure a)
  unfolding pure
  Keeps-pure a = record { at = λ h b h' le e. Stays-same n h h' (cc) }

  pub Keeps-fail : Keeps n (fail {A = A})
  unfolding fail
  Keeps-fail = record { at = λ h b h' le e. cc }

  pub Keeps-no_fuel : Keeps n (no_fuel {A = A})
  unfolding no_fuel
  Keeps-no_fuel = record { at = λ h b h' le e. cc }

  pub Keeps-gets : (f : Heap → A) → Keeps n (gets f)
  unfolding gets
  Keeps-gets f = record { at = λ h b h' le e. Stays-same n h h' (cc) }

  pub Keeps-known : (f : Heap → Option A) → Keeps n (λ h. known (f h) h)
  Keeps-known f = record {
    at = λ h b h' le e.
        Stays-same n h h' (ap (λ (x : Heap). x.thunks) (known-done (f h) h b h' e).1);
  }

  pub Keeps-bool :
      (b : Bool) (m k : M A)
      → Keeps n m
      → Keeps n k
      → Keeps n (elim b as (λ _. M A) [ true ↦ m | false ↦ k ])
  Keeps-bool true m k km kk = km
  Keeps-bool false m k km kk = kk

  pub Keeps-option :
      {B : Type 0} (o : Option B) (m : M A) (f : B → M A)
      → Keeps n m
      → ((b : B) → Keeps n (f b))
      → Keeps n (elim o as (λ _. M A) [ none ↦ m | some b ↦ f b ])
  Keeps-option none m f km kf = km
  Keeps-option (some b) m f km kf = kf b

pub Keeps-bind :
    {A B : Type 0} (n : ℕ) (m : M A) (f : A → M B)
    → Keeps n m
    → ((a : A) → Keeps n (f a))
    → Keeps n (m >>= f)
Keeps-bind n m f km kf = record {
  at = λ h b h' le e.
      let s = bind-done m f h b h' e in
      let before = km.at h s.value s.between le s.first in
      Stays-trans n h s.between h' before
        ((kf s.value).at s.between b h' (omega (arith, le, before.longer)) s.second);
}

module _ (n : ℕ) where
  pub Keeps-get_bound : (c : ℕ) → Keeps n (get_bound c)
  unfolding get_bound
  Keeps-get_bound c = Keeps-known n (λ h. get_elem? h.bounds c)

  pub Keeps-get_target : (c : ℕ) → Keeps n (get_target c)
  unfolding get_target
  Keeps-get_target c = Keeps-known n (λ h. get_elem? h.targets c)

  pub Keeps-load : (p : Ptr) → Keeps n (load p)
  unfolding load fail
  Keeps-load none = Keeps-fail n
  Keeps-load (some p) = Keeps-known n (λ h. get_elem? h.thunks p)

  pub Keeps-set_bound : (c : ℕ) (v : Ptr) → Keeps n (set_bound c v)
  unfolding set_bound
  Keeps-set_bound c v = record {
    at = λ h b h' le e.
        let w = write_at-done h.bounds c v (λ xs. record h { bounds = xs }) h' e in
        Stays-same n h h' (ap (λ (x : Heap). x.thunks) w.after);
  }

  pub Keeps-store_whnf : (p : ℕ) (w : Ptr) → Keeps n (set_whnf p w)
  unfolding set_whnf load store
  Keeps-store_whnf p w = record {
    at = λ h b h' le e.
        let s = bind-done (load (some p)) (λ t. store p (record t { whnf = w })) h b h' e in
        let (at, same_heap) = known-done (get_elem? h.thunks p) h s.value s.between s.first in
        let there : get_elem? (s.between).thunks p ≡ some s.value = cc in
        let t' : Thunk = record (s.value) { whnf = w } in
        let k = λ (xs : List Thunk). record (s.between) { thunks = xs } in
        let r = write_at-done (s.between).thunks p t' k h' s.second in
        subst (λ x. Stays n x h') same_heap
          (Stays-set n p s.between h' t' s.value there (ap (λ (x : Heap). x.thunks) r.after)
            (λ lt. same_node refl));
  }

  -- the rest of the block may use that the thunk is new
  pub Keeps-alloc :
      {A : Type 0} (nd : Node) (w : Ptr) (f : ℕ → M A)
      → ((q : ℕ) → n ≤ q → Keeps n (f q))
      → Keeps n (alloc nd w >>= f)
  unfolding alloc
  Keeps-alloc nd w f kf = record {
    at = λ h b h' le e.
        let t : Thunk = record { node = nd; whnf = w } in
        let h1 = record h { thunks = h.thunks ++ t ∷ [] } in
        let s = bind-done (alloc nd w) f h b h' e in
        let place : length h.thunks ≡ s.value = cc (s.first) in
        let made : h1 ≡ s.between = cc (s.first) in
        let first = Stays-alloc n h s.between t (ap (λ (x : Heap). x.thunks) (sym made)) in
        Stays-trans n h s.between h' first (
          (kf s.value (omega (arith, le, place))).at s.between b h'
            (omega (arith, le, first.longer)) s.second);
  }

  pub Keeps-alloc_whnf :
      {A : Type 0} (nd : Node) (f : ℕ → M A)
      → ((q : ℕ) → n ≤ q → Keeps n (f q))
      → Keeps n (alloc_whnf nd >>= f)
  unfolding alloc_whnf
  Keeps-alloc_whnf nd f kf = record {
    at = λ h b h' le e.
        let t : Thunk = record { node = nd; whnf = some (length h.thunks) } in
        let h1 = record h { thunks = h.thunks ++ t ∷ [] } in
        let s = bind-done (alloc_whnf nd) f h b h' e in
        let place : length h.thunks ≡ s.value = cc (s.first) in
        let made : h1 ≡ s.between = cc (s.first) in
        let first = Stays-alloc n h s.between t (ap (λ (x : Heap). x.thunks) (sym made)) in
        Stays-trans n h s.between h' first (
          (kf s.value (omega (arith, le, place))).at s.between b h'
            (omega (arith, le, first.longer)) s.second);
  }

  -- a node that is written over, which is new or grows
  pub set_node-Stays :
      (p : ℕ) (nd : Node) (h h' : Heap)
      → set_node p nd h ≡ done tt h'
      → ((t : Thunk) → get_elem? h.thunks p ≡ some t → p < n → Grown t.node nd)
      → Stays n h h'
  unfolding set_node load store
  set_node-Stays p nd h h' e grown =
      let s = bind-done (load (some p)) (λ t. store p (record t { node = nd })) h tt h' e in
      let (at, same_heap) = known-done (get_elem? h.thunks p) h s.value s.between s.first in
      let there : get_elem? (s.between).thunks p ≡ some s.value = cc in
      let t' : Thunk = record (s.value) { node = nd } in
      let k = λ (xs : List Thunk). record (s.between) { thunks = xs } in
      let r = write_at-done (s.between).thunks p t' k h' s.second in
      subst (λ x. Stays n x h') same_heap
        (Stays-set n p s.between h' t' s.value there (ap (λ (x : Heap). x.thunks) r.after)
          (grown s.value at))

  pub Keeps-set_node : (p : ℕ) (nd : Node) → n ≤ p → Keeps n (set_node p nd)
  Keeps-set_node p nd le = record {
    at = λ h b h' lh e. set_node-Stays p nd h h' e (λ t at lt. absurd (omega (arith, le, lt)));
  }

pub ruleset keeps_rules = (
  Keeps-pure, Keeps-fail, Keeps-no_fuel, Keeps-gets, Keeps-bool, Keeps-option, Keeps-bind,
  Keeps-get_bound, Keeps-get_target, Keeps-load, Keeps-set_bound, Keeps-store_whnf,
)
