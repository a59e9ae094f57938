-- ===== src/Thunk/Eval/Whole.antt =====
-- Heaps in which every pointer leads to an object, those in bindings included, and each environment
-- is younger than its parent, and the actions that leave such a heap when they end.
pub mod Actions
pub mod Match
pub mod Subst
pub mod Choices
pub mod Lambdas
pub mod References
pub mod Evaluator
use lazyscript.Prelude.{
  ℕ, ◌≤◌, ◌<◌, ◌≡◌, ◌⊎◌, inl, inr, refl, Bool, true, false, Option, none, some, List, [], ◌∷◌, All,
  length, get_elem?, arith, if◌then◌else◌,
}
use mathlib.Core.Path.{subst}
use lazyscript.Thunk.Heap.{
  Ptr, Heap, M, Outcome, done, fault, out_of_fuel, and_then, ◌>>=◌, pure, fail, no_fuel,
}
use lazyscript.Thunk.Build.Sound.{
  Sizes, sizes, Grows, Grows-refl, Grows-trans, Within, IsSound, Returns, returns, Fits, Builds,
}

pub record IsWhole (h : Heap) : Type 0 where
  pub sound : IsSound h
  pub bounds : (c : ℕ) (b : Ptr) → get_elem? h.bounds c ≡ some b → Within (length h.thunks) b

-- A run that ends with a value ends with a heap as well.
pub data Leaves {A : Type 0} (P : A → Heap → Type 0) : Outcome A → Type 0 where
  leaves : {a : A} {h : Heap} → P a h → Leaves P (done a h)
  faulted : Leaves P fault
  ran_out : Leaves P out_of_fuel

Leaves-mono :
    {A : Type 0} {P Q : A → Heap → Type 0} {o : Outcome A}
    → Leaves P o
    → ((a : A) (h : Heap) → P a h → Q a h)
    → Leaves Q o
Leaves-mono (leaves p) weaken = leaves (weaken _ _ p)
Leaves-mono faulted weaken = faulted
Leaves-mono ran_out weaken = ran_out

pub Leaves-done :
    {A : Type 0} {P : A → Heap → Type 0} (o : Outcome A) (a : A) (h : Heap)
    → Leaves P o
    → o ≡ done a h
    → P a h
Leaves-done {P = P} (done b k) a h (leaves p) e =
    let d : b ≡ a = cc (e) in let q : k ≡ h = cc (e) in subst (λ x. P x h) d (subst (P b) q p)
Leaves-done fault a h l e = cc
Leaves-done out_of_fuel a h l e = cc

-- The heap is whole and has grown, and the value fits its objects.
pub record Kept {A : Type 0} (V : Sizes → A → Type 0) (s : Sizes) (a : A) (h : Heap) : Type 0 where
  pub whole : IsWhole h
  pub grown : Grows s (sizes h)
  pub value : V (sizes h) a

-- From a whole heap with at least the objects of `s` the action ends so, if it ends with a value.
pub record Safe {A : Type 0} (s : Sizes) (V : Sizes → A → Type 0) (m : M A) : Type 0 where
  pub at : (h : Heap) → IsWhole h → Grows s (sizes h) → Leaves (Kept V (sizes h)) (m h)

module _ {A B : Type 0} (s : Sizes) (V : Sizes → A → Type 0) (W : Sizes → B → Type 0) where
  then_Leaves :
      (o : Outcome A) (f : A → M B)
      → Leaves (Kept V s) o
      → ((a : A) (t : Sizes) → Grows s t → V t a → Safe t W (f a))
      → Leaves (Kept W s) (and_then f o)
  then_Leaves (done a h) f (leaves p) next =
      Leaves-mono ((next a (sizes h) p.grown p.value).at h p.whole (Grows-refl (sizes h)))
        (λ b h' q. record {
          whole = q.whole;
          grown = Grows-trans s (sizes h) (sizes h') p.grown q.grown;
          value = q.value;
        })
  then_Leaves fault f l next = faulted
  then_Leaves out_of_fuel f l next = ran_out

pub Safe-bind :
    {A B : Type 0} (s : Sizes) (V : Sizes → A → Type 0) (W : Sizes → B → Type 0) (m : M A)
    (f : A → M B)
    → Safe s V m
    → ((a : A) (t : Sizes) → Grows s t → V t a → Safe t W (f a))
    → Safe s W (m >>= f)
unfolding ◌>>=◌
Safe-bind s V W m f hm hf = record {
  at = λ h k g.
      then_Leaves (sizes h) V W (m h) f (hm.at h k g)
        (λ a t g' v. hf a t (Grows-trans s (sizes h) t g g') v);
}

module _ {A : Type 0} (s : Sizes) (V : Sizes → A → Type 0) where
  pub Safe-pure : (a : A) → ((t : Sizes) → Grows s t → V t a) → Safe s V (pure a)
  unfolding pure
  Safe-pure a v = record {
    at =
        λ h k g. leaves (record { whole = k; grown = Grows-refl (sizes h); value = v (sizes h) g });
  }

  pub Safe-fail : Safe s V fail
  unfolding fail
  Safe-fail = record { at = λ h k g. faulted }

  pub Safe-no_fuel : Safe s V no_fuel
  unfolding no_fuel
  Safe-no_fuel = record { at = λ h k g. ran_out }

  pub Safe-option :
      {B : Type 0} (o : Option B) (m : M A) (f : B → M A)
      → (o ≡ none → Safe s V m)
      → ((b : B) → o ≡ some b → Safe s V (f b))
      → Safe s V (elim o as (λ _. M A) [ none ↦ m | some b ↦ f b ])
  Safe-option none m f km kf = km refl
  Safe-option (some b) m f km kf = kf b refl

  pub Safe-bool :
      (b : Bool) (m k : M A)
      → Safe s V m
      → Safe s V k
      → Safe s V (elim b as (λ _. M A) [ true ↦ m | false ↦ k ])
  Safe-bool true m k km kk = km
  Safe-bool false m k km kk = kk

  pub Safe-if : (b : Bool) (m k : M A) → Safe s V m → Safe s V k → Safe s V (if b then m else k)
  Safe-if true m k km kk = km
  Safe-if false m k km kk = kk

  -- An action that ends in a sound heap, in which the bindings hold thunks again.
  pub Safe-Builds :
      (m : M A)
      → Builds s V m
      → ((h : Heap) (a : A) (h' : Heap)
          → m h ≡ done a h'
          → Grows (sizes h) (sizes h')
          → IsWhole h
          → (c : ℕ) (b : Ptr) → get_elem? h'.bounds c ≡ some b
          → Within (length h'.thunks) b)
      → Safe s V m
  Safe-Builds m k inside = record { at = λ h w g. from_Returns h w (m h) refl (k.at h w.sound g) }
    where
      from_Returns :
          (h : Heap)
          → IsWhole h
          → (o : Outcome A) → m h ≡ o
          → Returns (Fits V (sizes h)) o
          → Leaves (Kept V (sizes h)) o
      from_Returns h w fault e r = elim r [ ]
      from_Returns h w out_of_fuel e r = elim r [ ]
      from_Returns h w (done a h') e (returns p) = leaves (record {
        whole = record { sound = p.sound; bounds = inside h a h' e p.grown w };
        grown = p.grown;
        value = p.value;
      })
