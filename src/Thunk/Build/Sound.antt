-- ===== src/Thunk/Build/Sound.antt =====
-- Heaps in which every pointer leads to an object and each environment is younger than its parent,
-- and the actions that end in such a heap. What is bound is left out: the check of or-patterns puts
-- marks there, which are no thunks.
pub mod Monotone
pub mod Writes
pub mod Actions
pub mod Environments
pub mod Marks
pub mod Reuse
pub mod Patterns
pub mod Forms
pub mod Closures
pub mod Expressions
use lazyscript.Prelude.{
  ℕ, ◌≤◌, ◌<◌, ◌≡◌, Option, none, some, List, [], ◌∷◌, Bytes, All, Bool, true, false, refl, length,
  get_elem?, arith,
}
use lazyscript.Thunk.Heap.{
  Ptr, Pat, Node, alge, appl, choice, lambda, ref, int, str, symbol, builtin, bottom, blank, Thunk,
  Origin, bind_origin, lambda_origin, builtin_origin, Target, Env, Heap, M, Outcome, done, fault,
  out_of_fuel, ◌>>=◌, and_then, pure,
}
use lazyscript.Thunk.Env.{find}
use lazyscript.Thunk.Build.Pattern.{ref_cells}

-- how many objects of each kind there are
pub record Sizes : Type 0 where
  pub thunks : ℕ
  pub bounds : ℕ
  pub targets : ℕ
  pub envs : ℕ
  pub counters : ℕ

abbrev pub sizes : Heap → Sizes
sizes h = record {
  thunks = length h.thunks;
  bounds = length h.bounds;
  targets = length h.targets;
  envs = length h.envs;
  counters = length h.counters;
}

-- No object has gone.
pub record Grows (s t : Sizes) : Type 0 where
  pub thunks : s.thunks ≤ t.thunks
  pub bounds : s.bounds ≤ t.bounds
  pub targets : s.targets ≤ t.targets
  pub envs : s.envs ≤ t.envs
  pub counters : s.counters ≤ t.counters

pub Grows-refl : (s : Sizes) → Grows s s
Grows-refl s = record {
  thunks = omega arith;
  bounds = omega arith;
  targets = omega arith;
  envs = omega arith;
  counters = omega arith;
}

pub Grows-trans : (s t u : Sizes) → Grows s t → Grows t u → Grows s u
Grows-trans s t u g k = record {
  thunks = omega (arith, g.thunks, k.thunks);
  bounds = omega (arith, g.bounds, k.bounds);
  targets = omega (arith, g.targets, k.targets);
  envs = omega (arith, g.envs, k.envs);
  counters = omega (arith, g.counters, k.counters);
}

-- NULL, or the place of one of `n` objects
abbrev pub Within : ℕ → Option ℕ → Type 0
Within n none = Unit {0}
Within n (some p) = p < n

abbrev pub PatIn : Sizes → Pat → Type 0
PatIn s p = All (λ c. c < s.bounds) (ref_cells p)

abbrev pub NodeIn : Sizes → Node → Type 0
NodeIn s (alge c ps) = All (Within s.thunks) ps
NodeIn s (appl f ps) = Within s.thunks f × All (Within s.thunks) ps
NodeIn s (choice l r k) = Within s.thunks l × Within s.thunks r
NodeIn s (lambda param body) = PatIn s param.pattern_of × Within s.thunks body
NodeIn s (ref name env target) = Within s.envs env × Within s.targets target
NodeIn s (int v) = Unit {0}
NodeIn s (str v) = Unit {0}
NodeIn s (symbol v) = Unit {0}
NodeIn s (builtin b) = Unit {0}
NodeIn s (bottom m ps) = All (Within s.thunks) ps
NodeIn s blank = Unit {0}

pub record ThunkIn (s : Sizes) (t : Thunk) : Type 0 where
  pub node : NodeIn s t.node
  pub whnf : Within s.thunks t.whnf

abbrev pub OriginIn : Sizes → Origin → Type 0
OriginIn s (bind_origin p rhs) = PatIn s p × Within s.thunks rhs
OriginIn s (lambda_origin a) = Unit {0}
OriginIn s (builtin_origin b) = b < s.thunks

pub record TargetIn (s : Sizes) (t : Target) : Type 0 where
  pub origin : OriginIn s t.origin
  pub cell : t.cell < s.bounds

-- The environment at the place `i`: its parent is older, and its entries have targets.
pub record EnvIn (s : Sizes) (i : ℕ) (e : Env) : Type 0 where
  pub older : (p : ℕ) → e.parent ≡ some p → p < i
  pub refs : (name : Bytes) (t : ℕ) → find name e.refs ≡ some t → t < s.targets
  pub counter : e.counter < s.counters

pub record IsSound (h : Heap) : Type 0 where
  pub thunks : (i : ℕ) (t : Thunk) → get_elem? h.thunks i ≡ some t → ThunkIn (sizes h) t
  pub targets : (i : ℕ) (t : Target) → get_elem? h.targets i ≡ some t → TargetIn (sizes h) t
  pub envs : (i : ℕ) (e : Env) → get_elem? h.envs i ≡ some e → EnvIn (sizes h) i e

-- A run ends with a value, and with a heap.
pub data Returns {A : Type 0} (P : A → Heap → Type 0) : Outcome A → Type 0 where
  returns : {a : A} {h : Heap} → P a h → Returns P (done a h)

Returns-mono :
    {A : Type 0} {P Q : A → Heap → Type 0} {o : Outcome A}
    → Returns P o
    → ((a : A) (h : Heap) → P a h → Q a h)
    → Returns Q o
Returns-mono (returns p) weaken = returns (weaken _ _ p)

-- From a sound heap with at least the objects of `s` the action ends in a sound heap that has grown,
-- with a value that fits its objects.
pub record Fits {A : Type 0} (V : Sizes → A → Type 0) (s : Sizes) (a : A) (h : Heap) : Type 0 where
  pub sound : IsSound h
  pub grown : Grows s (sizes h)
  pub value : V (sizes h) a

pub record Builds {A : Type 0} (s : Sizes) (V : Sizes → A → Type 0) (m : M A) : Type 0 where
  pub at : (h : Heap) → IsSound h → Grows s (sizes h) → Returns (Fits V (sizes h)) (m h)

module _ {A B : Type 0} (s : Sizes) (V : Sizes → A → Type 0) (W : Sizes → B → Type 0) where
  then_Returns :
      (o : Outcome A) (f : A → M B)
      → Returns (Fits V s) o
      → ((a : A) (t : Sizes) → Grows s t → V t a → Builds t W (f a))
      → Returns (Fits W s) (and_then f o)
  then_Returns fault f r next = elim r [ ]
  then_Returns out_of_fuel f r next = elim r [ ]
  then_Returns (done a h) f (returns p) next =
      Returns-mono ((next a (sizes h) p.grown p.value).at h p.sound (Grows-refl (sizes h)))
        (λ b h' q. record {
          sound = q.sound;
          grown = Grows-trans s (sizes h) (sizes h') p.grown q.grown;
          value = q.value;
        })

pub Builds-bind :
    {A B : Type 0} (s : Sizes) (V : Sizes → A → Type 0) (W : Sizes → B → Type 0) (m : M A)
    (f : A → M B)
    → Builds s V m
    → ((a : A) (t : Sizes) → Grows s t → V t a → Builds t W (f a))
    → Builds s W (m >>= f)
unfolding ◌>>=◌
Builds-bind s V W m f hm hf = record {
  at = λ h k g.
      then_Returns (sizes h) V W (m h) f (hm.at h k g)
        (λ a t g' v. hf a t (Grows-trans s (sizes h) t g g') v);
}

module _ {A : Type 0} (s : Sizes) (V : Sizes → A → Type 0) where
  pub Builds-pure : (a : A) → ((t : Sizes) → Grows s t → V t a) → Builds s V (pure a)
  unfolding pure
  Builds-pure a v = record {
    at = λ h k g.
        returns (record { sound = k; grown = Grows-refl (sizes h); value = v (sizes h) g });
  }

  pub Builds-option :
      {B : Type 0} (o : Option B) (m : M A) (f : B → M A)
      → (o ≡ none → Builds s V m)
      → ((b : B) → o ≡ some b → Builds s V (f b))
      → Builds s V (elim o as (λ _. M A) [ none ↦ m | some b ↦ f b ])
  Builds-option none m f km kf = km refl
  Builds-option (some b) m f km kf = kf b refl

  pub Builds-bool :
      (b : Bool) (m k : M A)
      → Builds s V m
      → Builds s V k
      → Builds s V (elim b as (λ _. M A) [ true ↦ m | false ↦ k ])
  Builds-bool true m k km kk = km
  Builds-bool false m k km kk = kk

  -- an action may start with more objects than it needs
  pub Builds-more : (t : Sizes) (m : M A) → Builds s V m → Grows s t → Builds t V m
  Builds-more t m k g = record { at = λ h sound g'. k.at h sound (Grows-trans s t (sizes h) g g') }

  pub Builds-weaken :
      (W : Sizes → A → Type 0) (m : M A)
      → Builds s V m
      → ((t : Sizes) (a : A) → V t a → W t a)
      → Builds s W m
  Builds-weaken W m k weaker = record {
    at = λ h sound g. Returns-mono (k.at h sound g) (λ a h' p. record {
      sound = p.sound;
      grown = p.grown;
      value = weaker (sizes h') a p.value;
    });
  }
