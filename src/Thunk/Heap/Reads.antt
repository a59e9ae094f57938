-- ===== src/Thunk/Heap/Reads.antt =====
-- Actions on the heap of src/thunk that only read it.
use lazyscript.Prelude.{◌≡◌, ◌∙◌, Option, none, some}
use lazyscript.Thunk.Heap.{Heap, M, done, ◌>>=◌, pure, gets, known, no_fuel}
use lazyscript.Thunk.Heap.Steps.{bind-done, known-done}

pub record Reads {A : Type 0} (m : M A) : Type 0 where
  pub at : (h : Heap) (a : A) (h' : Heap) → m h ≡ done a h' → h' ≡ h

module _ {A : Type 0} where
  pub Reads-pure : (a : A) → Reads (pure a)
  unfolding pure
  Reads-pure a = record { at = λ h b h' e. cc }

  pub Reads-gets : (f : Heap → A) → Reads (gets f)
  unfolding gets
  Reads-gets f = record { at = λ h b h' e. cc }

  pub Reads-no_fuel : Reads (no_fuel {A = A})
  unfolding no_fuel
  Reads-no_fuel = record { at = λ h b h' e. cc }

  pub Reads-known : (f : Heap → Option A) → Reads (λ h. known (f h) h)
  Reads-known f = record { at = λ h b h' e. (known-done (f h) h b h' e).1 }

  pub Reads-bind :
      {B : Type 0} (m : M B) (f : B → M A) → Reads m → ((b : B) → Reads (f b)) → Reads (m >>= f)
  Reads-bind m f rm rf = record {
    at = λ h b h' e.
        let s = bind-done m f h b h' e in
        (rf s.value).at s.between b h' s.second ∙ rm.at h s.value s.between s.first;
  }

  pub Reads-option :
      {B : Type 0} (o : Option B) (m : M A) (f : B → M A)
      → Reads m
      → ((b : B) → Reads (f b))
      → Reads (elim o as (λ _. M A) [ none ↦ m | some b ↦ f b ])
  Reads-option none m f rm rf = rm
  Reads-option (some b) m f rm rf = rf b
