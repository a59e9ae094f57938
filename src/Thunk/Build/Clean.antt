-- ===== src/Thunk/Build/Clean.antt =====
-- The marks that the check of an or-pattern leaves in the bindings.
pub mod Patterns
pub mod Expressions
use lazyscript.Prelude.{
  ℕ, ◌≡◌, refl, sym, ap, ◌∙◌, ◌⊎◌, inl, inr, Bool, true, false, ◌||◌, Option, none, some, List, [],
  ◌∷◌, ◌++◌, Bytes, All, get_elem?, set, ◌==◌, ==_iff, Bool-cases, arith,
}
use mathlib.Core.Path.{subst}
use lazyscript.Ast
use lazyscript.Ast.Pattern.{nil, cons}
use lazyscript.Thunk.Heap.{
  Ptr, Heap, Pat, Origin, M, done, ◌>>=◌, ◌>>◌, pure, get_bound, set_bound, get_target, new_cell,
}
use lazyscript.Thunk.Heap.Steps.{
  bind-done, known-done, write_at-done, get_elem?-set, get_elem?-set_ne,
}
use lazyscript.Thunk.Build.Pattern.{
  Marks, points_to, ref_cells, names, mark_present, any_present, clear_mark, mark_clear, mark_used,
  mark_right, around, both, cleared, or_right, new_ref_pat, new_pat, new_pats, reuse_pat,
}
use lazyscript.Thunk.Build.Aside.{
  Aside, Aside-bool, Aside-pure, Aside-get_self, Aside-put, Aside-get_target, Aside-get_bound,
  Aside-incr_nerrors, Aside-new_target, Aside-around, Aside-reuse_pat, Aside-bind,
}

-- From bindings with the first property the action leads to bindings with the second one.
pub record Takes {A : Type 0} (P Q : List Ptr → Type 0) (m : M A) : Type 0 where
  pub at : (h : Heap) (a : A) (h' : Heap) → m h ≡ done a h' → P h.bounds → Q h'.bounds

pub Takes-bind :
    {A B : Type 0} {P Q R : List Ptr → Type 0} (m : M A) (f : A → M B)
    → Takes P Q m
    → ((a : A) → Takes Q R (f a))
    → Takes P R (m >>= f)
Takes-bind m f km kf = record {
  at = λ h b h' e p.
      let s = bind-done m f h b h' e in
      (kf s.value).at s.between b h' s.second (km.at h s.value s.between s.first p);
}

pub Takes-Aside : {A : Type 0} (P : List Ptr → Type 0) (m : M A) → Aside m → Takes P P m
Takes-Aside P m k = record { at = λ h a h' e p. subst P (sym ((k.at h a h' e).bounds)) p }

pub Takes-weaken :
    {A : Type 0} {P Q R S : List Ptr → Type 0} (m : M A)
    → ((bs : List Ptr) → P bs → Q bs)
    → ((bs : List Ptr) → R bs → S bs)
    → Takes Q R m
    → Takes P S m
Takes-weaken m f g k = record { at = λ h a h' e p. g _ (k.at h a h' e (f _ p)) }

pub Takes-option :
    {A B : Type 0} {P Q : List Ptr → Type 0} (o : Option B) (m : M A) (f : B → M A)
    → Takes P Q m
    → ((b : B) → Takes P Q (f b))
    → Takes P Q (elim o as (λ _. M A) [ none ↦ m | some b ↦ f b ])
Takes-option none m f km kf = km
Takes-option (some b) m f km kf = kf b

-- a split that keeps the answer of the test
pub Takes-bool :
    {A : Type 0} {P Q : List Ptr → Type 0} (b : Bool) (m k : M A)
    → (b ≡ true → Takes P Q m)
    → (b ≡ false → Takes P Q k)
    → Takes P Q (elim b as (λ _. M A) [ true ↦ m | false ↦ k ])
Takes-bool true m k km kk = km refl
Takes-bool false m k km kk = kk refl

pub Takes-set_bound :
    {P Q : List Ptr → Type 0} (c : ℕ) (v : Ptr)
    → ((bs : List Ptr) (old : Ptr) → get_elem? bs c ≡ some old → P bs → Q (set bs c v))
    → Takes P Q (set_bound c v)
unfolding set_bound
Takes-set_bound {Q = Q} c v k = record {
  at = λ h a h' e p.
      let w = write_at-done h.bounds c v (λ xs. record h { bounds = xs }) h' e in
      subst Q (sym (ap (λ (x : Heap). x.bounds) w.after)) (k h.bounds w.old w.stood p);
}

-- what follows a read knows what was read
pub Takes-read :
    {A : Type 0} {P Q : List Ptr → Type 0} (c : ℕ) (f : Ptr → M A)
    → ((b : Ptr) → Takes (λ bs. P bs × (get_elem? bs c ≡ some b)) Q (f b))
    → Takes P Q (get_bound c >>= f)
unfolding get_bound
Takes-read {P = P} c f kf = record {
  at = λ h b h' e p.
      let s = bind-done (get_bound c) f h b h' e in
      let r = known-done (get_elem? h.bounds c) h s.value s.between s.first in
      let stands : get_elem? (s.between).bounds c ≡ some s.value =
        ap (λ (x : Heap). get_elem? x.bounds c) (r.1) ∙ r.0 in
      (kf s.value).at s.between b h' s.second
        (subst P (sym (ap (λ (x : Heap). x.bounds) (r.1))) p, stands);
}

abbrev pub is_mark : Marks → Ptr → Bool
is_mark m v = points_to v m.present || points_to v m.used

abbrev pub has : ℕ → List ℕ → Bool
has i [] = false
has i (c ∷ cs) = c == i || has i cs

-- every binding is empty
abbrev pub IsClean : List Ptr → Type 0
IsClean bs = (i : ℕ) (v : Ptr) → get_elem? bs i ≡ some v → v ≡ none

-- every binding is empty, or holds a mark and is one of these
abbrev pub Marked : Marks → List ℕ → List Ptr → Type 0
Marked m cs bs =
    (i : ℕ) (v : Ptr)
    → get_elem? bs i ≡ some v
    → (v ≡ none) ⊎ ((is_mark m v ≡ true) × (has i cs ≡ true))

-- what stands at a place after a write
pub set-cases :
    (bs : List Ptr) (c : ℕ) (v old : Ptr) (i : ℕ) (w : Ptr)
    → get_elem? bs c ≡ some old
    → get_elem? (set bs c v) i ≡ some w
    → (((c == i) ≡ true) × (w ≡ v)) ⊎ (((c == i) ≡ false) × (get_elem? bs i ≡ some w))
set-cases bs c v old i w stood e = elim (Bool-cases (c == i)) [
  | inl p ↦
      let at : c ≡ i = (==_iff c i).0 p in
      let here : get_elem? (set bs c v) i ≡ some v =
        ap (get_elem? (set bs c v)) (sym at) ∙ get_elem?-set bs c v old stood in
      inl (p, cc)
  | inr p ↦ inr (p, sym (get_elem?-set_ne bs c i v (λ (at : c ≡ i). cc (p, (==_iff c i).1 at))) ∙ e)
]

-- The write of a mark to one of the places.
pub write_mark :
    (m : Marks) (cs : List ℕ) (c v : ℕ) (bs : List Ptr) (old : Ptr)
    → is_mark m (some v) ≡ true
    → has c cs ≡ true
    → get_elem? bs c ≡ some old
    → Marked m cs bs
    → Marked m cs (set bs c (some v))
write_mark m cs c v bs old mk there stood k i w e = elim (set-cases bs c (some v) old i w stood e) [
  | inl (p, q) ↦ inr (ap (is_mark m) q ∙ mk, subst (λ j. has j cs ≡ true) ((==_iff c i).0 p) there)
  | inr (p, at) ↦ k i w at
]

pub IsClean-Marked : (m : Marks) (cs : List ℕ) (bs : List Ptr) → IsClean bs → Marked m cs bs
IsClean-Marked m cs bs k i v e = inl (k i v e)

pub Marked-IsClean : (m : Marks) (bs : List Ptr) → Marked m [] bs → IsClean bs
Marked-IsClean m bs k i v e = elim (k i v e) [ inl p ↦ p | inr (p, q) ↦ cc ]

eq_self : (a : ℕ) → (a == a) ≡ true
eq_self a = (==_iff a a).1 refl

pub is_present : (m : Marks) → is_mark m (some m.present) ≡ true
is_present m = rw (eq_self m.present) refl

or_true : (b : Bool) → (b || true) ≡ true
or_true true = refl
or_true false = refl

pub is_used : (m : Marks) → is_mark m (some m.used) ≡ true
is_used m = rw (eq_self m.used) (or_true _)

pub All-has :
    (cs ds : List ℕ) → ((i : ℕ) → has i cs ≡ true → has i ds ≡ true) → All (λ c. has c ds ≡ true) cs
All-has [] ds f = tt
All-has (c ∷ cs) ds f =
    (f c (rw (eq_self c) refl), All-has cs ds (λ i h. f i (rw h (or_true (c == i)))))
