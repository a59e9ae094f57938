-- ===== src/Common/Str/Intern/Resize.antt =====
-- Moving the entries to a new array.
use lazyscript.Prelude.{
  ℕ, zero, suc, ◌+◌, ◌<◌, ◌≡◌, ◌≢◌, refl, sym, ap, ◌∙◌, ◌⊎◌, inl, inr, Option, none, some, [], ◌∷◌,
  Bytes, same→eq, length, set, length-set, get_elem?, arith,
}
use mathlib.Core.Path.{subst}
use lazyscript.Common.Str.{LsStr}
use lazyscript.Common.Str.Intern.{Ents, and_then, fill, move, move_all}
use lazyscript.Common.Str.Intern.Search.{Has, search-Hit}
use lazyscript.Common.Str.Intern.Packed.{
  Stands, slot_of, IsPacked, occupied, occupied-set, slot_of-IsSome, Has-set_old, Has-set_new,
  Has-set_cases, get_raw-slot_of, set-IsPacked,
}

-- What the slot of a text holds: nothing where no string has these bytes.
pub record Slot (ents : Ents) (bs : Bytes) : Type 0 where
  pub index : ℕ
  pub found : slot_of ents bs ≡ some index
  pub slot : Option LsStr
  pub at : get_elem? ents index ≡ some slot
  pub fits : (e : LsStr) → slot ≡ some e → e.bytes ≡ bs

pub any-Slot : (ents : Ents) (bs : Bytes) → occupied ents < length ents → Slot ents bs
unfolding slot_of
any-Slot ents bs lt =
    let s = slot_of-IsSome ents bs lt in
    let h = search-Hit _ _ ents _ s.value s.is in
    record {
      index = s.value;
      found = s.is;
      slot = h.slot;
      at = h.at;
      fits = λ e eq. same→eq e.bytes bs (h.fits e eq);
    }

-- No string of `ents` has the bytes.
abbrev pub Lacks : Ents → Bytes → Type 0
Lacks ents bs = (x : LsStr) → Has ents x → x.bytes ≢ bs

-- an empty slot, where the search for the bytes ends
pub record Free (ents : Ents) (bs : Bytes) : Type 0 where
  pub index : ℕ
  pub found : slot_of ents bs ≡ some index
  pub at : get_elem? ents index ≡ some none

Free-slot :
    (ents : Ents) (bs : Bytes) (i : ℕ) (o : Option LsStr)
    → slot_of ents bs ≡ some i
    → get_elem? ents i ≡ some o
    → ((e : LsStr) → o ≡ some e → e.bytes ≡ bs)
    → Lacks ents bs
    → Free ents bs
Free-slot ents bs i none found at fits lacks = record { index = i; found = found; at = at }
Free-slot ents bs i (some x) found at fits lacks =
    absurd (lacks x (record { index = i; at = at }) (fits x refl))

pub any-Free :
    (ents : Ents) (bs : Bytes) → occupied ents < length ents → Lacks ents bs → Free ents bs
any-Free ents bs lt lacks =
    let s = any-Slot ents bs lt in Free-slot ents bs s.index s.slot s.found s.at s.fits lacks

-- The entries are moved one after the other.
pub record Moves (text : ℕ → Bytes) (old ents : Ents) : Type 0 where
  pub result : Ents
  pub runs : move_all old ents ≡ some result
  pub packed : IsPacked text result
  pub wide : length result ≡ length ents
  pub counted : occupied result ≡ occupied ents + occupied old
  pub from : (x : LsStr) → Has result x → Has ents x ⊎ Has old x
  pub kept : (x : LsStr) → Has ents x → Has result x
  pub moved : (x : LsStr) → Has old x → Has result x

-- Strings at two places have different bytes.
abbrev pub Single : Ents → Type 0
Single ents =
    (i j : ℕ) (e x : LsStr)
    → get_elem? ents i ≡ some (some e)
    → get_elem? ents j ≡ some (some x)
    → e.bytes ≡ x.bytes
    → i ≡ j

Has-later : (old : Ents) (o : Option LsStr) (x : LsStr) → Has old x → Has (o ∷ old) x
Has-later old o x h = record { index = suc h.index; at = h.at }

suc_inj : {m n : ℕ} → suc m ≡ suc n → m ≡ n
suc_inj e = omega arith

absurd_zero : (n : ℕ) → 0 ≢ suc n
absurd_zero n d = absurd (omega arith)

pub set-Lacks :
    (ents : Ents) (i : ℕ) (e : LsStr) (bs : Bytes)
    → get_elem? ents i ≡ some none
    → Lacks ents bs
    → e.bytes ≢ bs
    → Lacks (set ents i (some e)) bs
set-Lacks ents i e bs free lacks ne x h d = elim (Has-set_cases ents i h.index e x free h.at) [
  | inl (k, q) ↦ ne (ap (λ z. z.bytes) (sym q) ∙ d)
  | inr (k, at) ↦ lacks x (record { index = h.index; at = at }) d
]

Has-tail : (old : Ents) (x : LsStr) (i : ℕ) → get_elem? (none ∷ old) i ≡ some (some x) → Has old x
Has-tail old x zero at = cc
Has-tail old x (suc i) at = record { index = i; at = at }

-- a string of a list is the first one or stands behind it
Has-cases :
    (old : Ents) (e x : LsStr) (i : ℕ)
    → get_elem? (some e ∷ old) i ≡ some (some x)
    → (x ≡ e) ⊎ Has old x
Has-cases old e x zero at = inl (cc (at))
Has-cases old e x (suc i) at = inr (record { index = i; at = at })

module _ (text : ℕ → Bytes) where
  move-runs :
      (ents : Ents) (e : LsStr)
      → IsPacked text ents
      → Stands text e
      → (f : Free ents e.bytes) → move ents e ≡ some (set ents f.index (some e))
  unfolding move fill
  move-runs ents e p s f =
      ap (and_then _) (get_raw-slot_of text ents e p.stands s ∙ f.found)
      ∙ ap (fill ents e f.index) f.at

  pub move_all-Moves :
      (old ents : Ents)
      → IsPacked text ents
      → ((e : LsStr) → Has old e → Stands text e)
      → Single old
      → ((e : LsStr) → Has old e → Lacks ents e.bytes)
      → occupied ents + occupied old < length ents
      → Moves text old ents
  unfolding move_all occupied
  move_all-Moves [] ents p all single apart lt = record {
    result = ents;
    runs = refl;
    packed = p;
    wide = refl;
    counted = omega arith;
    from = λ x h. inl h;
    kept = λ x h. h;
    moved = λ x h. absurd (cc (h.at));
  }
  move_all-Moves (none ∷ old) ents p all single apart lt =
      let r =
        move_all-Moves old ents p (λ e h. all e (Has-later old none e h))
          (λ i j e x a b d. suc_inj (single (suc i) (suc j) e x a b d))
          (λ e h. apart e (Has-later old none e h)) lt in
      record {
        result = r.result;
        runs = r.runs;
        packed = r.packed;
        wide = r.wide;
        counted = r.counted;
        from = λ x h. elim (r.from x h) [ inl a ↦ inl a | inr a ↦ inr (Has-later old none x a) ];
        kept = r.kept;
        moved = λ x h. r.moved x (Has-tail old x h.index h.at);
      }
  move_all-Moves (some e ∷ old) ents p all single apart lt =
      let here : Has (some e ∷ old) e = record { index = 0; at = refl } in
      let s = all e here in
      let f = any-Free ents e.bytes (omega arith) (apart e here) in
      let ents' = set ents f.index (some e) in
      let r =
        move_all-Moves old ents' (set-IsPacked text ents f.index e p s f.found f.at)
          (λ x h. all x (Has-later old (some e) x h))
          (λ i j x y a b d. suc_inj (single (suc i) (suc j) x y a b d))
          (λ x h.
            set-Lacks ents f.index e x.bytes f.at (apart x (Has-later old (some e) x h))
              (λ d. absurd_zero h.index (single 0 (suc h.index) e x refl h.at d)))
          (rw (occupied-set ents f.index e f.at, length-set ents f.index (some e)) (omega arith)) in
      record {
        result = r.result;
        runs = ap (and_then _) (move-runs ents e p s f) ∙ r.runs;
        packed = r.packed;
        wide = r.wide ∙ length-set ents f.index (some e);
        counted = omega (arith, r.counted, occupied-set ents f.index e f.at);
        from = λ x h. elim (r.from x h) [
          | inl a ↦ elim (Has-set_cases ents f.index a.index e x f.at a.at) [
            | inl (d, q) ↦ inr (subst (Has (some e ∷ old)) (sym q) here)
            | inr (d, at) ↦ inl (record { index = a.index; at = at })
          ]
          | inr a ↦ inr (Has-later old (some e) x a)
        ];
        kept = λ x h. r.kept x (Has-set_old ents f.index e x f.at h);
        moved = λ x h. elim (Has-cases old e x h.index h.at) [
          | inl q ↦ r.kept x (subst (Has ents') (sym q) (Has-set_new ents f.index e f.at))
          | inr a ↦ r.moved x a
        ];
      }
