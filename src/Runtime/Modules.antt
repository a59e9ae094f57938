-- ===== src/Runtime/Modules.antt =====
-- The table of loaded modules, src/runtime/modules.c: a hash table that the first module makes, whose
-- keys are paths. The theorems take the table as the map that it models.
use lazyscript.Prelude.{
  ℕ, ◌≤◌, ◌^◌, Bool, true, false, ◌||◌, ◌≡◌, sym, ap, ◌∙◌, Option, none, some, Bytes, same, arith,
  Bool-cases, inl, inr,
}
use lazyscript.Common.Hash.{Table, new, get, put}
use lazyscript.Common.Hash.Buckets.{update}
use lazyscript.Common.Hash.Laws.{Models, new-Models, get-Models, put-Models}

-- `none` before the first module; each value in the table is (void*)1
abbrev pub Loaded : Type 0
Loaded = Option (Table (Unit {0}))

abbrev pub is_some : Option (Unit {0}) → Bool
is_some none = false
is_some (some u) = true

unfoldable pub is_loaded : Loaded → Bytes → Bool
unfolding get
is_loaded none path = false
is_loaded (some t) path = is_some (get t path)

abbrev pub table_of : Loaded → Table (Unit {0})
table_of none = new 16
table_of (some t) = t

unfoldable pub mark_loaded : Loaded → Bytes → Loaded
unfolding new put
mark_loaded l path = some ((put (table_of l) path tt).0)

-- The modules that `seen` holds of are those in the table.
pub data Holds (seen : Bytes → Bool) : Loaded → Type 0 where
  unmade : ((q : Bytes) → seen q ≡ false) → Holds seen none
  made :
      (f : Bytes → Option (Unit {0})) (n : ℕ) (t : Table (Unit {0}))
      → Models f n t
      → ((q : Bytes) → is_some (f q) ≡ seen q)
      → Holds seen (some t)

-- A module is loaded exactly where it has been seen.
pub is_loaded-Holds :
    (seen : Bytes → Bool) (l : Loaded) (q : Bytes) → Holds seen l → is_loaded l q ≡ seen q
unfolding is_loaded
is_loaded-Holds seen _ q (unmade h) = sym (h q)
is_loaded-Holds seen _ q (made f n t m h) = ap is_some (get-Models f n t q m) ∙ h q

update-seen :
    (f : Bytes → Option (Unit {0})) (seen : Bytes → Bool) (p q : Bytes)
    → ((q : Bytes) → is_some (f q) ≡ seen q)
    → is_some (update f p (some tt) q) ≡ (same p q || seen q)
update-seen f seen p q h = elim (Bool-cases (same p q)) [ inl e ↦ rw e | inr e ↦ rw e (h q) ]

-- After a module is marked, it has been seen, and otherwise the same modules as before, as long as
-- the table has at most 2^26 slots.
pub mark_loaded-Holds :
    (seen : Bytes → Bool) (l : Loaded) (p : Bytes)
    → Holds seen l
    → (table_of l).capacity ≤ 2 ^ 26
    → Holds (λ q. same p q || seen q) (mark_loaded l p)
unfolding mark_loaded
mark_loaded-Holds seen _ p (unmade h) le =
    made _ _ _ ((put-Models (λ _. none) 0 (new 16) p tt (new-Models 16 (omega arith)) le).0)
      (λ q. update-seen (λ _. none) seen p q (λ r. sym (h r)))
mark_loaded-Holds seen _ p (made f n t m h) le =
    made _ _ _ ((put-Models f n t p tt m le).0) (λ q. update-seen f seen p q h)

-- After a module is marked, it is loaded, and otherwise the same modules as before, as long as the
-- table has at most 2^26 slots.
pub is_loaded-mark_loaded :
    (seen : Bytes → Bool) (l : Loaded) (p q : Bytes)
    → Holds seen l
    → (table_of l).capacity ≤ 2 ^ 26
    → is_loaded (mark_loaded l p) q ≡ (same p q || is_loaded l q)
is_loaded-mark_loaded seen l p q h le =
    is_loaded-Holds (λ r. same p r || seen r) (mark_loaded l p) q (mark_loaded-Holds seen l p h le)
    ∙ ap (λ b. same p q || b) (sym (is_loaded-Holds seen l q h))
