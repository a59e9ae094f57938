-- ===== src/Common/Str/Intern/Laws.antt =====
-- Calls of `lsstr_new` on a table that is a finite map from texts to strings.
use lazyscript.Prelude.{
  ℕ, suc, ◌+◌, ◌*◌, ◌^◌, ◌≤◌, ◌<◌, ◌≡◌, refl, sym, ap, ◌∙◌, ◌⊎◌, inl, inr, Option, none, some, List,
  [], ◌∷◌, Bytes, All, same, same→eq, same_refl, length, set, length-set, get_elem?, arith,
  Bool-cases, Option-cases,
}
use mathlib.Core.Path.{subst}
use lazyscript.Common.Str.{LsStr}
use lazyscript.Common.Hash.Buckets.{update}
use lazyscript.Common.Str.Intern.{
  StrHt, and_then, put_at, put_raw, put_raw_resizable, ensure_init, new,
}
use lazyscript.Common.Str.Intern.Search.{Has}
use lazyscript.Common.Str.Intern.Packed.{
  Stands, slot_of, occupied-set, Has-set_old, Has-set_new, Has-set_cases, get_raw-slot_of,
  set-IsPacked,
}
use lazyscript.Common.Str.Intern.Resize.{any-Slot}
use lazyscript.Common.Str.Intern.Model.{Models, double_cap-Doubled, resize-Resized}

-- how many strings there are
abbrev pub size_of : Option StrHt → ℕ
size_of t = (ensure_init t).size

abbrev pub or_new : ℕ → Bytes → Option LsStr → LsStr
or_new addr bs (some e) = e
or_new addr bs none = record { buf = addr; bytes = bs }

module _ (text : ℕ → Bytes) where
  module _ (f : Bytes → Option LsStr) where
    -- what a text is interned to: the string of the table, or a new one
    abbrev pub interned : ℕ → Bytes → LsStr
    interned addr bs = or_new addr bs (f bs)

    interned-none :
        (addr : ℕ) (bs : Bytes) → f bs ≡ none → interned addr bs ≡ record { buf = addr; bytes = bs }
    interned-none addr bs d = ap (or_new addr bs) d

    interned-some : (addr : ℕ) (bs : Bytes) (e : LsStr) → f bs ≡ some e → interned addr bs ≡ e
    interned-some addr bs e d = ap (or_new addr bs) d

    -- The string, and a table that has it, with at most one string more than `n`.
    pub record Interns (run : Option (LsStr × StrHt)) (addr : ℕ) (bs : Bytes) (n : ℕ) : Type 0 where
      pub table : StrHt
      pub runs : run ≡ some (interned addr bs, table)
      pub models : Models text (update f bs (some (interned addr bs))) table
      pub grown : table.size ≤ suc n

    Lacks-none :
        (t : StrHt) (bs : Bytes) (i : ℕ)
        → Models text f t
        → slot_of t.ents bs ≡ some i
        → get_elem? t.ents i ≡ some none
        → f bs ≡ none
    Lacks-none t bs i m found free = elim (Option-cases (f bs)) [
      | inl d ↦ d
      | inr (e, d) ↦
          let s = m.stored bs e d in
          let k = m.packed.placed s.1.index e s.1.at in
          absurd (cc (ap (slot_of t.ents) s.0, k, found, s.1.at, free))
    ]

    update_same : (bs q : Bytes) (e : LsStr) → f bs ≡ some e → update f bs (some e) q ≡ f q
    update_same bs q e d = elim (Bool-cases (same bs q)) [
      | inl y ↦ rw y (sym (ap f (sym (same→eq bs q y)) ∙ d))
      | inr y ↦ rw y refl
    ]

    -- A string that is read after another has been added is that one, or was read before.
    update-cases :
        (bs q : Bytes) (e x : LsStr)
        → update f bs (some e) q ≡ some x
        → (bs ≡ q × x ≡ e) ⊎ (f q ≡ some x)
    update-cases bs q e x h = elim (Bool-cases (same bs q)) [
      | inl y ↦ inl (same→eq bs q y, cc (rw y at h))
      | inr y ↦ inr (rw y at h)
    ]

    new-Models :
        (t : StrHt) (bs : Bytes) (e : LsStr) (i : ℕ)
        → Models text f t
        → Stands text e
        → e.bytes ≡ bs
        → f bs ≡ none
        → suc t.size * 2 < length t.ents
        → slot_of t.ents e.bytes ≡ some i
        → get_elem? t.ents i ≡ some none
        → Models text
            (update f bs (some e))
            (record { ents = set t.ents i (some e); size = suc t.size })
    new-Models t bs e i m s eq free wide found at = record {
      packed = set-IsPacked text t.ents i e m.packed s found at;
      reads = λ x h. elim (Has-set_cases t.ents i h.index e x at h.at) [
        | inl (k, q) ↦ rw (ap (same bs) (ap (λ z. z.bytes) q ∙ eq) ∙ same_refl bs) (ap some (sym q))
        | inr (k, stood) ↦
            let r = m.reads x (record { index = h.index; at = stood }) in
            elim (Bool-cases (same bs x.bytes)) [
              | inl y ↦ absurd (cc (free, ap f (same→eq bs x.bytes y), r))
              | inr y ↦ rw y r
            ]
      ];
      stored = λ q x h. elim (update-cases bs q e x h) [
        | inl (b, d) ↦
            (ap (λ z. z.bytes) d ∙ eq ∙ b, subst (Has _) (sym d) (Has-set_new t.ents i e at))
        | inr d ↦ let r = m.stored q x d in (r.0, Has-set_old t.ents i e x at r.1)
      ];
      sized = occupied-set t.ents i e at ∙ ap suc m.sized;
      roomy = rw (length-set t.ents i (some e)) wide;
    }

    old-Models :
        (t : StrHt) (bs : Bytes) (e : LsStr)
        → Models text f t
        → f bs ≡ some e
        → Models text (update f bs (some e)) t
    old-Models t bs e m d = record {
      packed = m.packed;
      reads = λ x h. update_same bs x.bytes e d ∙ m.reads x h;
      stored = λ q x h. m.stored q x (sym (update_same bs q e d) ∙ h);
      sized = m.sized;
      roomy = m.roomy;
    }

    put_at-Interns :
        (t : StrHt) (addr : ℕ) (key : LsStr) (i : ℕ) (o : Option LsStr)
        → Models text f t
        → Stands text key
        → text addr ≡ key.bytes
        → suc t.size * 2 < length t.ents
        → slot_of t.ents key.bytes ≡ some i
        → get_elem? t.ents i ≡ some o
        → ((e : LsStr) → o ≡ some e → e.bytes ≡ key.bytes)
        → Interns (put_at addr t key i (some o)) addr key.bytes t.size
    unfolding put_at
    put_at-Interns t addr key i none m s fresh wide found at fits =
        let new_str : LsStr = record { buf = addr; bytes = key.bytes } in
        let larger : StrHt = record { ents = set t.ents i (some new_str); size = suc t.size } in
        let free = Lacks-none t key.bytes i m found at in
        record {
          table = larger;
          runs = ap (λ z. some (z, larger)) (sym (interned-none addr key.bytes free));
          models =
              subst (λ z. Models text (update f key.bytes (some z)) larger)
                (sym (interned-none addr key.bytes free))
                (new-Models t key.bytes new_str i m (record { here = sym fresh; short = s.short })
                  refl free wide found at);
          grown = omega arith;
        }
    put_at-Interns t addr key i (some e) m s fresh wide found at fits =
        let d : f key.bytes ≡ some e =
          ap f (sym (fits e refl)) ∙ m.reads e (record { index = i; at = at }) in
        record {
          table = t;
          runs = ap (λ z. some (z, t)) (sym (interned-some addr key.bytes e d));
          models =
              subst (λ z. Models text (update f key.bytes (some z)) t)
                (sym (interned-some addr key.bytes e d)) (old-Models t key.bytes e m d);
          grown = omega arith;
        }

    put_raw-Interns :
        (t : StrHt) (addr : ℕ) (key : LsStr)
        → Models text f t
        → Stands text key
        → text addr ≡ key.bytes
        → suc t.size * 2 < length t.ents
        → Interns (put_raw addr t key) addr key.bytes t.size
    unfolding put_raw
    put_raw-Interns t addr key m s fresh wide =
        let w = any-Slot t.ents key.bytes (omega (arith, m.sized)) in
        let r = put_at-Interns t addr key w.index w.slot m s fresh wide w.found w.at w.fits in
        record {
          table = r.table;
          runs =
              ap (and_then _) (get_raw-slot_of text t.ents key m.packed.stands s ∙ w.found)
              ∙ ap (put_at addr t key w.index) w.at
              ∙ r.runs;
          models = r.models;
          grown = r.grown;
        }

    -- In a table of fewer than 2^30 - 1 strings a string is interned: when the table has one with its bytes, the answer is that one, and
    -- otherwise a new one, which the table has from then on. The table keeps all others, and room, and
    -- has at most one string more.
    pub new-Interns :
        (t : Option StrHt) (addr : ℕ) (key : LsStr)
        → Models text f (ensure_init t)
        → Stands text key
        → text addr ≡ key.bytes
        → suc (size_of t) < 2 ^ 30
        → Interns (new addr t key) addr key.bytes (size_of t)
    unfolding new put_raw_resizable
    new-Interns t addr key m s fresh small =
        let u = ensure_init t in
        let c =
          double_cap-Doubled 33 u.size (length u.ents) (omega (arith, m.roomy)) (omega arith) small
            (omega (arith, m.roomy)) in
        let z = resize-Resized text f u c.larger m (omega (arith, c.above)) in
        let r =
          put_raw-Interns z.table addr key z.models s fresh
            (omega (arith, z.same_size, z.wide, c.above)) in
        record {
          table = r.table;
          runs = ap (and_then _) c.runs ∙ ap (and_then _) z.runs ∙ r.runs;
          models = r.models;
          grown = omega (arith, r.grown, z.same_size);
        }

-- A call of `lsstr_new`: the address that a new buffer would have, and the string that is passed.
pub record Call : Type 0 where
  pub addr : ℕ
  pub key : LsStr

-- calls one after the other, of which the answers are dropped
unfoldable pub new_all : List Call → StrHt → Option StrHt
unfolding new
new_all [] t = some t
new_all (c ∷ cs) t = and_then (λ r. new_all cs r.1) (new c.addr (some t) c.key)

-- the answers of two calls, with calls between them
unfoldable pub two_calls : Option StrHt → Call → List Call → Call → Option (LsStr × LsStr)
unfolding new_all
two_calls t c cs d =
    and_then
      (λ r.
        and_then (λ u. and_then (λ q. some (r.0, q.0)) (new d.addr (some u) d.key))
          (new_all cs r.1))
      (new c.addr t c.key)

module _ (text : ℕ → Bytes) where
  -- the buffers of a call have the texts that are said
  pub record IsCall (c : Call) : Type 0 where
    pub stands : Stands text c.key
    pub fresh : text c.addr ≡ c.key.bytes

  -- Calls keep a string, and the table that they leave, with at most `n` strings, is a model again.
  record Keeps (bs : Bytes) (str : LsStr) (run : Option StrHt) (n : ℕ) : Type 0 where
    after : StrHt
    runs : run ≡ some after
    view : Bytes → Option LsStr
    models : Models text view after
    has_str : view bs ≡ some str
    grown : after.size ≤ n

  update-keeps :
      (f : Bytes → Option LsStr) (bs q : Bytes) (str : LsStr) (addr : ℕ)
      → f bs ≡ some str
      → update f q (some (interned text f addr q)) bs ≡ some str
  update-keeps f bs q str addr d = elim (Bool-cases (same q bs)) [
    | inl y ↦ rw y (ap some (ap (or_new addr q) (ap f (same→eq q bs y) ∙ d)))
    | inr y ↦ rw y d
  ]

  new_all-Keeps :
      (cs : List Call) (f : Bytes → Option LsStr) (t : StrHt) (bs : Bytes) (str : LsStr)
      → All IsCall cs
      → Models text f t
      → f bs ≡ some str
      → t.size + length cs < 2 ^ 30
      → Keeps bs str (new_all cs t) (t.size + length cs)
  unfolding new_all ensure_init
  new_all-Keeps [] f t bs str h m d small = record {
    after = t;
    runs = refl;
    view = f;
    models = m;
    has_str = d;
    grown = omega arith;
  }
  new_all-Keeps (c ∷ cs) f t bs str (h, hs) m d small =
      let r = new-Interns text f (some t) c.addr c.key m h.stands h.fresh (omega arith) in
      let k =
        new_all-Keeps cs _ r.table bs str hs r.models (update-keeps f bs c.key.bytes str c.addr d)
          (omega (arith, r.grown)) in
      record {
        after = k.after;
        runs = ap (and_then _) r.runs ∙ k.runs;
        view = k.view;
        models = k.models;
        has_str = k.has_str;
        grown = omega (arith, k.grown, r.grown);
      }

  -- The same bytes are interned to the same string, whatever is interned in between, as long as the
  -- strings of the table and all calls are fewer than 2^30 together.
  pub new_again :
      (f : Bytes → Option LsStr) (t : Option StrHt) (c : Call) (cs : List Call) (d : Call)
      → Models text f (ensure_init t)
      → IsCall c
      → All IsCall cs
      → IsCall d
      → d.key.bytes ≡ c.key.bytes
      → size_of t + length cs + 2 < 2 ^ 30
      → two_calls t c cs d
        ≡ some (interned text f c.addr c.key.bytes, interned text f c.addr c.key.bytes)
  unfolding two_calls
  new_again f t c cs d m hc hcs hd eq small =
      let bs = c.key.bytes in
      let r = new-Interns text f t c.addr c.key m hc.stands hc.fresh (omega arith) in
      let str = interned text f c.addr bs in
      let k =
        new_all-Keeps cs _ r.table bs str hcs r.models (rw (same_refl bs) refl)
          (omega (arith, r.grown)) in
      let z =
        new-Interns text k.view (some k.after) d.addr d.key k.models hd.stands hd.fresh
          (omega (arith, k.grown, r.grown)) in
      ap (and_then _) r.runs
      ∙ ap (and_then _) k.runs
      ∙ ap (and_then _) z.runs
      ∙ ap (λ y. some (str, y)) (ap (or_new d.addr d.key.bytes) (ap k.view eq ∙ k.has_str))
