-- ===== src/Common/Str/Intern/Model.antt =====
-- The table of strings as a finite map from texts to strings.
use lazyscript.Prelude.{
  ℕ, zero, suc, ◌+◌, ◌*◌, ◌%◌, ◌^◌, ◌≤◌, ◌<◌, ◌≡◌, ◌≢◌, refl, ap, ◌∙◌, inl, inr, true, false,
  Option, none, some, Bytes, length, replicate, length-replicate, get_elem?, arith, Bool-cases, leb,
  leb→le, if◌then◌else◌, ◌==◌, ==_iff,
}
use lazyscript.Common.Str.{LsStr}
use lazyscript.Common.Str.Intern.{Ents, StrHt, and_then, resize, word, double_cap, ensure_init}
use lazyscript.Common.Str.Intern.Search.{Has}
use lazyscript.Common.Str.Intern.Packed.{slot_of, IsPacked, occupied}
use lazyscript.Common.Str.Intern.Resize.{Moves, move_all-Moves, Single}

-- The table holds the strings that `f` gives for their bytes, and less than half of it is full.
pub record Models (text : ℕ → Bytes) (f : Bytes → Option LsStr) (t : StrHt) : Type 0 where
  pub packed : IsPacked text t.ents
  pub reads : (e : LsStr) → Has t.ents e → f e.bytes ≡ some e
  pub stored : (bs : Bytes) (e : LsStr) → f bs ≡ some e → e.bytes ≡ bs × Has t.ents e
  pub sized : occupied t.ents ≡ t.size
  pub roomy : t.size * 2 < length t.ents

replicate-empty : (n i : ℕ) (e : LsStr) → get_elem? (replicate n none) i ≢ some (some e)
replicate-empty zero i e d = cc
replicate-empty (suc n) zero e d = cc
replicate-empty (suc n) (suc i) e d = replicate-empty n i e d

occupied-replicate : (n : ℕ) → occupied (replicate n none) ≡ 0
unfolding occupied
occupied-replicate zero = refl
occupied-replicate (suc n) = occupied-replicate n

-- a capacity that is above twice the new size
pub record Doubled (fuel size old_cap : ℕ) : Type 0 where
  pub larger : ℕ
  pub runs : double_cap fuel size old_cap ≡ some larger
  pub above : suc size * 2 < larger

in_word : (n : ℕ) → n < word → n % word ≡ n
in_word n lt = omega arith

twice_in_word : (size : ℕ) → suc size < 2 ^ 30 → (size + 1) % word * 2 % word ≡ suc size * 2
twice_in_word size small = omega arith

double_cap-low :
    (fuel size cap : ℕ)
    → suc size < 2 ^ 30
    → leb cap (suc size * 2) ≡ true
    → double_cap (suc fuel) size cap ≡ double_cap fuel size (cap * 2)
unfolding double_cap
double_cap-low fuel size cap small y =
    let below = leb→le cap (suc size * 2) y in
    rw (twice_in_word size small, y, in_word (cap * 2) (omega (arith, small, below))) refl

double_cap-high :
    (fuel size cap : ℕ)
    → suc size < 2 ^ 30
    → leb cap (suc size * 2) ≡ false
    → double_cap (suc fuel) size cap ≡ some cap
unfolding double_cap
double_cap-high fuel size cap small y = rw (twice_in_word size small, y) refl

pub double_cap-Doubled :
    (fuel size old_cap : ℕ)
    → 0 < old_cap
    → 0 < fuel
    → suc size < 2 ^ 30
    → suc size * 2 + 2 ≤ old_cap + fuel
    → Doubled fuel size old_cap
double_cap-Doubled zero size old_cap p q small le = absurd (omega arith)
double_cap-Doubled (suc fuel) size old_cap p q small le =
    elim (Bool-cases (leb old_cap (suc size * 2))) [
      | inl y ↦
          let below = leb→le old_cap (suc size * 2) y in
          let r =
            double_cap-Doubled fuel size (old_cap * 2) (omega arith) (omega arith) small
              (omega arith) in
          record {
            larger = r.larger;
            runs = double_cap-low fuel size old_cap small y ∙ r.runs;
            above = r.above;
          }
      | inr y ↦ record {
        larger = old_cap;
        runs = double_cap-high fuel size old_cap small y;
        above = ground arith;
      }
    ]

module _ (text : ℕ → Bytes) where
  empty-IsPacked : (n : ℕ) → IsPacked text (replicate n none)
  empty-IsPacked n = record {
    stands = λ e h. absurd (replicate-empty n h.index e h.at);
    placed = λ i e at. absurd (replicate-empty n i e at);
  }

  -- Before the first string the table holds none.
  pub ensure_init-Models : Models text (λ _. none) (ensure_init none)
  unfolding ensure_init
  ensure_init-Models = record {
    packed = empty-IsPacked 16;
    reads = λ e h. absurd (replicate-empty 16 h.index e h.at);
    stored = λ bs e d. cc;
    sized = occupied-replicate 16;
    roomy = omega arith;
  }

  module _ (f : Bytes → Option LsStr) where
    -- a table with another capacity
    pub record Resized (t : StrHt) (n : ℕ) : Type 0 where
      pub table : StrHt
      pub runs : resize t n ≡ some table
      pub models : Models text f table
      pub same_size : table.size ≡ t.size
      pub wide : length table.ents ≡ n

    Single-packed : (ents : Ents) → IsPacked text ents → Single ents
    Single-packed ents p i j e x a b d =
        let k = p.placed i e a in let l = p.placed j x b in cc (k, l, ap (slot_of ents) d)

    moves :
        (t : StrHt) (n : ℕ)
        → Models text f t
        → t.size * 2 < n
        → Moves text t.ents (replicate n none)
    moves t n m above =
        move_all-Moves text t.ents (replicate n none) (empty-IsPacked n) m.packed.stands
          (Single-packed t.ents m.packed) (λ e h x g d. replicate-empty n g.index x g.at)
          (rw (occupied-replicate n, length-replicate {A = Option LsStr} n none, m.sized)
            (omega arith))

    abbrev moved_size : StrHt → ℕ
    moved_size t = if length t.ents == 0 then 0 else t.size

    moved_size-same : (t : StrHt) → Models text f t → moved_size t ≡ t.size
    moved_size-same t m = let r = m.roomy in ground arith

    pub resize-Resized : (t : StrHt) (n : ℕ) → Models text f t → t.size * 2 < n → Resized t n
    unfolding resize
    resize-Resized t n m above =
        let fits : leb t.size n ≡ true = ground arith in
        elim (Bool-cases (length t.ents == n)) [
          | inl y ↦ record {
            table = t;
            runs = rw (fits, y) refl;
            models = m;
            same_size = refl;
            wide = (==_iff (length t.ents) n).0 y;
          }
          | inr y ↦
              let r = moves t n m above in
              record {
                table = record { ents = r.result; size = moved_size t };
                runs = rw (fits, y) (ap (and_then _) r.runs);
                models = record {
                  packed = r.packed;
                  reads = λ e h. elim (r.from e h) [
                    | inl a ↦ absurd (replicate-empty n a.index e a.at)
                    | inr a ↦ m.reads e a
                  ];
                  stored = λ bs e d. let s = m.stored bs e d in (s.0, r.moved e s.1);
                  sized =
                      omega (arith, r.counted, occupied-replicate n, m.sized, moved_size-same t m);
                  roomy = omega (
                    arith,
                    above,
                    moved_size-same t m,
                    r.wide,
                    length-replicate {A = Option LsStr} n none,
                  );
                };
                same_size = moved_size-same t m;
                wide = r.wide ∙ length-replicate n none;
              }
        ]
