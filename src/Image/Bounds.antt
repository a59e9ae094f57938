-- ===== src/Image/Bounds.antt =====
-- The reads of the image validator of src/thunk/lsti.c, and what it has found where it accepts.
use lazyscript.Prelude.{
  ℕ, ◌+◌, ◌*◌, ◌-◌, ◌≤◌, ◌<◌, ◌≡◌, refl, Option, none, some, length, leb, ltb, leb→le, ltb→lt,
  arith,
}
use lazyscript.Image.Words.{Image, ok, word}
use lazyscript.Image.Sections.{Section}
use lazyscript.Image.Validate.{
  check_offset, check_thunks, check_root, check_roots, read_blob, read_patterns,
}
use lazyscript.Image.Fits.{Fits, IfThere, read}
use lazyscript.Image.Within.{
  Within, fine, Within-bind, Within-weaken, Within-guard, Within-check, Each, Within-for_each,
}

-- The entry `i` of a thunk table starts behind its `header` bytes, and has its twelve bytes in the
-- table.
pub record EntryFits (img : Image) (s : Section) (header i : ℕ) : Type 0 where
  pub offset : ℕ
  pub read_there : word 8 img.mem (s.file_off + 4 + i * 8) ≡ ok offset
  pub behind : header ≤ offset
  pub inside : offset + 12 ≤ s.bytes

-- The section is a table of `n` thunks in the image.
pub record IsThunkTab (img : Image) (s : Section) (n : ℕ) : Type 0 where
  pub fits : Fits img s
  pub count : word 4 img.mem s.file_off ≡ ok n
  pub room_for : 4 + n * 8 ≤ s.bytes
  pub entries : Each (EntryFits img s (4 + n * 8)) 0 n

-- The root `i` is one of the `n` thunks.
pub record RootFits (img : Image) (s : Section) (n i : ℕ) : Type 0 where
  pub id : ℕ
  pub read_there : word 4 img.mem (s.file_off + 4 + i * 4) ≡ ok id
  pub known : id < n

pub record IsRoots (img : Image) (s : Section) (n : ℕ) : Type 0 where
  pub fits : Fits img s
  pub count : ℕ
  pub read_there : word 4 img.mem s.file_off ≡ ok count
  pub room_for : 4 + count * 4 ≤ s.bytes
  pub roots : Each (RootFits img s n) 0 count

module _ (img : Image) (room : img.size + 4 ≤ length img.mem) where
  Within-check_offset :
      (s : Section) (header i : ℕ)
      → Fits img s
      → 4 + i * 8 + 8 ≤ s.bytes
      → Within (λ _. EntryFits img s header i) (check_offset img s header i)
  unfolding check_offset
  Within-check_offset s header i fits le =
      Within-bind (read img room 8 (s.file_off + 4 + i * 8) (omega (arith, fits, le))) (λ eo at.
        Within-check (leb header eo) _ (λ behind. Within-check (ltb eo s.bytes) _ (λ lt.
          Within-weaken (Within-guard (leb 12 (s.bytes - eo))) (λ _ have. record {
            offset = eo;
            read_there = at;
            behind = leb→le header eo behind;
            inside = omega (arith, ltb→lt eo s.bytes lt, leb→le 12 (s.bytes - eo) have);
          }))))

  pub Within-check_thunks :
      (s : Section) → Fits img s → Within (IsThunkTab img s) (check_thunks img s)
  unfolding check_thunks
  Within-check_thunks s fits = Within-check (leb 4 s.bytes) _ (λ four.
      Within-bind (read img room 4 s.file_off (omega (arith, fits, leb→le 4 s.bytes four))) (λ n at.
        Within-check (leb (4 + n * 8) s.bytes) _ (λ enough.
          let all = leb→le (4 + n * 8) s.bytes enough in
          Within-bind
            (Within-for_each (EntryFits img s (4 + n * 8)) _ 0 n
              (λ j lt. Within-check_offset s (4 + n * 8) j fits (omega (arith, lt, all))))
            (λ _ each. fine (record { fits = fits; count = at; room_for = all; entries = each })))))

  Within-check_root :
      (s : Section) (n i : ℕ)
      → Fits img s
      → 4 + i * 4 + 4 ≤ s.bytes
      → Within (λ _. RootFits img s n i) (check_root img s n i)
  unfolding check_root
  Within-check_root s n i fits le =
      Within-bind (read img room 4 (s.file_off + 4 + i * 4) (omega (arith, fits, le))) (λ id at.
        Within-weaken (Within-guard (ltb id n))
          (λ _ lt. record { id = id; read_there = at; known = ltb→lt id n lt }))

  pub Within-check_roots :
      (s : Section) (n : ℕ) → Fits img s → Within (λ _. IsRoots img s n) (check_roots img s n)
  unfolding check_roots
  Within-check_roots s n fits = Within-check (leb 4 s.bytes) _ (λ four.
      Within-bind (read img room 4 s.file_off (omega (arith, fits, leb→le 4 s.bytes four))) (λ r at.
        Within-check (leb (4 + r * 4) s.bytes) _ (λ enough.
          let all = leb→le (4 + r * 4) s.bytes enough in
          Within-weaken
            (Within-for_each (RootFits img s n) _ 0 r
              (λ j lt. Within-check_root s n j fits (omega (arith, lt, all))))
            (λ _ each. record {
              fits = fits;
              count = r;
              read_there = at;
              room_for = all;
              roots = each;
            }))))

  pub Within-read_blob :
      (o : Option Section) → IfThere (Fits img) o → Within (λ _. Unit {0}) (read_blob img o)
  unfolding read_blob
  Within-read_blob none w = fine tt
  Within-read_blob (some s) w = Within-check (leb 4 s.bytes) _ (λ four.
      let fits = w s refl in
      Within-bind (read img room 4 s.file_off (omega (arith, fits, leb→le 4 s.bytes four)))
        (λ index _. Within-check (leb (4 + index) s.bytes) _ (λ _. fine tt)))

  -- the four bytes of the count are in the image
  abbrev pub Counted : Option (ℕ × ℕ) → Type 0
  Counted o = (size payload : ℕ) → o ≡ some (size, payload) → payload + 4 ≤ img.size

  pub Within-read_patterns :
      (o : Option Section) → IfThere (Fits img) o → Within Counted (read_patterns img o)
  unfolding read_patterns
  Within-read_patterns none w = fine (λ size payload e. cc)
  Within-read_patterns (some s) w = Within-check (leb 8 s.bytes) _ (λ eight.
      let fits = w s refl in
      Within-bind (read img room 4 s.file_off (omega (arith, fits, leb→le 8 s.bytes eight)))
        (λ index _. Within-check (leb (4 + index + 4) s.bytes) _ (λ enough.
          let all = leb→le (4 + index + 4) s.bytes enough in
          fine (λ size payload e.
            let place : s.file_off + 4 + index ≡ payload = cc in omega (arith, fits, all, place)))))
