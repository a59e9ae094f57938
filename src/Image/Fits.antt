-- ===== src/Image/Fits.antt =====
-- Where the sections lie that the image validator of src/thunk/lsti.c finds.
use lazyscript.Prelude.{
  ℕ, zero, suc, ◌+◌, ◌*◌, ◌%◌, ◌^◌, ◌≤◌, ◌≡◌, Bool, true, false, ◌||◌, Option, some, length, leb,
  leb→le, ◌==◌, if◌then◌else◌, arith,
}
use mathlib.Core.Path.{subst}
use lazyscript.Image.Words.{Image, ok, word}
use lazyscript.Image.Sections.{
  Section, Found, note, read_section, read_sections, no_sections, magic, read_header,
}
use lazyscript.Image.Within.{Within, fine, Within-bind, Within-check, Within-word}

-- the section lies in the image
abbrev pub Fits : Image → Section → Type 0
Fits img s = s.file_off + s.bytes ≤ img.size

abbrev pub IfThere : (Section → Type 0) → Option Section → Type 0
IfThere P o = (s : Section) → o ≡ some s → P s

pub record FoundFits (img : Image) (f : Found) : Type 0 where
  pub string_fits : IfThere (Fits img) f.string_blob
  pub symbol_fits : IfThere (Fits img) f.symbol_blob
  pub pattern_fits : IfThere (Fits img) f.pattern_tab
  pub thunk_fits : IfThere (Fits img) f.thunk_tab
  pub roots_fit : IfThere (Fits img) f.roots

IfThere-some : (P : Section → Type 0) (s : Section) → P s → IfThere P (some s)
IfThere-some P s p s' e = let same : s ≡ s' = cc in subst P same p

Found-if : (P : Found → Type 0) (b : Bool) (f g : Found) → P f → P g → P (if b then f else g)
Found-if P true f g p q = p
Found-if P false f g p q = q

module _ (img : Image) where
  note-FoundFits :
      (kind : ℕ) (s : Section) (f : Found)
      → Fits img s
      → FoundFits img f
      → FoundFits img (note kind s f)
  unfolding note
  note-FoundFits kind s f fits w =
      let there = IfThere-some (Fits img) s fits in
      let string_noted : FoundFits img (record f { string_blob = some s }) = record {
        string_fits = there;
        symbol_fits = w.symbol_fits;
        pattern_fits = w.pattern_fits;
        thunk_fits = w.thunk_fits;
        roots_fit = w.roots_fit;
      } in
      let symbol_noted : FoundFits img (record f { symbol_blob = some s }) = record {
        string_fits = w.string_fits;
        symbol_fits = there;
        pattern_fits = w.pattern_fits;
        thunk_fits = w.thunk_fits;
        roots_fit = w.roots_fit;
      } in
      let thunk_noted : FoundFits img (record f { thunk_tab = some s }) = record {
        string_fits = w.string_fits;
        symbol_fits = w.symbol_fits;
        pattern_fits = w.pattern_fits;
        thunk_fits = there;
        roots_fit = w.roots_fit;
      } in
      let pattern_noted : FoundFits img (record f { pattern_tab = some s }) = record {
        string_fits = w.string_fits;
        symbol_fits = w.symbol_fits;
        pattern_fits = there;
        thunk_fits = w.thunk_fits;
        roots_fit = w.roots_fit;
      } in
      let roots_noted : FoundFits img (record f { roots = some s }) = record {
        string_fits = w.string_fits;
        symbol_fits = w.symbol_fits;
        pattern_fits = w.pattern_fits;
        thunk_fits = w.thunk_fits;
        roots_fit = there;
      } in
      Found-if (FoundFits img) (kind == 1) _ _ string_noted (
        Found-if (FoundFits img) (kind == 2) _ _ symbol_noted (
          Found-if (FoundFits img) (kind == 4) _ _ thunk_noted (
            Found-if (FoundFits img) (kind == 3) _ _ pattern_noted
              (Found-if (FoundFits img) (kind == 5) _ _ roots_noted w))))

module _ (img : Image) (room : img.size + 4 ≤ length img.mem) where
  -- a read in the image, or in the four bytes behind it
  pub read :
      (n off : ℕ)
      → off + n ≤ img.size + 4
      → Within (λ v. word n img.mem off ≡ ok v) (word n img.mem off)
  read n off le = Within-word n img.mem off (omega (arith, le, room))

  Within-read_section :
      (align at : ℕ) (f : Found)
      → at + 24 ≤ img.size
      → FoundFits img f
      → Within (FoundFits img) (read_section img align at f)
  unfolding read_section
  Within-read_section align at f le w = Within-bind (read 4 at (omega (arith, le))) (λ kind _.
      Within-bind (read 8 (at + 8) (omega (arith, le))) (λ off _.
        Within-bind (read 8 (at + 16) (omega (arith, le))) (λ sz _.
          Within-check (leb sz img.size) _ (λ _. Within-check (leb off img.size) _ (λ _.
            Within-check (leb (off + sz) img.size) _ (λ fits.
              Within-check (off % 2 ^ align == 0) _ (λ _. fine (
                note-FoundFits img kind (record { file_off = off; bytes = sz }) f
                  (leb→le (off + sz) img.size fits) w))))))))

  Within-read_sections :
      (align n at : ℕ) (f : Found)
      → at + n * 24 ≤ img.size
      → FoundFits img f
      → Within (FoundFits img) (read_sections img align n at f)
  unfolding read_sections
  Within-read_sections align zero at f le w = fine w
  Within-read_sections align (suc n) at f le w =
      Within-bind (Within-read_section align at f (omega (arith, le)) w)
        (λ f' w'. Within-read_sections align n (at + 24) f' (omega (arith, le)) w')

  pub Within-read_header : Within (FoundFits img) (read_header img)
  unfolding read_header
  Within-read_header = Within-check (leb 16 img.size) _ (λ e.
      let big = leb→le 16 img.size e in
      Within-bind (read 4 0 (omega (arith, big))) (λ m _. Within-check (m == magic) _ (λ _.
        Within-bind (read 2 4 (omega (arith, big))) (λ major _. Within-check (major == 1) _ (λ _.
          Within-bind (read 2 10 (omega (arith, big))) (λ align _.
            Within-check (align == 3 || align == 4) _ (λ _.
              Within-bind (read 2 8 (omega (arith, big))) (λ count _.
                Within-check (leb (16 + count * 24) img.size) _ (λ all.
                  Within-read_sections align count 16 no_sections
                    (leb→le (16 + count * 24) img.size all) nothing)))))))))
    where
      nothing : FoundFits img no_sections
      nothing = record {
        string_fits = λ s e. cc;
        symbol_fits = λ s e. cc;
        pattern_fits = λ s e. cc;
        thunk_fits = λ s e. cc;
        roots_fit = λ s e. cc;
      }
