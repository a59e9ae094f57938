-- ===== src/Image/Safe.antt =====
-- The image validator of src/thunk/lsti.c as a whole.
use lazyscript.Prelude.{
  ℕ, ◌+◌, ◌*◌, ◌-◌, ◌≤◌, ◌<◌, ◌≡◌, ◌≢◌, refl, ap, sym, ◌∙◌, Bool, ◌&&◌, ◌||◌, Option, none, some,
  length, leb, ltb, leb→le, ◌==◌, arith,
}
use lazyscript.Image.Words.{Image, ok, overrun, guard, word}
use lazyscript.Image.Sections.{Section, Found, read_header}
use lazyscript.Image.Entries.{
  Tables, in_blob, text, text_and_args, check_choice, check_lambda, check_kind, check_entry,
}
use lazyscript.Image.Validate.{is_some, check_entries, check_tables, required, validate}
use lazyscript.Image.Fits.{Fits, FoundFits, read, Within-read_header}
use lazyscript.Image.Within.{
  Within, fine, refused, Within-inside, Within-bind, Within-weaken, Within-guard, Within-check,
  Within-if, Within-for_each, Within-with, Within-at,
}
use lazyscript.Image.Bounds.{
  IsThunkTab, IsRoots, Counted, Within-check_thunks, Within-check_roots, Within-read_blob,
  Within-read_patterns,
}

abbrev Done : Unit {0} → Type 0
Done _ = Unit {0}

any : (b : Bool) → Within Done (guard b)
any b = Within-weaken (Within-guard b) (λ _ _. tt)

module _ (img : Image) (room : img.size + 4 ≤ length img.mem) (ent have : ℕ) (twelve : 12 ≤ have)
    (inside : ent + have ≤ img.size) where
  Within-text : (o : Option ℕ) (off len : ℕ) → Within Done (text o off len)
  unfolding text in_blob
  Within-text none off len = refused
  Within-text (some payload) off len = any _

  Within-text_and_args :
      (o : Option ℕ) (argc off : ℕ) → Within Done (text_and_args o img.mem ent have argc off)
  unfolding text_and_args in_blob
  Within-text_and_args none argc off = refused
  Within-text_and_args (some payload) argc off =
      Within-bind (read img room 4 (ent + 12) (omega (arith, twelve, inside))) (λ len _.
        Within-bind (any (leb off payload && leb len payload && leb (off + len) payload))
          (λ _ _. any (leb (12 + (4 + argc * 4)) have)))

  Within-check_choice : (count kind : ℕ) → Within Done (check_choice img.mem ent have count kind)
  unfolding check_choice
  Within-check_choice count kind = Within-check (leb 1 kind && leb kind 3) _ (λ _.
      Within-check (leb 20 have) _ (λ enough.
        let twenty = leb→le 20 have enough in
        Within-bind (read img room 4 (ent + 12) (omega (arith, twenty, inside))) (λ l _.
          Within-bind (read img room 4 (ent + 12 + 4) (omega (arith, twenty, inside)))
            (λ r _. any (ltb l count && ltb r count)))))

  Within-check_lambda :
      (o : Option (ℕ × ℕ)) (count pid bid : ℕ)
      → Counted img room o
      → Within Done (check_lambda o img.mem count pid bid)
  unfolding check_lambda
  Within-check_lambda none count pid bid w = refused
  Within-check_lambda (some (size, payload)) count pid bid w = Within-check (leb 8 size) _ (λ _.
      Within-bind (read img room 4 payload (omega (arith, w size payload refl)))
        (λ pcnt _. any (ltb pid pcnt && ltb bid count)))

  Within-check_kind :
      (t : Tables) (kind aorl extra : ℕ)
      → Counted img room t.patterns
      → Within Done (check_kind t img.mem ent have kind aorl extra)
  unfolding check_kind
  Within-check_kind t kind aorl extra w =
      Within-if (kind == 6) _ _ (Within-text t.strings extra aorl) (
        Within-if (kind == 7) _ _ (Within-text t.symbols extra aorl) (
          Within-if (kind == 0) _ _ (Within-text_and_args t.symbols aorl extra) (
            Within-if (kind == 9) _ _ (Within-text_and_args t.strings aorl extra) (
              Within-if (kind == 1) _ _
                (Within-bind (any (leb (12 + aorl * 4) have))
                  (λ _ _. any (ltb extra t.thunk_count)))
                (Within-if (kind == 2) _ _ (Within-check_choice t.thunk_count aorl) (
                  Within-if (kind == 4) _ _ (Within-text t.symbols extra aorl) (
                    Within-if (kind == 3) _ _
                      (Within-check_lambda t.patterns t.thunk_count aorl extra w) (fine tt))))))))

module _ (img : Image) (room : img.size + 4 ≤ length img.mem) where
  Within-check_entry :
      (t : Tables) (s : Section) (i : ℕ)
      → s.file_off ≡ t.thunks_at
      → s.bytes ≡ t.thunks_size
      → IsThunkTab img s t.thunk_count
      → i < t.thunk_count
      → Counted img room t.patterns
      → Within Done (check_entry t img.mem i)
  unfolding check_entry
  Within-check_entry t s i place size tab lt w =
      let e = tab.entries i (omega arith) (omega (arith, lt)) in
      let fits = tab.fits in
      let at = t.thunks_at in
      Within-bind
        (read img room 8 (at + 4 + i * 8) (omega (arith, fits, place, size, tab.room_for, lt)))
        (λ eo r.
          let same : e.offset ≡ eo =
            ok-inj
              (sym (ap (λ x. word 8 img.mem (x + 4 + i * 8)) (sym place) ∙ e.read_there) ∙ r) in
          let inside : eo + 12 ≤ t.thunks_size = omega (arith, e.inside, same, size) in
          Within-bind (read img room 1 (at + eo) (omega (arith, fits, place, size, inside)))
            (λ kind _.
              Within-bind (read img room 4 (at + eo + 4) (omega (arith, fits, place, size, inside)))
                (λ aorl _.
                  Within-bind
                    (read img room 4 (at + eo + 8) (omega (arith, fits, place, size, inside)))
                    (λ extra _.
                      Within-check_kind img room (at + eo) (t.thunks_size - eo)
                        (omega (arith, inside)) (omega (arith, fits, place, size, inside)) t kind
                        aorl extra w))))
    where
      ok-inj : {a b : ℕ} → ok a ≡ ok b → a ≡ b
      ok-inj e = cc

  Within-check_tables :
      (f : Found) (thunks roots : Section)
      → FoundFits img f
      → Fits img thunks
      → Fits img roots
      → Within
          (λ _. (n : ℕ) × IsThunkTab img thunks n × IsRoots img roots n)
          (check_tables img f thunks roots)
  unfolding check_tables check_entries
  Within-check_tables f thunks roots w thunks_fit roots_fit =
      Within-bind (Within-check_thunks img room thunks thunks_fit) (λ n tab.
        Within-bind (Within-check_roots img room roots n roots_fit) (λ _ rs.
          Within-bind (Within-read_blob img room f.string_blob w.string_fits) (λ strings _.
            Within-bind (Within-read_blob img room f.symbol_blob w.symbol_fits) (λ symbols _.
              Within-bind (Within-read_patterns img room f.pattern_tab w.pattern_fits)
                (λ patterns counted.
                  let t : Tables = record {
                    strings = strings;
                    symbols = symbols;
                    patterns = patterns;
                    thunks_at = thunks.file_off;
                    thunks_size = thunks.bytes;
                    thunk_count = n;
                  } in
                  Within-weaken
                    (Within-if (is_some strings || is_some symbols) _ _
                      (Within-weaken
                        (Within-for_each (λ _. Unit {0}) (check_entry t img.mem) 0 n
                          (λ j lt.
                            Within-check_entry t thunks j refl refl tab (omega (arith, lt))
                              counted))
                        (λ _ _. tt))
                      (fine tt))
                    (λ _ _. (n, tab, rs)))))))

-- What the image has that the validator accepts: its last thunk table and its last table of roots lie
-- in it, each entry of the first starts behind the table's offsets and has its header in the table,
-- and each root is one of the thunks.
pub record Accepted (img : Image) : Type 0 where
  pub found : Found
  pub header : read_header img ≡ ok found
  pub thunks : Section
  pub roots : Section
  pub thunks_found : found.thunk_tab ≡ some thunks
  pub roots_found : found.roots ≡ some roots
  pub count : ℕ
  pub thunks_fit : IsThunkTab img thunks count
  pub roots_fit : IsRoots img roots count

Within-required :
    (img : Image) (room : img.size + 4 ≤ length img.mem) (f : Found) (t r : Option Section)
    → read_header img ≡ ok f
    → f.thunk_tab ≡ t
    → f.roots ≡ r
    → FoundFits img f
    → Within (λ _. Accepted img) (required img f t r)
unfolding required
Within-required img room f none r h et er w = refused
Within-required img room f (some thunks) none h et er w = refused
Within-required img room f (some thunks) (some roots) h et er w =
    Within-weaken
      (Within-check_tables img room f thunks roots w (w.thunk_fits thunks et)
        (w.roots_fit roots er))
      (λ _ p. record {
        found = f;
        header = h;
        thunks = thunks;
        roots = roots;
        thunks_found = et;
        roots_found = er;
        count = p.0;
        thunks_fit = p.1;
        roots_fit = p.2;
      })

Within-validate :
    (img : Image) → img.size + 4 ≤ length img.mem → Within (λ _. Accepted img) (validate (some img))
unfolding validate
Within-validate img room =
    Within-bind (Within-with (Within-read_header img room))
      (λ f p. Within-required img room f f.thunk_tab f.roots p.1 refl refl p.0)

-- Where at least four bytes can be read behind an image, `lsti_validate` reads nothing outside the
-- image and those four bytes, whatever the image holds.
pub validate-inside : (img : Image) → img.size + 4 ≤ length img.mem → validate (some img) ≢ overrun
validate-inside img room = Within-inside (Within-validate img room)

-- Where at least four bytes can be read behind an image and `lsti_validate` accepts it, its last
-- thunk table and its last table of roots lie in it, each entry of the first starts behind the
-- table's offsets and has its header of twelve bytes in the table, and each root is one of the
-- thunks.
pub validate-Accepted :
    (img : Image) → img.size + 4 ≤ length img.mem → validate (some img) ≡ ok tt → Accepted img
validate-Accepted img room e = Within-at tt (Within-validate img room) e
