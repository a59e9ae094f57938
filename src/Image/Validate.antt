-- ===== src/Image/Validate.antt =====
-- The validator of images, `lsti_validate` of src/thunk/lsti.c.
use lazyscript.Prelude.{
  ℕ, zero, suc, ◌+◌, ◌*◌, ◌-◌, Bool, true, false, ◌||◌, Option, none, some, leb, ltb, if◌then◌else◌,
}
use lazyscript.Image.Words.{Image, Result, ok, einval, ◌>>=◌, ◌>>◌, guard, word}
use lazyscript.Image.Sections.{Section, Found, read_header}
use lazyscript.Image.Entries.{Tables, check_entry}

-- a loop over `n` numbers from `i` on
unfoldable pub for_each : (ℕ → Result (Unit {0})) → ℕ → ℕ → Result (Unit {0})
unfolding ◌>>=◌
for_each check i zero = ok tt
for_each check i (suc n) = do check i; for_each check (suc i) n

-- the offset of the entry `i` of the thunk table, which has `header` bytes before its entries
unfoldable pub check_offset : Image → Section → ℕ → ℕ → Result (Unit {0})
unfolding ◌>>=◌ guard word
check_offset img s header i = do
  eo ← word 8 img.mem (s.file_off + 4 + i * 8)
  guard (leb header eo)
  guard (ltb eo s.bytes)
  guard (leb 12 (s.bytes - eo))

-- the number of thunks
unfoldable pub check_thunks : Image → Section → Result ℕ
unfolding ◌>>=◌ guard word for_each check_offset
check_thunks img s = do
  guard (leb 4 s.bytes)
  n ← word 4 img.mem s.file_off
  guard (leb (4 + n * 8) s.bytes)
  for_each (check_offset img s (4 + n * 8)) 0 n
  ok n

unfoldable pub check_root : Image → Section → ℕ → ℕ → Result (Unit {0})
unfolding ◌>>=◌ guard word
check_root img s n i = do id ← word 4 img.mem (s.file_off + 4 + i * 4); guard (ltb id n)

unfoldable pub check_roots : Image → Section → ℕ → Result (Unit {0})
unfolding ◌>>=◌ guard word for_each check_root
check_roots img s n = do
  guard (leb 4 s.bytes)
  r ← word 4 img.mem s.file_off
  guard (leb (4 + r * 4) s.bytes)
  for_each (check_root img s n) 0 r

-- the size of the payload of a blob that is there
unfoldable pub read_blob : Image → Option Section → Result (Option ℕ)
unfolding ◌>>=◌ guard word
read_blob img none = ok none
read_blob img (some s) = do
  guard (leb 4 s.bytes)
  index ← word 4 img.mem s.file_off
  guard (leb (4 + index) s.bytes)
  ok (some (s.bytes - 4 - index))

unfoldable pub read_patterns : Image → Option Section → Result (Option (ℕ × ℕ))
unfolding ◌>>=◌ guard word
read_patterns img none = ok none
read_patterns img (some s) = do
  guard (leb 8 s.bytes)
  index ← word 4 img.mem s.file_off
  guard (leb (4 + index + 4) s.bytes)
  ok (some (s.bytes, s.file_off + 4 + index))

abbrev pub is_some : Option ℕ → Bool
is_some none = false
is_some (some n) = true

-- The entries are looked at only where the image has a blob.
unfoldable pub check_entries : Image → Tables → Result (Unit {0})
unfolding for_each check_entry
check_entries img t =
    if is_some t.strings || is_some t.symbols
    then for_each (check_entry t img.mem) 0 t.thunk_count
    else ok tt

unfoldable pub check_tables : Image → Found → Section → Section → Result (Unit {0})
unfolding ◌>>=◌ check_thunks check_roots read_blob read_patterns check_entries
check_tables img f thunks roots = do
  n ← check_thunks img thunks
  check_roots img roots n
  strings ← read_blob img f.string_blob
  symbols ← read_blob img f.symbol_blob
  patterns ← read_patterns img f.pattern_tab
  check_entries img (record {
    strings = strings;
    symbols = symbols;
    patterns = patterns;
    thunks_at = thunks.file_off;
    thunks_size = thunks.bytes;
    thunk_count = n;
  })

unfoldable pub required : Image → Found → Option Section → Option Section → Result (Unit {0})
unfolding check_tables
required img f (some thunks) (some roots) = check_tables img f thunks roots
required img f thunks roots = einval

-- an image that is a NULL pointer, or has one for its base, is refused
unfoldable pub validate : Option Image → Result (Unit {0})
unfolding ◌>>=◌ read_header required
validate none = einval
validate (some img) = do f ← read_header img; required img f f.thunk_tab f.roots
