-- ===== src/Image/Sections.antt =====
-- The header and the section table of an image, `lsti_validate` of src/thunk/lsti.c.
use lazyscript.Prelude.{
  ℕ, zero, suc, ◌+◌, ◌*◌, ◌%◌, ◌^◌, ◌||◌, Option, none, some, leb, ◌==◌, if◌then◌else◌,
}
use lazyscript.Image.Words.{Image, Result, ok, ◌>>=◌, ◌>>◌, guard, word}

pub record Section : Type 0 where
  pub file_off : ℕ
  pub bytes : ℕ

-- the last section of each kind
pub record Found : Type 0 where
  pub string_blob : Option Section
  pub symbol_blob : Option Section
  pub pattern_tab : Option Section
  pub thunk_tab : Option Section
  pub roots : Option Section

unfoldable pub note : ℕ → Section → Found → Found
note kind s f =
    if kind == 1
    then record f { string_blob = some s }
    else if kind == 2
    then record f { symbol_blob = some s }
    else if kind == 4
    then record f { thunk_tab = some s }
    else if kind == 3
    then record f { pattern_tab = some s }
    else if kind == 5
    then record f { roots = some s }
    else f

-- one round of the loop over the section table, at the entry `at`
unfoldable pub read_section : Image → ℕ → ℕ → Found → Result Found
unfolding ◌>>=◌ guard word note
read_section img align at f = do
  kind ← word 4 img.mem at
  off ← word 8 img.mem (at + 8)
  sz ← word 8 img.mem (at + 16)
  guard (leb sz img.size)
  guard (leb off img.size)
  guard (leb (off + sz) img.size)
  guard (off % 2 ^ align == 0)
  ok (note kind (record { file_off = off; bytes = sz }) f)

unfoldable pub read_sections : Image → ℕ → ℕ → ℕ → Found → Result Found
unfolding ◌>>=◌ read_section
read_sections img align zero at f = ok f
read_sections img align (suc n) at f = do
  f' ← read_section img align at f
  read_sections img align n (at + 24) f'

abbrev pub no_sections : Found
no_sections = record {
  string_blob = none;
  symbol_blob = none;
  pattern_tab = none;
  thunk_tab = none;
  roots = none;
}

-- LSTI_MAGIC
abbrev pub magic : ℕ
magic = 1280529481

-- the header, and then the section table
unfoldable pub read_header : Image → Result Found
unfolding ◌>>=◌ guard word read_sections
read_header img = do
  guard (leb 16 img.size)
  m ← word 4 img.mem 0
  guard (m == magic)
  major ← word 2 img.mem 4
  guard (major == 1)
  align ← word 2 img.mem 10
  guard (align == 3 || align == 4)
  count ← word 2 img.mem 8
  guard (leb (16 + count * 24) img.size)
  read_sections img align count 16 no_sections
