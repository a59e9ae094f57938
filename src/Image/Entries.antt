-- ===== src/Image/Entries.antt =====
-- The checks of one thunk's entry in an image, `lsti_validate` of src/thunk/lsti.c. No number here
-- wraps around: those of the file have 32 bits where they are added or multiplied in 64.
use lazyscript.Prelude.{
  ℕ, ◌+◌, ◌*◌, ◌-◌, ◌&&◌, Option, none, some, List, leb, ltb, ◌==◌, if◌then◌else◌,
}
use lazyscript.Image.Words.{Result, ok, einval, ◌>>=◌, ◌>>◌, guard, word}

-- What the checks of the entries use: the sizes of the payloads of the two blobs, the pattern table
-- as its size and the place behind its index, the place and the size of the thunk table and the
-- number of its entries.
pub record Tables : Type 0 where
  pub strings : Option ℕ
  pub symbols : Option ℕ
  pub patterns : Option (ℕ × ℕ)
  pub thunks_at : ℕ
  pub thunks_size : ℕ
  pub thunk_count : ℕ

-- a text that an entry names lies in the payload of its blob
unfoldable pub in_blob : ℕ → ℕ → ℕ → Result (Unit {0})
unfolding guard
in_blob payload off len = guard (leb off payload && leb len payload && leb (off + len) payload)

unfoldable pub text : Option ℕ → ℕ → ℕ → Result (Unit {0})
unfolding in_blob
text none off len = einval
text (some payload) off len = in_blob payload off len

-- a constructor or a bottom: a text whose length is behind the header of the entry, and arguments
unfoldable pub text_and_args : Option ℕ → List ℕ → ℕ → ℕ → ℕ → ℕ → Result (Unit {0})
unfolding ◌>>=◌ guard word in_blob
text_and_args none mem ent have argc off = einval
text_and_args (some payload) mem ent have argc off = do
  len ← word 4 mem (ent + 12)
  in_blob payload off len
  guard (leb (12 + (4 + argc * 4)) have)

unfoldable pub check_choice : List ℕ → ℕ → ℕ → ℕ → ℕ → Result (Unit {0})
unfolding ◌>>=◌ guard word
check_choice mem ent have count kind = do
  guard (leb 1 kind && leb kind 3)
  guard (leb 20 have)
  l ← word 4 mem (ent + 12)
  r ← word 4 mem (ent + 12 + 4)
  guard (ltb l count && ltb r count)

unfoldable pub check_lambda : Option (ℕ × ℕ) → List ℕ → ℕ → ℕ → ℕ → Result (Unit {0})
unfolding ◌>>=◌ guard word
check_lambda none mem count pid bid = einval
check_lambda (some (size, payload)) mem count pid bid = do
  guard (leb 8 size)
  pcnt ← word 4 mem payload
  guard (ltb pid pcnt && ltb bid count)

-- `aorl` and `extra` are the two numbers in the header of the entry, `have` the bytes from the entry
-- to the end of the thunk table
unfoldable pub check_kind : Tables → List ℕ → ℕ → ℕ → ℕ → ℕ → ℕ → Result (Unit {0})
unfolding guard text text_and_args check_choice check_lambda ◌>>=◌
check_kind t mem ent have kind aorl extra =
    if kind == 6
    then text t.strings extra aorl
    else if kind == 7
    then text t.symbols extra aorl
    else if kind == 0
    then text_and_args t.symbols mem ent have aorl extra
    else if kind == 9
    then text_and_args t.strings mem ent have aorl extra
    else if kind == 1
    then guard (leb (12 + aorl * 4) have) >> guard (ltb extra t.thunk_count)
    else if kind == 2
    then check_choice mem ent have t.thunk_count aorl
    else if kind == 4
    then text t.symbols extra aorl
    else if kind == 3
    then check_lambda t.patterns mem t.thunk_count aorl extra
    else ok tt

-- the entry of the thunk `i`
unfoldable pub check_entry : Tables → List ℕ → ℕ → Result (Unit {0})
unfolding ◌>>=◌ word check_kind
check_entry t mem i = do
  eo ← word 8 mem (t.thunks_at + 4 + i * 8)
  kind ← word 1 mem (t.thunks_at + eo)
  aorl ← word 4 mem (t.thunks_at + eo + 4)
  extra ← word 4 mem (t.thunks_at + eo + 8)
  check_kind t mem (t.thunks_at + eo) (t.thunks_size - eo) kind aorl extra
