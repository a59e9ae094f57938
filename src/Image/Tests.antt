-- ===== src/Image/Tests.antt =====
-- Small images of src/thunk/lsti.c.
use lazyscript.Prelude.{ℕ, ◌≡◌, ◌≢◌, refl, List, ◌∷◌, ◌++◌, some, replicate, arith}
use lazyscript.Image.Words.{Image, ok, overrun, ◌>>=◌, guard, byte, word}
use lazyscript.Image.Sections.{note, read_section, read_sections, read_header}
use lazyscript.Image.Entries.{
  in_blob, text, text_and_args, check_choice, check_lambda, check_kind, check_entry,
}
use lazyscript.Image.Validate.{
  for_each, check_offset, check_thunks, check_root, check_roots, read_blob, read_patterns,
  check_entries, check_tables, required, validate,
}
use lazyscript.Image.Safe.{Accepted, validate-inside, validate-Accepted}

validating : Unit {0}
unfolding ◌>>=◌ guard byte word note read_section read_sections read_header in_blob text
    text_and_args check_choice check_lambda check_kind check_entry for_each check_offset
    check_thunks check_root check_roots read_blob read_patterns check_entries check_tables required
    validate
validating = tt

abbrev zeros : ℕ → List ℕ
zeros n = replicate n 0

abbrev u32 : ℕ → List ℕ
u32 n = n ∷ zeros 3

abbrev u64 : ℕ → List ℕ
u64 n = n ∷ zeros 7

abbrev section : ℕ → ℕ → ℕ → List ℕ
section kind off size = u32 kind ++ (zeros 4 ++ (u64 off ++ u64 size))

-- the magic number, the version 1.0, the number of sections, the alignment 2^3, and no flags
abbrev header : ℕ → List ℕ
header count = 73 ∷ 84 ∷ 83 ∷ 76 ∷ 1 ∷ 0 ∷ 0 ∷ 0 ∷ count ∷ 0 ∷ 3 ∷ 0 ∷ zeros 4

-- a number as the one thunk, and as the one root
abbrev one_thunk : List ℕ
one_thunk =
    header 2
    ++ (section 4 64 24
        ++ (section 5 88 8 ++ (u32 1 ++ (u64 12 ++ (5 ∷ (zeros 3 ++ (u32 7 ++ u32 0)))))))
    ++ (u32 1 ++ u32 0)

abbrev one_image : Image
one_image = record { mem = one_thunk ++ zeros 4; size = 96 }

accepts_one : validate (some one_image) ≡ ok tt
unfolding validating
accepts_one = refl

validate-inside_example : validate (some one_image) ≢ overrun
validate-inside_example = validate-inside one_image (omega arith)

validate-Accepted_example : Accepted one_image
validate-Accepted_example = validate-Accepted one_image (omega arith) accepts_one

-- a symbol blob, one root, and last a constructor of which only the header is there
abbrev short_alge : List ℕ
short_alge =
    header 3
    ++ (section 2 88 4 ++ (section 5 96 8 ++ section 4 104 24))
    ++ (u32 0
        ++ (zeros 4 ++ (u32 1 ++ (u32 0 ++ (u32 1 ++ (u64 12 ++ (zeros 4 ++ (u32 0 ++ u32 0))))))))

-- the length of the constructor is read behind the image
reads_behind : validate (some (record { mem = short_alge; size = 128 })) ≡ overrun
unfolding validating
reads_behind = refl

-- a choice of the kind 9 between two thunks that are not there, in an image without a blob
abbrev bad_choice : List ℕ
bad_choice =
    header 2
    ++ (section 4 64 32
        ++ (section 5 96 8 ++ (u32 1 ++ (u64 12 ++ (2 ∷ (zeros 3 ++ (u32 9 ++ zeros 4)))))))
    ++ (u32 200 ++ (u32 201 ++ (u32 1 ++ u32 0)))

accepts_bad_choice : validate (some (record { mem = bad_choice; size = 104 })) ≡ ok tt
unfolding validating
accepts_bad_choice = refl
