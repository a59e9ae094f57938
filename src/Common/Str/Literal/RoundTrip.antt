-- ===== src/Common/Str/Literal/RoundTrip.antt =====
-- The reader of literals on printed literals.
use lazyscript.Prelude.{
  ℕ, zero, suc, ◌<◌, ◌≤◌, ◌%◌, ◌/◌, ◌≡◌, ap, ◌∙◌, [], ◌∷◌, ◌++◌, arith, Bytes, All, length,
  append_assoc, append-nil, length-append,
}
use lazyscript.Common.Str.Literal.{
  char, ok, item, item_from, after_item, next, parse_esc, parse_esc_from, escape_of, simple_escape,
  parse_hex, parse_hex_high, parse_hex_low, hex_val, hex_digit, print_char, print_hex, print_body,
  print, parse_body, parse_open, parse,
}

item-print_char : (b : ℕ) (rest : Bytes) → b < 128 → item (print_char b ++ rest) ≡ (char b, rest)
unfolding item item_from next parse_esc parse_esc_from escape_of simple_escape parse_hex
    parse_hex_high parse_hex_low hex_val print_char print_hex
item-print_char b rest h = ground arith

length-print_char : (b : ℕ) → 1 ≤ length (print_char b)
unfolding print_char print_hex
length-print_char b = ground arith

print_body-length : (bs : Bytes) → length bs ≤ length (print_body bs)
unfolding print_body
print_body-length [] = omega arith
print_body-length (b ∷ bs) =
    omega (
      arith,
      length-append (print_char b) (print_body bs),
      length-print_char b,
      print_body-length bs,
    )

abbrev pub Ascii : Bytes → Type 0
Ascii = All (λ b. b < 128)

parse_body-print_body :
    (fuel : ℕ) (bs rest acc : Bytes)
    → Ascii bs
    → length bs < fuel
    → parse_body fuel (print_body bs ++ 34 ∷ rest) acc ≡ ok (acc ++ bs)
unfolding parse_body print_body
parse_body-print_body zero bs rest acc a h = absurd (omega arith)
parse_body-print_body (suc fuel) [] rest acc a h = rw (append-nil acc)
parse_body-print_body (suc fuel) (b ∷ bs) rest acc (hb, a) h =
    let read = item-print_char b (print_body bs ++ 34 ∷ rest) hb in
    rw (append_assoc (print_char b) (print_body bs) (34 ∷ rest)) (
      ap (after_item (parse_body fuel) acc) read
      ∙ parse_body-print_body fuel bs rest (acc ++ b ∷ []) a (omega (arith, h))
      ∙ ap ok (append_assoc acc (b ∷ []) bs))

-- An ASCII text that is printed as a literal reads back as it was.
pub parse-print : (bs : Bytes) → Ascii bs → parse (print bs) ≡ ok bs
unfolding parse parse_open next print
parse-print bs a =
    parse_body-print_body (suc (length (print_body bs ++ 34 ∷ []))) bs [] [] a
      (omega (arith, length-append (print_body bs) (34 ∷ []), print_body-length bs))

-- A byte from 128 on, printed as a literal by itself, reads back as seven bytes: 255, four
-- letters f, and its two digits.
pub parse-print_high :
    (b : ℕ)
    → 128 ≤ b
    → b < 256
    → parse (print (b ∷ []))
      ≡ ok (255 ∷ b'f' ∷ b'f' ∷ b'f' ∷ b'f' ∷ hex_digit (b / 16) ∷ hex_digit (b % 16) ∷ [])
unfolding parse parse_open parse_body print print_body item item_from next parse_esc parse_esc_from
    escape_of simple_escape parse_hex parse_hex_high parse_hex_low hex_val print_char print_hex
parse-print_high b h h' = ground arith
