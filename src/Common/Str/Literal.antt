-- ===== src/Common/Str/Literal.antt =====
-- String literals, of src/common/str.c: `lsstr_parse` with its escapes, and `lsstr_print`. Reading a
-- byte gives an `int`; the byte 255 is the char -1, which the reader takes for the end.
pub mod RoundTrip
use lazyscript.Prelude.{
  ℕ, zero, suc, ◌+◌, ◌-◌, ◌*◌, ◌/◌, ◌%◌, Bool, true, false, ◌&&◌, ◌||◌, Option, none, some, List,
  [], ◌∷◌, ◌++◌, Bytes, codes, length, ltb, leb, ◌==◌, if◌then◌else◌,
}

-- *pi < slen ? str[(*pi)++] : -1, with `none` for -1
unfoldable pub next : Bytes → Option ℕ × Bytes
next [] = (none, [])
next (b ∷ bs) = (if b == 255 then none else some b, bs)

unfoldable pub hex_val : ℕ → Option ℕ
hex_val c =
    if leb b'0' c && leb c b'9'
    then some (c - b'0')
    else (if leb b'a' c && leb c b'f'
        then some (c - b'a' + 10)
        else if leb b'A' c && leb c b'F'
        then some (c - b'A' + 10)
        else none)

-- after the first digit: a second character that is no digit is dropped
unfoldable pub parse_hex_low : ℕ → Option ℕ × Bytes → Option ℕ × Bytes
unfolding hex_val
parse_hex_low hex (none, r) = (none, r)
parse_hex_low hex (some c, r) =
    (elim (hex_val c) [ some d ↦ some (hex * 16 + d) | none ↦ some hex ], r)

unfoldable pub parse_hex_high : Option ℕ × Bytes → Option ℕ × Bytes
unfolding hex_val next parse_hex_low
parse_hex_high (none, r) = (none, r)
parse_hex_high (some c, r) = elim (hex_val c) [
  | some d ↦ parse_hex_low d (next r)
  | none ↦ (some b'x', r)
]

unfoldable pub parse_hex : Bytes → Option ℕ × Bytes
unfolding parse_hex_high next
parse_hex r = parse_hex_high (next r)

-- a character behind the first digit that is no octal digit is dropped
unfoldable pub parse_oct_low : ℕ → Option ℕ × Bytes → Option ℕ × Bytes
parse_oct_low oct (none, r) = (none, r)
parse_oct_low oct (some c, r) =
    (if leb b'0' c && leb c b'7' then some (oct * 8 + (c - b'0')) else some oct, r)

unfoldable pub parse_oct : Bytes → ℕ → Option ℕ × Bytes
unfolding parse_oct_low next
parse_oct r oct = parse_oct_low (oct - b'0') (next r)

abbrev pub one_of : ℕ → ℕ → ℕ → Bool
one_of lower upper c = c == lower || c == upper

-- the cases of the switch that stand for one character
unfoldable pub simple_escape : ℕ → Option ℕ
simple_escape c =
    if one_of b'n' b'N' c
    then some 10
    else if one_of b't' b'T' c
    then some 9
    else if one_of b'r' b'R' c
    then some 13
    else if c == b'0'
    then some 0
    else if c == 92 || (c == 34 || c == 39)
    then some c
    else if one_of b'a' b'A' c
    then some 7
    else if one_of b'b' b'B' c
    then some 8
    else if one_of b'f' b'F' c
    then some 12
    else if one_of b'v' b'V' c
    then some 11
    else none

unfoldable pub escape_of : ℕ → Bytes → Option ℕ → Option ℕ × Bytes
unfolding parse_hex parse_oct
escape_of c r (some v) = (some v, r)
escape_of c r none =
    if one_of b'x' b'X' c
    then parse_hex r
    else if leb b'0' c && leb c b'7'
    then parse_oct r c
    else (some c, r)

unfoldable pub parse_esc_from : Option ℕ × Bytes → Option ℕ × Bytes
unfolding simple_escape escape_of
parse_esc_from (none, r) = (none, r)
parse_esc_from (some c, r) = escape_of c r (simple_escape c)

unfoldable pub parse_esc : Bytes → Option ℕ × Bytes
unfolding parse_esc_from next
parse_esc r = parse_esc_from (next r)

-- How a literal is read: to its bytes, to NULL, or not within the fuel.
pub data Parsed : Type 0 where
  ok : Bytes → Parsed
  null out_of_fuel : Parsed

-- What one round of the loop reads: the closing quote, a character, or the end.
pub data Item : Type 0 where
  close : Item
  char : ℕ → Item
  stop : Item

abbrev pub item_of : Option ℕ × Bytes → Item × Bytes
item_of (none, r) = (stop, r)
item_of (some v, r) = (char (v % 256), r)

unfoldable pub item_from : Option ℕ × Bytes → Item × Bytes
unfolding parse_esc
item_from (none, r) = (stop, r)
item_from (some c, r) =
    if c == 34 then (close, r) else if c == 92 then item_of (parse_esc r) else (char (c % 256), r)

unfoldable pub item : Bytes → Item × Bytes
unfolding item_from next
item r = item_from (next r)

-- what a round of the loop does with it; `run` is the rest of the loop
abbrev pub after_item : (Bytes → Bytes → Parsed) → Bytes → Item × Bytes → Parsed
after_item run acc (close, r) = ok acc
after_item run acc (stop, r) = null
after_item run acc (char b, r) = run r (acc ++ b ∷ [])

-- The loop of `lsstr_parse`, which a round of fuel for each byte is enough for.
unfoldable pub parse_body : ℕ → Bytes → Bytes → Parsed
unfolding item
parse_body zero r acc = out_of_fuel
parse_body (suc fuel) r acc = after_item (parse_body fuel) acc (item r)

unfoldable pub parse_open : Option ℕ × Bytes → Parsed
unfolding parse_body
parse_open (none, r) = null
parse_open (some c, r) = if c == 34 then parse_body (suc (length r)) r [] else null

unfoldable pub parse : Bytes → Parsed
unfolding parse_open next
parse cstr = parse_open (next cstr)

abbrev pub hex_digit : ℕ → ℕ
hex_digit d = if ltb d 10 then b'0' + d else b'a' + d - 10

-- %02x of a char, which is sign-extended to 32 bits
unfoldable pub print_hex : ℕ → Bytes
print_hex b =
    let low = hex_digit (b / 16) ∷ hex_digit (b % 16) ∷ [] in
    if leb 128 b then codes "ffffff" ++ low else low

unfoldable pub print_char : ℕ → Bytes
unfolding print_hex
print_char b =
    if b == 10
    then 92 ∷ b'n' ∷ []
    else if b == 9
    then 92 ∷ b't' ∷ []
    else if b == 13
    then 92 ∷ b'r' ∷ []
    else if b == 0
    then 92 ∷ b'0' ∷ []
    else if b == 92
    then 92 ∷ 92 ∷ []
    else if b == 34
    then 92 ∷ 34 ∷ []
    else if b == 39
    then 92 ∷ 39 ∷ []
    else if b == 7
    then 92 ∷ b'a' ∷ []
    else if b == 8
    then 92 ∷ b'b' ∷ []
    else if b == 12
    then 92 ∷ b'f' ∷ []
    else if b == 11
    then 92 ∷ b'v' ∷ []
    else if ltb b 32 || leb 127 b
    then 92 ∷ b'x' ∷ print_hex b
    else b ∷ []

unfoldable pub print_body : Bytes → Bytes
unfolding print_char
print_body [] = []
print_body (b ∷ bs) = print_char b ++ print_body bs

unfoldable pub print : Bytes → Bytes
unfolding print_body
print s = 34 ∷ (print_body s ++ 34 ∷ [])
