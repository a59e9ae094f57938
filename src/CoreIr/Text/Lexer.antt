-- ===== src/CoreIr/Text/Lexer.antt =====
-- The characters and words of the text reader, src/coreir/cir_text_reader.c. The state of the reader
-- is the text from its position on.
use lazyscript.Prelude.{
  ℕ, ◌+◌, ◌-◌, ◌*◌, ◌%◌, ◌^◌, Bool, true, false, ◌&&◌, ◌||◌, Option, none, some, [], ◌∷◌, Bytes,
  ltb, leb, ◌==◌, if◌then◌else◌,
}
use lazyscript.Prelude.Int.{ℤ, pos, negsuc}

-- How a part of the text is read: to a value, which may be NULL, with the text that is left; to a
-- name or string that is NULL or a cast table of cases, which the data model does not hold; or not
-- within the fuel.
pub data Read {ℓ} (A : Type ℓ) : Type ℓ where
  got : A → Bytes → Read A
  bad_node out_of_fuel : Read A

unfoldable pub then_read {ℓ κ} : {A : Type ℓ} {B : Type κ} → (A → Bytes → Read B) → Read A → Read B
then_read f (got a r) = f a r
then_read f bad_node = bad_node
then_read f out_of_fuel = out_of_fuel

infixl 20 ◌>>=◌
unfoldable pub ◌>>=◌ {ℓ κ} :
    {A : Type ℓ} {B : Type κ} → (Bytes → Read A) → (A → Bytes → Read B) → Bytes → Read B
unfolding then_read
(p >>= f) r = then_read f (p r)

infixl 20 ◌>>◌
abbrev pub ◌>>◌ {ℓ κ} :
    {A : Type ℓ} {B : Type κ} → (Bytes → Read A) → (Bytes → Read B) → Bytes → Read B
p >> q = p >>= λ _. q

abbrev pub pure {ℓ} : {A : Type ℓ} → A → Bytes → Read A
pure a r = got a r

-- isspace in the C locale
abbrev pub is_space : ℕ → Bool
is_space c = c == 32 || (leb 9 c && leb c 13)

abbrev pub is_delimiter : ℕ → Bool
is_delimiter c = is_space c || (c == 40 || (c == 41 || c == 34))

-- `comment` holds between a semicolon and the end of its line.
unfoldable pub skip : Bool → Bytes → Bytes
skip comment [] = []
skip true (c ∷ r) = if c == 10 then skip false r else skip true r
skip false (c ∷ r) = if is_space c then skip false r else if c == 59 then skip true r else c ∷ r

abbrev pub skip_ws : Bytes → Bytes
skip_ws r = skip false r

abbrev pub match_head : ℕ → Bytes → Read Bool
match_head c [] = got false []
match_head c (b ∷ r) = if b == c then got true r else got false (b ∷ r)

unfoldable pub match : ℕ → Bytes → Read Bool
unfolding skip
match c r = match_head c (skip_ws r)

abbrev pub starts : ℕ → Bytes → Bool
starts c [] = false
starts c (b ∷ r) = b == c

unfoldable pub peek : ℕ → Bytes → Read Bool
unfolding skip
peek c r = let s = skip_ws r in got (starts c s) s

abbrev pub cons_fst : ℕ → Bytes × Bytes → Bytes × Bytes
cons_fst c (s, r) = (c ∷ s, r)

-- the characters up to the first that ends a symbol
unfoldable pub span_symbol : Bytes → Bytes × Bytes
span_symbol [] = ([], [])
span_symbol (c ∷ r) =
    let more = cons_fst c (span_symbol r) in if is_delimiter c then ([], c ∷ r) else more

abbrev pub symbol_of : Bytes × Bytes → Read (Option Bytes)
symbol_of ([], r) = got none r
symbol_of (c ∷ s, r) = got (some (c ∷ s)) r

unfoldable pub read_symbol : Bytes → Read (Option Bytes)
unfolding skip span_symbol
read_symbol r = symbol_of (span_symbol (skip_ws r))

-- the characters up to a quote
unfoldable pub span_string : Bytes → Bytes × Bytes
span_string [] = ([], [])
span_string (c ∷ r) = let more = cons_fst c (span_string r) in if c == 34 then ([], c ∷ r) else more

abbrev pub string_of : Bytes × Bytes → Read (Option Bytes)
string_of (s, r) = (match 34 >>= λ _. pure (some s)) r

unfoldable pub read_string : Bytes → Read (Option Bytes)
unfolding ◌>>=◌ match span_string
read_string = do
  opened ← match 34
  elim opened [ true ↦ λ r. string_of (span_string r) | false ↦ pure none ]

-- The digits, onto the value `v`. A signed overflow, which C leaves undefined, wraps.
unfoldable pub read_digits : ℕ → Bytes → ℕ × Bytes
read_digits v [] = (v, [])
read_digits v (c ∷ r) =
    let more = read_digits ((v * 10 + (c - b'0')) % 2 ^ 64) r in
    if leb b'0' c && leb c b'9' then more else (v, c ∷ r)

-- the long long with the bits of `n`
abbrev pub to_int64 : ℕ → ℤ
to_int64 n = if ltb n (2 ^ 63) then pos n else negsuc (2 ^ 64 - n - 1)

-- `sign * v`; without digits `v` is 0
abbrev pub signed : Bool → ℕ × Bytes → Read ℤ
signed negative (v, r) = got (to_int64 (if negative then (2 ^ 64 - v) % 2 ^ 64 else v)) r

abbrev pub int_of : Bytes → Read ℤ
int_of [] = got (pos 0) []
int_of (c ∷ r) =
    if c == b'-' then signed true (read_digits 0 r) else signed false (read_digits 0 (c ∷ r))

unfoldable pub read_int : Bytes → Read ℤ
unfolding skip read_digits
read_int r = int_of (skip_ws r)

-- the text behind the prefix `kw`
unfoldable pub strip : Bytes → Bytes → Option Bytes
strip [] r = some r
strip (k ∷ kw) [] = none
strip (k ∷ kw) (c ∷ r) = if k == c then strip kw r else none

abbrev pub accepted : Bytes → Option Bytes → Read Bool
accepted s none = got false s
accepted s (some rest) = got true rest

unfoldable pub accept_kw : Bytes → Bytes → Read Bool
unfolding skip strip
accept_kw kw r = let s = skip_ws r in accepted s (strip kw s)

-- A node with a text that may be NULL, which the data model does not hold.
abbrev pub named {ℓ κ} : {A : Type ℓ} {N : Type κ} → (N → A) → Option N → Bytes → Read A
named mk none r = bad_node
named mk (some s) r = got (mk s) r

abbrev pub choose {ℓ} : {A : Type ℓ} → (Bytes → Read A) → (Bytes → Read A) → Bool → Bytes → Read A
choose p q true = p
choose p q false = q

-- if (!match(r, ')')) return NULL; return mk(...);
unfoldable pub closing {ℓ} : {A : Type ℓ} → A → (Bytes → Read A) → Bytes → Read A
unfolding ◌>>=◌ match
closing null mk = do closed ← match 41; choose mk (pure null) closed

-- if (accept_kw(r, kw)) p, and q behind it
unfoldable pub keyword {ℓ} :
    {A : Type ℓ} → Bytes → (Bytes → Read A) → (Bytes → Read A) → Bytes → Read A
unfolding ◌>>=◌ accept_kw
keyword kw p q = do b ← accept_kw kw; choose p q b
