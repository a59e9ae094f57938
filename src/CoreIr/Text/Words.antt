-- ===== src/CoreIr/Text/Words.antt =====
-- What the words of a printed text read as: names, strings, numbers, and keywords that are none.
use lazyscript.Prelude.{
  ℕ, zero, suc, ◌+◌, ◌-◌, ◌*◌, ◌/◌, ◌%◌, ◌^◌, ◌≤◌, ◌<◌, Bool, Bool-cases, inl, inr, ltb→lt, true,
  false, ◌&&◌, ◌||◌, not, ◌≡◌, refl, ap, ◌∙◌, none, some, [], ◌∷◌, ◌++◌, Bytes, All, ltb, leb, ◌==◌,
  arith,
}
use lazyscript.Prelude.Int.{ℤ, pos, negsuc}
use lazyscript.Prelude.Decimal.{show_ℤ, show_ℕ, digits_onto}
use lazyscript.CoreIr.Text.Lexer.{
  Read, got, skip, skip_ws, is_delimiter, span_symbol, read_symbol, span_string, read_string,
  read_digits, signed, read_int, strip, accepted, accept_kw, then_read, choose, keyword,
}

-- What follows a name: a space or a parenthesis.
pub data Ends : Bytes → Type 0 where
  space : (k : Bytes) → Ends (32 ∷ k)
  paren : (k : Bytes) → Ends (41 ∷ k)

-- A symbol that does not begin like a comment.
abbrev pub IsName : Bytes → Type 0
IsName [] = ⊥
IsName (c ∷ s) = (c == 59 ≡ false) × All (λ b. is_delimiter b ≡ false) (c ∷ s)

span_symbol-name :
    (s k : Bytes) → All (λ b. is_delimiter b ≡ false) s → Ends k → span_symbol (s ++ k) ≡ (s, k)
unfolding span_symbol
span_symbol-name [] _ a (space k) = refl
span_symbol-name [] _ a (paren k) = refl
span_symbol-name (c ∷ s) k (h, a) e = rw (h, span_symbol-name s k a e)

skip_ws-name : (x k : Bytes) → IsName x → skip_ws (x ++ k) ≡ x ++ k
unfolding skip
skip_ws-name [] k h = absurd h
skip_ws-name (c ∷ s) k (h, (d, a)) = ground arith

pub read_symbol-name : (x k : Bytes) → IsName x → Ends k → read_symbol (x ++ k) ≡ got (some x) k
unfolding read_symbol
read_symbol-name [] k h e = absurd h
read_symbol-name (c ∷ s) k h e = rw (skip_ws-name (c ∷ s) k h, span_symbol-name (c ∷ s) k (h.1) e)

-- A string without a quote.
abbrev pub IsQuotable : Bytes → Type 0
IsQuotable = All (λ b. b == 34 ≡ false)

span_string-quoted : (s k : Bytes) → IsQuotable s → span_string (s ++ 34 ∷ k) ≡ (s, 34 ∷ k)
unfolding span_string
span_string-quoted [] k a = refl
span_string-quoted (c ∷ s) k (h, a) = rw (h, span_string-quoted s k a)

pub read_string-quoted :
    (s k : Bytes) → IsQuotable s → read_string (34 ∷ (s ++ 34 ∷ k)) ≡ got (some s) k
unfolding read_string
read_string-quoted s k a = rw (span_string-quoted s k a)

-- A number that a long long holds, with its opposite.
abbrev pub IsLong : ℤ → Type 0
IsLong (pos n) = n < 2 ^ 63
IsLong (negsuc n) = suc n < 2 ^ 63

read_digits-digit :
    (v d : ℕ) (k : Bytes)
    → d < 10
    → v * 10 + d < 2 ^ 63
    → read_digits v ((b'0' + d) ∷ k) ≡ read_digits (v * 10 + d) k
unfolding read_digits
read_digits-digit v d k h b =
    let same_value : (v * 10 + (48 + d - 48)) % 2 ^ 64 ≡ v * 10 + d = omega (arith, h, b) in
    let is_digit : (leb 48 (48 + d) && leb (48 + d) 57) ≡ true = ground arith in
    rw (is_digit, same_value)

read_digits-digits_onto :
    (fuel n : ℕ) (acc k : Bytes)
    → n < fuel
    → n < 2 ^ 63
    → read_digits 0 (digits_onto fuel n acc ++ k) ≡ read_digits n (acc ++ k)
unfolding digits_onto
read_digits-digits_onto zero n acc k h b = absurd (omega arith)
read_digits-digits_onto (suc fuel) n acc k h b = elim (Bool-cases (ltb n 10)) [
  | inl p ↦
      let small : n < 10 = ltb→lt n 10 p in
      rw p (
        read_digits-digit 0 (n % 10) (acc ++ k) (omega arith) (omega arith)
        ∙ ap (λ w. read_digits w (acc ++ k)) (omega (arith, small)))
  | inr p ↦
      let large : 10 ≤ n = ground arith in
      rw p (
        read_digits-digits_onto fuel (n / 10) ((b'0' + n % 10) ∷ acc) k (omega arith) (omega arith)
        ∙ read_digits-digit (n / 10) (n % 10) (acc ++ k) (omega arith) (omega arith)
        ∙ ap (λ w. read_digits w (acc ++ k)) (omega arith))
]

data StartsDigit : Bytes → Type 0 where
  digit : (d : ℕ) (s : Bytes) → d < 10 → StartsDigit ((b'0' + d) ∷ s)

digits_onto-StartsDigit :
    (fuel n : ℕ) (acc : Bytes) → n < fuel → StartsDigit (digits_onto fuel n acc)
unfolding digits_onto
digits_onto-StartsDigit zero n acc h = absurd (omega arith)
digits_onto-StartsDigit (suc fuel) n acc h = elim (Bool-cases (ltb n 10)) [
  | inl p ↦ rw p (digit (n % 10) acc (omega arith))
  | inr p ↦
      let large : 10 ≤ n = ground arith in
      rw p (digits_onto-StartsDigit fuel (n / 10) ((b'0' + n % 10) ∷ acc) (omega arith))
]

read_int-StartsDigit :
    (s k : Bytes) → StartsDigit s → read_int (s ++ k) ≡ signed false (read_digits 0 (s ++ k))
unfolding read_int skip
read_int-StartsDigit _ k (digit d s h) = ground arith

read_digits-show_ℕ :
    (n : ℕ) (k : Bytes) → n < 2 ^ 63 → read_digits 0 (show_ℕ n ++ 41 ∷ k) ≡ (n, 41 ∷ k)
unfolding show_ℕ read_digits
read_digits-show_ℕ n k b = read_digits-digits_onto (suc n) n [] (41 ∷ k) (omega arith) b

read_int-minus : (s : Bytes) → read_int (b'-' ∷ s) ≡ signed true (read_digits 0 s)
unfolding read_int skip
read_int-minus s = refl

signed-neg : (n : ℕ) (k : Bytes) → suc n < 2 ^ 63 → signed true (suc n, k) ≡ got (negsuc n) k
signed-neg n k b = ground arith

signed-pos : (n : ℕ) (k : Bytes) → n < 2 ^ 63 → signed false (n, k) ≡ got (pos n) k
signed-pos n k b = ground arith

pub read_int-show : (n : ℤ) (k : Bytes) → IsLong n → read_int (show_ℤ n ++ 41 ∷ k) ≡ got n (41 ∷ k)
unfolding show_ℤ
read_int-show (pos n) k b =
    read_int-StartsDigit (show_ℕ n) (41 ∷ k)
      (unfold show_ℕ in digits_onto-StartsDigit (suc n) n [] (omega arith))
    ∙ ap (signed false) (read_digits-show_ℕ n k b)
    ∙ signed-pos n (41 ∷ k) b
read_int-show (negsuc n) k b =
    read_int-minus (show_ℕ (suc n) ++ 41 ∷ k)
    ∙ ap (signed true) (read_digits-show_ℕ (suc n) k b)
    ∙ signed-neg n (41 ∷ k) b

-- no space and no closing parenthesis
abbrev pub plain : Bytes → Bool
plain [] = true
plain (c ∷ s) = not (c == 32 || c == 41) && plain s

strip-append :
    (kw x k : Bytes) → plain kw ≡ true → Ends k → strip kw x ≡ none → strip kw (x ++ k) ≡ none
unfolding strip
strip-append [] x k p e h = cc
strip-append (a ∷ kw) [] _ p (space k) h = ground arith
strip-append (a ∷ kw) [] _ p (paren k) h = ground arith
strip-append (a ∷ kw) (b ∷ x) k p e h = ground (arith, strip-append kw x k)

accept_kw-miss :
    (kw x k : Bytes)
    → plain kw ≡ true
    → IsName x
    → Ends k
    → strip kw x ≡ none
    → accept_kw kw (x ++ k) ≡ got false (x ++ k)
unfolding accept_kw
accept_kw-miss kw x k pl n e h =
    ap (λ s. accepted s (strip kw s)) (skip_ws-name x k n)
    ∙ ap (accepted (x ++ k)) (strip-append kw x k pl e h)

pub keyword-miss {ℓ} :
    {A : Type ℓ} (kw : Bytes) (p q : Bytes → Read A) (x k : Bytes)
    → plain kw ≡ true
    → IsName x
    → Ends k
    → strip kw x ≡ none
    → keyword kw p q (x ++ k) ≡ q (x ++ k)
unfolding keyword
keyword-miss kw p q x k pl n e h = ap (then_read (choose p q)) (accept_kw-miss kw x k pl n e h)
