-- ===== src/Common/Str/Order.antt =====
-- The comparison of strings against their bytes.
use lazyscript.Prelude.{
  ℕ, zero, suc, ◌+◌, ◌-◌, ◌%◌, ◌^◌, ◌<◌, true, ◌≡◌, ◌↔◌, refl, sym, [], ◌∷◌, arith, Bytes, length,
  ◌==◌, ==_iff, Bool-cases, inl, inr,
}
use lazyscript.Prelude.Int.{ℤ, pos, negsuc}
use lazyscript.Common.Str.{LsStr, memcmp, to_int, is_zero, get_len, lsstrcmp}

-- Two strings with one buffer have the same bytes, as the intern table makes sure.
abbrev pub Coherent : LsStr → LsStr → Type 0
Coherent s t = s.buf ≡ t.buf → s.bytes ≡ t.bytes

memcmp_refl : (a : Bytes) → memcmp a a ≡ pos 0
unfolding memcmp
memcmp_refl [] = refl
memcmp_refl (a ∷ as') = ground (arith, memcmp_refl as')

memcmp-eq : (a b : Bytes) → memcmp a b ≡ pos 0 → length a ≡ length b → a ≡ b
unfolding memcmp
memcmp-eq [] [] h l = refl
memcmp-eq [] (b ∷ bs) h l = absurd (omega arith)
memcmp-eq (a ∷ as') [] h l = absurd (omega arith)
memcmp-eq (a ∷ as') (b ∷ bs) h l = ground (arith, memcmp-eq as' bs)

pub is_zero→eq : (n : ℤ) → is_zero n ≡ true → n ≡ pos 0
unfolding is_zero
is_zero→eq (pos zero) h = refl
is_zero→eq (pos (suc n)) h = cc
is_zero→eq (negsuc n) h = cc

lengths_eq :
    (m n : ℕ) → m < 2 ^ 32 → n < 2 ^ 32 → to_int ((m + 2 ^ 32 - n) % 2 ^ 32) ≡ pos 0 → m ≡ n
unfolding to_int
lengths_eq m n hm hn h = ground arith

lengths_zero : (n : ℕ) → n < 2 ^ 32 → to_int ((n + 2 ^ 32 - n) % 2 ^ 32) ≡ pos 0
unfolding to_int
lengths_zero n h = ground arith

pub is_zero-zero : is_zero (pos 0) ≡ true
unfolding is_zero
is_zero-zero = refl

lsstrcmp-zero_to :
    (s t : LsStr)
    → Coherent s t
    → get_len s < 2 ^ 32
    → get_len t < 2 ^ 32
    → lsstrcmp s t ≡ pos 0
    → s.bytes ≡ t.bytes
unfolding lsstrcmp
lsstrcmp-zero_to s t same_buf hs ht h = elim (Bool-cases (s.buf == t.buf)) [
  | inl p ↦ same_buf ((==_iff s.buf t.buf).0 p)
  | inr p ↦ elim (Bool-cases (is_zero (memcmp s.bytes t.bytes))) [
    | inl q ↦
        memcmp-eq s.bytes t.bytes (is_zero→eq _ q)
          (lengths_eq (get_len s) (get_len t) hs ht (rw (p, q) at h))
    | inr q ↦ let z = rw (p, q) at h in absurd (cc (is_zero-zero, z, q))
  ]
]

lsstrcmp-zero_of : (s t : LsStr) → get_len s < 2 ^ 32 → s.bytes ≡ t.bytes → lsstrcmp s t ≡ pos 0
unfolding lsstrcmp is_zero
lsstrcmp-zero_of s t hs e = elim (Bool-cases (s.buf == t.buf)) [
  | inl p ↦ rw p
  | inr p ↦ rw (p, sym e, memcmp_refl s.bytes) (lengths_zero (get_len s) hs)
]

-- On coherent strings with lengths of 32 bits the comparison answers 0 exactly for equal bytes.
pub lsstrcmp-zero_iff :
    (s t : LsStr)
    → Coherent s t
    → get_len s < 2 ^ 32
    → get_len t < 2 ^ 32
    → (lsstrcmp s t ≡ pos 0) ↔ (s.bytes ≡ t.bytes)
lsstrcmp-zero_iff s t same_buf hs ht =
    (lsstrcmp-zero_to s t same_buf hs ht, lsstrcmp-zero_of s t hs)
