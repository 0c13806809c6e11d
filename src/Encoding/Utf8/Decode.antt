-- ===== src/Encoding/Utf8/Decode.antt =====
-- `utf8_to_unicode` reads what UTF-8 writes.
use mathlib.Core.Path.{subst}
use highwire.Common.{
  ℕ, ◌+◌, ◌*◌, ◌/◌, ◌%◌, ◌^◌, ◌≤◌, ◌<◌, [], ◌∷◌, ◌++◌, ◌≡◌, arith, ltb, if◌then◌else◌, inl, inr,
  Bool-cases,
}
use highwire.Common.Bytes.{Bytes}
use highwire.Encoding.Utf8.{utf8_to_unicode, replace_invalid}
use highwire.Encoding.Utf8.Octets.{two, three, four, five, six}

-- the trailing byte with the bits of the number from a place on
abbrev pub trail : ℕ → ℕ → ℕ
trail u unit = 0x80 + u / unit % 64

-- UTF-8 as RFC 2279 defines it, for 0x80 to 2^31
unfoldable pub utf8_bytes : ℕ → Bytes
utf8_bytes u =
    if ltb u 0x800
    then (0xC0 + u / 0x40) ∷ trail u 1 ∷ []
    else if ltb u 0x10000
    then (0xE0 + u / 0x1000) ∷ trail u 0x40 ∷ trail u 1 ∷ []
    else if ltb u 0x200000
    then (0xF0 + u / 0x40000) ∷ trail u 0x1000 ∷ trail u 0x40 ∷ trail u 1 ∷ []
    else if ltb u 0x4000000
    then (0xF8 + u / 0x1000000) ∷ trail u 0x40000 ∷ trail u 0x1000 ∷ trail u 0x40 ∷ trail u 1 ∷ []
    else (0xFC + u / 0x40000000)
      ∷ trail u 0x1000000
      ∷ trail u 0x40000
      ∷ trail u 0x1000
      ∷ trail u 0x40
      ∷ trail u 1
      ∷ []

two_of :
    (u : ℕ) (s : Bytes)
    → 0x80 ≤ u
    → u < 0x800
    → utf8_to_unicode ((0xC0 + u / 0x40) ∷ trail u 1 ∷ s) ≡ (s, replace_invalid u)
two_of u s b l =
    let sum : u / 0x40 * 0x40 + u / 1 % 64 ≡ u = omega arith in
    subst (λ v. utf8_to_unicode ((0xC0 + u / 0x40) ∷ trail u 1 ∷ s) ≡ (s, replace_invalid v)) sum
      (two (u / 0x40) (u / 1 % 64) s (omega arith) (omega arith) (omega (arith, sum)))

three_of :
    (u : ℕ) (s : Bytes)
    → 0x800 ≤ u
    → u < 0x10000
    → utf8_to_unicode ((0xE0 + u / 0x1000) ∷ trail u 0x40 ∷ trail u 1 ∷ s) ≡ (s, replace_invalid u)
three_of u s b l =
    let sum : u / 0x1000 * 0x1000 + (u / 0x40 % 64 * 0x40 + u / 1 % 64) ≡ u = omega arith in
    subst
      (λ v.
        utf8_to_unicode ((0xE0 + u / 0x1000) ∷ trail u 0x40 ∷ trail u 1 ∷ s)
        ≡ (s, replace_invalid v))
      sum
      (three (u / 0x1000) (u / 0x40 % 64) (u / 1 % 64) s (omega arith) (omega arith) (omega arith)
        (omega (arith, sum)))

four_of :
    (u : ℕ) (s : Bytes)
    → 0x10000 ≤ u
    → u < 0x200000
    → utf8_to_unicode ((0xF0 + u / 0x40000) ∷ trail u 0x1000 ∷ trail u 0x40 ∷ trail u 1 ∷ s)
      ≡ (s, replace_invalid u)
four_of u s b l =
    let sum : u / 0x40000 * 0x40000
          + (u / 0x1000 % 64 * 0x1000 + (u / 0x40 % 64 * 0x40 + u / 1 % 64))
        ≡ u =
      omega arith in
    subst
      (λ v.
        utf8_to_unicode ((0xF0 + u / 0x40000) ∷ trail u 0x1000 ∷ trail u 0x40 ∷ trail u 1 ∷ s)
        ≡ (s, replace_invalid v))
      sum
      (four (u / 0x40000) (u / 0x1000 % 64) (u / 0x40 % 64) (u / 1 % 64) s (omega arith)
        (omega arith) (omega arith) (omega arith) (omega (arith, sum)))

five_of :
    (u : ℕ) (s : Bytes)
    → 0x200000 ≤ u
    → u < 0x4000000
    → utf8_to_unicode
        ((0xF8 + u / 0x1000000) ∷ trail u 0x40000 ∷ trail u 0x1000 ∷ trail u 0x40 ∷ trail u 1 ∷ s)
      ≡ (s, replace_invalid u)
five_of u s b l =
    let sum : u / 0x1000000 * 0x1000000
          + (u / 0x40000 % 64 * 0x40000
              + (u / 0x1000 % 64 * 0x1000 + (u / 0x40 % 64 * 0x40 + u / 1 % 64)))
        ≡ u =
      omega arith in
    subst
      (λ v.
        utf8_to_unicode
          ((0xF8 + u / 0x1000000) ∷ trail u 0x40000 ∷ trail u 0x1000 ∷ trail u 0x40 ∷ trail u 1 ∷ s)
        ≡ (s, replace_invalid v))
      sum
      (five (u / 0x1000000) (u / 0x40000 % 64) (u / 0x1000 % 64) (u / 0x40 % 64) (u / 1 % 64) s
        (omega arith) (omega arith) (omega arith) (omega arith) (omega arith) (omega (arith, sum)))

six_of :
    (u : ℕ) (s : Bytes)
    → 0x4000000 ≤ u
    → u < 2 ^ 31
    → utf8_to_unicode (
        (0xFC + u / 0x40000000)
        ∷ trail u 0x1000000
        ∷ trail u 0x40000
        ∷ trail u 0x1000
        ∷ trail u 0x40
        ∷ trail u 1
        ∷ s)
      ≡ (s, replace_invalid u)
six_of u s b l =
    let sum : u / 0x40000000 * 0x40000000
          + (u / 0x1000000 % 64 * 0x1000000
              + (u / 0x40000 % 64 * 0x40000
                  + (u / 0x1000 % 64 * 0x1000 + (u / 0x40 % 64 * 0x40 + u / 1 % 64))))
        ≡ u =
      omega arith in
    subst
      (λ v.
        utf8_to_unicode (
          (0xFC + u / 0x40000000)
          ∷ trail u 0x1000000
          ∷ trail u 0x40000
          ∷ trail u 0x1000
          ∷ trail u 0x40
          ∷ trail u 1
          ∷ s)
        ≡ (s, replace_invalid v))
      sum
      (six (u / 0x40000000) (u / 0x1000000 % 64) (u / 0x40000 % 64) (u / 0x1000 % 64)
        (u / 0x40 % 64) (u / 1 % 64) s (omega arith) (omega arith) (omega arith) (omega arith)
        (omega arith) (omega arith) (omega (arith, sum)))

-- The decoder reads back what RFC 2279 writes for a number from 0x80 up to 2^31, and leaves what
-- follows; a surrogate or a number from 0xFFFE on becomes the replacement character.
pub utf8_to_unicode-utf8_bytes :
    (u : ℕ) (s : Bytes)
    → 0x80 ≤ u
    → u < 2 ^ 31
    → utf8_to_unicode (utf8_bytes u ++ s) ≡ (s, replace_invalid u)
unfolding utf8_bytes
utf8_to_unicode-utf8_bytes u s b l = elim (Bool-cases (ltb u 0x800)) [
  | inl in_two ↦ rw in_two (two_of u s b (ground arith))
  | inr over_two ↦ elim (Bool-cases (ltb u 0x10000)) [
    | inl in_three ↦ rw (over_two, in_three) (three_of u s (ground arith) (ground arith))
    | inr over_three ↦ elim (Bool-cases (ltb u 0x200000)) [
      | inl in_four ↦ rw (over_two, over_three, in_four) (four_of u s (ground arith) (ground arith))
      | inr over_four ↦ elim (Bool-cases (ltb u 0x4000000)) [
        | inl in_five ↦
            rw (over_two, over_three, over_four, in_five)
              (five_of u s (ground arith) (ground arith))
        | inr over_five ↦
            rw (over_two, over_three, over_four, over_five) (six_of u s (ground arith) l)
      ]
    ]
  ]
]
