-- ===== src/Encoding/Utf8/Forms.antt =====
-- The forms of two to six bytes: a number that the decoder reads from one is written so.
use highwire.Common.{ℕ, ◌+◌, ◌*◌, ◌≤◌, ◌<◌, [], ◌∷◌, ◌++◌, ◌≡◌, ◌≢◌, refl, arith}
use highwire.Common.Bytes.{Bytes}
use highwire.Encoding.Utf8.{utf8_to_unicode, replace_invalid}
use highwire.Encoding.Utf8.Octets.{two, three, four, five, six}
use highwire.Encoding.Utf8.Decode.{utf8_bytes}

-- What a decoded number says about the bytes: it is written as they are.
abbrev pub IsWritten : Bytes → Type 0
IsWritten s = s ≡ utf8_bytes (utf8_to_unicode s).1 ++ (utf8_to_unicode s).0

IsWritten-intro :
    (s rest front : Bytes) (u : ℕ)
    → s ≡ front ++ rest
    → utf8_to_unicode s ≡ (rest, replace_invalid u)
    → (utf8_to_unicode s).1 ≢ 0xFFFD
    → utf8_bytes u ≡ front
    → IsWritten s
IsWritten-intro s rest front u e d h w =
    let same : replace_invalid u ≡ u = ground (arith, d) in rw (d, same, w) e

two_bytes :
    (p a : ℕ)
    → p < 32
    → a < 64
    → 0x80 ≤ p * 0x40 + a
    → utf8_bytes (p * 0x40 + a) ≡ (0xC0 + p) ∷ (0x80 + a) ∷ []
unfolding utf8_bytes
two_bytes p a lp la m = ground arith

pub two-IsWritten :
    (p a : ℕ) (t : Bytes)
    → p < 32
    → a < 64
    → 0x80 ≤ p * 0x40 + a
    → (utf8_to_unicode ((0xC0 + p) ∷ (0x80 + a) ∷ t)).1 ≢ 0xFFFD
    → IsWritten ((0xC0 + p) ∷ (0x80 + a) ∷ t)
two-IsWritten p a t lp la m h =
    IsWritten-intro ((0xC0 + p) ∷ (0x80 + a) ∷ t) t ((0xC0 + p) ∷ (0x80 + a) ∷ []) (p * 0x40 + a)
      refl (two p a t lp la m) h (two_bytes p a lp la m)

three_bytes :
    (p a b : ℕ)
    → p < 16
    → a < 64
    → b < 64
    → 0x800 ≤ p * 0x1000 + (a * 0x40 + b)
    → utf8_bytes (p * 0x1000 + (a * 0x40 + b)) ≡ (0xE0 + p) ∷ (0x80 + a) ∷ (0x80 + b) ∷ []
unfolding utf8_bytes
three_bytes p a b lp la lb m = ground arith

pub three-IsWritten :
    (p a b : ℕ) (t : Bytes)
    → p < 16
    → a < 64
    → b < 64
    → 0x800 ≤ p * 0x1000 + (a * 0x40 + b)
    → (utf8_to_unicode ((0xE0 + p) ∷ (0x80 + a) ∷ (0x80 + b) ∷ t)).1 ≢ 0xFFFD
    → IsWritten ((0xE0 + p) ∷ (0x80 + a) ∷ (0x80 + b) ∷ t)
three-IsWritten p a b t lp la lb m h =
    IsWritten-intro ((0xE0 + p) ∷ (0x80 + a) ∷ (0x80 + b) ∷ t) t
      ((0xE0 + p) ∷ (0x80 + a) ∷ (0x80 + b) ∷ []) (p * 0x1000 + (a * 0x40 + b)) refl
      (three p a b t lp la lb m) h (three_bytes p a b lp la lb m)

four_bytes :
    (p a b c : ℕ)
    → p < 8
    → a < 64
    → b < 64
    → c < 64
    → 0x10000 ≤ p * 0x40000 + (a * 0x1000 + (b * 0x40 + c))
    → utf8_bytes (p * 0x40000 + (a * 0x1000 + (b * 0x40 + c)))
      ≡ (0xF0 + p) ∷ (0x80 + a) ∷ (0x80 + b) ∷ (0x80 + c) ∷ []
unfolding utf8_bytes
four_bytes p a b c lp la lb lc m = ground arith

pub four-IsWritten :
    (p a b c : ℕ) (t : Bytes)
    → p < 8
    → a < 64
    → b < 64
    → c < 64
    → 0x10000 ≤ p * 0x40000 + (a * 0x1000 + (b * 0x40 + c))
    → (utf8_to_unicode ((0xF0 + p) ∷ (0x80 + a) ∷ (0x80 + b) ∷ (0x80 + c) ∷ t)).1 ≢ 0xFFFD
    → IsWritten ((0xF0 + p) ∷ (0x80 + a) ∷ (0x80 + b) ∷ (0x80 + c) ∷ t)
four-IsWritten p a b c t lp la lb lc m h =
    IsWritten-intro ((0xF0 + p) ∷ (0x80 + a) ∷ (0x80 + b) ∷ (0x80 + c) ∷ t) t
      ((0xF0 + p) ∷ (0x80 + a) ∷ (0x80 + b) ∷ (0x80 + c) ∷ [])
      (p * 0x40000 + (a * 0x1000 + (b * 0x40 + c))) refl (four p a b c t lp la lb lc m) h
      (four_bytes p a b c lp la lb lc m)

five_bytes :
    (p a b c d : ℕ)
    → p < 4
    → a < 64
    → b < 64
    → c < 64
    → d < 64
    → 0x200000 ≤ p * 0x1000000 + (a * 0x40000 + (b * 0x1000 + (c * 0x40 + d)))
    → utf8_bytes (p * 0x1000000 + (a * 0x40000 + (b * 0x1000 + (c * 0x40 + d))))
      ≡ (0xF8 + p) ∷ (0x80 + a) ∷ (0x80 + b) ∷ (0x80 + c) ∷ (0x80 + d) ∷ []
unfolding utf8_bytes
five_bytes p a b c d lp la lb lc ld m = ground arith

pub five-IsWritten :
    (p a b c d : ℕ) (t : Bytes)
    → p < 4
    → a < 64
    → b < 64
    → c < 64
    → d < 64
    → 0x200000 ≤ p * 0x1000000 + (a * 0x40000 + (b * 0x1000 + (c * 0x40 + d)))
    → (utf8_to_unicode ((0xF8 + p) ∷ (0x80 + a) ∷ (0x80 + b) ∷ (0x80 + c) ∷ (0x80 + d) ∷ t)).1
      ≢ 0xFFFD
    → IsWritten ((0xF8 + p) ∷ (0x80 + a) ∷ (0x80 + b) ∷ (0x80 + c) ∷ (0x80 + d) ∷ t)
five-IsWritten p a b c d t lp la lb lc ld m h =
    IsWritten-intro ((0xF8 + p) ∷ (0x80 + a) ∷ (0x80 + b) ∷ (0x80 + c) ∷ (0x80 + d) ∷ t) t
      ((0xF8 + p) ∷ (0x80 + a) ∷ (0x80 + b) ∷ (0x80 + c) ∷ (0x80 + d) ∷ [])
      (p * 0x1000000 + (a * 0x40000 + (b * 0x1000 + (c * 0x40 + d)))) refl
      (five p a b c d t lp la lb lc ld m) h (five_bytes p a b c d lp la lb lc ld m)

six_bytes :
    (p a b c d e : ℕ)
    → p < 2
    → a < 64
    → b < 64
    → c < 64
    → d < 64
    → e < 64
    → 0x4000000 ≤ p * 0x40000000 + (a * 0x1000000 + (b * 0x40000 + (c * 0x1000 + (d * 0x40 + e))))
    → utf8_bytes (p * 0x40000000 + (a * 0x1000000 + (b * 0x40000 + (c * 0x1000 + (d * 0x40 + e)))))
      ≡ (0xFC + p) ∷ (0x80 + a) ∷ (0x80 + b) ∷ (0x80 + c) ∷ (0x80 + d) ∷ (0x80 + e) ∷ []
unfolding utf8_bytes
six_bytes p a b c d e lp la lb lc ld le m = ground arith

pub six-IsWritten :
    (p a b c d e : ℕ) (t : Bytes)
    → p < 2
    → a < 64
    → b < 64
    → c < 64
    → d < 64
    → e < 64
    → 0x4000000 ≤ p * 0x40000000 + (a * 0x1000000 + (b * 0x40000 + (c * 0x1000 + (d * 0x40 + e))))
    → (utf8_to_unicode
        ((0xFC + p) ∷ (0x80 + a) ∷ (0x80 + b) ∷ (0x80 + c) ∷ (0x80 + d) ∷ (0x80 + e) ∷ t)).1
      ≢ 0xFFFD
    → IsWritten ((0xFC + p) ∷ (0x80 + a) ∷ (0x80 + b) ∷ (0x80 + c) ∷ (0x80 + d) ∷ (0x80 + e) ∷ t)
six-IsWritten p a b c d e t lp la lb lc ld le m h =
    IsWritten-intro
      ((0xFC + p) ∷ (0x80 + a) ∷ (0x80 + b) ∷ (0x80 + c) ∷ (0x80 + d) ∷ (0x80 + e) ∷ t) t
      ((0xFC + p) ∷ (0x80 + a) ∷ (0x80 + b) ∷ (0x80 + c) ∷ (0x80 + d) ∷ (0x80 + e) ∷ [])
      (p * 0x40000000 + (a * 0x1000000 + (b * 0x40000 + (c * 0x1000 + (d * 0x40 + e))))) refl
      (six p a b c d e t lp la lb lc ld le m) h (six_bytes p a b c d e lp la lb lc ld le m)
