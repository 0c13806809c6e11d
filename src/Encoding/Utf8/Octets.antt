-- ===== src/Encoding/Utf8/Octets.antt =====
-- What `utf8_to_unicode` reads from two to six bytes with given bits.
use highwire.Common.{ℕ, ◌+◌, ◌-◌, ◌*◌, ◌%◌, ◌^◌, ◌≤◌, ◌<◌, true, false, ◌∷◌, ◌≡◌, refl, arith, drop}
use highwire.Common.Bytes.{Bytes, head_byte}
use highwire.Encoding.Utf8.{
  utf8_to_unicode, count_octets, add_octets, replace_invalid, is_nonshortest,
}

-- The decoder, step by step: the number of octets, their form, what is left, and the sum.
decodes :
    (ch n u : ℕ) (s rest : Bytes)
    → count_octets ch s ≡ (n, true)
    → is_nonshortest ch (head_byte s) ≡ false
    → drop n s ≡ rest
    → add_octets n s (ch % 2 ^ (6 - n) * 2 ^ (n * 6)) ≡ u
    → utf8_to_unicode (ch ∷ s) ≡ (rest, replace_invalid u)
unfolding utf8_to_unicode
decodes ch n u s rest c f d v = rw (c, f, d, v)

-- The bits p of the first byte, and a, b, .. of the others
pub two :
    (p a : ℕ) (s : Bytes)
    → p < 32
    → a < 64
    → 0x80 ≤ p * 0x40 + a
    → utf8_to_unicode ((0xC0 + p) ∷ (0x80 + a) ∷ s) ≡ (s, replace_invalid (p * 0x40 + a))
unfolding count_octets add_octets
two p a s lp la m =
    decodes (0xC0 + p) 1 (p * 0x40 + a) ((0x80 + a) ∷ s) s (ground arith) (ground arith) refl
      (omega arith)

pub three :
    (p a b : ℕ) (s : Bytes)
    → p < 16
    → a < 64
    → b < 64
    → 0x800 ≤ p * 0x1000 + (a * 0x40 + b)
    → utf8_to_unicode ((0xE0 + p) ∷ (0x80 + a) ∷ (0x80 + b) ∷ s)
      ≡ (s, replace_invalid (p * 0x1000 + (a * 0x40 + b)))
unfolding count_octets add_octets
three p a b s lp la lb m =
    decodes (0xE0 + p) 2 (p * 0x1000 + (a * 0x40 + b)) ((0x80 + a) ∷ (0x80 + b) ∷ s) s
      (ground arith) (ground arith) refl (omega arith)

pub four :
    (p a b c : ℕ) (s : Bytes)
    → p < 8
    → a < 64
    → b < 64
    → c < 64
    → 0x10000 ≤ p * 0x40000 + (a * 0x1000 + (b * 0x40 + c))
    → utf8_to_unicode ((0xF0 + p) ∷ (0x80 + a) ∷ (0x80 + b) ∷ (0x80 + c) ∷ s)
      ≡ (s, replace_invalid (p * 0x40000 + (a * 0x1000 + (b * 0x40 + c))))
unfolding count_octets add_octets
four p a b c s lp la lb lc m =
    decodes (0xF0 + p) 3 (p * 0x40000 + (a * 0x1000 + (b * 0x40 + c)))
      ((0x80 + a) ∷ (0x80 + b) ∷ (0x80 + c) ∷ s) s (ground arith) (ground arith) refl (omega arith)

pub five :
    (p a b c d : ℕ) (s : Bytes)
    → p < 4
    → a < 64
    → b < 64
    → c < 64
    → d < 64
    → 0x200000 ≤ p * 0x1000000 + (a * 0x40000 + (b * 0x1000 + (c * 0x40 + d)))
    → utf8_to_unicode ((0xF8 + p) ∷ (0x80 + a) ∷ (0x80 + b) ∷ (0x80 + c) ∷ (0x80 + d) ∷ s)
      ≡ (s, replace_invalid (p * 0x1000000 + (a * 0x40000 + (b * 0x1000 + (c * 0x40 + d)))))
unfolding count_octets add_octets
five p a b c d s lp la lb lc ld m =
    decodes (0xF8 + p) 4 (p * 0x1000000 + (a * 0x40000 + (b * 0x1000 + (c * 0x40 + d))))
      ((0x80 + a) ∷ (0x80 + b) ∷ (0x80 + c) ∷ (0x80 + d) ∷ s) s (ground arith) (ground arith) refl
      (omega arith)

pub six :
    (p a b c d e : ℕ) (s : Bytes)
    → p < 2
    → a < 64
    → b < 64
    → c < 64
    → d < 64
    → e < 64
    → 0x4000000 ≤ p * 0x40000000 + (a * 0x1000000 + (b * 0x40000 + (c * 0x1000 + (d * 0x40 + e))))
    → utf8_to_unicode
        ((0xFC + p) ∷ (0x80 + a) ∷ (0x80 + b) ∷ (0x80 + c) ∷ (0x80 + d) ∷ (0x80 + e) ∷ s)
      ≡ (
        s,
        replace_invalid
            (p * 0x40000000 + (a * 0x1000000 + (b * 0x40000 + (c * 0x1000 + (d * 0x40 + e))))),
      )
unfolding count_octets add_octets
six p a b c d e s lp la lb lc ld le m =
    decodes (0xFC + p) 5
      (p * 0x40000000 + (a * 0x1000000 + (b * 0x40000 + (c * 0x1000 + (d * 0x40 + e)))))
      ((0x80 + a) ∷ (0x80 + b) ∷ (0x80 + c) ∷ (0x80 + d) ∷ (0x80 + e) ∷ s) s (ground arith)
      (ground arith) refl (omega arith)
