-- ===== src/Encoding/Utf8/Advance.antt =====
-- `utf8_to_unicode` moves on, and stays in the string.
use highwire.Common.{
  ℕ, zero, suc, ◌≤◌, ◌<◌, true, false, [], ◌∷◌, ◌++◌, ◌≡◌, refl, ap, arith, drop, length,
}
use highwire.Common.Bytes.{Bytes, within}
use highwire.Encoding.Utf8.{utf8_to_unicode, count_octets, is_trail}

length-trail : (s : Bytes) (i : ℕ) → is_trail s i ≡ true → i < length s
length-trail [] zero h = absurd (ground arith)
length-trail [] (suc i) h = absurd (ground arith)
length-trail (c ∷ s) zero h = omega arith
length-trail (c ∷ s) (suc i) h = omega (arith, length-trail s i h)

octets_within :
    (ch : ℕ) (s : Bytes) → ((count_octets ch s).0 ≤ 5) × ((count_octets ch s).0 ≤ length s)
unfolding count_octets
octets_within ch s = ground (
  arith,
  length-trail s 0,
  length-trail s 1,
  length-trail s 2,
  length-trail s 3,
  length-trail s 4,
)

pub split_at :
    (n : ℕ) (s : Bytes)
    → n ≤ length s
    → (front : Bytes) × (s ≡ front ++ drop n s) × (length front ≡ n)
split_at zero s h = ([], refl, refl)
split_at (suc n) [] h = absurd (omega arith)
split_at (suc n) (c ∷ s) h =
    let (front, e, l) = split_at n s (omega arith) in (c ∷ front, ap (◌∷◌ c) e, ap suc l)

pub utf8_to_unicode_advances :
    (ch : ℕ) (s : Bytes)
    → ((front : Bytes) × (ch ∷ s ≡ front ++ (utf8_to_unicode (ch ∷ s)).0)
        × (0 < length front)
        × (length front ≤ 6))
      × (within 0xD800 0xDFFF (utf8_to_unicode (ch ∷ s)).1 ≡ false)
      × ((utf8_to_unicode (ch ∷ s)).1 < 0xFFFE)
unfolding utf8_to_unicode
utf8_to_unicode_advances ch s =
    let (most, inside) = octets_within ch s in
    let (front, e, l) = split_at (count_octets ch s).0 s inside in
    ((ch ∷ front, ap (◌∷◌ ch) e, omega arith, omega (arith, l)), ground arith, ground arith)
