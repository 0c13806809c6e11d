-- ===== src/Numbering/Alpha.antt =====
-- `long2alpha` against the count A, .., Z, AA, AB, ..
use highwire.Common.{
  ℕ, zero, suc, ◌+◌, ◌*◌, ◌/◌, ◌%◌, ◌≤◌, ◌<◌, Bool, true, false, [], ◌∷◌, ◌++◌, ◌≡◌, ◌≢◌, refl, ◌⊎◌,
  arith, ltb, ◌==◌, not, ◌&&◌, ◌||◌,
}
use highwire.Common.Check.{all_below, all_below_sound, same_bytes, same_bytes_iff}
use highwire.Common.Bytes.{Bytes}
use highwire.Numbering.{first_letter, long2alpha}

-- The numbering with letters: behind the numbers of one letter come those of two, and so on. A
-- number's last letter is that of the place `l - 1` in its row, and the rest numbers the row.
unfoldable pub lettered : ℕ → Bool → ℕ → Bytes
lettered zero upper l = []
lettered (suc fuel) upper zero = []
lettered (suc fuel) upper (suc l) =
    lettered fuel upper (l / 26) ++ (l % 26 + first_letter upper) ∷ []

unfoldable pub numbering : Bool → ℕ → Bytes
unfolding lettered
numbering upper l = lettered (suc l) upper l

abbrev is_right : Bool → ℕ → Bool
is_right upper l = same_bytes (long2alpha upper l) (numbering upper l)

abbrev passes : Bool → ℕ → Bool
passes upper l = l == 0 || l % 26 == 0 && ltb 26 l || is_right upper l

passes-all : (upper : Bool) → all_below 703 (passes upper) ≡ true
unfolding all_below same_bytes long2alpha numbering
passes-all true = refl
passes-all false = refl

-- Up to ZZ a number gets its letters, unless it is a multiple of 26 above 26.
pub long2alpha-eq-numbering :
    (upper : Bool) (l : ℕ)
    → 0 < l
    → l ≤ 702
    → (l % 26 ≢ 0) ⊎ (l ≤ 26)
    → long2alpha upper l ≡ numbering upper l
long2alpha-eq-numbering upper l p b c =
    (same_bytes_iff (long2alpha upper l) (numbering upper l)).0
      (ground (arith, all_below_sound 703 (passes upper) l (passes-all upper) (omega arith)))

fails : Bool → ℕ → Bool
fails upper k = ltb k 2 || not (is_right upper (26 * k))

fails-all : (upper : Bool) → all_below 28 (fails upper) ≡ true
unfolding all_below same_bytes long2alpha numbering fails
fails-all true = refl
fails-all false = refl

-- A multiple of 26 above 26, up to ZZ, gets other letters: 52 is BZ and not AZ.
pub long2alpha-ne-numbering :
    (upper : Bool) (k : ℕ) → 2 ≤ k → k ≤ 27 → long2alpha upper (26 * k) ≢ numbering upper (26 * k)
unfolding fails
long2alpha-ne-numbering upper k p b e = ground (
  arith,
  all_below_sound 28 (fails upper) k (fails-all upper) (omega arith),
  same_bytes_iff (long2alpha upper (26 * k)) (numbering upper (26 * k)),
)
