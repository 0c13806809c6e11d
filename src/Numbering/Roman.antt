-- ===== src/Numbering/Roman.antt =====
-- `short2roman`: the numeral reads back as the number.
use highwire.Common.{
  ℕ, ◌+◌, ◌-◌, ◌<◌, Bool, true, false, ◌&&◌, [], ◌∷◌, ◌≡◌, refl, arith, ltb, ◌==◌, if◌then◌else◌,
  map,
}
use highwire.Common.Check.{all_below, all_below_sound}
use highwire.Common.Bytes.{Bytes, codes, to_upper}
use highwire.Numbering.{short2roman}

abbrev roman_digit : ℕ → ℕ
roman_digit c =
    if c == b'I'
    then 1
    else if c == b'V'
    then 5
    else if c == b'X'
    then 10
    else if c == b'L'
    then 50
    else if c == b'C'
    then 100
    else if c == b'D'
    then 500
    else if c == b'M'
    then 1000
    else 0

-- a letter before a greater one counts against it
unfoldable pub letters_value : Bytes → ℕ
letters_value [] = 0
letters_value (a ∷ []) = roman_digit a
letters_value (a ∷ b ∷ s) =
    let rest = letters_value (b ∷ s) in
    if ltb (roman_digit a) (roman_digit b) then rest - roman_digit a else rest + roman_digit a

-- whether the text starts with the sign, and what is left
unfoldable pub strip : Bytes → Bytes → Bool × Bytes → Bool × Bytes
strip [] s missed = (true, s)
strip (c ∷ sign) [] missed = missed
strip (c ∷ sign) (d ∷ s) missed = let rest = strip sign s missed in if c == d then rest else missed

-- `((|))` is 10000 and `|))` is 5000.
unfoldable pub roman_value : Bytes → ℕ
unfolding letters_value strip
roman_value s =
    let (ten, t) = strip (codes "((|))") s (false, s) in
    let (five, u) = strip (codes "|))") t (false, t) in
    (if ten then 10000 else 0) + ((if five then 5000 else 0) + letters_value u)

abbrev reads_back : ℕ → Bool
reads_back n =
    roman_value (short2roman true n) == n && roman_value (map to_upper (short2roman false n)) == n

reads_back-all : all_below 20000 reads_back ≡ true
unfolding all_below roman_value short2roman
reads_back-all = refl

-- Every numeral that `list_marker` asks for reads back as its number, in either case of letters.
pub roman_value-short2roman :
    (n : ℕ)
    → n < 20000
    → (roman_value (short2roman true n) ≡ n)
      × (roman_value (map to_upper (short2roman false n)) ≡ n)
roman_value-short2roman n h = ground (arith, all_below_sound 20000 reads_back n reads_back-all h)
