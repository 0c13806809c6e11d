-- ===== src/Numbering/Negative.antt =====
-- `list_marker`: the marker of a negative number against that of its magnitude.
use highwire.Common.{
  ℕ, zero, suc, ◌-◌, ◌%◌, ◌<◌, Bool, true, false, none, some, [], ◌∷◌, ◌≡◌, refl, arith,
  if◌then◌else◌, ◌==◌,
}
use highwire.Common.Int.{pos, negsuc}
use highwire.Numbering.{
  Bullet, decimal_, l_alpha, u_alpha, l_roman, u_roman, Marker, list_marker, long2decimal,
}

-- the styles that write a number
pub data Style : Type 0 where
  digits letters capitals small_roman capital_roman : Style

abbrev pub bullet_of : Style → Bullet
bullet_of digits = decimal_
bullet_of letters = l_alpha
bullet_of capitals = u_alpha
bullet_of small_roman = l_roman
bullet_of capital_roman = u_roman

abbrev pub is_roman : Style → Bool
is_roman small_roman = true
is_roman capital_roman = true
is_roman style = false

-- what is shown for minus a number, if the number itself has this marker
abbrev pub negative_of : Style → ℕ → Marker → Marker
negative_of style n marker =
    if is_roman style
    then record {
      counter = some (if n == 1 then pos 0 else negsuc (n - 2));
      glyph = none;
      text = (b'0' - n % 10) ∷ b'.' ∷ [];
    }
    else record {
      counter = some (if n == 1 then pos 0 else negsuc (n - 2));
      glyph = some 0x2212;
      text = marker.text;
    }

-- A number below zero, down to -32767, is counted up to the next one. Decimal and alphabetic styles show
-- it as a minus sign and the text of its magnitude, but the Roman styles as one byte, '0' less the last
-- digit, and a dot.
pub list_marker_negative :
    (style : Style) (n : ℕ)
    → n < 32767
    → list_marker (bullet_of style) (negsuc n)
      ≡ negative_of style (suc n) (list_marker (bullet_of style) (pos (suc n)))
unfolding list_marker long2decimal
list_marker_negative digits zero l = refl
list_marker_negative digits (suc n) l = ground arith
list_marker_negative letters zero l = refl
list_marker_negative letters (suc n) l = ground arith
list_marker_negative capitals zero l = refl
list_marker_negative capitals (suc n) l = ground arith
list_marker_negative small_roman zero l = refl
list_marker_negative small_roman (suc n) l = ground arith
list_marker_negative capital_roman zero l = refl
list_marker_negative capital_roman (suc n) l = ground arith
