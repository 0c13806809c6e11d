-- ===== src/Numbering.antt =====
-- src/list.c: the text that `list_marker` puts before an item of a list, and the routines that
-- write its number. The boxes and the widths of the marker are not modelled.
pub mod Decimal
pub mod Alpha
pub mod Roman
pub mod Negative
mod Tests
use highwire.Common.{
  ℕ, zero, suc, ◌+◌, ◌-◌, ◌*◌, ◌/◌, ◌%◌, Bool, true, false, not, ◌&&◌, Option, none, some, List, [],
  ◌∷◌, ◌++◌, ltb, leb, ◌==◌, if◌then◌else◌,
}
use highwire.Common.Bytes.{Bytes, codes}
use highwire.Common.Int.{ℤ, pos, negsuc}

-- `long2decimal` for a number that is not negative. Each round divides by ten, so that fuel above
-- the number is enough (`Decimal`).
unfoldable pub decimal : ℕ → ℕ → Bytes
decimal zero l = []
decimal (suc fuel) l =
    let front = decimal fuel (l / 10) in (if leb 10 l then front else []) ++ (l % 10 + b'0') ∷ []

-- For a negative number only the last line runs: `l % 10` is negative or 0 then.
unfoldable pub long2decimal : ℤ → Bytes
unfolding decimal
long2decimal (pos l) = decimal (suc l) l
long2decimal (negsuc n) = (b'0' - suc n % 10) ∷ []

abbrev pub first_letter : Bool → ℕ
first_letter upper = if upper then b'A' else b'a'

-- `((l - 1) % 26) + (upper? 'A' : 'a')`; for 0 the remainder is -1.
abbrev pub letter : Bool → ℕ → ℕ
letter upper zero = first_letter upper - 1
letter upper (suc l) = l % 26 + first_letter upper

unfoldable pub alpha : ℕ → Bool → ℕ → Bytes
alpha zero upper l = []
alpha (suc fuel) upper l =
    let front = alpha fuel upper (l / 26) in (if ltb 26 l then front else []) ++ letter upper l ∷ []

unfoldable pub long2alpha : Bool → ℕ → Bytes
unfolding alpha
long2alpha upper l = alpha (suc l) upper l

-- `long2alpha` for any number: for a negative one only the last line runs.
abbrev pub long2alpha_any : Bool → ℤ → Bytes
unfolding long2alpha
long2alpha_any upper (pos l) = long2alpha upper l
long2alpha_any upper (negsuc n) = (first_letter upper - (n + 2) % 26) ∷ []

-- one of the three `switch`es on a decimal place, by the letters for 1, 5 and 10
abbrev pub roman_place : ℕ → ℕ → ℕ → ℕ → Bytes
roman_place one five ten d =
    if d == 1
    then one ∷ []
    else if d == 2
    then one ∷ one ∷ []
    else if d == 3
    then one ∷ one ∷ one ∷ []
    else if d == 4
    then one ∷ five ∷ []
    else if d == 5
    then five ∷ []
    else if d == 6
    then five ∷ one ∷ []
    else if d == 7
    then five ∷ one ∷ one ∷ []
    else if d == 8
    then five ∷ one ∷ one ∷ one ∷ []
    else if d == 9
    then one ∷ ten ∷ []
    else []

abbrev pub copies : ℕ → ℕ → Bytes
copies zero c = []
copies (suc n) c = c ∷ copies n c

-- the first `switch`: 5000 is written as `|))` from 6000 on
abbrev pub roman_thousands : ℕ → ℕ → Bytes
roman_thousands m d = if leb 6 d then codes "|))" ++ copies (d - 5) m else copies d m

-- `letter->M` and so on
abbrev pub roman_letter : Bool → ℕ → ℕ
roman_letter upper c = if upper then c else c + 32

unfoldable pub short2roman : Bool → ℕ → Bytes
short2roman upper count =
    let l = roman_letter upper in
    (if leb 10000 count then codes "((|))" else [])
    ++ (roman_thousands (l b'M') (count % 10000 / 1000)
        ++ (roman_place (l b'C') (l b'D') (l b'M') (count % 1000 / 100)
            ++ (roman_place (l b'X') (l b'L') (l b'C') (count % 100 / 10)
                ++ roman_place (l b'I') (l b'V') (l b'X') (count % 10))))

-- `BULLET`
pub data Bullet : Type 0 where
  none_ disc square circle decimal_ l_alpha u_alpha l_roman u_roman : Bullet

-- What `list_marker` stores in `list->Counter` if it does, the Unicode character that it writes
-- first if it does, and the text behind it.
pub record Marker : Type 0 where
  pub counter : Option ℤ
  pub glyph : Option ℕ
  pub text : Bytes

-- `counter +1` and `-counter` on a short
abbrev pub next_counter : ℤ → ℤ
next_counter (pos n) = if n == 32767 then negsuc 32767 else pos (n + 1)
next_counter (negsuc zero) = pos 0
next_counter (negsuc (suc n)) = negsuc n

abbrev pub negated : ℤ → ℤ
negated (pos zero) = pos 0
negated (pos (suc n)) = negsuc n
negated (negsuc n) = if n == 32767 then negsuc 32767 else pos (suc n)

-- `if (text > buffer) *(text++) = '.';`
abbrev pub dotted : Bytes → Bytes
dotted [] = []
dotted (c ∷ text) = (c ∷ text) ++ b'.' ∷ []

abbrev pub is_negative : ℤ → Bool
is_negative (pos n) = false
is_negative (negsuc n) = true

-- U+2212 MINUS SIGN
abbrev pub minus_sign : ℤ → Option ℕ
minus_sign counter = if is_negative counter then some 0x2212 else none

abbrev pub magnitude : ℤ → ℤ
magnitude counter = if is_negative counter then negated counter else counter

-- The Roman numerals are asked for positive numbers only.
abbrev pub natural : ℤ → ℕ
natural (pos n) = n
natural (negsuc n) = 0

abbrev pub numbered : ℤ → Option ℕ → Bytes → Marker
numbered counter glyph text = record {
  counter = some (next_counter counter);
  glyph = glyph;
  text = dotted text;
}

abbrev pub glyphed : ℕ → Marker
glyphed uni = record { counter = none; glyph = some uni; text = [] }

abbrev pub in_range : ℕ → ℤ → Bool
in_range limit (pos n) = ltb 0 n && ltb n limit
in_range limit (negsuc n) = false

-- the `switch` of `list_marker` with what follows it
unfoldable pub list_marker : Bullet → ℤ → Marker
unfolding long2decimal long2alpha_any short2roman
list_marker disc counter = glyphed 0x2022
list_marker square counter = glyphed 0x25AA
list_marker circle counter = glyphed 0x25E6
list_marker none_ counter = record { counter = none; glyph = none; text = [] }
list_marker decimal_ counter =
    numbered counter (minus_sign counter) (long2decimal (magnitude counter))
list_marker l_alpha (pos zero) = numbered (pos 0) none (long2alpha_any true (pos 0))
list_marker l_alpha counter =
    numbered counter (minus_sign counter) (long2alpha_any false (magnitude counter))
list_marker u_alpha counter =
    numbered counter (minus_sign counter) (long2alpha_any true (magnitude counter))
list_marker l_roman counter =
    numbered counter none
      (if in_range 3000 counter then short2roman false (natural counter) else long2decimal counter)
list_marker u_roman counter =
    numbered counter none
      (if in_range 20000 counter then short2roman true (natural counter) else long2decimal counter)
