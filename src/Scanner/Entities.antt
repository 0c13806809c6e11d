-- ===== src/Scanner/Entities.antt =====
-- src/scanner.c, `scan_namedchar`: references to characters, by name or by number.
mod Part1
mod Part2
pub mod Names
use mathlib.Core.List.{foldl}
use highwire.Common.{
  ℕ, zero, suc, ◌+◌, ◌-◌, ◌*◌, ◌%◌, ◌^◌, Bool, true, false, not, ◌&&◌, ◌||◌, Option, none, some,
  List, [], ◌∷◌, ◌++◌, drop, get_or, ltb, leb, ◌==◌, if◌then◌else◌, span,
}
use highwire.Common.Bytes.{
  Bytes, codes, head_byte, within, is_digit, is_upper, is_lower, is_alnum, is_space, skip,
}
use highwire.Common.Int.{ℤ, pos, negsuc}
use highwire.Common.Search.Order.{word_order}
use highwire.Common.Search.Table.{search_table}
use highwire.Encoding.Select.{windows1252, encoder_word, unicode_to_wchar}
use highwire.Encoding.Aes.{unicode_to_8bit}
use Part1.{named_1}
use Part2.{named_2}

unfoldable pub named_char : List (Bytes × ℕ)
unfolding named_1 named_2
named_char = named_1 ++ named_2

-- the value of a digit, 99 for what is none
abbrev pub digit_of : ℕ → ℕ
digit_of c =
    if is_digit c
    then c - b'0'
    else if is_upper c
    then c - 55
    else if is_lower c
    then c - 87
    else 99

abbrev pub is_digit_of : ℕ → ℕ → Bool
is_digit_of radix c = ltb (digit_of c) radix

abbrev pub number : ℕ → Bytes → ℕ
number radix = foldl (λ v c. v * radix + digit_of c) 0

-- "0x" before a digit, which `strtol` passes for 16
abbrev pub behind_prefix : ℕ → Bytes → Bytes
behind_prefix radix (a ∷ b ∷ c ∷ s) =
    if radix == 16 && a == b'0' && (b == b'x' || b == b'X') && is_digit_of 16 c
    then c ∷ s
    else a ∷ b ∷ c ∷ s
behind_prefix radix s = s

-- the sign, and what is behind it
abbrev pub signed : Bytes → Bool × Bytes
signed [] = (false, [])
signed (c ∷ s) = if c == b'-' then (true, s) else if c == b'+' then (false, s) else (false, c ∷ s)

-- `strtol` of a positive number, 0 for a negative one, which is all that is asked for; a number that
-- is too large gives LONG_MAX.
unfoldable pub strtol : ℕ → Bytes → ℕ × Bytes
unfolding span
strtol radix s =
    let (negative, t) = signed (skip is_space s) in
    let (digits, next) = span (is_digit_of radix) (behind_prefix radix t) in
    elim digits [
      | [] ↦ (0, s)
      | d ∷ more ↦ (
        if negative
            then 0
            else if ltb (number radix (d ∷ more)) (2 ^ 31)
            then number radix (d ∷ more)
            else 2 ^ 31 - 1,
        next,
      )
    ]

-- "the code page 1252 numeric encoding": the encoder writes over `uni`.
abbrev pub recoded : ℕ → ℕ → ℕ
recoded mapping uni =
    if mapping == 2 && within 0x80 0x9F uni
    then get_or (encoder_word windows1252 2 (uni % 256 ∷ [])).1 0 uni
    else uni

-- `uni` and `str` behind `&#`; 0 if there is no valid number
unfoldable pub numbered_char : ℕ → Bytes → ℕ × Bytes
numbered_char mapping str =
    let radix = if head_byte str == b'x' then 16 else 10 in
    let digits = if head_byte str == b'x' then drop 1 str else str in
    let (val, next) = strtol radix digits in
    if leb 32 val && leb val 0xFFFD then (recoded mapping val, next) else (0, digits)

-- `uni` and `str` behind `&` for a name; 0 if it is unknown
unfoldable pub name_char : Bytes → ℕ × Bytes
name_char str =
    let (word, rest) = span is_alnum str in
    elim (search_table word_order ([], 0) word named_char) [
      | none ↦ (0, str)
      | some uni ↦ (uni, rest)
    ]

abbrev pub referred : ℕ → Bytes → ℕ × Bytes
referred mapping str =
    if head_byte str == b'#' then numbered_char mapping (drop 1 str) else name_char str

abbrev pub replace_first : ℕ → List ℕ → List ℕ
replace_first c [] = []
replace_first c (d ∷ text) = c ∷ text

-- A text that starts with the replacement `sign` of its font starts with `instead` then, and counts as
-- not found. `stale` is what `*dst` holds if nothing is written.
abbrev pub checked : ℕ → ℕ → ℕ → List ℕ → Bool × List ℕ
checked stale sign instead text =
    if get_or text 0 stale == sign then (false, replace_first instead text) else (true, text)

-- whether a character was found, and what is written
unfoldable pub written : ℕ → Bool → ℕ → ℕ → Bool × List ℕ
written stale word_n_char mapping uni = elim word_n_char [
  | true ↦
      if uni == 0
      then (false, unicode_to_wchar 0x26 mapping)
      else if mapping == 0
      then checked stale 563 6 (unicode_to_wchar uni mapping)
      else checked stale 6 b'&' (unicode_to_wchar uni mapping)
  | false ↦ if uni == 0 then (false, b'&' ∷ []) else checked stale 6 b'&' (unicode_to_8bit uni)
]

-- `*pptr` stands at the `&`: what is left there, and what is written.
unfoldable pub scan_namedchar : ℕ → Bool → ℕ → Bytes → Bytes × List ℕ
scan_namedchar stale word_n_char mapping pptr =
    let (uni, str) = referred mapping (drop 1 pptr) in
    let (found, text) = written stale word_n_char mapping uni in
    (if found then (if head_byte str == b';' then drop 1 str else str) else drop 1 pptr, text)
