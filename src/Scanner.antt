-- ===== src/Scanner.antt =====
-- src/scanner.c and token.h: the scanners for the names of tags, keys and CSS properties, and for the
-- names of encodings. A pointer into the text is what is left of it.
pub mod Tags
pub mod Keys
pub mod Css
pub mod Lookup
pub mod Words
pub mod Entities
pub mod Text
pub mod Names
pub mod Properties
pub mod Numeric
mod Tests
use highwire.Common.{
  ℕ, zero, suc, ◌+◌, Bool, true, false, not, ◌&&◌, ◌||◌, Option, none, some, List, [], ◌∷◌, length,
  ltb, leb, ◌==◌, if◌then◌else◌,
}
use highwire.Common.Bytes.{Bytes, codes, within, is_alpha, is_space, to_upper, skip, same_nocase}
use highwire.Common.Search.Order.{word_order}
use highwire.Common.Search.Table.{search_table}
use highwire.Encoding.Select.{
  Encoding, windows1252, iso8859_2, iso8859_15, utf8, macintosh, atari_st, atari_nvdi,
}
use Tags.{tag_table}
use Keys.{key_table}
use Css.{css_table, css_unknown}

-- a character put before the word that is read behind it; `none` is a word that is too long.
abbrev pub push : ℕ → Option Bytes × Bytes → Option Bytes × Bytes
push c (none, line) = (none, line)
push c (some word, line) = (some (c ∷ word), line)

-- The loop of `scan_tag` with `len` characters read: the word, and `line` behind it.
unfoldable pub tag_word : ℕ → Bytes → Option Bytes × Bytes
tag_word len [] = (some [], [])
tag_word len (c ∷ line) =
    let rest = tag_word (len + 1) line in
    if not (ltb b' ' c)
    then (some [], c ∷ line)
    else if not (ltb len 12)
    then (none, skip is_alpha (c ∷ line))
    else if is_alpha c
    then push (to_upper c) rest
    else if within b'1' b'6' c
    then (some (c ∷ []), line)
    else (some [], c ∷ line)

-- the binary search for a word that is not empty, and `unknown` else
unfoldable pub symbol : List (Bytes × ℕ) → ℕ → Option Bytes → ℕ
symbol tab unknown none = unknown
symbol tab unknown (some []) = unknown
symbol tab unknown (some (c ∷ word)) = elim (search_table word_order ([], 0) (c ∷ word) tab) [
  | none ↦ unknown
  | some key ↦ key
]

-- The symbol, 0 for `TAG_Unknown`, and the place behind the name.
unfoldable pub scan_tag : Bytes → ℕ × Bytes
scan_tag line = let (word, rest) = tag_word 0 line in (symbol tag_table 0 word, rest)

abbrev pub is_key_byte : ℕ → Bool
is_key_byte c = is_alpha c || c == b'-'

-- "So we convert '-' to '_'."
abbrev pub key_char : ℕ → ℕ
key_char c = if c == b'-' then b'_' else to_upper c

-- the loop of `scan_key`
unfoldable pub key_word : ℕ → Bytes → Option Bytes × Bytes
key_word len [] = (some [], [])
key_word len (c ∷ line) =
    let rest = key_word (len + 1) line in
    if not (is_key_byte c)
    then (some [], c ∷ line)
    else if ltb len 12
    then push (key_char c) rest
    else (none, skip is_key_byte line)

unfoldable pub scan_key : Bytes → Bool → ℕ × Bytes
scan_key line lookup = elim lookup [
  | true ↦ (symbol key_table 0 (key_word 0 line).0, (key_word 0 line).1)
  | false ↦ (0, skip is_key_byte line)
]

-- The first loop of `scan_css`, where `length` is what is left of the length: the word, `line` and
-- the length behind it. A word of 20 characters is too long, and its last one is not passed.
abbrev pub push_css : ℕ → Option Bytes × (Bytes × ℕ) → Option Bytes × (Bytes × ℕ)
push_css c (none, rest) = (none, rest)
push_css c (some word, rest) = (some (c ∷ word), rest)

abbrev pub is_css_byte : ℕ → ℕ → Bool
is_css_byte len c = c == b'-' && not (len == 0) || is_alpha c

unfoldable pub css_word : ℕ → ℕ → Bytes → Option Bytes × (Bytes × ℕ)
css_word zero len line = (some [], (line, 0))
css_word (suc length) len [] = (some [], ([], suc length))
css_word (suc length) len (c ∷ line) =
    let rest = css_word length (len + 1) line in
    if not (is_css_byte len c)
    then (some [], (c ∷ line, suc length))
    else if leb 20 (len + 1)
    then (none, (c ∷ line, length))
    else push_css (key_char c) rest

-- `while (length-- && p (*line)) line++;` The length does not reach behind the end of the text.
unfoldable pub skip_css : (ℕ → Bool) → ℕ → Bytes → Bytes
skip_css p zero line = line
skip_css p (suc length) [] = []
skip_css p (suc length) (c ∷ line) =
    let rest = skip_css p length line in if p c then rest else c ∷ line

-- `(css_table[i].Equiv > 0 ? css_table[i].Equiv : css_table[i].Key)`
abbrev pub css_value : ℕ × ℕ → ℕ
css_value (key, equiv) = if equiv == 0 then key else equiv

-- the two searches, in the table of the properties and in that of the keys
unfoldable pub css_symbol : Option Bytes → ℕ
css_symbol none = css_unknown
css_symbol (some []) = css_unknown
css_symbol (some (c ∷ word)) = elim (search_table word_order ([], (0, 0)) (c ∷ word) css_table) [
  | none ↦ symbol key_table css_unknown (some (c ∷ word))
  | some entry ↦ css_value entry
]

unfoldable pub scan_css : Bytes → ℕ → ℕ × Bytes
scan_css line length =
    let (word, (rest, left)) = css_word length 0 line in
    let key = css_symbol word in
    (
      key,
      if not (key == css_unknown)
          then skip_css is_space left rest
          else skip_css (λ c. not (c == b';')) left rest,
    )

-- `stricmp (text, name) == 0`
abbrev pub is_name : Bytes → Bytes → Bool
is_name text name = length text == length name && same_nocase text name (length name)

unfoldable pub scan_encoding : Bytes → Encoding → Encoding
scan_encoding text encoding =
    if is_name text (codes "ISO-8859-1") || is_name text (codes "windows-1252")
    then windows1252
    else if is_name text (codes "ISO-8859-2")
    then iso8859_2
    else if is_name text (codes "ISO-8859-15")
    then iso8859_15
    else if is_name text (codes "UTF-8")
    then utf8
    else if is_name text (codes "macintosh")
    then macintosh
    else if is_name text (codes "atarist")
    then atari_st
    else if is_name text (codes "atarinvdi")
    then atari_nvdi
    else encoding
