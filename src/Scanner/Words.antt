-- ===== src/Scanner/Words.antt =====
-- What the scanners make of a word, whatever follows it.
use highwire.Common.{
  ℕ, ◌+◌, ◌<◌, ◌≤◌, Bool, true, false, none, some, [], ◌∷◌, ◌++◌, ◌≡◌, refl, arith, length, all,
  leb, if◌then◌else◌, map, Bool-cases, inl, inr,
}
use highwire.Common.Bytes.{Bytes, within, is_alpha, to_upper, skip}
use highwire.Scanner.{tag_word, symbol, scan_tag, is_key_byte, key_char, key_word, scan_key}
use highwire.Scanner.Tags.{tag_table}
use highwire.Scanner.Keys.{key_table}
use highwire.Scanner.Lookup.{lookup_symbol, tag-eq-lookup, key-eq-lookup}

-- the end of the text, or a character that is no part of a tag's name
abbrev pub IsTagEnd : Bytes → Type 0
IsTagEnd [] = Unit
IsTagEnd (c ∷ rest) = (is_alpha c ≡ false) × (within b'1' b'6' c ≡ false)

tag_word-letters :
    (len : ℕ) (word rest : Bytes)
    → all is_alpha word ≡ true
    → len + length word < 12
    → IsTagEnd rest
    → tag_word len (word ++ rest) ≡ (some (map to_upper word), rest)
unfolding tag_word
tag_word-letters len [] [] a l e = refl
tag_word-letters len [] (c ∷ rest) a l e = ground (arith, e.0, e.1)
tag_word-letters len (c ∷ word) rest a l e =
    ground (arith, tag_word-letters (len + 1) word rest (ground arith) (omega arith) e)

tag_word-heading :
    (len : ℕ) (word : Bytes) (d : ℕ) (rest : Bytes)
    → all is_alpha word ≡ true
    → len + length word < 12
    → within b'1' b'6' d ≡ true
    → tag_word len (word ++ d ∷ rest) ≡ (some (map to_upper word ++ d ∷ []), rest)
unfolding tag_word
tag_word-heading len [] d rest a l e = ground arith
tag_word-heading len (c ∷ word) d rest a l e =
    ground (arith, tag_word-heading (len + 1) word d rest (ground arith) (omega arith) e)

-- A name of one to eleven letters, with what ends it: `scan_tag` stops behind the name, and its symbol
-- is the one that a walk over the table finds for the name in capital letters.
pub scan_tag-letters :
    (c : ℕ) (word rest : Bytes)
    → all is_alpha (c ∷ word) ≡ true
    → length (c ∷ word) < 12
    → IsTagEnd rest
    → scan_tag ((c ∷ word) ++ rest) ≡ (lookup_symbol tag_table 0 (map to_upper (c ∷ word)), rest)
unfolding scan_tag
scan_tag-letters c word rest a l e = ground (
  arith,
  tag_word-letters 0 (c ∷ word) rest a (omega arith) e,
  tag-eq-lookup (to_upper c) (map to_upper word),
)

-- The same with a digit from 1 to 6 behind the letters, whatever follows.
pub scan_tag-heading :
    (c : ℕ) (word : Bytes) (d : ℕ) (rest : Bytes)
    → all is_alpha (c ∷ word) ≡ true
    → length (c ∷ word) < 12
    → within b'1' b'6' d ≡ true
    → scan_tag ((c ∷ word) ++ d ∷ rest)
      ≡ (lookup_symbol tag_table 0 (map to_upper (c ∷ word) ++ d ∷ []), rest)
unfolding scan_tag
scan_tag-heading c word d rest a l e = ground (
  arith,
  tag_word-heading 0 (c ∷ word) d rest a (omega arith) e,
  tag-eq-lookup (to_upper c) (map to_upper word ++ d ∷ []),
)

-- the end of the text, or a character that is no part of a key
abbrev pub IsKeyEnd : Bytes → Type 0
IsKeyEnd [] = Unit
IsKeyEnd (c ∷ rest) = is_key_byte c ≡ false

key_word-bytes :
    (len : ℕ) (word rest : Bytes)
    → all is_key_byte word ≡ true
    → len + length word ≤ 12
    → IsKeyEnd rest
    → key_word len (word ++ rest) ≡ (some (map key_char word), rest)
unfolding key_word
key_word-bytes len [] [] a l e = refl
key_word-bytes len [] (c ∷ rest) a l e = ground (arith, e)
key_word-bytes len (c ∷ word) rest a l e =
    ground (arith, key_word-bytes (len + 1) word rest (ground arith) (omega arith) e)

skip-bytes :
    (word rest : Bytes)
    → all is_key_byte word ≡ true
    → IsKeyEnd rest
    → skip is_key_byte (word ++ rest) ≡ rest
skip-bytes [] [] a e = refl
skip-bytes [] (c ∷ rest) a e = ground (arith, e)
skip-bytes (c ∷ word) rest a e = ground (arith, skip-bytes word rest (ground arith) e)

key_word-long :
    (len : ℕ) (word rest : Bytes)
    → all is_key_byte word ≡ true
    → len ≤ 12
    → 12 < len + length word
    → IsKeyEnd rest
    → key_word len (word ++ rest) ≡ (none, rest)
unfolding key_word
key_word-long len [] rest a l m e = absurd (omega arith)
key_word-long len (c ∷ word) rest a l m e = ground (
  arith,
  skip-bytes word rest (ground arith) e,
  key_word-long (len + 1) word rest (ground arith),
  e,
)

-- the key of a word of letters and dashes: `none` of the table if it has more than 12
abbrev pub key_of : ℕ → Bytes → ℕ
key_of c word =
    if leb (length (c ∷ word)) 12 then lookup_symbol key_table 0 (map key_char (c ∷ word)) else 0

-- A word of letters and dashes, with what ends it: `scan_key` stops behind the word in every case. If
-- it is told to look, the key is the one that a walk over the table finds for the word in capital
-- letters with `_` for a dash, and unknown for a word of more than 12.
pub scan_key-bytes :
    (c : ℕ) (word rest : Bytes) (lookup : Bool)
    → all is_key_byte (c ∷ word) ≡ true
    → IsKeyEnd rest
    → scan_key ((c ∷ word) ++ rest) lookup ≡ (if lookup then key_of c word else 0, rest)
unfolding scan_key
scan_key-bytes c word rest false a e = ground (arith, skip-bytes (c ∷ word) rest a e)
scan_key-bytes c word rest true a e = elim (Bool-cases (leb (length (c ∷ word)) 12)) [
  | inl short ↦ ground (
    arith,
    key_word-bytes 0 (c ∷ word) rest a (ground arith) e,
    key-eq-lookup 0 (key_char c) (map key_char word),
  )
  | inr long ↦
      rw (key_word-long 0 (c ∷ word) rest a (omega arith) (ground arith) e, long)
        (unfold symbol in refl)
]
