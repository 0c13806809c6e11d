-- ===== src/Encoding/Bics.antt =====
-- src/encoding.c: the encoders for fonts with BICS encoding.
use highwire.Common.{ℕ, ◌-◌, ◌%◌, ◌&&◌, ◌||◌, List, [], ◌∷◌, drop, ltb, leb, ◌==◌, if◌then◌else◌}
use highwire.Common.Bytes.{head_byte}
use highwire.Encoding.Latin.{windows1252_to_bics_tab, iso8859_2_to_bics_tab, atari_to_bics_tab}
use highwire.Encoding.Reader.{Encoder, by_byte, by_word, entry, is_ascii, is_ignored}
use highwire.Encoding.Row.{bin_search}
use highwire.Encoding.Tables.{unicode_to_bics_tab}
use highwire.Encoding.Unicode.{macintosh_code}
use highwire.Encoding.Utf8.{utf8_to_unicode, replace_invalid}

-- `SPACE_BICS`
abbrev pub space_bics : ℕ
space_bics = 561

-- the codes below the tables, up to `end`
abbrev pub low_bics : ℕ → ℕ → List ℕ
low_bics end ch =
    if ch == b' ' then space_bics ∷ [] else if ltb 32 ch && ltb ch end then (ch - 32) ∷ [] else []

-- what `windows1252_to_bics` writes for a byte
unfoldable pub byte_to_bics : ℕ → List ℕ
byte_to_bics ch =
    if leb 0x80 ch then entry windows1252_to_bics_tab 0x80 ch ∷ [] else low_bics 127 ch

unfoldable pub windows1252_to_bics : Encoder
windows1252_to_bics = by_byte byte_to_bics

unfoldable pub iso8859_2_to_bics : Encoder
iso8859_2_to_bics =
    by_byte λ ch. if leb 0xA0 ch then entry iso8859_2_to_bics_tab 0xA0 ch ∷ [] else low_bics 127 ch

-- The bytes from 0x7F on are in the table.
unfoldable pub atari_to_bics : Encoder
atari_to_bics =
    by_byte λ ch. if leb 0x7F ch then entry atari_to_bics_tab 0x7F ch ∷ [] else low_bics 0x7F ch

unfoldable pub unicode_to_bics : ℕ → List ℕ
unicode_to_bics uni =
    if leb uni 0xFF then byte_to_bics (uni % 256) else bin_search uni unicode_to_bics_tab

unfoldable pub utf8_to_bics : Encoder
utf8_to_bics src =
    if leb 0x80 (head_byte src)
    then ((utf8_to_unicode src).0, unicode_to_bics (utf8_to_unicode src).1)
    else (drop 1 src, low_bics 127 (head_byte src))

unfoldable pub utf16_to_bics : Encoder
utf16_to_bics = by_word λ word.
    if is_ignored word
    then []
    else let ch = replace_invalid word in
      if is_ascii ch || leb 160 ch then unicode_to_bics ch else []

-- ISO 8859-15 as Unicode, by the tests of `iso8859_15_to_bics`
unfoldable pub latin_9_bics : ℕ → ℕ
latin_9_bics ch =
    if ch == 0xA4
    then 0x20AC
    else if ch == 0xA6
    then 0x0160
    else if ch == 0xA8
    then 0x0161
    else if ch == 0xB4
    then 0x017D
    else if ch == 0xB8
    then 0x017E
    else if ch == 0xBC
    then 0x0152
    else if ch == 0xBD
    then 0x0153
    else if ch == 0xBE
    then 0x0178
    else ch

unfoldable pub iso8859_15_to_bics : Encoder
iso8859_15_to_bics = by_byte λ byte.
    let ch = latin_9_bics byte in if is_ascii ch || leb 160 ch then unicode_to_bics ch else []

unfoldable pub macintosh_to_bics : Encoder
macintosh_to_bics = by_byte λ ch. unicode_to_bics (macintosh_code ch)
