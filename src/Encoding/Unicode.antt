-- ===== src/Encoding/Unicode.antt =====
-- src/encoding.c: the encoders for fonts with Unicode encoding.
use highwire.Common.{ℕ, not, ◌&&◌, List, [], ◌∷◌, drop, leb, ◌==◌, if◌then◌else◌}
use highwire.Common.Bytes.{head_byte, within}
use highwire.Encoding.Latin.{
  windows1252_to_unicode_tab, iso8859_2_to_unicode_tab, macintosh_to_unicode_tab,
  atari_to_unicode_tab,
}
use highwire.Encoding.Reader.{Encoder, by_byte, by_word, entry, is_ascii, is_ignored}
use highwire.Encoding.Utf8.{utf8_to_unicode, replace_invalid}

-- `if (ch >= 32 && ch != 127) *(dst++) = ch;`
abbrev pub printed : ℕ → List ℕ
printed ch = if leb 32 ch && not (ch == 127) then ch ∷ [] else []

unfoldable pub windows1252_to_utf16 : Encoder
windows1252_to_utf16 =
    by_byte λ ch.
      if within 0x80 0x9F ch then entry windows1252_to_unicode_tab 0x80 ch ∷ [] else printed ch

unfoldable pub iso8859_2_to_utf16 : Encoder
iso8859_2_to_utf16 = by_byte λ ch.
    if leb 0xA0 ch
    then entry iso8859_2_to_unicode_tab 0xA0 ch ∷ []
    else if is_ascii ch
    then ch ∷ []
    else []

-- ISO 8859-15 as Unicode, by the tests of `iso8859_15_to_utf16`
unfoldable pub latin_9_utf16 : ℕ → ℕ
latin_9_utf16 ch =
    if ch == 0xA4
    then 0x20AC
    else if ch == 0xA6
    then 0x0160
    else if ch == 0xA8
    then 0x0161
    else if ch == 0xB4
    then 0x017D
    else if ch == 0xB8
    then 0x017E
    else if ch == 0xBC
    then 0x0152
    else if ch == 0xBD
    then 0x0153
    else if ch == 0xBE
    then 0x0178
    else ch

unfoldable pub iso8859_15_to_utf16 : Encoder
iso8859_15_to_utf16 = by_byte λ byte.
    let ch = latin_9_utf16 byte in
    if is_ascii ch then ch ∷ [] else if leb 160 ch then ch ∷ [] else []

unfoldable pub utf8_to_utf16 : Encoder
utf8_to_utf16 src =
    if leb 0x80 (head_byte src)
    then ((utf8_to_unicode src).0, printed (utf8_to_unicode src).1)
    else (drop 1 src, printed (head_byte src))

unfoldable pub utf16_to_utf16 : Encoder
utf16_to_utf16 =
    by_word λ word. let ch = replace_invalid word in printed (if is_ignored ch then 0 else ch)

-- `ch >= BEG_Macintosh_to_Unicode`
unfoldable pub macintosh_code : ℕ → ℕ
macintosh_code ch = if leb 0x80 ch then entry macintosh_to_unicode_tab 0x80 ch else ch

unfoldable pub macintosh_to_utf16 : Encoder
macintosh_to_utf16 = by_byte λ ch. printed (macintosh_code ch)

unfoldable pub atari_to_utf16 : Encoder
atari_to_utf16 = by_byte λ ch.
    if leb 0x7F ch
    then entry atari_to_unicode_tab 0x7F ch ∷ []
    else if leb 32 ch
    then ch ∷ []
    else []
