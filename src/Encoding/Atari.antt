-- ===== src/Encoding/Atari.antt =====
-- src/encoding.c: the encoders for the fonts of the system.
use highwire.Common.{ℕ, List, [], ◌∷◌, drop, leb, if◌then◌else◌, ◌==◌}
use highwire.Common.Bytes.{head_byte}
use highwire.Encoding.Latin.{iso8859_2_to_unicode_tab}
use highwire.Encoding.Reader.{Encoder, by_byte, by_word, entry, is_ascii, is_ignored}
use highwire.Encoding.Row.{bin_search}
use highwire.Encoding.Tables.{unicode_to_atari_tab}
use highwire.Encoding.Unicode.{macintosh_code}
use highwire.Encoding.Utf8.{utf8_to_unicode, replace_invalid}

-- `uni_2_atari (uni)`
unfoldable pub uni_2_atari : ℕ → List ℕ
uni_2_atari uni = bin_search uni unicode_to_atari_tab

-- `if (ch >= 32 && ch < 127) *(dst++) = ch;`
abbrev pub ascii_only : ℕ → List ℕ
ascii_only ch = if is_ascii ch then ch ∷ [] else []

unfoldable pub high_or_ascii : ℕ → List ℕ
high_or_ascii ch = if leb 128 ch then uni_2_atari ch else ascii_only ch

unfoldable pub windows1252_to_atari : Encoder
windows1252_to_atari = by_byte high_or_ascii

-- `ch >= BEG_ISO8859_2_to_Unicode`
unfoldable pub latin_2 : ℕ → ℕ
latin_2 ch = if leb 0xA0 ch then entry iso8859_2_to_unicode_tab 0xA0 ch else ch

unfoldable pub iso8859_2_to_atari : Encoder
iso8859_2_to_atari = by_byte λ ch. high_or_ascii (latin_2 ch)

-- ISO 8859-15 as Unicode, by the tests of `iso8859_15_to_atari`
unfoldable pub latin_9_atari : ℕ → ℕ
latin_9_atari ch =
    if ch == 0xA4
    then 0x20AC
    else if ch == 0xA6
    then 0x0160
    else if ch == 0xA8
    then 0x0161
    else if ch == 0xB4
    then 0x017D
    else if ch == 0xB8
    then 0x017E
    else if ch == 0xBC
    then 0x0152
    else if ch == 0xBD
    then 0x0153
    else if ch == 0xBE
    then 0x0178
    else ch

unfoldable pub iso8859_15_to_atari : Encoder
iso8859_15_to_atari =
    by_byte λ ch.
      if is_ascii ch then ch ∷ [] else if leb 160 ch then uni_2_atari (latin_9_atari ch) else []

unfoldable pub utf8_to_atari : Encoder
utf8_to_atari src =
    if leb 0x80 (head_byte src)
    then ((utf8_to_unicode src).0, uni_2_atari (utf8_to_unicode src).1)
    else (drop 1 src, ascii_only (head_byte src))

unfoldable pub utf16_to_atari : Encoder
utf16_to_atari =
    by_word λ word. if is_ignored word then [] else high_or_ascii (replace_invalid word)

unfoldable pub macintosh_to_atari : Encoder
macintosh_to_atari = by_byte λ ch. high_or_ascii (macintosh_code ch)

unfoldable pub atari_to_atari : Encoder
atari_to_atari = by_byte λ ch. if leb 32 ch then ch ∷ [] else []
