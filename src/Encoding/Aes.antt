-- ===== src/Encoding/Aes.antt =====
-- src/encoding.c: the encoders for the strings of the AES, of 8 bits.
use highwire.Common.{ℕ, ◌%◌, ◌||◌, List, [], ◌∷◌, drop, ltb, leb, if◌then◌else◌, ◌==◌, map}
use highwire.Common.Bytes.{head_byte}
use highwire.Encoding.Reader.{Encoder, by_byte, by_word, is_ascii}
use highwire.Encoding.Unicode.{macintosh_code}
use highwire.Encoding.Atari.{uni_2_atari, ascii_only, latin_2}
use highwire.Encoding.Utf8.{utf8_to_unicode}

-- `(char)c`
abbrev pub char : ℕ → ℕ
char c = c % 256

unfoldable pub unicode_to_8bit : ℕ → List ℕ
unicode_to_8bit uni = if ltb uni 0x80 then char uni ∷ [] else map char (uni_2_atari uni)

unfoldable pub high_or_ascii_8bit : ℕ → List ℕ
high_or_ascii_8bit ch = if leb 128 ch then unicode_to_8bit ch else ascii_only ch

unfoldable pub windows1252_to_8bit : Encoder
windows1252_to_8bit = by_byte high_or_ascii_8bit

unfoldable pub iso8859_2_to_8bit : Encoder
iso8859_2_to_8bit = by_byte λ ch. unicode_to_8bit (latin_2 ch)

-- ISO 8859-15 as Unicode, by the tests of `iso8859_15_to_8bit`
unfoldable pub latin_9_8bit : ℕ → ℕ
latin_9_8bit ch =
    if ch == 0xA4
    then 0x20AC
    else if ch == 0xA6
    then 0x0160
    else if ch == 0xA8
    then 0x0161
    else if ch == 0xB4
    then 0x017D
    else if ch == 0xB8
    then 0x017E
    else if ch == 0xBC
    then 0x0152
    else if ch == 0xBD
    then 0x0153
    else if ch == 0xBE
    then 0x0178
    else ch

unfoldable pub iso8859_15_to_8bit : Encoder
iso8859_15_to_8bit = by_byte λ byte.
    let ch = latin_9_8bit byte in if is_ascii ch || leb 160 ch then unicode_to_8bit ch else []

unfoldable pub utf8_to_8bit : Encoder
utf8_to_8bit src =
    if leb 0x80 (head_byte src)
    then ((utf8_to_unicode src).0, unicode_to_8bit (utf8_to_unicode src).1)
    else (drop 1 src, ascii_only (head_byte src))

unfoldable pub utf16_to_8bit : Encoder
utf16_to_8bit = by_word high_or_ascii_8bit

unfoldable pub macintosh_to_8bit : Encoder
macintosh_to_8bit = by_byte λ ch. unicode_to_8bit (macintosh_code ch)

unfoldable pub atari_to_8bit : Encoder
atari_to_8bit = by_byte λ ch. if leb 32 ch then ch ∷ [] else []
