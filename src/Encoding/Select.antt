-- ===== src/Encoding/Select.antt =====
-- src/encoding.c: the choice of the encoder.
use highwire.Common.{ℕ, ◌/◌, ◌%◌, List, [], ◌∷◌, ltb, ◌==◌, if◌then◌else◌, map}
use highwire.Encoding.Reader.{Encoder}
use highwire.Encoding.Unicode.{
  windows1252_to_utf16, iso8859_2_to_utf16, iso8859_15_to_utf16, utf8_to_utf16, utf16_to_utf16,
  macintosh_to_utf16, atari_to_utf16,
}
use highwire.Encoding.Bics.{
  windows1252_to_bics, iso8859_2_to_bics, iso8859_15_to_bics, utf8_to_bics, utf16_to_bics,
  macintosh_to_bics, atari_to_bics, unicode_to_bics,
}
use highwire.Encoding.Atari.{
  windows1252_to_atari, iso8859_2_to_atari, iso8859_15_to_atari, utf8_to_atari, utf16_to_atari,
  macintosh_to_atari, atari_to_atari, uni_2_atari,
}
use highwire.Encoding.Aes.{
  char, windows1252_to_8bit, iso8859_2_to_8bit, iso8859_15_to_8bit, utf8_to_8bit, utf16_to_8bit,
  macintosh_to_8bit, atari_to_8bit,
}

-- `ENCODING`
pub data Encoding : Type 0 where
  unknown_encoding windows1252 iso8859_2 iso8859_15 utf8 utf16 utf16_le macintosh atari_st
        atari_nvdi :
      Encoding

abbrev pub map_bitstream : ℕ
map_bitstream = 0

abbrev pub map_atari : ℕ
map_atari = 1

abbrev pub map_unicode : ℕ
map_unicode = 2

unfoldable pub bics_encoder : Encoding → Encoder
bics_encoder windows1252 = windows1252_to_bics
bics_encoder iso8859_2 = iso8859_2_to_bics
bics_encoder iso8859_15 = iso8859_15_to_bics
bics_encoder utf8 = utf8_to_bics
bics_encoder utf16 = utf16_to_bics
bics_encoder macintosh = macintosh_to_bics
bics_encoder atari_st = atari_to_bics
bics_encoder encoding = windows1252_to_bics

unfoldable pub unicode_encoder : Encoding → Encoder
unicode_encoder windows1252 = windows1252_to_utf16
unicode_encoder iso8859_2 = iso8859_2_to_utf16
unicode_encoder iso8859_15 = iso8859_15_to_utf16
unicode_encoder utf8 = utf8_to_utf16
unicode_encoder utf16 = utf16_to_utf16
unicode_encoder macintosh = macintosh_to_utf16
unicode_encoder atari_st = atari_to_utf16
unicode_encoder encoding = windows1252_to_utf16

unfoldable pub atari_encoder : Encoding → Encoder
atari_encoder windows1252 = windows1252_to_atari
atari_encoder iso8859_2 = iso8859_2_to_atari
atari_encoder iso8859_15 = iso8859_15_to_atari
atari_encoder utf8 = utf8_to_atari
atari_encoder utf16 = utf16_to_atari
atari_encoder macintosh = macintosh_to_atari
atari_encoder atari_st = atari_to_atari
atari_encoder encoding = windows1252_to_atari

-- An invalid encoding is read as Windows-1252, an invalid mapping gives BICS; the messages to the
-- log are not modelled.
unfoldable pub encoder_word : Encoding → ℕ → Encoder
encoder_word encoding mapping =
    if mapping == map_bitstream
    then bics_encoder encoding
    else if mapping == map_unicode
    then unicode_encoder encoding
    else if mapping == map_atari
    then atari_encoder encoding
    else windows1252_to_bics

unfoldable pub unicode_to_wchar : ℕ → ℕ → List ℕ
unicode_to_wchar uni mapping =
    if mapping == map_bitstream
    then unicode_to_bics uni
    else if mapping == map_unicode
    then (utf16_to_utf16 (uni / 256 ∷ uni % 256 ∷ [])).1
    else if ltb uni 0x80
    then char uni ∷ []
    else map char (uni_2_atari uni)

unfoldable pub encoder_char : Encoding → Encoder
encoder_char windows1252 = windows1252_to_8bit
encoder_char iso8859_2 = iso8859_2_to_8bit
encoder_char iso8859_15 = iso8859_15_to_8bit
encoder_char utf8 = utf8_to_8bit
encoder_char utf16 = utf16_to_8bit
encoder_char macintosh = macintosh_to_8bit
encoder_char atari_st = atari_to_8bit
encoder_char encoding = windows1252_to_8bit
