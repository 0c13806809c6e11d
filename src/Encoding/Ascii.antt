-- ===== src/Encoding/Ascii.antt =====
-- The printable ASCII characters and the control characters.
use highwire.Common.{
  ℕ, ◌-◌, ◌≤◌, ◌<◌, Bool, true, false, List, [], ◌∷◌, ◌≡◌, ◌≢◌, refl, arith, if◌then◌else◌,
}
use highwire.Common.Bytes.{Bytes}
use highwire.Encoding.Unicode.{
  windows1252_to_utf16, iso8859_2_to_utf16, iso8859_15_to_utf16, latin_9_utf16, utf8_to_utf16,
  macintosh_to_utf16, atari_to_utf16, macintosh_code,
}
use highwire.Encoding.Bics.{
  windows1252_to_bics, iso8859_2_to_bics, iso8859_15_to_bics, latin_9_bics, utf8_to_bics,
  macintosh_to_bics, atari_to_bics, unicode_to_bics, byte_to_bics,
}
use highwire.Encoding.Atari.{
  windows1252_to_atari, iso8859_2_to_atari, iso8859_15_to_atari, latin_9_atari, utf8_to_atari,
  macintosh_to_atari, atari_to_atari, high_or_ascii, latin_2,
}
use highwire.Encoding.Aes.{
  windows1252_to_8bit, iso8859_2_to_8bit, iso8859_15_to_8bit, latin_9_8bit, utf8_to_8bit,
  macintosh_to_8bit, atari_to_8bit, unicode_to_8bit, high_or_ascii_8bit,
}
use highwire.Encoding.Select.{
  Encoding, windows1252, iso8859_2, iso8859_15, utf8, utf16, macintosh, atari_st, bics_encoder,
  unicode_encoder, atari_encoder, encoder_word, encoder_char,
}

-- The encoder writes the text for the byte.
abbrev pub Writes : (Bytes → Bytes × List ℕ) → ℕ → List ℕ → Type 0
Writes encoder c text = (s : Bytes) → encoder (c ∷ s) ≡ (s, text)

unicode_encoder-ascii :
    (encoding : Encoding) (c : ℕ)
    → encoding ≢ utf16
    → 33 ≤ c
    → c ≤ 126
    → Writes (unicode_encoder encoding) c (c ∷ [])
unfolding unicode_encoder windows1252_to_utf16 iso8859_2_to_utf16 iso8859_15_to_utf16 latin_9_utf16
    utf8_to_utf16 macintosh_to_utf16 atari_to_utf16 macintosh_code
unicode_encoder-ascii utf16 c n b l s = absurd (n refl)
unicode_encoder-ascii windows1252 c n b l s = ground arith
unicode_encoder-ascii iso8859_2 c n b l s = ground arith
unicode_encoder-ascii iso8859_15 c n b l s = ground arith
unicode_encoder-ascii utf8 c n b l s = ground arith
unicode_encoder-ascii macintosh c n b l s = ground arith
unicode_encoder-ascii atari_st c n b l s = ground arith
unicode_encoder-ascii _ c n b l s = ground arith

byte_to_bics_ascii : (c : ℕ) → 33 ≤ c → c ≤ 126 → byte_to_bics c ≡ (c - 32) ∷ []
unfolding byte_to_bics
byte_to_bics_ascii c b l = ground arith

macintosh_code_ascii : (c : ℕ) → c ≤ 126 → macintosh_code c ≡ c
unfolding macintosh_code
macintosh_code_ascii c l = ground arith

latin_2_ascii : (c : ℕ) → c ≤ 126 → latin_2 c ≡ c
unfolding latin_2
latin_2_ascii c l = ground arith

high_or_ascii_ascii : (c : ℕ) → 33 ≤ c → c ≤ 126 → high_or_ascii c ≡ c ∷ []
unfolding high_or_ascii
high_or_ascii_ascii c b l = ground arith

unicode_to_bics_ascii : (c : ℕ) → 33 ≤ c → c ≤ 126 → unicode_to_bics c ≡ (c - 32) ∷ []
unfolding unicode_to_bics
unicode_to_bics_ascii c b l = ground (arith, byte_to_bics_ascii c b l)

bics_encoder-ascii :
    (encoding : Encoding) (c : ℕ)
    → encoding ≢ utf16
    → 33 ≤ c
    → c ≤ 126
    → Writes (bics_encoder encoding) c ((c - 32) ∷ [])
unfolding bics_encoder windows1252_to_bics iso8859_2_to_bics iso8859_15_to_bics latin_9_bics
    utf8_to_bics macintosh_to_bics atari_to_bics
bics_encoder-ascii utf16 c n b l s = absurd (n refl)
bics_encoder-ascii windows1252 c n b l s = ground (arith, byte_to_bics_ascii c b l)
bics_encoder-ascii iso8859_2 c n b l s = ground arith
bics_encoder-ascii iso8859_15 c n b l s = ground (arith, unicode_to_bics_ascii c b l)
bics_encoder-ascii utf8 c n b l s = ground arith
bics_encoder-ascii macintosh c n b l s = rw (macintosh_code_ascii c l, unicode_to_bics_ascii c b l)
bics_encoder-ascii atari_st c n b l s = ground arith
bics_encoder-ascii _ c n b l s = ground (arith, byte_to_bics_ascii c b l)

atari_encoder-ascii :
    (encoding : Encoding) (c : ℕ)
    → encoding ≢ utf16
    → 33 ≤ c
    → c ≤ 126
    → Writes (atari_encoder encoding) c (c ∷ [])
unfolding atari_encoder windows1252_to_atari iso8859_2_to_atari iso8859_15_to_atari latin_9_atari
    utf8_to_atari macintosh_to_atari atari_to_atari
atari_encoder-ascii utf16 c n b l s = absurd (n refl)
atari_encoder-ascii windows1252 c n b l s = rw (high_or_ascii_ascii c b l)
atari_encoder-ascii iso8859_2 c n b l s = rw (latin_2_ascii c l, high_or_ascii_ascii c b l)
atari_encoder-ascii iso8859_15 c n b l s = ground arith
atari_encoder-ascii utf8 c n b l s = ground arith
atari_encoder-ascii macintosh c n b l s = rw (macintosh_code_ascii c l, high_or_ascii_ascii c b l)
atari_encoder-ascii atari_st c n b l s = ground arith
atari_encoder-ascii _ c n b l s = rw (high_or_ascii_ascii c b l)

-- In every encoding but UTF-16 a visible ASCII character is one byte, and is written as itself for
-- Unicode fonts and for the fonts of the system, and as its place behind the space for BICS fonts.
pub encoder_word-ascii :
    (encoding : Encoding) (c : ℕ)
    → encoding ≢ utf16
    → 33 ≤ c
    → c ≤ 126
    → Writes (encoder_word encoding 2) c (c ∷ [])
      × Writes (encoder_word encoding 1) c (c ∷ [])
      × Writes (encoder_word encoding 0) c ((c - 32) ∷ [])
unfolding encoder_word
encoder_word-ascii encoding c n b l = (
  unicode_encoder-ascii encoding c n b l,
  atari_encoder-ascii encoding c n b l,
  bics_encoder-ascii encoding c n b l,
)

unicode_to_8bit_low : (c : ℕ) → c < 32 → unicode_to_8bit c ≡ c ∷ []
unfolding unicode_to_8bit
unicode_to_8bit_low c l = ground arith

high_or_ascii_8bit_low : (c : ℕ) → c < 32 → high_or_ascii_8bit c ≡ []
unfolding high_or_ascii_8bit
high_or_ascii_8bit_low c l = ground arith

-- whether the encoding's encoder for the AES hands control characters on
abbrev pub keeps_control : Encoding → Bool
keeps_control iso8859_2 = true
keeps_control macintosh = true
keeps_control encoding = false

-- The encoders for the AES drop a control character, but those of ISO 8859-2 and of the Macintosh
-- encoding hand it on.
pub encoder_char_control :
    (encoding : Encoding) (c : ℕ)
    → encoding ≢ utf16
    → c < 32
    → Writes (encoder_char encoding) c (if keeps_control encoding then c ∷ [] else [])
unfolding encoder_char windows1252_to_8bit iso8859_2_to_8bit iso8859_15_to_8bit latin_9_8bit
    utf8_to_8bit macintosh_to_8bit atari_to_8bit
encoder_char_control utf16 c n l s = absurd (n refl)
encoder_char_control iso8859_2 c n l s = rw (latin_2_ascii c (omega arith), unicode_to_8bit_low c l)
encoder_char_control macintosh c n l s =
    rw (macintosh_code_ascii c (omega arith), unicode_to_8bit_low c l)
encoder_char_control iso8859_15 c n l s = ground arith
encoder_char_control utf8 c n l s = ground arith
encoder_char_control atari_st c n l s = ground arith
encoder_char_control _ c n l s = rw (high_or_ascii_8bit_low c l)
