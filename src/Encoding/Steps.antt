-- ===== src/Encoding/Steps.antt =====
-- Every choice of an encoder makes steps.
use highwire.Common.{ℕ, ◌+◌, ◌*◌, ◌∷◌, arith, inl, inr, Bool-cases, ◌==◌}
use highwire.Common.Bytes.{Bytes}
use highwire.Encoding.Utf8.{replace_invalid}
use highwire.Encoding.Unicode.{
  windows1252_to_utf16, iso8859_2_to_utf16, iso8859_15_to_utf16, utf8_to_utf16, utf16_to_utf16,
  macintosh_to_utf16, atari_to_utf16, printed, macintosh_code,
}
use highwire.Encoding.Bics.{
  windows1252_to_bics, iso8859_2_to_bics, iso8859_15_to_bics, latin_9_bics, utf8_to_bics,
  utf16_to_bics, macintosh_to_bics, atari_to_bics, unicode_to_bics, low_bics,
}
use highwire.Encoding.Atari.{
  windows1252_to_atari, iso8859_2_to_atari, iso8859_15_to_atari, latin_9_atari, utf8_to_atari,
  utf16_to_atari, macintosh_to_atari, atari_to_atari, uni_2_atari, ascii_only, latin_2,
}
use highwire.Encoding.Aes.{
  windows1252_to_8bit, iso8859_2_to_8bit, iso8859_15_to_8bit, latin_9_8bit, utf8_to_8bit,
  utf16_to_8bit, macintosh_to_8bit, atari_to_8bit, unicode_to_8bit,
}
use highwire.Encoding.Select.{
  Encoding, windows1252, iso8859_2, iso8859_15, utf8, utf16, macintosh, atari_st, bics_encoder,
  unicode_encoder, atari_encoder, encoder_word, encoder_char, map_bitstream, map_unicode, map_atari,
}
use highwire.Encoding.Bounds.{
  IsStep, by_byte-IsStep, by_word-IsStep, utf8-IsStep, length-byte_to_bics, length-unicode_to_bics,
  length-uni_2_atari, length-high_or_ascii, length-unicode_to_8bit, length-high_or_ascii_8bit,
}

module _ (a b : ℕ) (s : Bytes) where
  windows1252_to_utf16-IsStep : IsStep (a ∷ b ∷ s) (windows1252_to_utf16 (a ∷ b ∷ s))
  unfolding windows1252_to_utf16
  windows1252_to_utf16-IsStep = by_byte-IsStep a b s _ (ground arith)

  iso8859_2_to_utf16-IsStep : IsStep (a ∷ b ∷ s) (iso8859_2_to_utf16 (a ∷ b ∷ s))
  unfolding iso8859_2_to_utf16
  iso8859_2_to_utf16-IsStep = by_byte-IsStep a b s _ (ground arith)

  iso8859_15_to_utf16-IsStep : IsStep (a ∷ b ∷ s) (iso8859_15_to_utf16 (a ∷ b ∷ s))
  unfolding iso8859_15_to_utf16
  iso8859_15_to_utf16-IsStep = by_byte-IsStep a b s _ (ground arith)

  utf8_to_utf16-IsStep : IsStep (a ∷ b ∷ s) (utf8_to_utf16 (a ∷ b ∷ s))
  unfolding utf8_to_utf16
  utf8_to_utf16-IsStep = utf8-IsStep a b s printed printed (λ ch. ground arith) (λ ch. ground arith)

  utf16_to_utf16-IsStep : IsStep (a ∷ b ∷ s) (utf16_to_utf16 (a ∷ b ∷ s))
  unfolding utf16_to_utf16
  utf16_to_utf16-IsStep = by_word-IsStep a b s _ (ground arith)

  macintosh_to_utf16-IsStep : IsStep (a ∷ b ∷ s) (macintosh_to_utf16 (a ∷ b ∷ s))
  unfolding macintosh_to_utf16
  macintosh_to_utf16-IsStep = by_byte-IsStep a b s _ (ground arith)

  atari_to_utf16-IsStep : IsStep (a ∷ b ∷ s) (atari_to_utf16 (a ∷ b ∷ s))
  unfolding atari_to_utf16
  atari_to_utf16-IsStep = by_byte-IsStep a b s _ (ground arith)

  unicode_encoder-IsStep :
      (encoding : Encoding) → IsStep (a ∷ b ∷ s) (unicode_encoder encoding (a ∷ b ∷ s))
  unfolding unicode_encoder
  unicode_encoder-IsStep windows1252 = windows1252_to_utf16-IsStep
  unicode_encoder-IsStep iso8859_2 = iso8859_2_to_utf16-IsStep
  unicode_encoder-IsStep iso8859_15 = iso8859_15_to_utf16-IsStep
  unicode_encoder-IsStep utf8 = utf8_to_utf16-IsStep
  unicode_encoder-IsStep utf16 = utf16_to_utf16-IsStep
  unicode_encoder-IsStep macintosh = macintosh_to_utf16-IsStep
  unicode_encoder-IsStep atari_st = atari_to_utf16-IsStep
  unicode_encoder-IsStep _ = windows1252_to_utf16-IsStep

  windows1252_to_bics-IsStep : IsStep (a ∷ b ∷ s) (windows1252_to_bics (a ∷ b ∷ s))
  unfolding windows1252_to_bics
  windows1252_to_bics-IsStep = by_byte-IsStep a b s _ (length-byte_to_bics a)

  iso8859_2_to_bics-IsStep : IsStep (a ∷ b ∷ s) (iso8859_2_to_bics (a ∷ b ∷ s))
  unfolding iso8859_2_to_bics
  iso8859_2_to_bics-IsStep = by_byte-IsStep a b s _ (ground arith)

  iso8859_15_to_bics-IsStep : IsStep (a ∷ b ∷ s) (iso8859_15_to_bics (a ∷ b ∷ s))
  unfolding iso8859_15_to_bics
  iso8859_15_to_bics-IsStep =
      by_byte-IsStep a b s _ (ground (arith, length-unicode_to_bics (latin_9_bics a)))

  utf8_to_bics-IsStep : IsStep (a ∷ b ∷ s) (utf8_to_bics (a ∷ b ∷ s))
  unfolding utf8_to_bics
  utf8_to_bics-IsStep =
      utf8-IsStep a b s unicode_to_bics (low_bics 127) length-unicode_to_bics (λ ch. ground arith)

  utf16_to_bics-IsStep : IsStep (a ∷ b ∷ s) (utf16_to_bics (a ∷ b ∷ s))
  unfolding utf16_to_bics
  utf16_to_bics-IsStep =
      by_word-IsStep a b s _
        (ground (arith, length-unicode_to_bics (replace_invalid (a * 256 + b))))

  macintosh_to_bics-IsStep : IsStep (a ∷ b ∷ s) (macintosh_to_bics (a ∷ b ∷ s))
  unfolding macintosh_to_bics
  macintosh_to_bics-IsStep = by_byte-IsStep a b s _ (length-unicode_to_bics (macintosh_code a))

  atari_to_bics-IsStep : IsStep (a ∷ b ∷ s) (atari_to_bics (a ∷ b ∷ s))
  unfolding atari_to_bics
  atari_to_bics-IsStep = by_byte-IsStep a b s _ (ground arith)

  bics_encoder-IsStep :
      (encoding : Encoding) → IsStep (a ∷ b ∷ s) (bics_encoder encoding (a ∷ b ∷ s))
  unfolding bics_encoder
  bics_encoder-IsStep windows1252 = windows1252_to_bics-IsStep
  bics_encoder-IsStep iso8859_2 = iso8859_2_to_bics-IsStep
  bics_encoder-IsStep iso8859_15 = iso8859_15_to_bics-IsStep
  bics_encoder-IsStep utf8 = utf8_to_bics-IsStep
  bics_encoder-IsStep utf16 = utf16_to_bics-IsStep
  bics_encoder-IsStep macintosh = macintosh_to_bics-IsStep
  bics_encoder-IsStep atari_st = atari_to_bics-IsStep
  bics_encoder-IsStep _ = windows1252_to_bics-IsStep

  windows1252_to_atari-IsStep : IsStep (a ∷ b ∷ s) (windows1252_to_atari (a ∷ b ∷ s))
  unfolding windows1252_to_atari
  windows1252_to_atari-IsStep = by_byte-IsStep a b s _ (length-high_or_ascii a)

  iso8859_2_to_atari-IsStep : IsStep (a ∷ b ∷ s) (iso8859_2_to_atari (a ∷ b ∷ s))
  unfolding iso8859_2_to_atari
  iso8859_2_to_atari-IsStep = by_byte-IsStep a b s _ (length-high_or_ascii (latin_2 a))

  iso8859_15_to_atari-IsStep : IsStep (a ∷ b ∷ s) (iso8859_15_to_atari (a ∷ b ∷ s))
  unfolding iso8859_15_to_atari
  iso8859_15_to_atari-IsStep =
      by_byte-IsStep a b s _ (ground (arith, length-uni_2_atari (latin_9_atari a)))

  utf8_to_atari-IsStep : IsStep (a ∷ b ∷ s) (utf8_to_atari (a ∷ b ∷ s))
  unfolding utf8_to_atari
  utf8_to_atari-IsStep =
      utf8-IsStep a b s uni_2_atari ascii_only length-uni_2_atari (λ ch. ground arith)

  utf16_to_atari-IsStep : IsStep (a ∷ b ∷ s) (utf16_to_atari (a ∷ b ∷ s))
  unfolding utf16_to_atari
  utf16_to_atari-IsStep =
      by_word-IsStep a b s _ (ground (arith, length-high_or_ascii (replace_invalid (a * 256 + b))))

  macintosh_to_atari-IsStep : IsStep (a ∷ b ∷ s) (macintosh_to_atari (a ∷ b ∷ s))
  unfolding macintosh_to_atari
  macintosh_to_atari-IsStep = by_byte-IsStep a b s _ (length-high_or_ascii (macintosh_code a))

  atari_to_atari-IsStep : IsStep (a ∷ b ∷ s) (atari_to_atari (a ∷ b ∷ s))
  unfolding atari_to_atari
  atari_to_atari-IsStep = by_byte-IsStep a b s _ (ground arith)

  atari_encoder-IsStep :
      (encoding : Encoding) → IsStep (a ∷ b ∷ s) (atari_encoder encoding (a ∷ b ∷ s))
  unfolding atari_encoder
  atari_encoder-IsStep windows1252 = windows1252_to_atari-IsStep
  atari_encoder-IsStep iso8859_2 = iso8859_2_to_atari-IsStep
  atari_encoder-IsStep iso8859_15 = iso8859_15_to_atari-IsStep
  atari_encoder-IsStep utf8 = utf8_to_atari-IsStep
  atari_encoder-IsStep utf16 = utf16_to_atari-IsStep
  atari_encoder-IsStep macintosh = macintosh_to_atari-IsStep
  atari_encoder-IsStep atari_st = atari_to_atari-IsStep
  atari_encoder-IsStep _ = windows1252_to_atari-IsStep

  windows1252_to_8bit-IsStep : IsStep (a ∷ b ∷ s) (windows1252_to_8bit (a ∷ b ∷ s))
  unfolding windows1252_to_8bit
  windows1252_to_8bit-IsStep = by_byte-IsStep a b s _ (length-high_or_ascii_8bit a)

  iso8859_2_to_8bit-IsStep : IsStep (a ∷ b ∷ s) (iso8859_2_to_8bit (a ∷ b ∷ s))
  unfolding iso8859_2_to_8bit
  iso8859_2_to_8bit-IsStep = by_byte-IsStep a b s _ (length-unicode_to_8bit (latin_2 a))

  iso8859_15_to_8bit-IsStep : IsStep (a ∷ b ∷ s) (iso8859_15_to_8bit (a ∷ b ∷ s))
  unfolding iso8859_15_to_8bit
  iso8859_15_to_8bit-IsStep =
      by_byte-IsStep a b s _ (ground (arith, length-unicode_to_8bit (latin_9_8bit a)))

  utf8_to_8bit-IsStep : IsStep (a ∷ b ∷ s) (utf8_to_8bit (a ∷ b ∷ s))
  unfolding utf8_to_8bit
  utf8_to_8bit-IsStep =
      utf8-IsStep a b s unicode_to_8bit ascii_only length-unicode_to_8bit (λ ch. ground arith)

  utf16_to_8bit-IsStep : IsStep (a ∷ b ∷ s) (utf16_to_8bit (a ∷ b ∷ s))
  unfolding utf16_to_8bit
  utf16_to_8bit-IsStep = by_word-IsStep a b s _ (length-high_or_ascii_8bit (a * 256 + b))

  macintosh_to_8bit-IsStep : IsStep (a ∷ b ∷ s) (macintosh_to_8bit (a ∷ b ∷ s))
  unfolding macintosh_to_8bit
  macintosh_to_8bit-IsStep = by_byte-IsStep a b s _ (length-unicode_to_8bit (macintosh_code a))

  atari_to_8bit-IsStep : IsStep (a ∷ b ∷ s) (atari_to_8bit (a ∷ b ∷ s))
  unfolding atari_to_8bit
  atari_to_8bit-IsStep = by_byte-IsStep a b s _ (ground arith)

  -- With any encoding, an encoder of `encoder_char` reads one to six bytes of the string, none behind
  -- its end, and writes five characters at most. Two bytes stand there, so that a character of UTF-16
  -- is whole.
  pub encoder_char-IsStep :
      (encoding : Encoding) → IsStep (a ∷ b ∷ s) (encoder_char encoding (a ∷ b ∷ s))
  unfolding encoder_char
  encoder_char-IsStep windows1252 = windows1252_to_8bit-IsStep
  encoder_char-IsStep iso8859_2 = iso8859_2_to_8bit-IsStep
  encoder_char-IsStep iso8859_15 = iso8859_15_to_8bit-IsStep
  encoder_char-IsStep utf8 = utf8_to_8bit-IsStep
  encoder_char-IsStep utf16 = utf16_to_8bit-IsStep
  encoder_char-IsStep macintosh = macintosh_to_8bit-IsStep
  encoder_char-IsStep atari_st = atari_to_8bit-IsStep
  encoder_char-IsStep _ = windows1252_to_8bit-IsStep

  pub encoder_word-IsStep :
      (encoding : Encoding) (mapping : ℕ)
      → IsStep (a ∷ b ∷ s) (encoder_word encoding mapping (a ∷ b ∷ s))
  unfolding encoder_word
  encoder_word-IsStep encoding mapping = elim (Bool-cases (mapping == map_bitstream)) [
    | inl bitstream ↦ rw bitstream (bics_encoder-IsStep encoding)
    | inr other ↦ elim (Bool-cases (mapping == map_unicode)) [
      | inl unicode ↦ rw (other, unicode) (unicode_encoder-IsStep encoding)
      | inr rest ↦ elim (Bool-cases (mapping == map_atari)) [
        | inl atari ↦ rw (other, rest, atari) (atari_encoder-IsStep encoding)
        | inr invalid ↦ rw (other, rest, invalid) windows1252_to_bics-IsStep
      ]
    ]
  ]
