-- ===== src/Encoding/Agree.antt =====
-- A character is written alike, whatever encoding the page has.
use highwire.Common.{
  ℕ, ◌≤◌, ◌<◌, Bool, true, ◌&&◌, [], ◌∷◌, ◌++◌, ◌≡◌, refl, sym, ap, ◌∙◌, arith, if◌then◌else◌, ltb,
  leb, ◌==◌,
}
use highwire.Common.Bytes.{Bytes, head_byte}
use highwire.Common.Check.{all_below, all_below_sound}
use highwire.Encoding.Utf8.{utf8_to_unicode, replace_invalid}
use highwire.Encoding.Utf8.Decode.{utf8_bytes, utf8_to_unicode-utf8_bytes}
use highwire.Encoding.Latin.{macintosh_to_unicode_tab}
use highwire.Encoding.Latin9.{upper_half, iso_8859_15}
use highwire.Encoding.Unicode.{
  iso8859_15_to_utf16, utf8_to_utf16, macintosh_to_utf16, macintosh_code, latin_9_utf16,
}
use highwire.Encoding.Bics.{
  iso8859_15_to_bics, utf8_to_bics, macintosh_to_bics, unicode_to_bics, latin_9_bics,
}
use highwire.Encoding.Atari.{
  iso8859_15_to_atari, utf8_to_atari, macintosh_to_atari, high_or_ascii, uni_2_atari, latin_9_atari,
}
use highwire.Encoding.Aes.{
  iso8859_15_to_8bit, utf8_to_8bit, macintosh_to_8bit, unicode_to_8bit, latin_9_8bit,
}
use highwire.Encoding.Select.{
  Encoding, iso8859_15, utf8, macintosh, encoder_word, bics_encoder, unicode_encoder, atari_encoder,
  encoder_char,
}

-- the first byte of a character of UTF-8 is no ASCII
utf8_bytes_lead : (u : ℕ) (s : Bytes) → leb 0x80 (head_byte (utf8_bytes u ++ s)) ≡ true
unfolding utf8_bytes
utf8_bytes_lead u s = ground arith

module _ (u : ℕ) (s : Bytes) (low : 0x80 ≤ u) (valid : replace_invalid u ≡ u)
    (small : u < 0x10000) where
  decoded : utf8_to_unicode (utf8_bytes u ++ s) ≡ (s, u)
  decoded = utf8_to_unicode-utf8_bytes u s low (omega arith) ∙ ap (λ v. (s, v)) valid

  -- what the encoders write for the character in UTF-8
  pub utf8_to_utf16_of : utf8_to_utf16 (utf8_bytes u ++ s) ≡ (s, u ∷ [])
  unfolding utf8_to_utf16
  utf8_to_utf16_of = rw (utf8_bytes_lead u s, decoded) (ground arith)

  pub utf8_to_bics_of : utf8_to_bics (utf8_bytes u ++ s) ≡ (s, unicode_to_bics u)
  unfolding utf8_to_bics
  utf8_to_bics_of = rw (utf8_bytes_lead u s, decoded)

  pub utf8_to_atari_of : utf8_to_atari (utf8_bytes u ++ s) ≡ (s, uni_2_atari u)
  unfolding utf8_to_atari
  utf8_to_atari_of = rw (utf8_bytes_lead u s, decoded)

  pub utf8_to_8bit_of : utf8_to_8bit (utf8_bytes u ++ s) ≡ (s, unicode_to_8bit u)
  unfolding utf8_to_8bit
  utf8_to_8bit_of = rw (utf8_bytes_lead u s, decoded)

-- All four encoders write for the byte what they write for the character in UTF-8.
pub record Agrees (encoding : Encoding) (c u : ℕ) (s : Bytes) : Type 0 where
  pub for_unicode : encoder_word encoding 2 (c ∷ s) ≡ encoder_word utf8 2 (utf8_bytes u ++ s)
  pub for_atari : encoder_word encoding 1 (c ∷ s) ≡ encoder_word utf8 1 (utf8_bytes u ++ s)
  pub for_bics : encoder_word encoding 0 (c ∷ s) ≡ encoder_word utf8 0 (utf8_bytes u ++ s)
  pub for_aes : encoder_char encoding (c ∷ s) ≡ encoder_char utf8 (utf8_bytes u ++ s)

-- The four encoders know the characters of the standard.
abbrev is_standard : ℕ → Bool
is_standard c =
    let u = iso_8859_15 c in
    if ltb c 160
    then true
    else latin_9_utf16 c == u
      && latin_9_bics c == u
      && latin_9_atari c == u
      && latin_9_8bit c == u
      && leb 160 u
      && replace_invalid u == u
      && ltb u 0x10000

all_standard : all_below 256 is_standard ≡ true
unfolding all_below latin_9_utf16 latin_9_bics latin_9_atari latin_9_8bit iso_8859_15 upper_half
all_standard = refl

-- A byte of ISO 8859-15 from 0xA0 on gives, for every font and the AES, the same as the character that
-- the standard has for it gives in UTF-8.
pub latin_9-Agrees : (c : ℕ) (s : Bytes) → 160 ≤ c → c < 256 → Agrees iso8859_15 c (iso_8859_15 c) s
unfolding encoder_word bics_encoder unicode_encoder atari_encoder encoder_char iso8859_15_to_utf16
    iso8859_15_to_bics iso8859_15_to_atari iso8859_15_to_8bit
latin_9-Agrees c s b l =
    let u = iso_8859_15 c in
    let h = all_below_sound 256 is_standard c all_standard l in
    let w : 160 ≤ u = ground (arith, h) in
    let v : replace_invalid u ≡ u = ground (arith, h) in
    let m : u < 0x10000 = ground (arith, h) in
    let to_utf16 : latin_9_utf16 c ≡ u = ground (arith, h) in
    let to_bics : latin_9_bics c ≡ u = ground (arith, h) in
    let to_atari : latin_9_atari c ≡ u = ground (arith, h) in
    let to_8bit : latin_9_8bit c ≡ u = ground (arith, h) in
    record {
      for_unicode = rw to_utf16 (ground (arith, w, utf8_to_utf16_of u s (omega (arith, w)) v m));
      for_atari = rw to_atari (ground (arith, w, utf8_to_atari_of u s (omega (arith, w)) v m));
      for_bics = rw to_bics (ground (arith, w, utf8_to_bics_of u s (omega (arith, w)) v m));
      for_aes = rw to_8bit (ground (arith, w, utf8_to_8bit_of u s (omega (arith, w)) v m));
    }

-- what the Macintosh table gives is a character beyond ASCII
abbrev is_beyond : ℕ → Bool
is_beyond c =
    let u = macintosh_code c in
    if ltb c 128 then true else leb 160 u && replace_invalid u == u && ltb u 0x10000

macintosh_beyond : all_below 256 is_beyond ≡ true
unfolding all_below macintosh_code macintosh_to_unicode_tab
macintosh_beyond = refl

macintosh_valid :
    (c : ℕ)
    → 128 ≤ c
    → c < 256
    → (160 ≤ macintosh_code c)
      × (replace_invalid (macintosh_code c) ≡ macintosh_code c)
      × (macintosh_code c < 0x10000)
macintosh_valid c b l =
    let h = all_below_sound 256 is_beyond c macintosh_beyond l in
    (ground (arith, h), ground (arith, h), ground (arith, h))

high_or_ascii_high : (u : ℕ) → 160 ≤ u → high_or_ascii u ≡ uni_2_atari u
unfolding high_or_ascii
high_or_ascii_high u h = ground arith

-- A character of the Macintosh encoding beyond ASCII gives the same as in UTF-8, for every font and
-- the AES.
pub macintosh_code-Agrees :
    (c : ℕ) (s : Bytes) → 128 ≤ c → c < 256 → Agrees macintosh c (macintosh_code c) s
unfolding encoder_word bics_encoder unicode_encoder atari_encoder encoder_char macintosh_to_utf16
    macintosh_to_bics macintosh_to_atari macintosh_to_8bit
macintosh_code-Agrees c s b l =
    let u = macintosh_code c in
    let (w, v, m) = macintosh_valid c b l in
    record {
      for_unicode = ground (arith, w, utf8_to_utf16_of u s (omega (arith, w)) v m);
      for_atari =
          ap (λ t. (s, t)) (high_or_ascii_high u w)
          ∙ sym (utf8_to_atari_of u s (omega (arith, w)) v m);
      for_bics = sym (utf8_to_bics_of u s (omega (arith, w)) v m);
      for_aes = sym (utf8_to_8bit_of u s (omega (arith, w)) v m);
    }
