-- ===== src/Scanner/Text/Ends.antt =====
-- The loop of `scan_string_to_16bit` comes to its end.
use highwire.Common.{
  ℕ, zero, suc, ◌+◌, ◌≤◌, ◌<◌, Bool, true, some, List, [], ◌∷◌, ◌++◌, ◌≡◌, ◌≢◌, false, refl, ap,
  arith, drop, length, if◌then◌else◌, span,
}
use highwire.Common.Bytes.{Bytes, is_alnum, is_space, skip}
use highwire.Encoding.Utf8.{utf8_to_unicode}
use highwire.Encoding.Unicode.{
  windows1252_to_utf16, iso8859_2_to_utf16, iso8859_15_to_utf16, utf8_to_utf16, utf16_to_utf16,
  macintosh_to_utf16, atari_to_utf16,
}
use highwire.Encoding.Bics.{
  windows1252_to_bics, iso8859_2_to_bics, iso8859_15_to_bics, utf8_to_bics, utf16_to_bics,
  macintosh_to_bics, atari_to_bics,
}
use highwire.Encoding.Atari.{
  windows1252_to_atari, iso8859_2_to_atari, iso8859_15_to_atari, utf8_to_atari, utf16_to_atari,
  macintosh_to_atari, atari_to_atari,
}
use highwire.Encoding.Select.{
  Encoding, utf8, utf16, bics_encoder, unicode_encoder, atari_encoder, encoder_word,
}
use highwire.Encoding.Steps.{encoder_word-IsStep}
use highwire.Scanner.Entities.{
  scan_namedchar, referred, numbered_char, name_char, strtol, signed, behind_prefix, is_digit_of,
}
use highwire.Scanner.Text.{is_cut, overruns, drop_last, text_step, text_from, scan_string_to_16bit}

drop-nil : (n : ℕ) (s : Bytes) → s ≡ [] → drop n s ≡ []
drop-nil zero s e = e
drop-nil (suc n) [] e = refl
drop-nil (suc n) (c ∷ s) e = cc

utf8-one : (c : ℕ) → (utf8_to_unicode (c ∷ [])).0 ≡ []
unfolding utf8_to_unicode
utf8-one c = drop-nil _ [] refl

unicode-one : (encoding : Encoding) (c : ℕ) → (unicode_encoder encoding (c ∷ [])).0 ≡ []
unfolding unicode_encoder windows1252_to_utf16 iso8859_2_to_utf16 iso8859_15_to_utf16 utf8_to_utf16
    utf16_to_utf16 macintosh_to_utf16 atari_to_utf16
unicode-one utf8 c = ground (arith, utf8-one c)
unicode-one _ c = refl

bics-one : (encoding : Encoding) (c : ℕ) → (bics_encoder encoding (c ∷ [])).0 ≡ []
unfolding bics_encoder windows1252_to_bics iso8859_2_to_bics iso8859_15_to_bics utf8_to_bics
    utf16_to_bics macintosh_to_bics atari_to_bics
bics-one utf8 c = ground (arith, utf8-one c)
bics-one _ c = refl

atari-one : (encoding : Encoding) (c : ℕ) → (atari_encoder encoding (c ∷ [])).0 ≡ []
unfolding atari_encoder windows1252_to_atari iso8859_2_to_atari iso8859_15_to_atari utf8_to_atari
    utf16_to_atari macintosh_to_atari atari_to_atari
atari-one utf8 c = ground (arith, utf8-one c)
atari-one _ c = refl

encoder_word-one :
    (encoding : Encoding) (mapping c : ℕ) → (encoder_word encoding mapping (c ∷ [])).0 ≡ []
unfolding encoder_word windows1252_to_bics
encoder_word-one encoding mapping c =
    ground (arith, unicode-one encoding c, bics-one encoding c, atari-one encoding c)

length-append : (s t : Bytes) → length (s ++ t) ≡ length s + length t
length-append [] t = ground arith
length-append (c ∷ s) t = omega (arith, length-append s t)

encoder_word-shorter :
    (encoding : Encoding) (mapping c : ℕ) (s : Bytes)
    → length (encoder_word encoding mapping (c ∷ s)).0 ≤ length s
encoder_word-shorter encoding mapping c [] = rw (encoder_word-one encoding mapping c) (omega arith)
encoder_word-shorter encoding mapping c (d ∷ s) =
    let step = encoder_word-IsStep c d s encoding mapping in
    omega (arith, ap length step.read, length-append step.front _, step.some_read)

length-skip : (p : ℕ → Bool) (s : Bytes) → length (skip p s) ≤ length s
length-skip p [] = omega arith
length-skip p (c ∷ s) = ground (arith, length-skip p s)

length-span : (p : ℕ → Bool) (s : Bytes) → length (span p s).1 ≤ length s
unfolding span
length-span p [] = omega arith
length-span p (c ∷ s) = ground (arith, length-span p s)

length-signed : (s : Bytes) → length (signed s).1 ≤ length s
length-signed [] = omega arith
length-signed (c ∷ s) = ground arith

length-behind_prefix : (radix : ℕ) (s : Bytes) → length (behind_prefix radix s) ≤ length s
length-behind_prefix radix (a ∷ b ∷ c ∷ s) = ground arith
length-behind_prefix radix _ = ground arith

length-strtol : (radix : ℕ) (s : Bytes) → length (strtol radix s).1 ≤ length s
unfolding strtol
length-strtol radix s =
    let t = skip is_space s in
    ground (
      arith,
      length-skip is_space s,
      length-signed t,
      length-behind_prefix radix (signed t).1,
      length-span (is_digit_of radix) (behind_prefix radix (signed t).1),
    )

length-numbered_char : (mapping : ℕ) (s : Bytes) → length (numbered_char mapping s).1 ≤ length s
unfolding numbered_char
length-numbered_char mapping [] = ground (arith, length-strtol 10 [], length-strtol 16 [])
length-numbered_char mapping (c ∷ s) = ground (arith, length-strtol 10 (c ∷ s), length-strtol 16 s)

length-name_char : (s : Bytes) → length (name_char s).1 ≤ length s
unfolding name_char
length-name_char s = ground (arith, length-span is_alnum s)

length-referred : (mapping : ℕ) (s : Bytes) → length (referred mapping s).1 ≤ length s
length-referred mapping [] = ground (arith, length-numbered_char mapping [], length-name_char [])
length-referred mapping (c ∷ s) =
    ground (arith, length-numbered_char mapping s, length-name_char (c ∷ s))

length-tail : (s : Bytes) → length (drop 1 s) ≤ length s
length-tail [] = omega arith
length-tail (c ∷ s) = omega arith

scan_namedchar-shorter :
    (stale mapping c : ℕ) (s : Bytes)
    → length (scan_namedchar stale true mapping (c ∷ s)).0 ≤ length s
unfolding scan_namedchar
scan_namedchar-shorter stale mapping c s =
    ground (arith, length-referred mapping s, length-tail (referred mapping s).1)

text_step-shorter :
    (encoding : Encoding) (mapping stale : ℕ) (space : Bool) (c : ℕ) (s : Bytes)
    → length (text_step encoding mapping stale space c s).1.0 ≤ length s
unfolding text_step
text_step-shorter encoding mapping stale space c s =
    ground
      (arith, scan_namedchar-shorter stale mapping c s, encoder_word-shorter encoding mapping c s)

is_cut-other : (encoding : Encoding) (s : Bytes) → encoding ≢ utf16 → is_cut encoding s ≡ false
is_cut-other utf16 s h = absurd (h refl)
is_cut-other _ s h = refl

overruns-other : (encoding : Encoding) (s : Bytes) → encoding ≢ utf16 → overruns encoding s ≡ false
overruns-other encoding [] h = refl
overruns-other encoding (c ∷ s) h = rw (is_cut-other encoding (c ∷ s) h) (ground arith)

text_from-ends :
    (fuel : ℕ) (encoding : Encoding) (mapping : ℕ) (stale : Bytes → ℕ) (space : Bool) (s : Bytes)
    → encoding ≢ utf16
    → length s < fuel
    → (text : List ℕ) × (last : Bool) × (text_from fuel encoding mapping stale space s
        ≡ some (text, last))
unfolding text_from
text_from-ends zero encoding mapping stale space s h l = absurd (omega arith)
text_from-ends (suc fuel) encoding mapping stale space [] h l = ([], space, refl)
text_from-ends (suc fuel) encoding mapping stale space (c ∷ s) h l =
    let step = text_step encoding mapping (stale (c ∷ s)) space c s in
    let (more, last, e) =
      text_from-ends fuel encoding mapping stale step.1.1 step.1.0 h
        (omega (arith, text_step-shorter encoding mapping (stale (c ∷ s)) space c s)) in
    (step.0 ++ more, last, rw (overruns-other encoding (c ∷ s) h, e))

-- Whatever the text and the mapping, if the encoding is not UTF-16 the loop of `scan_string_to_16bit` comes to its end:
-- fuel above the length of the text gives a result.
pub scan_string_to_16bit_ends :
    (fuel : ℕ) (symbol : Bytes) (encoding : Encoding) (mapping : ℕ) (stale : Bytes → ℕ)
    → encoding ≢ utf16
    → length symbol < fuel
    → (text : List ℕ) × (scan_string_to_16bit fuel symbol encoding mapping stale ≡ some text)
unfolding scan_string_to_16bit
scan_string_to_16bit_ends fuel symbol encoding mapping stale h l =
    let (text, last, e) = text_from-ends fuel encoding mapping stale true symbol h l in
    (if last then drop_last text else text, rw e)
