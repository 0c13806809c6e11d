-- ===== src/Encoding/Tests.antt =====
-- Runs of the encoders, and their theorems at concrete characters.
use highwire.Common.{true, false, [], ◌∷◌, ◌≡◌, ◌≢◌, ◌↔◌, refl, arith}
use highwire.Common.Bytes.{Bytes, codes}
use highwire.Encoding.Row.{bin_search, last_trans}
use highwire.Encoding.Tables.{unicode_to_bics_tab, unicode_to_atari_tab}
use highwire.Encoding.Lookup.{lookup, has_row, bics-eq-lookup, atari-eq-lookup, atari_missed}
use highwire.Encoding.Utf8.{utf8_to_unicode, count_octets, add_octets}
use highwire.Encoding.Utf8.Decode.{utf8_bytes, utf8_to_unicode-utf8_bytes}
use highwire.Encoding.Utf8.Forms.{IsWritten}
use highwire.Encoding.Utf8.Strict.{utf8_to_unicode-IsWritten}
use highwire.Encoding.Bounds.{IsStep}
use highwire.Encoding.Steps.{encoder_char-IsStep}
use highwire.Encoding.Select.{utf8, iso8859_2, iso8859_15, macintosh, encoder_word, encoder_char}
use highwire.Encoding.Ascii.{Writes, encoder_word-ascii, encoder_char_control}
use highwire.Encoding.Latin9.{iso_8859_15}
use highwire.Encoding.Agree.{Agrees, latin_9-Agrees, macintosh_code-Agrees}
use highwire.Encoding.Unicode.{macintosh_code}
use highwire.Encoding.RoundTrip.{there_and_back, is_lossy, there_and_back_iff}

-- the ellipsis is three full stops
ellipsis : bin_search 0x2026 unicode_to_atari_tab ≡ b'.' ∷ b'.' ∷ b'.' ∷ []
unfolding bin_search unicode_to_atari_tab
ellipsis = refl

bics-eq-lookup_example :
    bin_search 0x2122 unicode_to_bics_tab
    ≡ lookup 0x2122 unicode_to_bics_tab (last_trans unicode_to_bics_tab)
bics-eq-lookup_example = bics-eq-lookup 0x2122

atari-eq-lookup_run :
    bin_search 0x2026 unicode_to_atari_tab
    ≡ lookup 0x2026 unicode_to_atari_tab (last_trans unicode_to_atari_tab)
atari-eq-lookup_run = atari-eq-lookup 0x2026 refl

atari_missed_run :
    (has_row 0x2039 unicode_to_atari_tab ≡ true)
    × (bin_search 0x2039 unicode_to_atari_tab ≡ last_trans unicode_to_atari_tab)
atari_missed_run = atari_missed 0x2039 refl

utf8_to_unicode-utf8_bytes_example :
    utf8_to_unicode (0xE2 ∷ 0x82 ∷ 0xAC ∷ codes " 5") ≡ (codes " 5", 0x20AC)
unfolding utf8_bytes
utf8_to_unicode-utf8_bytes_example =
    utf8_to_unicode-utf8_bytes 0x20AC (codes " 5") (omega arith) (omega arith)

euro_decoded : (utf8_to_unicode (0xE2 ∷ 0x82 ∷ 0xAC ∷ [])).1 ≢ 0xFFFD
unfolding utf8_to_unicode count_octets add_octets
euro_decoded = ground arith

utf8_to_unicode-IsWritten_example : IsWritten (0xE2 ∷ 0x82 ∷ 0xAC ∷ [])
utf8_to_unicode-IsWritten_example = utf8_to_unicode-IsWritten (0xE2 ∷ 0x82 ∷ 0xAC ∷ []) euro_decoded

encoder_char-IsStep_run : IsStep (0xC3 ∷ 0xA9 ∷ []) (encoder_char utf8 (0xC3 ∷ 0xA9 ∷ []))
encoder_char-IsStep_run = encoder_char-IsStep 0xC3 0xA9 [] utf8

encoder_word-ascii_run :
    Writes (encoder_word macintosh 2) b'A' (codes "A")
    × Writes (encoder_word macintosh 1) b'A' (codes "A")
    × Writes (encoder_word macintosh 0) b'A' (codes "!")
encoder_word-ascii_run =
    encoder_word-ascii macintosh b'A' (ground arith) (omega arith) (omega arith)

encoder_char_control_run : Writes (encoder_char iso8859_2) 9 (9 ∷ [])
encoder_char_control_run = encoder_char_control iso8859_2 9 (ground arith) (omega arith)

latin_9-Agrees_example : Agrees iso8859_15 0xA6 (iso_8859_15 0xA6) []
latin_9-Agrees_example = latin_9-Agrees 0xA6 [] (omega arith) (omega arith)

macintosh_code-Agrees_run : Agrees macintosh 0x80 (macintosh_code 0x80) []
macintosh_code-Agrees_run = macintosh_code-Agrees 0x80 [] (omega arith) (omega arith)

there_and_back_iff_example : (there_and_back 0x84 ≡ 0x84 ∷ []) ↔ (is_lossy 0x84 ≡ false)
there_and_back_iff_example = there_and_back_iff 0x84 (omega arith) (omega arith)
