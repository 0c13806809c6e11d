-- ===== src/Scanner/Tests.antt =====
-- Runs of the scanners, and their theorems at concrete texts.
use highwire.Common.{
  [], ◌∷◌, none, false, span, ℕ, some, true, ◌≡◌, refl, arith, List, if◌then◌else◌,
}
use highwire.Common.Bytes.{codes, same_nocase}
use highwire.Encoding.Select.{windows1252, utf8, utf16, encoder_word, unicode_encoder}
use highwire.Encoding.Unicode.{utf16_to_utf16}
use highwire.Scanner.{scan_tag, scan_key, scan_css, scan_encoding}
use highwire.Scanner.Tags.{tag_table}
use highwire.Scanner.Keys.{key_table}
use highwire.Scanner.Lookup.{lookup_symbol, lookup_css}
use highwire.Scanner.Words.{scan_tag-letters, scan_key-bytes}
use highwire.Scanner.Names.{scan_key-own}
use highwire.Scanner.Properties.{scan_css-bytes, behind}
use highwire.Scanner.Entities.{named_char, scan_namedchar, written}
use highwire.Scanner.Entities.Names.{scan_namedchar-word}
use highwire.Scanner.Text.{text_step, text_from, scan_string_to_16bit}
use highwire.Scanner.Text.Ends.{scan_string_to_16bit_ends}
use highwire.Common.Int.{pos, negsuc}
use highwire.Scanner.Numeric.{scan_numeric, measured, fraction, read_unit, unsigned}
use highwire.Scanner.Numeric.Range.{scan_numeric-IsMeasured, IsMeasured}
use highwire.Common.Number.{strtol_10}

utf_8 : scan_encoding (codes "utf-8") windows1252 ≡ utf8
unfolding scan_encoding same_nocase
utf_8 = refl

scan_tag-letters_example :
    scan_tag (codes "Table border") ≡ (lookup_symbol tag_table 0 (codes "TABLE"), codes " border")
scan_tag-letters_example =
    scan_tag-letters b'T' (codes "able") (codes " border") refl (omega arith) (refl, refl)

scan_key-bytes_example :
    scan_key (codes "http-equiv=x") true
    ≡ (lookup_symbol key_table 0 (codes "HTTP_EQUIV"), codes "=x")
scan_key-bytes_example = scan_key-bytes b'h' (codes "ttp-equiv") (codes "=x") true refl refl

scan_key-own_example : scan_key (codes "Action=") true ≡ (1, codes "=")
unfolding key_table
scan_key-own_example = scan_key-own 0 b'A' (codes "ction") (codes "=") (omega arith) refl refl refl

scan_css-bytes_run :
    scan_css (codes "font-size : 9") 12
    ≡ (lookup_css (codes "FONT_SIZE"), behind (lookup_css (codes "FONT_SIZE")) 3 (codes " : 9"))
scan_css-bytes_run =
    scan_css-bytes b'f' 3 (codes "ont-size") (codes " : 9") refl refl (omega arith) refl

scan_namedchar-word_example : scan_namedchar 0 true 2 (codes "&eacute;t") ≡ (
  if (written 0 true 2 (lookup_symbol named_char 0 (codes "eacute"))).0
      then codes "t"
      else codes "eacute;t",
  (written 0 true 2 (lookup_symbol named_char 0 (codes "eacute"))).1,
)
scan_namedchar-word_example =
    scan_namedchar-word 0 2 true b'e' (codes "acute") (codes ";t") refl refl

scan_string_to_16bit_ends_example :
    (text : List ℕ) × (scan_string_to_16bit 20 (codes "a  &lt; b") windows1252 2 (λ s. 0)
      ≡ some text)
scan_string_to_16bit_ends_example =
    scan_string_to_16bit_ends 20 (codes "a  &lt; b") windows1252 2 (λ s. 0) (λ e. ground (arith, e))
      (omega arith)

two_and_a_half : scan_numeric 0 (codes " -2.5em;") ≡ (true, (negsuc 639, (0x454D, codes ";")))
unfolding scan_numeric measured fraction read_unit strtol_10 span
two_and_a_half = refl

minus_point : scan_numeric 7 (codes "-.5em") ≡ (false, (pos 0, (7, codes "-.5em")))
unfolding scan_numeric strtol_10 span
minus_point = refl

accepted : (scan_numeric 0 (codes "12.75 px")).0 ≡ true
unfolding scan_numeric measured fraction read_unit strtol_10 span
accepted = refl

scan_numeric-IsMeasured_example :
    IsMeasured (unsigned (strtol_10 (codes "12.75 px")).0) (scan_numeric 0 (codes "12.75 px")).1
scan_numeric-IsMeasured_example = scan_numeric-IsMeasured 0 (codes "12.75 px") accepted

-- a text of UTF-16 that ends within a character
cut_character : scan_string_to_16bit 20 (0x04 ∷ 0x10 ∷ 0x04 ∷ []) utf16 2 (λ s. 0) ≡ none
unfolding scan_string_to_16bit text_from text_step encoder_word unicode_encoder utf16_to_utf16
cut_character = refl
