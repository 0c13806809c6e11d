-- ===== src/Numbering/Tests.antt =====
-- Runs of the numbering routines, and their theorems at concrete numbers.
use highwire.Common.{true, false, ◌≡◌, ◌≢◌, refl, arith, map}
use highwire.Common.Bytes.{codes, to_upper}
use highwire.Common.Int.{pos, negsuc}
use highwire.Numbering.{long2alpha, long2decimal, list_marker, decimal_, short2roman}
use highwire.Numbering.Decimal.{digits_value, digits_value-long2decimal}
use highwire.Numbering.Negative.{digits, negative_of, list_marker_negative}
use highwire.Numbering.Alpha.{numbering, long2alpha-eq-numbering, long2alpha-ne-numbering}
use highwire.Numbering.Roman.{roman_value, roman_value-short2roman}
use highwire.Common.{inl}

fifty_two : long2alpha true 52 ≡ codes "BZ"
unfolding long2alpha
fifty_two = refl

digits_value-long2decimal_run : digits_value (long2decimal (pos 1984)) ≡ 1984
digits_value-long2decimal_run = digits_value-long2decimal 1984

list_marker_negative_example :
    list_marker decimal_ (negsuc 12) ≡ negative_of digits 13 (list_marker decimal_ (pos 13))
list_marker_negative_example = list_marker_negative digits 12 (omega arith)

long2alpha-ne-numbering_run : long2alpha true 52 ≢ numbering true 52
long2alpha-ne-numbering_run = long2alpha-ne-numbering true 2 (omega arith) (omega arith)

roman_value-short2roman_example :
    (roman_value (short2roman true 1984) ≡ 1984)
    × (roman_value (map to_upper (short2roman false 1984)) ≡ 1984)
roman_value-short2roman_example = roman_value-short2roman 1984 (omega arith)

long2alpha-eq-numbering_run : long2alpha false 701 ≡ numbering false 701
long2alpha-eq-numbering_run =
    long2alpha-eq-numbering false 701 (omega arith) (omega arith) (inl (omega arith))
