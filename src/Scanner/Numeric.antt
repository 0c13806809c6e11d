-- ===== src/Scanner/Numeric.antt =====
-- src/scanner.c, `scan_numeric`: a number with its unit, in 1/256.
pub mod Range
use highwire.Common.{
  ℕ, ◌+◌, ◌-◌, ◌*◌, ◌/◌, Bool, true, false, ◌&&◌, ◌||◌, [], ◌∷◌, ◌==◌, leb, if◌then◌else◌, length,
}
use highwire.Common.Bytes.{Bytes, head_byte, is_digit, is_space, skip, to_upper}
use highwire.Common.Int.{ℤ, pos, negsuc, minus}
use highwire.Common.Number.{strtol_10}

-- `(neg ? -size : +size)`
abbrev pub with_sign : Bool → ℤ → ℤ
with_sign false size = size
with_sign true (pos n) = minus 0 n
with_sign true (negsuc n) = pos (n + 1)

-- behind the first digit of the fraction, with the number in tenths
abbrev pub hundredths : ℕ → Bytes → ℕ × Bytes
hundredths size [] = ((size * 256 + 5) / 10, [])
hundredths size (c ∷ s) =
    if is_digit c
    then (((size * 10 + (c - 48)) * 256 + 5) / 100, skip is_digit s)
    else ((size * 256 + 5) / 10, c ∷ s)

-- behind the point
abbrev pub decimals : ℕ → Bytes → ℕ × Bytes
decimals size [] = (size * 256, [])
decimals size (c ∷ s) =
    if is_digit c then hundredths (size * 10 + (c - 48)) s else (size * 256, c ∷ s)

-- `size` with the fraction, and what is behind it
unfoldable pub fraction : ℕ → Bytes → ℕ × Bytes
fraction size [] = (size * 256, [])
fraction size (c ∷ s) = if c == b'.' then decimals size s else (size * 256, c ∷ s)

-- `if (*ptr == ' ') while (isspace(*ptr)) ptr++;`
abbrev pub behind_blank : Bytes → Bytes
behind_blank s = if head_byte s == b' ' then skip is_space s else s

-- a unit of two letters, in capitals
abbrev pub is_unit : ℕ → ℕ → Bool
is_unit u l =
    u == b'E' && (l == b'M' || l == b'X')
    || u == b'P' && (l == b'C' || l == b'T' || l == b'X')
    || u == b'M' && l == b'M'
    || u == b'C' && l == b'M'
    || u == b'I' && l == b'N'

abbrev pub tail : Bytes → Bytes
tail [] = []
tail (c ∷ s) = s

-- `*unit`, and what is behind it
unfoldable pub read_unit : Bytes → ℕ × Bytes
read_unit [] = (0, [])
read_unit (c ∷ s) =
    let l = to_upper (head_byte s) in
    if is_unit (to_upper c) l
    then (to_upper c * 256 + l, tail s)
    else if c == b'%'
    then (b'%' * 256 + b' ', s)
    else (0, c ∷ s)

-- `size < -32768l || size > +32767l`
abbrev pub is_outside : ℤ → Bool
is_outside (pos n) = leb 0x8000 n
is_outside (negsuc n) = leb 0x8000 n

-- `if (size < 0l) size = -size;`
abbrev pub unsigned : ℤ → ℕ
unsigned (pos n) = n
unsigned (negsuc n) = n + 1

-- From the end of the integer on: `ok`, `*num`, `*unit` and the place. Beyond the range the number
-- with its fraction is not used.
unfoldable pub measured : Bool → ℤ → Bytes → Bool × (ℤ × (ℕ × Bytes))
unfolding fraction read_unit
measured neg size ptr =
    let (fixed, place) = fraction (unsigned size) ptr in
    let end = behind_blank place in
    let whole = if is_outside size then size else pos (unsigned size) in
    let num = if is_outside size then size else with_sign neg (pos fixed) in
    (
      if is_outside size then false else true,
      (if head_byte end == b'%' then with_sign neg whole else num, read_unit end),
    )

-- The result, `*num`, `*unit` and `*pptr`; `unit` is what `*unit` holds before.
unfoldable pub scan_numeric : ℕ → Bytes → Bool × (ℤ × (ℕ × Bytes))
unfolding measured
scan_numeric unit text =
    let s = skip is_space text in
    let (size, ptr) = strtol_10 s in
    if head_byte s == b'.'
    then measured false size ptr
    else if leb (length s) (length ptr)
    then (false, (pos 0, (unit, s)))
    else measured (head_byte s == b'-') size ptr
