-- ===== src/Common/Number.antt =====
-- `strtol` in base 10: the number, and what is behind it.
use Prim.Native.Nat.{ℕ, ◌+◌, ◌-◌, ◌*◌, ◌/◌, ◌%◌, ◌<◌}
use mathlib.Core.Path.{◌≡◌, refl, ap, ◌∙◌}
use mathlib.Core.Bool.{Bool, true, false}
use mathlib.Core.List.{[], ◌∷◌, ◌++◌}
use native.Mathlib.Omega.{arith}
use highwire.Common.Bytes.{Bytes, head_byte, is_digit, is_space, skip}
use highwire.Common.Compare.{leb, ◌==◌, if◌then◌else◌}
use highwire.Common.Int.{ℤ, pos, negsuc, minus}
use highwire.Common.Lists.{span}
use highwire.Common.Every.{Every}

-- the sign, and what is behind it
abbrev pub sign : Bytes → Bool × Bytes
sign [] = (false, [])
sign (c ∷ s) = if c == b'-' then (true, s) else if c == b'+' then (false, s) else (false, c ∷ s)

abbrev pub decimal_from : ℕ → Bytes → ℕ
decimal_from v [] = v
decimal_from v (c ∷ s) = decimal_from (v * 10 + (c - 48)) s

-- LONG_MAX and LONG_MIN beyond the range of a `long`
abbrev pub long_of : Bool → ℕ → ℤ
long_of false v = if leb v 0x7FFFFFFF then pos v else pos 0x7FFFFFFF
long_of true v = if leb v 0x80000000 then minus 0 v else negsuc 0x7FFFFFFF

-- from the blanks on; the start of the text `s` if there is no digit
abbrev pub number_or : Bytes → Bool → Bytes × Bytes → ℤ × Bytes
number_or s negative ([], next) = (pos 0, s)
number_or s negative (c ∷ digits, next) = (long_of negative (decimal_from 0 (c ∷ digits)), next)

abbrev pub behind_sign : Bytes → Bool × Bytes → ℤ × Bytes
behind_sign s (negative, t) = number_or s negative (span is_digit t)

unfoldable pub strtol_10 : Bytes → ℤ × Bytes
strtol_10 s = behind_sign s (sign (skip is_space s))

-- two digits, and what follows
abbrev pub two_digits : ℕ → Bytes → Bytes
two_digits n s = (48 + n / 10) ∷ (48 + n % 10) ∷ s

pub two-digit : (n : ℕ) → n < 10 → is_digit (48 + n) ≡ true
two-digit n l = ground arith

pub digit-skip : (c : ℕ) (s : Bytes) → is_digit c ≡ true → skip is_space (c ∷ s) ≡ c ∷ s
digit-skip c s h = ground (arith, h)

digit-sign : (c : ℕ) (s : Bytes) → is_digit c ≡ true → sign (c ∷ s) ≡ (false, c ∷ s)
digit-sign c s h = ground (arith, h)

pub skip-front :
    (p : ℕ → Bool) (bs s : Bytes) → Every (λ c. p c ≡ true) bs → skip p (bs ++ s) ≡ skip p s
skip-front p [] s h = refl
skip-front p (c ∷ bs) s h = rw h.0 (skip-front p bs s h.1)

span-front :
    (ds s : Bytes)
    → Every (λ c. is_digit c ≡ true) ds
    → is_digit (head_byte s) ≡ false
    → span is_digit (ds ++ s) ≡ (ds, s)
unfolding span
span-front [] [] h k = refl
span-front [] (c ∷ s) h k = rw k refl
span-front (d ∷ ds) s h k = rw (h.0, span-front ds s h.1 k) refl

-- Digits behind blanks read as their number.
pub strtol_10-digits :
    (bs : Bytes) (c : ℕ) (ds s : Bytes)
    → Every (λ c. is_space c ≡ true) bs
    → is_digit c ≡ true
    → Every (λ c. is_digit c ≡ true) ds
    → is_digit (head_byte s) ≡ false
    → strtol_10 (bs ++ ((c ∷ ds) ++ s)) ≡ (long_of false (decimal_from 0 (c ∷ ds)), s)
unfolding strtol_10
strtol_10-digits bs c ds s b h k e =
    let text = bs ++ ((c ∷ ds) ++ s) in
    let signed = ap sign (skip-front is_space bs ((c ∷ ds) ++ s) b ∙ digit-skip c (ds ++ s) h) in
    ap (behind_sign text) (signed ∙ digit-sign c (ds ++ s) h)
    ∙ ap (number_or text false) (span-front (c ∷ ds) s (h, k) e)

-- Two digits, with blanks before them, read as their number.
pub strtol_10-two_digits :
    (bs : Bytes) (n : ℕ) (s : Bytes)
    → Every (λ c. is_space c ≡ true) bs
    → n < 100
    → is_digit (head_byte s) ≡ false
    → strtol_10 (bs ++ two_digits n s) ≡ (pos n, s)
strtol_10-two_digits bs n s b l e =
    let high = two-digit (n / 10) (omega arith) in
    let low = two-digit (n % 10) (omega arith) in
    let c = 48 + n / 10 in
    let d = 48 + n % 10 in
    let value : long_of false (decimal_from 0 (c ∷ d ∷ [])) ≡ pos n = ground arith in
    strtol_10-digits bs c (d ∷ []) s b high (low, tt) e ∙ ap (λ v. (v, s)) value

-- four digits, and what follows
abbrev pub four_digits : ℕ → Bytes → Bytes
four_digits n s = two_digits (n / 100) (two_digits (n % 100) s)

pub strtol_10-four_digits :
    (bs : Bytes) (n : ℕ) (s : Bytes)
    → Every (λ c. is_space c ≡ true) bs
    → n < 10000
    → is_digit (head_byte s) ≡ false
    → strtol_10 (bs ++ four_digits n s) ≡ (pos n, s)
strtol_10-four_digits bs n s b l e =
    let a = two-digit (n / 100 / 10) (omega arith) in
    let c = two-digit (n / 100 % 10) (omega arith) in
    let d = two-digit (n % 100 / 10) (omega arith) in
    let f = two-digit (n % 100 % 10) (omega arith) in
    let ds = (48 + n / 100 % 10) ∷ (48 + n % 100 / 10) ∷ (48 + n % 100 % 10) ∷ [] in
    let value : long_of false (decimal_from 0 ((48 + n / 100 / 10) ∷ ds)) ≡ pos n = ground arith in
    strtol_10-digits bs (48 + n / 100 / 10) ds s b a (c, (d, (f, tt))) e ∙ ap (λ v. (v, s)) value
