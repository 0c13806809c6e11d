-- ===== src/Scanner/Numeric/Range.antt =====
-- The numbers that `scan_numeric` of src/scanner.c gives.
use highwire.Common.{
  ℕ, zero, suc, ◌+◌, ◌-◌, ◌*◌, ◌≤◌, Bool, true, false, [], ◌∷◌, ◌==◌, leb, ◌≡◌, ◌⊎◌, inl, inr, refl,
  arith, length, Bool-cases,
}
use highwire.Common.Bytes.{Bytes, head_byte, is_digit, is_space, skip}
use highwire.Common.Int.{ℤ, pos, negsuc}
use highwire.Common.Number.{strtol_10}
use highwire.Scanner.Numeric.{
  with_sign, hundredths, decimals, fraction, read_unit, is_outside, unsigned, measured,
  scan_numeric, behind_blank,
}

-- the number `v` is at least `n`, and less than `n + 1`, in 1/256
abbrev pub IsNear : ℕ → ℕ → Type 0
IsNear n v = (n * 256 ≤ v) × (v ≤ n * 256 + 253)

digit-range : (c : ℕ) → is_digit c ≡ true → c - 48 ≤ 9
digit-range c h = ground (arith, h)

hundredths-IsNear : (n d : ℕ) (s : Bytes) → d ≤ 9 → IsNear n (hundredths (n * 10 + d) s).0
hundredths-IsNear n d [] k = (omega arith, omega arith)
hundredths-IsNear n d (c ∷ s) k = elim (Bool-cases (is_digit c)) [
  | inl e ↦ let r = digit-range c e in rw e (omega arith, omega arith)
  | inr e ↦ rw e (omega arith, omega arith)
]

decimals-IsNear : (n : ℕ) (s : Bytes) → IsNear n (decimals n s).0
decimals-IsNear n [] = (omega arith, omega arith)
decimals-IsNear n (c ∷ s) = elim (Bool-cases (is_digit c)) [
  | inl e ↦ rw e (hundredths-IsNear n (c - 48) s (digit-range c e))
  | inr e ↦ rw e (omega arith, omega arith)
]

fraction-IsNear : (n : ℕ) (s : Bytes) → IsNear n (fraction n s).0
unfolding fraction
fraction-IsNear n [] = (omega arith, omega arith)
fraction-IsNear n (c ∷ s) = elim (Bool-cases (c == b'.')) [
  | inl e ↦ rw e (decimals-IsNear n s)
  | inr e ↦ rw e (omega arith, omega arith)
]

sign-unsigned : (neg : Bool) (n : ℕ) → unsigned (with_sign neg (pos n)) ≡ n
sign-unsigned false n = refl
sign-unsigned true zero = refl
sign-unsigned true (suc zero) = refl
sign-unsigned true (suc (suc n)) = omega arith

range-unsigned : (z : ℤ) → is_outside z ≡ false → unsigned z ≤ 0x8000
range-unsigned (pos n) h = ground (arith, h)
range-unsigned (negsuc n) h = ground (arith, h)

percent-unit : (s : Bytes) → head_byte s == b'%' ≡ true → (read_unit s).0 ≡ b'%' * 256 + b' '
unfolding read_unit
percent-unit [] h = ground (arith, h)
percent-unit (c ∷ s) h = let e : c ≡ b'%' = ground (arith, h) in rw e refl

-- for an integer of magnitude `n`: `*num`, `*unit` and the place
abbrev pub IsMeasured : ℕ → ℤ × (ℕ × Bytes) → Type 0
IsMeasured n (num, (unit, ptr)) =
    (n ≤ 0x8000) × (((unit ≡ b'%' * 256 + b' ') × (unsigned num ≡ n)) ⊎ IsNear n (unsigned num))

measured-IsMeasured :
    (neg : Bool) (size : ℤ) (ptr : Bytes)
    → (measured neg size ptr).0 ≡ true
    → IsMeasured (unsigned size) (measured neg size ptr).1
unfolding measured
measured-IsMeasured neg size ptr h =
    let (fixed, place) = fraction (unsigned size) ptr in
    elim (Bool-cases (is_outside size)) [
      | inl e ↦ ground (arith, e, h)
      | inr e ↦ elim (Bool-cases (head_byte (behind_blank place) == b'%')) [
        | inl p ↦
            rw (e, p)
              (
                range-unsigned size e,
                inl (percent-unit (behind_blank place) p, sign-unsigned neg (unsigned size)),
              )
        | inr p ↦
            rw (e, p)
              (
                range-unsigned size e,
                inr (rw (sign-unsigned neg fixed) (fraction-IsNear (unsigned size) ptr)),
              )
      ]
    ]

-- If `scan_numeric` accepts a text, the number of `strtol` has a magnitude of 0x8000 at most, and
-- the number given has this magnitude with the unit of per cent, or else is near it in 1/256.
pub scan_numeric-IsMeasured :
    (unit : ℕ) (text : Bytes)
    → (scan_numeric unit text).0 ≡ true
    → IsMeasured (unsigned (strtol_10 (skip is_space text)).0) (scan_numeric unit text).1
unfolding scan_numeric
scan_numeric-IsMeasured unit text =
    let s = skip is_space text in
    let (size, ptr) = strtol_10 s in
    elim (Bool-cases (head_byte s == b'.')) [
      | inl e ↦ rw e (measured-IsMeasured false size ptr)
      | inr e ↦ elim (Bool-cases (leb (length s) (length ptr))) [
        | inl l ↦ rw (e, l) (λ h. ground (arith, h))
        | inr l ↦ rw (e, l) (measured-IsMeasured (head_byte s == b'-') size ptr)
      ]
    ]
