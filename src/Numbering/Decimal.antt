-- ===== src/Numbering/Decimal.antt =====
-- `long2decimal`: what it writes reads back as the number.
use mathlib.Core.List.{foldl, foldl-append}
use highwire.Common.{
  ℕ, zero, suc, ◌+◌, ◌-◌, ◌*◌, ◌/◌, ◌%◌, ◌<◌, [], ◌∷◌, ◌≡◌, ap, ◌∙◌, inl, inr, arith, leb,
  Bool-cases,
}
use highwire.Common.Bytes.{Bytes}
use highwire.Common.Int.{pos}
use highwire.Numbering.{decimal, long2decimal}

-- the number that the digits stand for
abbrev pub add_digit : ℕ → ℕ → ℕ
add_digit v c = v * 10 + (c - b'0')

abbrev pub digits_value : Bytes → ℕ
digits_value = foldl add_digit 0

value-decimal : (fuel l : ℕ) → l < fuel → digits_value (decimal fuel l) ≡ l
unfolding decimal
value-decimal zero l h = absurd (omega arith)
value-decimal (suc fuel) l h = elim (Bool-cases (leb 10 l)) [
  | inl long ↦ rw long (
      foldl-append add_digit 0 (decimal fuel (l / 10)) ((l % 10 + b'0') ∷ [])
      ∙ ap (λ v. add_digit v (l % 10 + b'0')) (value-decimal fuel (l / 10) (ground arith))
      ∙ omega arith)
  | inr short ↦ rw short (ground arith)
]

-- The digits of a number that is not negative give it back.
pub digits_value-long2decimal : (l : ℕ) → digits_value (long2decimal (pos l)) ≡ l
unfolding long2decimal
digits_value-long2decimal l = value-decimal (suc l) l (omega arith)
