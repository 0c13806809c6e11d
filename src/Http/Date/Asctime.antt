-- ===== src/Http/Date/Asctime.antt =====
-- `http_date` on dates as `asctime` writes them, and on texts of letters.
use highwire.Common.{
  Bool-cases, inl, inr, false, ltb, if◌then◌else◌, ℕ, ◌+◌, ◌<◌, true, some, none, [], ◌∷◌, ◌++◌,
  ◌≡◌, refl, ap, ◌∙◌, arith,
}
use mathlib.Core.Path.{subst}
use mathlib.Core.List.{append-nil}
use highwire.Common.Every.{Every}
use highwire.Common.Bytes.{Bytes, head_byte, is_digit, is_alpha, is_space, skip, same_nocase}
use highwire.Common.Int.{pos}
use highwire.Common.Number.{
  long_of, decimal_from, two-digit, strtol_10-digits, two_digits, four_digits, strtol_10,
  strtol_10-two_digits, skip-front,
}
use highwire.Http.Date.{
  read_month, read_year, skip_one, full_year, scan_2u, behind_month, behind_weekday, http_tm,
  month_from,
}
use highwire.Http.Date.Written.{month_name, month-read, read_month-name, clock, tm_of}

-- the day in two places, with a blank for a first digit of 0
abbrev pub day_of_two : ℕ → Bytes → Bytes
day_of_two d s = if ltb d 10 then b' ' ∷ (48 + d) ∷ s else two_digits d s

-- "Sun Nov  6 08:49:37 1994", and what follows
abbrev pub asctime : Bytes → ℕ → ℕ → ℕ → ℕ → ℕ → ℕ → Bytes → Bytes
asctime w d m y h mi s t =
    w
    ++ (b' '
        ∷ (month_name m ++ (b' ' ∷ day_of_two d (b' ' ∷ clock h mi s (b' ' ∷ four_digits y t)))))

strtol_10-day_of_two :
    (d : ℕ) (s : Bytes)
    → d < 100
    → is_digit (head_byte s) ≡ false
    → strtol_10 (day_of_two d s) ≡ (pos d, s)
strtol_10-day_of_two d s l e = elim (Bool-cases (ltb d 10)) [
  | inl one ↦
      let digit = two-digit d (ground (arith, one)) in
      let value : long_of false (decimal_from 0 ((48 + d) ∷ [])) ≡ pos d = ground arith in
      rw one
        (strtol_10-digits (b' ' ∷ []) (48 + d) [] s (refl, tt) digit tt e ∙ ap (λ v. (v, s)) value)
  | inr two ↦ rw two (strtol_10-two_digits [] d s tt l e)
]

-- The hour of a date as `asctime` writes it, where the time stands before the year, is taken for the
-- year, and the time is midnight.
pub http_tm-asctime :
    (w : Bytes) (d m y h mi n : ℕ) (t : Bytes)
    → Every (λ c. is_alpha c ≡ true) w
    → d < 100
    → m < 12
    → h < 24
    → http_tm (asctime w d m y h mi n t) ≡ some (tm_of d m (pos (h + 100)) 0 0 0)
unfolding http_tm scan_2u
http_tm-asctime w d m y h mi n t lw ld lm lh =
    let year : full_year (pos h) ≡ pos (h + 100) = ground arith in
    let rest = b':' ∷ two_digits mi (b':' ∷ two_digits n (b' ' ∷ four_digits y t)) in
    let day = b' ' ∷ day_of_two d (b' ' ∷ two_digits h rest) in
    let (e, blank, digit, comma) = month-read m day lm in
    let skipped : skip is_space (skip is_alpha (w ++ (b' ' ∷ (month_name m ++ day))))
        ≡ month_name m ++ day =
      ap (skip is_space) (skip-front is_alpha w (b' ' ∷ (month_name m ++ day)) lw) ∙ blank in
    let dated : behind_weekday (month_name m ++ day)
        ≡ behind_month (read_month true (month_name m ++ day)) =
      rw (comma, blank) refl in
    ap behind_weekday skipped
    ∙ dated
    ∙ ap behind_month (read_month-name true m day lm)
    ∙ ap (λ r. some (read_year r.0 (pos m) (strtol_10 (skip_one b',' r.1))))
        (strtol_10-day_of_two d (b' ' ∷ two_digits h rest) ld refl)
    ∙ ap (λ r. some (read_year (pos d) (pos m) r))
        (strtol_10-two_digits (b' ' ∷ []) h rest (refl, tt) (omega arith) refl)
    ∙ ap (λ y. some (tm_of d m y 0 0 0)) year

-- A text of letters only is left behind its NUL.
pub http_tm_letters : (w : Bytes) → Every (λ c. is_alpha c ≡ true) w → http_tm w ≡ none
unfolding http_tm month_from same_nocase
http_tm_letters w h =
    let nul : skip is_alpha w ≡ [] =
      subst (λ v. skip is_alpha v ≡ []) (append-nil w) (skip-front is_alpha w [] h) in
    ap (λ s. behind_weekday (skip is_space s)) nul
