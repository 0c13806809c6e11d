-- ===== src/Http/Date/Written.antt =====
-- `http_date` on dates as RFC 1123 and RFC 850 write them.
use highwire.Common.{
  ℕ, zero, suc, ◌+◌, ◌-◌, ◌*◌, ◌/◌, ◌%◌, ◌≤◌, ◌<◌, Bool, true, false, some, [], ◌∷◌, ◌++◌, ◌≡◌,
  refl, ap, ◌∙◌, arith, get_or, ◌==◌, if◌then◌else◌, ltb,
}
use highwire.Common.Every.{Every}
use highwire.Common.Bytes.{Bytes, head_byte, is_alpha, is_space, skip, same_nocase, within}
use highwire.Common.Int.{ℤ, pos}
use highwire.Common.Number.{
  two_digits, four_digits, strtol_10, strtol_10-two_digits, strtol_10-four_digits, skip-front,
  two-digit, digit-skip,
}
use highwire.Http.Date.{
  Tm, months, month_from, read_month, skip_one, full_year, number_2, behind_blanks, scan_2u,
  with_sec, with_min, with_time, read_year, with_month, behind_day, behind_weekday, http_tm,
}

abbrev pub month_name : ℕ → Bytes
month_name m = get_or months m []

pub month-read :
    (m : ℕ) (s : Bytes)
    → m < 12
    → (month_from 0 months (month_name m ++ s) ≡ (pos m, s))
      × (skip is_space (month_name m ++ s) ≡ month_name m ++ s)
      × (within b'0' b'3' (head_byte (month_name m ++ s)) ≡ false)
      × ((head_byte (month_name m ++ s) == b',') ≡ false)
unfolding month_from same_nocase
month-read zero s l = (refl, refl, refl, refl)
month-read (suc zero) s l = (refl, refl, refl, refl)
month-read (suc (suc zero)) s l = (refl, refl, refl, refl)
month-read (suc (suc (suc zero))) s l = (refl, refl, refl, refl)
month-read (suc (suc (suc (suc zero)))) s l = (refl, refl, refl, refl)
month-read (suc (suc (suc (suc (suc zero))))) s l = (refl, refl, refl, refl)
month-read (suc (suc (suc (suc (suc (suc zero)))))) s l = (refl, refl, refl, refl)
month-read (suc (suc (suc (suc (suc (suc (suc zero))))))) s l = (refl, refl, refl, refl)
month-read (suc (suc (suc (suc (suc (suc (suc (suc zero)))))))) s l = (refl, refl, refl, refl)
month-read (suc (suc (suc (suc (suc (suc (suc (suc (suc zero))))))))) s l = (refl, refl, refl, refl)
month-read (suc (suc (suc (suc (suc (suc (suc (suc (suc (suc zero)))))))))) s l =
    (refl, refl, refl, refl)
month-read (suc (suc (suc (suc (suc (suc (suc (suc (suc (suc (suc zero))))))))))) s l =
    (refl, refl, refl, refl)
month-read (suc (suc (suc (suc (suc (suc (suc (suc (suc (suc (suc (suc m)))))))))))) s l =
    absurd (omega arith)

-- hours, minutes and seconds
abbrev pub clock : ℕ → ℕ → ℕ → Bytes → Bytes
clock h m s t = two_digits h (b':' ∷ two_digits m (b':' ∷ two_digits s t))

number_2-two_digits :
    (n : ℕ) (s : Bytes) → n < 100 → number_2 (48 + n / 10) ((48 + n % 10) ∷ s) ≡ some (pos n, s)
number_2-two_digits n s l =
    let high = two-digit (n / 10) (omega arith) in
    let low = two-digit (n % 10) (omega arith) in
    let value : (48 + n / 10 - 48) * 10 + (48 + n % 10 - 48) ≡ n = omega arith in
    rw (high, low, value) refl

scan_2u-two_digits :
    (bs : Bytes) (n : ℕ) (s : Bytes)
    → Every (λ c. is_space c ≡ true) bs
    → n < 100
    → scan_2u (bs ++ two_digits n s) ≡ some (pos n, s)
unfolding scan_2u
scan_2u-two_digits bs n s b l =
    let high = two-digit (n / 10) (omega arith) in
    ap behind_blanks (
      skip-front is_space bs (two_digits n s) b ∙ digit-skip (48 + n / 10) ((48 + n % 10) ∷ s) high)
    ∙ number_2-two_digits n s l

with_time-clock :
    (tm : Tm) (h m n : ℕ) (t : Bytes)
    → h < 100
    → m < 100
    → n < 100
    → with_time tm (scan_2u (b' ' ∷ clock h m n t))
      ≡ record tm { hour = pos h; min = pos m; sec = pos n }
with_time-clock tm h m n t lh lm ln =
    let tm' = record tm { hour = pos h } in
    let tm'' = record tm { hour = pos h; min = pos m } in
    ap (with_time tm)
      (scan_2u-two_digits (b' ' ∷ []) h (b':' ∷ two_digits m (b':' ∷ two_digits n t)) (refl, tt) lh)
    ∙ ap (with_min tm') (scan_2u-two_digits [] m (b':' ∷ two_digits n t) tt lm)
    ∙ ap (with_sec tm'') (scan_2u-two_digits [] n t tt ln)

-- what the function makes of the parts of a date
abbrev pub tm_of : ℕ → ℕ → ℤ → ℕ → ℕ → ℕ → Tm
tm_of d m y h mi s = record {
  sec = pos s;
  min = pos mi;
  hour = pos h;
  mday = pos d;
  mon = pos m;
  year = y;
}

weekday-skip :
    (w s : Bytes)
    → Every (λ c. is_alpha c ≡ true) w
    → skip is_space (skip is_alpha (w ++ b',' ∷ s)) ≡ b',' ∷ s
weekday-skip w s h = ap (skip is_space) (skip-front is_alpha w (b',' ∷ s) h)

-- "Sun, 06 Nov 1994 08:49:37", and what follows
abbrev pub rfc1123 : Bytes → ℕ → ℕ → ℕ → ℕ → ℕ → ℕ → Bytes → Bytes
rfc1123 w d m y h mi s t =
    w
    ++ (b','
        ∷ b' '
        ∷ two_digits d (b' ' ∷ (month_name m ++ (b' ' ∷ four_digits y (b' ' ∷ clock h mi s t)))))

-- "Sunday, 06-Nov-94 08:49:37", and what follows
abbrev pub rfc850 : Bytes → ℕ → ℕ → ℕ → ℕ → ℕ → ℕ → Bytes → Bytes
rfc850 w d m y h mi s t =
    w
    ++ (b','
        ∷ b' '
        ∷ two_digits d (b'-' ∷ (month_name m ++ (b'-' ∷ two_digits y (b' ' ∷ clock h mi s t)))))

pub read_month-name :
    (asc : Bool) (m : ℕ) (s : Bytes) → m < 12 → read_month asc (month_name m ++ s) ≡ (pos m, s)
read_month-name true m s l = (month-read m s l).0
read_month-name false m s l = let (e, blank, digit, comma) = month-read m s l in rw digit e

-- from the month on, with a year that is read before the time
with_month-read :
    (d m y h mi n : ℕ) (s t : Bytes)
    → m < 12
    → h < 100
    → mi < 100
    → n < 100
    → strtol_10 (skip_one b'-' s) ≡ (pos y, b' ' ∷ clock h mi n t)
    → with_month (pos d) (read_month false (skip is_space (month_name m ++ s)))
      ≡ tm_of d m (full_year (pos y)) h mi n
with_month-read d m y h mi n s t lm lh lmi ln e =
    ap (λ b. with_month (pos d) (read_month false b)) (month-read m s lm).1
    ∙ ap (with_month (pos d)) (read_month-name false m s lm)
    ∙ ap (read_year (pos d) (pos m)) e
    ∙ with_time-clock (tm_of d m (full_year (pos y)) 0 0 0) h mi n t lh lmi ln

-- A date as RFC 1123 writes it, with any letters for the day of the week, is read as its parts, with
-- the years from 1900 on.
pub http_tm-rfc1123 :
    (w : Bytes) (d m y h mi n : ℕ) (t : Bytes)
    → Every (λ c. is_alpha c ≡ true) w
    → d < 100
    → m < 12
    → 1900 ≤ y
    → y < 10000
    → h < 100
    → mi < 100
    → n < 100
    → http_tm (rfc1123 w d m y h mi n t) ≡ some (tm_of d m (pos (y - 1900)) h mi n)
unfolding http_tm
http_tm-rfc1123 w d m y h mi n t lw ld lm from ly lh lmi ln =
    let year : full_year (pos y) ≡ pos (y - 1900) = ground arith in
    let rest = b' ' ∷ (month_name m ++ (b' ' ∷ four_digits y (b' ' ∷ clock h mi n t))) in
    ap behind_weekday (weekday-skip w (b' ' ∷ two_digits d rest) lw)
    ∙ ap (λ r. some (behind_day r)) (strtol_10-two_digits (b' ' ∷ []) d rest (refl, tt) ld refl)
    ∙ ap some (
        with_month-read d m y h mi n (b' ' ∷ four_digits y (b' ' ∷ clock h mi n t)) t lm lh lmi ln
          (strtol_10-four_digits (b' ' ∷ []) y (b' ' ∷ clock h mi n t) (refl, tt) ly refl))
    ∙ ap (λ y. some (tm_of d m y h mi n)) year

-- A date as RFC 850 writes it is read as its parts, with the years of the century from 1970 on.
pub http_tm-rfc850 :
    (w : Bytes) (d m y h mi n : ℕ) (t : Bytes)
    → Every (λ c. is_alpha c ≡ true) w
    → d < 100
    → m < 12
    → y < 100
    → h < 100
    → mi < 100
    → n < 100
    → http_tm (rfc850 w d m y h mi n t)
      ≡ some (tm_of d m (pos (if ltb y 70 then y + 100 else y)) h mi n)
unfolding http_tm
http_tm-rfc850 w d m y h mi n t lw ld lm ly lh lmi ln =
    let full : full_year (pos y) ≡ pos (if ltb y 70 then y + 100 else y) = ground arith in
    let year = two_digits y (b' ' ∷ clock h mi n t) in
    let rest = b'-' ∷ (month_name m ++ (b'-' ∷ year)) in
    ap behind_weekday (weekday-skip w (b' ' ∷ two_digits d rest) lw)
    ∙ ap (λ r. some (behind_day r)) (strtol_10-two_digits (b' ' ∷ []) d rest (refl, tt) ld refl)
    ∙ ap some (
        with_month-read d m y h mi n (b'-' ∷ year) t lm lh lmi ln
          (strtol_10-two_digits [] y (b' ' ∷ clock h mi n t) tt ly refl))
    ∙ ap (λ y. some (tm_of d m y h mi n)) full
