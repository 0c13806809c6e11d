-- ===== src/Http/Date.antt =====
-- src/http.c: `http_date`. `none` is a step over the NUL at the end of the text.
pub mod Written
pub mod Asctime
use highwire.Common.{
  ℕ, zero, suc, ◌+◌, ◌-◌, ◌*◌, Bool, true, false, not, ◌&&◌, ◌||◌, Option, none, some, List, [],
  ◌∷◌, length, drop, ◌==◌, if◌then◌else◌, ◌>>=◌, ltb, leb,
}
use highwire.Common.Bytes.{
  Bytes, codes, head_byte, within, is_alpha, is_digit, is_space, skip, same_nocase,
}
use highwire.Common.Int.{ℤ, pos, negsuc, minus, ltb_ℤ, ◌+ℤ◌, ◌-ℤ◌}
use highwire.Common.Number.{strtol_10}

-- the fields of `struct tm` that the function fills
pub record Tm : Type 0 where
  pub sec : ℤ
  pub min : ℤ
  pub hour : ℤ
  pub mday : ℤ
  pub mon : ℤ
  pub year : ℤ

abbrev pub months : List Bytes
months =
    codes "Jan"
    ∷ codes "Feb"
    ∷ codes "Mar"
    ∷ codes "Apr"
    ∷ codes "May"
    ∷ codes "Jun"
    ∷ codes "Jul"
    ∷ codes "Aug"
    ∷ codes "Sep"
    ∷ codes "Oct"
    ∷ codes "Nov"
    ∷ codes "Dec"
    ∷ []

-- the loop over `mon`: tm_mon and `beg`
unfoldable pub month_from : ℕ → List Bytes → Bytes → ℤ × Bytes
month_from i [] beg = (negsuc 0, beg)
month_from i (m ∷ ms) beg =
    let later = month_from (suc i) ms beg in
    if same_nocase beg m 3 then (pos i, drop 3 beg) else later

-- a month, or its number before a date of the weekday form
abbrev pub read_month : Bool → Bytes → ℤ × Bytes
read_month asc beg =
    let (n, end) = strtol_10 beg in
    if not asc && within b'0' b'3' (head_byte beg)
    then (n -ℤ pos 1, end)
    else month_from 0 months beg

-- `if (*beg == c) beg++;`
abbrev pub skip_one : ℕ → Bytes → Bytes
skip_one c [] = []
skip_one c (d ∷ s) = if d == c then s else d ∷ s

abbrev pub full_year : ℤ → ℤ
full_year (pos n) = if ltb n 70 then pos (n + 100) else if leb 1900 n then pos (n - 1900) else pos n
full_year (negsuc n) = negsuc n

-- one or two digits with a sign or without, two bytes at most; stored to an `int`
abbrev pub number_2 : ℕ → Bytes → Option (ℤ × Bytes)
number_2 c [] = if is_digit c then some (pos (c - 48), []) else none
number_2 c (d ∷ s) =
    if is_digit c
    then if is_digit d then some (pos ((c - 48) * 10 + (d - 48)), s) else some (pos (c - 48), d ∷ s)
    else if (c == b'-' || c == b'+') && is_digit d
    then some (if c == b'-' then minus 0 (d - 48) else pos (d - 48), s)
    else none

abbrev pub behind_blanks : Bytes → Option (ℤ × Bytes)
behind_blanks [] = none
behind_blanks (c ∷ s) = number_2 c s

-- `%2u`
unfoldable pub scan_2u : Bytes → Option (ℤ × Bytes)
scan_2u s = behind_blanks (skip is_space s)

-- a colon of the format, which must be there
abbrev pub colon : Bytes → Option Bytes
colon [] = none
colon (c ∷ s) = if c == b':' then some s else none

abbrev pub with_sec : Tm → Option (ℤ × Bytes) → Tm
with_sec tm none = tm
with_sec tm (some (n, s)) = record tm { sec = n }

abbrev pub with_min : Tm → Option (ℤ × Bytes) → Tm
with_min tm none = tm
with_min tm (some (n, s)) = with_sec (record tm { min = n }) (colon s >>= scan_2u)

-- `sscanf (beg, "%2u:%2u:%2u", ...)`
abbrev pub with_time : Tm → Option (ℤ × Bytes) → Tm
with_time tm none = tm
with_time tm (some (n, s)) = with_min (record tm { hour = n }) (colon s >>= scan_2u)

-- the year and the time
abbrev pub read_year : ℤ → ℤ → ℤ × Bytes → Tm
read_year mday mon (year, beg) =
    with_time
      record {
        sec = pos 0;
        min = pos 0;
        hour = pos 0;
        mday = mday;
        mon = mon;
        year = full_year year;
      }
      (scan_2u beg)

-- `asctime` form, from behind the month on
abbrev pub behind_month : ℤ × Bytes → Option Tm
behind_month (mon, []) = none
behind_month (mon, c ∷ beg) =
    let (mday, end) = strtol_10 beg in some (read_year mday mon (strtol_10 (skip_one b',' end)))

abbrev pub with_month : ℤ → ℤ × Bytes → Tm
with_month mday (mon, beg) = read_year mday mon (strtol_10 (skip_one b'-' beg))

-- the forms with a comma, from behind it and behind the day
abbrev pub behind_day : ℤ × Bytes → Tm
behind_day (mday, end) = with_month mday (read_month false (skip is_space (skip_one b'-' end)))

abbrev pub behind_weekday : Bytes → Option Tm
behind_weekday beg =
    if head_byte beg == b','
    then some (behind_day (strtol_10 (drop 1 beg)))
    else behind_month (read_month true (skip is_space beg))

unfoldable pub http_tm : Bytes → Option Tm
http_tm beg = behind_weekday (skip is_space (skip is_alpha beg))

abbrev pub not_negative : ℤ → ℤ
not_negative d = if ltb_ℤ (pos 0) d then d else pos 0

-- `mktime` gives the time and whether tm_isdst is positive.
unfoldable pub http_date : (Tm → ℤ × Bool) → ℤ → Bytes → Option ℤ
http_date mktime timezone beg = http_tm beg >>= λ tm.
    let (date, dst) = mktime tm in
    some (not_negative (date +ℤ (if dst then pos 3600 else pos 0) -ℤ timezone))
