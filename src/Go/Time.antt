-- ===== src/Go/Time.antt =====
-- time.Time in UTC: nanoseconds since 0000-01-01, a range in which every date that
-- `time.DateOnly` can write lies. Parsing and formatting of that layout, and `AddDate` by days.
use maroon_ledger.Base.{
  ℕ, zero, suc, ◌+◌, ◌-◌, ◌*◌, ◌/◌, ◌%◌, ◌≡◌, refl, Bool, ◌&&◌, ◌||◌, not, Option, none, some, [],
  ◌∷◌, ◌++◌, ltb, leb, ◌==◌, if◌then◌else◌,
}
use maroon_ledger.Go.Bytes.{Bytes, bytes}
use maroon_ledger.Go.Strconv.{is_digit, itoa_nat}

abbrev pub day_nanos : ℕ
day_nanos = 86400000000000

-- The seconds (Unix) and nanoseconds (UnixNano) since 1970-01-01; the clock shows no time before.
abbrev pub unix_nano : ℕ → ℕ
unix_nano t = t - 719528 * day_nanos

abbrev pub unix : ℕ → ℕ
unix t = unix_nano t / 1000000000

abbrev is_leap : ℕ → Bool
is_leap y = y % 4 == 0 && (not (y % 100 == 0) || y % 400 == 0)

abbrev days_in : ℕ → ℕ → ℕ
days_in y m =
    if m == 2
    then (if is_leap y then 29 else 28)
    else if m == 4 || (m == 6 || (m == 9 || m == 11))
    then 30
    else 31

-- The days of the months before month `m`.
days_before : ℕ → ℕ → ℕ
days_before y zero = 0
days_before y (suc zero) = 0
days_before y (suc (suc m)) = days_before y (suc m) + days_in y (suc m)

-- The days of the years before `y`; year 0 is a leap year.
abbrev year_start : ℕ → ℕ
year_start y = 365 * y + (y + 3) / 4 - (y + 99) / 100 + (y + 399) / 400

abbrev digit : ℕ → ℕ
digit c = c - b'0'

valid_date : ℕ → ℕ → ℕ → Option ℕ
unfolding days_before
valid_date y m d =
    if leb 1 m && (leb m 12 && (leb 1 d && leb d (days_in y m)))
    then some ((year_start y + days_before y m + (d - 1)) * day_nanos)
    else none

-- time.Parse(time.DateOnly, s)
unfoldable pub parse_date : Bytes → Option ℕ
unfolding valid_date
parse_date (a ∷ b ∷ c ∷ d ∷ h ∷ e ∷ f ∷ i ∷ j ∷ k ∷ []) =
    if is_digit a
      && is_digit b
      && is_digit c
      && is_digit d
      && h == b'-'
      && is_digit e
      && is_digit f
      && i == b'-'
      && is_digit j
      && is_digit k
    then valid_date (digit a * 1000 + digit b * 100 + digit c * 10 + digit d)
        (digit e * 10 + digit f) (digit j * 10 + digit k)
    else none
parse_date _ = none

-- The year whose first day is at or before day `n`: an estimate, one too large at most.
abbrev year_of : ℕ → ℕ
year_of n = let y = (n * 400 + 400) / 146097 in if ltb n (year_start y) then y - 1 else y

-- The month that holds day `n` of the year: from `m` on, `left` months are to be tried.
month_from : ℕ → ℕ → ℕ → ℕ → ℕ × ℕ
month_from zero y m n = (m, n + 1)
month_from (suc left) y m n =
    let later = month_from left y (m + 1) (n - days_in y m) in
    if ltb n (days_in y m) then (m, n + 1) else later

abbrev two_digits : ℕ → Bytes
two_digits n = (b'0' + n / 10 % 10) ∷ (b'0' + n % 10) ∷ []

abbrev civil : ℕ → ℕ × ℕ → Bytes
civil y (m, d) =
    two_digits (y / 100) ++ (two_digits (y % 100) ++ b'-' ∷ (two_digits m ++ b'-' ∷ two_digits d))

-- t.Format(time.DateOnly)
unfoldable pub format_date : ℕ → Bytes
unfolding month_from
format_date t =
    let n = t / day_nanos in let y = year_of n in civil y (month_from 11 y 1 (n - year_start y))

abbrev month_name : ℕ → Bytes
month_name m =
    if m == 1
    then bytes "Jan"
    else if m == 2
    then bytes "Feb"
    else if m == 3
    then bytes "Mar"
    else if m == 4
    then bytes "Apr"
    else if m == 5
    then bytes "May"
    else if m == 6
    then bytes "Jun"
    else if m == 7
    then bytes "Jul"
    else if m == 8
    then bytes "Aug"
    else if m == 9
    then bytes "Sep"
    else if m == 10
    then bytes "Oct"
    else if m == 11
    then bytes "Nov"
    else bytes "Dec"

abbrev spoken : ℕ → ℕ × ℕ → Bytes
spoken y (m, d) =
    itoa_nat d ++ b' ' ∷ (month_name m ++ b' ' ∷ (two_digits (y / 100) ++ two_digits (y % 100)))

-- t.Format("2 Jan 2006")
unfoldable pub format_spoken : ℕ → Bytes
unfolding month_from
format_spoken t =
    let n = t / day_nanos in let y = year_of n in spoken y (month_from 11 y 1 (n - year_start y))

-- t.AddDate(0, 0, days) and t.AddDate(0, 0, -days)
abbrev pub add_days : ℕ → ℕ → ℕ
add_days t days = t + days * day_nanos

abbrev pub sub_days : ℕ → ℕ → ℕ
sub_days t days = t - days * day_nanos

-- time.Date(t.Year(), t.Month(), t.Day(), 0, 0, 0, 0, time.UTC)
abbrev pub start_of_day : ℕ → ℕ
start_of_day t = t / day_nanos * day_nanos

parse_epoch : parse_date (bytes "1970-01-01") ≡ some (719528 * day_nanos)
unfolding parse_date bytes
parse_epoch = refl

parse_leap_day : parse_date (bytes "2023-02-29") ≡ none
unfolding parse_date bytes
parse_leap_day = refl

format_parse : format_date (20522 * day_nanos + 719528 * day_nanos + 5) ≡ bytes "2026-03-10"
unfolding format_date bytes
format_parse = refl

format_new_year : format_date (366 * day_nanos - 1) ≡ bytes "0000-12-31"
unfolding format_date bytes
format_new_year = refl

format_spoken_day : format_spoken (20522 * day_nanos + 719528 * day_nanos + 5) ≡ bytes "10 Mar 2026"
unfolding format_spoken itoa_nat bytes
format_spoken_day = refl
