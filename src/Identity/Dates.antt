-- ===== src/Identity/Dates.antt =====
-- apps/api/src/modules/identity/normalise/date.ts: the forms in which the sources write a date. What
-- JavaScript's `Date` does with a text and with milliseconds is a parameter.
use securtxn.Prelude.{
  ℕ, ◌+◌, ◌-◌, ◌*◌, ◌%◌, Bool, true, false, not, ◌&&◌, ◌||◌, ◌==◌, leb, ltb, Option, none, some,
  List, [], ◌∷◌, ◌++◌, Text, codes, trim, length, all_of, if◌then◌else◌,
}
use mathlib.Core.Option

-- `Date`: a time in milliseconds since 1970, 0 for any before.
pub record DateRuntime : Type 0 where
  -- `new Date(text)`, none where it is invalid
  pub parse_native : Text → Option ℕ
  -- `Date.UTC(year, month - 1, day)`
  pub utc : ℕ → ℕ → ℕ → ℕ
  -- the calendar date of `toISOString`, as year, month and day
  pub iso_date : ℕ → ℕ × ℕ × ℕ

-- A date as it was read: a calendar date, which may lie before 1970, or a time.
pub data Moment : Type 0 where
  calendar : (year month day : ℕ) → Moment
  instant : (ms : ℕ) → Moment

pub data DateInput : Type 0 where
  missing other : DateInput
  finite_number : ℕ → DateInput
  text : Text → DateInput

abbrev pub is_digit : ℕ → Bool
is_digit c = leb b'0' c && leb c b'9'

abbrev digit : ℕ → ℕ
digit c = c - b'0'

abbrev number_from : ℕ → Text → ℕ
number_from n [] = n
number_from n (c ∷ t) = number_from (n * 10 + digit c) t

abbrev is_leap : ℕ → Bool
is_leap y = (y % 4 == 0 && not (y % 100 == 0)) || y % 400 == 0

abbrev days_in_month : ℕ → ℕ → ℕ
days_in_month y m =
    if m == 2
    then (if is_leap y then 29 else 28)
    else if (m == 4 || m == 6) || (m == 9 || m == 11)
    then 30
    else 31

-- Months and days out of range are refused, and so is a day that rolls over into the next month.
-- The years 0 to 99 roll over too, since `Date.UTC` takes them for 1900 to 1999.
unfoldable pub build_utc_date : ℕ → ℕ → ℕ → Option Moment
build_utc_date y m d =
    if (ltb m 1 || ltb 12 m) || (ltb d 1 || ltb 31 d)
    then none
    else if leb d (days_in_month y m) && leb 100 y
    then some (calendar y m d)
    else none

abbrev digits_of : Text → Option ℕ
digits_of t = if all_of is_digit t then some (number_from 0 t) else none

abbrev three : List (Option ℕ) → Option (ℕ × ℕ × ℕ)
three (some a ∷ some b ∷ some c ∷ []) = some (a, b, c)
three _ = none

abbrev separator : ℕ → Bool
separator c = c == b'/' || c == b'-'

-- `/^(\d{2})[/-](\d{2})[/-](\d{4})$/`
unfoldable pub day_first : Text → Option (ℕ × ℕ × ℕ)
day_first (a ∷ b ∷ s ∷ c ∷ d ∷ t ∷ e ∷ f ∷ g ∷ h ∷ []) =
    if separator s && separator t
    then three
        (digits_of (a ∷ b ∷ []) ∷ digits_of (c ∷ d ∷ []) ∷ digits_of (e ∷ f ∷ g ∷ h ∷ []) ∷ [])
    else none
day_first _ = none

-- `/^(\d{4})-(\d{2})-(\d{2})$/`
unfoldable pub iso_date_form : Text → Option (ℕ × ℕ × ℕ)
iso_date_form (e ∷ f ∷ g ∷ h ∷ s ∷ a ∷ b ∷ t ∷ c ∷ d ∷ []) =
    if s == b'-' && t == b'-'
    then three
        (digits_of (e ∷ f ∷ g ∷ h ∷ []) ∷ digits_of (a ∷ b ∷ []) ∷ digits_of (c ∷ d ∷ []) ∷ [])
    else none
iso_date_form _ = none

abbrev naive_tail : Text → Bool
naive_tail [] = true
naive_tail (p ∷ t) = p == b'.' && (all_of is_digit t && ltb 0 (length t))

-- `/^\d{4}-\d{2}-\d{2}T\d{2}:\d{2}:\d{2}(?:\.\d+)?$/`
abbrev is_naive : Text → Bool
is_naive (a ∷ b ∷ c ∷ d ∷ p ∷ e ∷ f ∷ q ∷ g ∷ h ∷ t ∷ i ∷ j ∷ r ∷ k ∷ l ∷ s ∷ m ∷ n ∷ rest) =
    all_of is_digit (a ∷ b ∷ c ∷ d ∷ e ∷ f ∷ g ∷ h ∷ i ∷ j ∷ k ∷ l ∷ m ∷ n ∷ [])
    && (((p == b'-' && q == b'-') && t == b'T') && ((r == b':' && s == b':') && naive_tail rest))
is_naive _ = false

-- `new Date(ms)`, which is invalid beyond 8.64e15
abbrev from_epoch_ms : ℕ → Option Moment
from_epoch_ms ms = if leb ms 8640000000000000 then some (instant ms) else none

abbrev from_native : DateRuntime → Text → Option Moment
from_native dates t = Option.map (λ ms. instant ms) (dates.parse_native t)

abbrev from_iso : DateRuntime → Text → Option (ℕ × ℕ × ℕ) → Option Moment
from_iso dates value none = from_native dates value
from_iso dates value (some (y, m, d)) = build_utc_date y m d

abbrev from_day_first : DateRuntime → Text → Option (ℕ × ℕ × ℕ) → Option Moment
from_day_first dates value (some (d, m, y)) = build_utc_date y m d
from_day_first dates value none =
    if is_naive value
    then from_native dates (value ++ codes "+05:30")
    else from_iso dates value (iso_date_form value)

abbrev pub parse_text : DateRuntime → Text → Option Moment
parse_text dates [] = none
parse_text dates (c ∷ t) =
    if all_of is_digit (c ∷ t) && leb 10 (length (c ∷ t))
    then from_epoch_ms (number_from 0 (c ∷ t))
    else from_day_first dates (c ∷ t) (day_first (c ∷ t))

unfoldable pub parse_flexible_date : DateRuntime → DateInput → Option Moment
parse_flexible_date dates missing = none
parse_flexible_date dates other = none
parse_flexible_date dates (finite_number ms) = from_epoch_ms ms
parse_flexible_date dates (text t) = parse_text dates (trim t)

abbrev iso_of : DateRuntime → Moment → ℕ × ℕ × ℕ
iso_of dates (calendar y m d) = (y, m, d)
iso_of dates (instant ms) = dates.iso_date ms

-- The text of a calendar date is determined by its three numbers, which stand for it here.
unfoldable pub to_iso_date : DateRuntime → DateInput → Option (ℕ × ℕ × ℕ)
to_iso_date dates i = Option.map (iso_of dates) (parse_flexible_date dates i)

abbrev pub same_date : Option (ℕ × ℕ × ℕ) → Option (ℕ × ℕ × ℕ) → Bool
same_date (some (y, m, d)) (some (y', m', d')) = y == y' && (m == m' && d == d')
same_date _ _ = false

unfoldable pub dates_match : DateRuntime → DateInput → DateInput → Bool
dates_match dates left right = same_date (to_iso_date dates left) (to_iso_date dates right)

-- `date.getTime()`
unfoldable pub get_time : DateRuntime → Moment → ℕ
get_time dates (calendar y m d) = dates.utc y m d
get_time dates (instant ms) = ms
