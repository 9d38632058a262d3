-- ===== src/Clock/Keys.antt =====
-- Date keys, the texts `YYYY-MM-DD` by which days are told apart and compared, and the texts that
-- forms and requests hold, frontend/src/App.tsx. `none` is an exception: a date that is not valid
-- cannot be formatted.
use task_calendar.Base.{
  ℕ, ◌+◌, Bool, true, false, not, ◌&&◌, ◌||◌, Option, none, some, [], ◌∷◌, ◌++◌, take, ltb, ◌==◌,
  max, if◌then◌else◌,
}
use task_calendar.Base.Int.{ℤ, ltb_ℤ}
use task_calendar.Base.Text.{Text, codes, is_empty, split, text_eq, replace_first}
use task_calendar.Base.Text.Decimal.{pad2}
use task_calendar.Clock.{
  ◌>>=◌, date_numbers, zoned_date_time_to_iso, get_timezone_date_key, date_to_date_time_local_value,
}
use task_calendar.Clock.Civil.{fields_of, utc_ms, to_iso, iso_year, time_clip}
use task_calendar.Input.{split_date_time_input_value, is_complete_date_time_value}
use task_calendar.Platform.{Platform}

-- `a < b` on texts.
unfoldable pub text_lt : Text → Text → Bool
text_lt s [] = false
text_lt [] (b ∷ t) = true
text_lt (a ∷ s) (b ∷ t) = ltb a b || ((a == b) && text_lt s t)

-- `a < b` on dates; an invalid date is neither before nor after another.
unfoldable pub date_lt : Option ℤ → Option ℤ → Bool
date_lt none b = false
date_lt (some a) none = false
date_lt (some a) (some b) = ltb_ℤ a b

-- The calendar's dates carry a wall clock in their UTC fields.
unfoldable pub calendar_date_to_date_time_local_value : ℤ → Text
calendar_date_to_date_time_local_value date =
    let p = fields_of date in
    iso_year p.year
    ++ b'-' ∷ pad2 p.month
    ++ b'-' ∷ pad2 p.day
    ++ b'T' ∷ pad2 p.hour
    ++ b':' ∷ pad2 p.minute

unfoldable pub calendar_date_to_date_input_value : ℤ → Text
unfolding calendar_date_to_date_time_local_value
calendar_date_to_date_input_value date = take 10 (calendar_date_to_date_time_local_value date)

unfoldable pub get_calendar_date_key : ℤ → Text
get_calendar_date_key date =
    let p = fields_of date in iso_year p.year ++ b'-' ∷ pad2 p.month ++ b'-' ∷ pad2 p.day

unfoldable pub date_only_to_api_date_time : Text → Text
date_only_to_api_date_time value = value ++ codes "T00:00:00"

unfoldable pub to_all_day_calendar_date : Text → Text
to_all_day_calendar_date value = take 10 value

abbrev shifted_date : Option (ℕ × ℕ × ℕ) → ℕ → Option Text
shifted_date none days = none
shifted_date (some (year, month, day)) days = do
  t ← time_clip (utc_ms year month (day + days) 0 0 0)
  some (take 10 (to_iso t))

-- `addCalendarDateDays` and `addTimezoneDateKey`, which have one body.
unfoldable pub add_calendar_date_days : Text → ℕ → Option Text
add_calendar_date_days value days = shifted_date (date_numbers (split value b'-')) days

unfoldable pub add_timezone_date_key : Text → ℕ → Option Text
unfolding add_calendar_date_days
add_timezone_date_key value days = add_calendar_date_days value days

module _ (p : Platform) where
  abbrev key_of : Option ℤ → Text → Option Text
  key_of none timezone = none
  key_of (some t) timezone = some (get_timezone_date_key p.offset t timezone)

  unfoldable pub is_same_local_day : Option ℤ → Option ℤ → Text → Option Bool
  is_same_local_day left right timezone = do
    l ← key_of left timezone
    r ← key_of right timezone
    some (text_eq l r)

  unfoldable pub is_before_local_day : Option ℤ → Option ℤ → Text → Option Bool
  is_before_local_day left right timezone = do
    l ← key_of left timezone
    r ← key_of right timezone
    some (text_lt l r)

  unfoldable pub is_within_upcoming_days : Option ℤ → Option ℤ → ℕ → Text → Option Bool
  unfolding text_lt add_timezone_date_key
  is_within_upcoming_days value now days timezone = do
    start ← key_of now timezone
    end ← add_timezone_date_key start (max 1 days)
    value_date ← key_of value timezone
    some (not (text_lt value_date start) && text_lt value_date end)

  unfoldable pub is_date_within_calendar_range : Option ℤ → ℤ → Option ℤ → Text → Option Bool
  is_date_within_calendar_range date range_start none timezone = some false
  is_date_within_calendar_range date range_start (some range_end) timezone = do
    date_key ← key_of date timezone
    some (
        not (text_lt date_key (get_calendar_date_key range_start))
        && text_lt date_key (get_calendar_date_key range_end))

  unfoldable pub to_date_time_local_value : Option Text → Text → Option Text
  to_date_time_local_value none timezone = some []
  to_date_time_local_value (some []) timezone = some []
  to_date_time_local_value (some (c ∷ s)) timezone = do
    t ← p.parse_date (c ∷ s)
    some (date_to_date_time_local_value p.offset t timezone)

  unfoldable pub date_time_to_calendar_wall_clock : Text → Text → Option Text
  date_time_to_calendar_wall_clock value timezone = do
    t ← p.parse_date value
    some (date_to_date_time_local_value p.offset t timezone)

  unfoldable pub to_date_input_value : Text → Text → Option Text
  to_date_input_value value timezone = key_of (p.parse_date value) timezone

  -- `none` is an exception, `some none` is null.
  unfoldable pub to_iso_or_null : Text → Text → Option (Option Text)
  to_iso_or_null value timezone =
      if is_complete_date_time_value value
      then (zoned_date_time_to_iso p.offset value timezone >>= λ iso. some (some iso))
      else some none

  unfoldable pub get_date_only_scheduled_start_iso : Text → Text → Option (Option Text)
  unfolding split_date_time_input_value
  get_date_only_scheduled_start_iso value timezone =
      let parts = split_date_time_input_value value in
      if not (is_empty parts.date_part) && is_empty parts.time_part
      then (zoned_date_time_to_iso p.offset (parts.date_part ++ codes "T00:00") timezone >>= λ iso.
          some (some iso))
      else some none

  -- `replace(".000Z", ".999Z")` changes the first place where the text occurs.
  abbrev end_of_second : Text → Text
  end_of_second iso = replace_first (codes ".000Z") (codes ".999Z") iso

  unfoldable pub end_of_local_date_to_iso : Text → Text → Option Text
  end_of_local_date_to_iso value timezone = do
    iso ← zoned_date_time_to_iso p.offset (value ++ codes "T23:59:59") timezone
    t ← p.parse_date iso
    some (end_of_second (to_iso t))

  unfoldable pub is_valid_time_range : Text → Text → Bool
  is_valid_time_range start end =
      not (is_complete_date_time_value start)
      || not (is_complete_date_time_value end)
      || date_lt (p.parse_date start) (p.parse_date end)

  -- `none` stands for NaN: the text's first ten characters are shown.
  unfoldable pub format_backup_date : Text → Text
  format_backup_date value = elim (p.parse_date value) [
    | none ↦ take 10 value
    | some t ↦ take 10 (to_iso t)
  ]
