-- ===== src/Input.antt =====
-- The text inputs of the task form, frontend/src/App.tsx: date and time parts, and counts.
pub mod Laws
use task_calendar.Base.{
  ℕ, Bool, true, false, not, ◌&&◌, ◌||◌, Option, none, some, List, [], ◌∷◌, ◌++◌, length, take,
  drop, filter, leb, ltb, ◌==◌, if◌then◌else◌,
}
use task_calendar.Base.Int.{ℤ, pos, negsuc}
use task_calendar.Base.Text.{Text, codes, is_empty, split}
use task_calendar.Base.Text.Decimal.{is_digit, parse_int}

-- A negative number and NaN both count as 0.
abbrev count_of : Option ℤ → ℕ
count_of none = 0
count_of (some (pos n)) = n
count_of (some (negsuc n)) = 0

unfoldable pub parse_positive_integer_or_zero : Text → ℕ
parse_positive_integer_or_zero value = count_of (parse_int value)

pub record DateTimeParts : Type 0 where
  pub date_part : Text
  pub time_part : Text

-- `const [datePart, rawTimePart = ""] = value.split("T", 2)`
abbrev parts_of : List Text → DateTimeParts
parts_of [] = record { date_part = []; time_part = [] }
parts_of (date_part ∷ []) = record { date_part = date_part; time_part = [] }
parts_of (date_part ∷ raw_time_part ∷ _) = record {
  date_part = date_part;
  time_part = take 5 raw_time_part;
}

-- The early return for an empty value is the same as splitting it.
unfoldable pub split_date_time_input_value : Text → DateTimeParts
split_date_time_input_value value =
    if is_empty value
    then record { date_part = []; time_part = [] }
    else parts_of (split value b'T')

unfoldable pub combine_date_time_input_value : Text → Text → Text
combine_date_time_input_value date_part time_part =
    if is_empty date_part && is_empty time_part then [] else date_part ++ b'T' ∷ time_part

unfoldable pub sanitize_time_input_value : Text → Text
unfolding is_digit
sanitize_time_input_value value =
    let digits = take 4 (filter is_digit value) in
    if leb (length digits) 2 then digits else take 2 digits ++ b':' ∷ drop 2 digits

-- `/^([01]\d|2[0-3]):[0-5]\d$/`
unfoldable pub is_clock_time : Text → Bool
unfolding is_digit
is_clock_time (h ∷ k ∷ colon ∷ m ∷ n ∷ []) =
    (((h == b'0' || h == b'1') && is_digit k) || (h == b'2' && (leb b'0' k && leb k b'3')))
    && colon == b':'
    && (leb b'0' m && leb m b'5')
    && is_digit n
is_clock_time _ = false

unfoldable pub is_complete_date_time_value : Text → Bool
unfolding split_date_time_input_value is_clock_time
is_complete_date_time_value value =
    let parts = split_date_time_input_value value in
    not (is_empty parts.date_part) && is_clock_time parts.time_part

unfoldable pub has_incomplete_date_time_value : Text → Bool
unfolding is_complete_date_time_value
has_incomplete_date_time_value value =
    if is_empty value then false else not (is_complete_date_time_value value)
