-- ===== src/Labels/Zones.antt =====
-- The names of time zones in their menu, frontend/src/App.tsx. `long_offset` is what the browser's
-- `Intl` calls a zone's offset at this moment, as in "GMT+02:00"; `none` where it throws or has no
-- such part.
use task_calendar.Base.{
  ℕ, zero, suc, ◌+◌, ◌*◌, ◌-◌, Bool, true, false, ◌&&◌, Option, none, some, List, [], ◌∷◌, ◌++◌,
  map, ◌==◌, if◌then◌else◌,
}
use task_calendar.Base.Int.{ℤ, pos, negsuc, ◌-ℤ◌}
use task_calendar.Base.Text.{Text, codes, split, replace_first}
use task_calendar.Base.Text.Decimal.{is_digit}

abbrev last_part : Text → List Text → Text
last_part default [] = default
last_part default (s ∷ []) = s
last_part default (s ∷ t ∷ parts) = last_part default (t ∷ parts)

-- The last part of "Area/City", with blanks for its underscores.
unfoldable pub get_timezone_city : Text → Text
unfolding split
get_timezone_city timezone =
    map (λ c. if c == b'_' then 32 else c) (last_part timezone (split timezone b'/'))

abbrev sign_of : ℕ → Option Bool
sign_of c = if c == b'+' then some true else if c == b'-' then some false else none

abbrev digit_of : ℕ → ℕ
digit_of c = c - b'0'

-- `:?(\d{2})?` at a place; no digits are 0.
abbrev minutes_at : Text → ℕ
minutes_at (x ∷ a ∷ b ∷ rest) =
    if x == b':'
    then (if is_digit a && is_digit b then digit_of a * 10 + digit_of b else 0)
    else if is_digit x && is_digit a
    then digit_of x * 10 + digit_of a
    else 0
minutes_at (x ∷ a ∷ []) = if is_digit x && is_digit a then digit_of x * 10 + digit_of a else 0
minutes_at _ = 0

abbrev signed_minutes : Bool → ℕ → ℤ
signed_minutes true n = pos n
signed_minutes false zero = pos 0
signed_minutes false (suc n) = negsuc n

abbrev signed_at : Option Bool → ℕ → ℕ → Text → Option ℤ
signed_at none a b rest = none
signed_at (some positive) a b rest =
    if is_digit a && is_digit b
    then some (signed_minutes positive ((digit_of a * 10 + digit_of b) * 60 + minutes_at rest))
    else none

-- `/GMT([+-])(\d{2}):?(\d{2})?/` at the start of a text.
abbrev offset_at : Text → Option ℤ
offset_at (g ∷ m ∷ t ∷ sign ∷ a ∷ b ∷ rest) =
    if (g == b'G') && (m == b'M') && (t == b'T') then signed_at (sign_of sign) a b rest else none
offset_at _ = none

-- The first place where it matches.
abbrev first_offset : Text → Option ℤ
first_offset [] = none
first_offset (c ∷ s) = elim (offset_at (c ∷ s)) [ some n ↦ some n | none ↦ first_offset s ]

abbrev minutes_of : Option Text → ℤ
minutes_of none = pos 0
minutes_of (some text) = elim (first_offset text) [ some n ↦ n | none ↦ pos 0 ]

module _ (long_offset : Text → Option Text) where
  abbrev offset_text : Option Text → Text
  offset_text none = codes "UTC"
  offset_text (some []) = codes "UTC"
  offset_text (some (c ∷ s)) = replace_first (codes "GMT") (codes "UTC") (c ∷ s)

  unfoldable pub format_timezone_offset : Text → Text
  unfolding replace_first
  format_timezone_offset timezone = offset_text (long_offset timezone)

  unfoldable pub format_timezone_label : Text → Text
  unfolding get_timezone_city format_timezone_offset
  format_timezone_label timezone =
      get_timezone_city timezone ++ codes " (" ++ format_timezone_offset timezone ++ codes ")"

  -- A text without a sign and digits, as "GMT" and "UTC", is no offset.
  unfoldable pub get_timezone_offset_minutes : Text → ℤ
  unfolding is_digit
  get_timezone_offset_minutes timezone = minutes_of (long_offset timezone)

  abbrev by_offset : ℤ → ℤ → ℤ
  by_offset (pos zero) labels = labels
  by_offset (pos (suc n)) labels = pos (suc n)
  by_offset (negsuc n) labels = negsuc n

  unfoldable pub compare_timezones_by_utc : (Text → Text → ℤ) → Text → Text → ℤ
  unfolding get_timezone_offset_minutes format_timezone_label
  compare_timezones_by_utc locale_compare left right =
      by_offset (get_timezone_offset_minutes left -ℤ get_timezone_offset_minutes right)
        (locale_compare (format_timezone_label left) (format_timezone_label right))
