-- ===== src/Clock.antt =====
-- Instants, wall clocks and their texts, frontend/src/App.tsx. An instant is a JavaScript time
-- value, in milliseconds since 1970 UTC. Two things come from outside and are parameters: `offset`,
-- what `Intl.DateTimeFormat` knows of a time zone (wall clock minus UTC at an instant), and
-- `parse_date`, the time value of `new Date(text)`, `none` where that is an invalid date.
pub mod Civil
pub mod Zoned
pub mod Keys
pub mod Shown
use task_calendar.Base.{
  ℕ, zero, suc, ◌+◌, ◌-◌, ◌*◌, ◌/◌, ◌%◌, Bool, true, false, not, ◌&&◌, ◌||◌, Option, none, some,
  List, [], ◌∷◌, ◌++◌, length, take, all, ltb, leb, or_else, if◌then◌else◌, is_some, ◌≡◌, refl,
  arith,
}
use task_calendar.Base.Int.{ℤ, pos, negsuc, pos_part, ◌+ℤ◌, ◌-ℤ◌, ltb_ℤ, leb_ℤ}
use task_calendar.Base.Text.{Text, codes, is_empty, truthy, split, text_eq}
use task_calendar.Base.Text.Decimal.{show, pad2, is_digit, scan_digits}
use task_calendar.Clock.Civil.{
  Fields, fields_of, day_ms, utc_ms, to_iso, shown_year, year_text, time_clip,
}
use task_calendar.Input.{split_date_time_input_value, is_complete_date_time_value}

infixl 5 ◌>>=◌
abbrev pub ◌>>=◌ {ℓ κ} : {A : Type ℓ} {B : Type κ} → Option A → (A → Option B) → Option B
none >>= f = none
some a >>= f = f a

-- What a chain of two options gives.
pub chained {ℓ κ} :
    {A : Type ℓ} {B : Type κ} (o : Option A) (f : A → Option B) (b : B)
    → (o >>= f) ≡ some b
    → (a : A) × (o ≡ some a) × (f a ≡ some b)
chained none f b h = absurd (ground (arith, h))
chained (some a) f b h = (a, refl, h)

-- `Number(text)` on the texts that date and time inputs hold: decimal digits, or nothing. Any other
-- text counts as NaN here.
unfoldable pub to_number : Text → Option ℕ
unfolding is_digit
to_number text = if all is_digit text then some (scan_digits 0 text) else none

-- `const [year, month, day] = datePart.split("-").map(Number)`; a missing part is NaN.
abbrev pub date_numbers : List Text → Option (ℕ × ℕ × ℕ)
date_numbers (y ∷ m ∷ d ∷ _) = do
  year ← to_number y
  month ← to_number m
  day ← to_number d
  some (year, month, day)
date_numbers _ = none

-- `const [hour, minute, second = 0] = timePart.split(":").map(Number)`
abbrev pub time_numbers : List Text → Option (ℕ × ℕ × ℕ)
time_numbers (h ∷ m ∷ []) = do hour ← to_number h; minute ← to_number m; some (hour, minute, 0)
time_numbers (h ∷ m ∷ s ∷ _) = do
  hour ← to_number h
  minute ← to_number m
  second ← to_number s
  some (hour, minute, second)
time_numbers _ = none

-- The wall clock of a text as if it were UTC; `none` where the source throws or meets NaN.
abbrev pub wall_clock_of : List Text → Option ℤ
wall_clock_of (date_part ∷ time_part ∷ _) = do
  (year, month, day) ← date_numbers (split date_part b'-')
  (hour, minute, second) ← time_numbers (split time_part b':')
  some (utc_ms year month day hour minute second)
wall_clock_of _ = none

unfoldable pub wall_clock_ms : Text → Option ℤ
unfolding to_number
wall_clock_ms value = wall_clock_of (split value b'T')

module _ (offset : Text → ℤ → ℤ) where
  -- The wall clock that a time zone shows at an instant.
  abbrev pub wall : Text → ℤ → ℤ
  wall timezone t = t +ℤ offset timezone t

  -- The parts are whole seconds, so the milliseconds of the instant are lost from the difference.
  unfoldable pub get_timezone_offset_milliseconds : ℤ → Text → ℤ
  get_timezone_offset_milliseconds date timezone =
      let p = fields_of (wall timezone date) in
      utc_ms (shown_year p) p.month p.day p.hour p.minute p.second -ℤ date

  -- `for (let attempt = 0; attempt < 2; attempt += 1)`
  unfoldable pub refine : ℕ → ℤ → ℤ → Text → ℤ
  unfolding get_timezone_offset_milliseconds
  refine zero wall_ms utc timezone = utc
  refine (suc attempts) wall_ms utc timezone =
      refine attempts wall_ms (wall_ms -ℤ get_timezone_offset_milliseconds utc timezone) timezone

  unfoldable pub zoned_ms : ℤ → Text → ℤ
  unfolding refine
  zoned_ms wall_ms timezone = refine 2 wall_ms wall_ms timezone

  -- The instant of a round, where it is a valid date and its wall clock too: `Intl` throws on an
  -- invalid date, and `Date.UTC` gives NaN beyond the last one.
  unfoldable pub round : ℤ → Text → Option ℤ
  unfolding get_timezone_offset_milliseconds
  round utc timezone = do
    date ← time_clip utc
    time_clip (date +ℤ get_timezone_offset_milliseconds date timezone)

  -- `none` where the source throws.
  unfoldable pub zoned_date_time_to_iso : Text → Text → Option Text
  unfolding zoned_ms refine round wall_clock_ms
  zoned_date_time_to_iso value timezone = do
    wall_ms ← wall_clock_ms value
    first ← round wall_ms timezone
    second ← round (refine 1 wall_ms wall_ms timezone) timezone
    t ← time_clip (zoned_ms wall_ms timezone)
    some (to_iso t)

  unfoldable pub date_to_date_time_local_value : ℤ → Text → Text
  date_to_date_time_local_value date timezone =
      let p = fields_of (wall timezone date) in
      year_text p
      ++ b'-' ∷ pad2 p.month
      ++ b'-' ∷ pad2 p.day
      ++ b'T' ∷ pad2 p.hour
      ++ b':' ∷ pad2 p.minute

  unfoldable pub get_timezone_date_key : ℤ → Text → Text
  get_timezone_date_key value timezone =
      let p = fields_of (wall timezone value) in
      year_text p ++ b'-' ∷ pad2 p.month ++ b'-' ∷ pad2 p.day
