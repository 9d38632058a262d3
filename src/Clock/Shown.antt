-- ===== src/Clock/Shown.antt =====
-- The wall clocks that `dateToDateTimeLocalValue` and `calendarDateToDateTimeLocalValue` of
-- frontend/src/App.tsx write are read back by `zonedDateTimeToIso`.
use task_calendar.Base.{
  ℕ, ◌+◌, ◌-◌, ◌<◌, true, false, [], all, sym, some, ◌∷◌, ◌++◌, ◌∙◌, All, All-append, All-map, ◌≡◌,
  ◌≢◌, refl, ap, arith,
}
use mathlib.Core.List.{append_assoc}
use task_calendar.Base.Int.{ℤ}
use task_calendar.Base.Text.{Text, split}
use task_calendar.Base.Text.Decimal.{Digit, is_digit, show, pad2, scan_digits, scan-show}
use task_calendar.Clock.{
  date_numbers, date_to_date_time_local_value, to_number, time_numbers, wall, wall_clock_ms,
}
use task_calendar.Clock.Civil.{
  first_year, Fields, fields_of, iso_year, shown_year, utc_ms, year_text,
}
use task_calendar.Clock.Civil.Instants.{
  IsModern, IsMinute, IsMinute-IsSeconds, minute_fields, utc_ms-fields_of,
}
use task_calendar.Clock.Keys.{calendar_date_to_date_time_local_value}
use task_calendar.Clock.Civil.Letters.{pad2-Digit, scan-pad2, show-Digit, iso_year-digits}
use task_calendar.Recurrence.Texts.{split_from_part, split_from_lacking}

-- The text of a number.
abbrev Shows : Text → ℕ → Type 0
Shows s n = All Digit s × (scan_digits 0 s ≡ n)

all-Digit : (s : Text) → All Digit s → all is_digit s ≡ true
all-Digit [] h = refl
all-Digit (c ∷ s) (d, h) = rw (d, all-Digit s h) refl

to_number-Shows : (s : Text) (n : ℕ) → Shows s n → to_number s ≡ some n
unfolding to_number
to_number-Shows s n (h, e) = rw (all-Digit s h, e) refl

show-Shows : (n : ℕ) → Shows (show n) n
show-Shows n = (show-Digit n, scan-show n)

pad2-Shows : (n : ℕ) → Shows (pad2 n) n
pad2-Shows n = (pad2-Digit n, scan-pad2 n)

-- No digit separates the parts of a date.
lacks : (d : ℕ) → is_digit d ≡ false → (s : Text) → All Digit s → All (λ c. c ≢ d) s
lacks d h s = All-map (λ c k e. absurd (cc)) s

dash : is_digit b'-' ≡ false
unfolding is_digit
dash = refl

colon : is_digit b':' ≡ false
unfolding is_digit
colon = refl

mark : is_digit b'T' ≡ false
unfolding is_digit
mark = refl

abbrev NoMark : ℕ → Type 0
NoMark c = c ≢ b'T'

module _ (Y M D H N : Text) (year month day hour minute : ℕ) (y : Shows Y year) (m : Shows M month)
    (d : Shows D day) (h : Shows H hour) (n : Shows N minute) where
  date_numbers-split :
      date_numbers (split (Y ++ b'-' ∷ M ++ b'-' ∷ D) b'-') ≡ some (year, month, day)
  unfolding split
  date_numbers-split =
      rw
        (
          append_assoc Y (b'-' ∷ M) (b'-' ∷ D),
          split_from_part b'-' [] Y (M ++ b'-' ∷ D) (lacks b'-' dash Y y.0),
          split_from_part b'-' [] M D (lacks b'-' dash M m.0),
          split_from_lacking b'-' [] D (lacks b'-' dash D d.0),
          to_number-Shows Y year y,
          to_number-Shows M month m,
          to_number-Shows D day d,
        )
        refl

  time_numbers-split : time_numbers (split (H ++ b':' ∷ N) b':') ≡ some (hour, minute, 0)
  unfolding split
  time_numbers-split =
      rw
        (
          split_from_part b':' [] H N (lacks b':' colon H h.0),
          split_from_lacking b':' [] N (lacks b':' colon N n.0),
          to_number-Shows H hour h,
          to_number-Shows N minute n,
        )
        refl

  wall_clock_of-split :
      wall_clock_ms (Y ++ b'-' ∷ M ++ b'-' ∷ D ++ b'T' ∷ H ++ b':' ∷ N)
      ≡ some (utc_ms year month day hour minute 0)
  unfolding wall_clock_ms split
  wall_clock_of-split =
      let day : Text = Y ++ b'-' ∷ M ++ b'-' ∷ D in
      let month_lacks =
        All-append NoMark Y (b'-' ∷ M) (lacks b'T' mark Y y.0)
          (ground arith, lacks b'T' mark M m.0) in
      let day_lacks =
        All-append NoMark (Y ++ b'-' ∷ M) (b'-' ∷ D) month_lacks
          (ground arith, lacks b'T' mark D d.0) in
      let time_lacks =
        All-append NoMark H (b':' ∷ N) (lacks b'T' mark H h.0)
          (ground arith, lacks b'T' mark N n.0) in
      rw
        (
          append_assoc day (b'T' ∷ H) (b':' ∷ N),
          split_from_part b'T' [] day (H ++ b':' ∷ N) day_lacks,
          split_from_lacking b'T' [] (H ++ b':' ∷ N) time_lacks,
          date_numbers-split,
          time_numbers-split,
        )
        refl

-- The minute of a wall clock, as the wall clock that shows it.
abbrev pub minute_of : ℤ → ℤ
minute_of w = let p = fields_of w in utc_ms (shown_year p) p.month p.day p.hour p.minute 0

-- What a zone's clock shows at an instant is read as its minute.
pub wall_clock_ms-shown :
    (offset : Text → ℤ → ℤ) (t : ℤ) (timezone : Text)
    → wall_clock_ms (date_to_date_time_local_value offset t timezone)
      ≡ some (minute_of (wall offset timezone t))
unfolding date_to_date_time_local_value year_text
wall_clock_ms-shown offset t timezone =
    let p : Fields = fields_of (wall offset timezone t) in
    wall_clock_of-split (show (shown_year p)) (pad2 p.month) (pad2 p.day) (pad2 p.hour)
      (pad2 p.minute) (shown_year p) p.month p.day p.hour p.minute (show-Shows (shown_year p))
      (pad2-Shows p.month) (pad2-Shows p.day) (pad2-Shows p.hour) (pad2-Shows p.minute)

-- A wall clock that the calendar can hold and forms can write: a whole minute of the years 1600 to
-- 9999.
pub record IsPlace (w : ℤ) : Type 0 where
  pub modern : IsModern w
  pub whole : IsMinute w
  pub short : (fields_of w).year < first_year + 10000

-- A whole minute is its own minute.
pub minute_of-IsPlace : (w : ℤ) → IsPlace w → minute_of w ≡ w
minute_of-IsPlace w h =
    let (recent, second, shown) = minute_fields w h.modern h.whole in
    let p : Fields = fields_of w in
    ap (λ s. utc_ms (shown_year p) p.month p.day p.hour p.minute s) (sym second)
    ∙ utc_ms-fields_of w h.modern (IsMinute-IsSeconds w h.whole)

-- The text of a calendar's date reads back as the date.
pub wall_clock_ms-calendar_date :
    (w : ℤ) → IsPlace w → wall_clock_ms (calendar_date_to_date_time_local_value w) ≡ some w
unfolding calendar_date_to_date_time_local_value
wall_clock_ms-calendar_date w h =
    let p : Fields = fields_of w in
    let (recent, second, shown) = minute_fields w h.modern h.whole in
    wall_clock_of-split (iso_year p.year) (pad2 p.month) (pad2 p.day) (pad2 p.hour) (pad2 p.minute)
      (p.year - first_year) p.month p.day p.hour p.minute
      (iso_year-digits p.year (omega arith) h.short) (pad2-Shows p.month) (pad2-Shows p.day)
      (pad2-Shows p.hour) (pad2-Shows p.minute)
    ∙ ap some
        (ap (λ y. utc_ms y p.month p.day p.hour p.minute 0) (sym shown) ∙ minute_of-IsPlace w h)
