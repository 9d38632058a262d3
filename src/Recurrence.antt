-- ===== src/Recurrence.antt =====
-- The recurrence rule of a task, frontend/src/App.tsx: `buildRecurrenceRule` writes the rule text
-- from the form, `parseRecurrenceRule` reads it back, `validateRecurrenceUntil` checks its end.
pub mod Texts
pub mod RoundTrip
use task_calendar.Base.{
  ℕ, zero, suc, ◌+◌, Bool, true, false, not, ◌&&◌, ◌||◌, Option, none, some, List, [], ◌∷◌, ◌++◌,
  map, ltb, ◌==◌, any, filter, or_else, if◌then◌else◌,
}
use task_calendar.Base.Ids.{map_get}
use task_calendar.Base.Int.{ℤ, pos}
use task_calendar.Base.Text.{
  Text, codes, is_empty, truthy, split, text_eq, trim, to_upper, to_lower, join,
}
use task_calendar.Base.Text.Decimal.{show, parse_int}
use task_calendar.Clock.{◌>>=◌, zoned_date_time_to_iso}
use task_calendar.Clock.Keys.{date_lt, end_of_local_date_to_iso, to_date_input_value}
use task_calendar.Input.{parse_positive_integer_or_zero}
use task_calendar.Platform.{Platform}
use task_calendar.Task.{RecurrenceFrequency}

-- The text of a frequency, as the form holds it.
abbrev pub frequency_text : RecurrenceFrequency → Text
frequency_text RecurrenceFrequency.never = []
frequency_text RecurrenceFrequency.daily = codes "DAILY"
frequency_text RecurrenceFrequency.weekly = codes "WEEKLY"
frequency_text RecurrenceFrequency.monthly = codes "MONTHLY"
frequency_text RecurrenceFrequency.yearly = codes "YEARLY"

abbrev pub repeats : RecurrenceFrequency → Bool
repeats frequency = not (is_empty (frequency_text frequency))

pub record RecurrenceState : Type 0 where
  pub recurrence_frequency : RecurrenceFrequency
  pub recurrence_interval : Text
  pub recurrence_until : Text

-- A rule that is read; the frequency is whatever text the rule has.
pub record ParsedRule : Type 0 where
  pub frequency : Text
  pub interval : Text
  pub until : Text

-- `segment.split("=", 2)`; only segments with "=" come here.
abbrev key_value : List Text → Text × Text
key_value (key ∷ value ∷ _) = (to_upper (trim key), trim value)
key_value (key ∷ []) = (to_upper (trim key), [])
key_value [] = ([], [])

-- `Object.fromEntries(…)` of the segments.
unfoldable pub rule_parts : Text → List (Text × Text)
rule_parts rule =
    map (λ s. key_value (split s b'=')) (filter (λ s. any (λ c. c == b'=') s) (split rule b';'))

module _ (p : Platform) where
  abbrev until_text : Option Text → Text → Option Text
  until_text none timezone = some []
  until_text (some []) timezone = some []
  until_text (some (c ∷ s)) timezone = to_date_input_value p (c ∷ s) timezone

  -- `none` is an exception: the end of the rule is no date.
  unfoldable pub parse_recurrence_rule : Option Text → Text → Option ParsedRule
  unfolding rule_parts map_get
  parse_recurrence_rule none timezone =
      some (record { frequency = []; interval = codes "1"; until = [] })
  parse_recurrence_rule (some []) timezone =
      some (record { frequency = []; interval = codes "1"; until = [] })
  parse_recurrence_rule (some (c ∷ s)) timezone = do
    let parts = rule_parts (c ∷ s)
    until ← until_text (map_get parts (codes "UNTIL")) timezone
    some (record {
      frequency = or_else (map_get parts (codes "FREQ")) [];
      interval = or_else (map_get parts (codes "INTERVAL")) (codes "1");
      until = until;
    })

  -- The segments of the rule, the end last.
  abbrev with_until : List Text → Text → Text → Option (List Text)
  with_until segments [] timezone = some segments
  with_until segments (c ∷ s) timezone = do
    iso ← end_of_local_date_to_iso p (c ∷ s) timezone
    some (segments ++ (codes "UNTIL=" ++ iso) ∷ [])

  abbrev build_rule : RecurrenceFrequency → ℕ → Text → Text → Option (Option Text)
  build_rule frequency zero until timezone = some none
  build_rule frequency (suc n) until timezone = do
    segments ←
        with_until
          ((codes "FREQ=" ++ frequency_text frequency) ∷ (codes "INTERVAL=" ++ show (suc n)) ∷ [])
          until timezone
    some (some (join (codes ";") segments))

  -- `none` is an exception, `some none` is null.
  unfoldable pub build_recurrence_rule : RecurrenceState → Text → Option (Option Text)
  build_recurrence_rule state timezone =
      if repeats state.recurrence_frequency
      then build_rule state.recurrence_frequency
          (parse_positive_integer_or_zero state.recurrence_interval) state.recurrence_until timezone
      else some none

  -- `new Date(iso)` of a text that the source has just made.
  abbrev until_error : Option ℤ → Option ℤ → Option Text
  until_error until start =
      if date_lt until start
      then some (codes "Repeat until must be on or after the start date")
      else none

  unfoldable pub validate_recurrence_until :
      RecurrenceFrequency → Text → Text → Text → Option (Option Text)
  validate_recurrence_until frequency until start timezone =
      if not (repeats frequency) || is_empty until || is_empty start
      then some none
      else (end_of_local_date_to_iso p until timezone >>= λ end_iso.
          zoned_date_time_to_iso p.offset start timezone >>= λ start_iso.
          some (until_error (p.parse_date end_iso) (p.parse_date start_iso)))

  -- `parseInt` of the rule's interval; NaN is shown as it is.
  abbrev interval_text : Option ℤ → Text
  interval_text none = codes "NaN"
  interval_text (some (ℤ.pos n)) = show n
  interval_text (some (ℤ.negsuc n)) = b'-' ∷ show (suc n)

  abbrev is_one : Option ℤ → Bool
  is_one (some (ℤ.pos n)) = n == 1
  is_one _ = false

  abbrev until_label : Text → Text → Option Text
  until_label [] timezone = some []
  until_label (c ∷ s) timezone = do
    t ← p.parse_date (c ∷ s)
    some (codes " until " ++ p.format_date t timezone)

  abbrev rule_label : ParsedRule → Text → Option Text
  rule_label rule timezone = do
    let interval = parse_int rule.interval
    let label = to_lower rule.frequency
    until ← until_label rule.until timezone
    some (
        codes "Repeats every "
        ++ interval_text interval
        ++ b' ' ∷ (if is_one interval then label else label ++ b's' ∷ [])
        ++ until)

  unfoldable pub format_recurrence_rule : Option Text → Text → Option Text
  unfolding parse_recurrence_rule
  format_recurrence_rule rule timezone = do
    parsed ← parse_recurrence_rule rule timezone
    if not (truthy rule) || is_empty parsed.frequency then some [] else rule_label parsed timezone
