-- ===== src/Labels.antt =====
-- The texts of the screen that the program composes, frontend/src/App.tsx: times of a task, time
-- zones and the state of the sync. `none` is an exception: a date that cannot be read.
pub mod Zones
use task_calendar.Base.{
  ℕ, zero, suc, ◌+◌, ◌*◌, ◌-◌, Bool, true, false, not, ◌&&◌, ◌||◌, Option, none, some, List, [],
  ◌∷◌, ◌++◌, map, ltb, leb, ◌==◌, or_else, if◌then◌else◌,
}
use task_calendar.Base.Int.{ℤ, pos, negsuc, ◌-ℤ◌, ltb_ℤ, sub_ℕ}
use task_calendar.Base.Text.{Text, codes, is_empty, truthy, text_eq, split, join, replace_first}
use task_calendar.Base.Text.Decimal.{show, is_digit}
use task_calendar.Api.Answers.{GoogleCalendarStatus}
use task_calendar.Clock.{◌>>=◌, date_numbers}
use task_calendar.Clock.Civil.{utc_ms, time_clip}
use task_calendar.Clock.Keys.{to_all_day_calendar_date}
use task_calendar.Platform.{Platform}
use task_calendar.Recurrence.{format_recurrence_rule}
use task_calendar.Task.{ScheduledTask}

abbrev part : Text → Text → Text
part separator [] = []
part separator (c ∷ s) = separator ++ c ∷ s

module _ (p : Platform) where
  unfoldable pub format_date_time : Text → Text → Option Text
  format_date_time value timezone = p.parse_date value >>= λ t. some (p.format_date_time t timezone)

  unfoldable pub format_time_only : Text → Text → Option Text
  format_time_only value timezone = p.parse_date value >>= λ t. some (p.format_time_only t timezone)

  abbrev day_label : Option (ℕ × ℕ × ℕ) → Option Text
  day_label none = none
  day_label (some (year, month, day)) = do
    t ← time_clip (utc_ms year month day 0 0 0)
    some (p.format_date t (codes "UTC"))

  unfoldable pub format_date_only_label : Text → Text → Option Text
  format_date_only_label value timezone = day_label (date_numbers (split value b'-'))

  abbrev end_label : (Text → Text → Option Text) → Option Text → Text → Option Text
  end_label format none timezone = some []
  end_label format (some []) timezone = some []
  end_label format (some (c ∷ s)) timezone = format (c ∷ s) timezone

  -- A start, and an end where there is one.
  abbrev range_label :
      (Text → Text → Option Text) → Text → ScheduledTask → Text → Text → Option Text
  range_label format separator task value timezone =
      if task.all_day
      then format_date_only_label (to_all_day_calendar_date value) timezone
      else format value timezone >>= λ start.
          end_label format task.scheduled_end timezone >>= λ end. some (start ++ part separator end)

  abbrev start_or :
      Text → (Text → Text → Option Text) → Text → Option Text → ScheduledTask → Text → Option Text
  start_or missing format separator none task timezone = some missing
  start_or missing format separator (some []) task timezone = some missing
  start_or missing format separator (some (c ∷ s)) task timezone =
      range_label format separator task (c ∷ s) timezone

  unfoldable pub format_scheduled_range : ScheduledTask → Text → Option Text
  unfolding format_date_time format_date_only_label to_all_day_calendar_date
  format_scheduled_range task timezone =
      start_or [] format_date_time (codes " - ") task.scheduled_start task timezone

  unfoldable pub format_quick_action_range : ScheduledTask → Text → Option Text
  unfolding format_time_only format_date_only_label to_all_day_calendar_date
  format_quick_action_range task timezone =
      start_or (codes "No scheduled time") format_time_only (codes "-") task.scheduled_start task
        timezone

  abbrev shown_part : Text → List Text
  shown_part [] = []
  shown_part (c ∷ s) = (c ∷ s) ∷ []

  abbrev due_part : Option Text → Text → Option (List Text)
  due_part none timezone = some []
  due_part (some []) timezone = some []
  due_part (some (c ∷ s)) timezone =
      format_date_time (c ∷ s) timezone >>= λ due. some ((codes "Due " ++ due) ∷ [])

  -- The separator is a bullet between blanks.
  unfoldable pub format_task_meta : ScheduledTask → Text → Option Text
  unfolding format_scheduled_range format_recurrence_rule join
  format_task_meta task timezone = format_scheduled_range task timezone >>= λ range.
      due_part task.due_at timezone >>= λ due.
      format_recurrence_rule p task.recurrence_rule timezone >>= λ recurrence.
      some (join (32 ∷ 0x2022 ∷ 32 ∷ []) (shown_part range ++ due ++ shown_part recurrence))

  abbrev more_than_a_quarter : Option ℤ → Option ℤ → Bool
  more_than_a_quarter (some start) (some end) = ltb_ℤ (pos (15 * 60000)) (end -ℤ start)
  more_than_a_quarter _ _ = false

  abbrev quarter_between : Option Text → Option Text → Bool
  quarter_between (some start) (some end) =
      not (is_empty start)
      && not (is_empty end)
      && more_than_a_quarter (p.parse_date start) (p.parse_date end)
  quarter_between _ _ = false

  unfoldable pub can_shorten_quick_action_task : ScheduledTask → Bool
  can_shorten_quick_action_task task =
      not task.all_day && quarter_between task.scheduled_start task.scheduled_end

  -- 0 where there is no date; `none` is NaN.
  abbrev time_or_zero : Option Text → Option ℤ
  time_or_zero none = some (pos 0)
  time_or_zero (some []) = some (pos 0)
  time_or_zero (some (c ∷ s)) = p.parse_date (c ∷ s)

  -- A difference of 0, and one that is not a number, leave it to the titles.
  abbrev by_time : Option ℤ → Option ℤ → ℤ → ℤ
  by_time (some left) (some right) titles = elim (left -ℤ right) [
    | pos zero ↦ titles
    | pos (suc n) ↦ pos (suc n)
    | negsuc n ↦ negsuc n
  ]
  by_time _ _ titles = titles

  abbrev date_or_due : Option Text → Option Text → Option Text
  date_or_due none due = due
  date_or_due (some start) due = some start

  unfoldable pub compare_tasks_by_scheduled_start : ScheduledTask → ScheduledTask → ℤ
  compare_tasks_by_scheduled_start left right =
      by_time (time_or_zero (date_or_due left.scheduled_start left.due_at))
        (time_or_zero (date_or_due right.scheduled_start right.due_at))
        (p.locale_compare left.title right.title)

unfoldable pub format_change_count : ℕ → Text
unfolding show
format_change_count count = show count ++ codes " change" ++ (if count == 1 then [] else codes "s")

unfoldable pub get_google_calendar_sync_status_text : GoogleCalendarStatus → Text
unfolding format_change_count
get_google_calendar_sync_status_text status =
    let processing = ltb 0 status.processing_sync_items in
    let retrying = ltb 0 status.retrying_sync_items in
    if processing && retrying
    then codes "Syncing "
      ++ format_change_count status.processing_sync_items
      ++ codes "; other changes will retry automatically"
    else if processing
    then codes "Syncing " ++ format_change_count status.processing_sync_items ++ codes "..."
    else if retrying
    then codes "Sync will retry automatically ("
      ++ format_change_count status.retrying_sync_items
      ++ codes ")"
    else codes "Up to date"
