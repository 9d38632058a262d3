-- ===== src/Calendar.antt =====
-- Tasks in the calendar, frontend/src/App.tsx: what moving, resizing or dropping a task in the
-- calendar changes. `none` is an exception. The calendar's dates hold a wall clock as if it were UTC.
pub mod Durations
pub mod Schedules
pub mod Colors
pub mod Events
pub mod Shown
pub mod Placed
use task_calendar.Base.{
  ℕ, ◌+◌, ◌*◌, ◌/◌, ◌%◌, Bool, true, false, not, ◌&&◌, ◌||◌, Option, none, some, ltb, if◌then◌else◌,
}
use task_calendar.Base.Int.{ℤ, pos, negsuc, ◌+ℤ◌, ◌-ℤ◌}
use task_calendar.Base.Text.{Text, truthy}
use task_calendar.Clock.{◌>>=◌, zoned_date_time_to_iso}
use task_calendar.Clock.Civil.{time_clip, to_iso}
use task_calendar.Clock.Keys.{
  calendar_date_to_date_input_value, calendar_date_to_date_time_local_value,
  date_only_to_api_date_time,
}
use task_calendar.Platform.{Platform}
use task_calendar.Task.{ScheduledTask, UpdateScheduledTaskInput, no_update}

-- What the source reads of FullCalendar's `EventApi`.
pub record CalendarEvent : Type 0 where
  pub start : Option ℤ
  pub end : Option ℤ
  pub all_day : Bool

-- `task?.due_at ? { due_at: null } : {}`
abbrev pub due_cleared : Option ScheduledTask → Option (Option Text)
due_cleared none = none
due_cleared (some task) = if truthy task.due_at then some none else none

abbrev pub schedule_of :
    Option Text → Option Text → Bool → Option (Option Text) → UpdateScheduledTaskInput
schedule_of start end all_day due_at = record no_update {
  scheduled_start = some start;
  scheduled_end = some end;
  all_day = some all_day;
  due_at = due_at;
}

-- The minutes from one date to another, rounded, where a count that is not positive is 0; `none`
-- is NaN.
unfoldable pub total_minutes : Option ℤ → Option ℤ → Option ℕ
total_minutes none end = none
total_minutes (some start) none = none
total_minutes (some start) (some end) = elim (end -ℤ start) [
  | pos n ↦ some ((n + 30000) / 60000)
  | negsuc n ↦ some 0
]

-- The `duration` of a dragged task; a missing key is `none`.
pub record Duration : Type 0 where
  pub days : Option ℕ
  pub hours : Option ℕ
  pub minutes : Option ℕ

abbrev pub one_hour : Duration
one_hour = record { days = none; hours = some 1; minutes = none }

abbrev positive : ℕ → Option ℕ
positive n = if ltb 0 n then some n else none

-- Without a valid date each part is NaN, and no key is set.
abbrev pub duration_of : Option ℕ → Duration
duration_of none = record { days = none; hours = none; minutes = none }
duration_of (some n) =
    if ltb 0 n
    then record {
      days = positive (n / 1440);
      hours = positive (n % 1440 / 60);
      minutes = positive (n % 60);
    }
    else one_hour

abbrev pub minutes_or : ℕ → Option ℕ → ℕ
minutes_or d none = d
minutes_or d (some n) = if ltb 0 n then n else d

module _ (p : Platform) where
  abbrev pub task_minutes : Option Text → Option Text → Option ℕ
  task_minutes (some start) (some end) = total_minutes (p.parse_date start) (p.parse_date end)
  task_minutes _ _ = none

  unfoldable pub get_task_drag_duration : ScheduledTask → Duration
  unfolding total_minutes
  get_task_drag_duration task =
      if not (truthy task.scheduled_start) || not (truthy task.scheduled_end)
      then one_hour
      else duration_of (task_minutes task.scheduled_start task.scheduled_end)

  unfoldable pub get_task_drag_duration_minutes : ScheduledTask → Bool → ℕ
  unfolding total_minutes
  get_task_drag_duration_minutes task dropped_all_day =
      let default = if dropped_all_day then 1440 else 60 in
      if not (truthy task.scheduled_start) || not (truthy task.scheduled_end)
      then default
      else minutes_or default (task_minutes task.scheduled_start task.scheduled_end)

  abbrev pub end_iso : Text → Option ℤ → Option (Option Text)
  end_iso timezone none = some none
  end_iso timezone (some end) =
      zoned_date_time_to_iso p.offset (calendar_date_to_date_time_local_value end) timezone
      >>= λ iso. some (some iso)

  abbrev timed_schedule :
      Text → ℤ → Option ℤ → Option (Option Text) → Option UpdateScheduledTaskInput
  timed_schedule timezone start end due_at =
      zoned_date_time_to_iso p.offset (calendar_date_to_date_time_local_value start) timezone
      >>= λ start_iso.
          end_iso timezone end >>= λ e. some (schedule_of (some start_iso) e false due_at)

  abbrev pub all_day_schedule : ℤ → Option (Option Text) → UpdateScheduledTaskInput
  all_day_schedule start due_at =
      schedule_of (some (date_only_to_api_date_time (calendar_date_to_date_input_value start))) none
        true due_at

  unfoldable pub get_calendar_event_schedule_update :
      CalendarEvent → Option ScheduledTask → Text → Option UpdateScheduledTaskInput
  get_calendar_event_schedule_update event task timezone = elim event.start [
    | none ↦ some (schedule_of none none false (some none))
    | some start ↦
        if event.all_day
        then some (all_day_schedule start (due_cleared task))
        else timed_schedule timezone start event.end (due_cleared task)
  ]

  abbrev pub dropped_end : Text → ℕ → Option Text
  dropped_end start_iso minutes = do
    t ← p.parse_date start_iso
    end ← time_clip (t +ℤ pos (minutes * 60000))
    some (to_iso end)

  abbrev dropped_at : Text → ℕ → Text → Option (Option Text) → Option UpdateScheduledTaskInput
  dropped_at value minutes timezone due_at =
      zoned_date_time_to_iso p.offset value timezone >>= λ start_iso.
      dropped_end start_iso minutes >>= λ end.
      some (schedule_of (some start_iso) (some end) false due_at)

  -- The date and `allDay` are those of the `DropArg`.
  unfoldable pub get_calendar_drop_schedule_update :
      ScheduledTask → ℤ → Bool → Text → Option UpdateScheduledTaskInput
  unfolding get_task_drag_duration_minutes
  get_calendar_drop_schedule_update task date all_day timezone =
      if all_day
      then some (all_day_schedule date (due_cleared (some task)))
      else dropped_at (calendar_date_to_date_time_local_value date)
          (get_task_drag_duration_minutes task all_day) timezone (due_cleared (some task))
