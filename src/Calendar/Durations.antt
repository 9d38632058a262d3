-- ===== src/Calendar/Durations.antt =====
-- The keys of a drag's duration.
use task_calendar.Base.{
  not, ◌&&◌, ◌||◌, is_some, ℕ, ◌+◌, ◌*◌, ◌<◌, Bool, true, false, Option, none, some, or_else,
  if◌then◌else◌, ◌≡◌, arith,
}
use task_calendar.Base.Text.{truthy}
use task_calendar.Calendar.{
  one_hour, minutes_or, Duration, duration_of, task_minutes, get_task_drag_duration,
  get_task_drag_duration_minutes,
}
use task_calendar.Platform.{Platform}
use task_calendar.Task.{ScheduledTask}

-- The minutes of a duration.
abbrev pub minutes_of : Duration → ℕ
minutes_of d = or_else d.days 0 * 1440 + or_else d.hours 0 * 60 + or_else d.minutes 0

duration_of-minutes :
    (n : ℕ)
    → 0 < n
    → (minutes_of (duration_of (some n)) ≡ n)
      × (or_else (duration_of (some n)).hours 0 < 24)
      × (or_else (duration_of (some n)).minutes 0 < 60)
duration_of-minutes n h = (ground arith, ground arith, ground arith)

-- The duration that a task shows while it is dragged is the one that dropping it at a time gives,
-- in whole hours of less than a day and minutes of less than an hour, if the dates of a task with
-- both a start and an end are valid.
pub get_task_drag_duration-minutes :
    (p : Platform) (task : ScheduledTask)
    → ((truthy task.scheduled_start && truthy task.scheduled_end) ≡ true
        → is_some (task_minutes p task.scheduled_start task.scheduled_end) ≡ true)
    → (minutes_of (get_task_drag_duration p task) ≡ get_task_drag_duration_minutes p task false)
      × (or_else (get_task_drag_duration p task).hours 0 < 24)
      × (or_else (get_task_drag_duration p task).minutes 0 < 60)
unfolding get_task_drag_duration get_task_drag_duration_minutes
get_task_drag_duration-minutes p task valid =
    by_cases (truthy task.scheduled_start) (truthy task.scheduled_end)
      (task_minutes p task.scheduled_start task.scheduled_end) valid
  where
    by_cases :
        (s e : Bool) (n : Option ℕ)
        → ((s && e) ≡ true → is_some n ≡ true)
        → (minutes_of (if not s || not e then one_hour else duration_of n)
            ≡ (if not s || not e then 60 else minutes_or 60 n))
          × (or_else (if not s || not e then one_hour else duration_of n).hours 0 < 24)
          × (or_else (if not s || not e then one_hour else duration_of n).minutes 0 < 60)
    by_cases false e n v = ground arith
    by_cases true false n v = ground arith
    by_cases true true none v = absurd (ground (arith, v))
    by_cases true true (some n) v = (ground arith, ground arith, ground arith)
