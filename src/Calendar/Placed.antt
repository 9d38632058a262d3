-- ===== src/Calendar/Placed.antt =====
-- A task that is dropped into the calendar of frontend/src/App.tsx is shown where it was dropped:
-- `getCalendarDropScheduleUpdate` and `mapTaskToCalendarEvent` together.
use task_calendar.Base.{false, some, ◌≡◌, sym, ap, ◌∙◌, some_inj}
use task_calendar.Base.Int.{ℤ, ◌+ℤ◌, ◌-ℤ◌, ◌≤ℤ◌}
use task_calendar.Base.Text.{Text}
use task_calendar.Calendar.{get_calendar_drop_schedule_update}
use task_calendar.Calendar.Events.{event_start}
use task_calendar.Calendar.Schedules.{drop-IsPlaced}
use task_calendar.Clock.{wall, wall_clock_ms, zoned_ms}
use task_calendar.Clock.Civil.{to_iso}
use task_calendar.Clock.Shown.{
  IsPlace, minute_of, minute_of-IsPlace, wall_clock_ms-calendar_date, wall_clock_ms-shown,
}
use task_calendar.Clock.Zoned.{IsRegular, two_days, wall-zoned_ms}
use task_calendar.Platform.{Platform}
use task_calendar.Task.{ScheduledTask, UpdateScheduledTaskInput}
use task_calendar.Undo.Restore.{patch}

module _ (p : Platform) (task : ScheduledTask) (timezone : Text) where
  -- Where a task is dropped at a whole minute of the years 1600 to 9999 and the update can be
  -- computed, the calendar then shows the task's start at that minute, if the time zone shows the
  -- minute at some instant within two days, changes its offset at most once about it and has offsets
  -- of whole seconds and of at most a day, and if the browser reads the text of the start as the
  -- instant that it was written from.
  pub drop-shown :
      (date change old new t : ℤ) {u : UpdateScheduledTaskInput}
      → IsPlace date
      → IsRegular p.offset timezone date change old new
      → date -ℤ two_days ≤ℤ t
      → t ≤ℤ date +ℤ two_days
      → wall p.offset timezone t ≡ date
      → p.parse_date (to_iso (zoned_ms p.offset date timezone))
        ≡ some (zoned_ms p.offset date timezone)
      → get_calendar_drop_schedule_update p task date false timezone ≡ some u
      → (v : Text) × (event_start p (patch u task) timezone ≡ some (some v))
        × (wall_clock_ms v ≡ some date)
  drop-shown date change old new t {u} place regular lo hi shows reads h =
      let (here, starts, free, day, (w, start, read, starts_at, parsed, ends_at, shown)) =
        drop-IsPlaced p task timezone date false h in
      let own : w ≡ date = some_inj (sym read ∙ wall_clock_ms-calendar_date date place) in
      let found : start ≡ zoned_ms p.offset date timezone =
        some_inj (
          sym parsed
          ∙ ap (λ w. p.parse_date (to_iso (zoned_ms p.offset w timezone))) own
          ∙ reads) in
      let back : wall p.offset timezone start ≡ date =
        ap (wall p.offset timezone) found
        ∙ wall-zoned_ms p.offset timezone date change old new regular t lo hi shows in
      (
        _,
        shown,
        wall_clock_ms-shown p.offset start timezone
            ∙ ap some (ap minute_of back ∙ minute_of-IsPlace date place),
      )
