-- ===== src/Tests/Calendars.antt =====
-- Drops and moves in the calendar at a concrete task.
use task_calendar.Base.{
  ◌<◌, [], ◌∷◌, map, filter, All, true, false, none, some, or_else, ◌⊎◌, ◌≡◌, refl,
}
use task_calendar.Base.Int.{ℤ, pos, ◌-ℤ◌}
use task_calendar.Base.Text.{codes, split, truthy}
use task_calendar.Base.Text.Decimal.{scan_digits}
use task_calendar.Calendar.{
  CalendarEvent, get_task_drag_duration, get_task_drag_duration_minutes,
  get_calendar_event_schedule_update, schedule_of, total_minutes, task_minutes, due_cleared,
}
use task_calendar.Calendar.Durations.{minutes_of, get_task_drag_duration-minutes}
use task_calendar.Calendar.Colors.{task_category_color, readable_text_color}
use task_calendar.Calendar.Events.{EventInput, map_tasks_to_calendar_events}
use task_calendar.Calendar.Shown.{IsOfTask, map_tasks-IsOfTask}
use task_calendar.Clock.{wall_clock_ms}
use task_calendar.Clock.Civil.{utc_ms}
use task_calendar.Clock.Keys.{date_only_to_api_date_time, calendar_date_to_date_input_value}
use task_calendar.Swipes.{Gestures, handle_calendar_touch_end}
use task_calendar.Swipes.Taps.{TurnsAt, touch_end-Turns}
use task_calendar.Task.{ScheduledTask, UpdateScheduledTaskInput}
use task_calendar.Tests.Data.{milk, browser, read_date}

abbrev course : ScheduledTask
course = record milk {
  scheduled_start = some (codes "2026-04-01T08:00:00.000Z");
  scheduled_end = some (codes "2026-04-02T09:30:00.000Z");
  due_at = some (codes "2026-04-03T00:00:00.000Z");
}

course_minutes : task_minutes browser course.scheduled_start course.scheduled_end ≡ some 1530
unfolding total_minutes read_date wall_clock_ms split utc_ms scan_digits ◌-ℤ◌
course_minutes = refl

drag_duration_example :
    (minutes_of (get_task_drag_duration browser course)
      ≡ get_task_drag_duration_minutes browser course false)
    × (or_else (get_task_drag_duration browser course).hours 0 < 24)
    × (or_else (get_task_drag_duration browser course).minutes 0 < 60)
drag_duration_example = get_task_drag_duration-minutes browser course (λ e. rw course_minutes refl)

-- 2026-04-01 as the calendar holds it.
abbrev april : ℤ
april = pos 1775001600000

abbrev day_update : UpdateScheduledTaskInput
day_update =
    schedule_of (some (date_only_to_api_date_time (calendar_date_to_date_input_value april))) none
      true (due_cleared (some course))

abbrev moved : CalendarEvent
moved = record { start = some april; end = none; all_day = true }

move_update :
    get_calendar_event_schedule_update browser moved (some course) (codes "Europe/Berlin")
    ≡ some day_update
unfolding get_calendar_event_schedule_update
move_update = refl

abbrev day_course : ScheduledTask
day_course = record course { all_day = true }

abbrev course_event : EventInput
course_event = record {
  id = codes "a";
  title = codes "Milk";
  start = some (codes "2026-04-01");
  end = some (codes "2026-04-02");
  all_day = true;
  background_color = task_category_color day_course [];
  border_color = task_category_color day_course [];
  text_color = readable_text_color (task_category_color day_course []);
  class_names = codes "task-event" ∷ [];
  task = day_course;
}

course_shown :
    map_tasks_to_calendar_events browser (milk ∷ day_course ∷ []) [] (codes "Europe/Berlin")
    ≡ some (course_event ∷ [])
unfolding map_tasks_to_calendar_events
course_shown = refl

map_tasks-IsOfTask_example :
    (map (λ e. e.task) (course_event ∷ [])
      ≡ filter (λ t. truthy t.scheduled_start) (milk ∷ day_course ∷ []))
    × All (IsOfTask browser (codes "Europe/Berlin")) (course_event ∷ [])
map_tasks-IsOfTask_example =
    map_tasks-IsOfTask browser (milk ∷ day_course ∷ []) [] (codes "Europe/Berlin")
      (course_event ∷ []) course_shown

-- A touch of eighty pixels to the left.
abbrev touched : Gestures
touched = record {
  is_enabled = true;
  swipe = some (record {
    start_x = pos 200;
    start_y = pos 300;
    current_x = pos 180;
    current_y = pos 301;
    blocked = false;
    is_horizontal_swipe = false;
  });
  suppresses_next_tap = false;
  is_resetting = false;
  shown = [];
}

touch_end-Turns_example :
    ((handle_calendar_touch_end (some (pos 120, pos 310)) touched).shown ≡ [])
    ⊎ TurnsAt touched.swipe
        (some (pos 120, pos 310))
        []
        (handle_calendar_touch_end (some (pos 120, pos 310)) touched)
touch_end-Turns_example = touch_end-Turns (some (pos 120, pos 310)) touched
