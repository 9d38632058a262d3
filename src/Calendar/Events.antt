-- ===== src/Calendar/Events.antt =====
-- The events that the calendar shows, `mapTaskToCalendarEvent` and `mapTasksToCalendarEvents` of
-- frontend/src/App.tsx and `mapTaskToEvent` of frontend/src/api/tasks.ts. `none` is an exception: a
-- date that cannot be read.
use task_calendar.Base.{Bool, true, Option, none, some, List, [], ◌∷◌, filter, if◌then◌else◌}
use task_calendar.Base.Text.{Text, codes, truthy}
use task_calendar.Calendar.Colors.{task_category_color, with_alpha, readable_text_color}
use task_calendar.Clock.{◌>>=◌}
use task_calendar.Clock.Keys.{
  date_time_to_calendar_wall_clock, to_all_day_calendar_date, add_calendar_date_days,
}
use task_calendar.Platform.{Platform}
use task_calendar.Task.{ScheduledTask}

-- The keys of `EventInput` that are set; `display` is always "block" and `editable` true.
pub record EventInput : Type 0 where
  pub id : Text
  pub title : Text
  pub start : Option Text
  pub end : Option Text
  pub all_day : Bool
  pub background_color : Text
  pub border_color : Text
  pub text_color : Text
  pub class_names : List Text
  pub task : ScheduledTask

abbrev pub class_names_of : ScheduledTask → List Text
class_names_of task =
    if task.completed
    then codes "task-event" ∷ codes "task-event--completed" ∷ []
    else codes "task-event" ∷ []

-- A text that is there and not empty.
abbrev pub given : Option Text → Option Text
given none = none
given (some []) = none
given (some (c ∷ s)) = some (c ∷ s)

-- `e && value ? f(value) : undefined`, where `f` may throw.
abbrev pub mapped : Option Text → (Text → Option Text) → Option (Option Text)
mapped none f = some none
mapped (some value) f = f value >>= λ v. some (some v)

module _ (p : Platform) where
  unfoldable pub event_start : ScheduledTask → Text → Option (Option Text)
  unfolding date_time_to_calendar_wall_clock to_all_day_calendar_date
  event_start task timezone =
      if task.all_day
      then mapped (given task.scheduled_start) (λ s. some (to_all_day_calendar_date s))
      else mapped (given task.scheduled_start) (λ s. date_time_to_calendar_wall_clock p s timezone)

  -- A day without an end lasts one day.
  abbrev pub day_end : Option Text → Option Text → Option (Option Text)
  day_end (some end) start = some (some (to_all_day_calendar_date end))
  day_end none start = mapped start (λ s. add_calendar_date_days (to_all_day_calendar_date s) 1)

  unfoldable pub event_end : ScheduledTask → Text → Option (Option Text)
  unfolding date_time_to_calendar_wall_clock to_all_day_calendar_date add_calendar_date_days
  event_end task timezone =
      if task.all_day
      then day_end (given task.scheduled_end) (given task.scheduled_start)
      else mapped (given task.scheduled_end) (λ s. date_time_to_calendar_wall_clock p s timezone)

  unfoldable pub map_task_to_calendar_event :
      ScheduledTask → List (Text × Text) → Text → Option EventInput
  unfolding event_start event_end
  map_task_to_calendar_event task colors timezone =
      let color = task_category_color task colors in
      event_start task timezone >>= λ start. event_end task timezone >>= λ end. some (record {
        id = task.id;
        title = task.title;
        start = start;
        end = end;
        all_day = task.all_day;
        background_color = if task.completed then with_alpha color (codes "0.32") else color;
        border_color = color;
        text_color = if task.completed then codes "#50615b" else readable_text_color color;
        class_names = class_names_of task;
        task = task;
      })

  abbrev pub map_events : List ScheduledTask → List (Text × Text) → Text → Option (List EventInput)
  map_events [] colors timezone = some []
  map_events (task ∷ tasks) colors timezone =
      map_task_to_calendar_event task colors timezone >>= λ event.
      map_events tasks colors timezone >>= λ events. some (event ∷ events)

  unfoldable pub map_tasks_to_calendar_events :
      List ScheduledTask → List (Text × Text) → Text → Option (List EventInput)
  unfolding map_task_to_calendar_event
  map_tasks_to_calendar_events tasks colors timezone =
      map_events (filter (λ t. truthy t.scheduled_start) tasks) colors timezone

-- The event of `mapTaskToEvent`, which has the times as they are and no colors.
pub record PlainEvent : Type 0 where
  pub id : Text
  pub title : Text
  pub start : Option Text
  pub end : Option Text
  pub all_day : Bool
  pub class_names : List Text
  pub task : ScheduledTask

abbrev pub plain_start : Bool → Option Text → Option Text
plain_start true (some (c ∷ s)) = some (to_all_day_calendar_date (c ∷ s))
plain_start _ start = start

unfoldable pub map_task_to_event : ScheduledTask → PlainEvent
unfolding to_all_day_calendar_date
map_task_to_event task = record {
  id = task.id;
  title = task.title;
  start = plain_start task.all_day task.scheduled_start;
  end = if task.all_day then none else task.scheduled_end;
  all_day = task.all_day;
  class_names = class_names_of task;
  task = task;
}
