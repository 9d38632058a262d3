-- ===== src/Calendar/Shown.antt =====
-- Which tasks the calendar shows.
use mathlib.Core.Path.{subst}
use task_calendar.Base.{
  Bool, Bool-cases, inl, inr, true, false, Option, none, some, some_inj, List, [], ◌∷◌, map, filter,
  take, All, ◌≡◌, refl, sym,
}
use task_calendar.Base.Text.{Text, truthy}
use task_calendar.Calendar.Events.{
  EventInput, event_start, event_end, day_end, map_task_to_calendar_event, map_events,
  map_tasks_to_calendar_events, mapped, given,
}
use task_calendar.Base.Int.{ℤ}
use task_calendar.Clock.{chained, wall, wall_clock_ms}
use task_calendar.Clock.Keys.{
  date_time_to_calendar_wall_clock, to_all_day_calendar_date, add_calendar_date_days,
}
use task_calendar.Clock.Shown.{minute_of, wall_clock_ms-shown}
use task_calendar.Platform.{Platform}
use task_calendar.Task.{ScheduledTask}

module _ (p : Platform) (timezone : Text) where
  -- A time of a task, and the time that the calendar shows for it: the minute on the zone's clock at
  -- the instant of the task's time.
  abbrev pub ShowsMinute : Option Text → Option Text → Type 0
  ShowsMinute none shown = shown ≡ none
  ShowsMinute (some []) shown = shown ≡ none
  ShowsMinute (some (c ∷ s)) shown =
      (t : ℤ) × (v : Text) × (p.parse_date (c ∷ s) ≡ some t)
      × (shown ≡ some v)
      × (wall_clock_ms v ≡ some (minute_of (wall p.offset timezone t)))

  -- A day of a task, and the day that the calendar shows for it, which no zone moves.
  abbrev pub ShowsDay : Option Text → Option Text → Type 0
  ShowsDay none shown = shown ≡ none
  ShowsDay (some []) shown = shown ≡ none
  ShowsDay (some (c ∷ s)) shown = shown ≡ some (take 10 (c ∷ s))

  -- The day after that of a task's start, if it has one.
  abbrev pub NextDay : Option Text → Option Text → Type 0
  NextDay none shown = shown ≡ none
  NextDay (some []) shown = shown ≡ none
  NextDay (some (c ∷ s)) shown =
      (v : Text) × (add_calendar_date_days (take 10 (c ∷ s)) 1 ≡ some v) × (shown ≡ some v)

  -- The end of a whole-day task: its own day, or else the day after its start.
  abbrev pub EndsDay : Option Text → Option Text → Option Text → Type 0
  EndsDay start none shown = NextDay start shown
  EndsDay start (some []) shown = NextDay start shown
  EndsDay start (some (c ∷ s)) shown = ShowsDay (some (c ∷ s)) shown

  -- The shown start and end of a task, by whether it is of a whole day.
  abbrev pub ShowsTimes : Bool → ScheduledTask → Option Text → Option Text → Type 0
  ShowsTimes false task start end =
      ShowsMinute task.scheduled_start start × ShowsMinute task.scheduled_end end
  ShowsTimes true task start end =
      ShowsDay task.scheduled_start start × EndsDay task.scheduled_start task.scheduled_end end

  -- The event has the id of its task, is of a whole day just if the task is, and starts and ends
  -- when the task does.
  abbrev pub IsOfTask : EventInput → Type 0
  IsOfTask e =
      (e.id ≡ e.task.id)
      × (e.all_day ≡ e.task.all_day)
      × ShowsTimes e.task.all_day e.task e.start e.end

  mapped-ShowsMinute :
      (value shown : Option Text)
      → mapped (given value) (λ s. date_time_to_calendar_wall_clock p s timezone) ≡ some shown
      → ShowsMinute value shown
  unfolding date_time_to_calendar_wall_clock
  mapped-ShowsMinute none shown h = sym (some_inj h)
  mapped-ShowsMinute (some []) shown h = sym (some_inj h)
  mapped-ShowsMinute (some (c ∷ s)) shown h =
      let (v, at, made) = chained (date_time_to_calendar_wall_clock p (c ∷ s) timezone) _ shown h in
      let (t, read, text) = chained (p.parse_date (c ∷ s)) _ v at in
      (
        t,
        v,
        read,
        sym (some_inj made),
        subst (λ u. wall_clock_ms u ≡ some (minute_of (wall p.offset timezone t))) (some_inj text)
            (wall_clock_ms-shown p.offset t timezone),
      )

  mapped-ShowsDay :
      (value shown : Option Text)
      → mapped (given value) (λ s. some (to_all_day_calendar_date s)) ≡ some shown
      → ShowsDay value shown
  unfolding to_all_day_calendar_date
  mapped-ShowsDay none shown h = sym (some_inj h)
  mapped-ShowsDay (some []) shown h = sym (some_inj h)
  mapped-ShowsDay (some (c ∷ s)) shown h = sym (some_inj h)

  next-NextDay :
      (start shown : Option Text)
      → mapped (given start) (λ s. add_calendar_date_days (to_all_day_calendar_date s) 1)
        ≡ some shown
      → NextDay start shown
  unfolding to_all_day_calendar_date
  next-NextDay none shown h = sym (some_inj h)
  next-NextDay (some []) shown h = sym (some_inj h)
  next-NextDay (some (c ∷ s)) shown h =
      let (v, at, made) = chained (add_calendar_date_days (take 10 (c ∷ s)) 1) _ shown h in
      (v, at, sym (some_inj made))

  day_end-EndsDay :
      (start end shown : Option Text)
      → day_end p (given end) (given start) ≡ some shown
      → EndsDay start end shown
  unfolding to_all_day_calendar_date
  day_end-EndsDay start none shown h = next-NextDay start shown h
  day_end-EndsDay start (some []) shown h = next-NextDay start shown h
  day_end-EndsDay start (some (c ∷ s)) shown h = sym (some_inj h)

  event-ShowsTimes :
      (task : ScheduledTask) (start end : Option Text)
      → event_start p task timezone ≡ some start
      → event_end p task timezone ≡ some end
      → ShowsTimes task.all_day task start end
  event-ShowsTimes task start end h k = elim (Bool-cases task.all_day) [
    | inl whole ↦
        subst (λ b. ShowsTimes b task start end) (sym whole)
          (
            mapped-ShowsDay task.scheduled_start start
                (unfold event_start in (rw (whole, event_start) at h)),
            day_end-EndsDay task.scheduled_start task.scheduled_end end
                (unfold event_end in (rw (whole, event_end) at k)),
          )
    | inr timed ↦
        subst (λ b. ShowsTimes b task start end) (sym timed)
          (
            mapped-ShowsMinute task.scheduled_start start
                (unfold event_start in (rw (timed, event_start) at h)),
            mapped-ShowsMinute task.scheduled_end end
                (unfold event_end in (rw (timed, event_end) at k)),
          )
  ]

  module _ (colors : List (Text × Text)) where
    event-IsOfTask :
        (task : ScheduledTask) (e : EventInput)
        → map_task_to_calendar_event p task colors timezone ≡ some e
        → (e.task ≡ task) × IsOfTask e
    unfolding map_task_to_calendar_event
    event-IsOfTask task e h =
        let (start, started, rest) = chained (event_start p task timezone) _ e h in
        let (end, ended, made) = chained (event_end p task timezone) _ e rest in
        subst (λ e. (e.task ≡ task) × IsOfTask e) (some_inj made)
          (refl, (refl, refl, event-ShowsTimes task start end started ended))

    events-IsOfTask :
        (tasks : List ScheduledTask) (events : List EventInput)
        → map_events p tasks colors timezone ≡ some events
        → (map (λ e. e.task) events ≡ tasks) × All IsOfTask events
    events-IsOfTask [] events h =
        subst (λ es. (map (λ e. e.task) es ≡ []) × All IsOfTask es) (some_inj h) (refl, tt)
    events-IsOfTask (task ∷ tasks) events h =
        let (e, first, rest) =
          chained (map_task_to_calendar_event p task colors timezone) _ events h in
        let (es, others, made) = chained (map_events p tasks colors timezone) _ events rest in
        let (own, shown) = event-IsOfTask task e first in
        let (same, all_shown) = events-IsOfTask tasks es others in
        subst (λ es. (map (λ e. e.task) es ≡ task ∷ tasks) × All IsOfTask es) (some_inj made)
          ((cc), (shown, all_shown))

-- Where the dates of the tasks can be read, the calendar shows the tasks that have a start, each of
-- them once and in their order, as an event with the task's id. The event of a task with times shows
-- them, each as the minute on the clock of the time zone at the instant of the task's time; that of a
-- task of a whole day starts and ends on the days that the task's texts name, in any zone, and without
-- an end on the day after the start.
pub map_tasks-IsOfTask :
    (p : Platform) (tasks : List ScheduledTask) (colors : List (Text × Text)) (timezone : Text)
    (events : List EventInput)
    → map_tasks_to_calendar_events p tasks colors timezone ≡ some events
    → (map (λ e. e.task) events ≡ filter (λ t. truthy t.scheduled_start) tasks)
      × All (IsOfTask p timezone) events
unfolding map_tasks_to_calendar_events
map_tasks-IsOfTask p tasks colors timezone events h =
    events-IsOfTask p timezone colors (filter (λ t. truthy t.scheduled_start) tasks) events h
