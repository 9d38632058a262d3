-- ===== src/Calendar/Schedules.antt =====
-- What a drop and a move in the calendar make of a task.
use task_calendar.Base.{
  ℕ, ◌*◌, Bool, true, false, not, Option, none, some, [], ◌∷◌, ◌++◌, is_some, some_inj, ◌≡◌, ◌≢◌,
  refl, sym, ap, ◌∙◌, arith, Option-cases, Bool-cases, inl, inr,
}
use mathlib.Core.Path.{subst}
use task_calendar.Base.Int.{ℤ, pos, ◌+ℤ◌}
use task_calendar.Base.Text.{Text, truthy, is_empty, codes}
use task_calendar.Calendar.{
  schedule_of, due_cleared, dropped_end, end_iso, get_task_drag_duration_minutes, CalendarEvent,
  get_calendar_event_schedule_update, get_calendar_drop_schedule_update, all_day_schedule,
}
use task_calendar.Calendar.Events.{event_start, given}
use task_calendar.Clock.{
  chained, date_to_date_time_local_value, refine, round, zoned_date_time_to_iso, wall_clock_ms,
  zoned_ms,
}
use task_calendar.Clock.Civil.{time_clip, to_iso}
use task_calendar.Clock.Civil.Letters.{to_iso-ne-nil}
use task_calendar.Clock.Keys.{
  calendar_date_to_date_time_local_value, calendar_date_to_date_input_value,
  date_only_to_api_date_time, date_time_to_calendar_wall_clock,
}
use task_calendar.Order.{is_unscheduled}
use task_calendar.Platform.{Platform}
use task_calendar.Task.{ScheduledTask, UpdateScheduledTaskInput}
use task_calendar.Undo.Restore.{patch}

nonempty : (s : Text) → s ≢ [] → is_empty s ≡ false
nonempty [] h = absurd (h refl)
nonempty (c ∷ s) h = refl

append_nonempty : (s : Text) (c : ℕ) (t : Text) → is_empty (s ++ c ∷ t) ≡ false
append_nonempty [] c t = refl
append_nonempty (d ∷ s) c t = refl

day_nonempty : (value : Text) → is_empty (date_only_to_api_date_time value) ≡ false
unfolding date_only_to_api_date_time
day_nonempty value = append_nonempty value b'T' (codes "00:00:00")

time_clip-same : (t u : ℤ) → time_clip t ≡ some u → u ≡ t
unfolding time_clip
time_clip-same t u h = ground (arith, h)

-- What `zonedDateTimeToIso` gives is the text of the instant for the reading of its value.
pub zoned_iso :
    (offset : Text → ℤ → ℤ) (value timezone : Text) (iso : Text)
    → zoned_date_time_to_iso offset value timezone ≡ some iso
    → (w : ℤ) × (wall_clock_ms value ≡ some w) × (to_iso (zoned_ms offset w timezone) ≡ iso)
unfolding zoned_date_time_to_iso
zoned_iso offset value timezone iso h =
    let (w, read, rest) = chained (wall_clock_ms value) _ iso h in
    let (first, _, next) = chained (round offset w timezone) _ iso rest in
    let (second, _, last) =
      chained (round offset (refine offset 1 w w timezone) timezone) _ iso next in
    let (t, clipped, made) = chained (time_clip (zoned_ms offset w timezone)) _ iso last in
    (w, read, ap to_iso (sym (time_clip-same _ t clipped)) ∙ some_inj made)

zoned_nonempty :
    (offset : Text → ℤ → ℤ) (value timezone : Text) {iso : Text}
    → zoned_date_time_to_iso offset value timezone ≡ some iso
    → is_empty iso ≡ false
zoned_nonempty offset value timezone {iso} h =
    let (w, read, made) = zoned_iso offset value timezone iso h in
    rw (sym made) (nonempty (to_iso (zoned_ms offset w timezone)) (to_iso-ne-nil _))

-- A text that is not empty is taken as it is.
pub given-nonempty : (s : Text) → is_empty s ≡ false → given (some s) ≡ some s
given-nonempty [] h = absurd (cc)
given-nonempty (c ∷ s) h = refl

module _ (p : Platform) (task : ScheduledTask) (timezone : Text) where
  -- The times of a task that was dropped at `date`: on a day its text and no end; else the instant
  -- that the zone's clock makes of the date's reading `w`, and an end later by the task's drag
  -- duration, and the calendar shows the start as the wall clock of its instant.
  abbrev pub PlacedAt : ℤ → Bool → ScheduledTask → Type 0
  PlacedAt date true placed =
      (placed.scheduled_start
        ≡ some (date_only_to_api_date_time (calendar_date_to_date_input_value date)))
      × (placed.scheduled_end ≡ none)
  PlacedAt date false placed =
      (w : ℤ) × (start : ℤ) × (wall_clock_ms (calendar_date_to_date_time_local_value date) ≡ some w)
      × (placed.scheduled_start ≡ some (to_iso (zoned_ms p.offset w timezone)))
      × (p.parse_date (to_iso (zoned_ms p.offset w timezone)) ≡ some start)
      × (placed.scheduled_end
          ≡ some (to_iso (start +ℤ pos (get_task_drag_duration_minutes p task false * 60000))))
      × (event_start p placed timezone
          ≡ some (some (date_to_date_time_local_value p.offset start timezone)))

  -- What holds of the task once an update has put it into the calendar.
  abbrev pub IsPlaced : ℤ → Bool → UpdateScheduledTaskInput → Type 0
  IsPlaced date all_day u =
      (is_unscheduled (patch u task) ≡ false)
      × (truthy (patch u task).scheduled_start ≡ true)
      × (truthy (patch u task).due_at ≡ false)
      × ((patch u task).all_day ≡ all_day)
      × PlacedAt date all_day (patch u task)

  placed :
      (start : Text) (end : Option Text) (all_day : Bool)
      → is_empty start ≡ false
      → (let u = schedule_of (some start) end all_day (due_cleared (some task)) in
          (is_unscheduled (patch u task) ≡ false)
          × (truthy (patch u task).scheduled_start ≡ true)
          × (truthy (patch u task).due_at ≡ false))
  unfolding patch is_unscheduled
  placed start end all_day h = elim (Bool-cases (truthy task.due_at)) [
    | inl due ↦ (ground arith, ground arith, rw due refl)
    | inr free ↦ (ground arith, ground arith, rw free free)
  ]

  day-IsPlaced : (date : ℤ) → IsPlaced date true (all_day_schedule p date (due_cleared (some task)))
  day-IsPlaced date =
      let day : Text = date_only_to_api_date_time (calendar_date_to_date_input_value date) in
      let (here, starts, free) = placed day none true (day_nonempty _) in
      (here, starts, free, unfold patch in refl, unfold patch in (refl, refl))

  timed_placed :
      (start end : Option ℤ) (all_day : Bool) {u : UpdateScheduledTaskInput}
      → get_calendar_event_schedule_update p
          (record { start = start; end = end; all_day = all_day })
          (some task)
          timezone
        ≡ some u
      → (is_unscheduled (patch u task) ≡ not (is_some start))
        × (truthy (patch u task).due_at ≡ false)
  unfolding get_calendar_event_schedule_update
  timed_placed none end all_day h =
      subst (λ u. (is_unscheduled (patch u task) ≡ true) × (truthy (patch u task).due_at ≡ false))
        (some_inj h) (unfold patch is_unscheduled in (refl, refl))
  timed_placed (some start) end true h =
      let (here, starts, free, day, at) =
        subst (IsPlaced start true) (some_inj h) (day-IsPlaced start) in
      (here, free)
  timed_placed (some start) end false h =
      let value : Text = calendar_date_to_date_time_local_value start in
      elim (Option-cases (zoned_date_time_to_iso p.offset value timezone)) [
        | inl e ↦ absurd (ground (arith, e))
        | inr (iso, e) ↦ elim (Option-cases (end_iso p timezone end)) [
          | inl f ↦ absurd (ground (arith, e, f))
          | inr (end_text, f) ↦
              subst
                (λ u.
                  (is_unscheduled (patch u task) ≡ false) × (truthy (patch u task).due_at ≡ false))
                (some_inj (rw (e, f) at h))
                (let (here, starts, free) =
                    placed iso end_text false (zoned_nonempty p.offset value timezone e) in
                  (here, free))
        ]
      ]

  -- A task whose event is moved in the calendar loses its due date, and is then without a time
  -- just if the event has no start.
  pub move-unscheduled :
      (event : CalendarEvent) {u : UpdateScheduledTaskInput}
      → get_calendar_event_schedule_update p event (some task) timezone ≡ some u
      → (is_unscheduled (patch u task) ≡ not (is_some event.start))
        × (truthy (patch u task).due_at ≡ false)
  move-unscheduled event h = timed_placed event.start event.end event.all_day h

  clock-IsPlaced :
      (date w start : ℤ)
      → wall_clock_ms (calendar_date_to_date_time_local_value date) ≡ some w
      → p.parse_date (to_iso (zoned_ms p.offset w timezone)) ≡ some start
      → (let minutes = get_task_drag_duration_minutes p task false in
          IsPlaced date false (
            schedule_of
              (some (to_iso (zoned_ms p.offset w timezone)))
              (some (to_iso (start +ℤ pos (minutes * 60000))))
              false
              (due_cleared (some task))))
  clock-IsPlaced date w start e r =
      let text : Text = to_iso (zoned_ms p.offset w timezone) in
      let full : is_empty text ≡ false = nonempty text (to_iso-ne-nil _) in
      let (here, starts, free) = placed text (some (to_iso _)) false full in
      (
        here,
        starts,
        free,
        unfold patch in refl,
        unfold patch in
            (
              w,
              start,
              e,
              refl,
              r,
              refl,
              unfold event_start date_time_to_calendar_wall_clock in
                  rw (given-nonempty text full, r) refl,
            ),
      )

  pub drop-IsPlaced :
      (date : ℤ) (all_day : Bool) {u : UpdateScheduledTaskInput}
      → get_calendar_drop_schedule_update p task date all_day timezone ≡ some u
      → IsPlaced date all_day u
  unfolding get_calendar_drop_schedule_update
  drop-IsPlaced date true h = subst (IsPlaced date true) (some_inj h) (day-IsPlaced date)
  drop-IsPlaced date false {u} h =
      let value : Text = calendar_date_to_date_time_local_value date in
      let minutes : ℕ = get_task_drag_duration_minutes p task false in
      let (iso, at, rest) = chained (zoned_date_time_to_iso p.offset value timezone) _ u h in
      let (end, until, made) = chained (dropped_end p iso minutes) _ u rest in
      let (w, read, found) = zoned_iso p.offset value timezone iso at in
      let (start, parsed, ended) = chained (p.parse_date iso) _ end until in
      let (t, clipped, text) = chained (time_clip (start +ℤ pos (minutes * 60000))) _ end ended in
      let ends = sym (some_inj text) ∙ ap to_iso (time_clip-same _ t clipped) in
      let parsed_start : p.parse_date (to_iso (zoned_ms p.offset w timezone)) ≡ some start =
        subst (λ s. p.parse_date s ≡ some start) (sym found) parsed in
      subst (IsPlaced date false)
        (ap
            (λ i.
              schedule_of (some i) (some (to_iso (start +ℤ pos (minutes * 60000)))) false
                (due_cleared (some task)))
            found
          ∙ ap (λ e. schedule_of (some iso) (some e) false (due_cleared (some task))) (sym ends)
          ∙ some_inj made)
        (clock-IsPlaced date w start read parsed_start)
