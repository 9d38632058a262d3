-- ===== src/Forms/Checks.antt =====
-- What the checks of `handleSubmit`, frontend/src/App.tsx, let through.
use task_calendar.Base.{
  Bool, true, false, ◌||◌, ◌≡◌, inl, inr, none, some, Option-cases, arith, ltb,
}
use task_calendar.Base.Text.{Text, is_empty, trim}
use task_calendar.Forms.{
  Submission, form_error, form_values, handle_submit, is_all_day_form_task, FormValues,
  create_input_of,
}
use task_calendar.Input.{
  has_incomplete_date_time_value, is_complete_date_time_value, parse_positive_integer_or_zero,
}
use task_calendar.Clock.Keys.{is_valid_time_range}
use task_calendar.Recurrence.{repeats, validate_recurrence_until}
use task_calendar.Platform.{Platform}
use task_calendar.Task.{TaskFormState, CreateScheduledTaskInput}

module _ (p : Platform) (timezone : Text) where
  -- What holds of a form that passes the checks.
  pub record IsSendable (form : TaskFormState) (all_day : Bool) : Type 0 where
    pub titled : is_empty (trim form.title) ≡ false
    pub of_day : is_all_day_form_task p timezone form ≡ some all_day
    pub complete :
        (all_day ≡ false)
        → (has_incomplete_date_time_value form.scheduled_start
            || has_incomplete_date_time_value form.scheduled_end)
          ≡ false
    pub ordered : is_valid_time_range p form.scheduled_start form.scheduled_end ≡ true
    pub starts :
        (repeats form.recurrence_frequency ≡ true)
        → (all_day || is_complete_date_time_value form.scheduled_start) ≡ true
    pub spaced :
        (repeats form.recurrence_frequency ≡ true)
        → ltb (parse_positive_integer_or_zero form.recurrence_interval) 1 ≡ false
    pub ends :
        validate_recurrence_until p form.recurrence_frequency form.recurrence_until
          form.scheduled_start timezone
        ≡ some none

  form_error-IsSendable :
      (form : TaskFormState)
      → form_error p timezone form ≡ some none
      → (all_day : Bool) × IsSendable form all_day
  unfolding form_error
  form_error-IsSendable form h = elim (Option-cases (is_all_day_form_task p timezone form)) [
    | inl e ↦ ground arith
    | inr (all_day, e) ↦ (
      all_day,
      record {
        titled = ground arith;
        of_day = e;
        complete = ground arith;
        ordered = ground arith;
        starts = ground arith;
        spaced = ground arith;
        ends = ground arith;
      },
    )
  ]

  sent_form :
      (form : TaskFormState) {input : CreateScheduledTaskInput}
      → handle_submit p timezone form ≡ some (Submission.sent input)
      → (form_error p timezone form ≡ some none)
        × ((v : FormValues) × (form_values p timezone form ≡ some v)
            × (create_input_of p timezone v ≡ input))
  unfolding handle_submit
  sent_form form {input} h = elim (Option-cases (form_error p timezone form)) [
    | inl e ↦ ground arith
    | inr (some message, e) ↦ ground arith
    | inr (none, e) ↦ elim (Option-cases (form_values p timezone form)) [
      | inl f ↦ ground arith
      | inr (v, f) ↦ (e, (v, f, ground arith))
    ]
  ]

  -- A form of which an input is sent has passed every check: it has a title, complete dates and
  -- times unless it is of a whole day, an end after its start, and, if it repeats, a start, an
  -- interval of at least 1 and an end of the series that is not before the start. The input holds
  -- the form's values.
  pub handle_submit-IsSendable :
      (form : TaskFormState) {input : CreateScheduledTaskInput}
      → handle_submit p timezone form ≡ some (Submission.sent input)
      → ((all_day : Bool) × IsSendable form all_day)
        × ((v : FormValues) × (form_values p timezone form ≡ some v)
            × (create_input_of p timezone v ≡ input))
  handle_submit-IsSendable form h =
      (form_error-IsSendable form (sent_form form h).0, (sent_form form h).1)
