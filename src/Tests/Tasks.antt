-- ===== src/Tests/Tasks.antt =====
-- Undo, reminders and the form at concrete tasks.
use task_calendar.Base.{Bool, true, false, none, some, ◌≡◌, refl}
use task_calendar.Base.Text.{codes}
use task_calendar.Base.Text.{
  split, trim, join, is_prefix, is_space, replace_first, split_from, trim_start,
}
use task_calendar.Base.Text.Decimal.{scan_digits, parse_int, is_digit, pad2, show}
use task_calendar.Base.Int.{◌-ℤ◌, ◌+ℤ◌}
use task_calendar.Clock.Keys.{
  get_date_only_scheduled_start_iso, to_iso_or_null, end_of_local_date_to_iso, is_valid_time_range,
  date_lt,
}
use task_calendar.Clock.{
  zoned_date_time_to_iso, get_timezone_offset_milliseconds, refine, round, to_number, wall_clock_ms,
  zoned_ms,
}
use task_calendar.Clock.Civil.{
  time_clip, utc_ms, shown_year, fields_of, date_of_day, to_iso, day_of_month, days_before_month,
  days_before_year, days_in_month, days_in_year, is_leap, iso_year,
}
use task_calendar.Input.{
  is_complete_date_time_value, parse_positive_integer_or_zero, is_clock_time,
  split_date_time_input_value, has_incomplete_date_time_value,
}
use task_calendar.Recurrence.{build_recurrence_rule, validate_recurrence_until}
use task_calendar.Forms.{
  FormValues, Submission, form_values, build_task_updates, handle_submit, create_input_of,
}
use task_calendar.Forms.Checks.{IsSendable, handle_submit-IsSendable}
use task_calendar.Forms.Edits.{edited, patch-build_task_updates}
use task_calendar.Reminder.{
  get_default_reminder_amount, reminder_amount, get_notification_settings,
  notification_form_state_from_task,
}
use task_calendar.Reminder.RoundTrip.{settings_form_round_trip, all_day_offset_round_trip}
use task_calendar.Task.{UpdateScheduledTaskInput, EditFormState, keys}
use task_calendar.Tests.Data.{read_date, milk, gym, shopping, browser, weekly_form}
use task_calendar.Undo.{
  UndoKind, UpdateScope, TaskUndoState, build_task_update_input_from_snapshot,
  build_update_task_undo,
}
use task_calendar.Undo.Offer.{TakesBack, offer-TakesBack}
use task_calendar.Undo.Restore.{patch, patch-restore}

patch-restore_example :
    patch (build_task_update_input_from_snapshot milk (some (keys shopping))) (patch shopping milk)
    ≡ milk
patch-restore_example = patch-restore milk shopping

settings_form_round_trip_example :
    get_notification_settings (notification_form_state_from_task milk) false
    ≡ record { enabled = true; offset_minutes = 90; channel = some (codes "discord") }
settings_form_round_trip_example = settings_form_round_trip milk

abbrev saved_undo : TaskUndoState
saved_undo = record {
  message = codes "Saved";
  task = some milk;
  kind = UndoKind.update;
  restore_fields = some (keys shopping);
  update_scope = none;
}

all_day_offset_round_trip_example :
    (get_notification_settings (notification_form_state_from_task milk) true).offset_minutes
    ≡ 129600
all_day_offset_round_trip_example = all_day_offset_round_trip milk

offer-TakesBack_example :
    (UpdateScope.single ≡ UpdateScope.single) × TakesBack milk shopping saved_undo
unfolding build_update_task_undo
offer-TakesBack_example = offer-TakesBack milk shopping UpdateScope.single (codes "Saved") refl

abbrev weekly_values : FormValues
weekly_values = record {
  title = codes "Gym";
  list_id = none;
  notes = none;
  scheduled_start = some (codes "2026-03-30T08:00:00.000Z");
  scheduled_end = some (codes "2026-03-30T09:30:00.000Z");
  all_day = false;
  recurrence_rule = some (codes "FREQ=WEEKLY;INTERVAL=2;UNTIL=2026-06-30T21:59:59.999Z");
  notification_enabled = false;
  notification_offset_minutes = 0;
  notification_channel = none;
}

weekly_form_values : form_values browser (codes "Europe/Berlin") weekly_form ≡ some weekly_values
unfolding form_values read_date get_date_only_scheduled_start_iso split to_iso_or_null
    is_complete_date_time_value zoned_date_time_to_iso time_clip ◌-ℤ◌ utc_ms scan_digits shown_year
    fields_of date_of_day build_recurrence_rule parse_positive_integer_or_zero parse_int
    end_of_local_date_to_iso trim to_iso join get_notification_settings ◌+ℤ◌ is_digit pad2 show
    is_prefix is_space replace_first split_from trim_start day_of_month days_before_month
    days_before_year days_in_month days_in_year is_leap iso_year get_timezone_offset_milliseconds
    refine round to_number wall_clock_ms zoned_ms is_clock_time split_date_time_input_value
    get_default_reminder_amount reminder_amount
weekly_form_values = refl

abbrev weekly_edit : EditFormState
weekly_edit = record { form = weekly_form; completed = true }

patch-build_task_updates_example :
    (u : UpdateScheduledTaskInput) × (build_task_updates browser
        (codes "Europe/Berlin")
        gym
        weekly_edit
      ≡ some u)
    × (patch u gym ≡ edited gym weekly_values true)
patch-build_task_updates_example =
    patch-build_task_updates browser (codes "Europe/Berlin") gym weekly_edit weekly_form_values

weekly_submission :
    handle_submit browser (codes "Europe/Berlin") weekly_form
    ≡ some (Submission.sent (create_input_of browser (codes "Europe/Berlin") weekly_values))
unfolding handle_submit get_date_only_scheduled_start_iso split to_iso_or_null
    is_complete_date_time_value zoned_date_time_to_iso time_clip ◌-ℤ◌ utc_ms scan_digits shown_year
    fields_of date_of_day build_recurrence_rule parse_positive_integer_or_zero parse_int
    end_of_local_date_to_iso trim to_iso join get_notification_settings ◌+ℤ◌ is_digit pad2 show
    is_prefix is_space replace_first split_from trim_start day_of_month days_before_month
    days_before_year days_in_month days_in_year is_leap iso_year get_timezone_offset_milliseconds
    refine round to_number wall_clock_ms zoned_ms is_clock_time split_date_time_input_value
    get_default_reminder_amount reminder_amount has_incomplete_date_time_value is_valid_time_range
    date_lt read_date validate_recurrence_until
weekly_submission = refl

handle_submit-IsSendable_example :
    ((all_day : Bool) × IsSendable browser (codes "Europe/Berlin") weekly_form all_day)
    × ((v : FormValues) × (form_values browser (codes "Europe/Berlin") weekly_form ≡ some v)
        × (create_input_of browser (codes "Europe/Berlin") v
            ≡ create_input_of browser (codes "Europe/Berlin") weekly_values))
handle_submit-IsSendable_example =
    handle_submit-IsSendable browser (codes "Europe/Berlin") weekly_form weekly_submission
