-- ===== src/Account/Display/Hours.antt =====
-- The working hours that the server sends. The effect that saves the working hours of the state
-- runs at the start of the program, before any answer.
use task_calendar.Base.{true, some, some_inj, ◌≡◌, sym, ap, ◌∙◌}
use task_calendar.Base.Json.{JsonText}
use task_calendar.Account.Display.{Display, SettingsAnswer, settings_answered, loaded_hours}
use task_calendar.Api.Answers.{AppSettings}
use task_calendar.Prefs.{has_stored_working_hours, is_stored}
use task_calendar.Prefs.Initial.{Preferences, save_preferences}
use task_calendar.Prefs.RoundTrip.{written}
use task_calendar.Storage.{LocalStorage}
use task_calendar.Storage.Laws.{IsWritable}

stored_after_start :
    (json : JsonText) (p : Preferences) (storage : LocalStorage)
    → IsWritable storage
    → has_stored_working_hours (save_preferences json p storage) ≡ true
unfolding has_stored_working_hours
stored_after_start json p storage h = ap is_stored (written json p storage h).3

-- Once the effects of the start have saved the preferences, which they can where the store can be
-- written, the settings of the server do not change the working hours, whatever they are.
pub settings_answered-ignores_hours :
    (json : JsonText) (p : Preferences) (storage : LocalStorage) (settings : AppSettings)
    (d after : Display)
    → IsWritable storage
    → d.account.storage ≡ save_preferences json p storage
    → settings_answered (SettingsAnswer.loaded settings) d ≡ some after
    → after.working_hours ≡ d.working_hours
unfolding settings_answered
settings_answered-ignores_hours json p storage settings d after w saved h =
    ap (λ e. e.working_hours) (sym (some_inj h))
    ∙ ap (λ b. loaded_hours b settings.working_hours_start d.working_hours)
        (ap has_stored_working_hours saved ∙ stored_after_start json p storage w)
