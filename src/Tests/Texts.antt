-- ===== src/Tests/Texts.antt =====
-- Composed texts, colors and error messages at concrete values.
use task_calendar.Base.{none, some, [], ◌∷◌, ◌≡◌, refl}
use task_calendar.Base.Int.{pos, negsuc}
use task_calendar.Base.Text.{codes}
use task_calendar.Api.{Detail, ErrorReader, read_error_message, read_auth_error_message}
use task_calendar.Calendar.Colors.{readable_text_color, complementary_color, with_alpha}
use task_calendar.Labels.{format_change_count}
use task_calendar.Labels.Zones.{get_timezone_offset_minutes, format_timezone_label}

half_hour :
    get_timezone_offset_minutes (λ z. some (codes "GMT+05:30")) (codes "Asia/Kolkata") ≡ pos 330
unfolding get_timezone_offset_minutes
half_hour = refl

west :
    get_timezone_offset_minutes (λ z. some (codes "GMT-05:00")) (codes "America/Lima") ≡ negsuc 299
unfolding get_timezone_offset_minutes
west = refl

greenwich : get_timezone_offset_minutes (λ z. some (codes "GMT")) (codes "UTC") ≡ pos 0
unfolding get_timezone_offset_minutes
greenwich = refl

new_york :
    format_timezone_label (λ z. some (codes "GMT-05:00")) (codes "America/New_York")
    ≡ codes "New York (UTC-05:00)"
unfolding format_timezone_label
new_york = refl

one_change : format_change_count 1 ≡ codes "1 change"
unfolding format_change_count
one_change = refl

dark_green : readable_text_color (codes "#176b58") ≡ codes "#ffffff"
unfolding readable_text_color
dark_green = refl

opposite : complementary_color (codes "#176b58") ≡ codes "#e894a7"
unfolding complementary_color
opposite = refl

faded : with_alpha (codes "#176b58") (codes "0.32") ≡ codes "rgba(23, 107, 88, 0.32)"
unfolding with_alpha
faded = refl

both_messages :
    read_error_message ErrorReader.messages 422
      (Detail.listed (some (codes "too short") ∷ none ∷ some (codes "too long") ∷ []))
    ≡ codes "too short too long"
unfolding read_auth_error_message
both_messages = refl
