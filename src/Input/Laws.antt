-- ===== src/Input/Laws.antt =====
-- Counts, complete date-time values and their parts.
use task_calendar.Base.{ℕ, ◌≡◌, refl}
use task_calendar.Base.Text.Decimal.{show, parse_int-show}
use task_calendar.Input.{parse_positive_integer_or_zero}

-- A printed count is read back.
pub count-show : (n : ℕ) → parse_positive_integer_or_zero (show n) ≡ n
unfolding parse_positive_integer_or_zero
count-show n = rw (parse_int-show n) refl
