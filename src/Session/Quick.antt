-- ===== src/Session/Quick.antt =====
-- The bounds of a quick action.
use task_calendar.Base.Int.{ℤ, ◌+ℤ◌, ◌-ℤ◌, ◌≤ℤ◌}
use task_calendar.Platform.{Platform}
use task_calendar.Session.Updates.{step_ms}

-- Two dates, each at most fifteen minutes from where it was.
abbrev pub IsNear : ℤ → ℤ → ℤ × ℤ → Type 0
IsNear s e t =
    (s -ℤ step_ms ≤ℤ t.0) × (t.0 ≤ℤ s +ℤ step_ms) × (e -ℤ step_ms ≤ℤ t.1) × (t.1 ≤ℤ e +ℤ step_ms)
