-- ===== src/Sync/Rounds.antt =====
-- The rounds of refreshes do not overlap.
use task_calendar.Base.{
  ℕ, Bool, Option, none, some, is_some, not, ◌&&◌, List, [], ◌∷◌, if◌then◌else◌, ◌≡◌, refl, arith,
}
use task_calendar.Sync.{
  Sync, SyncEvent, signed_out_sync, run_task_sync_refresh, refresh_settled,
  clear_task_sync_interval, ensure_task_sync_interval, handle_visibility_change,
  handle_window_focus, sync_effect, sync_step, sync_all,
}

-- The timer of the reference is the only one that runs.
abbrev pub IsOnly : Option ℕ → List ℕ → Type 0
IsOnly none timers = timers ≡ []
IsOnly (some id) timers = timers ≡ id ∷ []

-- As many rounds are under way as the flag says, one or none, and as many timers run: the one of the
-- reference where a user is signed in and the page is visible, and else none.
abbrev pub IsSteady : Sync → Type 0
IsSteady s =
    (s.rounds ≡ (if s.is_in_flight then 1 else 0))
    × IsOnly s.interval s.timers
    × (is_some s.interval ≡ (s.is_signed_in && not s.is_hidden))

step-IsSteady : (event : SyncEvent) (s : Sync) → IsSteady s → IsSteady (sync_step event s)
unfolding sync_step run_task_sync_refresh refresh_settled clear_task_sync_interval
    ensure_task_sync_interval handle_visibility_change handle_window_focus sync_effect
step-IsSteady SyncEvent.tick s h = ground arith
step-IsSteady SyncEvent.focus s h = ground arith
step-IsSteady SyncEvent.settled s h = ground arith
step-IsSteady (SyncEvent.visibility is_hidden) s h = ground arith
step-IsSteady (SyncEvent.token is_signed_in) s h = ground arith

all-IsSteady : (s : Sync) (events : List SyncEvent) → IsSteady s → IsSteady (sync_all s events)
unfolding sync_all
all-IsSteady s [] h = h
all-IsSteady s (event ∷ events) h =
    all-IsSteady (sync_step event s) events (step-IsSteady event s h)

-- From a window without a user on, whatever happens in it and in any order: no two rounds of
-- refreshes overlap, a round is under way just when the flag says so, and no timer but the one in
-- `taskSyncIntervalRef` runs, which runs just while a user is signed in and the page is visible.
pub sync_all-IsSteady :
    (is_hidden : Bool) (events : List SyncEvent)
    → IsSteady (sync_all (signed_out_sync is_hidden) events)
sync_all-IsSteady is_hidden events =
    all-IsSteady (signed_out_sync is_hidden) events (refl, refl, refl)
