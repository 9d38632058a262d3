-- ===== src/Sync.antt =====
-- The refreshes that keep a window up to date, frontend/src/App.tsx: every thirty seconds while the
-- page is visible, when it becomes visible and when the window gets the focus, one at a time.
pub mod Rounds
use task_calendar.Base.{
  ℕ, ◌+◌, ◌-◌, Bool, true, false, not, ◌&&◌, ◌||◌, List, [], ◌∷◌, filter, Option, none, some, ◌==◌,
  if◌then◌else◌,
}

-- `is_in_flight` is `taskSyncInFlightRef`, `interval` the number in `taskSyncIntervalRef`, `timers`
-- the browser's running timers, of which `next_timer` will be the next one's number, `is_hidden` is
-- `document.hidden`, and `is_signed_in` whether there is a token, without which the effect does not
-- listen. `rounds` counts the pairs of refreshes under way.
pub record Sync : Type 0 where
  pub is_in_flight : Bool
  pub interval : Option ℕ
  pub timers : List ℕ
  pub next_timer : ℕ
  pub is_hidden : Bool
  pub is_signed_in : Bool
  pub rounds : ℕ

abbrev pub signed_out_sync : Bool → Sync
signed_out_sync is_hidden = record {
  is_in_flight = false;
  interval = none;
  timers = [];
  next_timer = 1;
  is_hidden = is_hidden;
  is_signed_in = false;
  rounds = 0;
}

unfoldable pub run_task_sync_refresh : Sync → Sync
run_task_sync_refresh s =
    if s.is_in_flight || not s.is_signed_in
    then s
    else record s { is_in_flight = true; rounds = s.rounds + 1 }

-- Both refreshes of a round have ended, which they do also after an error.
unfoldable pub refresh_settled : Sync → Sync
refresh_settled s =
    if s.is_in_flight then record s { is_in_flight = false; rounds = s.rounds - 1 } else s

unfoldable pub clear_task_sync_interval : Sync → Sync
clear_task_sync_interval s = elim s.interval [
  | none ↦ s
  | some id ↦ record s { interval = none; timers = filter (λ t. not (t == id)) s.timers }
]

-- `window.setInterval` gives the number of the timer that it starts.
abbrev set_interval : Sync → Sync
set_interval s = record s {
  interval = some s.next_timer;
  timers = s.next_timer ∷ s.timers;
  next_timer = s.next_timer + 1;
}

-- The timer is stopped, and starts anew where the page is visible.
unfoldable pub ensure_task_sync_interval : Sync → Sync
unfolding clear_task_sync_interval
ensure_task_sync_interval s =
    let cleared = clear_task_sync_interval s in
    if cleared.is_hidden then cleared else set_interval cleared

abbrev when : Bool → (Sync → Sync) → Sync → Sync
when true act s = act s
when false act s = s

-- The page is hidden or shown, and the handler runs where the effect listens.
unfoldable pub handle_visibility_change : Bool → Sync → Sync
unfolding clear_task_sync_interval run_task_sync_refresh ensure_task_sync_interval
handle_visibility_change is_hidden s =
    when s.is_signed_in
      (λ t.
        if is_hidden
        then clear_task_sync_interval t
        else ensure_task_sync_interval (run_task_sync_refresh t))
      (record s { is_hidden = is_hidden })

unfoldable pub handle_window_focus : Sync → Sync
unfolding run_task_sync_refresh
handle_window_focus s = when (s.is_signed_in && not s.is_hidden) run_task_sync_refresh s

-- The effect is cleaned up and runs again, with a token or without one.
unfoldable pub sync_effect : Bool → Sync → Sync
unfolding clear_task_sync_interval run_task_sync_refresh ensure_task_sync_interval
sync_effect is_signed_in s =
    when is_signed_in (λ t. ensure_task_sync_interval (run_task_sync_refresh t))
      (record (clear_task_sync_interval s) { is_signed_in = is_signed_in })

-- A tick is a running timer's, and there is none without one.
pub data SyncEvent : Type 0 where
  tick focus settled : SyncEvent
  visibility token : Bool → SyncEvent

abbrev ticks : List ℕ → Bool
ticks [] = false
ticks (t ∷ ts) = true

unfoldable pub sync_step : SyncEvent → Sync → Sync
unfolding run_task_sync_refresh handle_window_focus refresh_settled handle_visibility_change
    sync_effect
sync_step SyncEvent.tick s = when (ticks s.timers) run_task_sync_refresh s
sync_step SyncEvent.focus s = handle_window_focus s
sync_step SyncEvent.settled s = refresh_settled s
sync_step (SyncEvent.visibility is_hidden) s = handle_visibility_change is_hidden s
sync_step (SyncEvent.token is_signed_in) s = sync_effect is_signed_in s

unfoldable pub sync_all : Sync → List SyncEvent → Sync
unfolding sync_step
sync_all s [] = s
sync_all s (event ∷ events) = sync_all (sync_step event s) events
