-- ===== src/Saver.antt =====
-- `persistUnscheduledOrder` of frontend/src/App.tsx: orders that are saved one after another, where
-- a newer order replaces one that still waits.
pub mod Settling
use task_calendar.Base.{
  ℕ, Bool, true, false, Option, none, some, List, [], ◌∷◌, ◌++◌, if◌then◌else◌,
}
use task_calendar.Base.Text.{Text}
use task_calendar.Order.{build_unscheduled_order_updates}
use task_calendar.Task.{ScheduledTask}

-- `unscheduledOrderSaveStateRef` with `orderToSave` of the loop. While `saving` holds, the loop
-- waits for the answers to its requests.
pub record Saver : Type 0 where
  pub saving : Bool
  pub queued : Option (List Text)
  pub order_to_save : Option (List Text)

abbrev pub idle : Saver
idle = record { saving = false; queued = none; order_to_save = none }

-- What the user and the server do; each comes with the tasks that `tasksRef` holds then. An answer
-- that fails comes with its message.
pub data SaveEvent : Type 0 where
  requested : List Text → List ScheduledTask → SaveEvent
  answered : List ScheduledTask → List ScheduledTask → SaveEvent
  failed : Text → List ScheduledTask → SaveEvent

-- What the loop does to the rest of the program: the undo is cleared, requests are sent, their rows
-- replace tasks in memory, or a message is shown, the local order dropped and the tasks refreshed.
pub data SaveEffect : Type 0 where
  clears_undo : SaveEffect
  sends : List (Text × ℕ) → SaveEffect
  replaces : List ScheduledTask → SaveEffect
  reports : Text → SaveEffect

abbrev pub sending : List Text → List (Text × ℕ) → Saver × List SaveEffect
sending order [] = (
  record { saving = false; queued = none; order_to_save = some order },
  SaveEffect.clears_undo ∷ [],
)
sending order (u ∷ updates) = (
  record { saving = true; queued = none; order_to_save = some order },
  SaveEffect.clears_undo ∷ SaveEffect.sends (u ∷ updates) ∷ [],
)

-- The loop up to its next wait, or to its end. An order that changes no row is done at once, and
-- nothing is queued after it.
unfoldable pub next_round : Saver → List ScheduledTask → Saver × List SaveEffect
next_round saver tasks = elim saver.queued [
  | none ↦ (record saver { saving = false }, [])
  | some order ↦ sending order (build_unscheduled_order_updates order tasks)
]

abbrev resumed : List SaveEffect → Saver × List SaveEffect → Saver × List SaveEffect
resumed effects result = (result.0, effects ++ result.1)

-- An answer finds a waiting loop only while it saves.
unfoldable pub save_step : Saver → SaveEvent → Saver × List SaveEffect
unfolding next_round
save_step saver (SaveEvent.requested order tasks) =
    if saver.saving
    then (record saver { queued = some order }, [])
    else next_round (record saver { queued = some order }) tasks
save_step saver (SaveEvent.answered updated tasks) =
    if saver.saving
    then resumed (SaveEffect.replaces updated ∷ []) (next_round saver tasks)
    else (saver, [])
save_step saver (SaveEvent.failed message tasks) =
    if saver.saving
    then resumed (SaveEffect.reports message ∷ []) (next_round saver tasks)
    else (saver, [])

unfoldable pub save_all : Saver → List SaveEvent → Saver
unfolding save_step
save_all saver [] = saver
save_all saver (event ∷ events) = save_all (save_step saver event).0 events
