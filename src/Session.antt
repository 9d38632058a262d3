-- ===== src/Session.antt =====
-- What the screen remembers while the user changes tasks, frontend/src/App.tsx, and the small steps
-- that its handlers share. A handler that waits for an answer is two functions: one up to its
-- request, and one from the answer on, which runs on the screen of that moment.
pub mod Updates
pub mod Moves
pub mod Removals
pub mod Undoing
pub mod Quick
use task_calendar.Base.{ℕ, ◌+◌, ◌-◌, Bool, true, false, Option, none, some, List, []}
use task_calendar.Base.Text.{Text, codes}
use task_calendar.Platform.{Platform}
use task_calendar.Store.{Store, ListAnswer, begin_refresh, end_refresh, find_task, no_tasks}
use task_calendar.Task.{ScheduledTask, UpdateScheduledTaskInput, CreateScheduledTaskInput}
use task_calendar.Undo.{TaskUndoState, UpdateScope, DeleteScope}

pub data EditSource : Type 0 where
  form calendar : EditSource

pub data DeleteSource : Type 0 where
  detail menu : DeleteSource

-- `PendingTaskEditState`; `reverts` says whether it holds the calendar's `revert`.
pub record PendingTaskEdit : Type 0 where
  pub task_id : Text
  pub updates : UpdateScheduledTaskInput
  pub source : EditSource
  pub reverts : Bool

pub record PendingTaskDelete : Type 0 where
  pub task_id : Text
  pub source : DeleteSource

pub data ContextMenu : Type 0 where
  task category : Text → ContextMenu

pub data DetailPanel : Type 0 where
  create edit : DetailPanel

-- The parts of the component's state that these handlers read or write. `reverted` counts the calls
-- of a calendar's `revert`, `listing` the requests for all tasks that wait for an answer.
pub record Screen : Type 0 where
  pub store : Store
  pub unscheduled_order : List Text
  pub undo : Option TaskUndoState
  pub snackbar : Option Text
  pub form_error : Option Text
  pub pending_edit : Option PendingTaskEdit
  pub pending_delete : Option PendingTaskDelete
  pub selected : Option Text
  pub panel : Option DetailPanel
  pub menu : Option ContextMenu
  pub is_edit_saving : Bool
  pub is_deleting : Bool
  pub is_undoing : Bool
  pub is_duplicating : Bool
  pub reverted : ℕ
  pub listing : ℕ

pub data Request : Type 0 where
  patches : Text → UpdateScheduledTaskInput → Option UpdateScope → Request
  posts : CreateScheduledTaskInput → Request
  deletes : Text → DeleteScope → Request
  completes uncompletes : Text → Request

-- An answer, or what was thrown: the message of an `Error`, `none` if it is none.
pub data Reply {ℓ} (A : Type ℓ) : Type ℓ where
  answered : A → Reply A
  refused : Option Text → Reply A

-- `error instanceof Error ? error.message : fallback`
abbrev pub message_or : Text → Option Text → Text
message_or fallback none = fallback
message_or fallback (some message) = message

-- `tasksRef.current.find((task) => task.id === id)`
abbrev pub find : Screen → Text → Option ScheduledTask
find s id = find_task s.store.state.tasks id

unfoldable pub clear_undo_state : Screen → Screen
clear_undo_state s = record s { undo = none; snackbar = none }

unfoldable pub show_task_undo : Screen → TaskUndoState → Screen
show_task_undo s undo = record s { undo = some undo; snackbar = none }

unfoldable pub reload_tasks : Screen → Screen
reload_tasks s = record s { store = begin_refresh s.store; listing = s.listing + 1 }

-- What `resetAppData` leaves of this part.
abbrev pub reset_screen : Screen → Screen
reset_screen s = record s {
  store = no_tasks;
  selected = none;
  panel = none;
  form_error = none;
  undo = none;
  snackbar = none;
}

-- The answer of a reload.
unfoldable pub reload_answered : Platform → Bool → ListAnswer → Screen → Screen
unfolding end_refresh
reload_answered p silent ListAnswer.expired s = record (reset_screen s) { listing = s.listing - 1 }
reload_answered p silent answer s = record s {
  store = end_refresh p silent s.store answer;
  listing = s.listing - 1;
}

-- `pending?.revert?.()`, of the pending edit that the handler's closure holds.
abbrev pub revert_pending : Option PendingTaskEdit → Screen → Screen
revert_pending none s = s
revert_pending (some pending) s = elim pending.reverts [
  | true ↦ record s { reverted = s.reverted + 1 }
  | false ↦ s
]

abbrev pub revert_calendar : Option PendingTaskEdit → Screen → Screen
revert_calendar none s = s
revert_calendar (some pending) s = elim pending.source [
  | EditSource.form ↦ s
  | EditSource.calendar ↦ revert_pending (some pending) s
]

unfoldable pub close_detail_panel : Option PendingTaskEdit → Screen → Screen
close_detail_panel pending s = record (revert_calendar pending s) {
  menu = none;
  panel = none;
  selected = none;
  pending_edit = none;
  form_error = none;
}

-- What follows a change that may be undone.
abbrev pub offer_undo : Option TaskUndoState → Screen → Screen
offer_undo none s = s
offer_undo (some undo) s = show_task_undo s undo
