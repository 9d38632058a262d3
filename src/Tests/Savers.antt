-- ===== src/Tests/Savers.antt =====
-- The saving of orders at a concrete sequence of requests and answers.
use task_calendar.Base.{true, false, some, List, [], ◌∷◌, ◌++◌, ◌≡◌, refl}
use task_calendar.Base.Text.{codes}
use task_calendar.Saver.{SaveEvent, idle, save_all}
use task_calendar.Saver.Settling.{saves_settle}
use task_calendar.Task.{ScheduledTask}
use task_calendar.Sync.{SyncEvent, signed_out_sync, sync_all}
use task_calendar.Sync.Rounds.{IsSteady, sync_all-IsSteady}
use task_calendar.Tests.Data.{milk, bread}

abbrev rows : List ScheduledTask
rows = milk ∷ bread ∷ []

abbrev clicks : List SaveEvent
clicks =
    SaveEvent.requested (codes "a" ∷ codes "b" ∷ []) rows
    ∷ SaveEvent.requested (codes "b" ∷ codes "a" ∷ []) rows
    ∷ []

abbrev written : SaveEvent
written = SaveEvent.answered rows rows

abbrev refused : SaveEvent
refused = SaveEvent.failed (codes "offline") rows

saves_settle_example :
    ((save_all idle (clicks ++ written ∷ refused ∷ [])).saving ≡ false)
    × ((save_all idle (clicks ++ written ∷ refused ∷ [])).order_to_save
        ≡ some (codes "b" ∷ codes "a" ∷ []))
saves_settle_example = saves_settle clicks written refused refl refl

-- A user signs in, the window gets the focus twice, and the page is hidden.
abbrev morning : List SyncEvent
morning =
    SyncEvent.token true
    ∷ SyncEvent.focus
    ∷ SyncEvent.focus
    ∷ SyncEvent.settled
    ∷ SyncEvent.visibility true
    ∷ []

sync_all-IsSteady_example : IsSteady (sync_all (signed_out_sync false) morning)
sync_all-IsSteady_example = sync_all-IsSteady false morning
