-- ===== src/Tests/Stores.antt =====
-- The tasks in memory at concrete answers of the server.
use task_calendar.Base.{true, false, some, List, [], ◌∷◌, ◌≡◌, refl, sym, ◌∙◌, some_inj}
use task_calendar.Base.Ids.{distinct, contains}
use task_calendar.Base.Maps.{entry}
use task_calendar.Base.Text.{codes, text_eq, split}
use task_calendar.Base.Text.Decimal.{scan_digits}
use task_calendar.Clock.{wall_clock_ms}
use task_calendar.Clock.Civil.{utc_ms}
use task_calendar.Store.{
  Store, TaskStatus, ListAnswer, find_task, is_task_at_least_as_fresh, replace_task_in_state,
  end_refresh,
}
use task_calendar.Store.Merging.{newest, pending}
use task_calendar.Store.Refresh.{IsSound, end_refresh-newest, replace_task-survives}
use task_calendar.Task.{ScheduledTask}
use task_calendar.Tests.Data.{milk, bread, browser, read_date}

abbrev old_rows : List ScheduledTask
old_rows = milk ∷ bread ∷ []

-- A later change of a task.
abbrev toast : ScheduledTask
toast = record bread { title = codes "Toast"; updated_at = codes "2026-01-03T00:00:00.000Z" }

abbrev shown_now : Store
shown_now = record {
  state = record { status = TaskStatus.ready; tasks = old_rows };
  local = (codes "b", record bread { completed = true }) ∷ [];
}

shown_now-IsSound : IsSound shown_now
unfolding distinct contains
shown_now-IsSound = record { keyed = (refl, tt); once = refl }

end_refresh-newest_example :
    (find_task
        (end_refresh browser false shown_now (ListAnswer.loaded old_rows)).state.tasks
        (codes "b")
      ≡ newest browser (find_task old_rows (codes "b")) (entry shown_now.local (codes "b")))
    × (entry (end_refresh browser false shown_now (ListAnswer.loaded old_rows)).local (codes "b")
        ≡ pending browser (find_task old_rows (codes "b")) (entry shown_now.local (codes "b")))
end_refresh-newest_example =
    end_refresh-newest browser false shown_now old_rows (codes "b") shown_now-IsSound

bread_row : find_task old_rows (codes "b") ≡ some bread
unfolding find_task text_eq
bread_row = refl

bread_older : is_task_at_least_as_fresh browser bread toast ≡ false
unfolding is_task_at_least_as_fresh read_date wall_clock_ms split utc_ms scan_digits
bread_older = refl

replace_task-survives_example :
    (let after =
        end_refresh browser false
          (replace_task_in_state shown_now toast)
          (ListAnswer.loaded old_rows) in
      (find_task after.state.tasks (codes "b") ≡ some toast)
      × (entry after.local (codes "b") ≡ some toast))
replace_task-survives_example =
    replace_task-survives browser false shown_now toast old_rows shown_now-IsSound
      (λ row e. rw (sym (some_inj (sym bread_row ∙ e))) bread_older)
