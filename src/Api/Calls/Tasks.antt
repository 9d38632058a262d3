-- ===== src/Api/Calls/Tasks.antt =====
-- The requests of frontend/src/api/tasks.ts and taskLists.ts. `URLSearchParams` is a parameter: how
-- the browser writes the names and values of a query.
use task_calendar.Base.{
  ℕ, Bool, true, false, Option, none, some, List, [], ◌∷◌, ◌++◌, if◌then◌else◌,
}
use task_calendar.Base.Int.{ℤ}
use task_calendar.Base.Json.{Json, Members, count, or_nothing, optional}
use task_calendar.Base.Text.{Text, codes, truthy}
use task_calendar.Api.{ErrorReader}
use task_calendar.Api.Calls.{Call, request}
use task_calendar.Api.Routes
use task_calendar.Clock.Civil.{to_iso}
use task_calendar.Task.{CreateScheduledTaskInput, UpdateScheduledTaskInput}
use task_calendar.Undo.{UpdateScope, DeleteScope}

-- The two dates of a range are valid ones.
pub record ListTasksOptions : Type 0 where
  pub range_start : Option ℤ
  pub range_end : Option ℤ
  pub completed : Option Bool
  pub list_id : Option Text
  pub is_overdue_view : Bool

abbrev or_null_count : Option ℕ → Json
or_null_count none = Json.null
or_null_count (some n) = count n

abbrev reminder_members : Option Bool → Option ℕ → Option (Option Text) → Members
reminder_members enabled offset channel =
    optional (codes "notification_enabled") Json.bool enabled (
      optional (codes "notification_offset_minutes") count offset
        (optional (codes "notification_channel") or_nothing channel Members.end))

abbrev pub create_json : CreateScheduledTaskInput → Json
create_json input = Json.obj (
    Members.member (codes "title") (Json.str input.title) (
      optional (codes "list_id") or_nothing input.list_id (
        optional (codes "notes") or_nothing input.notes (
          optional (codes "completed") Json.bool input.completed (
            optional (codes "scheduled_start") or_nothing input.scheduled_start (
              optional (codes "scheduled_end") or_nothing input.scheduled_end (
                optional (codes "all_day") Json.bool input.all_day (
                  optional (codes "due_at") or_nothing input.due_at (
                    optional (codes "timezone") Json.str input.timezone (
                      optional (codes "priority") or_null_count input.priority (
                        optional (codes "unscheduled_order") or_null_count input.unscheduled_order (
                          optional (codes "recurrence_rule") or_nothing input.recurrence_rule (
                            reminder_members input.notification_enabled
                              input.notification_offset_minutes
                              input.notification_channel)))))))))))))

abbrev pub update_json : UpdateScheduledTaskInput → Json
update_json input = Json.obj (
    optional (codes "title") Json.str input.title (
      optional (codes "list_id") or_nothing input.list_id (
        optional (codes "notes") or_nothing input.notes (
          optional (codes "scheduled_start") or_nothing input.scheduled_start (
            optional (codes "scheduled_end") or_nothing input.scheduled_end (
              optional (codes "all_day") Json.bool input.all_day (
                optional (codes "due_at") or_nothing input.due_at (
                  optional (codes "completed") Json.bool input.completed (
                    optional (codes "unscheduled_order") or_null_count input.unscheduled_order (
                      optional (codes "recurrence_rule") or_nothing input.recurrence_rule (
                        reminder_members input.notification_enabled
                          input.notification_offset_minutes input.notification_channel)))))))))))

-- `String(completed)`
abbrev bool_text : Bool → Text
bool_text true = codes "true"
bool_text false = codes "false"

abbrev update_scope_text : UpdateScope → Text
update_scope_text UpdateScope.single = codes "single"
update_scope_text UpdateScope.series = codes "series"

abbrev delete_scope_text : DeleteScope → Text
delete_scope_text DeleteScope.single = codes "single"
delete_scope_text DeleteScope.following = codes "following"

abbrev param {ℓ} : {A : Type ℓ} → Text → (A → Text) → Option A → List (Text × Text)
param name write none = []
param name write (some a) = (name, write a) ∷ []

abbrev range_params : Option ℤ → Option ℤ → List (Text × Text)
range_params (some start) (some end) = (codes "from", to_iso start) ∷ (codes "to", to_iso end) ∷ []
range_params _ _ = []

unfoldable pub list_params : ListTasksOptions → List (Text × Text)
list_params options =
    range_params options.range_start options.range_end
    ++ param (codes "completed") bool_text options.completed
    ++ (if truthy options.list_id then param (codes "list_id") (λ s. s) options.list_id else [])
    ++ (if options.is_overdue_view then (codes "view", codes "overdue") ∷ [] else [])

module _ (search : List (Text × Text) → Text) where
  -- The path with `params.toString()`, where that is not empty.
  abbrev pub with_query : Text → List (Text × Text) → Text
  with_query path params = elim (search params) [ [] ↦ path | c ∷ query ↦ path ++ b'?' ∷ c ∷ query ]

  unfoldable pub list_tasks : Option Text → ListTasksOptions → Call
  unfolding request list_params
  list_tasks token options =
      request ErrorReader.default token (with_query Routes.tasks_root (list_params options))
        (codes "GET") none

  unfoldable pub update_task :
      Option Text → Text → UpdateScheduledTaskInput → Option UpdateScope → Call
  unfolding request
  update_task token task_id input scope =
      request ErrorReader.default token
        (with_query (Routes.tasks_item task_id)
          (param (codes "update_scope") update_scope_text scope))
        (codes "PATCH") (some (update_json input))

  unfoldable pub delete_task : Option Text → Text → Option DeleteScope → Call
  unfolding request
  delete_task token task_id scope =
      request ErrorReader.default token
        (with_query (Routes.tasks_item task_id)
          (param (codes "delete_scope") delete_scope_text scope))
        (codes "DELETE") none

unfoldable pub create_task : Option Text → CreateScheduledTaskInput → Call
unfolding request
create_task token input =
    request ErrorReader.default token Routes.tasks_root (codes "POST") (some (create_json input))

unfoldable pub complete_task : Option Text → Text → Call
unfolding request
complete_task token task_id =
    request ErrorReader.default token (Routes.tasks_complete task_id) (codes "POST") none

unfoldable pub uncomplete_task : Option Text → Text → Call
unfolding request
uncomplete_task token task_id =
    request ErrorReader.default token (Routes.tasks_uncomplete task_id) (codes "POST") none

-- `Partial<Pick<TaskList, …>>`
pub record UpdateTaskListInput : Type 0 where
  pub name : Option Text
  pub color : Option Text
  pub google_sync_enabled : Option Bool

unfoldable pub list_task_lists : Option Text → Call
unfolding request
list_task_lists token =
    request ErrorReader.status_only token Routes.task_lists_root (codes "GET") none

unfoldable pub create_task_list : Option Text → Text → Text → Call
unfolding request
create_task_list token name color =
    request ErrorReader.status_only token Routes.task_lists_root (codes "POST") (
      some (
        Json.obj (
          Members.member (codes "name") (Json.str name)
            (Members.member (codes "color") (Json.str color) Members.end))))

unfoldable pub update_task_list : Option Text → Text → UpdateTaskListInput → Call
unfolding request
update_task_list token task_list_id input =
    request ErrorReader.status_only token (Routes.task_lists_item task_list_id) (codes "PATCH") (
      some (
        Json.obj (
          optional (codes "name") Json.str input.name (
            optional (codes "color") Json.str input.color (
              optional (codes "google_sync_enabled") Json.bool input.google_sync_enabled
                Members.end)))))

unfoldable pub delete_task_list : Option Text → Text → Call
unfolding request
delete_task_list token task_list_id =
    request ErrorReader.status_only token (Routes.task_lists_item task_list_id) (codes "DELETE")
      none
