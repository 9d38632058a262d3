-- ===== src/Order.antt =====
-- The manual order of tasks without a time, frontend/src/App.tsx: a list of task identifiers that
-- is brought in line with the tasks, moved about by dragging and by buttons, and saved on the rows.
pub mod Reconcile
pub mod Moves
pub mod Swaps
pub mod Saving
pub mod Sorting
use task_calendar.Base.{
  ℕ, suc, ◌+◌, ◌-◌, Bool, true, false, not, ◌&&◌, Option, none, some, List, [], ◌∷◌, ◌++◌, map,
  length, get_elem?, take, drop, filter, ltb, leb, ◌==◌, or_else, if◌then◌else◌,
}
use task_calendar.Base.Ids.{contains, index_of, without, map_get}
use task_calendar.Base.Int.{ℤ, pos, negsuc}
use task_calendar.Base.Text.{Text, text_eq, truthy}
use task_calendar.Task.{ScheduledTask}

-- `for (const taskId of taskIds) if (!nextOrder.includes(taskId)) nextOrder.push(taskId)`
push_missing : List Text → List Text → List Text
push_missing next [] = next
push_missing next (id ∷ ids) = push_missing (if contains next id then next else next ++ id ∷ []) ids

pub reconcile_task_order : List Text → List Text → List Text
unfolding push_missing
reconcile_task_order current_order task_ids =
    push_missing (filter (contains task_ids) current_order) task_ids

pub data Position : Type 0 where
  before after : Position

abbrev insert_index : Position → ℕ → ℕ
insert_index Position.before i = i
insert_index Position.after i = i + 1

-- `splice(i, 0, x)`
abbrev insert_at : ℕ → Text → List Text → List Text
insert_at i x xs = take i xs ++ x ∷ drop i xs

abbrev place : Option ℕ → Position → Text → List Text → List Text
place none position dragged next = next ++ dragged ∷ []
place (some i) position dragged next = insert_at (insert_index position i) dragged next

pub move_task_id_relative : List Text → Text → Text → Position → List Text
move_task_id_relative current_order dragged target position =
    if text_eq dragged target
    then current_order
    else (let next_order = without dragged current_order in
        place (index_of next_order target) position dragged next_order)

abbrev to_top : Option ℕ → List Text → Text → List Text
to_top none order id = order
to_top (some i) order id = if i == 0 then order else id ∷ without id order

pub move_task_id_to_top : List Text → Text → List Text
move_task_id_to_top current_order task_id =
    to_top (index_of current_order task_id) current_order task_id

pub are_string_arrays_equal : List Text → List Text → Bool
are_string_arrays_equal [] [] = true
are_string_arrays_equal (x ∷ xs) (y ∷ ys) = text_eq x y && are_string_arrays_equal xs ys
are_string_arrays_equal _ _ = false

-- `currentIndex + offset`, or `none` where it is negative.
abbrev shifted : ℕ → ℤ → Option ℕ
shifted i (pos n) = some (i + n)
shifted i (negsuc n) = if ltb n i then some (i - suc n) else none

-- Writes the element `v` at `i`.
abbrev set : List Text → ℕ → Text → List Text
set [] i v = []
set (x ∷ xs) ℕ.zero v = v ∷ xs
set (x ∷ xs) (suc i) v = x ∷ set xs i v

pub swap_at : List Text → ℕ → ℕ → List Text
swap_at order i j = elim (get_elem? order i) [
  | none ↦ order
  | some a ↦ elim (get_elem? order j) [ none ↦ order | some b ↦ set (set order i b) j a ]
]

abbrev moved_to : List Text → ℕ → Option ℕ → List Text
moved_to order i none = order
moved_to order i (some j) = if ltb j (length order) then swap_at order i j else order

-- The order that `moveUnscheduledTaskByOffset` applies and saves; where the source returns early
-- the order is left as it is.
pub move_by_offset : List Text → Text → ℤ → List Text
move_by_offset current_order task_id offset = elim (index_of current_order task_id) [
  | none ↦ current_order
  | some i ↦ moved_to current_order i (shifted i offset)
]

-- `!task.scheduled_start && !task.scheduled_end && !task.due_at`
unfoldable pub is_unscheduled : ScheduledTask → Bool
is_unscheduled task =
    not (truthy task.scheduled_start) && not (truthy task.scheduled_end) && not (truthy task.due_at)

abbrev pub ids_of : List ScheduledTask → List Text
ids_of = map (λ t. t.id)

-- `new Map(tasks.map((task) => [task.id, task])).get(id)`
abbrev pub task_by_id : List ScheduledTask → Text → Option ScheduledTask
task_by_id tasks = map_get (map (λ t. (t.id, t)) tasks)

abbrev has_order : ScheduledTask → ℕ → Bool
has_order task i = elim task.unscheduled_order [ none ↦ false | some n ↦ n == i ]

abbrev needs_order : Option ScheduledTask → ℕ → Bool
needs_order none i = false
needs_order (some task) i = not (has_order task i)

-- `.map((taskId, index) => …).filter((update) => update !== null)`
order_updates : (Text → Option ScheduledTask) → ℕ → List Text → List (Text × ℕ)
order_updates by_id i [] = []
order_updates by_id i (id ∷ order) =
    if needs_order (by_id id) i
    then (id, i) ∷ order_updates by_id (i + 1) order
    else order_updates by_id (i + 1) order

pub build_unscheduled_order_updates : List Text → List ScheduledTask → List (Text × ℕ)
unfolding order_updates
build_unscheduled_order_updates ordered_task_ids tasks =
    let unscheduled_tasks = filter is_unscheduled tasks in
    order_updates (task_by_id unscheduled_tasks) 0
      (reconcile_task_order ordered_task_ids (ids_of unscheduled_tasks))

-- A stable sort by a key, as `Array.prototype.sort` is: an element goes behind its equals.
insert_by : (ScheduledTask → ℕ) → ScheduledTask → List ScheduledTask → List ScheduledTask
insert_by key t [] = t ∷ []
insert_by key t (u ∷ us) = if leb (key t) (key u) then t ∷ u ∷ us else u ∷ insert_by key t us

pub sort_by : (ScheduledTask → ℕ) → List ScheduledTask → List ScheduledTask
unfolding insert_by
sort_by key [] = []
sort_by key (t ∷ ts) = insert_by key t (sort_by key ts)

-- `[taskId, index]` for each identifier.
abbrev pub with_index : ℕ → List Text → List (Text × ℕ)
with_index i [] = []
with_index i (id ∷ ids) = (id, i) ∷ with_index (i + 1) ids

abbrev pub max_safe_integer : ℕ
max_safe_integer = 9007199254740991

pub order_rank : List Text → ScheduledTask → ℕ
order_rank ordered_task_ids task =
    or_else (map_get (with_index 0 ordered_task_ids) task.id) max_safe_integer

pub order_tasks_by_ids : List ScheduledTask → List Text → List ScheduledTask
unfolding order_rank sort_by
order_tasks_by_ids tasks ordered_task_ids = sort_by (order_rank ordered_task_ids) tasks
