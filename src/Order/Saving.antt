-- ===== src/Order/Saving.antt =====
-- The rows that are saved: after the updates every task without a time holds its place in the
-- reconciled order, and a row that holds its place already is not written.
use task_calendar.Base.{
  ℕ, ◌+◌, Bool, true, false, Option, none, some, List, [], ◌∷◌, filter, All, All-map, All-both,
  All-of_filter, if◌then◌else◌, ◌≡◌, refl, ◌∙◌, arith, Bool-cases, inl, inr,
}
use task_calendar.Base.Ids.{contains, distinct, index_of, index_from, map_get}
use task_calendar.Base.Ids.Laws.{index_from-eq-none, index_from-eq-some, text_eq_refl}
use task_calendar.Base.Text.{Text, text_eq, text_eq_iff}
use task_calendar.Task.{ScheduledTask}
use task_calendar.Order.{
  reconcile_task_order, is_unscheduled, ids_of, task_by_id, needs_order, order_updates,
  build_unscheduled_order_updates,
}
use task_calendar.Order.Reconcile.{reconcile-IsPermutation}

abbrev planned : Option ScheduledTask → Option ℕ → Option ℕ
planned task none = none
planned task (some i) = if needs_order task i then some i else none

-- What the updates say of one task: its index, if the row does not hold it yet.
map_get-order_updates :
    (by_id : Text → Option ScheduledTask) (k : ℕ) (order : List Text) (id : Text)
    → distinct order ≡ true
    → map_get (order_updates by_id k order) id ≡ planned (by_id id) (index_from k order id)
unfolding map_get order_updates distinct index_from contains
map_get-order_updates by_id k [] id h = refl
map_get-order_updates by_id k (x ∷ order) id h = elim (Bool-cases (text_eq x id)) [
  | inl here ↦ ground (
    arith,
    text_eq_iff x id,
    map_get-order_updates by_id (k + 1) order id,
    index_from-eq-none (k + 1) order id,
  )
  | inr later ↦ ground (arith, map_get-order_updates by_id (k + 1) order id)
]

task_by_id_absent :
    (tasks : List ScheduledTask) (id : Text)
    → contains (ids_of tasks) id ≡ false
    → task_by_id tasks id ≡ none
unfolding contains map_get
task_by_id_absent [] id h = refl
task_by_id_absent (t ∷ tasks) id h = ground (arith, task_by_id_absent tasks id)

task_by_id-cons :
    (t u : ScheduledTask) (tasks : List ScheduledTask)
    → task_by_id tasks u.id ≡ some u
    → task_by_id (t ∷ tasks) u.id ≡ some u
unfolding map_get
task_by_id-cons t u tasks h = ground arith

-- A task of the list is found under its identifier, where no two tasks share one.
task_by_id-All :
    (tasks : List ScheduledTask)
    → distinct (ids_of tasks) ≡ true
    → All (λ t. task_by_id tasks t.id ≡ some t) tasks
unfolding distinct map_get
task_by_id-All [] h = tt
task_by_id-All (t ∷ tasks) h = (
  ground (arith, task_by_id_absent tasks t.id, text_eq_refl t.id),
  All-map (λ u e. task_by_id-cons t u tasks e) tasks (task_by_id-All tasks (ground arith)),
)

ids_of-All : (tasks : List ScheduledTask) → All (λ t. contains (ids_of tasks) t.id ≡ true) tasks
unfolding contains
ids_of-All [] = tt
ids_of-All (t ∷ tasks) =
    (ground (arith, text_eq_refl t.id), All-map (λ u e. ground arith) tasks (ids_of-All tasks))

contains-ids_of-filter :
    (p : ScheduledTask → Bool) (tasks : List ScheduledTask) (id : Text)
    → contains (ids_of tasks) id ≡ false
    → contains (ids_of (filter p tasks)) id ≡ false
unfolding contains
contains-ids_of-filter p [] id h = refl
contains-ids_of-filter p (t ∷ tasks) id h = ground (arith, contains-ids_of-filter p tasks id)

distinct-ids_of-filter :
    (p : ScheduledTask → Bool) (tasks : List ScheduledTask)
    → distinct (ids_of tasks) ≡ true
    → distinct (ids_of (filter p tasks)) ≡ true
unfolding distinct
distinct-ids_of-filter p [] h = refl
distinct-ids_of-filter p (t ∷ tasks) h =
    ground (arith, distinct-ids_of-filter p tasks, contains-ids_of-filter p tasks t.id)

-- The row of a task once the updates are written.
pub saved : List (Text × ℕ) → ScheduledTask → ScheduledTask
saved updates t = elim (map_get updates t.id) [
  | none ↦ t
  | some i ↦ record t { unscheduled_order = some i }
]

saved_place :
    (order : List Text) (by_id : Text → Option ScheduledTask) (t : ScheduledTask)
    → distinct order ≡ true
    → by_id t.id ≡ some t
    → contains order t.id ≡ true
    → (saved (order_updates by_id 0 order) t).unscheduled_order ≡ index_of order t.id
unfolding saved
saved_place order by_id t d found named =
    let (i, at) = index_from-eq-some 0 order t.id named in
    ground (arith, map_get-order_updates by_id 0 order t.id, found, at)

-- Once the updates are written, every task without a time holds its index in the reconciled order,
-- where neither the tasks nor the order name a task twice.
pub saved-places :
    (ordered_task_ids : List Text) (tasks : List ScheduledTask)
    → distinct ordered_task_ids ≡ true
    → distinct (ids_of tasks) ≡ true
    → All
        (λ t.
          is_unscheduled t ≡ true
          → (saved (build_unscheduled_order_updates ordered_task_ids tasks) t).unscheduled_order
            ≡ index_of
                (reconcile_task_order ordered_task_ids (ids_of (filter is_unscheduled tasks)))
                t.id)
        tasks
unfolding build_unscheduled_order_updates
saved-places ordered_task_ids tasks d e =
    let u : List ScheduledTask = filter is_unscheduled tasks in
    let (once, named) = reconcile-IsPermutation ordered_task_ids (ids_of u) d in
    All-of_filter _ is_unscheduled tasks (
      All-map
        (λ t h.
          saved_place (reconcile_task_order ordered_task_ids (ids_of u)) (task_by_id u) t once h.0
            (named t.id ∙ h.1))
        u
        (All-both _ _ u (task_by_id-All u (distinct-ids_of-filter is_unscheduled tasks e))
          (ids_of-All u)))
