-- ===== src/Tests/Orders.antt =====
-- The manual order at concrete lists.
use task_calendar.Base.{
  ℕ, true, List, [], ◌∷◌, ◌++◌, ◌≡◌, refl, filter, All, if◌then◌else◌, get_elem?, ◌==◌, arith,
}
use task_calendar.Base.Ids.{contains, distinct, without, index_of, index_from}
use task_calendar.Base.Int.{negsuc}
use task_calendar.Base.Text.{Text, codes, text_eq}
use task_calendar.Order.{
  Position, reconcile_task_order, move_task_id_relative, move_by_offset,
  build_unscheduled_order_updates, order_tasks_by_ids, ids_of, is_unscheduled,
}
use task_calendar.Order.Reconcile.{reconcile-IsPermutation, reconcile-keeps_order}
use task_calendar.Order.Moves.{move-beside, beside}
use task_calendar.Order.Swaps.{get_elem?-move_by_offset}
use task_calendar.Order.Saving.{saved, saved-places}
use task_calendar.Order.Sorting.{order_tasks-IsSorted, IsSorted, place_in}
use task_calendar.Task.{ScheduledTask}
use task_calendar.Tests.Data.{milk, bread, gym, differ}

abbrev abc : List Text
abc = codes "a" ∷ codes "b" ∷ codes "c" ∷ []

abbrev cad : List Text
cad = codes "c" ∷ codes "a" ∷ codes "d" ∷ []

reconcile-IsPermutation_example :
    (distinct (reconcile_task_order cad abc) ≡ true)
    × ((x : Text) → contains (reconcile_task_order cad abc) x ≡ contains abc x)
unfolding distinct contains text_eq
reconcile-IsPermutation_example = reconcile-IsPermutation cad abc refl

reconcile-keeps_order_example :
    (more : List Text) × (reconcile_task_order cad abc ≡ filter (contains abc) cad ++ more)
reconcile-keeps_order_example = reconcile-keeps_order cad abc

move-beside_example :
    (pre : List Text) × (post : List Text) × (move_task_id_relative abc
        (codes "a")
        (codes "c")
        Position.before
      ≡ beside Position.before (codes "a") (codes "c") pre post)
    × (without (codes "a") abc ≡ pre ++ codes "c" ∷ post)
unfolding contains text_eq
move-beside_example =
    move-beside abc (codes "a") (codes "c") Position.before (differ (codes "a") (codes "c") refl)
      refl

move_by_offset_example :
    get_elem? (move_by_offset abc (codes "c") (negsuc 1)) 0
    ≡ get_elem? abc (if 0 == 0 then 2 else if 0 == 2 then 0 else 0)
unfolding index_from text_eq
move_by_offset_example =
    get_elem?-move_by_offset abc (codes "c") (negsuc 1) 2 0 0 refl refl (omega arith)

abbrev tasks : List ScheduledTask
tasks = milk ∷ gym ∷ bread ∷ []

saved-places_example :
    All
      (λ t.
        is_unscheduled t ≡ true
        → (saved (build_unscheduled_order_updates cad tasks) t).unscheduled_order
          ≡ index_of (reconcile_task_order cad (ids_of (filter is_unscheduled tasks))) t.id)
      tasks
unfolding distinct contains text_eq
saved-places_example = saved-places cad tasks refl refl

order_tasks-IsSorted_example :
    IsSorted (place_in cad) (order_tasks_by_ids tasks cad)
    × ((k : ℕ)
        → filter (λ t. place_in cad t == k) (order_tasks_by_ids tasks cad)
          ≡ filter (λ t. place_in cad t == k) tasks)
unfolding distinct contains text_eq
order_tasks-IsSorted_example = order_tasks-IsSorted tasks cad refl (omega arith)
