-- ===== src/Order/Reconcile.antt =====
-- The reconciled order names the tasks, each once, and keeps the order that the user chose.
use task_calendar.Base.{
  Bool, true, ◌||◌, List, [], ◌∷◌, ◌++◌, filter, ◌≡◌, refl, sym, ◌∙◌, arith, Bool-cases, inl, inr,
}
use mathlib.Core.List.{append-nil, append_assoc}
use task_calendar.Base.Ids.{contains, distinct}
use task_calendar.Base.Ids.Laws.{contains-filter, contains-append, distinct-filter, distinct-concat}
use task_calendar.Base.Text.{Text, text_eq_iff}
use task_calendar.Order.{push_missing, reconcile_task_order}

contains-push_missing :
    (next ids : List Text) (x : Text)
    → contains (push_missing next ids) x ≡ (contains next x || contains ids x)
unfolding push_missing contains
contains-push_missing next [] x = ground arith
contains-push_missing next (id ∷ ids) x = ground (
  arith,
  contains-append next (id ∷ []) x,
  text_eq_iff id x,
  contains-push_missing next ids x,
  contains-push_missing (next ++ id ∷ []) ids x,
)

distinct-push_missing :
    (next ids : List Text) → distinct next ≡ true → distinct (push_missing next ids) ≡ true
unfolding push_missing
distinct-push_missing next [] h = h
distinct-push_missing next (id ∷ ids) h = ground (
  arith,
  distinct-concat next id,
  distinct-push_missing next ids,
  distinct-push_missing (next ++ id ∷ []) ids,
)

-- What the loop adds stands behind what was there.
push_missing-append :
    (next ids : List Text) → (more : List Text) × (push_missing next ids ≡ next ++ more)
unfolding push_missing
push_missing-append next [] = ([], sym (append-nil next))
push_missing-append next (id ∷ ids) = elim (Bool-cases (contains next id)) [
  | inl old ↦ rw old (push_missing-append next ids)
  | inr new ↦ rw new (
      let (more, e) = push_missing-append (next ++ id ∷ []) ids in
      (id ∷ more, e ∙ append_assoc next (id ∷ []) more))
]

-- The reconciled order names exactly the given tasks.
pub contains-reconcile :
    (current ids : List Text) (x : Text)
    → contains (reconcile_task_order current ids) x ≡ contains ids x
unfolding reconcile_task_order
contains-reconcile current ids x = ground (
  arith,
  contains-push_missing (filter (contains ids) current) ids x,
  contains-filter (contains ids) current x,
)

-- The members and the distinctness of the reconciled order: it names a task just when the tasks
-- do, and it names none twice if the old order did not.
pub reconcile-IsPermutation :
    (current ids : List Text)
    → distinct current ≡ true
    → (distinct (reconcile_task_order current ids) ≡ true)
      × ((x : Text) → contains (reconcile_task_order current ids) x ≡ contains ids x)
reconcile-IsPermutation current ids h = (
  unfold reconcile_task_order in
      distinct-push_missing (filter (contains ids) current) ids
        (distinct-filter (contains ids) current h),
  contains-reconcile current ids,
)

-- The tasks that the old order names come first, in that order; new tasks follow.
pub reconcile-keeps_order :
    (current ids : List Text)
    → (more : List Text) × (reconcile_task_order current ids
        ≡ filter (contains ids) current ++ more)
unfolding reconcile_task_order
reconcile-keeps_order current ids = push_missing-append (filter (contains ids) current) ids

filter_of_all :
    (p : Text → Bool) (xs : List Text)
    → ((x : Text) → contains xs x ≡ true → p x ≡ true)
    → filter p xs ≡ xs
unfolding contains
filter_of_all p [] h = refl
filter_of_all p (y ∷ xs) h =
    ground (arith, h y, text_eq_iff y y, filter_of_all p xs (λ x e. h x (ground arith)))

push_missing_of_all :
    (next ids : List Text)
    → ((x : Text) → contains ids x ≡ true → contains next x ≡ true)
    → push_missing next ids ≡ next
unfolding push_missing contains
push_missing_of_all next [] h = refl
push_missing_of_all next (id ∷ ids) h =
    ground
      (arith, h id, text_eq_iff id id, push_missing_of_all next ids (λ x e. h x (ground arith)))

reconcile_fixed :
    (order ids : List Text)
    → ((x : Text) → contains order x ≡ contains ids x)
    → reconcile_task_order order ids ≡ order
unfolding reconcile_task_order
reconcile_fixed order ids h =
    rw (filter_of_all (contains ids) order (λ x e. sym (h x) ∙ e))
      (push_missing_of_all order ids (λ x e. h x ∙ e))

-- Reconciling a second time changes nothing.
pub reconcile_idempotent :
    (current ids : List Text)
    → reconcile_task_order (reconcile_task_order current ids) ids ≡ reconcile_task_order current ids
reconcile_idempotent current ids =
    reconcile_fixed (reconcile_task_order current ids) ids (contains-reconcile current ids)
