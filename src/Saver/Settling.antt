-- ===== src/Saver/Settling.antt =====
-- The last order that the user asked for is the one that is saved in the end.
use task_calendar.Base.{
  ℕ, Bool, true, false, Option, none, some, List, [], ◌∷◌, ◌++◌, ◌≡◌, refl, ap, ◌∙◌, arith,
  Bool-cases, inl, inr,
}
use task_calendar.Base.Text.{Text}
use task_calendar.Order.{build_unscheduled_order_updates}
use task_calendar.Saver.{Saver, SaveEvent, idle, sending, next_round, save_step, save_all}
use task_calendar.Task.{ScheduledTask}

-- The order that waits, or else the one that was taken last.
abbrev pub current : Saver → Option (List Text)
current saver = elim saver.queued [ none ↦ saver.order_to_save | some order ↦ some order ]

-- The order of the last request among the events, or else `start`.
abbrev pub last_request : Option (List Text) → List SaveEvent → Option (List Text)
last_request start [] = start
last_request start (SaveEvent.requested order tasks ∷ events) = last_request (some order) events
last_request start (SaveEvent.answered updated tasks ∷ events) = last_request start events
last_request start (SaveEvent.failed message tasks ∷ events) = last_request start events

-- Nothing waits while no loop runs.
abbrev pub IsTidy : Saver → Type 0
IsTidy saver = saver.saving ≡ false → saver.queued ≡ none

abbrev pub asked : Option (List Text) → SaveEvent → Option (List Text)
asked start (SaveEvent.requested order tasks) = some order
asked start (SaveEvent.answered updated tasks) = start
asked start (SaveEvent.failed message tasks) = start

sending_lem :
    (order : List Text) (updates : List (Text × ℕ))
    → IsTidy (sending order updates).0 × (current (sending order updates).0 ≡ some order)
sending_lem order [] = ((λ h. refl), refl)
sending_lem order (u ∷ updates) = ((λ h. refl), refl)

next_round_lem :
    (saver : Saver) (tasks : List ScheduledTask)
    → IsTidy (next_round saver tasks).0 × (current (next_round saver tasks).0 ≡ current saver)
unfolding next_round
next_round_lem saver tasks = go saver.saving saver.queued saver.order_to_save
  where
    go :
        (b : Bool) (q o : Option (List Text))
        → (let s : Saver = record { saving = b; queued = q; order_to_save = o } in
            IsTidy (next_round s tasks).0 × (current (next_round s tasks).0 ≡ current s))
    go b none o = ((λ h. refl), refl)
    go b (some order) o = sending_lem order (build_unscheduled_order_updates order tasks)

save_step_lem :
    (saver : Saver) (event : SaveEvent)
    → IsTidy saver
    → IsTidy (save_step saver event).0
      × (current (save_step saver event).0 ≡ asked (current saver) event)
unfolding save_step
save_step_lem saver (SaveEvent.requested order tasks) tidy = elim (Bool-cases saver.saving) [
  | inl b ↦ rw b ((λ h. ground arith), refl)
  | inr b ↦ rw b (next_round_lem (record saver { queued = some order }) tasks)
]
save_step_lem saver (SaveEvent.answered updated tasks) tidy = elim (Bool-cases saver.saving) [
  | inl b ↦ rw b (next_round_lem saver tasks)
  | inr b ↦ rw b ((λ h. tidy b), refl)
]
save_step_lem saver (SaveEvent.failed message tasks) tidy = elim (Bool-cases saver.saving) [
  | inl b ↦ rw b (next_round_lem saver tasks)
  | inr b ↦ rw b ((λ h. tidy b), refl)
]

asked-last_request :
    (start : Option (List Text)) (event : SaveEvent) (events : List SaveEvent)
    → last_request (asked start event) events ≡ last_request start (event ∷ events)
asked-last_request start (SaveEvent.requested order tasks) events = refl
asked-last_request start (SaveEvent.answered updated tasks) events = refl
asked-last_request start (SaveEvent.failed message tasks) events = refl

save_all_lem :
    (saver : Saver) (events : List SaveEvent)
    → IsTidy saver
    → IsTidy (save_all saver events)
      × (current (save_all saver events) ≡ last_request (current saver) events)
unfolding save_all
save_all_lem saver [] tidy = (tidy, refl)
save_all_lem saver (event ∷ events) tidy =
    let (tidy_next, named) = save_step_lem saver event tidy in
    let (tidy_end, last) = save_all_lem (save_step saver event).0 events tidy_next in
    (
      tidy_end,
      last
          ∙ (ap (λ start. last_request start events) named
              ∙ asked-last_request (current saver) event events),
    )

-- Whatever the user and the server have done, when no loop runs no order waits, and the order that
-- was taken last is the order of the last request.
pub saves_last :
    (events : List SaveEvent)
    → (save_all idle events).saving ≡ false
    → ((save_all idle events).queued ≡ none)
      × ((save_all idle events).order_to_save ≡ last_request none events)
saves_last events stopped =
    let (tidy, last) = save_all_lem idle events (λ h. refl) in
    (tidy stopped, ground (arith, tidy stopped, last))

abbrev pub is_answer : SaveEvent → Bool
is_answer (SaveEvent.requested order tasks) = false
is_answer (SaveEvent.answered updated tasks) = true
is_answer (SaveEvent.failed message tasks) = true

next_round-queued :
    (saver : Saver) (tasks : List ScheduledTask)
    → ((next_round saver tasks).0.queued ≡ none)
      × (saver.queued ≡ none → (next_round saver tasks).0.saving ≡ false)
unfolding next_round
next_round-queued saver tasks = go saver.saving saver.queued saver.order_to_save
  where
    taken :
        (order : List Text) (updates : List (Text × ℕ)) → (sending order updates).0.queued ≡ none
    taken order [] = refl
    taken order (u ∷ updates) = refl

    go :
        (b : Bool) (q o : Option (List Text))
        → (let s : Saver = record { saving = b; queued = q; order_to_save = o } in
            ((next_round s tasks).0.queued ≡ none)
            × (q ≡ none → (next_round s tasks).0.saving ≡ false))
    go b none o = (refl, λ h. refl)
    go b (some order) o =
        (taken order (build_unscheduled_order_updates order tasks), λ h. absurd (ground (arith, h)))

-- Each answer ends the loop or takes the order that waits.
answer-queued :
    (saver : Saver) (event : SaveEvent)
    → is_answer event ≡ true
    → IsTidy saver
    → ((save_step saver event).0.queued ≡ none)
      × (saver.queued ≡ none → (save_step saver event).0.saving ≡ false)
unfolding save_step
answer-queued saver (SaveEvent.requested order tasks) h tidy = absurd (cc)
answer-queued saver (SaveEvent.answered updated tasks) h tidy = elim (Bool-cases saver.saving) [
  | inl b ↦ rw b (next_round-queued saver tasks)
  | inr b ↦ rw b (tidy b, λ q. refl)
]
answer-queued saver (SaveEvent.failed message tasks) h tidy = elim (Bool-cases saver.saving) [
  | inl b ↦ rw b (next_round-queued saver tasks)
  | inr b ↦ rw b (tidy b, λ q. refl)
]

save_all-append :
    (saver : Saver) (xs ys : List SaveEvent)
    → save_all saver (xs ++ ys) ≡ save_all (save_all saver xs) ys
unfolding save_all
save_all-append saver [] ys = refl
save_all-append saver (x ∷ xs) ys = save_all-append (save_step saver x).0 xs ys

last_request-answers :
    (start : Option (List Text)) (events : List SaveEvent) (first second : SaveEvent)
    → is_answer first ≡ true
    → is_answer second ≡ true
    → last_request start (events ++ first ∷ second ∷ []) ≡ last_request start events
last_request-answers start [] first second h k = ground arith
last_request-answers start (SaveEvent.requested order tasks ∷ events) first second h k =
    last_request-answers (some order) events first second h k
last_request-answers start (SaveEvent.answered updated tasks ∷ events) first second h k =
    last_request-answers start events first second h k
last_request-answers start (SaveEvent.failed message tasks ∷ events) first second h k =
    last_request-answers start events first second h k

-- Whatever has been done, once the server has answered twice without a new request of the user the
-- loop has ended, and the order that was taken last is the order of the last request.
pub saves_settle :
    (events : List SaveEvent) (first second : SaveEvent)
    → is_answer first ≡ true
    → is_answer second ≡ true
    → ((save_all idle (events ++ first ∷ second ∷ [])).saving ≡ false)
      × ((save_all idle (events ++ first ∷ second ∷ [])).order_to_save ≡ last_request none events)
unfolding save_all
saves_settle events first second h k =
    let s : Saver = save_all idle events in
    let (tidy, last) = save_all_lem idle events (λ e. refl) in
    let (tidy_next, named) = save_step_lem s first tidy in
    let (taken, ended) = answer-queued s first h tidy in
    let (none_left, stops) = answer-queued (save_step s first).0 second k tidy_next in
    let stopped : (save_all idle (events ++ first ∷ second ∷ [])).saving ≡ false =
      rw (save_all-append idle events (first ∷ second ∷ [])) (stops taken) in
    (
      stopped,
      (saves_last (events ++ first ∷ second ∷ []) stopped).1
          ∙ last_request-answers none events first second h k,
    )
