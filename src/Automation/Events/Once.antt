-- ===== src/Automation/Events/Once.antt =====
-- No event is queued twice (app/services/automation/events.py).
use qtable_server.Base.{
  ℕ, zero, suc, ◌+◌, ◌≤◌, String, Bool, Option, none, some, List, [], ◌∷◌, ◌++◌, ◌≡◌, refl, sym, ap,
  subst, ◌==◌, string_eq, find, count, take, filter, All, min, max, arith, eq_iff, eq_refl,
  Bool-cases, Option-cases, inl, inr, find-append, count-append, count-find,
}
use qtable_server.Text.{take_chars, strip}
use qtable_server.Permission.{WorkspaceDb}
use qtable_server.Automation.{AutomationEvent, Queue}
use qtable_server.Automation.Events.{
  is_text, non_empty, Change, ChangeItem, ChangeSet, event_of_change, record_event, queue_change,
  queue_record_automation_event, materialize_one, materialize_all,
  materialize_record_events_from_changesets, is_pending_change, Synthetic, synthetic_event,
  queue_synthetic_automation_event, add_event, add_unless, queue_in, workspace_of, is_record_event,
  is_some, as_dict, parent_context, cut, change_of,
}

-- Queueing an event under an id that the column can hold a second time, at any later time and with
-- any other content, leaves the queue as it is and returns the event that is there.
pub queue_synthetic_automation_event-twice :
    (now later : ℕ) (call again : Synthetic) (queue : Queue)
    → take_chars 128 call.event_id ≡ call.event_id
    → again.event_id ≡ call.event_id
    → queue_synthetic_automation_event later again
        (queue_synthetic_automation_event now call queue).0
      ≡ queue_synthetic_automation_event now call queue
unfolding queue_synthetic_automation_event synthetic_event
queue_synthetic_automation_event-twice now later call again queue short same =
    elim (Option-cases (find (λ v. v.id == call.event_id) queue.events)) [
      | inl fresh ↦
          let event : AutomationEvent = synthetic_event now call in
          let there : find (λ v. v.id == call.event_id) (queue.events ++ event ∷ []) ≡ some event =
            find-append (λ v. v.id == call.event_id) queue.events event fresh
              (rw short (eq_refl call.event_id)) in
          let again_there : find (λ v. v.id == again.event_id) (queue.events ++ event ∷ [])
              ≡ some event =
            subst (λ k. find (λ v. v.id == k) (queue.events ++ event ∷ []) ≡ some event) (sym same)
              there in
          unchanged (find (λ v. v.id == call.event_id) queue.events) fresh
            (ap (add_unless (add_event queue event) (synthetic_event later again)) again_there)
      | inr (event, there) ↦
          let again_there : find (λ v. v.id == again.event_id) queue.events ≡ some event =
            subst (λ k. find (λ v. v.id == k) queue.events ≡ some event) (sym same) there in
          subst
            (λ o.
              add_unless (add_unless queue (synthetic_event now call) o).0
                (synthetic_event later again)
                (find (λ v. v.id == again.event_id)
                  (add_unless queue (synthetic_event now call) o).0.events)
              ≡ add_unless queue (synthetic_event now call) o)
            (sym there) (ap (add_unless queue (synthetic_event later again)) again_there)
    ]
  where
    unchanged :
        (o : Option AutomationEvent)
        → o ≡ none
        → add_unless
            (add_event queue (synthetic_event now call))
            (synthetic_event later again)
            (find (λ v. v.id == again.event_id) (queue.events ++ synthetic_event now call ∷ []))
          ≡ (add_event queue (synthetic_event now call), synthetic_event now call)
        → add_unless
            (add_unless queue (synthetic_event now call) o).0
            (synthetic_event later again)
            (find
              (λ v. v.id == again.event_id)
              (add_unless queue (synthetic_event now call) o).0.events)
          ≡ add_unless queue (synthetic_event now call) o
    unchanged none h t = t
    unchanged (some v) h t = absurd (cc)

abbrev of_source : String → AutomationEvent → Bool
of_source item v = is_text item v.source_change_item_id

-- No two events stand for one change item.
abbrev pub UniqueSources : List AutomationEvent → Type 0
UniqueSources events = (item : String) → count (of_source item) events ≤ 1

added_once :
    (events : List AutomationEvent) (event : AutomationEvent) (item other : String)
    → event.source_change_item_id ≡ some item
    → find (of_source item) events ≡ none
    → UniqueSources events
    → count (of_source other) (events ++ event ∷ []) ≤ 1
added_once events event item other named fresh unique =
    let split : count (of_source other) (events ++ event ∷ [])
        ≡ count (of_source other) events + count (of_source other) (event ∷ []) =
      count-append (of_source other) events (event ∷ []) in
    elim (Bool-cases (item == other)) [
      | inl same ↦
          let none_yet : count (of_source other) events ≡ 0 =
            subst (λ k. count (of_source k) events ≡ 0) ((eq_iff item other).0 same)
              (count-find (of_source item) events fresh) in
          ground (arith, split, none_yet, named, same)
      | inr different ↦ ground (arith, split, unique other, named, different)
    ]

unnamed_once :
    (events : List AutomationEvent) (event : AutomationEvent) (other : String)
    → event.source_change_item_id ≡ none
    → UniqueSources events
    → count (of_source other) (events ++ event ∷ []) ≤ 1
unnamed_once events event other unnamed unique =
    ground (arith, count-append (of_source other) events (event ∷ []), unique other, unnamed)

add_unless-UniqueSources :
    (queue : Queue) (event : AutomationEvent) (source : Option String)
    → event.source_change_item_id ≡ source
    → UniqueSources queue.events
    → UniqueSources (add_unless queue event (event_of_change queue.events source)).0.events
unfolding event_of_change
add_unless-UniqueSources queue event none named unique =
    λ other. unnamed_once queue.events event other named unique
add_unless-UniqueSources queue event (some item) named unique =
    elim (Option-cases (find (of_source item) queue.events)) [
      | inl fresh ↦
          subst (λ o. UniqueSources (add_unless queue event o).0.events) (sym fresh)
            (λ other. added_once queue.events event item other named fresh unique)
      | inr (v, there) ↦
          subst (λ o. UniqueSources (add_unless queue event o).0.events) (sym there) unique
    ]

cut_given :
    (item : String)
    → take_chars 64 item ≡ item
    → cut 64 (non_empty (some item)) ≡ non_empty (some item)
unfolding non_empty
cut_given item short = elim (Bool-cases (item == "")) [
  | inl blank ↦ rw blank
  | inr named ↦ rw named (ap some short)
]

queue_change-UniqueSources :
    (new_id : String) (now : ℕ) (workspace_id type item : String) (change : Change) (queue : Queue)
    → change.source_change_item_id ≡ some item
    → take_chars 64 item ≡ item
    → UniqueSources queue.events
    → UniqueSources (queue_change new_id now workspace_id change type queue).0.events
unfolding queue_change record_event
queue_change-UniqueSources new_id now workspace_id type item change queue named short unique =
    add_unless-UniqueSources queue
      (record_event new_id now workspace_id change type
        (parent_context queue.executions change.source change.trace_id))
      (non_empty change.source_change_item_id) (rw named (cut_given item short)) unique

queue_in-UniqueSources :
    (now : ℕ) (type item : String) (change : Change) (queue : Queue) (workspace : Option String)
    → change.source_change_item_id ≡ some item
    → take_chars 64 item ≡ item
    → UniqueSources queue.events
    → UniqueSources (queue_in "" now change type queue workspace).0.events
queue_in-UniqueSources now type item change queue none named short unique = unique
queue_in-UniqueSources now type item change queue (some workspace_id) named short unique =
    queue_change-UniqueSources "" now workspace_id type item change queue named short unique

materialize_one-UniqueSources :
    (db : WorkspaceDb) (now : ℕ) (item : ChangeItem) (change_set : ChangeSet) (queue : Queue)
    (created : ℕ)
    → take_chars 64 item.id ≡ item.id
    → UniqueSources queue.events
    → UniqueSources (materialize_one db now (item, change_set) queue created).0.events
unfolding materialize_one queue_record_automation_event
materialize_one-UniqueSources db now item change_set queue created short unique =
    let change : Change = change_of item change_set in
    elim (Bool-cases (is_some (as_dict item.after_data))) [
      | inr gone ↦ rw gone unique
      | inl there ↦ rw there (elim (Bool-cases (is_record_event (strip change.event_type))) [
        | inl known ↦ rw known (
            queue_in-UniqueSources now (strip change.event_type) item.id change queue
              (workspace_of db change.table_id) refl short unique)
        | inr unknown ↦ rw unknown unique
      ])
    ]

materialize_all-UniqueSources :
    (db : WorkspaceDb) (now : ℕ) (rows : List (ChangeItem × ChangeSet)) (queue : Queue)
    (created : ℕ)
    → All (λ r. take_chars 64 r.0.id ≡ r.0.id) rows
    → UniqueSources queue.events
    → UniqueSources (materialize_all db now rows queue created).0.events
unfolding materialize_all
materialize_all-UniqueSources db now [] queue created short unique = unique
materialize_all-UniqueSources db now ((item, change_set) ∷ rows) queue created short unique =
    materialize_all-UniqueSources db now rows
      (materialize_one db now (item, change_set) queue created).0
      (materialize_one db now (item, change_set) queue created).1 short.1
      (materialize_one-UniqueSources db now item change_set queue created short.0 unique)

All-take-filter :
    {A : Type 0} (P : A → Type 0) (p : A → Bool) (n : ℕ) (xs : List A)
    → All P xs
    → All P (take n (filter p xs))
All-take-filter P p zero xs h = tt
All-take-filter P p (suc n) [] h = tt
All-take-filter P p (suc n) (x ∷ xs) h = elim (Bool-cases (p x)) [
  | inl kept ↦ rw kept (h.0, All-take-filter P p n xs h.1)
  | inr dropped ↦ rw dropped (All-take-filter P p (suc n) xs h.1)
]

-- However often the change log is turned into events, over whatever part of it, no change has two
-- events, as long as the ids of the changes fit into their column.
pub materialize-UniqueSources :
    (db : WorkspaceDb) (now limit : ℕ) (log : List (ChangeItem × ChangeSet)) (queue : Queue)
    → All (λ r. take_chars 64 r.0.id ≡ r.0.id) log
    → UniqueSources queue.events
    → UniqueSources (materialize_record_events_from_changesets db now limit log queue).0.events
unfolding materialize_record_events_from_changesets
materialize-UniqueSources db now limit log queue short unique =
    materialize_all-UniqueSources db now
      (take (max 1 (min 1000 limit)) (filter (is_pending_change queue.events) log)) queue 0
      (All-take-filter (λ r. take_chars 64 r.0.id ≡ r.0.id) (is_pending_change queue.events)
        (max 1 (min 1000 limit)) log short)
      unique
