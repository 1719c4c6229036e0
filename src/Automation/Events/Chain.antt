-- ===== src/Automation/Events/Chain.antt =====
-- Automations that set each other off come to an end (app/services/automation/events.py and
-- executor.py).
use qtable_server.Base.{
  ℕ, suc, ◌≤◌, ◌<◌, String, true, Option, false, none, some, List, [], ◌∷◌, ◌++◌, ◌≡◌, refl, ap,
  ◌==◌, string_eq, ltb, find, arith,
}
use qtable_server.Base.Result.{ok}
use qtable_server.Text.{strip, take_chars}
use qtable_server.Permission.{WorkspaceDb}
use qtable_server.Automation.{AutomationRule, AutomationEvent, AutomationExecution, Queue, skipped}
use qtable_server.Automation.Services.{Services}
use qtable_server.Automation.Executor.{run, run_started, skip_run}
use qtable_server.Automation.Events.{
  non_empty, or_else, Change, ParentContext, context_of, add_event, event_of_change, record_event,
  queue_change, queue_record_automation_event, parent_context, workspace_of, is_record_event,
}

parent_context-found :
    (executions : List AutomationExecution) (source trace_id : Option String) (trace : String)
    (e : AutomationExecution)
    → source ≡ some "automation"
    → non_empty trace_id ≡ some trace
    → find (λ x. x.trace_id == trace) executions ≡ some e
    → parent_context executions source trace_id ≡ context_of (some e)
unfolding parent_context
parent_context-found executions source trace_id trace e automated traced found =
    rw (automated, traced, found)

root_kept :
    (root other : String) → (root == "") ≡ false → or_else (non_empty (some root)) other ≡ root
unfolding non_empty
root_kept root other rooted = rw rooted refl

record_event-root :
    (new_id : String) (now : ℕ) (workspace_id : String) (change : Change) (type : String)
    (parent : ParentContext) (root : String)
    → parent.root_event_id ≡ some root
    → (root == "") ≡ false
    → (record_event new_id now workspace_id change type parent).root_event_id ≡ take_chars 128 root
unfolding record_event
record_event-root new_id now workspace_id change type parent root at rooted =
    rw at (ap (take_chars 128) (root_kept root _ rooted))

deep_skips :
    (services : Services) (rule : AutomationRule) (event : AutomationEvent) (started finished : ℕ)
    (w : services.World) (x : AutomationExecution)
    → 8 < event.depth
    → ((run services rule event started finished w x).0 ≡ w)
      × ((run services rule event started finished w x).1.status ≡ skipped)
unfolding run run_started skip_run
deep_skips services rule event started finished w x deep =
    let test : ltb 8 event.depth ≡ true = ground arith in (rw test, rw test)

-- A write that an execution makes is queued: one event is added behind those of the queue, one deeper
-- than the execution, with the execution as its parent and the execution's root, unless that is empty,
-- as its own, as far as the column holds it. Past the eighth level no run for such an event does
-- anything: it is skipped, whatever the rule.
pub queue_record_automation_event-chain :
    (db : WorkspaceDb) (new_id : String) (now : ℕ) (change : Change) (queue : Queue)
    (trace workspace_id : String) (e : AutomationExecution)
    → is_record_event (strip change.event_type) ≡ true
    → workspace_of db change.table_id ≡ some workspace_id
    → event_of_change queue.events (non_empty change.source_change_item_id) ≡ none
    → change.source ≡ some "automation"
    → non_empty change.trace_id ≡ some trace
    → find (λ x. x.trace_id == trace) queue.executions ≡ some e
    → (next : Queue) × (event : AutomationEvent) × (queue_record_automation_event db new_id now
          change queue
        ≡ ok (next, some event))
      × (next ≡ record queue { events = queue.events ++ event ∷ [] })
      × (event.depth ≡ suc e.depth)
      × ((e.root_event_id == "") ≡ false → event.root_event_id ≡ take_chars 128 e.root_event_id)
      × (event.parent_execution_id ≡ some e.id)
      × (8 ≤ e.depth
          → (services : Services) (rule : AutomationRule) (started finished : ℕ)
            (w : services.World) (x : AutomationExecution)
          → ((run services rule event started finished w x).0 ≡ w)
            × ((run services rule event started finished w x).1.status ≡ skipped))
unfolding queue_record_automation_event queue_change record_event
queue_record_automation_event-chain db new_id now change queue trace workspace_id e known placed
      fresh automated traced found =
    let parent : ParentContext = parent_context queue.executions change.source change.trace_id in
    let event : AutomationEvent =
      record_event new_id now workspace_id change (strip change.event_type) parent in
    let named : parent ≡ context_of (some e) =
      parent_context-found queue.executions change.source change.trace_id trace e automated traced
        found in
    let deeper : event.depth ≡ suc e.depth = ap (λ p. p.depth) named in
    (
      add_event queue event,
      event,
      rw (known, placed, fresh),
      refl,
      deeper,
      record_event-root new_id now workspace_id change (strip change.event_type) parent
          e.root_event_id (ap (λ p. p.root_event_id) named),
      ap (λ p. p.parent_execution_id) named,
      λ h services rule started finished w x.
          deep_skips services rule event started finished w x (omega (arith, deeper)),
    )
