-- ===== src/Automation/Tests/Worker.antt =====
-- The theorems about the queue and the worker at the workspace of the other tests.
use qtable_server.Base.{
  ℕ, ◌≤◌, ◌++◌, ◌==◌, true, false, none, some, [], ◌∷◌, ◌≡◌, refl, string_eq, nat_eq, arith,
}
use qtable_server.Base.Result.{ok, err}
use qtable_server.Json.{obj, end}
use qtable_server.Text.{strip, lstrip, rstrip, is_space, take_chars}
use qtable_server.Permission.{find_item}
use qtable_server.Automation.{AutomationRule, AutomationEvent, AutomationExecution, Queue, skipped}
use qtable_server.Automation.Services.{Services}
use qtable_server.Automation.Executor.{start_run, run, run_started, skip_run, is_terminal}
use qtable_server.Automation.Events.{
  non_empty, Change, ChangeItem, ChangeSet, Synthetic, event_of_change, is_record_event,
  workspace_of, queue_record_automation_event, queue_synthetic_automation_event,
  materialize_record_events_from_changesets,
}
use qtable_server.Automation.Events.Once.{
  UniqueSources, materialize-UniqueSources, queue_synthetic_automation_event-twice,
}
use qtable_server.Automation.Events.Chain.{queue_record_automation_event-chain}
use qtable_server.Automation.Scheduler.{Calendar, due_rules, is_due_rule, scan_due_automations}
use qtable_server.Automation.Scheduler.Advance.{has_rule, scan_all, scan_due_automations-once}
use qtable_server.Automation.Runtime.{Source, get_or_create_execution, execute_rule_for_event}
use qtable_server.Automation.QueueRows.{
  find_execution, new_execution, claim_events, claim_all, claim_event, is_claimable, is_retry_due,
  retry_execution, not_failed,
}
use qtable_server.Automation.Runtime.Lifecycle.{IsConsistent, start, here, next, Reach-IsConsistent}
use qtable_server.Automation.Runtime.Guarantee.{
  execute_rule_for_event-once, execute_rule_for_event-stuck,
}
use qtable_server.Automation.Runtime.Leases.{
  has_event, claim, write, take_steps, claim_events-exclusive,
}
use qtable_server.Automation.Tests.{services, db, a_rule, an_event, an_execution}

Reach-IsConsistent_example : IsConsistent (start_run 20 an_execution)
Reach-IsConsistent_example =
    Reach-IsConsistent
      (record { retry_time = refl; finish_time = refl; results_in_order = tt; partial = tt })
      (next here (start an_execution 20 refl))

abbrev source : Source
source = record { created = 15; started = 20; finished = 21; new_ids = λ a n v. ("e1", "tr") }

abbrev empty_queue : Queue
empty_queue = record { rules = a_rule ∷ []; events = an_event ∷ []; executions = [] }

abbrev a_deep_event : AutomationEvent
a_deep_event = record an_event { depth = 9 }

deep_is_over :
    is_terminal (execute_rule_for_event services source a_rule a_deep_event 5 empty_queue).2.status
    ≡ true
unfolding execute_rule_for_event get_or_create_execution find_execution new_execution run
    run_started start_run skip_run
deep_is_over = refl

execute_rule_for_event-once_example :
    execute_rule_for_event services source a_rule a_deep_event 8
      (execute_rule_for_event services source a_rule a_deep_event 5 empty_queue).1
    ≡ (
      8,
      (execute_rule_for_event services source a_rule a_deep_event 5 empty_queue).1,
      (execute_rule_for_event services source a_rule a_deep_event 5 empty_queue).2,
    )
execute_rule_for_event-once_example =
    execute_rule_for_event-once services source source a_rule a_deep_event 5 8 empty_queue
      deep_is_over

abbrev left_running : Queue
left_running = record empty_queue { executions = start_run 20 an_execution ∷ [] }

running_found :
    find_execution a_rule an_event (start_run 20 an_execution ∷ [])
    ≡ some (start_run 20 an_execution)
unfolding find_execution start_run
running_found = refl

execute_rule_for_event-stuck_example :
    (execute_rule_for_event services source a_rule an_event 5 left_running
      ≡ (5, left_running, start_run 20 an_execution))
    × ((t : ℕ) → is_retry_due t (start_run 20 an_execution) ≡ false)
    × ((t : ℕ) → retry_execution t (start_run 20 an_execution) ≡ err not_failed)
execute_rule_for_event-stuck_example =
    execute_rule_for_event-stuck services source a_rule an_event 5 left_running an_execution 20
      running_found

event_claimed : has_event "v1" (claim_events 20 10 empty_queue).1 ≡ true
unfolding claim_events claim_all claim_event is_claimable
event_claimed = refl

claim_events-exclusive_example :
    has_event "v1"
      (claim_events 300 10 (
        take_steps
          (claim 200 10 ∷ write (record an_event { id = "v2" }) ∷ [])
          (claim_events 20 10 empty_queue).0)).1
    ≡ false
claim_events-exclusive_example =
    claim_events-exclusive 20 300 10 10 "v1" empty_queue
      (claim 200 10 ∷ write (record an_event { id = "v2" }) ∷ []) (omega arith) event_claimed
      (omega arith, (refl, tt))

abbrev calendar : Calendar
calendar = record { due_value_utc = λ v zone. none; isoformat = λ t. "t"; sha256 = λ s. s }

rule_due : has_rule "a1" (due_rules 60 100 (a_rule ∷ [])) ≡ true
unfolding due_rules is_due_rule
rule_due = refl

scan_due_automations-once_example :
    has_rule "a1" (
      due_rules 119 100
        (scan_all calendar
          ((db, 80, 80, 100) ∷ [])
          (scan_due_automations calendar db 60 60 100 empty_queue).0).rules)
    ≡ false
scan_due_automations-once_example =
    scan_due_automations-once calendar db 60 60 119 100 100 "a1" empty_queue
      ((db, 80, 80, 100) ∷ []) (omega arith) rule_due (omega arith, tt)

abbrev a_change : ChangeItem × ChangeSet
a_change = (
  record {
    id = "c1";
    table_id = "t1";
    entity_type = "record";
    entity_id = "r1";
    before_data = none;
    after_data = some (obj end);
    changed_fields = [];
  },
  record { actor_id = some 7; source = none; trace_id = none; status = "applied"; created_at = 12 },
)

short_id : take_chars 64 "c1" ≡ "c1"
unfolding take_chars
short_id = refl

nothing_twice : UniqueSources (an_event ∷ [])
nothing_twice item = omega arith

materialize-UniqueSources_example :
    UniqueSources
      (materialize_record_events_from_changesets db.workspace 30 10
        (a_change ∷ a_change ∷ [])
        empty_queue).0.events
materialize-UniqueSources_example =
    materialize-UniqueSources db.workspace 30 10 (a_change ∷ a_change ∷ []) empty_queue
      (short_id, (short_id, tt)) nothing_twice

abbrev a_call : Synthetic
a_call = record {
  event_id = "evt_1";
  workspace_id = "w";
  table_id = "t1";
  target_automation_id = "a1";
  event_type = "scheduled";
  record_id = none;
  after_data = none;
  actor_user_id = none;
  source = "automation_scheduler";
}

short_event_id : take_chars 128 "evt_1" ≡ "evt_1"
unfolding take_chars
short_event_id = refl

queue_synthetic_automation_event-twice_example :
    queue_synthetic_automation_event 40 a_call
      (queue_synthetic_automation_event 30 a_call empty_queue).0
    ≡ queue_synthetic_automation_event 30 a_call empty_queue
queue_synthetic_automation_event-twice_example =
    queue_synthetic_automation_event-twice 30 40 a_call a_call empty_queue short_event_id refl

-- What the execution of the tests has written.
abbrev own_change : Change
own_change = record {
  table_id = "t1";
  event_type = "record.updated";
  record_id = "r1";
  before_data = some [];
  after_data = some [];
  changed_fields = [];
  actor_user_id = some 7;
  source = some "automation";
  trace_id = some "tr";
  source_change_item_id = some "c2";
  event_created_at = none;
}

abbrev deep_queue : Queue
deep_queue = record empty_queue { executions = record an_execution { depth = 8 } ∷ [] }

change_known : is_record_event (strip "record.updated") ≡ true
unfolding strip lstrip rstrip is_space
change_known = refl

table_placed : workspace_of db.workspace "t1" ≡ some "w"
unfolding find_item non_empty
table_placed = refl

change_fresh : event_of_change (an_event ∷ []) (non_empty (some "c2")) ≡ none
unfolding event_of_change non_empty
change_fresh = refl

change_traced : non_empty (some "tr") ≡ some "tr"
unfolding non_empty
change_traced = refl

queue_record_automation_event-chain_example :
    (after : Queue) × (event : AutomationEvent) × (queue_record_automation_event db.workspace "n" 30
        own_change deep_queue
      ≡ ok (after, some event))
    × (after ≡ record deep_queue { events = deep_queue.events ++ event ∷ [] })
    × (event.depth ≡ 9)
    × ((an_execution.root_event_id == "") ≡ false
        → event.root_event_id ≡ take_chars 128 an_execution.root_event_id)
    × (event.parent_execution_id ≡ some "e1")
    × (8 ≤ 8
        → (services : Services) (rule : AutomationRule) (started finished : ℕ) (w : services.World)
          (x : AutomationExecution)
        → ((run services rule event started finished w x).0 ≡ w)
          × ((run services rule event started finished w x).1.status ≡ skipped))
queue_record_automation_event-chain_example =
    queue_record_automation_event-chain db.workspace "n" 30 own_change deep_queue "tr" "w"
      (record an_execution { depth = 8 }) change_known table_placed change_fresh refl change_traced
      refl
