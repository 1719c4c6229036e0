-- ===== src/Automation/Runtime.antt =====
-- app/services/automation/runtime.py, with `_get_or_create_execution`, `execute_rule_for_event` and
-- `retry_execution` of executor.py: the worker's cycle over the queue. The clock is read when a cycle
-- starts, when its runs start and when they end; the two ids of a new execution are a function of
-- what it is for, since each is made at most once.
pub mod Lifecycle
pub mod Leases
pub mod Guarantee
use qtable_server.Base.{
  ℕ, zero, suc, ◌+◌, String, Bool, true, false, not, Option, none, some, List, [], ◌∷◌, ◌++◌, ◌&&◌,
  ◌||◌, map, ◌==◌, string_eq, nat_eq, ltb, leb, if◌then◌else◌, Dict, any, is_empty, filter, find,
  take, sort_by, min, max, length,
}
use qtable_server.Base.Result.{Result, ok, err}
use qtable_server.Automation.{
  Action, action_type, AutomationRule, EventStatus, processing, processed, AutomationEvent,
  ExecutionStatus, running, retry_scheduled, succeeded, skipped, failed, partially_failed, done,
  broke, ActionResult, AutomationExecution, Queue,
}
use qtable_server.Automation.Services.{Services, text_le}
use qtable_server.Automation.Executor.{is_terminal, is_retryable, run}
use qtable_server.Automation.ActionLoop.{put_result, existing_results, is_done_at}
use qtable_server.Automation.Events.{
  ChangeItem, ChangeSet, non_empty, materialize_record_events_from_changesets, Synthetic,
  queue_synthetic_automation_event, or_else,
}
use qtable_server.Automation.Matching.{trigger_matches}
use qtable_server.Automation.Scheduler.{Calendar, scan_due_automations, is_due_at}
use qtable_server.Automation.QueueRows.{
  RetryError, available_before, batch_size, claim_all, claim_event, claim_events, claimable_batch,
  fail_retry_context, failed_result, find_execution, is_claimable, is_denied, is_for, is_retry_due,
  lease_all, lease_retry, new_execution, not_failed, note_pending, pending_action,
  persist_failed_action_result, retried_before, retry_execution, set_event, set_execution,
  shows_failure, time_of, write_event, write_execution,
}

-- The readings of the clock, and the two ids of an execution.
pub record Source : Type 0 where
  pub created : ℕ
  pub started : ℕ
  pub finished : ℕ
  pub new_ids : String → ℕ → String → String × String

abbrev pub found_or_new :
    Queue → AutomationExecution → Option AutomationExecution → Queue × AutomationExecution
found_or_new queue e none = (record queue { executions = queue.executions ++ e ∷ [] }, e)
found_or_new queue e (some existing) = (queue, existing)

-- `_get_or_create_execution`, with the table that holds the execution.
unfoldable pub get_or_create_execution :
    Source → AutomationRule → AutomationEvent → Queue → Queue × AutomationExecution
get_or_create_execution source rule event queue =
    found_or_new queue
      (new_execution (source.new_ids rule.id rule.version event.id) source.created rule event)
      (find_execution rule event queue.executions)

abbrev may_match : AutomationEvent → AutomationRule → Bool
may_match event rule =
    rule.table_id == event.table_id
    && rule.enabled
    && elim rule.deleted_at [ none ↦ true | some n ↦ false ]
    && leb rule.created_at event.created_at
    && elim (non_empty event.target_automation_id) [ none ↦ true | some id ↦ rule.id == id ]

abbrev rule_by_id : String → List AutomationRule → Option AutomationRule
rule_by_id id rules = find (λ r. r.id == id) rules

abbrev event_by_id : String → List AutomationEvent → Option AutomationEvent
event_by_id id events = find (λ v. v.id == id) events

abbrev pub finish_event : ℕ → AutomationEvent → AutomationEvent
finish_event now event = record event {
  status = processed;
  processed_at = some now;
  available_at = now;
  error_code = none;
}

abbrev pub requeue_event : ℕ → AutomationEvent → AutomationEvent
requeue_event now event = record event {
  status = EventStatus.queued;
  error_code = some "dispatch_error";
  processed_at = none;
  available_at = now + 30;
}

abbrev write_found : (AutomationEvent → AutomationEvent) → String → Queue → Queue
write_found change event_id queue = elim (event_by_id event_id queue.events) [
  | none ↦ queue
  | some event ↦ set_event (change event) queue
]

abbrev fail_found : ℕ → String → String → String → Queue → Queue
fail_found now code message id queue = elim (find (λ e. e.id == id) queue.executions) [
  | none ↦ queue
  | some e ↦ set_execution (fail_retry_context now code message e) queue
]

unfoldable pub due_retries : ℕ → ℕ → List AutomationExecution → List AutomationExecution
due_retries now limit executions =
    take (batch_size limit) (sort_by retried_before (filter (is_retry_due now) executions))

module _ (services : Services) where
  open services use {World, rows, python}

  unfoldable pub execute_rule_for_event :
      Source
      → AutomationRule
      → AutomationEvent
      → World
      → Queue
      → World × Queue × AutomationExecution
  execute_rule_for_event source rule event w queue =
      let (next, e) = get_or_create_execution source rule event queue in
      let (v, after) = run services rule event source.started source.finished w e in
      if is_retryable e.status then (v, set_execution after next, after) else (w, next, e)

  -- A run, and the note of the action that failed.
  unfoldable pub dispatch :
      Source
      → List Action
      → AutomationRule
      → AutomationEvent
      → World
      → Queue
      → World × Queue × AutomationExecution
  dispatch source actions rule event w queue =
      let (v, next, e) = execute_rule_for_event source rule event w queue in
      let kept = persist_failed_action_result source.finished actions e in
      (v, set_execution kept next, kept)

  -- `_rules_for_event`
  unfoldable pub rules_for_event : List AutomationRule → AutomationEvent → List AutomationRule
  rules_for_event rules event =
      filter (λ rule. trigger_matches python rule event)
        (sort_by (λ a b. text_le a.id b.id) (filter (may_match event) rules))

  -- The loop over the matched rules; `none` is the dispatch failure.
  unfoldable pub dispatch_rules :
      Source → String → List AutomationRule → World → Queue → World × Queue × Option ℕ
  dispatch_rules source event_id [] w queue = (w, queue, some 0)
  dispatch_rules source event_id (matched ∷ rules) w queue =
      elim (rule_by_id matched.id queue.rules) [
        | none ↦ (w, queue, none)
        | some rule ↦ elim (event_by_id event_id queue.events) [
          | none ↦ (w, queue, none)
          | some event ↦
              let (v, next, e) = dispatch source matched.actions rule event w queue in
              let (u, last, count) = dispatch_rules source event_id rules v next in
              (u, last, elim count [ none ↦ none | some n ↦ some (suc n) ])
        ]
      ]

  unfoldable pub process_event : Source → AutomationEvent → World → Queue → World × Queue
  process_event source event w queue =
      let (v, next, count) =
        dispatch_rules source event.id (rules_for_event queue.rules event) w queue in
      elim count [
        | none ↦ (v, write_found (requeue_event source.finished) event.id next)
        | some n ↦ (v, write_found (finish_event source.finished) event.id next)
      ]

  unfoldable pub process_events : Source → List AutomationEvent → World → Queue → World × Queue
  process_events source [] w queue = (w, queue)
  process_events source (event ∷ events) w queue =
      let (v, next) = process_event source event w queue in process_events source events v next

  -- One claimed retry.
  unfoldable pub process_retry : Source → ℕ → AutomationExecution → World → Queue → World × Queue
  process_retry source now claim w queue = elim (rule_by_id claim.automation_id queue.rules) [
    | none ↦ (
      w,
      fail_found now "retry_context_missing" "Automation rule or trigger event is missing" claim.id
          queue,
    )
    | some rule ↦ elim (event_by_id claim.trigger_event_id queue.events) [
      | none ↦ (
        w,
        fail_found now "retry_context_missing" "Automation rule or trigger event is missing"
            claim.id queue,
      )
      | some event ↦
          let (v, next, e) = dispatch source rule.actions rule event w queue in
          if rule.version == claim.automation_version then (v, next) else (
            w,
            fail_found now "automation_version_changed"
                "Automation changed after this execution; retry requires a fresh run" claim.id
                queue,
          )
    ]
  ]

  unfoldable pub process_retries :
      Source → ℕ → List AutomationExecution → World → Queue → World × Queue
  process_retries source now [] w queue = (w, queue)
  process_retries source now (claim ∷ claims) w queue =
      let (v, next) = process_retry source now claim w queue in
      process_retries source now claims v next

  -- `_process_due_retries`: the whole batch is leased before its first run.
  unfoldable pub process_due_retries : Source → ℕ → ℕ → World → Queue → World × Queue
  process_due_retries source now limit w queue =
      let claims = due_retries now limit queue.executions in
      process_retries source now claims w (lease_all now claims queue)

  -- `process_automation_cycle`: the change log, the limits and the time of the cycle.
  unfoldable pub process_automation_cycle :
      Calendar
      → Source
      → List (ChangeItem × ChangeSet)
      → ℕ
      → ℕ
      → ℕ
      → ℕ
      → World
      → Queue
      → World × Queue
  process_automation_cycle calendar source log event_limit retry_limit schedule_limit now w queue =
      let (q, materialized) =
        materialize_record_events_from_changesets (rows w).workspace source.created
          (max (event_limit + event_limit + event_limit + event_limit) 100) log queue in
      let scanned =
        (scan_due_automations calendar (rows w) source.created now schedule_limit q).0 in
      let (v, retried) = process_due_retries source now retry_limit w scanned in
      let (claimed, events) = claim_events (max now source.created) event_limit retried in
      process_events source events v claimed

  -- `execute_manual_automation`, from the rule that `get_automation` returns; the row is the record's.
  unfoldable pub execute_manual_automation :
      Source → Synthetic → AutomationRule → World → Queue → World × Queue × AutomationExecution
  execute_manual_automation source call rule w queue =
      let (q, event) = queue_synthetic_automation_event source.created call queue in
      let (v, next, e) = dispatch source rule.actions rule event w q in
      (v, write_found (finish_event source.finished) event.id next, e)
