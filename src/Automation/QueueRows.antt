-- ===== src/Automation/QueueRows.antt =====
-- The rows of the queue that the worker of app/services/automation/runtime.py writes: executions by
-- what they are for, retries, claims and leases.
use qtable_server.Base.{
  ℕ, suc, ◌+◌, String, Bool, true, false, not, Option, none, some, List, [], ◌∷◌, ◌&&◌, ◌||◌, ◌==◌,
  string_eq, nat_eq, ltb, leb, if◌then◌else◌, filter, find, take, sort_by, min, max,
}
use qtable_server.Base.Result.{Result, ok, err}
use qtable_server.Automation.{
  Action, action_type, AutomationRule, EventStatus, processing, processed, AutomationEvent,
  ExecutionStatus, running, retry_scheduled, succeeded, skipped, failed, partially_failed, broke,
  ActionResult, AutomationExecution, Queue,
}
use qtable_server.Automation.ActionLoop.{put_result, existing_results, is_done_at}
use qtable_server.Automation.Events.{non_empty, or_else}
use qtable_server.Automation.Scheduler.{is_due_at}

-- The unique key of an execution: the rule, its version and the event.
abbrev pub is_for : String → ℕ → String → AutomationExecution → Bool
is_for rule_id version event_id e =
    e.automation_id == rule_id && e.automation_version == version && e.trigger_event_id == event_id

unfoldable pub find_execution :
    AutomationRule → AutomationEvent → List AutomationExecution → Option AutomationExecution
find_execution rule event executions = find (is_for rule.id rule.version event.id) executions

unfoldable pub new_execution :
    String × String → ℕ → AutomationRule → AutomationEvent → AutomationExecution
new_execution (id, trace_id) now rule event = record {
  id = id;
  automation_id = rule.id;
  automation_version = rule.version;
  trigger_event_id = event.id;
  root_event_id = event.root_event_id;
  parent_execution_id = event.parent_execution_id;
  record_id = event.record_id;
  depth = event.depth;
  status = ExecutionStatus.queued;
  trace_id = trace_id;
  attempt = 0;
  action_results = [];
  change_set_ids = [];
  error_code = none;
  error_message = none;
  next_retry_at = none;
  started_at = none;
  finished_at = none;
  created_at = now;
  updated_at = now;
}

-- The rows of an id, of which there is one, are written.
unfoldable pub write_execution :
    AutomationExecution → List AutomationExecution → List AutomationExecution
write_execution e [] = []
write_execution e (x ∷ xs) = (if x.id == e.id then e else x) ∷ write_execution e xs

unfoldable pub write_event : AutomationEvent → List AutomationEvent → List AutomationEvent
write_event event [] = []
write_event event (v ∷ vs) = (if v.id == event.id then event else v) ∷ write_event event vs

abbrev pub set_execution : AutomationExecution → Queue → Queue
set_execution e queue = record queue { executions = write_execution e queue.executions }

abbrev pub set_event : AutomationEvent → Queue → Queue
set_event event queue = record queue { events = write_event event queue.events }

-- The first action that has not succeeded, with its index.
unfoldable pub pending_action : ℕ → List Action → List ActionResult → Option (ℕ × Action)
pending_action index [] results = none
pending_action index (action ∷ actions) results =
    if is_done_at index results
    then pending_action (suc index) actions results
    else some (index, action)

abbrev pub shows_failure : ExecutionStatus → Bool
shows_failure retry_scheduled = true
shows_failure failed = true
shows_failure partially_failed = true
shows_failure ExecutionStatus.queued = false
shows_failure running = false
shows_failure succeeded = false
shows_failure skipped = false

abbrev pub is_denied : Option String → Bool
is_denied none = false
is_denied (some code) = code == "permission_denied"

abbrev pub failed_result : ℕ → Action → AutomationExecution → ActionResult
failed_result index action e = record {
  index = index;
  type = action_type action;
  outcome =
      broke (or_else (non_empty e.error_code) "action_error")
        (or_else (non_empty e.error_message) "Automation action failed");
}

abbrev pub note_pending :
    ℕ → AutomationExecution → List ActionResult → Option (ℕ × Action) → AutomationExecution
note_pending now e results none = e
note_pending now e results (some (index, action)) = record e {
  action_results = put_result (failed_result index action e) results;
  updated_at = now;
}

-- `_persist_failed_action_result`; a message is kept whole.
unfoldable pub persist_failed_action_result :
    ℕ → List Action → AutomationExecution → AutomationExecution
persist_failed_action_result now actions e =
    let results = existing_results [] e.action_results in
    if not (shows_failure e.status) || is_denied e.error_code
    then e
    else note_pending now e results (pending_action 0 actions results)

unfoldable pub fail_retry_context : ℕ → String → String → AutomationExecution → AutomationExecution
fail_retry_context now error_code error_message e = record e {
  status = failed;
  error_code = some error_code;
  error_message = some error_message;
  finished_at = some now;
  next_retry_at = none;
  updated_at = now;
}

pub data RetryError : Type 0 where
  not_failed : RetryError

-- The write of `retry_execution`, after its permission checks.
unfoldable pub retry_execution : ℕ → AutomationExecution → Result RetryError AutomationExecution
retry_execution now e =
    let after = record e {
      status = retry_scheduled;
      next_retry_at = some now;
      finished_at = none;
      error_code = none;
      error_message = none;
      updated_at = now;
    } in
    elim e.status [ failed ↦ ok after | partially_failed ↦ ok after | _ ↦ err not_failed ]

-- The events that a worker may take: queued, or held by a lease that has run out.
unfoldable pub is_claimable : ℕ → AutomationEvent → Bool
is_claimable now event =
    leb event.available_at now
    && elim event.status [ processed ↦ false | processing ↦ true | EventStatus.queued ↦ true ]

abbrev pub available_before : AutomationEvent → AutomationEvent → Bool
available_before a b =
    ltb a.available_at b.available_at
    || (a.available_at == b.available_at && leb a.created_at b.created_at)

abbrev pub batch_size : ℕ → ℕ
batch_size limit = max 1 (min 500 limit)

-- A claim holds for 300 seconds.
unfoldable pub claim_event : ℕ → AutomationEvent → AutomationEvent
claim_event now event = record event {
  status = processing;
  available_at = now + 300;
  error_code = none;
}

unfoldable pub claim_all : ℕ → List AutomationEvent → Queue → Queue × List AutomationEvent
claim_all now [] queue = (queue, [])
claim_all now (event ∷ events) queue =
    let claimed = claim_event now event in
    let (next, more) = claim_all now events (set_event claimed queue) in (next, claimed ∷ more)

-- The query of `_claim_events`.
abbrev pub claimable_batch : ℕ → ℕ → List AutomationEvent → List AutomationEvent
claimable_batch now limit events =
    take (batch_size limit) (sort_by available_before (filter (is_claimable now) events))

unfoldable pub claim_events : ℕ → ℕ → Queue → Queue × List AutomationEvent
claim_events now limit queue = claim_all now (claimable_batch now limit queue.events) queue

abbrev pub is_retry_due : ℕ → AutomationExecution → Bool
is_retry_due now e = elim e.status [ retry_scheduled ↦ is_due_at now e.next_retry_at | _ ↦ false ]

abbrev pub time_of : Option ℕ → ℕ
time_of none = 0
time_of (some n) = n

abbrev pub retried_before : AutomationExecution → AutomationExecution → Bool
retried_before a b =
    let s = time_of a.next_retry_at in
    let t = time_of b.next_retry_at in ltb s t || (s == t && leb a.created_at b.created_at)

unfoldable pub lease_retry : ℕ → AutomationExecution → AutomationExecution
lease_retry now e = record e { next_retry_at = some (now + 300); updated_at = now }

unfoldable pub lease_all : ℕ → List AutomationExecution → Queue → Queue
lease_all now [] queue = queue
lease_all now (e ∷ es) queue = lease_all now es (set_execution (lease_retry now e) queue)
