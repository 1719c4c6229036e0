-- ===== src/Automation/Runtime/Guarantee.antt =====
-- What the worker promises about one execution (app/services/automation/runtime.py and executor.py):
-- a rule is done with an event once, and an execution that is left running is never taken up again.
use qtable_server.Base.{
  ℕ, String, Bool, true, false, some, List, [], ◌∷◌, ◌≡◌, refl, sym, ◌==◌, string_eq, nat_eq, find,
  arith, eq_iff, eq_refl, Bool-cases, Option-cases, inl, inr, find-append, find-holds,
}
use qtable_server.Base.Result.{err}
use qtable_server.Automation.{
  AutomationRule, AutomationEvent, AutomationExecution, Queue, ExecutionStatus,
}
use qtable_server.Automation.Services.{Failure, Services}
use qtable_server.Automation.Executor.{
  is_terminal, is_retryable, run, start_run, skip_run, succeed_run, fail_run,
}
use qtable_server.Automation.Executor.Cases.{run_started-cases}
use qtable_server.Automation.Runtime.{Source, get_or_create_execution, execute_rule_for_event}
use qtable_server.Automation.QueueRows.{
  is_for, find_execution, new_execution, write_execution, is_retry_due, retry_execution, not_failed,
}

-- What a run leaves alone: the ids of the execution, and what it is for.
record IsSameRun (e after : AutomationExecution) : Type 0 where
  same_id : after.id ≡ e.id
  same_rule : after.automation_id ≡ e.automation_id
  same_version : after.automation_version ≡ e.automation_version
  same_event : after.trigger_event_id ≡ e.trigger_event_id

failed_same :
    (retries now : ℕ) (ids : List String) (failure : Failure) (e : AutomationExecution)
    → IsSameRun e (fail_run retries now ids failure e)
unfolding fail_run
failed_same retries now ids failure e = ground arith

run-IsSameRun :
    (services : Services) (rule : AutomationRule) (event : AutomationEvent) (started finished : ℕ)
    (w : services.World) (e : AutomationExecution)
    → IsSameRun e (run services rule event started finished w e).1
unfolding run start_run skip_run succeed_run
run-IsSameRun services rule event started finished w e =
    run_started-cases services rule event finished w (start_run started e) (λ a. IsSameRun e a)
      (λ code message. record {
        same_id = refl;
        same_rule = refl;
        same_version = refl;
        same_event = refl;
      })
      (λ results ids a. record {
        same_id = refl;
        same_rule = refl;
        same_version = refl;
        same_event = refl;
      })
      (λ ids failure.
        let s = failed_same rule.max_retries finished ids failure (start_run started e) in
        record {
          same_id = s.same_id;
          same_rule = s.same_rule;
          same_version = s.same_version;
          same_event = s.same_event;
        })
      (λ results ids failure a.
        let s =
          failed_same rule.max_retries finished ids failure
            (record (start_run started e) { action_results = results }) in
        record {
          same_id = s.same_id;
          same_rule = s.same_rule;
          same_version = s.same_version;
          same_event = s.same_event;
        })

find-write_execution :
    (p : AutomationExecution → Bool) (e x : AutomationExecution) (xs : List AutomationExecution)
    → find p xs ≡ some x
    → x.id ≡ e.id
    → p e ≡ true
    → find p (write_execution e xs) ≡ some e
unfolding write_execution
find-write_execution p e x [] h same good = absurd (cc)
find-write_execution p e x (y ∷ ys) h same good = elim (Bool-cases (y.id == e.id)) [
  | inl here ↦ rw (here, good)
  | inr other ↦ elim (Bool-cases (p y)) [
    | inl hit ↦ absurd (ground (arith, hit, eq_iff y.id e.id, (rw hit at h)))
    | inr miss ↦ rw (other, miss) (find-write_execution p e x ys (rw miss at h) same good)
  ]
]

new_is_for :
    (ids : String × String) (now : ℕ) (rule : AutomationRule) (event : AutomationEvent)
    → is_for rule.id rule.version event.id (new_execution ids now rule event) ≡ true
unfolding new_execution
new_is_for (id, trace_id) now rule event = ground (arith, eq_refl rule.id, eq_refl event.id)

created_found :
    (source : Source) (rule : AutomationRule) (event : AutomationEvent) (queue : Queue)
    → find_execution rule event (get_or_create_execution source rule event queue).0.executions
      ≡ some (get_or_create_execution source rule event queue).1
unfolding get_or_create_execution find_execution
created_found source rule event queue =
    let e : AutomationExecution =
      new_execution (source.new_ids rule.id rule.version event.id) source.created rule event in
    elim (Option-cases (find_execution rule event queue.executions)) [
      | inl fresh ↦ rw fresh (
          find-append (is_for rule.id rule.version event.id) queue.executions e fresh
            (new_is_for (source.new_ids rule.id rule.version event.id) source.created rule event))
      | inr (existing, there) ↦ rw (there, there)
    ]

is_for-same :
    (rule : AutomationRule) (event : AutomationEvent) (e after : AutomationExecution)
    → IsSameRun e after
    → is_for rule.id rule.version event.id e ≡ true
    → is_for rule.id rule.version event.id after ≡ true
is_for-same rule event e after s h = rw (s.same_rule, s.same_version, s.same_event) h

over_stops : (status : ExecutionStatus) → is_terminal status ≡ true → is_retryable status ≡ false
over_stops status h = ground arith

module _ (services : Services) where
  open services use {World}

  -- The execution that a call returns is the one that is found for the rule and the event afterwards.
  found_after :
      (source : Source) (rule : AutomationRule) (event : AutomationEvent) (w : World)
      (queue : Queue)
      → find_execution rule event
          (execute_rule_for_event services source rule event w queue).1.executions
        ≡ some (execute_rule_for_event services source rule event w queue).2
  unfolding execute_rule_for_event find_execution
  found_after source rule event w queue =
      let made : Queue × AutomationExecution = get_or_create_execution source rule event queue in
      let there : find_execution rule event made.0.executions ≡ some made.1 =
        created_found source rule event queue in
      let after : AutomationExecution =
        (run services rule event source.started source.finished w made.1).1 in
      let s : IsSameRun made.1 after =
        run-IsSameRun services rule event source.started source.finished w made.1 in
      elim (Bool-cases (is_retryable made.1.status)) [
        | inl open_still ↦ rw open_still (
            find-write_execution (is_for rule.id rule.version event.id) after made.1
              made.0.executions there (sym s.same_id)
              (is_for-same rule event made.1 after s
                (find-holds (is_for rule.id rule.version event.id) made.0.executions made.1 there)))
        | inr shut ↦ rw shut there
      ]

  closed :
      (source : Source) (rule : AutomationRule) (event : AutomationEvent) (w : World)
      (queue : Queue) (e : AutomationExecution)
      → find_execution rule event queue.executions ≡ some e
      → is_retryable e.status ≡ false
      → execute_rule_for_event services source rule event w queue ≡ (w, queue, e)
  unfolding execute_rule_for_event get_or_create_execution
  closed source rule event w queue e there shut = rw (there, shut)

  -- Once a rule's execution for an event is over, handling the event again under the same version of
  -- the rule, at any later time and whatever has become of the rest, changes nothing at all and returns
  -- that execution.
  pub execute_rule_for_event-once :
      (source later : Source) (rule : AutomationRule) (event : AutomationEvent) (w v : World)
      (queue : Queue)
      → is_terminal (execute_rule_for_event services source rule event w queue).2.status ≡ true
      → execute_rule_for_event services later rule event v
          (execute_rule_for_event services source rule event w queue).1
        ≡ (
          v,
          (execute_rule_for_event services source rule event w queue).1,
          (execute_rule_for_event services source rule event w queue).2,
        )
  execute_rule_for_event-once source later rule event w v queue over =
      closed later rule event v (execute_rule_for_event services source rule event w queue).1
        (execute_rule_for_event services source rule event w queue).2
        (found_after source rule event w queue) (over_stops _ over)

  -- An execution that is left running, as by a worker that dies after the commit that starts it, is
  -- never taken up again: the event's next delivery returns it as it is, no retry is ever due for it,
  -- and a user cannot retry it.
  pub execute_rule_for_event-stuck :
      (source : Source) (rule : AutomationRule) (event : AutomationEvent) (w : World)
      (queue : Queue) (e : AutomationExecution) (now : ℕ)
      → find_execution rule event queue.executions ≡ some (start_run now e)
      → (execute_rule_for_event services source rule event w queue ≡ (w, queue, start_run now e))
        × ((t : ℕ) → is_retry_due t (start_run now e) ≡ false)
        × ((t : ℕ) → retry_execution t (start_run now e) ≡ err not_failed)
  unfolding start_run retry_execution
  execute_rule_for_event-stuck source rule event w queue e now there =
      (closed source rule event w queue (start_run now e) there refl, λ t. refl, λ t. refl)
