-- ===== src/Automation/Runtime/Lifecycle.antt =====
-- The life of an execution as a step relation: every write that app/services/automation makes to a
-- row of automation_executions is one of these steps, and each keeps the row consistent.
use qtable_server.Base.{
  ℕ, suc, String, Bool, true, false, Option, none, some, List, [], ◌∷◌, ◌≡◌, refl, sym, ◌||◌, not,
  leb, subst, any, arith, Bool-cases, inl, inr,
}
use qtable_server.Base.Result.{ok}
use qtable_server.Automation.{
  Action, ExecutionStatus, running, retry_scheduled, succeeded, skipped, failed, partially_failed,
  ActionResult, AutomationExecution, AutomationRule, AutomationEvent,
}
use qtable_server.Automation.Services.{Failure, Services}
use qtable_server.Automation.Executor.{
  is_terminal, is_retryable, start_run, skip_run, succeed_run, fail_run, run,
}
use qtable_server.Automation.ActionLoop.{is_done, is_done_at, put_result, existing_results}
use qtable_server.Automation.Executor.Results.{
  Ascending, put_result-Ascending, existing_results-stored, any-put_result,
}
use qtable_server.Automation.Executor.Cases.{run_started-cases}
use qtable_server.Automation.QueueRows.{
  pending_action, persist_failed_action_result, shows_failure, fail_retry_context, retry_execution,
  lease_retry, failed_result, note_pending, is_denied,
}

abbrev is_waiting : ExecutionStatus → Bool
is_waiting retry_scheduled = true
is_waiting ExecutionStatus.queued = false
is_waiting running = false
is_waiting succeeded = false
is_waiting skipped = false
is_waiting failed = false
is_waiting partially_failed = false

abbrev is_some : Option ℕ → Bool
is_some none = false
is_some (some n) = true

abbrev PartlyDone : ExecutionStatus → List ActionResult → Type 0
PartlyDone partially_failed results = any is_done results ≡ true
PartlyDone ExecutionStatus.queued results = Unit
PartlyDone running results = Unit
PartlyDone retry_scheduled results = Unit
PartlyDone succeeded results = Unit
PartlyDone skipped results = Unit
PartlyDone failed results = Unit

pub record IsConsistent (e : AutomationExecution) : Type 0 where
  pub retry_time : is_some e.next_retry_at ≡ is_waiting e.status
  pub finish_time : is_some e.finished_at ≡ is_terminal e.status
  pub results_in_order : Ascending e.action_results
  pub partial : PartlyDone e.status e.action_results

pub data Step : AutomationExecution → AutomationExecution → Type 0 where
  start :
      (e : AutomationExecution) (now : ℕ) → is_retryable e.status ≡ true → Step e (start_run now e)
  save :
      (e : AutomationExecution) (results : List ActionResult)
      → e.status ≡ running
      → Ascending results
      → Step e (record e { action_results = results })
  skip :
      (e : AutomationExecution) (now : ℕ) (code : String) (message : Option String)
      → e.status ≡ running
      → Step e (skip_run now code message e)
  succeed :
      (e : AutomationExecution) (now : ℕ) (ids : List String)
      → e.status ≡ running
      → Step e (succeed_run now ids e)
  fail :
      (e : AutomationExecution) (retries now : ℕ) (ids : List String) (failure : Failure)
      → e.status ≡ running
      → Step e (fail_run retries now ids failure e)
  note :
      (e : AutomationExecution) (now : ℕ) (actions : List Action)
      → Step e (persist_failed_action_result now actions e)
  lease :
      (e : AutomationExecution) (now : ℕ) → e.status ≡ retry_scheduled → Step e (lease_retry now e)
  forget :
      (e : AutomationExecution) (now : ℕ) (code message : String)
      → e.status ≡ retry_scheduled
      → Step e (fail_retry_context now code message e)
  retry :
      (e after : AutomationExecution) (now : ℕ) → retry_execution now e ≡ ok after → Step e after

pub data Reach (e : AutomationExecution) : AutomationExecution → Type 0 where
  here : Reach e e
  next : {a b : AutomationExecution} → Reach e a → Step a b → Reach e b

start-IsConsistent :
    (e : AutomationExecution) (now : ℕ) → IsConsistent e → IsConsistent (start_run now e)
unfolding start_run
start-IsConsistent e now c = record {
  retry_time = refl;
  finish_time = refl;
  results_in_order = c.results_in_order;
  partial = tt;
}

fail-IsConsistent :
    (e : AutomationExecution) (retries now : ℕ) (ids : List String) (failure : Failure)
    → IsConsistent e
    → IsConsistent (fail_run retries now ids failure e)
unfolding fail_run
fail-IsConsistent e retries now ids failure c = elim (Bool-cases (leb e.attempt retries)) [
  | inl again ↦ rw again (record {
    retry_time = refl;
    finish_time = refl;
    results_in_order = c.results_in_order;
    partial = tt;
  })
  | inr last ↦ rw last (elim (Bool-cases (any is_done e.action_results)) [
    | inl some_done ↦ rw some_done (record {
      retry_time = refl;
      finish_time = refl;
      results_in_order = c.results_in_order;
      partial = some_done;
    })
    | inr none_done ↦ rw none_done (record {
      retry_time = refl;
      finish_time = refl;
      results_in_order = c.results_in_order;
      partial = tt;
    })
  ])
]

pending-is_done_at :
    (n : ℕ) (actions : List Action) (results : List ActionResult) (i : ℕ) (action : Action)
    → pending_action n actions results ≡ some (i, action)
    → is_done_at i results ≡ false
unfolding pending_action
pending-is_done_at n [] results i action h = absurd (cc)
pending-is_done_at n (a ∷ actions) results i action h = elim (Bool-cases (is_done_at n results)) [
  | inl already ↦ pending-is_done_at (suc n) actions results i action (rw already at h)
  | inr pending ↦ ground (arith, pending, (rw pending at h))
]

PartlyDone-put :
    (status : ExecutionStatus) (r : ActionResult) (results : List ActionResult)
    → is_done_at r.index results ≡ false
    → PartlyDone status results
    → PartlyDone status (put_result r results)
PartlyDone-put partially_failed r results pending p = any-put_result r results pending p
PartlyDone-put ExecutionStatus.queued r results pending p = tt
PartlyDone-put running r results pending p = tt
PartlyDone-put retry_scheduled r results pending p = tt
PartlyDone-put succeeded r results pending p = tt
PartlyDone-put skipped r results pending p = tt
PartlyDone-put failed r results pending p = tt

note-IsConsistent :
    (e : AutomationExecution) (now : ℕ) (actions : List Action)
    → IsConsistent e
    → IsConsistent (persist_failed_action_result now actions e)
unfolding persist_failed_action_result
note-IsConsistent e now actions c =
    elim (Bool-cases (not (shows_failure e.status) || is_denied e.error_code)) [
      | inl quiet ↦ rw quiet c
      | inr loud ↦
          rw loud (noted (pending_action 0 actions (existing_results [] e.action_results)) refl)
    ]
  where
    noted :
        (found : Option (ℕ × Action))
        → pending_action 0 actions (existing_results [] e.action_results) ≡ found
        → IsConsistent (note_pending now e (existing_results [] e.action_results) found)
    noted none h = c
    noted (some (i, action)) h =
        let stored : existing_results [] e.action_results ≡ e.action_results =
          existing_results-stored e.action_results c.results_in_order in
        let pending : is_done_at i e.action_results ≡ false =
          subst (λ rs. is_done_at i rs ≡ false) stored
            (pending-is_done_at 0 actions (existing_results [] e.action_results) i action h) in
        rw stored (record {
          retry_time = c.retry_time;
          finish_time = c.finish_time;
          results_in_order =
              put_result-Ascending (failed_result i action e) e.action_results c.results_in_order;
          partial =
              PartlyDone-put e.status (failed_result i action e) e.action_results pending c.partial;
        })

retried :
    (e after : AutomationExecution) (now : ℕ)
    → retry_execution now e ≡ ok after
    → (shows_failure e.status ≡ true)
      × (after.status ≡ retry_scheduled)
      × (after.next_retry_at ≡ some now)
      × (after.finished_at ≡ none)
      × (after.action_results ≡ e.action_results)
unfolding retry_execution
retried e after now h = ground arith

Step-IsConsistent :
    {e after : AutomationExecution} → Step e after → IsConsistent e → IsConsistent after
unfolding skip_run succeed_run lease_retry fail_retry_context
Step-IsConsistent (start e now h) c = start-IsConsistent e now c
Step-IsConsistent (save e results h a) c = record {
  retry_time = c.retry_time;
  finish_time = c.finish_time;
  results_in_order = a;
  partial = subst (λ s. PartlyDone s results) (sym h) tt;
}
Step-IsConsistent (skip e now code message h) c = record {
  retry_time = rw h at (c.retry_time);
  finish_time = refl;
  results_in_order = c.results_in_order;
  partial = tt;
}
Step-IsConsistent (succeed e now ids h) c = record {
  retry_time = refl;
  finish_time = refl;
  results_in_order = c.results_in_order;
  partial = tt;
}
Step-IsConsistent (fail e retries now ids failure h) c =
    fail-IsConsistent e retries now ids failure c
Step-IsConsistent (note e now actions) c = note-IsConsistent e now actions c
Step-IsConsistent (lease e now h) c = record {
  retry_time = rw h;
  finish_time = c.finish_time;
  results_in_order = c.results_in_order;
  partial = c.partial;
}
Step-IsConsistent (forget e now code message h) c = record {
  retry_time = refl;
  finish_time = refl;
  results_in_order = c.results_in_order;
  partial = tt;
}
Step-IsConsistent (retry e after now h) c =
    let (shown, waiting, at_now, open_end, same) = retried e after now h in
    record {
      retry_time = rw (waiting, at_now);
      finish_time = rw (waiting, open_end);
      results_in_order = subst Ascending (sym same) c.results_in_order;
      partial = subst (λ s. PartlyDone s after.action_results) (sym waiting) tt;
    }

-- Along any sequence of writes from a consistent row: a retry time is set exactly while a retry is
-- scheduled, a finish time exactly in the four final statuses, the results are in the order of the
-- actions, and a row that is partially failed has an action that succeeded.
pub Reach-IsConsistent :
    {e after : AutomationExecution} → IsConsistent e → Reach e after → IsConsistent after
Reach-IsConsistent c here = c
Reach-IsConsistent c (next r step) = Step-IsConsistent step (Reach-IsConsistent c r)

Reach-trans : {a b c : AutomationExecution} → Reach a b → Reach b c → Reach a c
Reach-trans p here = p
Reach-trans p (next q step) = next (Reach-trans p q) step

module _ (services : Services) where
  open services use {World}

  -- A run of an execution that is queued or waits for a retry is a sequence of the steps of the state
  -- machine: a start, and what follows from it.
  pub run-Reach :
      (rule : AutomationRule) (event : AutomationEvent) (started finished : ℕ) (w : World)
      (e : AutomationExecution)
      → is_retryable e.status ≡ true
      → Reach e (run services rule event started finished w e).1
  unfolding run start_run
  run-Reach rule event started finished w e h =
      let e' : AutomationExecution = start_run started e in
      Reach-trans (next here (start e started h)) (
        run_started-cases services rule event finished w e' (λ a. Reach e' a)
          (λ code message. next here (skip e' finished code message refl))
          (λ results ids a.
            next (next here (save e' results refl a))
              (succeed (record e' { action_results = results }) finished ids refl))
          (λ ids failure. next here (fail e' rule.max_retries finished ids failure refl))
          (λ results ids failure a. next (next here (save e' results refl a)) (
            fail (record e' { action_results = results }) rule.max_retries finished ids failure
              refl)))
