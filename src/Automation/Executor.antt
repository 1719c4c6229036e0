-- ===== src/Automation/Executor.antt =====
-- app/services/automation/executor.py: one run of a rule for an event. The clock is read once when
-- the run starts and once when it ends, and an id is an argument.
pub mod Results
pub mod Repeat
pub mod Cases
pub mod Retries
pub mod Effects
pub mod Recipients
use Prim.Native.String.{◌++◌ as join_text}
use mathlib.Core.Option
use qtable_server.Base.{
  ℕ, zero, suc, ◌+◌, ◌-◌, ◌*◌, ◌^◌, min, String, Bool, true, false, not, Option, none, some, List,
  [], ◌∷◌, ◌++◌, ◌&&◌, ◌||◌, map, ◌==◌, string_eq, nat_eq, ltb, leb, if◌then◌else◌, Dict, any,
  is_empty, filter, find,
}
use qtable_server.Base.Result.{Result, ok, err}
use qtable_server.Json.{Json, str, or_null}
use qtable_server.Permission.{permission_allows, get_effective_permission_for_item}
use qtable_server.RowPermission.{RowDb, TableField, TableRecord}
use qtable_server.RowPermission.Access.{require_record_access}
use qtable_server.Automation.{
  Condition, group, test, nil, cons, Action, action_type, required_permission_for_actions,
  AutomationRule, AutomationEvent, ExecutionStatus, running, retry_scheduled, succeeded, skipped,
  failed, partially_failed, Outcome, done, broke, ActionResult, AutomationExecution,
}
use qtable_server.Automation.Normal.{FieldTypes}
use qtable_server.Automation.Evaluate.{evaluate_conditions}
use qtable_server.Automation.Services.{
  Failure, permission_error, failure_code, error_message, requires_session_rollback, Notification,
  Call, Services,
}
use qtable_server.Automation.Actions.{execute_action, context_data}
use qtable_server.Automation.ActionLoop.{
  broke_result, done_result, existing_results, is_done_at, put_result, result_at, Ended,
  after_action, ended, give_up, run_actions, is_done,
}

abbrev pub max_automation_depth : ℕ
max_automation_depth = 8

abbrev pub is_absent {ℓ} : {A : Type ℓ} → Option A → Bool
is_absent none = true
is_absent (some a) = false

abbrev pub is_terminal : ExecutionStatus → Bool
is_terminal succeeded = true
is_terminal skipped = true
is_terminal failed = true
is_terminal partially_failed = true
is_terminal ExecutionStatus.queued = false
is_terminal running = false
is_terminal retry_scheduled = false

abbrev pub is_retryable : ExecutionStatus → Bool
is_retryable ExecutionStatus.queued = true
is_retryable retry_scheduled = true
is_retryable running = false
is_retryable succeeded = false
is_retryable skipped = false
is_retryable failed = false
is_retryable partially_failed = false

-- The start of a run: what `execute_rule_for_event` commits before it enters its `try`.
unfoldable pub start_run : ℕ → AutomationExecution → AutomationExecution
start_run now e = record e {
  status = running;
  attempt = suc e.attempt;
  started_at = some now;
  finished_at = none;
  next_retry_at = none;
  error_code = none;
  error_message = none;
  updated_at = now;
}

unfoldable pub skip_run : ℕ → String → Option String → AutomationExecution → AutomationExecution
skip_run now code message e = record e {
  status = skipped;
  error_code = some code;
  error_message = message;
  finished_at = some now;
  updated_at = now;
}

unfoldable pub succeed_run : ℕ → List String → AutomationExecution → AutomationExecution
succeed_run now change_set_ids e = record e {
  status = succeeded;
  change_set_ids = change_set_ids;
  error_code = none;
  error_message = none;
  next_retry_at = none;
  finished_at = some now;
  updated_at = now;
}

-- `min(RETRY_MAX_SECONDS, RETRY_BASE_SECONDS * (2 ** max(0, attempt - 1)))`
unfoldable pub retry_delay : ℕ → ℕ
retry_delay attempt = min 300 (5 * 2 ^ (attempt - 1))

-- What the `except` branch writes to the execution.
unfoldable pub fail_run : ℕ → ℕ → List String → Failure → AutomationExecution → AutomationExecution
fail_run max_retries now change_set_ids failure e =
    if leb e.attempt max_retries
    then record e {
      status = retry_scheduled;
      change_set_ids = change_set_ids;
      error_code = some (failure_code failure);
      error_message = some (error_message failure);
      next_retry_at = some (now + retry_delay e.attempt);
      finished_at = none;
      updated_at = now;
    }
    else record e {
      status = if any is_done e.action_results then partially_failed else failed;
      change_set_ids = change_set_ids;
      error_code = some (failure_code failure);
      error_message = some (error_message failure);
      next_retry_at = none;
      finished_at = some now;
      updated_at = now;
    }

-- `rule.conditions.get("items")`, as a test.
unfoldable pub has_items : Condition → Bool
has_items (group is_and nil) = false
has_items (group is_and (cons c cs)) = true
has_items (test field_id operator value) = false

-- `_field_map`
unfoldable pub field_types : String → List TableField → FieldTypes
field_types table_id fields =
    map (λ f. (f.id, f.type)) (filter (λ f. f.table_id == table_id) fields)

abbrev allowed_row :
    ℕ → Option String → Option TableRecord → Result Failure (ℕ × Option String × Option TableRecord)
allowed_row user_id permission found = ok (user_id, permission, found)

-- `_runtime_record`, and what `_validate_runtime_permission` returns with it.
unfoldable pub runtime_record :
    RowDb
    → AutomationRule
    → Option String
    → ℕ
    → Option String
    → Result Failure (ℕ × Option String × Option TableRecord)
runtime_record db rule none user_id permission = allowed_row user_id permission none
runtime_record db rule (some record_id) user_id permission =
    if record_id == ""
    then allowed_row user_id permission none
    else elim (require_record_access db rule.table_id record_id user_id permission) [
      | err e ↦ err (permission_error "Record not found or no access")
      | ok row ↦ allowed_row user_id permission (some row)
    ]

unfoldable pub permitted :
    RowDb
    → AutomationRule
    → AutomationEvent
    → ℕ
    → Result Failure (ℕ × Option String × Option TableRecord)
permitted db rule event user_id =
    let permission = get_effective_permission_for_item db.workspace user_id rule.table_id in
    if permission_allows permission (required_permission_for_actions rule.actions)
    then runtime_record db rule event.record_id user_id permission
    else err (
        permission_error (
          join_text "Automation run-as user no longer has required '"
            (join_text (required_permission_for_actions rule.actions) "' permission")))

unfoldable pub validate_runtime_permission :
    RowDb
    → AutomationRule
    → AutomationEvent
    → Result Failure (ℕ × Option String × Option TableRecord)
validate_runtime_permission db rule event = elim rule.run_as_user_id [
  | none ↦ err (permission_error "Automation run-as user no longer exists")
  | some user_id ↦ permitted db rule event user_id
]

module _ (services : Services) where
  open services use {
    World, rows, stage_notification, publish_notification_rows, transaction, change_set_ids, python,
  }

  -- `_notify_final_failure`: what it raises is dropped, and rolled back where that is called for.
  unfoldable pub keep_session : {A : Type 0} → World × Result Failure A → World
  keep_session (after, ok a) = after
  keep_session (after, err failure) =
      if requires_session_rollback failure then transaction.rollback after else after

  -- What follows the staging: the commit, and a new notification is published.
  unfoldable pub deliver : World × Result Failure (String × Bool) → World
  unfolding keep_session
  deliver (after, ok (id, created)) =
      let kept = transaction.commit after in
      if created then keep_session (publish_notification_rows (id ∷ []) kept) else kept
  deliver (after, err failure) = keep_session {A = Unit {0}} (after, err failure)

  unfoldable pub notify_final_failure :
      AutomationRule → AutomationEvent → AutomationExecution → World → World
  notify_final_failure rule event e w = elim rule.run_as_user_id [
    | none ↦ w
    | some user_id ↦ deliver (
        stage_notification
          (record {
            recipient_user_id = user_id;
            type = "automation_failed";
            actor_id = none;
            workspace_id = rule.workspace_id;
            table_id = rule.table_id;
            record_id = event.record_id;
            dedupe_key = join_text "automation-failed:" e.id;
            payload =
                ("automationId", str rule.id)
                ∷ ("executionId", str e.id)
                ∷ ("errorCode", or_null (Option.map str e.error_code))
                ∷ [];
          })
          w)
  ]

  -- The `except` branch: a final failure is told to the user whom the rule runs as.
  unfoldable pub recover :
      AutomationRule
      → AutomationEvent
      → ℕ
      → World
      → AutomationExecution
      → Failure
      → World × AutomationExecution
  recover rule event now w e failure =
      let after = fail_run rule.max_retries now (change_set_ids w e.trace_id) failure e in
      (if is_terminal after.status then notify_final_failure rule event after w else w, after)

  -- What follows the loop over the actions.
  unfoldable pub close_run :
      AutomationRule
      → AutomationEvent
      → ℕ
      → AutomationExecution
      → Ended World
      → World × AutomationExecution
  close_run rule event now e (ended w results none) =
      (w, succeed_run now (change_set_ids w e.trace_id) (record e { action_results = results }))
  close_run rule event now e (ended w results (some failure)) =
      recover rule event now w (record e { action_results = results }) failure

  -- The conditions, and the actions if they hold.
  unfoldable pub run_checked :
      AutomationRule
      → AutomationEvent
      → ℕ
      → World
      → AutomationExecution
      → Result Failure (ℕ × Option String × Option TableRecord)
      → World × AutomationExecution
  run_checked rule event now w e (err failure) = recover rule event now w e failure
  run_checked rule event now w e (ok (user_id, permission, found)) =
      let record_data = context_data found event.after_data in
      let types = field_types rule.table_id (rows w).fields in
      let perform = execute_action services rule e event user_id permission found in
      if has_items rule.conditions && is_empty record_data
      then (
        w,
        skip_run now "condition_record_missing" (some "Conditions require a record context") e,
      )
      else if not (evaluate_conditions python record_data types rule.conditions)
      then (w, skip_run now "conditions_not_met" none e)
      else close_run rule event now e (
          run_actions services.transaction perform 0 rule.actions w
            (existing_results [] e.action_results))

  -- The `try` of `execute_rule_for_event`, on the execution that `start_run` has committed.
  unfoldable pub run_started :
      AutomationRule
      → AutomationEvent
      → ℕ
      → World
      → AutomationExecution
      → World × AutomationExecution
  run_started rule event now w e =
      if ltb max_automation_depth event.depth
      then (w, skip_run now "loop_guard" (some "Automation chain depth exceeded 8") e)
      else if not rule.enabled || not (is_absent rule.deleted_at)
      then (w, skip_run now "automation_disabled" (some "Automation is disabled") e)
      else run_checked rule event now w e (validate_runtime_permission (rows w) rule event)

  -- `execute_rule_for_event` on an execution that it may run.
  unfoldable pub run :
      AutomationRule
      → AutomationEvent
      → ℕ
      → ℕ
      → World
      → AutomationExecution
      → World × AutomationExecution
  run rule event started finished w e = run_started rule event finished w (start_run started e)
