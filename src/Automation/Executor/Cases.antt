-- ===== src/Automation/Executor/Cases.antt =====
-- The ways in which a run of app/services/automation/executor.py can end, as one rule.
use qtable_server.Base.{
  ℕ, String, not, Option, none, some, List, [], ◌&&◌, ◌||◌, Dict, is_empty, ltb, Bool-cases, inl,
  inr,
}
use qtable_server.Base.Result.{Result, ok, err}
use qtable_server.Json.{Json}
use qtable_server.RowPermission.{TableRecord}
use qtable_server.Automation.{AutomationRule, AutomationEvent, AutomationExecution, ActionResult}
use qtable_server.Automation.Normal.{FieldTypes}
use qtable_server.Automation.Evaluate.{evaluate_conditions}
use qtable_server.Automation.Services.{Failure, Services}
use qtable_server.Automation.Actions.{execute_action, context_data}
use qtable_server.Automation.Executor.{
  skip_run, succeed_run, fail_run, recover, close_run, run_checked, run_started, has_items,
  field_types, validate_runtime_permission, max_automation_depth, is_absent,
}
use qtable_server.Automation.ActionLoop.{Ended, ended, existing_results}
use qtable_server.Automation.Executor.Results.{Ascending, existing_results-Ascending}
use qtable_server.Automation.Executor.Repeat.{run_actions-Ascending, results_of}

module _ (services : Services) where
  open services use {World, rows, python}

  module _ {ℓ} (rule : AutomationRule) (event : AutomationEvent) (now : ℕ) (w : World)
      (e : AutomationExecution) (P : AutomationExecution → Type ℓ)
      (skips : (code : String) (message : Option String) → P (skip_run now code message e))
      (succeeds : (results : List ActionResult) (ids : List String)
        → Ascending results
        → P (succeed_run now ids (record e { action_results = results })))
      (fails_early : (ids : List String) (failure : Failure)
        → P (fail_run rule.max_retries now ids failure e))
      (fails : (results : List ActionResult) (ids : List String) (failure : Failure)
        → Ascending results
        → P (
            fail_run rule.max_retries now ids failure
              (record e { action_results = results }))) where
    close_run-cases :
        (end : Ended World)
        → Ascending (results_of end)
        → P (close_run services rule event now e end).1
    unfolding close_run recover
    close_run-cases (ended v results none) a = succeeds results _ a
    close_run-cases (ended v results (some failure)) a = fails results _ failure a

    run_checked-cases :
        (allowed : Result Failure (ℕ × Option String × Option TableRecord))
        → P (run_checked services rule event now w e allowed).1
    unfolding run_checked recover
    run_checked-cases (err failure) = fails_early _ failure
    run_checked-cases (ok (user_id, permission, found)) =
        let record_data : Dict Json = context_data found event.after_data in
        let types : FieldTypes = field_types rule.table_id (rows w).fields in
        elim (Bool-cases (has_items rule.conditions && is_empty record_data)) [
          | inl missing ↦ rw missing (skips _ _)
          | inr present ↦
              rw present
                (elim (Bool-cases
                  (not (evaluate_conditions python record_data types rule.conditions))) [
                    | inl unmet ↦ rw unmet (skips _ _)
                    | inr met ↦ rw met (
                        close_run-cases _ (
                          run_actions-Ascending services.transaction
                            (execute_action services rule e event user_id permission found)
                            rule.actions w (existing_results [] e.action_results)
                            (existing_results-Ascending [] e.action_results tt)))
                  ])
        ]

    pub run_started-cases : P (run_started services rule event now w e).1
    unfolding run_started
    run_started-cases = elim (Bool-cases (ltb max_automation_depth event.depth)) [
      | inl deep ↦ rw deep (skips _ _)
      | inr shallow ↦
          rw shallow (elim (Bool-cases (not rule.enabled || not (is_absent rule.deleted_at))) [
            | inl off ↦ rw off (skips _ _)
            | inr on ↦ rw on (run_checked-cases (validate_runtime_permission (rows w) rule event))
          ])
    ]
