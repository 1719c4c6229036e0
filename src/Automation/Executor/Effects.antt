-- ===== src/Automation/Executor/Effects.antt =====
-- What a run of app/services/automation/executor.py may do to the rest of the program.
use qtable_server.Base.{
  ℕ, ◌≤◌, String, true, false, not, Option, none, some, ◌≡◌, ◌≢◌, refl, ◌||◌, ◌&&◌, ◌==◌, nat_eq,
  string_eq, leb, ltb, find, Dict, arith, Bool-cases, Option-cases, inl, inr,
}
use qtable_server.Base.Result.{err, Result-cases}
use qtable_server.Json.{Json}
use qtable_server.Permission.{permission_allows, get_effective_permission_for_item}
use qtable_server.RowPermission.{RowDb, TableRecord, get_row_permission_policy, row_is_visible}
use qtable_server.RowPermission.Access.{AccessError, require_record_access}
use qtable_server.RowPermission.Visible.{require_record_access-visible}
use qtable_server.Automation.{
  required_permission_for_actions, AutomationRule, AutomationEvent, AutomationExecution,
  update_record,
}
use qtable_server.Automation.Services.{Failure, Services}
use qtable_server.Automation.Actions.{execute_action, update_one}
use qtable_server.Automation.Executor.{
  run_started, run_checked, recover, fail_run, skip_run, validate_runtime_permission, permitted,
  max_automation_depth, is_absent,
}

module _ (services : Services) where
  open services use {World, rows}

  update_one-refused :
      (rule : AutomationRule) (e : AutomationExecution) (record_id : String) (fields : Dict Json)
      (user_id : ℕ) (permission : Option String) (w : World) (a : AccessError)
      → require_record_access (rows w) rule.table_id record_id user_id permission ≡ err a
      → (update_one services rule e record_id fields user_id permission w).0 ≡ w
  unfolding update_one
  update_one-refused rule e record_id fields user_id permission w a refused =
      rw (refused, update_one)

  -- An action that updates a record changes nothing unless the event's record is stored in the rule's
  -- table, and the row that is stored then, after all that earlier actions have changed, is one that
  -- the rule's user may see under the table's policy.
  pub execute_action-visible :
      (rule : AutomationRule) (e : AutomationExecution) (event : AutomationEvent) (user_id : ℕ)
      (permission : Option String) (found : Option TableRecord) (index : ℕ) (fields : Dict Json)
      (w : World)
      → (execute_action services rule e event user_id permission found index
          (update_record fields)
          w).0
        ≢ w
      → (id : String) × (row : TableRecord) × (event.record_id ≡ some id)
        × (find (λ r. r.table_id == rule.table_id && r.id == id) (rows w).records ≡ some row)
        × (row_is_visible (get_row_permission_policy (rows w) rule.table_id) user_id permission row
            ≡ true)
  unfolding execute_action
  execute_action-visible rule e event user_id permission none index fields w changed =
      absurd (changed refl)
  execute_action-visible rule e event user_id permission (some row) index fields w changed =
      elim (Option-cases event.record_id) [
        | inl absent ↦ absurd (changed (rw absent))
        | inr (id, present) ↦
            elim (Result-cases
              (require_record_access (rows w) rule.table_id id user_id permission)) [
                | inl (a, refused) ↦ absurd (
                    changed (
                      rw present
                        (update_one-refused rule e id fields user_id permission w a refused)))
                | inr (r, granted) ↦
                    let (stored, table, key, seen) =
                      require_record_access-visible (rows w) rule.table_id id user_id permission r
                        granted in
                    (id, r, present, stored, seen)
              ]
      ]

  -- A run that changes anything is one of an enabled rule that is not deleted, for an event that is at
  -- most eight writes of automations away from a user's own.
  pub run_started-guards :
      (rule : AutomationRule) (event : AutomationEvent) (now : ℕ) (w : World)
      (e : AutomationExecution)
      → (run_started services rule event now w e).0 ≢ w
      → (event.depth ≤ 8) × (rule.enabled ≡ true) × (rule.deleted_at ≡ none)
  unfolding run_started
  run_started-guards rule event now w e changed =
      elim (Bool-cases (ltb max_automation_depth event.depth)) [
        | inl deep ↦ absurd (changed (rw deep))
        | inr shallow ↦ elim (Bool-cases (not rule.enabled || not (is_absent rule.deleted_at))) [
          | inl off ↦ absurd (changed (rw (shallow, off)))
          | inr on ↦ (ground arith, ground arith, ground arith)
        ]
      ]

  denied :
      (db : RowDb) (rule : AutomationRule) (event : AutomationEvent)
      → ((user_id : ℕ)
          → rule.run_as_user_id ≡ some user_id
          → permission_allows
              (get_effective_permission_for_item db.workspace user_id rule.table_id)
              (required_permission_for_actions rule.actions)
            ≡ false)
      → (failure : Failure) × (validate_runtime_permission db rule event ≡ err failure)
  unfolding validate_runtime_permission permitted
  denied db rule event lacking = elim (Result-cases (validate_runtime_permission db rule event)) [
    | inl refused ↦ refused
    | inr (allowed, fine) ↦ elim (Option-cases rule.run_as_user_id) [
      | inl gone ↦ absurd (cc (rw gone at fine))
      | inr (user_id, there) ↦ absurd (cc (rw (there, lacking user_id there) at fine))
    ]
  ]

  recover_again :
      (rule : AutomationRule) (event : AutomationEvent) (now : ℕ) (w : World)
      (e : AutomationExecution) (failure : Failure)
      → e.attempt ≤ rule.max_retries
      → (recover services rule event now w e failure).0 ≡ w
  unfolding recover fail_run
  recover_again rule event now w e failure h =
      let again : leb e.attempt rule.max_retries ≡ true = ground arith in rw again

  recover_keeps :
      (rule : AutomationRule) (event : AutomationEvent) (now : ℕ) (w : World)
      (e : AutomationExecution) (failure : Failure)
      → (recover services rule event now w e failure).1.action_results ≡ e.action_results
  unfolding recover fail_run
  recover_keeps rule event now w e failure = elim (Bool-cases (leb e.attempt rule.max_retries)) [
    | inl again ↦ rw again
    | inr last ↦ rw last
  ]

  -- A rule whose user is gone, or has lost the permission that its actions need, performs no action:
  -- the results are as before, and while retries are left nothing else changes either.
  pub run_started-unauthorized :
      (rule : AutomationRule) (event : AutomationEvent) (now : ℕ) (w : World)
      (e : AutomationExecution)
      → ((user_id : ℕ)
          → rule.run_as_user_id ≡ some user_id
          → permission_allows
              (get_effective_permission_for_item (rows w).workspace user_id rule.table_id)
              (required_permission_for_actions rule.actions)
            ≡ false)
      → ((run_started services rule event now w e).1.action_results ≡ e.action_results)
        × (e.attempt ≤ rule.max_retries → (run_started services rule event now w e).0 ≡ w)
  unfolding run_started run_checked skip_run
  run_started-unauthorized rule event now w e lacking =
      let (failure, refused) = denied (rows w) rule event lacking in
      elim (Bool-cases (ltb max_automation_depth event.depth)) [
        | inl deep ↦ (rw deep, λ h. rw deep)
        | inr shallow ↦ elim (Bool-cases (not rule.enabled || not (is_absent rule.deleted_at))) [
          | inl off ↦ (rw (shallow, off), λ h. rw (shallow, off))
          | inr on ↦ (
            rw (shallow, on, refused) (recover_keeps rule event now w e failure),
            λ h. rw (shallow, on, refused) (recover_again rule event now w e failure h),
          )
        ]
      ]
