-- ===== src/Automation/Tests.antt =====
-- The automation theorems at a small workspace: one table, one rule and one event.
mod Worker
mod Kept
use qtable_server.Base.{
  find, ℕ, zero, suc, ◌+◌, ◌*◌, ◌≤◌, ◌<◌, min, String, true, false, Option, none, some, List, [],
  ◌∷◌, ◌≡◌, ◌≢◌, refl, ◌&&◌, ◌==◌, string_eq, nat_eq, ltb, Dict, arith,
}
use qtable_server.Base.Int.{ℤ, negsuc}
use qtable_server.Base.Result.{Result, ok, err}
use qtable_server.Json.{Json, null, int, str, arr, obj, dict_members, list_items, truthy, get}
use qtable_server.Text.{strip, lstrip, rstrip, is_space, take_chars, char_count, lower_eq}
use qtable_server.Permission.{
  editor, permission_allows, permission_order, get_effective_permission_for_item, find_item,
  get_workspace_member, permission_chain, effective_over, first_override, chain_overrides,
  override_map, role_permission, WorkspaceDb,
}
use qtable_server.RowPermission.{
  RowDb, TableRecord, text_of, get_row_permission_policy, policy_dict, record_is_visible,
  row_is_visible,
}
use qtable_server.RowPermission.Access.{require_record_access, grant}
use qtable_server.Automation.{
  Condition, group, nil, Action, update_record, create_record, manual, AutomationRule, EventStatus,
  AutomationEvent, ExecutionStatus, ActionResult, done, AutomationExecution,
}
use qtable_server.Automation.Normal.{
  Python, normalize_conditions, normalize_object, is_blank, items_or_empty, to_int,
}
use qtable_server.Automation.Services.{value_error, Failure, value_error, Services}
use qtable_server.Automation.Actions.{execute_action, update_one}
use qtable_server.Automation.Executor.{is_terminal, retry_delay, run_started}
use qtable_server.Automation.ActionLoop.{run_actions, is_done_at}
use qtable_server.Automation.Executor.Repeat.{run_actions-only_pending}
use qtable_server.Automation.Executor.Retries.{run_rounds, run_rounds-terminal, retry_delay_bounds}
use qtable_server.Automation.Executor.Effects.{execute_action-visible, run_started-unauthorized}

abbrev python : Python
python = record {
  Value = ℕ;
  number = λ v. none;
  date = λ v. none;
  raw = λ v. none;
  less = ltb;
  same = λ a b. a == b;
  equal = λ a b. true;
  normal_number = λ v. none;
}

abbrev a_row : TableRecord
a_row = record { table_id = "t1"; id = "r1"; created_by_user_id = some 7; row_data = [] }

-- User 7 may edit the table t1, which has one row.
abbrev db : RowDb
db = record {
  workspace = record {
    items = record { id = "t1"; workspace_id = "w"; parent_id = none } ∷ [];
    members = record { user_id = 7; workspace_id = "w"; role = editor } ∷ [];
    permissions = [];
  };
  policies = record { table_id = "t1"; mode = "creator"; member_field_id = none } ∷ [];
  fields = [];
  records = a_row ∷ [];
}

-- Services that count the writes.
abbrev services : Services
services = record {
  World = ℕ;
  rows = λ w. db;
  apply_record_patches = λ table_id record_id fields user_id trace_id w. (suc w, ok tt);
  create_records_with_data = λ table_id fields user_id trace_id w. (suc w, ok ("r2" ∷ []));
  stage_notification = λ notification w. (suc w, ok ("n1", true));
  publish_notification_rows = λ ids w. (w, ok tt);
  transaction = record { commit = λ w. w; rollback = λ w. w };
  change_set_ids = λ w trace_id. [];
  python = python;
}

abbrev a_rule : AutomationRule
a_rule = record {
  id = "a1";
  workspace_id = "w";
  table_id = "t1";
  name = "rule";
  description = none;
  enabled = true;
  trigger = manual;
  conditions = group true nil;
  actions = update_record [] ∷ [];
  timezone = "UTC";
  max_retries = 1;
  version = 1;
  run_as_user_id = none;
  next_run_at = some 50;
  created_by_user_id = some 7;
  updated_by_user_id = some 7;
  created_at = 0;
  updated_at = 0;
  deleted_at = none;
}

abbrev an_event : AutomationEvent
an_event = record {
  id = "v1";
  workspace_id = "w";
  table_id = "t1";
  record_id = some "r1";
  source_change_item_id = none;
  target_automation_id = none;
  type = "manual";
  before_data = none;
  after_data = none;
  changed_fields = [];
  actor_user_id = none;
  source = none;
  trace_id = none;
  root_event_id = "v1";
  parent_execution_id = none;
  depth = 0;
  status = EventStatus.queued;
  available_at = 10;
  error_code = none;
  created_at = 10;
  processed_at = none;
}

abbrev an_execution : AutomationExecution
an_execution = record {
  id = "e1";
  automation_id = "a1";
  automation_version = 1;
  trigger_event_id = "v1";
  root_event_id = "v1";
  parent_execution_id = none;
  record_id = some "r1";
  depth = 0;
  status = ExecutionStatus.queued;
  trace_id = "tr";
  attempt = 0;
  action_results = [];
  change_set_ids = [];
  error_code = none;
  error_message = none;
  next_retry_at = none;
  started_at = none;
  finished_at = none;
  created_at = 15;
  updated_at = 10;
}

abbrev done_before : List ActionResult
done_before = record { index = 0; type = "update_record"; outcome = done [] } ∷ []

abbrev always : ℕ → Action → ℕ → ℕ × Result Failure (Dict Json)
always index action w = (suc w, ok [])

-- As `always`, but for the first action, which would fail.
abbrev not_first : ℕ → Action → ℕ → ℕ × Result Failure (Dict Json)
not_first zero action w = (w, err (value_error "again"))
not_first (suc index) action w = (suc w, ok [])

same_if_pending :
    (i : ℕ)
    → is_done_at i done_before ≡ false
    → (action : Action) (w : ℕ) → always i action w ≡ not_first i action w
unfolding is_done_at
same_if_pending zero h action w = absurd (cc)
same_if_pending (suc i) h action w = refl

run_actions-only_pending_example :
    run_actions services.transaction always 0
      (update_record [] ∷ create_record [] ∷ [])
      5
      done_before
    ≡ run_actions services.transaction not_first 0
        (update_record [] ∷ create_record [] ∷ [])
        5
        done_before
run_actions-only_pending_example =
    run_actions-only_pending services.transaction always not_first
      (update_record [] ∷ create_record [] ∷ []) 5 done_before same_if_pending

run_rounds-terminal_example :
    is_terminal
      (run_rounds services a_rule an_event
        (record { started = 20; finished = 21; meanwhile = λ w. w }
          ∷ record { started = 30; finished = 31; meanwhile = λ w. suc w }
          ∷ [])
        5
        an_execution).1.status
    ≡ true
run_rounds-terminal_example =
    run_rounds-terminal services a_rule an_event
      (record { started = 20; finished = 21; meanwhile = λ w. w })
      (record { started = 30; finished = 31; meanwhile = λ w. suc w } ∷ []) 5 an_execution refl
      (omega arith)

retry_delay_bounds_example :
    (5 ≤ retry_delay 3)
    × (retry_delay 3 ≤ 300)
    × (retry_delay 3 ≤ retry_delay 4)
    × (retry_delay 5 ≡ min 300 (2 * retry_delay 4))
retry_delay_bounds_example = retry_delay_bounds 3

update_changes :
    (execute_action services a_rule an_execution an_event 7
      (some "edit")
      (some a_row)
      0
      (update_record [])
      5).0
    ≢ 5
unfolding execute_action update_one require_record_access grant record_is_visible permission_allows
    permission_order get_row_permission_policy policy_dict
update_changes h = absurd (omega arith)

execute_action-visible_example :
    (id : String) × (row : TableRecord) × (◌≡◌ {A = Option String} (some "r1") (some id))
    × (find (λ r. r.table_id == "t1" && r.id == id) db.records ≡ some row)
    × (row_is_visible (get_row_permission_policy db "t1") 7 (some "edit") row ≡ true)
execute_action-visible_example =
    execute_action-visible services a_rule an_execution an_event 7 (some "edit") (some a_row) 0 [] 5
      update_changes

run_started-unauthorized_example :
    ((run_started services a_rule an_event 21 5 an_execution).1.action_results ≡ [])
    × (0 ≤ 1 → (run_started services a_rule an_event 21 5 an_execution).0 ≡ 5)
run_started-unauthorized_example =
    run_started-unauthorized services a_rule an_event 21 5 an_execution (λ user_id h. absurd (cc))
