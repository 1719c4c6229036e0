-- ===== src/Automation/Scheduler.antt =====
-- app/services/automation/scheduler.py: the rules whose time has come, and the events that they
-- queue. Reading a due date, writing a time as text and hashing are arguments.
pub mod Advance
use Prim.Native.String.{◌++◌ as join_text}
use qtable_server.Base.{
  ℕ, zero, suc, ◌+◌, ◌*◌, String, Bool, true, false, not, Option, none, some, List, [], ◌∷◌, ◌++◌,
  ◌&&◌, ◌||◌, map, ◌==◌, string_eq, nat_eq, ltb, leb, if◌then◌else◌, Dict, filter, take, sort_by,
  min, max,
}
use qtable_server.Json.{Json, get}
use qtable_server.Text.{str_nat, take_chars}
use qtable_server.Permission.{permission_allows, get_effective_permission_for_item}
use qtable_server.RowPermission.{
  RowDb, TableRecord, Policy, get_row_permission_policy, row_is_visible,
}
use qtable_server.Automation.{
  Trigger, scheduled, due_date, trigger_type, required_permission_for_actions, AutomationRule,
  Queue,
}
use qtable_server.Automation.Services.{text_le}
use qtable_server.Automation.Events.{Synthetic, queue_synthetic_automation_event}

-- `_due_value_utc` of a value and a time zone, `isoformat`, and the hexadecimal SHA-256 of a text.
pub record Calendar : Type 0 where
  pub due_value_utc : Json → String → Option ℕ
  pub isoformat : ℕ → String
  pub sha256 : String → String

abbrev joined_parts : List String → String
joined_parts [] = ""
joined_parts (part ∷ []) = part
joined_parts (part ∷ parts) = join_text part (join_text "|" (joined_parts parts))

-- The minutes until a rule is looked at again.
unfoldable pub run_interval : Trigger → ℕ
run_interval (scheduled interval) = max 1 (if interval == 0 then 1 else interval)
run_interval (due_date field_id offset scan_interval) =
    max 1 (if scan_interval == 0 then 5 else scan_interval)
run_interval _ = 60

-- `_advance_next_run`
unfoldable pub advance_next_run : AutomationRule → ℕ → ℕ
advance_next_run rule now = now + 60 * run_interval rule.trigger

-- `_runtime_permission`; `none` where the rule may not run.
unfoldable pub runtime_permission : RowDb → AutomationRule → ℕ → Option (Option String)
runtime_permission db rule user_id =
    let permission = get_effective_permission_for_item db.workspace user_id rule.table_id in
    if permission_allows permission (required_permission_for_actions rule.actions)
    then some permission
    else none

unfoldable pub write_rule : AutomationRule → List AutomationRule → List AutomationRule
write_rule rule [] = []
write_rule rule (r ∷ rules) = (if r.id == rule.id then rule else r) ∷ write_rule rule rules

-- The time of a record that is due: from the offset before it up to it.
unfoldable pub due_now : ℕ → ℕ → ℕ → Bool
due_now now offset_minutes due = leb due (now + 60 * offset_minutes) && leb now due

abbrev pub is_due_at : ℕ → Option ℕ → Bool
is_due_at now none = false
is_due_at now (some next_run_at) = leb next_run_at now

abbrev is_absent : Option ℕ → Bool
is_absent none = true
is_absent (some n) = false

unfoldable pub is_due_rule : ℕ → AutomationRule → Bool
is_due_rule now rule = rule.enabled && is_absent rule.deleted_at && is_due_at now rule.next_run_at

abbrev time_of : Option ℕ → ℕ
time_of none = 0
time_of (some n) = n

abbrev pub runs_before : AutomationRule → AutomationRule → Bool
runs_before a b =
    let s = time_of a.next_run_at in
    let t = time_of b.next_run_at in ltb s t || (s == t && text_le a.id b.id)

unfoldable pub due_rules : ℕ → ℕ → List AutomationRule → List AutomationRule
due_rules now limit rules =
    take (max 1 (min 500 limit)) (sort_by runs_before (filter (is_due_rule now) rules))

abbrev pub rescheduled : AutomationRule → ℕ → AutomationRule
rescheduled rule now = record rule {
  next_run_at = some (advance_next_run rule now);
  updated_at = now;
}

module _ (calendar : Calendar) where
  open calendar use {due_value_utc, isoformat, sha256}

  -- `_event_id`
  unfoldable pub scheduled_event_id : List String → String
  scheduled_event_id parts = join_text "evt_sched_" (take_chars 96 (sha256 (joined_parts parts)))

  abbrev pub scheduled_call : AutomationRule → ℕ → Synthetic
  scheduled_call rule scheduled_for = record {
    event_id =
        scheduled_event_id
          ("scheduled" ∷ rule.id ∷ str_nat rule.version ∷ isoformat scheduled_for ∷ []);
    workspace_id = rule.workspace_id;
    table_id = rule.table_id;
    target_automation_id = rule.id;
    event_type = "scheduled";
    record_id = none;
    after_data = none;
    actor_user_id = none;
    source = "automation_scheduler";
  }

  unfoldable pub queue_scheduled_rule : ℕ → AutomationRule → ℕ → Queue → Queue × ℕ
  queue_scheduled_rule clock rule scheduled_for queue =
      ((queue_synthetic_automation_event clock (scheduled_call rule scheduled_for) queue).0, 1)

  abbrev pub due_call : AutomationRule → String → ℕ → TableRecord → ℕ → Synthetic
  due_call rule field_id offset r due = record {
    event_id = scheduled_event_id (
        "due_date"
        ∷ rule.id
        ∷ str_nat rule.version
        ∷ r.id
        ∷ field_id
        ∷ isoformat due
        ∷ str_nat offset
        ∷ []);
    workspace_id = rule.workspace_id;
    table_id = rule.table_id;
    target_automation_id = rule.id;
    event_type = "due_date";
    record_id = some r.id;
    after_data = some r.row_data;
    actor_user_id = none;
    source = "automation_scheduler";
  }

  -- The due time of a record that the rule's user may see, if it is due now.
  unfoldable pub due_time :
      AutomationRule → String → ℕ → Policy → ℕ → Option String → ℕ → TableRecord → Option ℕ
  due_time rule field_id offset policy user_id permission now r =
      if row_is_visible policy user_id permission r
      then elim (due_value_utc (get field_id r.row_data) rule.timezone) [
        | none ↦ none
        | some due ↦ if due_now now offset due then some due else none
      ]
      else none

  -- One round of the loop over the table's records, with the record's due time if it is due.
  unfoldable pub queue_due_record :
      ℕ → AutomationRule → String → ℕ → TableRecord → Option ℕ → Queue → ℕ → Queue × ℕ
  queue_due_record clock rule field_id offset r none queue count = (queue, count)
  queue_due_record clock rule field_id offset r (some due) queue count = (
    (queue_synthetic_automation_event clock (due_call rule field_id offset r due) queue).0,
    suc count,
  )

  unfoldable pub queue_due_records :
      ℕ
      → AutomationRule
      → String
      → ℕ
      → (TableRecord → Option ℕ)
      → List TableRecord
      → Queue
      → ℕ
      → Queue × ℕ
  queue_due_records clock rule field_id offset due_at [] queue count = (queue, count)
  queue_due_records clock rule field_id offset due_at (r ∷ rs) queue count =
      let (next, n) = queue_due_record clock rule field_id offset r (due_at r) queue count in
      queue_due_records clock rule field_id offset due_at rs next n

  unfoldable pub queue_due_rule : RowDb → ℕ → AutomationRule → String → ℕ → ℕ → Queue → Queue × ℕ
  queue_due_rule db clock rule field_id offset now queue =
      if field_id == "" then (queue, 0) else elim rule.run_as_user_id [
        | none ↦ (queue, 0)
        | some user_id ↦ elim (runtime_permission db rule user_id) [
          | none ↦ (queue, 0)
          | some permission ↦
              queue_due_records clock rule field_id offset
                (due_time rule field_id offset (get_row_permission_policy db rule.table_id) user_id
                  permission now)
                (filter (λ r. r.table_id == rule.table_id) db.records) queue 0
        ]
      ]

  unfoldable pub queue_by_trigger : RowDb → ℕ → AutomationRule → ℕ → Trigger → Queue → Queue × ℕ × ℕ
  queue_by_trigger db clock rule now (scheduled interval) queue =
      let (next, n) = queue_scheduled_rule clock rule (time_of rule.next_run_at) queue in
      (next, n, 0)
  queue_by_trigger db clock rule now (due_date field_id offset scan_interval) queue =
      let (next, n) = queue_due_rule db clock rule field_id offset now queue in (next, 0, n)
  queue_by_trigger db clock rule now _ queue = (queue, 0, 0)

  -- The loop over the rules that are due.
  unfoldable pub scan_rules : RowDb → ℕ → ℕ → List AutomationRule → Queue → ℕ → ℕ → Queue × ℕ × ℕ
  scan_rules db clock now [] queue scheduled_events due_events =
      (queue, scheduled_events, due_events)
  scan_rules db clock now (rule ∷ rules) queue scheduled_events due_events =
      let (next, s, d) = queue_by_trigger db clock rule now rule.trigger queue in
      scan_rules db clock now rules
        (record next { rules = write_rule (rescheduled rule now) next.rules })
        (scheduled_events + s) (due_events + d)

  -- `scan_due_automations`: the clock that stamps the events, the time of the scan, and the limit.
  unfoldable pub scan_due_automations : RowDb → ℕ → ℕ → ℕ → Queue → Queue × ℕ × ℕ
  scan_due_automations db clock now limit queue =
      scan_rules db clock now (due_rules now limit queue.rules) queue 0 0
