-- ===== src/Automation/Rules.antt =====
-- app/services/automation/repository.py: the rules that users keep. Which items are tables, and the
-- fields of a table, are arguments; a new id (`uuid4`) and the time are too.
pub mod Identity
pub mod Bounded
use Prim.Native.String.{◌++◌ as join_text}
use qtable_server.Base.{
  ℕ, zero, suc, ◌+◌, ◌*◌, String, Bool, true, false, not, Option, none, some, List, [], ◌∷◌, ◌++◌,
  ◌&&◌, ◌||◌, ◌==◌, string_eq, nat_eq, ltb, leb, if◌then◌else◌, Dict, find, filter, contains, map,
}
use qtable_server.Base.Int.{ℤ, pos}
use qtable_server.Base.Result.{Result, ok, err, ◌>>=◌, ◌>>◌, guard}
use qtable_server.Json.{Json, null, int, str, arr, obj, Items, list_items, dict_members}
use qtable_server.Json
use qtable_server.Text.{strip, char_count}
use qtable_server.Permission.{
  WorkspaceDb, find_item, permission_allows, get_effective_permission_for_item,
}
use qtable_server.Automation.{
  Trigger, record_created, record_updated, scheduled, due_date, manual, trigger_type, Condition,
  Conditions, group, test, nil, cons, Action, update_record, create_record, notify, action_type,
  AutomationRule,
}
use qtable_server.Automation.Normal.{Python, FieldTypes, AutomationValidationError}
use qtable_server.Automation.Definition.{
  AutomationDefinition, Draft, validate_automation_definition,
}
use qtable_server.Automation.Scheduler.{write_rule}
use qtable_server.Automation.Stored.{
  action_json, condition_items, condition_json, entry, listed, number, numbers_entry, object,
  op_text, text_entry, texts, trigger_dict, value_entry,
}

pub data RuleError : Type 0 where
  table_not_found automation_not_found no_access name_required name_too_long : RuleError
  invalid : AutomationValidationError → RuleError

abbrev pub or_invalid : {A : Type 0} → Result AutomationValidationError A → Result RuleError A
or_invalid (ok a) = ok a
or_invalid (err e) = err (invalid e)

-- `_schedule_from_trigger`
unfoldable pub schedule_from_trigger : ℕ → Trigger → Bool → Option ℕ
schedule_from_trigger now trigger false = none
schedule_from_trigger now (scheduled interval) true =
    some (now + 60 * (if interval == 0 then 1 else interval))
schedule_from_trigger now (due_date field_id offset scan_interval) true = some now
schedule_from_trigger now _ true = none

unfoldable pub require_permission : WorkspaceDb → ℕ → String → String → Result RuleError (Unit {0})
require_permission db user_id table_id required =
    guard (permission_allows (get_effective_permission_for_item db user_id table_id) required)
      no_access

abbrev pub is_live : String → AutomationRule → Bool
is_live automation_id rule =
    rule.id == automation_id && elim rule.deleted_at [ none ↦ true | some n ↦ false ]

abbrev pub or_missing : Option AutomationRule → Result RuleError AutomationRule
or_missing none = err automation_not_found
or_missing (some rule) = ok rule

unfoldable pub get_automation :
    WorkspaceDb → List AutomationRule → ℕ → String → String → Result RuleError AutomationRule
get_automation db rules user_id automation_id required =
    or_missing (find (is_live automation_id) rules) >>= λ rule.
    require_permission db user_id rule.table_id required >> ok rule

unfoldable pub checked_name : String → Result RuleError String
checked_name name =
    let normalized_name = strip name in
    if normalized_name == ""
    then err name_required
    else if ltb 191 (char_count normalized_name)
    then err name_too_long
    else ok normalized_name

abbrev stripped : Option String → Option String
stripped none = none
stripped (some s) = some (strip s)

-- What the arguments that are not rules come from.
pub record Surroundings : Type 1 where
  pub workspace : WorkspaceDb
  pub is_table_item : String → Bool
  pub fields : String → FieldTypes
  pub python : Python
  pub is_known_zone : String → Bool
  pub now : ℕ

-- The workspace of a table, by `_table_item`.
unfoldable pub table_workspace : WorkspaceDb → (String → Bool) → String → Result RuleError String
table_workspace db is_table_item table_id = elim (find_item db table_id) [
  | none ↦ err table_not_found
  | some item ↦ if is_table_item table_id then ok item.workspace_id else err table_not_found
]

unfoldable pub new_rule :
    ℕ
    → String
    → ℕ
    → String
    → String
    → String
    → Option String
    → Bool
    → AutomationDefinition
    → AutomationRule
new_rule now id user_id workspace_id table_id name description enabled definition = record {
  id = id;
  workspace_id = workspace_id;
  table_id = table_id;
  name = name;
  description = stripped description;
  enabled = enabled;
  trigger = definition.trigger;
  conditions = definition.conditions;
  actions = definition.actions;
  timezone = definition.timezone;
  max_retries = definition.max_retries;
  version = 1;
  run_as_user_id = some user_id;
  next_run_at = schedule_from_trigger now definition.trigger enabled;
  created_by_user_id = some user_id;
  updated_by_user_id = some user_id;
  created_at = now;
  updated_at = now;
  deleted_at = none;
}

-- The arguments of `update_automation`; `none` leaves a part as it is.
pub record Edit : Type 0 where
  pub name : Option String
  pub description : Option String
  pub trigger : Option Json
  pub conditions : Option Json
  pub actions : Option Json
  pub timezone : Option String
  pub max_retries : Option Json

abbrev is_some : {A : Type 0} → Option A → Bool
is_some none = false
is_some (some a) = true

abbrev or_stored : {A : Type 0} → A → Option A → A
or_stored stored none = stored
or_stored stored (some given) = given

unfoldable pub is_semantic_change : Edit → Bool
is_semantic_change edit =
    is_some edit.trigger
    || is_some edit.conditions
    || is_some edit.actions
    || is_some edit.timezone
    || is_some edit.max_retries

-- The definition that is checked again: what is given, else what is stored.
unfoldable pub merged_draft : AutomationRule → Edit → Draft
merged_draft rule edit = record {
  trigger = or_stored (object (trigger_dict rule.trigger)) edit.trigger;
  conditions = or_stored (condition_json rule.conditions) edit.conditions;
  actions = or_stored (arr (list_items (map action_json rule.actions))) edit.actions;
  timezone = or_stored rule.timezone edit.timezone;
  max_retries = or_stored (number rule.max_retries) edit.max_retries;
}

abbrev pub renamed : AutomationRule → Option String → Result RuleError AutomationRule
renamed rule none = ok rule
renamed rule (some name) = checked_name name >>= λ n. ok (record rule { name = n })

abbrev pub described : AutomationRule → Option String → AutomationRule
described rule none = rule
described rule (some s) = record rule {
  description = if strip s == "" then none else some (strip s);
}

-- A definition that replaces the old one: a new version, which runs as the user who made it.
unfoldable pub redefine : ℕ → ℕ → AutomationRule → AutomationDefinition → AutomationRule
redefine now user_id rule definition = record rule {
  trigger = definition.trigger;
  conditions = definition.conditions;
  actions = definition.actions;
  timezone = definition.timezone;
  max_retries = definition.max_retries;
  version = suc rule.version;
  run_as_user_id = some user_id;
  next_run_at = schedule_from_trigger now definition.trigger rule.enabled;
}

abbrev pub or_user : ℕ → Option ℕ → Option ℕ
or_user user_id none = some user_id
or_user user_id (some owner) = some owner

module _ (around : Surroundings) where
  open around use {workspace, is_table_item, fields, python, is_known_zone, now}

  abbrev pub touched : ℕ → AutomationRule → AutomationRule
  touched user_id rule = record rule { updated_by_user_id = some user_id; updated_at = now }

  unfoldable pub create_automation :
      List AutomationRule
      → String
      → ℕ
      → String
      → String
      → Draft
      → Option String
      → Bool
      → Result RuleError (List AutomationRule × AutomationRule)
  create_automation rules id user_id table_id name draft description enabled =
      table_workspace workspace is_table_item table_id >>= λ workspace_id.
      require_permission workspace user_id table_id "edit"
      >> (checked_name name >>= λ normalized_name.
          or_invalid (validate_automation_definition python is_known_zone (fields table_id) draft)
          >>= λ definition.
              let rule =
                new_rule now id user_id workspace_id table_id normalized_name description enabled
                  definition in
              ok (rules ++ rule ∷ [], rule))

  unfoldable pub redefined : ℕ → AutomationRule → Edit → Bool → Result RuleError AutomationRule
  redefined user_id rule edit false = ok rule
  redefined user_id rule edit true =
      or_invalid (
        validate_automation_definition python is_known_zone (fields rule.table_id)
          (merged_draft rule edit))
      >>= λ definition. ok (redefine now user_id rule definition)

  unfoldable pub update_automation :
      List AutomationRule
      → ℕ
      → String
      → Edit
      → Result RuleError (List AutomationRule × AutomationRule)
  update_automation rules user_id automation_id edit =
      get_automation workspace rules user_id automation_id "edit" >>= λ rule.
      renamed rule edit.name >>= λ named.
      redefined user_id (described named edit.description) edit (is_semantic_change edit)
      >>= λ changed. ok (write_rule (touched user_id changed) rules, touched user_id changed)

  unfoldable pub set_automation_enabled :
      List AutomationRule
      → ℕ
      → String
      → Bool
      → Result RuleError (List AutomationRule × AutomationRule)
  set_automation_enabled rules user_id automation_id enabled =
      get_automation workspace rules user_id automation_id "edit" >>= λ rule.
      let changed = touched user_id (record rule {
        enabled = enabled;
        run_as_user_id =
            if enabled then or_user user_id rule.run_as_user_id else rule.run_as_user_id;
        next_run_at = schedule_from_trigger now rule.trigger enabled;
      }) in
      ok (write_rule changed rules, changed)

  unfoldable pub delete_automation :
      List AutomationRule → ℕ → String → Result RuleError (List AutomationRule)
  delete_automation rules user_id automation_id =
      get_automation workspace rules user_id automation_id "edit" >>= λ rule. ok (
        write_rule
          (touched user_id
            (record rule { enabled = false; next_run_at = none; deleted_at = some now }))
          rules)

  -- `list_automations`, without the order and the serialization.
  unfoldable pub list_automations :
      List AutomationRule → ℕ → (AutomationRule → Bool) → List AutomationRule
  list_automations rules user_id selected =
      filter
        (λ rule.
          permission_allows (get_effective_permission_for_item workspace user_id rule.table_id)
            "read")
        (filter (λ rule. selected rule && elim rule.deleted_at [ none ↦ true | some n ↦ false ])
          rules)
