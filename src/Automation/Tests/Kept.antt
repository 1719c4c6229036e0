-- ===== src/Automation/Tests/Kept.antt =====
-- The theorems about definitions and kept rules at the workspace of the other tests.
use qtable_server.Base.{true, false, none, some, [], ◌∷◌, ◌≡◌, refl, string_eq, All, find, arith}
use qtable_server.Base.Int.{pos}
use qtable_server.Base.Result.{ok}
use qtable_server.Json.{null, int, str, arr, obj, list_items, dict_members, truthy}
use qtable_server.Text.{strip, lstrip, rstrip, is_space, char_count}
use qtable_server.Permission.{
  permission_allows, permission_order, get_effective_permission_for_item, find_item,
  get_workspace_member, permission_chain, effective_over, first_override, chain_overrides,
  override_map, role_permission,
}
use qtable_server.RowPermission.{text_of}
use qtable_server.Automation.{group, nil, notify, manual, text_or, AutomationRule}
use qtable_server.Automation.Normal.{FieldTypes, normalize_conditions, items_or_empty, to_int}
use qtable_server.Automation.Definition.{
  AutomationDefinition, Draft, validate_automation_definition, normalize_trigger, trigger_by_type,
  normalize_actions, normalize_each, normalize_action, action_by_type, normalize_notify,
  collect_recipients, add_recipient, normalize_recipient_field, normalize_timezone,
  normalize_max_retries, int_between,
}
use qtable_server.Automation.Definition.Limits.{
  IsWithinLimits, validate_automation_definition-IsWithinLimits,
}
use qtable_server.Automation.Normal.Bounds.{item_count, nesting}
use qtable_server.Automation.Scheduler.{write_rule}
use qtable_server.Automation.Rules.{
  Surroundings, Edit, is_live, is_semantic_change, get_automation, require_permission, checked_name,
  redefined, update_automation, delete_automation, touched,
}
use qtable_server.Automation.Rules.Identity.{RunsAsEditor, update_automation-RunsAsEditor}
use qtable_server.Automation.Rules.Bounded.{IsBounded, delete, here, next, Reach-IsBounded}
use qtable_server.Automation.Tests.{python, db, a_rule}

abbrev fields : FieldTypes
fields = ("f1", "text") ∷ []

abbrev a_draft : Draft
a_draft = record {
  trigger = obj (dict_members (("type", str "manual") ∷ []));
  conditions = null;
  actions = arr (
      list_items (
        obj (
          dict_members (
            ("type", str "notify")
            ∷ ("recipientUserIds", arr (list_items (int (pos 7) ∷ [])))
            ∷ ("message", str "hello")
            ∷ []))
        ∷ []));
  timezone = "";
  max_retries = int (pos 3);
}

abbrev a_definition : AutomationDefinition
a_definition = record {
  trigger = manual;
  conditions = group true nil;
  actions = notify (pos 7 ∷ []) none "automation" "hello" ∷ [];
  timezone = "UTC";
  max_retries = 3;
}

draft_accepted :
    validate_automation_definition python (λ zone. true) fields a_draft ≡ ok a_definition
unfolding validate_automation_definition normalize_trigger trigger_by_type text_or text_of truthy
    strip lstrip rstrip is_space normalize_conditions normalize_actions normalize_each
    normalize_action action_by_type normalize_notify items_or_empty collect_recipients add_recipient
    to_int normalize_recipient_field char_count normalize_timezone normalize_max_retries int_between
draft_accepted = refl

validate_automation_definition-IsWithinLimits_example : IsWithinLimits fields a_definition
validate_automation_definition-IsWithinLimits_example =
    validate_automation_definition-IsWithinLimits python (λ zone. true) fields a_draft a_definition
      draft_accepted

abbrev around : Surroundings
around = record {
  workspace = db.workspace;
  is_table_item = λ id. true;
  fields = λ id. fields;
  python = python;
  is_known_zone = λ zone. true;
  now = 90;
}

abbrev new_name : Edit
new_name = record {
  name = some "new";
  description = none;
  trigger = none;
  conditions = none;
  actions = none;
  timezone = none;
  max_retries = none;
}

abbrev a_renamed_rule : AutomationRule
a_renamed_rule = touched around 7 (record a_rule { name = "new" })

rule_renamed :
    update_automation around (a_rule ∷ []) 7 "a1" new_name
    ≡ ok (a_renamed_rule ∷ [], a_renamed_rule)
unfolding update_automation get_automation require_permission get_effective_permission_for_item
    find_item get_workspace_member permission_chain effective_over first_override chain_overrides
    override_map role_permission permission_allows permission_order checked_name strip lstrip rstrip
    is_space char_count redefined is_semantic_change write_rule
rule_renamed = refl

update_automation-RunsAsEditor_example :
    (rule : AutomationRule) × (find (is_live "a1") (a_rule ∷ []) ≡ some rule)
    × (permission_allows (get_effective_permission_for_item db.workspace 7 rule.table_id) "edit"
        ≡ true)
    × RunsAsEditor 7 rule a_renamed_rule
update_automation-RunsAsEditor_example =
    update_automation-RunsAsEditor around (a_rule ∷ []) (a_renamed_rule ∷ []) 7 "a1" new_name
      a_renamed_rule rule_renamed

abbrev a_deleted_rule : AutomationRule
a_deleted_rule =
    touched around 7 (record a_rule { enabled = false; next_run_at = none; deleted_at = some 90 })

rule_deleted : delete_automation around (a_rule ∷ []) 7 "a1" ≡ ok (a_deleted_rule ∷ [])
unfolding delete_automation get_automation require_permission get_effective_permission_for_item
    find_item get_workspace_member permission_chain effective_over first_override chain_overrides
    override_map role_permission permission_allows permission_order write_rule
rule_deleted = refl

rule-IsBounded : IsBounded a_rule
unfolding item_count nesting
rule-IsBounded = record {
  trigger_limits = tt;
  condition_items = omega arith;
  condition_nesting = omega arith;
  some_action = omega arith;
  few_actions = omega arith;
  few_retries = omega arith;
}

Reach-IsBounded_example : All IsBounded (a_deleted_rule ∷ [])
Reach-IsBounded_example =
    Reach-IsBounded {rules = a_rule ∷ []} (rule-IsBounded, tt)
      (next here (delete around (a_rule ∷ []) (a_deleted_rule ∷ []) 7 "a1" rule_deleted))
