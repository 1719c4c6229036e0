-- ===== src/Automation/Definition/Limits.antt =====
-- What is known of a definition that app/services/automation/validation.py accepts.
use qtable_server.Base.{
  ◌≤◌, String, Bool, not, ◌≡◌, subst, string_eq, nat_eq, length, is_empty, All,
}
use qtable_server.Base.Result.{ok, ok_inj, guard, >>=-eq-ok}
use qtable_server.Automation.Normal.{
  Python, FieldTypes, to_int, normalize_conditions, no_fields, bad_retries,
}
use qtable_server.Automation.Normal.Bounds.{item_count, nesting, normalize_conditions-bounds}
use qtable_server.Automation.Definition.{
  int_between, normalize_trigger, normalize_actions, normalize_timezone, normalize_max_retries,
  AutomationDefinition, Draft, validate_automation_definition,
}
use qtable_server.Automation.Definition.Triggers.{
  TriggerIsWithin, int_between_lem, normalize_trigger-TriggerIsWithin,
}
use qtable_server.Automation.Definition.Writes.{ActionIsAllowed, normalize_actions-allowed}

pub record IsWithinLimits (fields : FieldTypes) (d : AutomationDefinition) : Type 0 where
  pub trigger_limits : TriggerIsWithin d.trigger
  pub condition_items : item_count d.conditions ≤ 64
  pub condition_nesting : nesting d.conditions ≤ 9
  pub some_action : 1 ≤ length d.actions
  pub few_actions : length d.actions ≤ 32
  pub allowed : All (ActionIsAllowed fields) d.actions
  pub few_retries : d.max_retries ≤ 10

-- A definition that is accepted is within all limits, whatever was sent: schedules and offsets, the
-- number and nesting of conditions, 1 to 32 actions, at most 10 retries, and its actions write only
-- fields that the table has and that may be written.
pub validate_automation_definition-IsWithinLimits :
    (python : Python) (is_known : String → Bool) (fields : FieldTypes) (draft : Draft)
    (d : AutomationDefinition)
    → validate_automation_definition python is_known fields draft ≡ ok d
    → IsWithinLimits fields d
unfolding validate_automation_definition normalize_max_retries
validate_automation_definition-IsWithinLimits python is_known fields draft d h =
    let (u, _, first) = >>=-eq-ok (guard (not (is_empty fields)) no_fields) _ h in
    let (trigger, trigger_ok, second) =
      >>=-eq-ok (normalize_trigger python fields draft.trigger) _ first in
    let (c, condition_ok, third) =
      >>=-eq-ok (normalize_conditions python 9 fields draft.conditions 0) _ second in
    let (actions, actions_ok, fourth) =
      >>=-eq-ok (normalize_actions fields draft.actions) _ third in
    let (timezone, _, fifth) = >>=-eq-ok (normalize_timezone is_known draft.timezone) _ fourth in
    let (retries, retries_ok, last) =
      >>=-eq-ok (int_between 0 10 bad_retries (to_int draft.max_retries)) _ fifth in
    let (allowed, some_action, few_actions) =
      normalize_actions-allowed fields draft.actions actions actions_ok in
    let (few_items, few_levels) =
      normalize_conditions-bounds python fields draft.conditions c.0 c.1 condition_ok in
    subst (IsWithinLimits fields) (ok_inj last) (record {
      trigger_limits =
          normalize_trigger-TriggerIsWithin python fields draft.trigger trigger trigger_ok;
      condition_items = few_items;
      condition_nesting = few_levels;
      some_action = some_action;
      few_actions = few_actions;
      allowed = allowed;
      few_retries = (int_between_lem 0 10 bad_retries _ retries retries_ok).1;
    })
