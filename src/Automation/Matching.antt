-- ===== src/Automation/Matching.antt =====
-- `trigger_matches` of app/services/automation/events.py: the rules that an event is for.
use qtable_server.Base.{
  String, Bool, true, false, not, Option, none, some, List, [], ◌∷◌, ◌&&◌, ◌==◌, string_eq, nat_eq,
  if◌then◌else◌, any, is_empty, contains,
}
use qtable_server.Json.{Json, get}
use qtable_server.Automation.{
  Trigger, record_updated, trigger_type, AutomationRule, AutomationEvent,
}
use qtable_server.Automation.Normal.{Python}
use qtable_server.Automation.Actions.{dict_or_empty}
use qtable_server.Automation.Events.{is_some, text_set, non_empty}

module _ (python : Python) where
  open python use {equal}

  -- "from" or "to", where the trigger has it.
  abbrev agrees : Option Json → Json → Bool
  agrees none actual = true
  agrees (some expected) actual = equal actual expected

  unfoldable pub transition_matches :
      List String → Option Json → Option Json → AutomationEvent → Bool
  transition_matches (field_id ∷ []) from to event =
      agrees from (get field_id (dict_or_empty event.before_data))
      && agrees to (get field_id (dict_or_empty event.after_data))
  transition_matches _ from to event = not (is_some from) && not (is_some to)

  unfoldable pub update_matches : List String → Option Json → Option Json → AutomationEvent → Bool
  update_matches field_ids from to event =
      if not (is_empty field_ids) && not (any (λ f. contains f event.changed_fields) field_ids)
      then false
      else transition_matches (text_set field_ids) from to event

  abbrev details_match : Trigger → AutomationEvent → Bool
  details_match (record_updated field_ids from to) event = update_matches field_ids from to event
  details_match _ event = true

  abbrev targets : Option String → AutomationRule → Bool
  targets target rule = elim (non_empty target) [ none ↦ true | some id ↦ id == rule.id ]

  unfoldable pub trigger_matches : AutomationRule → AutomationEvent → Bool
  trigger_matches rule event =
      targets event.target_automation_id rule
      && trigger_type rule.trigger == event.type
      && details_match rule.trigger event
