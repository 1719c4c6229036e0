-- ===== src/Automation/Definition.antt =====
-- `validate_automation_definition` of app/services/automation/validation.py and what it calls, but for
-- the conditions. Whether a time zone is known is an argument.
pub mod Triggers
pub mod Writes
pub mod Limits
use qtable_server.Base.{
  ℕ, zero, suc, ◌+◌, ◌≤◌, String, Bool, true, false, not, Option, none, some, List, [], ◌∷◌, ◌++◌,
  ◌&&◌, ◌||◌, ◌==◌, string_eq, nat_eq, ltb, leb, if◌then◌else◌, Dict, lookup, has_key, insert, any,
  contains, length, is_empty,
}
use qtable_server.Base.Int.{ℤ, pos, negsuc}
use qtable_server.Base.Result.{Result, ok, err, ◌>>=◌, ◌>>◌, guard}
use qtable_server.Json.{
  Json, null, bool, int, real, str, arr, obj, members_dict, items_list, get, truthy,
}
use qtable_server.Text.{strip, char_count}
use qtable_server.Automation.{
  Trigger, record_created, record_updated, scheduled, due_date, manual, Condition, Action,
  update_record, create_record, notify, text_or,
}
use qtable_server.Automation.Normal.{
  Python, FieldTypes, AutomationValidationError, not_an_object, not_a_list, bad_trigger,
  bad_interval, bad_offset, one_field_needed, not_a_date, bad_actions, bad_action_type,
  not_writable, bad_recipients, no_recipient, bad_notification, bad_message, bad_timezone,
  bad_retries, no_fields, no_values, require_field, is_date, items_or_empty, to_int,
  normalize_typed_scalar, normalize_conditions,
}

-- The loop of `_normalize_field_ids`, with the ids that are already in the result.
unfoldable pub collect_field_ids :
    FieldTypes → List Json → List String → Result AutomationValidationError (List String)
collect_field_ids fields [] result = ok result
collect_field_ids fields (item ∷ items) result = require_field fields item >>= λ (field_id, type).
    collect_field_ids fields items
      (if contains field_id result then result else result ++ field_id ∷ [])

unfoldable pub normalize_field_ids :
    FieldTypes → Json → Result AutomationValidationError (List String)
normalize_field_ids fields null = ok []
normalize_field_ids fields (arr items) = collect_field_ids fields (items_list items) []
normalize_field_ids fields value = err not_a_list

-- "fieldId", added to the ids.
unfoldable pub with_field_id :
    FieldTypes → Json → List String → Result AutomationValidationError (List String)
with_field_id fields null field_ids = ok field_ids
with_field_id fields value field_ids = require_field fields value >>= λ (field_id, type).
    ok (if contains field_id field_ids then field_ids else field_ids ++ field_id ∷ [])

abbrev pub type_of_one : FieldTypes → List String → Option String
type_of_one fields (field_id ∷ []) = lookup field_id fields
type_of_one fields field_ids = none

-- `int(value)`, within bounds.
unfoldable pub int_between :
    ℕ → ℕ → AutomationValidationError → Option ℤ → Result AutomationValidationError ℕ
int_between low high e (some (pos n)) = if leb low n && leb n high then ok n else err e
int_between low high e value = err e

-- `trigger.get(key, default)`
abbrev pub int_or : ℕ → Option Json → Option ℤ
int_or default none = some (pos default)
int_or default (some value) = to_int value

unfoldable pub normalize_due_date :
    FieldTypes → Dict Json → Result AutomationValidationError Trigger
normalize_due_date fields trigger =
    require_field fields (get "fieldId" trigger) >>= λ (field_id, type).
    guard (is_date type) not_a_date
    >> (int_between 0 525600 bad_offset (int_or 0 (lookup "offsetMinutes" trigger)) >>= λ offset.
        int_between 1 1440 bad_interval (int_or 5 (lookup "scanIntervalMinutes" trigger))
        >>= λ scan. ok (due_date field_id offset scan))

unfoldable pub normalize_scheduled : Dict Json → Result AutomationValidationError Trigger
normalize_scheduled trigger =
    int_between 1 43200 bad_interval (to_int (get "intervalMinutes" trigger)) >>= λ interval.
    ok (scheduled interval)

module _ (python : Python) where
  -- "from" or "to": None passes as it is.
  unfoldable pub normalize_transition :
      Option String → Option Json → Result AutomationValidationError (Option Json)
  normalize_transition type none = ok none
  normalize_transition type (some null) = ok (some null)
  normalize_transition none (some value) = ok (some value)
  normalize_transition (some type) (some value) =
      normalize_typed_scalar python type value >>= λ v. ok (some v)

  unfoldable pub normalize_updated :
      FieldTypes → Dict Json → Result AutomationValidationError Trigger
  normalize_updated fields trigger =
      normalize_field_ids fields (get "fieldIds" trigger) >>= λ listed.
      with_field_id fields (get "fieldId" trigger) listed >>= λ field_ids.
      guard (not (has_key "from" trigger || has_key "to" trigger) || length field_ids == 1)
        one_field_needed
      >> (normalize_transition (type_of_one fields field_ids) (lookup "from" trigger) >>= λ from.
          normalize_transition (type_of_one fields field_ids) (lookup "to" trigger) >>= λ to.
          ok (record_updated field_ids from to))

  unfoldable pub trigger_by_type :
      FieldTypes → Dict Json → String → Result AutomationValidationError Trigger
  trigger_by_type fields trigger type =
      if type == "record.created"
      then ok record_created
      else if type == "manual"
      then ok manual
      else if type == "record.updated"
      then normalize_updated fields trigger
      else if type == "scheduled"
      then normalize_scheduled trigger
      else if type == "due_date"
      then normalize_due_date fields trigger
      else err bad_trigger

  unfoldable pub normalize_trigger : FieldTypes → Json → Result AutomationValidationError Trigger
  normalize_trigger fields (obj ms) =
      let trigger = members_dict ms in
      trigger_by_type fields trigger (strip (text_or (get "type" trigger) ""))
  normalize_trigger fields value = err not_an_object

abbrev non_writable_field_types : List String
non_writable_field_types =
    "formula" ∷ "autoNumber" ∷ "auto_number" ∷ "createdTime" ∷ "modifiedTime" ∷ "createdBy"
    ∷ "modifiedBy" ∷ []

abbrev pub is_writable : String → Bool
is_writable type = not (contains type non_writable_field_types)

-- The loop of `_normalize_write_fields`.
unfoldable pub collect_writes :
    FieldTypes → Dict Json → Dict Json → Result AutomationValidationError (Dict Json)
collect_writes fields [] normalized = ok normalized
collect_writes fields ((raw_field_id, item) ∷ value) normalized =
    require_field fields (str raw_field_id) >>= λ (field_id, type).
    guard (is_writable type) not_writable
    >> collect_writes fields value (insert field_id item normalized)

unfoldable pub normalize_write_fields :
    FieldTypes → Json → Result AutomationValidationError (Dict Json)
normalize_write_fields fields (obj ms) =
    guard (not (is_empty (members_dict ms))) no_values >> collect_writes fields (members_dict ms) []
normalize_write_fields fields value = err no_values

abbrev same_int : ℤ → ℤ → Bool
same_int (pos m) (pos n) = m == n
same_int (negsuc m) (negsuc n) = m == n
same_int a b = false

abbrev is_positive : ℤ → Bool
is_positive (pos n) = ltb 0 n
is_positive (negsuc n) = false

unfoldable pub add_recipient : ℤ → List ℤ → List ℤ
add_recipient value recipients =
    if is_positive value && not (any (same_int value) recipients)
    then recipients ++ value ∷ []
    else recipients

-- The loop over "recipientUserIds".
unfoldable pub collect_recipients : List Json → List ℤ → Result AutomationValidationError (List ℤ)
collect_recipients [] recipients = ok recipients
collect_recipients (item ∷ items) recipients = elim (to_int item) [
  | none ↦ err bad_recipients
  | some value ↦ collect_recipients items (add_recipient value recipients)
]

unfoldable pub normalize_recipient_field :
    FieldTypes → Json → Result AutomationValidationError (Option String)
normalize_recipient_field fields null = ok none
normalize_recipient_field fields value = require_field fields value >>= λ (field_id, type).
    guard (type == "member") bad_recipients >> ok (some field_id)

abbrev pub notification_types : List String
notification_types =
    "automation" ∷ "due_3d" ∷ "due_24h" ∷ "task_assigned" ∷ "ai_action_required"
    ∷ "automation_failed" ∷ []

abbrev pub is_given : Option String → Bool
is_given none = false
is_given (some field_id) = true

-- The branch of `normalize_actions` for a notification.
unfoldable pub normalize_notify : FieldTypes → Dict Json → Result AutomationValidationError Action
normalize_notify fields raw = items_or_empty (get "recipientUserIds" raw) >>= λ items.
    collect_recipients items [] >>= λ recipients.
    normalize_recipient_field fields (get "recipientFieldId" raw) >>= λ field_id.
    let type = strip (text_or (get "notificationType" raw) "automation") in
    let message = strip (text_or (get "message" raw) "自动化规则已触发") in
    guard (not (is_empty recipients) || is_given field_id) no_recipient
    >> (guard (contains type notification_types) bad_notification
        >> (guard (not (message == "") && leb (char_count message) 500) bad_message
            >> ok (notify recipients field_id type message)))

unfoldable pub action_by_type :
    FieldTypes → Dict Json → String → Result AutomationValidationError Action
action_by_type fields raw type =
    if type == "update_record"
    then (normalize_write_fields fields (get "fields" raw) >>= λ writes. ok (update_record writes))
    else if type == "create_record"
    then (normalize_write_fields fields (get "fields" raw) >>= λ writes. ok (create_record writes))
    else if type == "notify"
    then normalize_notify fields raw
    else err bad_action_type

unfoldable pub normalize_action : FieldTypes → Json → Result AutomationValidationError Action
normalize_action fields (obj ms) =
    let raw = members_dict ms in action_by_type fields raw (strip (text_or (get "type" raw) ""))
normalize_action fields value = err not_an_object

unfoldable pub normalize_each :
    FieldTypes → List Json → Result AutomationValidationError (List Action)
normalize_each fields [] = ok []
normalize_each fields (raw ∷ items) = normalize_action fields raw >>= λ action.
    normalize_each fields items >>= λ actions. ok (action ∷ actions)

unfoldable pub normalize_actions :
    FieldTypes → Json → Result AutomationValidationError (List Action)
normalize_actions fields (arr items) =
    guard (not (is_empty (items_list items)) && leb (length (items_list items)) 32) bad_actions
    >> normalize_each fields (items_list items)
normalize_actions fields value = err not_a_list

unfoldable pub normalize_timezone :
    (String → Bool) → String → Result AutomationValidationError String
normalize_timezone is_known value =
    let stripped = strip value in
    let zone = if value == "" || stripped == "" then "UTC" else stripped in
    guard (is_known zone) bad_timezone >> ok zone

unfoldable pub normalize_max_retries : Json → Result AutomationValidationError ℕ
normalize_max_retries value = int_between 0 10 bad_retries (to_int value)

-- The dict that `validate_automation_definition` returns.
pub record AutomationDefinition : Type 0 where
  pub trigger : Trigger
  pub conditions : Condition
  pub actions : List Action
  pub timezone : String
  pub max_retries : ℕ

-- What a user sends.
pub record Draft : Type 0 where
  pub trigger : Json
  pub conditions : Json
  pub actions : Json
  pub timezone : String
  pub max_retries : Json

unfoldable pub validate_automation_definition :
    Python
    → (String → Bool)
    → FieldTypes
    → Draft
    → Result AutomationValidationError AutomationDefinition
validate_automation_definition python is_known fields draft =
    guard (not (is_empty fields)) no_fields
    >> (normalize_trigger python fields draft.trigger >>= λ trigger.
        normalize_conditions python 9 fields draft.conditions 0 >>= λ (conditions, n).
        normalize_actions fields draft.actions >>= λ actions.
        normalize_timezone is_known draft.timezone >>= λ timezone.
        normalize_max_retries draft.max_retries >>= λ max_retries. ok (record {
          trigger = trigger;
          conditions = conditions;
          actions = actions;
          timezone = timezone;
          max_retries = max_retries;
        }))
