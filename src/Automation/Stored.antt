-- ===== src/Automation/Stored.antt =====
-- The dicts that app/services/automation/repository.py stores for the parts of a rule.
use qtable_server.Base.{
  ℕ, String, Bool, true, false, Option, none, some, List, [], ◌∷◌, ◌++◌, ◌||◌, ◌==◌, string_eq,
  nat_eq, if◌then◌else◌, Dict, map,
}
use qtable_server.Base.Int.{ℤ, pos}
use qtable_server.Json.{Json, null, int, str, arr, obj, Items, list_items, dict_members}
use qtable_server.Json
use qtable_server.Automation.{
  Trigger, record_created, record_updated, scheduled, due_date, manual, Condition, Conditions,
  group, test, nil, cons, Action, update_record, create_record, notify,
}

abbrev pub object : Dict Json → Json
object members = obj (dict_members members)

abbrev pub texts : List String → Json
texts ss = arr (list_items (map str ss))

abbrev pub entry : String → Option Json → Dict Json
entry key none = []
entry key (some value) = (key, value) ∷ []

abbrev pub listed : String → List String → Dict Json
listed key [] = []
listed key (s ∷ ss) = (key, texts (s ∷ ss)) ∷ []

abbrev pub number : ℕ → Json
number n = int (pos n)

-- The stored dict of a trigger, of a condition and of an action.
unfoldable pub trigger_dict : Trigger → Dict Json
trigger_dict (record_updated field_ids from to) =
    ("type", str "record.updated") ∷ listed "fieldIds" field_ids
    ++ (entry "from" from ++ entry "to" to)
trigger_dict (scheduled interval) =
    ("type", str "scheduled") ∷ ("intervalMinutes", number interval) ∷ []
trigger_dict (due_date field_id offset scan_interval) =
    ("type", str "due_date")
    ∷ ("fieldId", str field_id)
    ∷ ("offsetMinutes", number offset)
    ∷ ("scanIntervalMinutes", number scan_interval)
    ∷ []
trigger_dict record_created = ("type", str "record.created") ∷ []
trigger_dict manual = ("type", str "manual") ∷ []

abbrev pub op_text : Bool → String
op_text true = "and"
op_text false = "or"

abbrev pub value_entry : String → Json → Dict Json
value_entry operator value =
    if operator == "empty" || operator == "not_empty" then [] else ("value", value) ∷ []

unfoldable mutual
  pub condition_json : Condition → Json
  condition_json (group is_and cs) =
      object (("op", str (op_text is_and)) ∷ ("items", arr (condition_items cs)) ∷ [])
  condition_json (test field_id operator value) =
      object (("fieldId", str field_id) ∷ ("operator", str operator) ∷ value_entry operator value)

  pub condition_items : Conditions → Items
  condition_items nil = Json.nil
  condition_items (cons c cs) = Json.cons (condition_json c) (condition_items cs)

abbrev pub numbers_entry : List ℤ → Dict Json
numbers_entry [] = []
numbers_entry (n ∷ ns) = ("recipientUserIds", arr (list_items (map int (n ∷ ns)))) ∷ []

abbrev pub text_entry : String → Option String → Dict Json
text_entry key none = []
text_entry key (some s) = (key, str s) ∷ []

unfoldable pub action_json : Action → Json
action_json (update_record fields) =
    object (("type", str "update_record") ∷ ("fields", object fields) ∷ [])
action_json (create_record fields) =
    object (("type", str "create_record") ∷ ("fields", object fields) ∷ [])
action_json (notify recipients field_id type message) = object (
    ("type", str "notify") ∷ numbers_entry recipients
    ++ (text_entry "recipientFieldId" field_id
        ++ ("notificationType", str type) ∷ ("message", str message) ∷ []))
