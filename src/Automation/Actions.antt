-- ===== src/Automation/Actions.antt =====
-- The actions of app/services/automation/executor.py: `_execute_action`, and the recipients of a
-- notification.
use Prim.Native.String.{◌++◌ as join_text}
use qtable_server.Base.{
  ℕ, zero, suc, String, Bool, Option, none, some, List, [], ◌∷◌, ◌++◌, ◌&&◌, map, ◌==◌, string_eq,
  nat_eq, if◌then◌else◌, Dict, any, is_empty, length, filter, find,
}
use qtable_server.Base.Int.{ℤ, pos, negsuc}
use qtable_server.Base.Result.{Result, ok, err}
use qtable_server.Json.{
  Json, null, bool, int, real, str, arr, obj, Items, members_dict, list_items, get,
}
use qtable_server.Json
use qtable_server.Text.{str_nat}
use qtable_server.Permission.{WorkspaceDb}
use qtable_server.RowPermission.{RowDb, TableRecord}
use qtable_server.RowPermission.Access.{require_record_access}
use qtable_server.Automation.{
  Action, update_record, create_record, notify, AutomationRule, AutomationEvent,
  AutomationExecution,
}
use qtable_server.Automation.Normal.{to_int}
use qtable_server.Automation.Services.{
  Failure, permission_error, value_error, Notification, Call, Services, sort_texts, insert_number,
}

-- `result.add(int(value))`, where it does not raise.
unfoldable pub ints_of : Json → List ℤ
ints_of value = elim (to_int value) [ none ↦ [] | some n ↦ n ∷ [] ]

-- The first of the keys whose value is not None.
unfoldable pub first_id : List String → Dict Json → List ℤ
first_id [] value = []
first_id (key ∷ keys) value = elim (get key value) [
  | null ↦ first_id keys value
  | candidate ↦ ints_of candidate
]

unfoldable mutual
  unfolding ints_of first_id to_int

  pub member_ids : Json → List ℤ
  member_ids (arr items) = member_ids_of items
  member_ids (obj ms) = first_id ("id" ∷ "userId" ∷ "user_id" ∷ "value" ∷ []) (members_dict ms)
  member_ids null = []
  member_ids (bool b) = []
  member_ids (int n) = ints_of (int n)
  member_ids (real n nonzero s) = ints_of (real n nonzero s)
  member_ids (str s) = ints_of (str s)

  pub member_ids_of : Items → List ℤ
  member_ids_of Json.nil = []
  member_ids_of (Json.cons item items) = member_ids item ++ member_ids_of items

-- `sorted({int(value) for value in candidate_ids if int(value) > 0})`
unfoldable pub candidates : List ℤ → List ℕ
candidates [] = []
candidates (pos zero ∷ ids) = candidates ids
candidates (pos (suc n) ∷ ids) = insert_number (suc n) (candidates ids)
candidates (negsuc n ∷ ids) = candidates ids

abbrev pub is_member : WorkspaceDb → String → ℕ → Bool
is_member db workspace_id user_id =
    any (λ m. m.workspace_id == workspace_id && m.user_id == user_id) db.members

unfoldable pub workspace_recipient_ids : WorkspaceDb → String → List ℤ → List ℕ
workspace_recipient_ids db workspace_id ids = filter (is_member db workspace_id) (candidates ids)

abbrev pub field_members : Option String → Dict Json → List ℤ
field_members none record_data = []
field_members (some field_id) record_data =
    if field_id == "" then [] else member_ids (get field_id record_data)

-- `str(value or default)` of a text.
abbrev or_text : String → String → String
or_text s default = if s == "" then default else s

abbrev pub dict_or_empty : Option (Dict Json) → Dict Json
dict_or_empty none = []
dict_or_empty (some d) = d

-- `dict(record.data or {}) if record is not None else dict(event.after_data or {})`
unfoldable pub context_data : Option TableRecord → Option (Dict Json) → Dict Json
context_data none after_data = dict_or_empty after_data
context_data (some row) after_data = row.row_data

-- The row is the session's own object: it shows what an earlier action of the run has written.
unfoldable pub refreshed : RowDb → Option TableRecord → Option TableRecord
refreshed db none = none
refreshed db (some row) =
    elim (find (λ r. r.table_id == row.table_id && r.id == row.id) db.records) [
      | none ↦ some row
      | some current ↦ some current
    ]

module _ (services : Services) where
  open services use {
    World, rows, apply_record_patches, create_records_with_data, stage_notification,
    publish_notification_rows, transaction,
  }

  abbrev pub and_then :
      {A B : Type 0} → World × Result Failure A → (A → Call World B) → World × Result Failure B
  and_then (w, err e) next = (w, err e)
  and_then (w, ok a) next = next a w

  -- The loop over the sorted recipients.
  unfoldable pub stage_all : (ℕ → Notification) → List ℕ → Call World (List (String × Bool))
  stage_all notification_for [] w = (w, ok [])
  stage_all notification_for (recipient ∷ recipients) w =
      and_then (stage_notification (notification_for recipient) w)
        (λ id v. and_then (stage_all notification_for recipients v) (λ ids u. (u, ok (id ∷ ids))))

  abbrev notification_key : String → ℕ → ℕ → String
  notification_key execution_id action_index recipient = join_text "automation:" (
      join_text execution_id
        (join_text ":" (join_text (str_nat action_index) (join_text ":" (str_nat recipient)))))

  abbrev created_rows : List (String × Bool) → List String
  created_rows staged = map (λ s. s.0) (filter (λ s. s.1) staged)

  abbrev notified : List String → ℕ → Dict Json
  notified ids recipient_count =
      ("notificationIds", arr (list_items (map str ids)))
      ∷ ("recipientCount", int (pos recipient_count))
      ∷ []

  -- `_execute_notify_action`, once the recipients are known.
  unfoldable pub notify_recipients :
      AutomationRule
      → AutomationExecution
      → AutomationEvent
      → String
      → String
      → ℕ
      → ℕ
      → List ℕ
      → Call World (Dict Json)
  notify_recipients rule execution event type message action_index actor_user_id recipients w =
      if is_empty recipients
      then (w, err (value_error "Automation notification has no accessible workspace recipient"))
      else and_then
          (stage_all
            (λ recipient. record {
              recipient_user_id = recipient;
              type = or_text type "automation";
              actor_id = some actor_user_id;
              workspace_id = rule.workspace_id;
              table_id = rule.table_id;
              record_id = event.record_id;
              dedupe_key = notification_key execution.id action_index recipient;
              payload =
                  ("automationId", str rule.id)
                  ∷ ("executionId", str execution.id)
                  ∷ ("message", str (or_text message "自动化规则已触发"))
                  ∷ [];
            })
            recipients w)
          (λ staged v.
            and_then (publish_notification_rows (created_rows staged) (transaction.commit v))
              (λ _ u. (u, ok (notified (map (λ s. s.0) staged) (length recipients)))))

  unfoldable pub execute_notify_action :
      AutomationRule
      → AutomationExecution
      → AutomationEvent
      → List ℤ
      → Option String
      → String
      → String
      → Dict Json
      → ℕ
      → ℕ
      → Call World (Dict Json)
  execute_notify_action rule execution event ids field_id type message record_data index actor w =
      notify_recipients rule execution event type message index actor
        (workspace_recipient_ids (rows w).workspace rule.workspace_id
          (ids ++ field_members field_id record_data))
        w

  abbrev sorted_keys : Dict Json → List Json
  sorted_keys fields = map str (sort_texts (map (λ e. e.0) fields))

  -- `update_record`: row access is checked again immediately before the write.
  unfoldable pub update_one :
      AutomationRule
      → AutomationExecution
      → String
      → Dict Json
      → ℕ
      → Option String
      → Call World (Dict Json)
  update_one rule execution record_id fields user_id table_permission w =
      elim (require_record_access (rows w) rule.table_id record_id user_id table_permission) [
        | err e ↦ (w, err (permission_error "Record not found or no access"))
        | ok row ↦
            and_then
              (apply_record_patches rule.table_id record_id fields user_id execution.trace_id w)
              (λ _ v. (
                v,
                ok (
                    ("recordId", str record_id)
                    ∷ ("changedFieldIds", arr (list_items (sorted_keys fields)))
                    ∷ []),
              ))
      ]

  abbrev needs_record : {A : Type 0} → Call World A
  needs_record w = (w, err (value_error "update_record requires a record-triggered execution"))

  unfoldable pub execute_action :
      AutomationRule
      → AutomationExecution
      → AutomationEvent
      → ℕ
      → Option String
      → Option TableRecord
      → ℕ
      → Action
      → Call World (Dict Json)
  execute_action rule execution event user_id table_permission found index (update_record fields)
        w =
      elim found [
        | none ↦ needs_record w
        | some row ↦ elim event.record_id [
          | none ↦ needs_record w
          | some record_id ↦ update_one rule execution record_id fields user_id table_permission w
        ]
      ]
  execute_action rule execution event user_id table_permission found index (create_record fields)
        w =
      and_then (create_records_with_data rule.table_id fields user_id execution.trace_id w)
        (λ ids v. (v, ok (("recordIds", arr (list_items (map str ids))) ∷ [])))
  execute_action rule execution event user_id table_permission found index
        (notify ids field_id type message) w =
      execute_notify_action rule execution event ids field_id type message
        (context_data (refreshed (rows w) found) event.after_data) index user_id w
