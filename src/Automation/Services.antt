-- ===== src/Automation/Services.antt =====
-- What the executor of app/services/automation/executor.py asks of the rest of the program: the
-- writes of app/services/smart_table_store, app/services/collaboration/notifications.py and the
-- trace of app/models/change_history.py, as an interface over the state of the session.
use Prim.Native.String.{compare as compare_text}
use Prim.Native.Nat.{Ordering}
use qtable_server.Base.{
  ℕ, String, Bool, true, false, Option, List, [], ◌∷◌, ◌==◌, string_eq, nat_eq, ltb, sort_by,
  if◌then◌else◌, Dict,
}
use qtable_server.Base.Result.{Result}
use qtable_server.Json.{Json}
use qtable_server.RowPermission.{RowDb}
use qtable_server.Automation.Normal.{Python}

-- An exception, by the class that the executor tells apart, with its text.
pub data Failure : Type 0 where
  permission_error value_error other_error : String → Failure

-- `_error_code`
unfoldable pub failure_code : Failure → String
failure_code (permission_error message) = "permission_denied"
failure_code (value_error message) = "validation_error"
failure_code (other_error message) = "action_error"

abbrev pub error_message : Failure → String
error_message (permission_error message) = message
error_message (value_error message) = message
error_message (other_error message) = message

-- `_requires_session_rollback`
unfoldable pub requires_session_rollback : Failure → Bool
requires_session_rollback (permission_error message) = false
requires_session_rollback (value_error message) = false
requires_session_rollback (other_error message) = true

-- The arguments of `stage_notification`; the event id is the key that tells copies apart.
pub record Notification : Type 0 where
  pub recipient_user_id : ℕ
  pub type : String
  pub actor_id : Option ℕ
  pub workspace_id : String
  pub table_id : String
  pub record_id : Option String
  pub dedupe_key : String
  pub payload : Dict Json

-- `db.commit` and `db.rollback`; a rollback takes back what no commit has kept.
pub record Transaction (World : Type 0) : Type 0 where
  pub commit : World → World
  pub rollback : World → World

-- A call returns the session as it leaves it, its uncommitted writes included, also where it raises.
abbrev pub Call : Type 0 → Type 0 → Type 0
Call World A = World → World × Result Failure A

pub record Services : Type 1 where
  pub World : Type 0
  pub rows : World → RowDb
  -- The table, the patches of one record, the user and the trace.
  pub apply_record_patches : String → String → Dict Json → ℕ → String → Call World (Unit {0})
  -- The table, the fields of one new record, the user and the trace; the ids that are made.
  pub create_records_with_data : String → Dict Json → ℕ → String → Call World (List String)
  -- The id of the notification, and whether it is a new one.
  pub stage_notification : Notification → Call World (String × Bool)
  -- The ids of new notifications.
  pub publish_notification_rows : List String → Call World (Unit {0})
  pub transaction : Transaction World
  -- `_change_set_ids`, by the trace.
  pub change_set_ids : World → String → List String
  pub python : Python

-- The order of texts, by code points.
abbrev pub text_le : String → String → Bool
text_le s t = elim (compare_text s t) [ Ordering.gt ↦ false | _ ↦ true ]

abbrev pub sort_texts : List String → List String
sort_texts ss = sort_by text_le ss

-- A set of numbers in order.
unfoldable pub insert_number : ℕ → List ℕ → List ℕ
insert_number n [] = n ∷ []
insert_number n (m ∷ ms) =
    if n == m then m ∷ ms else if ltb n m then n ∷ m ∷ ms else m ∷ insert_number n ms
