-- ===== src/Automation.antt =====
-- Automation: the rows of app/models/automation.py and the normal forms that
-- app/services/automation/validation.py stores in them. A time is a number of seconds.
mod Tests
pub mod Normal
pub mod Evaluate
pub mod Definition
pub mod Services
pub mod Actions
pub mod ActionLoop
pub mod Executor
pub mod Events
pub mod Matching
pub mod Scheduler
pub mod QueueRows
pub mod Runtime
pub mod Stored
pub mod Rules
use qtable_server.Base.{
  ℕ, String, Bool, true, false, Option, none, some, List, [], ◌∷◌, ◌==◌, string_eq, any, Dict,
  if◌then◌else◌,
}
use qtable_server.Base.Int.{ℤ}
use qtable_server.Json.{Json, str, truthy}
use qtable_server.RowPermission.{text_of}

-- `str(value or default)`
unfoldable pub text_or : Json → String → String
text_or value default = if truthy value then text_of value else default

pub data Trigger : Type 0 where
  record_created : Trigger
  -- The field ids, and the values of "from" and "to" where they are keys of the trigger.
  record_updated : List String → Option Json → Option Json → Trigger
  -- The minutes between two runs.
  scheduled : ℕ → Trigger
  -- The field, the offset in minutes, and the minutes between two scans.
  due_date : String → ℕ → ℕ → Trigger
  manual : Trigger

unfoldable pub trigger_type : Trigger → String
trigger_type record_created = "record.created"
trigger_type (record_updated field_ids from to) = "record.updated"
trigger_type (scheduled interval) = "scheduled"
trigger_type (due_date field_id offset scan_interval) = "due_date"
trigger_type manual = "manual"

-- A group is `{"op": ..., "items": [...]}`; its flag says that the op is "and".
mutual
  pub data Condition : Type 0 where
    group : Bool → Conditions → Condition
    test : String → String → Json → Condition

  pub data Conditions : Type 0 where
    nil : Conditions
    cons : Condition → Conditions → Conditions

pub data Action : Type 0 where
  update_record : Dict Json → Action
  create_record : Dict Json → Action
  -- The recipients, the field that names more of them, the type and the message.
  notify : List ℤ → Option String → String → String → Action

unfoldable pub action_type : Action → String
action_type (update_record fields) = "update_record"
action_type (create_record fields) = "create_record"
action_type (notify recipients field_id type message) = "notify"

abbrev writes : Action → Bool
writes (update_record fields) = true
writes (create_record fields) = true
writes (notify recipients field_id type message) = false

unfoldable pub required_permission_for_actions : List Action → String
required_permission_for_actions actions = if any writes actions then "update" else "read"

pub record AutomationRule : Type 0 where
  pub id : String
  pub workspace_id : String
  pub table_id : String
  pub name : String
  pub description : Option String
  pub enabled : Bool
  pub trigger : Trigger
  pub conditions : Condition
  pub actions : List Action
  pub timezone : String
  pub max_retries : ℕ
  pub version : ℕ
  pub run_as_user_id : Option ℕ
  pub next_run_at : Option ℕ
  pub created_by_user_id : Option ℕ
  pub updated_by_user_id : Option ℕ
  pub created_at : ℕ
  pub updated_at : ℕ
  pub deleted_at : Option ℕ

pub data EventStatus : Type 0 where
  queued processing processed : EventStatus

pub record AutomationEvent : Type 0 where
  pub id : String
  pub workspace_id : String
  pub table_id : String
  pub record_id : Option String
  pub source_change_item_id : Option String
  pub target_automation_id : Option String
  pub type : String
  pub before_data : Option (Dict Json)
  pub after_data : Option (Dict Json)
  pub changed_fields : List String
  pub actor_user_id : Option ℕ
  pub source : Option String
  pub trace_id : Option String
  pub root_event_id : String
  pub parent_execution_id : Option String
  pub depth : ℕ
  pub status : EventStatus
  pub available_at : ℕ
  pub error_code : Option String
  pub created_at : ℕ
  pub processed_at : Option ℕ

pub data ExecutionStatus : Type 0 where
  queued running retry_scheduled succeeded skipped failed partially_failed : ExecutionStatus

-- What happened to one action: the detail that it returned, or a code and a message.
pub data Outcome : Type 0 where
  done : Dict Json → Outcome
  broke : String → String → Outcome

pub record ActionResult : Type 0 where
  pub index : ℕ
  pub type : String
  pub outcome : Outcome

pub record AutomationExecution : Type 0 where
  pub id : String
  pub automation_id : String
  pub automation_version : ℕ
  pub trigger_event_id : String
  pub root_event_id : String
  pub parent_execution_id : Option String
  pub record_id : Option String
  pub depth : ℕ
  pub status : ExecutionStatus
  pub trace_id : String
  pub attempt : ℕ
  pub action_results : List ActionResult
  pub change_set_ids : List String
  pub error_code : Option String
  pub error_message : Option String
  pub next_retry_at : Option ℕ
  pub started_at : Option ℕ
  pub finished_at : Option ℕ
  pub created_at : ℕ
  pub updated_at : ℕ

-- The three tables, as far as the worker reads and writes them.
pub record Queue : Type 0 where
  pub rules : List AutomationRule
  pub events : List AutomationEvent
  pub executions : List AutomationExecution
