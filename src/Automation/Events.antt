-- ===== src/Automation/Events.antt =====
-- app/services/automation/events.py: how events get into the queue, each once, and which rules an
-- event is for. The session is used by one caller at a time: the race that the unique keys settle
-- is not modelled, and a new id (`uuid4`) is an argument.
pub mod Once
pub mod Chain
use Prim.Native.String.{◌++◌ as join_text}
use qtable_server.Base.{
  ℕ, zero, suc, ◌+◌, String, Bool, true, false, not, Option, none, some, List, [], ◌∷◌, ◌++◌, ◌&&◌,
  ◌||◌, map, ◌==◌, string_eq, nat_eq, ltb, leb, if◌then◌else◌, Dict, any, is_empty, filter, find,
  take, contains, min, max,
}
use qtable_server.Base.Result.{Result, ok, err}
use qtable_server.Json.{Json, obj, members_dict, get}
use qtable_server.Text.{strip, take_chars}
use qtable_server.Permission.{WorkspaceDb, find_item}
use qtable_server.Automation.{
  Trigger, record_updated, trigger_type, AutomationRule, EventStatus, AutomationEvent,
  AutomationExecution, Queue,
}
use qtable_server.Automation.Services.{sort_texts}
use qtable_server.Automation.Normal.{Python}
use qtable_server.Automation.Actions.{dict_or_empty}

abbrev pub is_text : String → Option String → Bool
is_text s none = false
is_text s (some t) = t == s

-- A text that is not "" and is there.
unfoldable pub non_empty : Option String → Option String
non_empty none = none
non_empty (some s) = if s == "" then none else some s

pub record ParentContext : Type 0 where
  pub root_event_id : Option String
  pub parent_execution_id : Option String
  pub depth : ℕ

abbrev no_parent : ParentContext
no_parent = record { root_event_id = none; parent_execution_id = none; depth = 0 }

abbrev pub context_of : Option AutomationExecution → ParentContext
context_of none = no_parent
context_of (some e) = record {
  root_event_id = some e.root_event_id;
  parent_execution_id = some e.id;
  depth = suc e.depth;
}

-- `_parent_context`
unfoldable pub parent_context :
    List AutomationExecution → Option String → Option String → ParentContext
parent_context executions source trace_id =
    if is_text "automation" source
    then elim (non_empty trace_id) [
      | none ↦ no_parent
      | some trace ↦ context_of (find (λ e. e.trace_id == trace) executions)
    ]
    else no_parent

pub data EventError : Type 0 where
  unsupported_event : EventError

-- The arguments of `queue_record_automation_event`.
pub record Change : Type 0 where
  pub table_id : String
  pub event_type : String
  pub record_id : String
  pub before_data : Option (Dict Json)
  pub after_data : Option (Dict Json)
  pub changed_fields : List String
  pub actor_user_id : Option ℕ
  pub source : Option String
  pub trace_id : Option String
  pub source_change_item_id : Option String
  pub event_created_at : Option ℕ

abbrev pub is_record_event : String → Bool
is_record_event type = type == "record.created" || type == "record.updated"

abbrev pub cut : ℕ → Option String → Option String
cut n none = none
cut n (some s) = some (take_chars n s)

abbrev pub or_else {ℓ} : {A : Type ℓ} → Option A → A → A
or_else none a = a
or_else (some b) a = b

-- The event that an earlier call has queued for a change item.
unfoldable pub event_of_change : List AutomationEvent → Option String → Option AutomationEvent
event_of_change events none = none
event_of_change events (some item) = find (λ v. is_text item v.source_change_item_id) events

-- A set of texts, as a list with no text twice.
unfoldable pub text_set : List String → List String
text_set [] = []
text_set (s ∷ ss) = let rest = text_set ss in if contains s rest then rest else s ∷ rest

abbrev event_id_of : String → Option String → String
event_id_of new_id none = new_id
event_id_of new_id (some item) = join_text "evt_change_" item

unfoldable pub record_event :
    String → ℕ → String → Change → String → ParentContext → AutomationEvent
record_event new_id now workspace_id change type parent =
    let event_id = event_id_of new_id (non_empty change.source_change_item_id) in
    record {
      id = take_chars 128 event_id;
      workspace_id = workspace_id;
      table_id = change.table_id;
      record_id = some change.record_id;
      source_change_item_id = cut 64 (non_empty change.source_change_item_id);
      target_automation_id = none;
      type = type;
      before_data = change.before_data;
      after_data = change.after_data;
      changed_fields = sort_texts (text_set change.changed_fields);
      actor_user_id = change.actor_user_id;
      source = cut 64 (non_empty change.source);
      trace_id = cut 128 (non_empty change.trace_id);
      root_event_id = take_chars 128 (or_else (non_empty parent.root_event_id) event_id);
      parent_execution_id = parent.parent_execution_id;
      depth = parent.depth;
      status = EventStatus.queued;
      available_at = now;
      error_code = none;
      created_at = or_else change.event_created_at now;
      processed_at = none;
    }

abbrev pub add_event : Queue → AutomationEvent → Queue
add_event queue event = record queue { events = queue.events ++ event ∷ [] }

-- The event is added unless there is one.
abbrev pub add_unless : Queue → AutomationEvent → Option AutomationEvent → Queue × AutomationEvent
add_unless queue event none = (add_event queue event, event)
add_unless queue event (some existing) = (queue, existing)

-- What follows the checks of `queue_record_automation_event`.
unfoldable pub queue_change :
    String → ℕ → String → Change → String → Queue → Queue × Option AutomationEvent
queue_change new_id now workspace_id change type queue =
    let (next, event) =
      add_unless queue
        (record_event new_id now workspace_id change type
          (parent_context queue.executions change.source change.trace_id))
        (event_of_change queue.events (non_empty change.source_change_item_id)) in
    (next, some event)

abbrev pub workspace_of : WorkspaceDb → String → Option String
workspace_of db table_id = elim (find_item db table_id) [
  | none ↦ none
  | some item ↦ non_empty (some item.workspace_id)
]

-- A table that is in no workspace has no event.
abbrev pub queue_in :
    String → ℕ → Change → String → Queue → Option String → Queue × Option AutomationEvent
queue_in new_id now change type queue none = (queue, none)
queue_in new_id now change type queue (some workspace_id) =
    queue_change new_id now workspace_id change type queue

unfoldable pub queue_record_automation_event :
    WorkspaceDb → String → ℕ → Change → Queue → Result EventError (Queue × Option AutomationEvent)
queue_record_automation_event db new_id now change queue =
    let type = strip change.event_type in
    if is_record_event type
    then ok (queue_in new_id now change type queue (workspace_of db change.table_id))
    else err unsupported_event

-- The rows of app/models/change_history.py, as far as they are read.
pub record ChangeItem : Type 0 where
  pub id : String
  pub table_id : String
  pub entity_type : String
  pub entity_id : String
  pub before_data : Option Json
  pub after_data : Option Json
  pub changed_fields : List String

pub record ChangeSet : Type 0 where
  pub actor_id : Option ℕ
  pub source : Option String
  pub trace_id : Option String
  pub status : String
  pub created_at : ℕ

abbrev pub as_dict : Option Json → Option (Dict Json)
as_dict none = none
as_dict (some value) = elim value [ obj ms ↦ some (members_dict ms) | _ ↦ none ]

abbrev pub is_some {ℓ} : {A : Type ℓ} → Option A → Bool
is_some none = false
is_some (some a) = true

abbrev type_of_change : Option (Dict Json) → String
type_of_change none = "record.created"
type_of_change (some before) = "record.updated"

abbrev pub change_of : ChangeItem → ChangeSet → Change
change_of item change_set = record {
  table_id = item.table_id;
  event_type = type_of_change (as_dict item.before_data);
  record_id = item.entity_id;
  before_data = as_dict item.before_data;
  after_data = as_dict item.after_data;
  changed_fields = item.changed_fields;
  actor_user_id = change_set.actor_id;
  source = change_set.source;
  trace_id = change_set.trace_id;
  source_change_item_id = some item.id;
  event_created_at = some change_set.created_at;
}

-- The `where` of the query: an applied change of a record that has no event yet.
unfoldable pub is_pending_change : List AutomationEvent → ChangeItem × ChangeSet → Bool
is_pending_change events (item, change_set) =
    not (is_some (find (λ v. is_text item.id v.source_change_item_id) events))
    && item.entity_type == "record"
    && is_some item.after_data
    && change_set.status == "applied"

abbrev counted : ℕ → Option AutomationEvent → ℕ
counted created none = created
counted created (some event) = suc created

abbrev pub materialized : Queue → ℕ → Result EventError (Queue × Option AutomationEvent) → Queue × ℕ
materialized queue created (err e) = (queue, created)
materialized queue created (ok (next, event)) = (next, counted created event)

-- One round of the loop of `materialize_record_events_from_changesets`.
unfoldable pub materialize_one : WorkspaceDb → ℕ → ChangeItem × ChangeSet → Queue → ℕ → Queue × ℕ
materialize_one db now (item, change_set) queue created =
    if is_some (as_dict item.after_data)
    then materialized queue created
        (queue_record_automation_event db "" now (change_of item change_set) queue)
    else (queue, created)

unfoldable pub materialize_all :
    WorkspaceDb → ℕ → List (ChangeItem × ChangeSet) → Queue → ℕ → Queue × ℕ
materialize_all db now [] queue created = (queue, created)
materialize_all db now (row ∷ rows) queue created =
    let (next, count) = materialize_one db now row queue created in
    materialize_all db now rows next count

-- The log is the join of the two tables in the order of the query.
unfoldable pub materialize_record_events_from_changesets :
    WorkspaceDb → ℕ → ℕ → List (ChangeItem × ChangeSet) → Queue → Queue × ℕ
materialize_record_events_from_changesets db now limit log queue =
    materialize_all db now
      (take (max 1 (min 1000 limit)) (filter (is_pending_change queue.events) log)) queue 0

-- The arguments of `queue_synthetic_automation_event`.
pub record Synthetic : Type 0 where
  pub event_id : String
  pub workspace_id : String
  pub table_id : String
  pub target_automation_id : String
  pub event_type : String
  pub record_id : Option String
  pub after_data : Option (Dict Json)
  pub actor_user_id : Option ℕ
  pub source : String

unfoldable pub synthetic_event : ℕ → Synthetic → AutomationEvent
synthetic_event now call = record {
  id = take_chars 128 call.event_id;
  workspace_id = call.workspace_id;
  table_id = call.table_id;
  record_id = call.record_id;
  source_change_item_id = none;
  target_automation_id = some (take_chars 64 call.target_automation_id);
  type = take_chars 32 call.event_type;
  before_data = none;
  after_data = call.after_data;
  changed_fields = [];
  actor_user_id = call.actor_user_id;
  source = some (take_chars 64 call.source);
  trace_id = none;
  root_event_id = take_chars 128 call.event_id;
  parent_execution_id = none;
  depth = 0;
  status = EventStatus.queued;
  available_at = now;
  error_code = none;
  created_at = now;
  processed_at = none;
}

unfoldable pub queue_synthetic_automation_event : ℕ → Synthetic → Queue → Queue × AutomationEvent
queue_synthetic_automation_event now call queue =
    add_unless queue (synthetic_event now call) (find (λ v. v.id == call.event_id) queue.events)
