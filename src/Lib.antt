-- ===== src/Lib.antt =====
-- Verification library of qtable-server's table core.
--
-- The server keeps tables of records: a workspace is a tree of items (folders, tables, dashboards)
-- with permissions, a table has fields, rows and views, and a row is a JSON object. The library
-- models the parts that decide who sees what and what a stored table holds.
--
-- Base: shared names, Boolean tests and their instances (Base/Tests), lists measured by native
--   numbers and Python's dict as an association list in insertion order (Base/Lists), integers
--   (Base/Int), and calls that return or raise (Base/Result).
-- Json, Text: decoded JSON values; Python's str.strip, len, int(text) and str(number). A letter is
--   taken to lower case as far as the modelled tests for words of ASCII letters need it.
-- Permission: app/services/workspace/permissions.py. normalize_permission, permission_allows and
--   role_permission are the functions of those names; the queries are filters of a record of row
--   lists (WorkspaceDb). get_effective_permission_for_item walks up the rows (permission_chain),
--   resolve_permission_for_item is the memoised recursion over a map of parents. Inherit states what
--   inheritance means, Walk and Agree relate the two routines to it and to each other.
-- AutoNumber: app/services/auto_number_engine.py. The errors are the messages of the exception.
-- Relation: app/services/relation_engine.py, links from one row to rows of another table.
-- RowPermission: app/services/row_permissions.py: policies in RowPermission.antt, masking, filtering
--   and access in RowPermission/Access.antt. It asks Permission for the permission on a table and
--   Relation for the ids in a link.
-- TableStore: app/services/smart_table_store/file_backend.py and the loading and saving of
--   app/services/smart_table_store/helpers.py. An operation takes the files and returns its result,
--   or the error that it raised, with the files as it left them. TableStore/Create has the row
--   creations and TableStore/Schema the field changes, which ask AutoNumber for numbers;
--   TableStore/Views has the views.
-- Workspace: app/services/workspace/file_ops.py and the search of app/services/workspace/helpers.py,
--   the tree of items of the file backend. Count counts an id in a tree, Moves says what the
--   operations keep. An id is taken to name one node.
-- RateLimit: app/services/auth_rate_limit.py, the limiter of password resets, over readings of the
--   clock in whole seconds; RateLimit/Window counts the calls that pass.
-- Experience: app/services/workspace_experience.py, the display preference of a member and the
--   default of a workspace.
-- CalendarRange: app/services/calendar_range.py, the check of a calendar range. What Python's
--   datetime makes of a value is an argument.
-- Automation: app/services/automation, with the rows of app/models/automation.py. Automation.antt
--   has the rows and the normal forms of triggers, conditions and actions. Normal, Definition: the
--   checks of validation.py; Evaluate: its evaluate_conditions; Rules: repository.py, which asks
--   Definition and Permission, with the stored dicts in Stored. Events: events.py, how a change, a
--   schedule or a user queues an event, and Matching, the rules that an event is for. Scheduler:
--   scheduler.py. Services is the interface to the table store, the notifications and the change
--   log, whose calls return the session as they leave it, what they have committed themselves
--   included; a commit and a rollback of the session are functions of it. A run is handed a
--   session with nothing uncommitted. Actions, ActionLoop and Executor: executor.py, one run of a
--   rule for an event, with RowPermission asked before every update of a row. QueueRows and
--   Runtime: runtime.py, the rows that the worker writes and its cycle, with the creation and the
--   manual retry of executions from executor.py. A run starts with a commit (start_run) and ends
--   with another (run_started); a worker that dies in between leaves the first. Below them stand
--   the theorems: Normal/Bounds, Definition/Triggers, Writes and Limits, Rules/Identity and
--   Bounded, Events/Once and Chain, Scheduler/Advance, Executor/Results, Repeat, Cases, Retries,
--   Effects and Recipients, Runtime/Lifecycle (the states of an execution), Leases and Guarantee.
--
-- Fuel: permission_chain takes one round more than there are items, and no item is visited twice.
-- resolve_permission_for_item does not end in the source on a cycle of parents; on rows without
-- one, fuel above the rank of the item is enough. normalize_conditions counts the levels down from
-- nine, which is what the source's bound on the depth comes to.
--
-- Simplifications: reading the clock and generating an id are arguments. Fields are taken to have
-- an id where the code indexes f["id"]. str() of a list or an object is not spelled out. dict() of
-- a non-empty list raises in the model also where Python would take a list of pairs. Locks, SQL
-- transactions outside the executor, file encoding and templates are not modelled, nor are the
-- API, the AI services, the dashboards and the database backend. Of the automation engine the
-- previews, the pages of executions, the serializers and redact_sensitive are left out; its clock
-- is read once at the start of a run and once at its end, messages are not cut, float, datetime,
-- SHA-256 and time zones are arguments, and the race that a unique key settles inside a savepoint
-- does not occur.
pub mod Base
pub mod Json
pub mod Text
pub mod Permission
pub mod AutoNumber
pub mod Relation
pub mod RowPermission
pub mod TableStore
pub mod Workspace
pub mod RateLimit
pub mod Experience
pub mod CalendarRange
pub mod Automation
