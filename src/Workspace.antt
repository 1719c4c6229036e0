-- ===== src/Workspace.antt =====
-- The workspace tree of the file backend: app/services/workspace/file_ops.py and the search of
-- app/services/workspace/helpers.py. A node that the code mutates in place is the first one that
-- the search finds; an id is taken to name one node, so that a node which the code looked up is
-- still the one found after another has been detached. Reading the clock for an id is an argument,
-- and the data files of tables and dashboards are not part of the tree.
pub mod Count
pub mod Moves
mod Tests
use qtable_server.Base.{
  String, Bool, true, false, not, Option, none, some, ◌==◌, string_eq, if◌then◌else◌, ◌||◌, ◌&&◌,
}
use qtable_server.Base.Result.{Result, ok, err}

-- A dashboard has children only where a table was copied below it, and no search looks there.
mutual
  pub data Node : Type 0 where
    folder : String → String → Nodes → Node
    table : String → String → String → Node
    dashboard : String → String → Nodes → Node

  pub data Nodes : Type 0 where
    nil : Nodes
    cons : Node → Nodes → Nodes

pub record Workspace : Type 0 where
  pub root_id : String
  pub root_name : String
  pub children : Nodes

abbrev pub node_id : Node → String
node_id (folder id name children) = id
node_id (table id name view) = id
node_id (dashboard id name children) = id

-- The search goes into folders.
abbrev pub inside : Node → Nodes
inside (folder id name children) = children
inside _ = nil

abbrev pub or_else : Option Node → Option Node → Option Node
or_else (some c) later = some c
or_else none later = later

unfoldable mutual
  -- `_find_node`
  pub find_node : Nodes → String → Option Node
  find_node nil id = none
  find_node (cons c rest) id =
      let below = find_inside c id in
      let later = find_node rest id in if node_id c == id then some c else or_else below later

  pub find_inside : Node → String → Option Node
  find_inside (folder i name children) id = find_node children id
  find_inside (table i name view) id = none
  find_inside (dashboard i name children) id = none

-- The list behind a change in its first node, or in the nodes after it.
abbrev pub changed : Option Node → Node → Nodes → Option Nodes → Option Nodes
changed (some c') c rest later = some (cons c' rest)
changed none c rest none = none
changed none c rest (some rest') = some (cons c rest')

abbrev pub with_children : String → String → Option Nodes → Option Node
with_children id name none = none
with_children id name (some children) = some (folder id name children)

-- A change of the node that `_find_node` returns, seen in the tree.
unfoldable mutual
  pub update_node : (Node → Node) → Nodes → String → Option Nodes
  update_node f nil id = none
  update_node f (cons c rest) id =
      let below = update_inside f c id in
      let later = update_node f rest id in
      if node_id c == id then some (cons (f c) rest) else changed below c rest later

  pub update_inside : (Node → Node) → Node → String → Option Node
  update_inside f (folder i name children) id = with_children i name (update_node f children id)
  update_inside f (table i name view) id = none
  update_inside f (dashboard i name children) id = none

abbrev pub kept_apart :
    Option (Node × Node) → Node → Nodes → Option (Node × Nodes) → Option (Node × Nodes)
kept_apart (some (n, c')) c rest later = some (n, cons c' rest)
kept_apart none c rest none = none
kept_apart none c rest (some (n, rest')) = some (n, cons c rest')

abbrev pub folder_without : String → String → Option (Node × Nodes) → Option (Node × Node)
folder_without id name none = none
folder_without id name (some (n, children)) = some (n, folder id name children)

-- `_find_parent(...).remove(_find_node(...))`: the node, and the tree without it.
unfoldable mutual
  pub detach : Nodes → String → Option (Node × Nodes)
  detach nil id = none
  detach (cons c rest) id =
      let below = detach_inside c id in
      let later = detach rest id in
      if node_id c == id then some (c, rest) else kept_apart below c rest later

  pub detach_inside : Node → String → Option (Node × Node)
  detach_inside (folder i name children) id = folder_without i name (detach children id)
  detach_inside (table i name view) id = none
  detach_inside (dashboard i name children) id = none

-- `[c for c in parent_children if c.get("id") != item_id]`
unfoldable pub drop_id : String → Nodes → Nodes
drop_id id nil = nil
drop_id id (cons c rest) = if node_id c == id then drop_id id rest else cons c (drop_id id rest)

-- The list that `_find_parent` returns loses every node with the id.
unfoldable mutual
  pub delete_node : Nodes → String → Option Nodes
  delete_node nil id = none
  delete_node (cons c rest) id =
      let below = delete_inside c id in
      let later = delete_node rest id in
      if node_id c == id then some (drop_id id rest) else changed below c rest later

  pub delete_inside : Node → String → Option Node
  delete_inside (folder i name children) id = with_children i name (delete_node children id)
  delete_inside (table i name view) id = none
  delete_inside (dashboard i name children) id = none

abbrev pub snoc : Nodes → Node → Nodes
snoc nil n = cons n nil
snoc (cons c rest) n = cons c (snoc rest n)

-- `parent.setdefault("children", []).append(node)`; no operation appends to a table.
unfoldable pub append_child : Node → Node → Node
append_child n (folder id name children) = folder id name (snoc children n)
append_child n (table id name view) = table id name view
append_child n (dashboard id name children) = dashboard id name (snoc children n)

unfoldable pub set_name : String → Node → Node
set_name name (folder id old children) = folder id name children
set_name name (table id old view) = table id name view
set_name name (dashboard id old children) = dashboard id name children

-- `parent.get("type") in {"table", "dashboard"}` refuses, in all operations but one.
abbrev pub is_folder : Node → Bool
is_folder (folder id name children) = true
is_folder _ = false

abbrev pub is_table : Node → Bool
is_table (table id name view) = true
is_table _ = false

abbrev pub is_dashboard : Node → Bool
is_dashboard (dashboard id name children) = true
is_dashboard _ = false

abbrev pub fits : (Node → Bool) → Option Node → Bool
fits p none = false
fits p (some n) = p n

-- The root has no type, and takes every child.
abbrev pub takes_child : (Node → Bool) → Workspace → String → Bool
takes_child p ws parent_id = ws.root_id == parent_id || fits p (find_node ws.children parent_id)

abbrev or_same : Nodes → Option Nodes → Nodes
or_same children none = children
or_same children (some changed_children) = changed_children

-- The tree after a child was appended; a parent that is not in the tree changes nothing in it.
unfoldable pub add_child : Workspace → String → Node → Workspace
add_child ws parent_id n =
    if ws.root_id == parent_id then record ws { children = snoc ws.children n } else record ws {
      children = or_same ws.children (update_node (append_child n) ws.children parent_id);
    }

-- `workspace_id and workspace_id != "wkbDefault"` refuses.
unfoldable pub is_default_workspace : Option String → Bool
is_default_workspace none = true
is_default_workspace (some id) = id == "" || id == "wkbDefault"

pub data WorkspaceError : Type 0 where
  invalid_workspace invalid_parent : WorkspaceError

-- The part that the three creations share.
unfoldable pub create_item :
    Workspace → Node → String → Option String → Result WorkspaceError (Workspace × Node)
create_item ws n parent_id workspace_id =
    if not (is_default_workspace workspace_id)
    then err invalid_workspace
    else if takes_child is_folder ws parent_id
    then ok (add_child ws parent_id n, n)
    else err invalid_parent

abbrev pub create_folder :
    Workspace → String → String → String → Option String → Result WorkspaceError (Workspace × Node)
create_folder ws new_id name parent_id workspace_id =
    create_item ws (folder new_id name nil) parent_id workspace_id

abbrev pub create_table :
    Workspace
    → String
    → String
    → String
    → String
    → Option String
    → Result WorkspaceError (Workspace × Node)
create_table ws new_id name parent_id default_view_id workspace_id =
    create_item ws (table new_id name default_view_id) parent_id workspace_id

abbrev pub create_dashboard :
    Workspace → String → String → String → Option String → Result WorkspaceError (Workspace × Node)
create_dashboard ws new_id name parent_id workspace_id =
    create_item ws (dashboard new_id name nil) parent_id workspace_id

abbrev pub saved : Workspace → Option Nodes → Workspace × Bool
saved ws none = (ws, false)
saved ws (some children) = (record ws { children = children }, true)

unfoldable pub rename_item : Workspace → String → String → Option String → Workspace × Bool
rename_item ws item_id name workspace_id =
    if not (is_default_workspace workspace_id)
    then (ws, false)
    else if ws.root_id == item_id
    then (record ws { root_name = name }, true)
    else saved ws (update_node (set_name name) ws.children item_id)

unfoldable pub delete_item : Workspace → String → Option String → Workspace × Bool
delete_item ws item_id workspace_id =
    if not (is_default_workspace workspace_id)
    then (ws, false)
    else saved ws (delete_node ws.children item_id)

-- The end of `move_item`: the node is removed from its list and appended to the new parent, which
-- was looked up before.
unfoldable pub reattach : Workspace → String → Option (Node × Nodes) → Workspace × Bool
reattach ws new_parent_id none = (ws, false)
reattach ws new_parent_id (some (n, rest)) =
    (add_child (record ws { children = rest }) new_parent_id n, true)

unfoldable pub move_item : Workspace → String → String → Option String → Workspace × Bool
move_item ws item_id new_parent_id workspace_id =
    if not (is_default_workspace workspace_id)
    then (ws, false)
    else if takes_child is_folder ws new_parent_id
    then reattach ws new_parent_id (detach ws.children item_id)
    else (ws, false)

-- `new_name or f"{name} Copy"`, given the name that the node has.
abbrev copy_name : Option String → String → String
copy_name none copied = copied
copy_name (some name) copied = if name == "" then copied else name

abbrev view_of : Option Node → String
view_of (some (table id name view)) = view
view_of _ = "v1"

-- `copied_name` is the name of the node with " Copy" behind it. A dashboard is taken as the parent.
unfoldable pub copy_table :
    Workspace
    → String
    → String
    → String
    → Option String
    → String
    → Option String
    → Workspace × Option Node
copy_table ws new_id table_id new_parent_id new_name copied_name workspace_id =
    let node = find_node ws.children table_id in
    let copy = table new_id (copy_name new_name copied_name) (view_of node) in
    if is_default_workspace workspace_id
      && fits is_table node
      && takes_child (λ n. not (is_table n)) ws new_parent_id
    then (add_child ws new_parent_id copy, some copy)
    else (ws, none)

unfoldable pub copy_dashboard :
    Workspace
    → String
    → String
    → String
    → Option String
    → String
    → Option String
    → Workspace × Option Node
copy_dashboard ws new_id dashboard_id new_parent_id new_name copied_name workspace_id =
    let copy = dashboard new_id (copy_name new_name copied_name) nil in
    if is_default_workspace workspace_id
      && fits is_dashboard (find_node ws.children dashboard_id)
      && takes_child is_folder ws new_parent_id
    then (add_child ws new_parent_id copy, some copy)
    else (ws, none)
