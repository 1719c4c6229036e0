-- ===== src/Workspace/Tests.antt =====
-- The workspace theorems at a small tree.
use qtable_server.Base.{◌+◌, true, none, some, ◌≡◌, refl, string_eq}
use qtable_server.Base.Result.{ok}
use qtable_server.Workspace.{
  Node, folder, table, Nodes, nil, cons, Workspace, find_node, update_node, detach, append_child,
  add_child, create_item, create_folder, move_item, reattach, delete_item, delete_node, drop_id,
  is_default_workspace, takes_child, is_folder,
}
use qtable_server.Workspace.Count.{count, node_count}
use qtable_server.Workspace.Moves.{move_item-count, move_item-lost}

-- Two folders, one with a table and a folder inside it.
abbrev plans : Node
plans = folder "plans" "Plans" (cons (table "t1" "Tasks" "v1") (cons (folder "old" "Old" nil) nil))

abbrev others : Nodes
others = cons (folder "team" "Team" nil) nil

abbrev home : Workspace
home = record { root_id = "root"; root_name = "Root"; children = cons plans others }

t1_in_team :
    (move_item home "t1" "team" none).0.children
    ≡ cons
        (folder "plans" "Plans" (cons (folder "old" "Old" nil) nil))
        (cons (folder "team" "Team" (cons (table "t1" "Tasks" "v1") nil)) nil)
unfolding move_item reattach detach add_child update_node append_child find_node
    is_default_workspace
t1_in_team = refl

t1_deleted : (delete_item home "t1" (some "wkbDefault")).1 ≡ true
unfolding delete_item delete_node drop_id is_default_workspace
t1_deleted = refl

abbrev without_t1 : Nodes
without_t1 = cons (folder "plans" "Plans" (cons (folder "old" "Old" nil) nil)) others

t1_detached : detach home.children "t1" ≡ some (table "t1" "Tasks" "v1", without_t1)
unfolding detach
t1_detached = refl

team_takes : takes_child is_folder (record home { children = without_t1 }) "team" ≡ true
unfolding find_node
team_takes = refl

move_item-count_example :
    count "t1" (move_item home "t1" "team" none).0.children ≡ count "t1" home.children
move_item-count_example =
    move_item-count home "t1" "team" none (table "t1" "Tasks" "v1") without_t1 "t1" t1_detached
      team_takes

plans_detached : detach home.children "plans" ≡ some (plans, others)
unfolding detach
plans_detached = refl

old_takes : takes_child is_folder home "old" ≡ true
unfolding find_node
old_takes = refl

old_gone : find_node others "old" ≡ none
unfolding find_node
old_gone = refl

move_item-lost_example :
    ((move_item home "plans" "old" none).1 ≡ true)
    × (count "t1" (move_item home "plans" "old" none).0.children + node_count "t1" plans
        ≡ count "t1" home.children)
move_item-lost_example =
    move_item-lost home "plans" "old" plans others "t1" plans_detached old_takes refl old_gone

abbrev with_new : Workspace
with_new = record home {
  children = cons plans (cons (folder "team" "Team" (cons (folder "fld9" "New" nil) nil)) nil);
}

new_created : create_folder home "fld9" "New" "team" none ≡ ok (with_new, folder "fld9" "New" nil)
unfolding create_item add_child update_node append_child find_node is_default_workspace
new_created = refl
