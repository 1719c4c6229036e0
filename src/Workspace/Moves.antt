-- ===== src/Workspace/Moves.antt =====
-- What the operations of the workspace tree keep (app/services/workspace/file_ops.py).
use qtable_server.Base.{
  ◌+◌, String, Bool, true, false, Option, none, some, ◌≡◌, refl, sym, ap, ◌∙◌, arith, inl, inr,
  ◌==◌, string_eq, Bool-cases, Option-cases,
}
use qtable_server.Base.Result.{ok, ok_inj}
use qtable_server.Workspace.{
  Node, folder, table, dashboard, Nodes, Workspace, find_node, detach, append_child, is_folder,
  is_table, takes_child, add_child, create_item, move_item, reattach, is_default_workspace,
  set_name, rename_item,
}
use qtable_server.Workspace.Count.{
  count, node_count, count-snoc, append_child-count, update_node-count, update_node-absent,
  detach-count,
}

-- Appending a node below a parent that takes it adds its ids to the tree.
add_child-count :
    (k : String) (p : Node → Bool) (ws : Workspace) (parent_id : String) (n : Node)
    → ((c : Node) → p c ≡ true → is_table c ≡ false)
    → takes_child p ws parent_id ≡ true
    → count k (add_child ws parent_id n).children ≡ count k ws.children + node_count k n
unfolding add_child
add_child-count k p ws parent_id n no_table takes = elim (Bool-cases (ws.root_id == parent_id)) [
  | inl at_root ↦ rw at_root (count-snoc k ws.children n)
  | inr below ↦ elim (Option-cases (find_node ws.children parent_id)) [
    | inl gone ↦ absurd (cc (rw (below, gone) at takes))
    | inr (c, found) ↦
        let (cs', e, grown) =
          update_node-count k (append_child n) (node_count k n) ws.children parent_id c found
            (append_child-count k n c (no_table c (rw (below, found) at takes))) in
        rw below (rw e grown)
  ]
]

folder_no_table : (c : Node) → is_folder c ≡ true → is_table c ≡ false
folder_no_table (folder id name cs) h = refl
folder_no_table (table id name v) h = cc
folder_no_table (dashboard id name cs) h = refl

-- A creation that returns adds the new node to the tree and takes none away: every id occurs as
-- often as before, and once more where it is the new node's.
pub create_item-count :
    (ws ws' : Workspace) (n n' : Node) (parent_id : String) (workspace_id : Option String)
    (k : String)
    → create_item ws n parent_id workspace_id ≡ ok (ws', n')
    → (n' ≡ n) × (count k ws'.children ≡ count k ws.children + node_count k n)
unfolding create_item
create_item-count ws ws' n n' parent_id workspace_id k h =
    elim (Bool-cases (is_default_workspace workspace_id)) [
      | inr other ↦ absurd (cc (rw other at h))
      | inl ours ↦ elim (Bool-cases (takes_child is_folder ws parent_id)) [
        | inr refused ↦ absurd (cc (rw (ours, refused) at h))
        | inl accepted ↦
            let made : (add_child ws parent_id n, n) ≡ (ws', n') =
              ok_inj (rw (ours, accepted) at h) in
            (
              sym (ap (λ p. p.1) made),
              sym (ap (λ p. count k p.0.children) made)
                  ∙ add_child-count k is_folder ws parent_id n folder_no_table accepted,
            )
      ]
    ]

-- Moving an item to a parent that is the root, or a folder outside the moved item, keeps every
-- node: each id occurs in the tree as often as before.
pub move_item-count :
    (ws : Workspace) (item_id new_parent_id : String) (workspace_id : Option String) (n : Node)
    (rest : Nodes) (k : String)
    → detach ws.children item_id ≡ some (n, rest)
    → takes_child is_folder (record ws { children = rest }) new_parent_id ≡ true
    → count k (move_item ws item_id new_parent_id workspace_id).0.children ≡ count k ws.children
unfolding move_item reattach
move_item-count ws item_id new_parent_id workspace_id n rest k found takes =
    elim (Bool-cases (is_default_workspace workspace_id)) [
      | inr other ↦ rw other refl
      | inl ours ↦ elim (Bool-cases (takes_child is_folder ws new_parent_id)) [
        | inr refused ↦ rw (ours, refused) refl
        | inl accepted ↦
            rw (ours, accepted)
              (rw found (
                add_child-count k is_folder (record ws { children = rest }) new_parent_id n
                  folder_no_table takes
                ∙ sym (detach-count k ws.children item_id n rest found)))
      ]
    ]

-- Moving an item to a folder inside itself takes the item and all that is below it out of the
-- tree, and reports success: the new parent is accepted, and is not in the tree that is left.
pub move_item-lost :
    (ws : Workspace) (item_id new_parent_id : String) (n : Node) (rest : Nodes) (k : String)
    → detach ws.children item_id ≡ some (n, rest)
    → takes_child is_folder ws new_parent_id ≡ true
    → (ws.root_id == new_parent_id) ≡ false
    → find_node rest new_parent_id ≡ none
    → ((move_item ws item_id new_parent_id none).1 ≡ true)
      × (count k (move_item ws item_id new_parent_id none).0.children + node_count k n
          ≡ count k ws.children)
unfolding move_item reattach is_default_workspace add_child
move_item-lost ws item_id new_parent_id n rest k found accepted below gone =
    rw (accepted, found)
      (rw below (
        rw (update_node-absent (append_child n) rest new_parent_id gone)
          (refl, sym (detach-count k ws.children item_id n rest found))))

set_name-count : (k name : String) (c : Node) → node_count k (set_name name c) ≡ node_count k c + 0
unfolding set_name node_count
set_name-count k name (folder id old cs) = omega arith
set_name-count k name (table id old v) = omega arith
set_name-count k name (dashboard id old cs) = omega arith

-- Renaming keeps every node where it is: each id occurs as often as before.
pub rename_item-count :
    (ws : Workspace) (item_id name : String) (workspace_id : Option String) (k : String)
    → count k (rename_item ws item_id name workspace_id).0.children ≡ count k ws.children
unfolding rename_item
rename_item-count ws item_id name workspace_id k =
    elim (Bool-cases (is_default_workspace workspace_id)) [
      | inr other ↦ rw other refl
      | inl ours ↦ elim (Bool-cases (ws.root_id == item_id)) [
        | inl root ↦ rw (ours, root) refl
        | inr below ↦ elim (Option-cases (find_node ws.children item_id)) [
          | inl gone ↦
              rw (ours, below, update_node-absent (set_name name) ws.children item_id gone) refl
          | inr (c, found) ↦
              let (cs', e, same) =
                update_node-count k (set_name name) 0 ws.children item_id c found
                  (set_name-count k name c) in
              let back : count k cs' ≡ count k ws.children = omega (arith, same) in
              rw (ours, below, e) back
        ]
      ]
    ]
