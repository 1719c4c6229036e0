-- ===== src/Permission/Tests.antt =====
-- The permission theorems at a small workspace.
use qtable_server.Base.{
  ℕ, suc, ◌<◌, String, none, some, [], ◌∷◌, ◌≡◌, ◌≢◌, refl, arith, eq_iff, ◌==◌, string_eq,
  if◌then◌else◌, Dict,
}
use qtable_server.Permission.{
  WorkspaceItem, WorkspaceDb, WorkspaceMember, viewer, find_item, get_workspace_member, parent_of,
  get_effective_permission_for_item, resolve_permission_for_item, role_permission, override_map,
  permission_chain, effective_over, first_override, chain_overrides, normalize_permission,
  in_permission_order,
}
use qtable_server.Permission.Chain.{get_effective-total}
use qtable_server.Permission.Walk.{parents_of, user_overrides, get_effective-Resolves}
use qtable_server.Permission.Inherit.{Resolves, Answers, resolve_sound}
use qtable_server.Permission.Agree.{IsSound-empty, get_effective-resolve}

-- A folder that user 7 may edit, and a table inside it.
abbrev office : WorkspaceDb
office = record {
  items =
      record { id = "folder"; workspace_id = "w"; parent_id = none }
      ∷ record { id = "table"; workspace_id = "w"; parent_id = some "folder" }
      ∷ [];
  members = record { user_id = 7; workspace_id = "w"; role = viewer } ∷ [];
  permissions = record { item_id = "folder"; user_id = 7; permission = some "edit" } ∷ [];
}

abbrev table_item : WorkspaceItem
table_item = record { id = "table"; workspace_id = "w"; parent_id = some "folder" }

abbrev guest : WorkspaceMember
guest = record { user_id = 7; workspace_id = "w"; role = viewer }

abbrev depth : String → ℕ
depth i = if i == "table" then 1 else 0

edit_from_folder : get_effective_permission_for_item office 7 "table" ≡ some "edit"
unfolding get_effective_permission_for_item find_item get_workspace_member permission_chain
    effective_over first_override chain_overrides override_map normalize_permission
    in_permission_order
edit_from_folder = refl

depth-falls : (i j : String) → parent_of (parents_of office.items) i ≡ some j → depth j < depth i
unfolding parents_of
depth-falls i j h =
    ground (arith, eq_iff j "table", eq_iff i "table", eq_iff "table" i, eq_iff j "folder")

parents-found :
    (i j : String) → parent_of (parents_of office.items) i ≡ some j → find_item office j ≢ none
unfolding parents_of find_item
parents-found i j h = ground (arith, eq_iff j "folder", eq_iff "folder" j)

table-found : find_item office "table" ≡ some table_item
unfolding find_item
table-found = refl

guest-joined : get_workspace_member office 7 "w" ≡ some guest
unfolding get_workspace_member
guest-joined = refl

get_effective-total_example :
    (p : String) × (get_effective_permission_for_item office 7 "table" ≡ some p)
get_effective-total_example =
    get_effective-total office 7 "table" table_item guest table-found guest-joined

get_effective-Resolves_example :
    (p : String) × (get_effective_permission_for_item office 7 "table" ≡ some p)
    × Resolves
        (parents_of office.items)
        (user_overrides office 7)
        (role_permission viewer)
        "table"
        p
get_effective-Resolves_example =
    get_effective-Resolves office depth depth-falls parents-found 7 "table" table_item guest
      table-found guest-joined

get_effective-resolve_example :
    (p : String) × (memo : Dict String) × (get_effective_permission_for_item office 7 "table"
      ≡ some p)
    × (resolve_permission_for_item
          (suc (depth "table"))
          "table"
          (parents_of office.items)
          (user_overrides office 7)
          (role_permission viewer)
          []
        ≡ some (p, memo))
get_effective-resolve_example =
    get_effective-resolve office depth depth-falls parents-found 7 "table" table_item guest
      table-found guest-joined

resolve_sound_example :
    Answers (parents_of office.items) (user_overrides office 7) (role_permission viewer) "table" (
      resolve_permission_for_item 2 "table"
        (parents_of office.items)
        (user_overrides office 7)
        (role_permission viewer)
        [])
resolve_sound_example =
    resolve_sound (parents_of office.items) (user_overrides office 7) (role_permission viewer) depth
      depth-falls 2 "table" [] (omega arith)
      (IsSound-empty (parents_of office.items) (user_overrides office 7) (role_permission viewer))
