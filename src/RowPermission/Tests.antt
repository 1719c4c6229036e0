-- ===== src/RowPermission/Tests.antt =====
-- The row permission theorems at a small table.
use qtable_server.Base.{
  String, true, false, none, some, [], ◌∷◌, ◌++◌, ◌≡◌, refl, Dict, filter, ◌==◌, string_eq, nat_eq,
  if◌then◌else◌, All,
}
use qtable_server.Base.Result.{ok}
use qtable_server.Json.{Json, str, arr, obj, dict_members, list_items, get, truthy}
use qtable_server.Text.{strip, lstrip, rstrip, lower_eq, is_space}
use qtable_server.Permission.{
  viewer, permission_allows, permission_order, get_effective_permission_for_item, find_item,
  get_workspace_member, permission_chain, effective_over, first_override, chain_overrides,
  override_map, role_permission,
}
use qtable_server.Relation.{is_relation_field, get_target_table_id, get_relation_property}
use qtable_server.RowPermission.{
  RowDb, TableRecord, Policy, policy_dict, get_row_permission_policy, set_row_permission_policy,
  record_is_visible, allowed_record_ids, row_permission_restricts_user, text_of, normalize_mode,
  checked_member_field, save_policy, write_policy, or_raise,
}
use qtable_server.RowPermission.Access.{
  readable_targets, require_record_access, grant, field_id_of, sanitize_relation_values_for_user,
}
use qtable_server.RowPermission.Rules.{IsAsked, get-set_row_permission_policy}
use qtable_server.RowPermission.Visible.{require_record_access-without_hidden, without_hidden}
use qtable_server.RowPermission.Mask.{shown_ids}
use qtable_server.RowPermission.Sanitize.{is_readable, sanitize-readable}

abbrev mine : TableRecord
mine = record { table_id = "t2"; id = "r1"; created_by_user_id = some 7; row_data = [] }

abbrev theirs : TableRecord
theirs = record { table_id = "t2"; id = "r2"; created_by_user_id = some 8; row_data = [] }

-- A table in which user 7, a viewer, sees the rows that she created.
abbrev db : RowDb
db = record {
  workspace = record {
    items = record { id = "t2"; workspace_id = "w"; parent_id = none } ∷ [];
    members = record { user_id = 7; workspace_id = "w"; role = viewer } ∷ [];
    permissions = [];
  };
  policies = record { table_id = "t2"; mode = "creator"; member_field_id = none } ∷ [];
  fields = [];
  records = mine ∷ theirs ∷ [];
}

abbrev creator_policy : Policy
creator_policy = record { mode = "creator"; member_field_id = none; enabled = true }

abbrev link_field : Dict Json
link_field =
    ("id", str "f1")
    ∷ ("type", str "relation")
    ∷ ("property", obj (dict_members (("targetTableId", str "t2") ∷ [])))
    ∷ []

abbrev linked : Dict Json
linked = ("id", str "a1") ∷ ("f1", arr (list_items (str "r1" ∷ str "r2" ∷ []))) ∷ []

own_row_only : readable_targets db 7 "t2" ≡ some ("r1" ∷ [])
unfolding readable_targets get_effective_permission_for_item find_item get_workspace_member
    permission_chain effective_over first_override chain_overrides override_map role_permission
    permission_allows permission_order get_row_permission_policy policy_dict
    row_permission_restricts_user allowed_record_ids record_is_visible
own_row_only = refl

mine_granted : require_record_access db "t2" "r1" 7 (some "read") ≡ ok mine
unfolding require_record_access grant record_is_visible permission_allows permission_order
    get_row_permission_policy policy_dict
mine_granted = refl

abbrev opened : RowDb
opened = record db {
  policies = record { table_id = "t2"; mode = "all"; member_field_id = none } ∷ [];
}

abbrev open_policy : Policy
open_policy = record { mode = "all"; member_field_id = none; enabled = false }

open_set : set_row_permission_policy db "t2" " all" (some "f9") ≡ ok (opened, open_policy)
unfolding set_row_permission_policy normalize_mode checked_member_field save_policy write_policy
    or_raise policy_dict strip lstrip rstrip is_space lower_eq
open_set = refl

get-set_row_permission_policy_example :
    IsAsked db "t2" " all" (some "f9") open_policy
    × (get_row_permission_policy opened "t2"
        ≡ (if ◌==◌ {A = String} "t2" "t2" then open_policy else get_row_permission_policy db "t2"))
get-set_row_permission_policy_example =
    get-set_row_permission_policy db "t2" " all" (some "f9") opened open_policy "t2" open_set

manager_unrestricted : row_permission_restricts_user creator_policy (some "manage") ≡ false
unfolding row_permission_restricts_user permission_allows permission_order
manager_unrestricted = refl

require_record_access-without_hidden_example :
    require_record_access db "t2" "r2" 7 (some "read")
    ≡ require_record_access (without_hidden db "t2" 7 (some "read")) "t2" "r2" 7 (some "read")
require_record_access-without_hidden_example =
    require_record_access-without_hidden db "t2" "r2" 7 (some "read") (refl, (refl, tt))

link_field-is_relation : is_relation_field link_field ≡ true
unfolding is_relation_field lower_eq
link_field-is_relation = refl

link_field-named : (field_id_of link_field == "") ≡ false
unfolding field_id_of text_of truthy
link_field-named = refl

link_field-target : get_target_table_id link_field ≡ "t2"
unfolding get_target_table_id get_relation_property strip lstrip rstrip is_space
link_field-target = refl

link_field-targeted : (get_target_table_id link_field == "") ≡ false
link_field-targeted = rw link_field-target refl

only_link_field : filter is_relation_field (link_field ∷ []) ≡ [] ++ link_field ∷ []
only_link_field = rw link_field-is_relation refl

sanitize-readable_example :
    All
      (λ rec.
        All
          (λ id. is_readable db 7 (get_target_table_id link_field) (text_of id) ≡ true)
          (shown_ids (get (field_id_of link_field) rec)))
      (sanitize_relation_values_for_user db (link_field ∷ []) (linked ∷ []) 7)
sanitize-readable_example =
    sanitize-readable db (link_field ∷ []) (linked ∷ []) 7 [] link_field [] ("r1" ∷ [])
      only_link_field link_field-is_relation link_field-named tt link_field-targeted
      (rw link_field-target own_row_only)
