-- ===== src/Permission.antt =====
-- Item permissions: app/services/workspace/permissions.py, over the workspace tables of
-- app/models/smart_table.py and app/models/workspace_member.py. A query is a filter of a list of
-- rows; `first()` is the first row that fits.
mod Tests
pub mod Order
pub mod Chain
pub mod Inherit
pub mod Walk
pub mod Agree
use qtable_server.Base.{
  ℕ, zero, suc, String, Bool, true, false, Option, none, some, List, [], ◌∷◌, ◌++◌, map, ◌&&◌, ◌||◌,
  ◌==◌, nat_eq, string_eq, if◌then◌else◌, length, filter, find, contains, Dict, lookup, has_key,
  insert,
}
use qtable_server.Base.Int.{ℤ, pos, negsuc, leb_ℤ}

-- `PERMISSION_ORDER.get(name, default)`
unfoldable pub permission_order : String → ℤ → ℤ
permission_order name default =
    if name == "read"
    then pos 0
    else if name == "update"
    then pos 1
    else if name == "edit"
    then pos 2
    else if name == "manage"
    then pos 3
    else default

-- `permission in PERMISSION_ORDER`
unfoldable pub in_permission_order : String → Bool
in_permission_order name = name == "read" || name == "update" || name == "edit" || name == "manage"

unfoldable pub normalize_permission : Option String → String
unfolding in_permission_order
normalize_permission none = "read"
normalize_permission (some permission) =
    if in_permission_order permission then permission else "read"

-- `None` and the empty text allow nothing.
unfoldable pub permission_allows : Option String → String → Bool
permission_allows none required = false
permission_allows (some current) required =
    if current == ""
    then false
    else leb_ℤ (permission_order required (pos 0)) (permission_order current (negsuc 0))

pub data WorkspaceRole : Type 0 where
  owner editor viewer : WorkspaceRole

unfoldable pub role_permission : WorkspaceRole → String
role_permission owner = "manage"
role_permission editor = "edit"
role_permission viewer = "read"

pub record WorkspaceItem : Type 0 where
  pub id : String
  pub workspace_id : String
  pub parent_id : Option String

pub record WorkspaceMember : Type 0 where
  pub user_id : ℕ
  pub workspace_id : String
  pub role : WorkspaceRole

pub record WorkspaceItemPermission : Type 0 where
  pub item_id : String
  pub user_id : ℕ
  pub permission : Option String

-- The three tables that the permission queries read.
pub record WorkspaceDb : Type 0 where
  pub items : List WorkspaceItem
  pub members : List WorkspaceMember
  pub permissions : List WorkspaceItemPermission

unfoldable pub get_workspace_member : WorkspaceDb → ℕ → String → Option WorkspaceMember
get_workspace_member db user_id workspace_id =
    find (λ m. m.user_id == user_id && m.workspace_id == workspace_id) db.members

-- `{row.item_id: normalize_permission(row.permission) for row in rows}`
unfoldable pub override_map : List WorkspaceItemPermission → Dict String → Dict String
override_map [] d = d
override_map (row ∷ rows) d =
    override_map rows (insert row.item_id (normalize_permission row.permission) d)

-- `select(WorkspaceItem).where(WorkspaceItem.id == item_id).limit(1)`
unfoldable pub find_item : WorkspaceDb → String → Option WorkspaceItem
find_item db item_id = find (λ i. i.id == item_id) db.items

-- The inner join with the items of the workspace.
unfoldable pub in_workspace : WorkspaceDb → String → WorkspaceItemPermission → Bool
in_workspace db workspace_id row =
    contains row.item_id (map (λ i. i.id) (filter (λ i. i.workspace_id == workspace_id) db.items))

unfoldable pub get_user_permission_overrides : WorkspaceDb → String → ℕ → Dict String
unfolding in_workspace override_map
get_user_permission_overrides db workspace_id user_id =
    override_map
      (filter (λ row. in_workspace db workspace_id row && row.user_id == user_id) db.permissions) []

-- `not text`: `None` and the empty text are false.
abbrev pub present : Option String → Option String
present none = none
present (some s) = if s == "" then none else some s

-- `parent_map.get(item_id)`: a missing key and a stored `None` are alike.
abbrev pub parent_of : Dict (Option String) → String → Option String
parent_of parent_map item_id = elim (lookup item_id parent_map) [ none ↦ none | some p ↦ present p ]

-- `memo[item_id] = result`
unfoldable pub remember : String → Option (String × Dict String) → Option (String × Dict String)
remember item_id none = none
remember item_id (some (permission, memo)) = some (permission, insert item_id permission memo)

-- The recursion of the code takes fuel: on a cycle of parents the source does not end.
unfoldable pub resolve_permission_for_item :
    ℕ
    → String
    → Dict (Option String)
    → Dict String
    → String
    → Dict String
    → Option (String × Dict String)
resolve_permission_for_item zero item_id parent_map overrides fallback memo = none
resolve_permission_for_item (suc fuel) item_id parent_map overrides fallback memo =
    elim (lookup item_id memo) [
      | some permission ↦ some (permission, memo)
      | none ↦ elim (lookup item_id overrides) [
        | some permission ↦ remember item_id (some (permission, memo))
        | none ↦ elim (parent_of parent_map item_id) [
          | none ↦ remember item_id (some (fallback, memo))
          | some parent_id ↦
              remember item_id
                (resolve_permission_for_item fuel parent_id parent_map overrides fallback memo)
        ]
      ]
    ]

-- The `while` loop of `get_effective_permission_for_item`: `none` is fuel that ran out.
unfoldable pub permission_chain :
    ℕ → WorkspaceDb → Option WorkspaceItem → List String → List String → Option (List String)
permission_chain zero db current seen chain = none
permission_chain (suc fuel) db none seen chain = some chain
permission_chain (suc fuel) db (some current) seen chain =
    let next = λ (parent_id : String).
      permission_chain fuel db (find_item db parent_id) (current.id ∷ seen)
        (chain ++ current.id ∷ []) in
    if contains current.id seen then some chain else elim (present current.parent_id) [
      | none ↦ some (chain ++ current.id ∷ [])
      | some parent_id ↦ next parent_id
    ]

-- `for cid in chain: if cid in overrides: return overrides[cid]`
unfoldable pub first_override : List String → Dict String → String → String
first_override [] overrides fallback = fallback
first_override (cid ∷ chain) overrides fallback = elim (lookup cid overrides) [
  | some permission ↦ permission
  | none ↦ first_override chain overrides fallback
]

unfoldable pub chain_overrides : WorkspaceDb → ℕ → List String → Dict String
unfolding override_map
chain_overrides db user_id chain =
    override_map
      (filter (λ row. row.user_id == user_id && contains row.item_id chain) db.permissions) []

-- The end of `get_effective_permission_for_item`, once the chain of ancestors is known.
unfoldable pub effective_over :
    WorkspaceDb → ℕ → WorkspaceMember → Option (List String) → Option String
effective_over db user_id member none = none
effective_over db user_id member (some chain) =
    some (first_override chain (chain_overrides db user_id chain) (role_permission member.role))

-- `get_effective_permission_for_item`. The loop visits each item once at most, so one round more
-- than there are items is enough fuel.
unfoldable pub get_effective_permission_for_item : WorkspaceDb → ℕ → String → Option String
unfolding find_item get_workspace_member
get_effective_permission_for_item db user_id item_id = elim (find_item db item_id) [
  | none ↦ none
  | some item ↦ elim (get_workspace_member db user_id item.workspace_id) [
    | none ↦ none
    | some member ↦
        effective_over db user_id member
          (permission_chain (suc (length db.items)) db (some item) [] [])
  ]
]
