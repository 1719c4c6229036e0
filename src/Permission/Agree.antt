-- ===== src/Permission/Agree.antt =====
-- The two routines that resolve an inherited permission return the same answer.
use qtable_server.Base.{ℕ, suc, ◌<◌, String, Option, none, some, [], ◌≡◌, ◌≢◌, ap, ◌∙◌, arith, Dict}
use qtable_server.Permission.{
  WorkspaceItem, WorkspaceDb, WorkspaceMember, find_item, get_workspace_member, parent_of,
  get_effective_permission_for_item, resolve_permission_for_item, role_permission,
}
use qtable_server.Permission.Inherit.{Resolves-unique, IsSound, resolve_sound}
use qtable_server.Permission.Walk.{parents_of, user_overrides, get_effective-Resolves}

pub IsSound-empty :
    (parents : Dict (Option String)) (overrides : Dict String) (fallback : String)
    → IsSound parents overrides fallback []
IsSound-empty parents overrides fallback = record { at_key = λ i p h. cc }

-- On rows whose parents exist and have no cycle, the walk up the rows and the memoised recursion
-- over the map of parents return the same permission.
pub get_effective-resolve :
    (db : WorkspaceDb) (rank : String → ℕ)
    → ((i j : String) → parent_of (parents_of db.items) i ≡ some j → rank j < rank i)
    → ((i j : String) → parent_of (parents_of db.items) i ≡ some j → find_item db j ≢ none)
    → (user_id : ℕ) (item_id : String) (item : WorkspaceItem) (member : WorkspaceMember)
    → find_item db item_id ≡ some item
    → get_workspace_member db user_id item.workspace_id ≡ some member
    → (p : String) × (memo : Dict String) × (get_effective_permission_for_item db user_id item_id
        ≡ some p)
      × (resolve_permission_for_item
            (suc (rank item_id))
            item_id
            (parents_of db.items)
            (user_overrides db user_id)
            (role_permission member.role)
            []
          ≡ some (p, memo))
get_effective-resolve db rank down closed user_id item_id item member found joined =
    let (p, walked, means) =
      get_effective-Resolves db rank down closed user_id item_id item member found joined in
    let (q, memo, returned, means', sound) =
      resolve_sound (parents_of db.items) (user_overrides db user_id) (role_permission member.role)
        rank down (suc (rank item_id)) item_id [] (omega arith)
        (IsSound-empty (parents_of db.items) (user_overrides db user_id)
          (role_permission member.role)) in
    (p, memo, walked, returned ∙ ap (λ x. some (x, memo)) (Resolves-unique means' means))
