-- ===== src/Permission/Chain.antt =====
-- The loop over an item's ancestors ends, on a cycle of parents too.
use qtable_server.Base.{
  ℕ, zero, suc, ◌≤◌, ◌<◌, String, false, not, some, List, [], ◌∷◌, ◌++◌, ◌≡◌, refl, inl, inr, arith,
  eq_iff, ◌==◌, string_eq, length, filter, find, contains, Bool-cases, Option-cases,
  length-filter-le,
}
use qtable_server.Permission.{
  WorkspaceItem, WorkspaceDb, find_item, permission_chain, present, WorkspaceMember,
  get_workspace_member, get_effective_permission_for_item, effective_over, first_override,
  chain_overrides, role_permission,
}

-- The rows that the loop has not met.
abbrev unseen : List String → List WorkspaceItem → ℕ
unseen seen items = length (filter (λ i. not (contains i.id seen)) items)

unseen-cons-le :
    (k : String) (seen : List String) (items : List WorkspaceItem)
    → unseen (k ∷ seen) items ≤ unseen seen items
unseen-cons-le k seen [] = omega arith
unseen-cons-le k seen (i ∷ items) = ground (arith, unseen-cons-le k seen items)

unseen-find :
    (k : String) (seen : List String) (items : List WorkspaceItem) (c : WorkspaceItem)
    → find (λ i. i.id == k) items ≡ some c
    → contains c.id seen ≡ false
    → unseen (c.id ∷ seen) items < unseen seen items
unseen-find k seen [] c f h = cc
unseen-find k seen (i ∷ items) c f h = ground (
  arith,
  eq_iff i.id i.id,
  eq_iff c.id i.id,
  eq_iff i.id c.id,
  unseen-cons-le c.id seen items,
  unseen-find k seen items c,
)

unseen-find_item :
    (db : WorkspaceDb) (k : String) (seen : List String) (c : WorkspaceItem)
    → find_item db k ≡ some c
    → contains c.id seen ≡ false
    → unseen (c.id ∷ seen) db.items < unseen seen db.items
unfolding find_item
unseen-find_item db k seen c found fresh = unseen-find k seen db.items c found fresh

-- With more fuel than there are rows left to meet, the loop returns a chain.
pub chain_returns :
    (fuel : ℕ) (db : WorkspaceDb) (k : String) (seen chain : List String)
    → unseen seen db.items < fuel
    → (out : List String) × (permission_chain fuel db (find_item db k) seen chain ≡ some out)
unfolding permission_chain
chain_returns zero db k seen chain h = elim h [ ]
chain_returns (suc fuel) db k seen chain h = elim (Option-cases (find_item db k)) [
  | inl gone ↦ rw gone (chain, refl)
  | inr (c, found) ↦ rw found (elim (Bool-cases (contains c.id seen)) [
    | inl met ↦ rw met (chain, refl)
    | inr fresh ↦ elim (Option-cases (present c.parent_id)) [
      | inl root ↦ rw fresh (rw root (chain ++ c.id ∷ [], refl))
      | inr (p, up) ↦ rw fresh (
          rw up (
            chain_returns fuel db p (c.id ∷ seen) (chain ++ c.id ∷ [])
              (omega (arith, unseen-find_item db k seen c found fresh))))
    ]
  ])
]

-- The effective permission of a member on an item that exists is always found, whatever the
-- parents are: a cycle of parents ends the loop and does not hang it.
pub get_effective-total :
    (db : WorkspaceDb) (user_id : ℕ) (item_id : String) (item : WorkspaceItem)
    (member : WorkspaceMember)
    → find_item db item_id ≡ some item
    → get_workspace_member db user_id item.workspace_id ≡ some member
    → (p : String) × (get_effective_permission_for_item db user_id item_id ≡ some p)
unfolding get_effective_permission_for_item effective_over
get_effective-total db user_id item_id item member found joined =
    let walk =
      chain_returns (suc (length db.items)) db item_id [] []
        (omega (arith, length-filter-le (λ i. not (contains i.id [])) db.items)) in
    (
      first_override walk.0 (chain_overrides db user_id walk.0) (role_permission member.role),
      ground (arith, walk.1),
    )
