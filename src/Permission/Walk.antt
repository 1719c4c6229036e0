-- ===== src/Permission/Walk.antt =====
-- The walk up the rows, `get_effective_permission_for_item`, computes what inheritance means.
use qtable_server.Base.{
  ℕ, zero, suc, ◌<◌, String, true, false, Option, none, some, List, [], ◌∷◌, ◌++◌, ◌≡◌, ◌≢◌, refl,
  sym, ap, ◌∙◌, subst, inl, inr, arith, eq_iff, ◌==◌, string_eq, nat_eq, length, filter, find,
  contains, ◌&&◌, Bool-cases, Option-cases, Dict, lookup, insert, lookup-insert, All, find-holds,
}
use mathlib.Core.List.{append_assoc}
use mathlib.Core.Path.{subst₂}
use qtable_server.Permission.{
  WorkspaceItem, WorkspaceDb, WorkspaceItemPermission, WorkspaceMember, find_item,
  get_workspace_member, permission_chain, present, parent_of, override_map, chain_overrides,
  first_override, effective_over, get_effective_permission_for_item, normalize_permission,
  role_permission,
}
use qtable_server.Permission.Chain.{get_effective-total}
use qtable_server.Permission.Inherit.{Resolves, own, root, inherit}

-- `{item.id: item.parent_id for item in items}`, as the callers of the recursion build it.
abbrev pub parents_of : List WorkspaceItem → Dict (Option String)
parents_of [] = []
parents_of (i ∷ items) = (i.id, i.parent_id) ∷ parents_of items

-- All overrides of a user.
abbrev pub user_overrides : WorkspaceDb → ℕ → Dict String
user_overrides db user_id = override_map (filter (λ row. row.user_id == user_id) db.permissions) []

lookup-parents_of :
    (k : String) (items : List WorkspaceItem) (c : WorkspaceItem)
    → find (λ i. i.id == k) items ≡ some c
    → lookup k (parents_of items) ≡ some c.parent_id
lookup-parents_of k [] c h = cc
lookup-parents_of k (i ∷ items) c h = ground (arith, lookup-parents_of k items c)

parent_of-find_item :
    (db : WorkspaceDb) (k : String) (c : WorkspaceItem)
    → find_item db k ≡ some c
    → parent_of (parents_of db.items) k ≡ present c.parent_id
unfolding find_item
parent_of-find_item db k c h = rw (lookup-parents_of k db.items c h, parent_of)

id-find_item :
    (db : WorkspaceDb) (k : String) (c : WorkspaceItem) → find_item db k ≡ some c → c.id ≡ k
unfolding find_item
id-find_item db k c h = (eq_iff c.id k).0 (find-holds (λ i. i.id == k) db.items c h)

-- A chain of falling ranks does not come back to an item.
fresh_of_rank :
    (rank : String → ℕ) (x : String) (seen : List String)
    → All (λ s. rank x < rank s) seen
    → contains x seen ≡ false
fresh_of_rank rank x [] h = refl
fresh_of_rank rank x (s ∷ seen) h = elim (Bool-cases (s == x)) [
  | inl same ↦ absurd (omega (arith, h.0, ap rank ((eq_iff s x).0 same)))
  | inr other ↦ rw other (fresh_of_rank rank x seen h.1)
]

All-lower :
    (rank : String → ℕ) (x y : String) (seen : List String)
    → rank y < rank x
    → All (λ s. rank x < rank s) seen
    → All (λ s. rank y < rank s) seen
All-lower rank x y [] h a = tt
All-lower rank x y (s ∷ seen) h a = (omega (arith, a.0), All-lower rank x y seen h a.1)

first_override-own :
    (i p fb : String) (rest : List String) (ov : Dict String)
    → lookup i ov ≡ some p
    → first_override (i ∷ rest) ov fb ≡ p
unfolding first_override
first_override-own i p fb rest ov h = rw (h, first_override)

first_override-skip :
    (i fb : String) (rest : List String) (ov : Dict String)
    → lookup i ov ≡ none
    → first_override (i ∷ rest) ov fb ≡ first_override rest ov fb
unfolding first_override
first_override-skip i fb rest ov h = rw (h, first_override)

first_override-nil : (ov : Dict String) (fb : String) → first_override [] ov fb ≡ fb
unfolding first_override
first_override-nil ov fb = refl

chain_empty :
    (db : WorkspaceDb) (c : Option WorkspaceItem) (seen chain out : List String)
    → permission_chain 0 db c seen chain ≡ some out
    → ⊥
unfolding permission_chain
chain_empty db c seen chain out h = cc

chain_root :
    (fuel : ℕ) (db : WorkspaceDb) (c : WorkspaceItem) (seen chain : List String)
    → contains c.id seen ≡ false
    → present c.parent_id ≡ none
    → permission_chain (suc fuel) db (some c) seen chain ≡ some (chain ++ c.id ∷ [])
unfolding permission_chain
chain_root fuel db c seen chain fresh top = rw fresh (rw top)

chain_up :
    (fuel : ℕ) (db : WorkspaceDb) (c : WorkspaceItem) (p : String) (seen chain : List String)
    → contains c.id seen ≡ false
    → present c.parent_id ≡ some p
    → permission_chain (suc fuel) db (some c) seen chain
      ≡ permission_chain fuel db (find_item db p) (c.id ∷ seen) (chain ++ c.id ∷ [])
unfolding permission_chain
chain_up fuel db c p seen chain fresh up = rw fresh (rw up)

module _ (db : WorkspaceDb) (ov : Dict String) (fb : String) (rank : String → ℕ)
    (down : (i j : String) → parent_of (parents_of db.items) i ≡ some j → rank j < rank i)
    (closed : (i j : String)
      → parent_of (parents_of db.items) i ≡ some j
      → find_item db j ≢ none) where
  -- What the rest of a walk is worth.
  abbrev Walks : String → List String → List String → Type 0
  Walks k chain out =
      (rest : List String) × (out ≡ chain ++ rest)
      × Resolves (parents_of db.items) ov fb k (first_override rest ov fb)

  resolve_here :
      (k : String) (rest : List String)
      → (lookup k ov ≡ none → Resolves (parents_of db.items) ov fb k (first_override rest ov fb))
      → Resolves (parents_of db.items) ov fb k (first_override (k ∷ rest) ov fb)
  resolve_here k rest h = elim (Option-cases (lookup k ov)) [
    | inl free ↦ rw (first_override-skip k fb rest ov free) (h free)
    | inr (p, mine) ↦ rw (first_override-own k p fb rest ov mine) (own mine)
  ]

  pub walk-Walks :
      (fuel : ℕ) (k : String) (c : WorkspaceItem) (seen chain out : List String)
      → find_item db k ≡ some c
      → All (λ s. rank c.id < rank s) seen
      → permission_chain fuel db (some c) seen chain ≡ some out
      → Walks c.id chain out
  walk-Walks zero k c seen chain out found low h = absurd (chain_empty db (some c) seen chain out h)
  walk-Walks (suc fuel) k c seen chain out found low h =
      let fresh = fresh_of_rank rank c.id seen low in
      let above : parent_of (parents_of db.items) c.id ≡ present c.parent_id =
        subst (λ x. parent_of (parents_of db.items) x ≡ present c.parent_id)
          (sym (id-find_item db k c found)) (parent_of-find_item db k c found) in
      elim (Option-cases (present c.parent_id)) [
        | inl top ↦ (
          c.id ∷ [],
          cc (h, chain_root fuel db c seen chain fresh top),
          resolve_here c.id [] (λ free. root free (above ∙ top) (first_override-nil ov fb)),
        )
        | inr (p, up) ↦ elim (Option-cases (find_item db p)) [
          | inl gone ↦ absurd (closed c.id p (above ∙ up) gone)
          | inr (d, there) ↦
              let falls : rank d.id < rank c.id =
                subst (λ x. rank x < rank c.id) (sym (id-find_item db p d there))
                  (down c.id p (above ∙ up)) in
              let (rest, split, above_it) =
                walk-Walks fuel p d (c.id ∷ seen) (chain ++ c.id ∷ []) out there
                  (falls, All-lower rank c.id d.id seen falls low)
                  (ap (λ x. permission_chain fuel db x (c.id ∷ seen) (chain ++ c.id ∷ []))
                      (sym there)
                    ∙ sym (chain_up fuel db c p seen chain fresh up)
                    ∙ h) in
              (
                c.id ∷ rest,
                split ∙ append_assoc chain (c.id ∷ []) rest,
                resolve_here c.id rest (λ free. inherit free (above ∙ up) (
                    subst (λ x. Resolves (parents_of db.items) ov fb x (first_override rest ov fb))
                      (id-find_item db p d there) above_it)),
              )
        ]
      ]

off_chain :
    (chain : List String) (k j : String)
    → contains k chain ≡ true
    → contains j chain ≡ false
    → j ≡ k
    → ⊥
off_chain chain k j m n e = cc (ap (λ x. contains x chain) e)

-- Restricting the rows to those of the chain changes no answer on the chain.
lookup-override_map :
    (user_id : ℕ) (chain : List String) (k : String) (rows : List WorkspaceItemPermission)
    (d e : Dict String)
    → contains k chain ≡ true
    → lookup k d ≡ lookup k e
    → lookup k
        (override_map (filter (λ r. r.user_id == user_id && contains r.item_id chain) rows) d)
      ≡ lookup k (override_map (filter (λ r. r.user_id == user_id) rows) e)
unfolding override_map
lookup-override_map user_id chain k [] d e m h = h
lookup-override_map user_id chain k (r ∷ rows) d e m h =
    let v = normalize_permission r.permission in
    elim (Bool-cases (r.user_id == user_id)) [
      | inr other ↦ rw other (lookup-override_map user_id chain k rows d e m h)
      | inl mine ↦ elim (Bool-cases (contains r.item_id chain)) [
        | inl inside ↦
            rw (mine, inside)
              (lookup-override_map user_id chain k rows (insert r.item_id v d)
                (insert r.item_id v e) m
                (ground (arith, lookup-insert r.item_id k v d, lookup-insert r.item_id k v e)))
        | inr outside ↦
            rw (mine, outside)
              (lookup-override_map user_id chain k rows d (insert r.item_id v e) m
                (elim (Bool-cases (r.item_id == k)) [
                  | inl same ↦
                      absurd (off_chain chain k r.item_id m outside ((eq_iff r.item_id k).0 same))
                  | inr differs ↦ ground (arith, lookup-insert r.item_id k v e)
                ]))
      ]
    ]

first_override-agree :
    (chain : List String) (d e : Dict String) (fb : String)
    → ((k : String) → contains k chain ≡ true → lookup k d ≡ lookup k e)
    → first_override chain d fb ≡ first_override chain e fb
unfolding first_override
first_override-agree [] d e fb h = refl
first_override-agree (k ∷ chain) d e fb h =
    let here = h k (ground (arith, eq_iff k k)) in
    let later = first_override-agree chain d e fb (λ j m. h j (ground arith)) in
    elim (Option-cases (lookup k d)) [
      | inl free ↦ rw (free, sym here ∙ free, first_override) later
      | inr (p, mine) ↦ rw (mine, sym here ∙ mine, first_override)
    ]

first_override-user :
    (db : WorkspaceDb) (user_id : ℕ) (chain : List String) (fb : String)
    → first_override chain (chain_overrides db user_id chain) fb
      ≡ first_override chain (user_overrides db user_id) fb
unfolding chain_overrides
first_override-user db user_id chain fb =
    first_override-agree chain _ _ fb
      (λ k m. lookup-override_map user_id chain k db.permissions [] [] m refl)

-- An answer comes from a chain that the loop returned.
get_effective-chain :
    (db : WorkspaceDb) (user_id : ℕ) (item_id : String) (item : WorkspaceItem)
    (member : WorkspaceMember) (p : String)
    → find_item db item_id ≡ some item
    → get_workspace_member db user_id item.workspace_id ≡ some member
    → get_effective_permission_for_item db user_id item_id ≡ some p
    → (chain : List String) × (permission_chain (suc (length db.items)) db (some item) [] []
        ≡ some chain)
      × (p ≡ first_override chain (chain_overrides db user_id chain) (role_permission member.role))
unfolding get_effective_permission_for_item effective_over
get_effective-chain db user_id item_id item member p found joined h =
    elim (Option-cases (permission_chain (suc (length db.items)) db (some item) [] [])) [
      | inl out_of_fuel ↦ absurd (ground arith)
      | inr (chain, ended) ↦ (chain, ended, ground arith)
    ]

-- On rows whose parents exist and have no cycle, the effective permission of a member is the one
-- that inheritance gives: the nearest override of the user, else what the role permits.
pub get_effective-Resolves :
    (db : WorkspaceDb) (rank : String → ℕ)
    → ((i j : String) → parent_of (parents_of db.items) i ≡ some j → rank j < rank i)
    → ((i j : String) → parent_of (parents_of db.items) i ≡ some j → find_item db j ≢ none)
    → (user_id : ℕ) (item_id : String) (item : WorkspaceItem) (member : WorkspaceMember)
    → find_item db item_id ≡ some item
    → get_workspace_member db user_id item.workspace_id ≡ some member
    → (p : String) × (get_effective_permission_for_item db user_id item_id ≡ some p)
      × Resolves
          (parents_of db.items)
          (user_overrides db user_id)
          (role_permission member.role)
          item_id
          p
get_effective-Resolves db rank down closed user_id item_id item member found joined =
    let ov = user_overrides db user_id in
    let fb = role_permission member.role in
    let (p, returned) = get_effective-total db user_id item_id item member found joined in
    let (chain, ended, worth) =
      get_effective-chain db user_id item_id item member p found joined returned in
    let (rest, split, resolves) =
      walk-Walks db ov fb rank down closed (suc (length db.items)) item_id item [] [] chain found tt
        ended in
    (
      p,
      returned,
      subst₂ (λ i q. Resolves (parents_of db.items) ov fb i q) (id-find_item db item_id item found)
          (ap (λ c. first_override c ov fb) (sym split)
            ∙ sym (first_override-user db user_id chain fb)
            ∙ sym worth)
          resolves,
    )
