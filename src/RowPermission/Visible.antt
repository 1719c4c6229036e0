-- ===== src/RowPermission/Visible.antt =====
-- Who sees which row (app/services/row_permissions.py).
use qtable_server.Base.{
  ℕ, String, Bool, true, false, not, Option, none, some, List, [], ◌∷◌, ◌≡◌, refl, sym, ap, ◌∙◌,
  ◌&&◌, ◌||◌, map, ◌==◌, string_eq, nat_eq, filter, find, any, contains, arith, eq_iff, inl, inr,
  Bool-cases, find-holds, and-true,
}
use qtable_server.Base.Result.{ok, err, ok_inj}
use qtable_server.Permission.{permission_allows}
use qtable_server.RowPermission.{
  RowDb, TableRecord, Policy, policy_dict, get_row_permission_policy, allowed_record_ids,
  record_is_visible, row_is_visible, row_permission_restricts_user,
}
use qtable_server.RowPermission.Access.{grant, not_found_or_no_access, require_record_access}

-- A user whom a policy does not restrict sees every row.
pub unrestricted_sees_all :
    (policy : Policy) (user_id : ℕ) (table_permission : Option String) (r : TableRecord)
    → row_permission_restricts_user policy table_permission ≡ false
    → row_is_visible policy user_id table_permission r ≡ true
unfolding row_permission_restricts_user record_is_visible
unrestricted_sees_all policy user_id table_permission r h =
    ground (arith, eq_iff policy.mode "", eq_iff policy.mode "all")

abbrev at_key : String → String → TableRecord → Bool
at_key table_id record_id r = r.table_id == table_id && r.id == record_id

ids_where :
    (p q : TableRecord → Bool) (k : String) (rows : List TableRecord)
    → contains k (map (λ r. r.id) (filter q (filter p rows)))
      ≡ any (λ r. p r && (q r && r.id == k)) rows
ids_where p q k [] = refl
ids_where p q k (r ∷ rows) = ground (arith, ids_where p q k rows)

ids_all :
    (p q : TableRecord → Bool) (k : String) (rows : List TableRecord)
    → ((r : TableRecord) → q r ≡ true)
    → contains k (map (λ r. r.id) (filter p rows)) ≡ any (λ r. p r && (q r && r.id == k)) rows
ids_all p q k [] h = refl
ids_all p q k (r ∷ rows) h = ground (arith, ids_all p q k rows h, h r)

-- The ids that a user may read are those of the table's visible rows, whichever of its two queries
-- `allowed_record_ids` takes: the short cut for managers and open tables changes no answer.
pub allowed_record_ids_lem :
    (db : RowDb) (table_id : String) (user_id : ℕ) (table_permission : Option String)
    (policy : Policy) (k : String)
    → contains k (allowed_record_ids db table_id user_id table_permission (some policy))
      ≡ any
          (λ r.
            r.table_id == table_id
            && (row_is_visible policy user_id table_permission r && r.id == k))
          db.records
unfolding allowed_record_ids
allowed_record_ids_lem db table_id user_id table_permission policy k =
    elim (Bool-cases (policy.mode == "all" || permission_allows table_permission "manage")) [
      | inl open_table ↦ rw open_table (
          ids_all (λ r. r.table_id == table_id) (row_is_visible policy user_id table_permission) k
            db.records
            (λ r.
              unrestricted_sees_all policy user_id table_permission r
                (unfold row_permission_restricts_user in ground arith)))
      | inr restricted ↦ rw restricted (
          ids_where (λ r. r.table_id == table_id) (row_is_visible policy user_id table_permission) k
            db.records)
    ]

refused :
    (policy : Policy) (user_id : ℕ) (table_permission : Option String) (r : TableRecord)
    → row_is_visible policy user_id table_permission r ≡ false
    → grant policy user_id table_permission (some r) ≡ grant policy user_id table_permission none
unfolding grant
refused policy user_id table_permission r hidden = rw hidden

kept_if_visible : (t k v : Bool) → (t && k) ≡ true → (not t || v) ≡ v
kept_if_visible t k v h = ground arith

grant-visible :
    (policy : Policy) (user_id : ℕ) (table_permission : Option String) (found : Option TableRecord)
    (row : TableRecord)
    → grant policy user_id table_permission found ≡ ok row
    → (found ≡ some row) × (row_is_visible policy user_id table_permission row ≡ true)
unfolding grant
grant-visible policy user_id table_permission none row h = absurd (cc)
grant-visible policy user_id table_permission (some r) row h =
    elim (Bool-cases (row_is_visible policy user_id table_permission r)) [
      | inl shown ↦ let same : r ≡ row = ok_inj (rw shown at h) in (ap some same, rw (← same) shown)
      | inr hidden ↦ absurd (cc (hidden_refused r hidden))
    ]
  where
    hidden_refused :
        (s : TableRecord)
        → row_is_visible policy user_id table_permission s ≡ false
        → grant policy user_id table_permission (some s) ≡ err not_found_or_no_access
    hidden_refused s hidden = rw hidden

-- A record that is handed out is one of the table, with the id asked for, and visible to the user.
pub require_record_access-visible :
    (db : RowDb) (table_id record_id : String) (user_id : ℕ) (table_permission : Option String)
    (row : TableRecord)
    → require_record_access db table_id record_id user_id table_permission ≡ ok row
    → (find (λ r. r.table_id == table_id && r.id == record_id) db.records ≡ some row)
      × (row.table_id ≡ table_id)
      × (row.id ≡ record_id)
      × (row_is_visible (get_row_permission_policy db table_id) user_id table_permission row ≡ true)
unfolding require_record_access
require_record_access-visible db table_id record_id user_id table_permission row h =
    let (found, shown) =
      grant-visible (get_row_permission_policy db table_id) user_id table_permission _ row h in
    let keys =
      and-true (row.table_id == table_id) (row.id == record_id)
        (find-holds (at_key table_id record_id) db.records row found) in
    (found, (eq_iff _ _).0 keys.0, (eq_iff _ _).0 keys.1, shown)

-- At most one row of the table has the id.
abbrev pub AtMostOne : (TableRecord → Bool) → List TableRecord → Type 0
AtMostOne p [] = Unit
AtMostOne p (r ∷ rows) = ((p r && any p rows) ≡ false) × AtMostOne p rows

-- The database with the rows left out that the policy of the table hides from the user.
abbrev pub without_hidden : RowDb → String → ℕ → Option String → RowDb
without_hidden db table_id user_id table_permission = record db {
  records =
      filter
        (λ r.
          not (r.table_id == table_id)
          || row_is_visible (get_row_permission_policy db table_id) user_id table_permission r)
        db.records;
}

find-none :
    (p : TableRecord → Bool) (rows : List TableRecord) → any p rows ≡ false → find p rows ≡ none
find-none p [] h = refl
find-none p (r ∷ rows) h = ground (arith, find-none p rows)

any-filter :
    (p q : TableRecord → Bool) (rows : List TableRecord)
    → any p rows ≡ false
    → any p (filter q rows) ≡ false
any-filter p q [] h = refl
any-filter p q (r ∷ rows) h = ground (arith, any-filter p q rows)

-- Leaving a row out of the search is as good as refusing it, where no other row has the id.
grant-find-filter :
    (policy : Policy) (user_id : ℕ) (table_permission : Option String) (p q : TableRecord → Bool)
    (rows : List TableRecord)
    → AtMostOne p rows
    → ((r : TableRecord) → p r ≡ true → q r ≡ row_is_visible policy user_id table_permission r)
    → grant policy user_id table_permission (find p rows)
      ≡ grant policy user_id table_permission (find p (filter q rows))
grant-find-filter policy user_id table_permission p q [] a e = refl
grant-find-filter policy user_id table_permission p q (r ∷ rows) a e =
    let later = grant-find-filter policy user_id table_permission p q rows a.1 e in
    elim (Bool-cases (p r)) [
      | inr other ↦ elim (Bool-cases (q r)) [
        | inl kept ↦ rw (other, kept) (rw other later)
        | inr left_out ↦ rw (other, left_out) later
      ]
      | inl here ↦ elim (Bool-cases (q r)) [
        | inl kept ↦ rw (here, kept) (rw here refl)
        | inr left_out ↦
            rw (here, left_out)
              (rw (find-none p (filter q rows) (any-filter p q rows (rw here at a.0)))
                (refused policy user_id table_permission r (sym (e r here) ∙ left_out)))
      ]
    ]

-- Whether a record is handed out, and with which error it is refused, does not depend on the rows
-- that the policy hides: the call behaves as on the database without them, so a hidden record and
-- one that does not exist cannot be told apart. No two rows of the table share the id.
pub require_record_access-without_hidden :
    (db : RowDb) (table_id record_id : String) (user_id : ℕ) (table_permission : Option String)
    → AtMostOne (λ r. r.table_id == table_id && r.id == record_id) db.records
    → require_record_access db table_id record_id user_id table_permission
      ≡ require_record_access
          (without_hidden db table_id user_id table_permission)
          table_id
          record_id
          user_id
          table_permission
unfolding require_record_access get_row_permission_policy
require_record_access-without_hidden db table_id record_id user_id table_permission a =
    grant-find-filter (policy_dict (find (λ p. p.table_id == table_id) db.policies)) user_id
      table_permission (at_key table_id record_id) _ db.records a
      (λ r h. kept_if_visible (r.table_id == table_id) (r.id == record_id) _ h)
