-- ===== src/RowPermission.antt =====
-- Row-level permissions: app/services/row_permissions.py, over the tables of
-- app/models/smart_table.py. A query is a filter of a list of rows; a set of ids is a list.
mod Tests
pub mod Rules
pub mod Access
pub mod Visible
pub mod Mask
pub mod Sanitize
use Prim.Native.String.{◌++◌ as join_text}
use qtable_server.Base.{
  ℕ, String, Bool, true, false, not, Option, none, some, List, [], ◌∷◌, ◌&&◌, ◌||◌, map, ◌==◌,
  string_eq, nat_eq, if◌then◌else◌, Dict, lookup, has_key, insert, filter, find, any, contains,
}
use qtable_server.Base.Int.{ℤ, pos, negsuc}
use qtable_server.Base.Result.{Result, ok, err, ◌>>=◌, ◌>>◌, guard}
use qtable_server.Json.{
  Json, null, bool, int, real, str, arr, obj, Items, nil, cons, Members, members_dict, list_items,
  truthy, get,
}
use qtable_server.Text.{strip, lower_eq, str_nat, str_int}
use qtable_server.Permission.{WorkspaceDb, permission_allows, get_effective_permission_for_item}
use qtable_server.Relation.{
  is_relation_field, get_target_table_id, relation_allows_multiple, relation_record_ids,
}

pub record TableRowPermissionPolicy : Type 0 where
  pub table_id : String
  pub mode : String
  pub member_field_id : Option String

pub record TableField : Type 0 where
  pub table_id : String
  pub id : String
  pub type : String

pub record TableRecord : Type 0 where
  pub table_id : String
  pub id : String
  pub created_by_user_id : Option ℕ
  pub row_data : Dict Json

pub record RowDb : Type 0 where
  pub workspace : WorkspaceDb
  pub policies : List TableRowPermissionPolicy
  pub fields : List TableField
  pub records : List TableRecord

-- The dict that `_policy_dict` builds.
pub record Policy : Type 0 where
  pub mode : String
  pub member_field_id : Option String
  pub enabled : Bool

abbrev pub row_permission_modes : List String
row_permission_modes = "all" ∷ "creator" ∷ "member_field" ∷ []

abbrev pub default_row_permission_policy : Policy
default_row_permission_policy = record { mode = "all"; member_field_id = none; enabled = false }

unfoldable pub policy_dict : Option TableRowPermissionPolicy → Policy
policy_dict none = default_row_permission_policy
policy_dict (some policy) =
    let mode = if contains policy.mode row_permission_modes then policy.mode else "all" in
    record {
      mode = mode;
      member_field_id = if mode == "member_field" then policy.member_field_id else none;
      enabled = not (mode == "all");
    }

unfoldable pub get_row_permission_policy : RowDb → String → Policy
get_row_permission_policy db table_id = policy_dict (find (λ p. p.table_id == table_id) db.policies)

-- `ValueError` by its message.
pub data PolicyError : Type 0 where
  invalid_mode field_required field_missing field_not_member field_in_use must_stay_member :
      PolicyError

-- `str(mode or "").strip().lower()`, where it is one of the modes.
unfoldable pub normalize_mode : String → Option String
normalize_mode mode =
    if lower_eq (strip mode) "all"
    then some "all"
    else if lower_eq (strip mode) "creator"
    then some "creator"
    else if lower_eq (strip mode) "member_field"
    then some "member_field"
    else none

-- The member field that a policy of this mode is to name.
unfoldable pub checked_member_field :
    RowDb → String → String → Option String → Result PolicyError (Option String)
checked_member_field db table_id mode member_field_id =
    if mode == "member_field"
    then elim member_field_id [
      | none ↦ err PolicyError.field_required
      | some field_id ↦
          if field_id == ""
          then err PolicyError.field_required
          else elim (find (λ f. f.table_id == table_id && f.id == field_id) db.fields) [
            | none ↦ err PolicyError.field_missing
            | some field ↦
                if field.type == "member"
                then ok (some field.id)
                else err PolicyError.field_not_member
          ]
    ]
    else ok none

-- The row of the table is overwritten if there is one, else added.
unfoldable pub write_policy :
    TableRowPermissionPolicy → List TableRowPermissionPolicy → List TableRowPermissionPolicy
write_policy row [] = row ∷ []
write_policy row (p ∷ rows) =
    if p.table_id == row.table_id then row ∷ rows else p ∷ write_policy row rows

abbrev or_raise : Option String → PolicyError → Result PolicyError String
or_raise none e = err e
or_raise (some a) e = ok a

-- The write of `set_row_permission_policy`, and what it returns.
unfoldable pub save_policy : RowDb → TableRowPermissionPolicy → RowDb × Policy
save_policy db row = (record db { policies = write_policy row db.policies }, policy_dict (some row))

unfoldable pub set_row_permission_policy :
    RowDb → String → String → Option String → Result PolicyError (RowDb × Policy)
set_row_permission_policy db table_id mode member_field_id =
    or_raise (normalize_mode mode) PolicyError.invalid_mode >>= λ normalized_mode.
    checked_member_field db table_id normalized_mode member_field_id >>= λ normalized_field_id. ok (
      save_policy db (record {
        table_id = table_id;
        mode = normalized_mode;
        member_field_id = normalized_field_id;
      }))

-- `select(...).limit(1)` and `db.delete`: the first row of the table goes.
unfoldable pub drop_policy : String → List TableRowPermissionPolicy → List TableRowPermissionPolicy
drop_policy table_id [] = []
drop_policy table_id (p ∷ rows) =
    if p.table_id == table_id then rows else p ∷ drop_policy table_id rows

unfoldable pub delete_row_permission_policy : RowDb → String → RowDb
delete_row_permission_policy db table_id = record db { policies = drop_policy table_id db.policies }

-- `str(value)`. A list and an object are not spelled out: they begin with a bracket, and the
-- result is only compared with ids.
unfoldable pub text_of : Json → String
text_of null = "None"
text_of (bool true) = "True"
text_of (bool false) = "False"
text_of (int n) = str_int n
text_of (real n nonzero s) = s
text_of (str s) = s
text_of (arr xs) = "[]"
text_of (obj ms) = "{}"

abbrev member_keys : List String
member_keys = "id" ∷ "userId" ∷ "user_id" ∷ "value" ∷ []

-- `candidate is not None and str(candidate) == expected`
unfoldable pub key_names_user : String → Dict Json → String → Bool
unfolding text_of
key_names_user expected value key = elim (get key value) [
  | null ↦ false
  | candidate ↦ text_of candidate == expected
]

unfoldable mutual
  pub member_value_contains_user : Json → String → Bool
  member_value_contains_user (arr xs) expected = some_item_contains_user xs expected
  member_value_contains_user (obj ms) expected =
      any (key_names_user expected (members_dict ms)) member_keys
  member_value_contains_user null expected = false
  member_value_contains_user (bool b) expected = false
  member_value_contains_user (int n) expected = text_of (int n) == expected
  member_value_contains_user (real n nonzero s) expected = s == expected
  member_value_contains_user (str s) expected = s == expected

  pub some_item_contains_user : Items → String → Bool
  some_item_contains_user nil expected = false
  some_item_contains_user (cons x xs) expected =
      member_value_contains_user x expected || some_item_contains_user xs expected

-- The branch of `record_is_visible` for a policy by member field.
unfoldable pub member_field_shows : Option String → Dict Json → ℕ → Bool
member_field_shows none row user_id = false
member_field_shows (some field_id) row user_id =
    if field_id == ""
    then false
    else member_value_contains_user (get field_id row) (str_nat user_id)

abbrev pub created_by : Option ℕ → ℕ → Bool
created_by none user_id = false
created_by (some creator) user_id = creator == user_id

unfoldable pub record_is_visible : Policy → ℕ → Option String → Option ℕ → Dict Json → Bool
record_is_visible policy user_id table_permission created_by_user_id row =
    if permission_allows table_permission "manage"
    then true
    else let mode = if policy.mode == "" then "all" else policy.mode in
      if mode == "all"
      then true
      else if created_by created_by_user_id user_id
      then true
      else if mode == "creator"
      then false
      else if mode == "member_field"
      then member_field_shows policy.member_field_id row user_id
      else false

abbrev pub row_is_visible : Policy → ℕ → Option String → TableRecord → Bool
row_is_visible policy user_id table_permission r =
    record_is_visible policy user_id table_permission r.created_by_user_id r.row_data

unfoldable pub allowed_record_ids : RowDb → String → ℕ → Option String → Option Policy → List String
allowed_record_ids db table_id user_id table_permission policy =
    let effective_policy : Policy = elim policy [
      | none ↦ get_row_permission_policy db table_id
      | some p ↦ p
    ] in
    let rows = filter (λ r. r.table_id == table_id) db.records in
    if effective_policy.mode == "all" || permission_allows table_permission "manage"
    then map (λ r. r.id) rows
    else map (λ r. r.id) (filter (row_is_visible effective_policy user_id table_permission) rows)

unfoldable pub row_permission_restricts_user : Policy → Option String → Bool
row_permission_restricts_user policy table_permission =
    not (policy.mode == "all") && not (permission_allows table_permission "manage")
