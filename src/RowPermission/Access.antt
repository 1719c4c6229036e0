-- ===== src/RowPermission/Access.antt =====
-- The operations of app/services/row_permissions.py that hand records out: masking of linked ids,
-- filtering of a table's store, access to one record, and the guards of schema changes.
use Prim.Native.String.{◌++◌ as join_text}
use qtable_server.Base.{
  ℕ, String, Bool, false, not, Option, none, some, List, [], ◌∷◌, ◌&&◌, ◌||◌, map, ◌==◌, string_eq,
  nat_eq, if◌then◌else◌, Dict, lookup, has_key, insert, filter, find, contains, is_empty,
}
use qtable_server.Base.Result.{Result, ok, err}
use qtable_server.Json.{Json, null, arr, list_items, get, truthy}
use qtable_server.Text.{str_nat}
use qtable_server.Permission.{permission_allows, get_effective_permission_for_item}
use qtable_server.Relation.{
  is_relation_field, get_target_table_id, relation_allows_multiple, relation_record_ids,
}
use qtable_server.RowPermission.{
  RowDb, TableRecord, Policy, PolicyError, get_row_permission_policy, allowed_record_ids,
  row_permission_restricts_user, row_is_visible, text_of,
}

-- A table's store, as the storage layer returns it.
pub record Store : Type 0 where
  pub fields : List (Dict Json)
  pub records : List (Dict Json)
  pub views : List (Dict Json)

-- The target records that a user may read; `none` stands for all of them.
unfoldable pub readable_targets : RowDb → ℕ → String → Option (List String)
readable_targets db user_id target_table_id =
    let permission = get_effective_permission_for_item db.workspace user_id target_table_id in
    let target_policy = get_row_permission_policy db target_table_id in
    if not (permission_allows permission "read")
    then some []
    else if row_permission_restricts_user target_policy permission
    then some (allowed_record_ids db target_table_id user_id permission (some target_policy))
    else none

-- One round of the loop that fills `allowed_by_target`.
unfoldable pub add_target :
    RowDb → ℕ → String → Dict (Option (List String)) → Dict (Option (List String))
add_target db user_id target_table_id allowed_by_target =
    if target_table_id == "" || has_key target_table_id allowed_by_target
    then allowed_by_target
    else insert target_table_id (readable_targets db user_id target_table_id) allowed_by_target

unfoldable pub targets_of :
    RowDb → ℕ → List (Dict Json) → Dict (Option (List String)) → Dict (Option (List String))
targets_of db user_id [] allowed_by_target = allowed_by_target
targets_of db user_id (field ∷ fields) allowed_by_target =
    targets_of db user_id fields
      (add_target db user_id (get_target_table_id field) allowed_by_target)

-- `str(field.get("id") or "")`
unfoldable pub field_id_of : Dict Json → String
field_id_of field = if truthy (get "id" field) then text_of (get "id" field) else ""

-- The linked ids of a value; a malformed value has none.
unfoldable pub linked_or_none : Dict Json → Json → List Json
linked_or_none field value = elim (relation_record_ids field value) [ ok ids ↦ ids | err e ↦ [] ]

abbrev pub first_or_null : List Json → Json
first_or_null [] = null
first_or_null (x ∷ xs) = x

unfoldable pub mask_value : Dict Json → List String → Json → Json
mask_value field allowed value =
    let visible_ids =
      filter (λ record_id. contains (text_of record_id) allowed) (linked_or_none field value) in
    if relation_allows_multiple field
    then arr (list_items visible_ids)
    else first_or_null visible_ids

-- The value is replaced unless every target record is readable.
unfoldable pub mask_at : Dict Json → String → Option (Option (List String)) → Dict Json → Dict Json
mask_at field field_id none next_record = next_record
mask_at field field_id (some none) next_record = next_record
mask_at field field_id (some (some allowed)) next_record =
    insert field_id (mask_value field allowed (get field_id next_record)) next_record

-- One round of the inner loop of `sanitize_relation_values_for_user`.
unfoldable pub mask_field : Dict (Option (List String)) → Dict Json → Dict Json → Dict Json
mask_field allowed_by_target field next_record =
    let field_id = field_id_of field in
    if field_id == "" || not (has_key field_id next_record)
    then next_record
    else mask_at field field_id (lookup (get_target_table_id field) allowed_by_target) next_record

unfoldable pub mask_fields : Dict (Option (List String)) → List (Dict Json) → Dict Json → Dict Json
mask_fields allowed_by_target [] next_record = next_record
mask_fields allowed_by_target (field ∷ fields) next_record =
    mask_fields allowed_by_target fields (mask_field allowed_by_target field next_record)

-- `sanitize_relation_values_for_user`, once the relation fields are picked.
unfoldable pub sanitize_records : RowDb → ℕ → List (Dict Json) → List (Dict Json) → List (Dict Json)
sanitize_records db user_id relation_fields records =
    if is_empty relation_fields || is_empty records
    then records
    else map (mask_fields (targets_of db user_id relation_fields []) relation_fields) records

unfoldable pub sanitize_relation_values_for_user :
    RowDb → List (Dict Json) → List (Dict Json) → ℕ → List (Dict Json)
unfolding sanitize_records
sanitize_relation_values_for_user db fields records user_id =
    sanitize_records db user_id (filter is_relation_field fields) records

unfoldable pub filter_store_for_user : RowDb → String → Store → ℕ → Option String → Store × Policy
filter_store_for_user db table_id store user_id table_permission =
    let policy = get_row_permission_policy db table_id in
    let allowed = allowed_record_ids db table_id user_id table_permission (some policy) in
    let source_records =
      if row_permission_restricts_user policy table_permission
      then filter (λ r. contains (text_of (get "id" r)) allowed) store.records
      else store.records in
    (
      record store {
        records = sanitize_relation_values_for_user db store.fields source_records user_id;
      },
      policy,
    )

-- The one `PermissionError` of `require_record_access`.
pub data AccessError : Type 0 where
  not_found_or_no_access : AccessError

-- What follows the query of `require_record_access`.
unfoldable pub grant :
    Policy → ℕ → Option String → Option TableRecord → Result AccessError TableRecord
grant policy user_id table_permission none = err not_found_or_no_access
grant policy user_id table_permission (some row) =
    if row_is_visible policy user_id table_permission row
    then ok row
    else err not_found_or_no_access

unfoldable pub require_record_access :
    RowDb → String → String → ℕ → Option String → Result AccessError TableRecord
require_record_access db table_id record_id user_id table_permission =
    grant (get_row_permission_policy db table_id) user_id table_permission
      (find (λ r. r.table_id == table_id && r.id == record_id) db.records)

abbrev pub names_field : Option String → String → Bool
names_field none field_id = false
names_field (some member_field_id) field_id = member_field_id == field_id

abbrev pub leaves_member : Option String → Bool
leaves_member none = false
leaves_member (some next_type) = not (next_type == "member")

unfoldable pub ensure_permission_field_change_safe :
    RowDb → String → String → Bool → Option String → Result PolicyError (Unit {0})
ensure_permission_field_change_safe db table_id field_id deleting next_type =
    let policy = get_row_permission_policy db table_id in
    if not (policy.mode == "member_field") || not (names_field policy.member_field_id field_id)
    then ok tt
    else if deleting
    then err PolicyError.field_in_use
    else if leaves_member next_type
    then err PolicyError.must_stay_member
    else ok tt

abbrev field_part : Option String → String
field_part none = "-"
field_part (some member_field_id) = if member_field_id == "" then "-" else member_field_id

unfoldable pub row_scope_cache_key : Policy → ℕ → Option String → String
row_scope_cache_key policy user_id table_permission =
    if policy.mode == "all" || permission_allows table_permission "manage"
    then "all"
    else join_text "user:" (
        join_text (str_nat user_id) (
          join_text ":"
            (join_text policy.mode (join_text ":" (field_part policy.member_field_id)))))
