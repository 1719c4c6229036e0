-- ===== src/Relation.antt =====
-- Link-to-record fields: app/services/relation_engine.py. A field is a decoded JSON object.
mod Tests
pub mod Canonical
pub mod Normalize
pub mod Unlink
use qtable_server.Base.{
  ℕ, suc, ◌+◌, String, Bool, true, false, not, Option, none, some, List, [], ◌∷◌, ◌++◌, ◌≡◌, refl,
  ◌&&◌, ◌||◌, leb, ltb, map, ◌==◌, string_eq, nat_eq, if◌then◌else◌, Dict, lookup, length, filter,
  contains,
}
use qtable_server.Base.Result.{Result, ok, err, ◌>>=◌, ◌>>◌, guard}
use qtable_server.Json.{
  Json, null, bool, int, real, str, arr, obj, members_dict, items_list, list_items, truthy, get,
  is_null, is_empty_str,
}
use qtable_server.Text.{strip, char_count, lower_eq}

abbrev pub max_linked_records : ℕ
max_linked_records = 200

abbrev pub max_record_id_length : ℕ
max_record_id_length = 256

-- `RelationValidationError` by its message.
pub data RelationError : Type 0 where
  target_required target_too_long multiple_not_bool display_not_text : RelationError
  id_not_text id_empty id_too_long too_many_records single_only : RelationError

-- The type prints as "relation" after `lower()`; no value but a text does.
unfoldable pub is_relation_field : Dict Json → Bool
is_relation_field field = elim (get "type" field) [ str s ↦ lower_eq s "relation" | _ ↦ false ]

unfoldable pub get_relation_property : Dict Json → Dict Json
get_relation_property field = elim (get "property" field) [ obj ms ↦ members_dict ms | _ ↦ [] ]

unfoldable pub get_target_table_id : Dict Json → String
unfolding get_relation_property
get_target_table_id field = elim (get "targetTableId" (get_relation_property field)) [
  | str s ↦ strip s
  | _ ↦ ""
]

unfoldable pub get_display_field_id : Dict Json → Option String
unfolding get_relation_property
get_display_field_id field = elim (get "displayFieldId" (get_relation_property field)) [
  | str s ↦ if strip s == "" then none else some (strip s)
  | _ ↦ none
]

unfoldable pub relation_allows_multiple : Dict Json → Bool
unfolding get_relation_property
relation_allows_multiple field = elim (lookup "multiple" (get_relation_property field)) [
  | none ↦ true
  | some v ↦ truthy v
]

-- `isinstance(prop.get("multiple", True), bool)`
abbrev multiple_is_bool : Option Json → Bool
multiple_is_bool none = true
multiple_is_bool (some (bool b)) = true
multiple_is_bool (some _) = false

abbrev display_is_text : Json → Bool
display_is_text null = true
display_is_text (str s) = true
display_is_text _ = false

unfoldable pub validate_relation_field_shape : Dict Json → Result RelationError (Unit {0})
validate_relation_field_shape field =
    let target_table_id = get_target_table_id field in
    let prop = get_relation_property field in
    if not (is_relation_field field)
    then ok tt
    else guard (not (target_table_id == "")) RelationError.target_required
      >> guard (leb (char_count target_table_id) max_record_id_length) RelationError.target_too_long
      >> guard (multiple_is_bool (lookup "multiple" prop)) RelationError.multiple_not_bool
      >> guard (display_is_text (get "displayFieldId" prop)) RelationError.display_not_text

unfoldable pub validate_relation_schema : List (Dict Json) → Result RelationError (Unit {0})
validate_relation_schema [] = ok tt
validate_relation_schema (field ∷ fields) =
    validate_relation_field_shape field >> validate_relation_schema fields

unfoldable pub normalize_record_id : Json → Result RelationError String
normalize_record_id (str s) =
    let record_id = strip s in
    if record_id == ""
    then err RelationError.id_empty
    else if ltb max_record_id_length (char_count record_id)
    then err RelationError.id_too_long
    else ok record_id
normalize_record_id _ = err RelationError.id_not_text

-- What `normalize_relation_value` returns: `str | List[str] | None`, or the value of a field that
-- is no relation as it came.
pub data RelationValue : Type 0 where
  untouched : Json → RelationValue
  unlinked : RelationValue
  single : String → RelationValue
  many : List String → RelationValue

-- The loop over the raw values.
unfoldable pub collect_ids :
    List Json → List String → List String → Result RelationError (List String)
collect_ids [] seen normalized = ok normalized
collect_ids (raw ∷ rest) seen normalized = elim (is_null raw || is_empty_str raw) [
  | true ↦ collect_ids rest seen normalized
  | false ↦ elim (normalize_record_id raw) [
    | err e ↦ err e
    | ok record_id ↦ elim (contains record_id seen) [
      | true ↦ collect_ids rest seen normalized
      | false ↦ elim (ltb max_linked_records (length (normalized ++ record_id ∷ []))) [
        | true ↦ err RelationError.too_many_records
        | false ↦ collect_ids rest (record_id ∷ seen) (normalized ++ record_id ∷ [])
      ]
    ]
  ]
]

-- A list as it is, any other value as a list of one.
abbrev pub raw_values : Json → List Json
raw_values (arr xs) = items_list xs
raw_values value = value ∷ []

unfoldable pub pack_ids : Bool → List String → Result RelationError RelationValue
pack_ids true ids = ok (many ids)
pack_ids false [] = ok unlinked
pack_ids false (record_id ∷ []) = ok (single record_id)
pack_ids false (record_id ∷ other ∷ ids) = err RelationError.single_only

unfoldable pub normalize_relation_value : Dict Json → Json → Result RelationError RelationValue
normalize_relation_value field value =
    let multiple = relation_allows_multiple field in
    if not (is_relation_field field)
    then ok (untouched value)
    else if is_null value || is_empty_str value
    then ok (if multiple then many [] else unlinked)
    else (collect_ids (raw_values value) [] [] >>= pack_ids multiple)

-- The value as it is stored in a record.
abbrev pub stored : RelationValue → Json
stored (untouched value) = value
stored unlinked = null
stored (single record_id) = str record_id
stored (many ids) = arr (list_items (map str ids))

abbrev pub value_ids : RelationValue → List Json
value_ids (untouched null) = []
value_ids (untouched (arr xs)) = items_list xs
value_ids (untouched value) = value ∷ []
value_ids unlinked = []
value_ids (single record_id) = str record_id ∷ []
value_ids (many ids) = map str ids

unfoldable pub relation_record_ids : Dict Json → Json → Result RelationError (List Json)
relation_record_ids field value =
    normalize_relation_value field value >>= λ normalized. ok (value_ids normalized)

-- `a == b` of two lists of texts.
unfoldable pub texts_eq : List String → List String → Bool
texts_eq [] [] = true
texts_eq [] (y ∷ ys) = false
texts_eq (x ∷ xs) [] = false
texts_eq (x ∷ xs) (y ∷ ys) = x == y && texts_eq xs ys

unfoldable pub unlink : String → RelationValue → RelationValue × Bool
unfolding texts_eq
unlink deleted_record_id (many ids) =
    let next_value = filter (λ item. not (item == deleted_record_id)) ids in
    (many next_value, not (texts_eq next_value ids))
unlink deleted_record_id (single record_id) =
    if record_id == deleted_record_id then (unlinked, true) else (single record_id, false)
unlink deleted_record_id value = (value, false)

unfoldable pub remove_linked_record :
    Dict Json → Json → String → Result RelationError (RelationValue × Bool)
remove_linked_record field value deleted_record_id =
    if not (is_relation_field field)
    then ok (untouched value, false)
    else (normalize_relation_value field value >>= λ normalized.
        ok (unlink deleted_record_id normalized))

unfoldable pub relation_fields_targeting : List (Dict Json) → String → List (Dict Json)
relation_fields_targeting fields target_table_id =
    filter (λ field. is_relation_field field && get_target_table_id field == target_table_id) fields
