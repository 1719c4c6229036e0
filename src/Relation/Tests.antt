-- ===== src/Relation/Tests.antt =====
-- The relation theorems at a small field.
use qtable_server.Base.{
  true, false, not, [], ◌∷◌, ◌≡◌, refl, Dict, filter, contains, ◌==◌, string_eq,
}
use qtable_server.Base.Result.{ok, err}
use qtable_server.Json.{Json, str, arr, obj, dict_members, list_items, bool, truthy}
use qtable_server.Text.{char_count, strip, lstrip, rstrip, lower_eq, is_space}
use qtable_server.Relation.{
  RelationError, RelationValue, many, normalize_relation_value, remove_linked_record,
  is_relation_field, relation_allows_multiple, get_relation_property, collect_ids,
  normalize_record_id, pack_ids, unlink, texts_eq,
}
use qtable_server.Relation.Normalize.{IsNormalValue, normalize-IsNormalValue}
use qtable_server.Relation.Unlink.{linked_ids, remove_linked_record_lem}

abbrev owner_field : Dict Json
owner_field =
    ("id", str "f1")
    ∷ ("type", str "Relation")
    ∷ ("property", obj (dict_members (("targetTableId", str "t2") ∷ [])))
    ∷ []

-- A list with a blank, a repeated and an unstripped id.
abbrev raw_links : Json
raw_links = arr (list_items (str " r1" ∷ str "" ∷ str "r2" ∷ str "r1" ∷ []))

links_normal : normalize_relation_value owner_field raw_links ≡ ok (many ("r1" ∷ "r2" ∷ []))
unfolding normalize_relation_value is_relation_field lower_eq relation_allows_multiple
    get_relation_property collect_ids normalize_record_id pack_ids strip lstrip rstrip is_space
    char_count truthy
links_normal = refl

number_refused :
    normalize_relation_value owner_field (arr (list_items (bool true ∷ [])))
    ≡ err RelationError.id_not_text
unfolding normalize_relation_value is_relation_field lower_eq relation_allows_multiple
    get_relation_property collect_ids normalize_record_id truthy
number_refused = refl

r2_removed : remove_linked_record owner_field raw_links "r2" ≡ ok (many ("r1" ∷ []), true)
unfolding remove_linked_record unlink texts_eq normalize_relation_value is_relation_field lower_eq
    relation_allows_multiple get_relation_property collect_ids normalize_record_id pack_ids strip
    lstrip rstrip is_space char_count truthy
r2_removed = refl

owner_field-is_relation : is_relation_field owner_field ≡ true
unfolding is_relation_field lower_eq
owner_field-is_relation = refl

normalize-IsNormalValue_example :
    IsNormalValue (relation_allows_multiple owner_field) (many ("r1" ∷ "r2" ∷ []))
normalize-IsNormalValue_example =
    normalize-IsNormalValue owner_field raw_links (many ("r1" ∷ "r2" ∷ [])) owner_field-is_relation
      links_normal

remove_linked_record_lem_example :
    (v : RelationValue) × (normalize_relation_value owner_field raw_links ≡ ok v)
    × (linked_ids (many ("r1" ∷ [])) ≡ filter (λ item. not (item == "r2")) (linked_ids v))
    × (contains "r2" (linked_ids (many ("r1" ∷ []))) ≡ false)
    × (true ≡ contains "r2" (linked_ids v))
remove_linked_record_lem_example =
    remove_linked_record_lem owner_field raw_links "r2" (many ("r1" ∷ [])) true
      owner_field-is_relation r2_removed
