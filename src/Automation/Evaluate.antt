-- ===== src/Automation/Evaluate.antt =====
-- `evaluate_conditions` of app/services/automation/validation.py. A comparison that raises, of two
-- values of different types, is not modelled: the interface's `less` is total.
use Prim.Native.Char.{code}
use qtable_server.Base.{
  String, Bool, true, false, not, Option, none, some, List, [], ◌&&◌, ◌||◌, ◌==◌, string_eq, nat_eq,
  if◌then◌else◌, Dict, lookup, any,
}
use qtable_server.Json.{Json, str, arr, items_list, get}
use qtable_server.Automation.{Condition, Conditions, group, test, nil, cons, text_or}
use qtable_server.Automation.Normal.{Python, FieldTypes, is_numeric, is_date, is_ordered, is_blank}

module _ (python : Python) where
  open python use {Value, number, date, raw, less, same, equal}

  -- `_is_empty`
  unfoldable pub is_empty_value : Json → Bool
  is_empty_value (str s) = s == ""
  is_empty_value value = is_blank value

  -- `_coerce_order_value`
  unfoldable pub coerce_order_value : String → Json → Option Value
  coerce_order_value field_type value =
      if is_numeric field_type
      then number value
      else if is_date field_type
      then date value
      else raw value

  abbrev same_values : Option Value → Option Value → Bool
  same_values (some a) (some b) = same a b
  same_values _ _ = false

  unfoldable pub equals_value : String → Json → Json → Bool
  equals_value field_type actual expected =
      if is_ordered field_type
      then same_values (coerce_order_value field_type actual)
          (coerce_order_value field_type expected)
      else equal actual expected

  abbrev expected_list : Json → List Json
  expected_list (arr items) = items_list items
  expected_list _ = []

  -- `haystack.startswith(needle)` and `needle in haystack`, of texts.
  unfoldable pub is_prefix : String → String → Bool
  is_prefix String.[] haystack = true
  is_prefix (String.◌∷◌ c needle) String.[] = false
  is_prefix (String.◌∷◌ c needle) (String.◌∷◌ d haystack) =
      code c == code d && is_prefix needle haystack

  unfoldable pub is_part : String → String → Bool
  is_part needle String.[] = is_prefix needle String.[]
  is_part needle (String.◌∷◌ c haystack) =
      is_prefix needle (String.◌∷◌ c haystack) || is_part needle haystack

  unfoldable pub contains_value : Json → Json → Bool
  contains_value (arr items) expected = any (λ item. equal expected item) (items_list items)
  contains_value actual expected = is_part (text_or expected "") (text_or actual "")

  abbrev compare_values : String → Value → Value → Bool
  compare_values operator actual expected =
      if operator == "gt"
      then less expected actual
      else if operator == "gte"
      then less expected actual || same actual expected
      else if operator == "lt"
      then less actual expected
      else if operator == "lte"
      then less actual expected || same actual expected
      else false

  abbrev compare_both : String → Option Value → Option Value → Bool
  compare_both operator (some a) (some e) = compare_values operator a e
  compare_both operator _ _ = false

  -- A condition on one field, once the type of the field is known.
  unfoldable pub evaluate_test : String → String → Json → Json → Bool
  evaluate_test field_type operator actual expected =
      if operator == "empty"
      then is_empty_value actual
      else if operator == "not_empty"
      then not (is_empty_value actual)
      else if operator == "equals"
      then equals_value field_type actual expected
      else if operator == "not_equals"
      then not (equals_value field_type actual expected)
      else if operator == "in"
      then any (equals_value field_type actual) (expected_list expected)
      else if operator == "not_in"
      then not (any (equals_value field_type actual) (expected_list expected))
      else if operator == "contains"
      then contains_value actual expected
      else if operator == "not_contains"
      then not (contains_value actual expected)
      else compare_both operator (coerce_order_value field_type actual)
          (coerce_order_value field_type expected)

  unfoldable mutual
    pub evaluate_conditions : Dict Json → FieldTypes → Condition → Bool
    evaluate_conditions record_data fields (group true items) = all_hold record_data fields items
    evaluate_conditions record_data fields (group false items) = any_holds record_data fields items
    evaluate_conditions record_data fields (test field_id operator expected) =
        elim (lookup field_id fields) [
          | none ↦ false
          | some field_type ↦ evaluate_test field_type operator (get field_id record_data) expected
        ]

    pub all_hold : Dict Json → FieldTypes → Conditions → Bool
    all_hold record_data fields nil = true
    all_hold record_data fields (cons c cs) =
        evaluate_conditions record_data fields c && all_hold record_data fields cs

    pub any_holds : Dict Json → FieldTypes → Conditions → Bool
    any_holds record_data fields nil = false
    any_holds record_data fields (cons c cs) =
        evaluate_conditions record_data fields c || any_holds record_data fields cs
