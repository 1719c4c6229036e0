-- ===== src/Automation/Normal.antt =====
-- `normalize_conditions` of app/services/automation/validation.py. What Python makes of a value
-- (float, datetime, comparison and equality) is an interface.
pub mod Bounds
use Prim.Native.Char.{code}
use qtable_server.Base.{
  ℕ, zero, suc, ◌+◌, String, Bool, true, false, not, Option, none, some, List, [], ◌∷◌, ◌++◌, ◌&&◌,
  ◌||◌, ◌==◌, string_eq, nat_eq, ltb, if◌then◌else◌, Dict, lookup, has_key, find, any, contains,
  map,
}
use qtable_server.Base.Result.{Result, ok, err, ◌>>=◌}
use qtable_server.Json.{
  Json, null, bool, int, real, str, arr, obj, Items, members_dict, dict_members, items_list,
  list_items, get, is_null, truthy,
}
use qtable_server.Json
use qtable_server.Base.Int.{ℤ, pos}
use qtable_server.Text.{parse_int, strip, lower_eq}
use qtable_server.RowPermission.{text_of}
use qtable_server.Automation.{Condition, Conditions, group, test, nil, cons, text_or}

-- `float`, `datetime.fromisoformat`, a value as it is (`None` is `none`), `<`, `==` of the values so
-- read, `==` of two JSON values, and the number that is stored for a value.
pub record Python : Type 1 where
  pub Value : Type 0
  pub number : Json → Option Value
  pub date : Json → Option Value
  pub raw : Json → Option Value
  pub less : Value → Value → Bool
  pub same : Value → Value → Bool
  pub equal : Json → Json → Bool
  pub normal_number : Json → Option Json

pub data AutomationValidationError : Type 0 where
  unknown_field not_a_list not_an_object too_deep too_many bad_group_op bad_operator :
      AutomationValidationError
  value_missing not_numeric not_a_date bad_trigger bad_interval bad_offset one_field_needed :
      AutomationValidationError
  bad_actions bad_action_type not_writable bad_recipients no_recipient bad_notification
        bad_message :
      AutomationValidationError
  bad_timezone bad_retries no_fields no_values : AutomationValidationError

abbrev numeric_field_types : List String
numeric_field_types = "number" ∷ "progress" ∷ "rating" ∷ "autoNumber" ∷ "auto_number" ∷ []

abbrev date_field_types : List String
date_field_types = "date" ∷ "datetime" ∷ "createdTime" ∷ "modifiedTime" ∷ []

abbrev pub is_numeric : String → Bool
is_numeric field_type = contains field_type numeric_field_types

abbrev pub is_date : String → Bool
is_date field_type = contains field_type date_field_types

abbrev pub is_ordered : String → Bool
is_ordered field_type = is_numeric field_type || is_date field_type

abbrev base_operators : List String
base_operators = "equals" ∷ "not_equals" ∷ "in" ∷ "not_in" ∷ "empty" ∷ "not_empty" ∷ []

-- `_allowed_operators`
unfoldable pub allowed_operators : String → List String
allowed_operators field_type =
    if is_ordered field_type
    then base_operators ++ "gt" ∷ "gte" ∷ "lt" ∷ "lte" ∷ []
    else base_operators ++ "contains" ∷ "not_contains" ∷ []

-- The types of a table's fields by id.
abbrev pub FieldTypes : Type 0
FieldTypes = Dict String

-- `_require_field`: the id of the field that is found, and its type.
unfoldable pub require_field :
    FieldTypes → Json → Result AutomationValidationError (String × String)
require_field fields field_id =
    let key = strip (text_or field_id "") in
    elim (lookup key fields) [ none ↦ err unknown_field | some type ↦ ok (key, type) ]

-- `int(value)`; `none` is the `TypeError` or `ValueError`.
unfoldable pub to_int : Json → Option ℤ
to_int (int n) = some n
to_int (real n nonzero s) = some n
to_int (bool true) = some (pos 1)
to_int (bool false) = some (pos 0)
to_int (str s) = parse_int s
to_int _ = none

-- `conditions in (None, {}, [])`
abbrev pub is_blank : Json → Bool
is_blank null = true
is_blank (arr Json.nil) = true
is_blank (obj Json.end) = true
is_blank _ = false

abbrev pub no_condition : Condition
no_condition = group true nil

-- `str(conditions.get("op") or "and").strip().lower()`, as being "and" or "or".
unfoldable pub group_op : Dict Json → Result AutomationValidationError Bool
group_op conditions =
    let op = strip (text_or (get "op" conditions) "and") in
    if lower_eq op "and" then ok true else if lower_eq op "or" then ok false else err bad_group_op

unfoldable pub is_group : Dict Json → Bool
is_group conditions =
    let op = text_or (get "op" conditions) "" in
    has_key "items" conditions || lower_eq op "and" || lower_eq op "or"

-- `value or []`, where a list is asked for.
unfoldable pub items_or_empty : Json → Result AutomationValidationError (List Json)
items_or_empty (arr items) = ok (items_list items)
items_or_empty value = if truthy value then err not_a_list else ok []

-- The loop over the items of a group; `normalize` treats one item, at the counter that it is given.
unfoldable pub normalize_items :
    (Json → ℕ → Result AutomationValidationError (Condition × ℕ))
    → List Json
    → ℕ
    → Result AutomationValidationError (Conditions × ℕ)
normalize_items normalize [] counter = ok (nil, counter)
normalize_items normalize (item ∷ items) counter =
    if ltb 64 (suc counter)
    then err too_many
    else (normalize item (suc counter) >>= λ (c, n).
        normalize_items normalize items n >>= λ (cs, m). ok (cons c cs, m))

unfoldable pub normalize_group :
    (Json → ℕ → Result AutomationValidationError (Condition × ℕ))
    → Dict Json
    → ℕ
    → Result AutomationValidationError (Condition × ℕ)
normalize_group normalize conditions counter = group_op conditions >>= λ is_and.
    items_or_empty (get "items" conditions) >>= λ items.
    normalize_items normalize items counter >>= λ (cs, n). ok (group is_and cs, n)

module _ (python : Python) where
  open python use {Value, number, date, raw, less, same, equal, normal_number}

  abbrev or_error : Option Json → AutomationValidationError → Result AutomationValidationError Json
  or_error none e = err e
  or_error (some v) e = ok v

  abbrev date_kept : Json → Option Value → Result AutomationValidationError Json
  date_kept value none = err not_a_date
  date_kept value (some v) = ok value

  abbrev is_bool_or_null : Json → Bool
  is_bool_or_null (bool b) = true
  is_bool_or_null null = true
  is_bool_or_null _ = false

  -- `_normalize_typed_scalar` without `allow_none`.
  unfoldable pub normalize_typed_scalar : String → Json → Result AutomationValidationError Json
  normalize_typed_scalar field_type value =
      if is_numeric field_type
      then (if is_bool_or_null value
          then err not_numeric
          else or_error (normal_number value) not_numeric)
      else if is_date field_type
      then date_kept value (date value)
      else ok value

  unfoldable pub normalize_scalars :
      String → List Json → Result AutomationValidationError (List Json)
  normalize_scalars field_type [] = ok []
  normalize_scalars field_type (v ∷ vs) = normalize_typed_scalar field_type v >>= λ w.
      normalize_scalars field_type vs >>= λ ws. ok (w ∷ ws)

  -- `_normalize_typed_condition_value`, with the check that "in" and "not_in" have a list.
  unfoldable pub normalize_condition_value :
      String → String → Json → Result AutomationValidationError Json
  normalize_condition_value field_type operator value =
      if operator == "in" || operator == "not_in"
      then elim value [
        | arr items ↦
            normalize_scalars field_type (items_list items) >>= λ vs. ok (arr (list_items vs))
        | _ ↦ err not_a_list
      ]
      else normalize_typed_scalar field_type value

  abbrev pub test_value : String → String → Option Json → Result AutomationValidationError Json
  test_value field_type operator none = err value_missing
  test_value field_type operator (some value) = normalize_condition_value field_type operator value

  -- A condition on one field, by the operator that its type allows.
  unfoldable pub checked_test :
      String → String → Option Json → Option String → Result AutomationValidationError Condition
  checked_test field_id field_type value none = err bad_operator
  checked_test field_id field_type value (some operator) =
      if operator == "empty" || operator == "not_empty"
      then ok (test field_id operator null)
      else (test_value field_type operator value >>= λ expected.
          ok (test field_id operator expected))

  -- The branch of `normalize_conditions` for a condition on one field.
  unfoldable pub normalize_test :
      FieldTypes → Dict Json → Result AutomationValidationError Condition
  normalize_test fields conditions =
      require_field fields (get "fieldId" conditions) >>= λ (field_id, field_type).
      checked_test field_id field_type (lookup "value" conditions) (
        find (lower_eq (strip (text_or (get "operator" conditions) "")))
          (allowed_operators field_type))

  -- A value that is not blank; `normalize` treats the items of a group.
  unfoldable pub normalize_object :
      (Json → ℕ → Result AutomationValidationError (Condition × ℕ))
      → FieldTypes
      → Json
      → ℕ
      → Result AutomationValidationError (Condition × ℕ)
  normalize_object normalize fields (obj ms) counter =
      if is_group (members_dict ms)
      then normalize_group normalize (members_dict ms) counter
      else (normalize_test fields (members_dict ms) >>= λ c. ok (c, counter))
  normalize_object normalize fields conditions counter = err not_an_object

  -- The first argument is how many levels are left: nine at the top, where the depth is 0.
  unfoldable pub normalize_conditions :
      ℕ → FieldTypes → Json → ℕ → Result AutomationValidationError (Condition × ℕ)
  normalize_conditions zero fields conditions counter =
      if is_blank conditions then ok (no_condition, counter) else err too_deep
  normalize_conditions (suc levels) fields conditions counter =
      let made = normalize_object (normalize_conditions levels fields) fields conditions counter in
      if is_blank conditions then ok (no_condition, counter) else made
