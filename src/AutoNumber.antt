-- ===== src/AutoNumber.antt =====
-- Auto-number fields: app/services/auto_number_engine.py. A property is a decoded JSON object;
-- `dict(value)` of anything but an object, or of a value that is false, raises here, also for the
-- list of pairs that Python would take.
mod Tests
pub mod Normal
pub mod Allocate
mod Format
use qtable_server.Base.{
  ℕ, zero, suc, ◌+◌, String, Bool, true, false, not, Option, none, some, List, [], ◌∷◌, ◌≡◌, refl,
  ◌&&◌, ◌||◌, leb, ltb, ◌==◌, string_eq, nat_eq, if◌then◌else◌, Dict, lookup, insert,
}
use qtable_server.Base.Int.{ℤ, pos, negsuc, pos_part, ◌+ℤ◌, ltb_ℤ, leb_ℤ}
use qtable_server.Base.Result.{Result, ok, err, ◌>>=◌, ◌>>◌, guard}
use qtable_server.Json.{
  Json, null, bool, int, real, str, arr, obj, members_dict, dict_members, truthy, get,
}
use qtable_server.Text.{parse_int, char_count}

-- `AutoNumberValidationError` by its message, and the error of `dict()`.
pub data AutoNumberError : Type 0 where
  not_a_dict prefix_not_text prefix_too_long digits_not_integer digits_range start_not_integer :
      AutoNumberError
  start_range : AutoNumberError

-- `int(value)`; `none` is the `TypeError` or `ValueError`.
unfoldable pub int_of : Json → Option ℤ
int_of null = none
int_of (bool true) = some (pos 1)
int_of (bool false) = some (pos 0)
int_of (int n) = some n
int_of (real n nonzero s) = some n
int_of (str s) = parse_int s
int_of (arr xs) = none
int_of (obj ms) = none

-- `str(field.get("type") or "") == text`, for a text that no other value prints.
unfoldable pub type_is : String → Json → Bool
type_is text (str s) = s == text
type_is text _ = false

unfoldable pub is_auto_number_field : Dict Json → Bool
unfolding type_is
is_auto_number_field field = type_is "autoNumber" (get "type" field)

-- `dict(property_value or {})`
unfoldable pub property_dict : Json → Result AutoNumberError (Dict Json)
property_dict (obj ms) = ok (members_dict ms)
property_dict value = if truthy value then err AutoNumberError.not_a_dict else ok []

-- `prop.get(key, default)`
abbrev pub get_default : String → Json → Dict Json → Json
get_default key default prop = elim (lookup key prop) [ none ↦ default | some v ↦ v ]

abbrev pub max_start : ℕ
max_start = 999999999999

unfoldable pub max_ℤ : ℤ → ℤ → ℤ
max_ℤ a b = if ltb_ℤ a b then b else a

unfoldable pub prefix_of : Json → Result AutoNumberError String
prefix_of null = ok ""
prefix_of (str s) = if leb (char_count s) 64 then ok s else err AutoNumberError.prefix_too_long
prefix_of _ = err AutoNumberError.prefix_not_text

-- `int(value)` in a range, or one of two errors.
unfoldable pub ranged : Json → ℕ → ℕ → AutoNumberError → AutoNumberError → Result AutoNumberError ℤ
ranged value low high not_integer out_of_range = elim (int_of value) [
  | none ↦ err not_integer
  | some n ↦ if ltb_ℤ n (pos low) || ltb_ℤ (pos high) n then err out_of_range else ok n
]

-- The next number: the stored one, or the one to preserve, and never below the start.
unfoldable pub next_number : Option ℤ → ℤ → Dict Json → ℤ
next_number none start prop = elim (int_of (get_default "nextNumber" (int start) prop)) [
  | none ↦ max_ℤ start start
  | some n ↦ max_ℤ start n
]
next_number (some keep) start prop = max_ℤ start keep

-- `prop.update({...})`
unfoldable pub updated : String → ℤ → ℤ → ℤ → Dict Json → Dict Json
updated prefix digits start next prop =
    insert "nextNumber" (int next) (
      insert "start" (int start) (insert "digits" (int digits) (insert "prefix" (str prefix) prop)))

unfoldable pub normalize_auto_number_property : Json → Option ℤ → Result AutoNumberError (Dict Json)
normalize_auto_number_property property_value preserve_next = do
  prop ← property_dict property_value
  prefix ← prefix_of (get_default "prefix" (str "") prop)
  digits ←
      ranged (get_default "digits" (int (pos 3)) prop) 1 12 AutoNumberError.digits_not_integer
        AutoNumberError.digits_range
  start ←
      ranged (get_default "start" (int (pos 1)) prop) 1 max_start AutoNumberError.start_not_integer
        AutoNumberError.start_range
  ok (updated prefix digits start (next_number preserve_next start prop) prop)

unfoldable pub validate_auto_number_field : Dict Json → Result AutoNumberError (Unit {0})
validate_auto_number_field field =
    if is_auto_number_field field
    then normalize_auto_number_property (get "property" field) none >>= (λ prop. ok tt)
    else ok tt

-- `list(range(first, first + amount))`
unfoldable pub range_from : ℤ → ℕ → List ℤ
range_from first zero = []
range_from first (suc amount) = first ∷ range_from (first +ℤ pos 1) amount

-- `int(prop["nextNumber"])`: the key is there after a normalisation.
abbrev pub next_of : Dict Json → ℤ
next_of prop = elim (int_of (get "nextNumber" prop)) [ none ↦ pos 0 | some n ↦ n ]

-- `max(0, int(count))` is `pos_part count`.
unfoldable pub allocate_auto_number_values : Json → ℤ → Result AutoNumberError (List ℤ × Dict Json)
unfolding range_from
allocate_auto_number_values property_value count = do
  prop ← normalize_auto_number_property property_value none
  let amount = pos_part count
  let first = next_of prop
  ok (range_from first amount, insert "nextNumber" (int (first +ℤ pos amount)) prop)
