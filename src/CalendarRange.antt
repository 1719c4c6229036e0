-- ===== src/CalendarRange.antt =====
-- The check of a calendar range before it is written: app/services/calendar_range.py. What Python's
-- datetime makes of a value that is neither missing nor empty is an argument: an instant in
-- microseconds, nothing for a blank text, or an error.
pub mod Order
mod Tests
use qtable_server.Base.{
  ℕ, String, Bool, true, false, not, Option, none, some, List, [], ◌∷◌, ◌&&◌, ◌||◌, ◌==◌, string_eq,
  if◌then◌else◌, Dict,
}
use qtable_server.Base.Int.{ℤ, ltb_ℤ}
use qtable_server.Base.Result.{Result, ok, err, ◌>>=◌, ◌>>◌, guard}
use qtable_server.Json.{Json, get, is_null, is_empty_str}
use qtable_server.AutoNumber.{type_is}
use qtable_server.RowPermission.{text_of}

-- `CalendarRangeError` by its message.
pub data CalendarRangeError : Type 0 where
  not_a_date start_missing start_not_date same_field end_missing end_not_date : CalendarRangeError
  end_not_configured end_without_start end_before_start : CalendarRangeError

abbrev pub Dates : Type 0
Dates = Json → Result CalendarRangeError (Option ℤ)

-- `fields_by_id.get(id)`: the last field with the id.
unfoldable pub date_field_by_id : String → List (Dict Json) → Option (Dict Json)
date_field_by_id id [] = none
date_field_by_id id (f ∷ fields) =
    let here = if not (is_null (get "id" f)) && text_of (get "id" f) == id then some f else none in
    elim (date_field_by_id id fields) [ some g ↦ some g | none ↦ here ]

unfoldable pub checked_field :
    Option (Dict Json)
    → CalendarRangeError
    → CalendarRangeError
    → Result CalendarRangeError (Unit {0})
checked_field none missing other_type = err missing
checked_field (some field) missing other_type = guard (type_is "date" (get "type" field)) other_type

abbrev pub blank : Json → Bool
blank value = is_null value || is_empty_str value

-- The start of `_to_datetime`.
unfoldable pub to_datetime : Dates → Json → Result CalendarRangeError (Option ℤ)
to_datetime dates value = if blank value then ok none else dates value

-- The checks of the end field; they say whether there is one.
unfoldable pub checked_end :
    List (Dict Json) → String → Option String → Json → Result CalendarRangeError Bool
checked_end fields start_field_id none end_value =
    guard (blank end_value) end_not_configured >>= λ u. ok false
checked_end fields start_field_id (some end_field_id) end_value =
    if end_field_id == ""
    then (guard (blank end_value) end_not_configured >>= λ u. ok false)
    else (guard (not (end_field_id == start_field_id)) same_field >>= λ u.
        checked_field (date_field_by_id end_field_id fields) end_missing end_not_date >>= λ v.
        ok true)

-- The comparison at the end of the check.
unfoldable pub check_order : Option ℤ → Option ℤ → Result CalendarRangeError (Unit {0})
check_order none none = ok tt
check_order none (some end_dt) = err end_without_start
check_order (some start_dt) none = ok tt
check_order (some start_dt) (some end_dt) = guard (not (ltb_ℤ end_dt start_dt)) end_before_start

unfoldable pub end_datetime : Dates → Bool → Json → Result CalendarRangeError (Option ℤ)
end_datetime dates true end_value = to_datetime dates end_value
end_datetime dates false end_value = ok none

unfoldable pub validate_calendar_range_update :
    Dates
    → List (Dict Json)
    → String
    → Option String
    → Json
    → Json
    → Result CalendarRangeError (Unit {0})
validate_calendar_range_update dates fields start_field_id end_field_id start_value end_value =
    checked_field (date_field_by_id start_field_id fields) start_missing start_not_date >>= λ u.
    checked_end fields start_field_id end_field_id end_value >>= λ has_end.
    to_datetime dates start_value >>= λ start_dt.
    end_datetime dates has_end end_value >>= λ end_dt. check_order start_dt end_dt
