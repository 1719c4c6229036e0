-- ===== src/CalendarRange/Tests.antt =====
-- A range of two days, where a number is read as itself.
use qtable_server.Base.{Option, some, List, [], ◌∷◌, ◌≡◌, refl, Dict}
use qtable_server.Base.Int.{ℤ, pos}
use qtable_server.Base.Result.{ok, err}
use qtable_server.Json.{Json, int, str}
use qtable_server.AutoNumber.{type_is}
use qtable_server.RowPermission.{text_of}
use qtable_server.CalendarRange.{
  CalendarRangeError, Dates, validate_calendar_range_update, checked_field, checked_end,
  to_datetime, end_datetime, check_order, date_field_by_id,
}
use qtable_server.CalendarRange.Order.{
  IsOrdered, IsRead, IsEnd, has_end_field, validate_calendar_range_update-IsOrdered,
}

abbrev numbers : Dates
numbers (int n) = ok (some n)
numbers _ = err CalendarRangeError.not_a_date

abbrev days : List (Dict Json)
days =
    (("id", str "from") ∷ ("type", str "date") ∷ [])
    ∷ (("id", str "to") ∷ ("type", str "date") ∷ [])
    ∷ []

in_order :
    validate_calendar_range_update numbers days "from" (some "to") (int (pos 3)) (int (pos 4))
    ≡ ok tt
unfolding validate_calendar_range_update checked_field checked_end to_datetime end_datetime
    check_order date_field_by_id type_is text_of
in_order = refl

out_of_order :
    validate_calendar_range_update numbers days "from" (some "to") (int (pos 4)) (int (pos 3))
    ≡ err CalendarRangeError.end_before_start
unfolding validate_calendar_range_update checked_field checked_end to_datetime end_datetime
    check_order date_field_by_id type_is text_of
out_of_order = refl

validate_calendar_range_update-IsOrdered_example :
    (start_dt end_dt : Option ℤ) × IsRead numbers (int (pos 3)) start_dt
    × IsEnd numbers (int (pos 4)) end_dt (has_end_field (some "to"))
    × IsOrdered start_dt end_dt
validate_calendar_range_update-IsOrdered_example =
    validate_calendar_range_update-IsOrdered numbers days "from" (some "to") (int (pos 3))
      (int (pos 4)) tt in_order
