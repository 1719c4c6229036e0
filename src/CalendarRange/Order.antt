-- ===== src/CalendarRange/Order.antt =====
-- What a range that passes the check is (app/services/calendar_range.py).
use qtable_server.Base.{
  String, Bool, true, false, not, Option, none, some, List, ◌≡◌, ◌⊎◌, sym, subst, inl, inr, arith,
  ◌==◌, string_eq, Dict, Bool-cases,
}
use qtable_server.Base.Int.{ℤ, ◌≤ℤ◌}
use qtable_server.Base.Result.{ok, ◌>>=◌, guard, >>=-eq-ok, ok_inj}
use qtable_server.Json.{Json}
use qtable_server.CalendarRange.{
  CalendarRangeError, Dates, validate_calendar_range_update, checked_field, checked_end,
  to_datetime, end_datetime, check_order, date_field_by_id, blank,
}

-- No end comes without a start, and none before it.
abbrev pub IsOrdered : Option ℤ → Option ℤ → Type 0
IsOrdered none none = Unit
IsOrdered none (some end_dt) = ⊥
IsOrdered (some start_dt) none = Unit
IsOrdered (some start_dt) (some end_dt) = start_dt ≤ℤ end_dt

check_order-IsOrdered : (s e : Option ℤ) (u : Unit {0}) → check_order s e ≡ ok u → IsOrdered s e
unfolding check_order
check_order-IsOrdered none none u h = tt
check_order-IsOrdered none (some e) u h = cc
check_order-IsOrdered (some s) none u h = tt
check_order-IsOrdered (some s) (some e) u h = ground arith

-- An end field is configured.
abbrev pub has_end_field : Option String → Bool
has_end_field none = false
has_end_field (some id) = not (id == "")

-- What a value is read as: nothing, where it is missing or empty, and else what the language reads.
abbrev pub IsRead : Dates → Json → Option ℤ → Type 0
IsRead dates value at =
    ((blank value ≡ true) × (at ≡ none)) ⊎ ((blank value ≡ false) × (dates value ≡ ok at))

-- What the end is read as, with and without an end field.
abbrev pub IsEnd : Dates → Json → Option ℤ → Bool → Type 0
IsEnd dates value at true = IsRead dates value at
IsEnd dates value at false = (blank value ≡ true) × (at ≡ none)

to_datetime-IsRead :
    (dates : Dates) (value : Json) (at : Option ℤ)
    → to_datetime dates value ≡ ok at
    → IsRead dates value at
unfolding to_datetime
to_datetime-IsRead dates value at h = elim (Bool-cases (blank value)) [
  | inl empty ↦ inl (empty, sym (ok_inj (rw empty at h)))
  | inr given ↦ inr (given, rw given at h)
]

no_end_field :
    (dates : Dates) (value : Json) (has_end : Bool) (at : Option ℤ)
    → (guard (blank value) CalendarRangeError.end_not_configured >>= λ u. ok false) ≡ ok has_end
    → end_datetime dates has_end value ≡ ok at
    → (blank value ≡ true) × (at ≡ none)
unfolding end_datetime
no_end_field dates value has_end at h read =
    let (u, empty, h₁) =
      >>=-eq-ok (guard (blank value) CalendarRangeError.end_not_configured) _ h in
    elim (Bool-cases (blank value)) [
      | inl unset ↦ (
        unset,
        sym (ok_inj (subst (λ b. end_datetime dates b value ≡ ok at) (sym (ok_inj h₁)) read)),
      )
      | inr sent ↦ absurd (cc (rw sent at empty))
    ]

checked_end-IsEnd :
    (dates : Dates) (fields : List (Dict Json)) (start_field_id : String)
    (end_field_id : Option String) (value : Json) (has_end : Bool) (at : Option ℤ)
    → checked_end fields start_field_id end_field_id value ≡ ok has_end
    → end_datetime dates has_end value ≡ ok at
    → IsEnd dates value at (has_end_field end_field_id)
unfolding checked_end end_datetime
checked_end-IsEnd dates fields start_field_id none value has_end at h read =
    no_end_field dates value has_end at h read
checked_end-IsEnd dates fields start_field_id (some id) value has_end at h read =
    elim (Bool-cases (id == "")) [
      | inl blank_id ↦ rw blank_id (no_end_field dates value has_end at (rw blank_id at h) read)
      | inr named ↦
          let (u, apart, h₁) =
            >>=-eq-ok (guard (not (id == start_field_id)) CalendarRangeError.same_field) _
              (rw named at h) in
          let (v, checked, h₂) =
            >>=-eq-ok
              (checked_field (date_field_by_id id fields) CalendarRangeError.end_missing
                CalendarRangeError.end_not_date)
              _ h₁ in
          rw named (
            to_datetime-IsRead dates value at
              (subst (λ b. end_datetime dates b value ≡ ok at) (sym (ok_inj h₂)) read))
    ]

-- A range that passes is in order: no end without a start and none before it. Its start is what the
-- value of the start reads as; its end is what the value of the end reads as where an end field is
-- configured, and without one there is no end, and no value for it either.
pub validate_calendar_range_update-IsOrdered :
    (dates : Dates) (fields : List (Dict Json)) (start_field_id : String)
    (end_field_id : Option String) (start_value end_value : Json) (u : Unit {0})
    → validate_calendar_range_update dates fields start_field_id end_field_id start_value end_value
      ≡ ok u
    → (start_dt end_dt : Option ℤ) × IsRead dates start_value start_dt
      × IsEnd dates end_value end_dt (has_end_field end_field_id)
      × IsOrdered start_dt end_dt
unfolding validate_calendar_range_update
validate_calendar_range_update-IsOrdered dates fields start_field_id end_field_id start_value
      end_value u h =
    let (v, started, h₁) =
      >>=-eq-ok
        (checked_field (date_field_by_id start_field_id fields) CalendarRangeError.start_missing
          CalendarRangeError.start_not_date)
        _ h in
    let (has_end, ended, h₂) =
      >>=-eq-ok (checked_end fields start_field_id end_field_id end_value) _ h₁ in
    let (start_dt, from, h₃) = >>=-eq-ok (to_datetime dates start_value) _ h₂ in
    let (end_dt, until, h₄) = >>=-eq-ok (end_datetime dates has_end end_value) _ h₃ in
    (
      start_dt,
      end_dt,
      to_datetime-IsRead dates start_value start_dt from,
      checked_end-IsEnd dates fields start_field_id end_field_id end_value has_end end_dt ended
          until,
      check_order-IsOrdered start_dt end_dt u h₄,
    )
