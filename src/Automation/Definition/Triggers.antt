-- ===== src/Automation/Definition/Triggers.antt =====
-- The triggers that app/services/automation/validation.py accepts.
use qtable_server.Base.{
  ℕ, ◌≤◌, String, not, Option, none, some, ◌≡◌, subst, ◌||◌, ◌==◌, string_eq, nat_eq, Dict, lookup,
  has_key, length, arith, Bool-cases, inl, inr,
}
use qtable_server.Base.Int.{ℤ, pos, negsuc}
use qtable_server.Base.Result.{ok, ok_inj, guard, >>=-eq-ok}
use qtable_server.Json.{Json, obj, members_dict, get}
use qtable_server.Automation.{Trigger, record_created, record_updated, scheduled, due_date, manual}
use qtable_server.Automation.Normal.{
  Python, FieldTypes, AutomationValidationError, require_field, is_date, not_a_date,
  one_field_needed,
}
use qtable_server.Automation.Definition.{
  normalize_field_ids, with_field_id, normalize_transition, type_of_one, int_between,
  normalize_scheduled, normalize_due_date, normalize_updated, trigger_by_type, normalize_trigger,
}

-- A schedule of 1 minute to 30 days, an offset of at most a year, a scan at least once a day.
abbrev pub TriggerIsWithin : Trigger → Type 0
TriggerIsWithin (scheduled interval) = (1 ≤ interval) × (interval ≤ 43200)
TriggerIsWithin (due_date field_id offset scan_interval) =
    (offset ≤ 525600) × (1 ≤ scan_interval) × (scan_interval ≤ 1440)
TriggerIsWithin record_created = Unit
TriggerIsWithin (record_updated field_ids from to) = Unit
TriggerIsWithin manual = Unit

pub int_between_lem :
    (low high : ℕ) (e : AutomationValidationError) (value : Option ℤ) (n : ℕ)
    → int_between low high e value ≡ ok n
    → (low ≤ n) × (n ≤ high)
unfolding int_between
int_between_lem low high e none n h = absurd (cc)
int_between_lem low high e (some (negsuc m)) n h = absurd (cc)
int_between_lem low high e (some (pos m)) n h = ground arith

normalize_scheduled-TriggerIsWithin :
    (trigger : Dict Json) (made : Trigger)
    → normalize_scheduled trigger ≡ ok made
    → TriggerIsWithin made
unfolding normalize_scheduled
normalize_scheduled-TriggerIsWithin trigger made h =
    let (interval, checked, last) = >>=-eq-ok (int_between 1 43200 _ _) _ h in
    subst TriggerIsWithin (ok_inj last) (int_between_lem 1 43200 _ _ interval checked)

normalize_due_date-TriggerIsWithin :
    (fields : FieldTypes) (trigger : Dict Json) (made : Trigger)
    → normalize_due_date fields trigger ≡ ok made
    → TriggerIsWithin made
unfolding normalize_due_date
normalize_due_date-TriggerIsWithin fields trigger made h =
    let (field, _, first) = >>=-eq-ok (require_field fields (get "fieldId" trigger)) _ h in
    let (u, _, second) = >>=-eq-ok (guard (is_date field.1) not_a_date) _ first in
    let (offset, offset_checked, third) = >>=-eq-ok (int_between 0 525600 _ _) _ second in
    let (scan, scan_checked, last) = >>=-eq-ok (int_between 1 1440 _ _) _ third in
    subst TriggerIsWithin (ok_inj last) (
      (int_between_lem 0 525600 _ _ offset offset_checked).1,
      (int_between_lem 1 1440 _ _ scan scan_checked).0,
      (int_between_lem 1 1440 _ _ scan scan_checked).1,
    )

normalize_updated-TriggerIsWithin :
    (python : Python) (fields : FieldTypes) (trigger : Dict Json) (made : Trigger)
    → normalize_updated python fields trigger ≡ ok made
    → TriggerIsWithin made
unfolding normalize_updated
normalize_updated-TriggerIsWithin python fields trigger made h =
    let (listed, _, first) = >>=-eq-ok (normalize_field_ids fields (get "fieldIds" trigger)) _ h in
    let (ids, _, second) =
      >>=-eq-ok (with_field_id fields (get "fieldId" trigger) listed) _ first in
    let (u, _, third) =
      >>=-eq-ok
        (guard (not (has_key "from" trigger || has_key "to" trigger) || length ids == 1)
          one_field_needed)
        _ second in
    let type : Option String = type_of_one fields ids in
    let (from, _, fourth) =
      >>=-eq-ok (normalize_transition python type (lookup "from" trigger)) _ third in
    let (to, _, last) =
      >>=-eq-ok (normalize_transition python type (lookup "to" trigger)) _ fourth in
    subst TriggerIsWithin (ok_inj last) tt

trigger_by_type-TriggerIsWithin :
    (python : Python) (fields : FieldTypes) (trigger : Dict Json) (type : String) (made : Trigger)
    → trigger_by_type python fields trigger type ≡ ok made
    → TriggerIsWithin made
unfolding trigger_by_type
trigger_by_type-TriggerIsWithin python fields trigger type made h =
    elim (Bool-cases (type == "record.created")) [
      | inl a ↦ subst TriggerIsWithin (ok_inj (rw a at h)) tt
      | inr a ↦ elim (Bool-cases (type == "manual")) [
        | inl b ↦ subst TriggerIsWithin (ok_inj (rw (a, b) at h)) tt
        | inr b ↦ elim (Bool-cases (type == "record.updated")) [
          | inl c ↦ normalize_updated-TriggerIsWithin python fields trigger made (rw (a, b, c) at h)
          | inr c ↦ elim (Bool-cases (type == "scheduled")) [
            | inl d ↦ normalize_scheduled-TriggerIsWithin trigger made (rw (a, b, c, d) at h)
            | inr d ↦ elim (Bool-cases (type == "due_date")) [
              | inl e ↦
                  normalize_due_date-TriggerIsWithin fields trigger made (rw (a, b, c, d, e) at h)
              | inr e ↦ absurd (cc (rw (a, b, c, d, e) at h))
            ]
          ]
        ]
      ]
    ]

pub normalize_trigger-TriggerIsWithin :
    (python : Python) (fields : FieldTypes) (value : Json) (made : Trigger)
    → normalize_trigger python fields value ≡ ok made
    → TriggerIsWithin made
unfolding normalize_trigger
normalize_trigger-TriggerIsWithin python fields (obj ms) made h =
    trigger_by_type-TriggerIsWithin python fields (members_dict ms) _ made h
normalize_trigger-TriggerIsWithin python fields _ made h = absurd (cc)
