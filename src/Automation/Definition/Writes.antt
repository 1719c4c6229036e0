-- ===== src/Automation/Definition/Writes.antt =====
-- The actions that app/services/automation/validation.py accepts.
use qtable_server.Base.{
  suc, ◌≤◌, String, Bool, true, false, not, Option, none, some, List, [], ◌∷◌, ◌≡◌, refl, ap, ◌∙◌,
  subst, ◌&&◌, ◌||◌, ◌==◌, string_eq, nat_eq, leb, Dict, lookup, insert, contains, length, is_empty,
  All, arith, Bool-cases, Option-cases, inl, inr,
}
use qtable_server.Base.Result.{ok, ok_inj, guard, >>=-eq-ok, guard-ok}
use qtable_server.Json.{Json, str, arr, obj, members_dict, items_list, get}
use qtable_server.Text.{strip, char_count}
use qtable_server.Automation.{Action, update_record, create_record, notify, text_or}
use qtable_server.Automation.Normal.{
  FieldTypes, require_field, items_or_empty, not_writable, no_values, bad_actions, no_recipient,
  bad_notification, bad_message,
}
use qtable_server.Automation.Definition.{
  is_writable, collect_writes, normalize_write_fields, collect_recipients,
  normalize_recipient_field, notification_types, is_given, normalize_notify, action_by_type,
  normalize_action, normalize_each, normalize_actions,
}

abbrev has_writable_type : Option String → Bool
has_writable_type none = false
has_writable_type (some type) = is_writable type

-- A field of the table, of a type that may be written.
abbrev pub may_write : FieldTypes → String → Bool
may_write fields field_id = has_writable_type (lookup field_id fields)

abbrev pub MayWrite : FieldTypes → Dict Json → Type 0
MayWrite fields writes = All (λ e. may_write fields e.0 ≡ true) writes

abbrev pub ActionIsAllowed : FieldTypes → Action → Type 0
ActionIsAllowed fields (update_record writes) = MayWrite fields writes
ActionIsAllowed fields (create_record writes) = MayWrite fields writes
ActionIsAllowed fields (notify recipients field_id type message) = Unit

require_field-lookup :
    (fields : FieldTypes) (value : Json) (field : String × String)
    → require_field fields value ≡ ok field
    → lookup field.0 fields ≡ some field.1
unfolding require_field
require_field-lookup fields value field h =
    elim (Option-cases (lookup (strip (text_or value "")) fields)) [
      | inl gone ↦ absurd (cc (rw (gone, require_field) at h))
      | inr (type, there) ↦
          subst (λ f. lookup f.0 fields ≡ some f.1) (ok_inj (rw (there, require_field) at h)) there
    ]

insert-MayWrite :
    (fields : FieldTypes) (k : String) (v : Json) (writes : Dict Json)
    → may_write fields k ≡ true
    → MayWrite fields writes
    → MayWrite fields (insert k v writes)
insert-MayWrite fields k v [] one all = (one, tt)
insert-MayWrite fields k v (e ∷ writes) one all = elim (Bool-cases (e.0 == k)) [
  | inl here ↦ rw here (one, all.1)
  | inr other ↦ rw other (all.0, insert-MayWrite fields k v writes one all.1)
]

collect_writes-MayWrite :
    (fields : FieldTypes) (value normalized made : Dict Json)
    → MayWrite fields normalized
    → collect_writes fields value normalized ≡ ok made
    → MayWrite fields made
unfolding collect_writes
collect_writes-MayWrite fields [] normalized made all h = subst (MayWrite fields) (ok_inj h) all
collect_writes-MayWrite fields ((raw_id, item) ∷ value) normalized made all h =
    let (field, found, first) = >>=-eq-ok (require_field fields (str raw_id)) _ h in
    let (u, writable, last) = >>=-eq-ok (guard (is_writable field.1) not_writable) _ first in
    let allowed : may_write fields field.0 ≡ true =
      ap has_writable_type (require_field-lookup fields (str raw_id) field found)
      ∙ (guard-ok (is_writable field.1) not_writable writable) in
    collect_writes-MayWrite fields value (insert field.0 item normalized) made
      (insert-MayWrite fields field.0 item normalized allowed all) last

normalize_write_fields-MayWrite :
    (fields : FieldTypes) (value : Json) (made : Dict Json)
    → normalize_write_fields fields value ≡ ok made
    → MayWrite fields made
unfolding normalize_write_fields
normalize_write_fields-MayWrite fields (obj ms) made h =
    let (u, _, last) = >>=-eq-ok (guard (not (is_empty (members_dict ms))) no_values) _ h in
    collect_writes-MayWrite fields (members_dict ms) [] made tt last
normalize_write_fields-MayWrite fields _ made h = absurd (cc)

normalize_notify-ActionIsAllowed :
    (fields : FieldTypes) (raw : Dict Json) (made : Action)
    → normalize_notify fields raw ≡ ok made
    → ActionIsAllowed fields made
unfolding normalize_notify
normalize_notify-ActionIsAllowed fields raw made h =
    let (items, _, first) = >>=-eq-ok (items_or_empty (get "recipientUserIds" raw)) _ h in
    let (recipients, _, second) = >>=-eq-ok (collect_recipients items []) _ first in
    let (field_id, _, third) =
      >>=-eq-ok (normalize_recipient_field fields (get "recipientFieldId" raw)) _ second in
    let type : String = strip (text_or (get "notificationType" raw) "automation") in
    let message : String = strip (text_or (get "message" raw) "自动化规则已触发") in
    let (u, _, fourth) =
      >>=-eq-ok (guard (not (is_empty recipients) || is_given field_id) no_recipient) _ third in
    let (v, _, fifth) =
      >>=-eq-ok (guard (contains type notification_types) bad_notification) _ fourth in
    let (x, _, last) =
      >>=-eq-ok (guard (not (message == "") && leb (char_count message) 500) bad_message) _ fifth in
    subst (ActionIsAllowed fields) (ok_inj last) tt

action_by_type-ActionIsAllowed :
    (fields : FieldTypes) (raw : Dict Json) (type : String) (made : Action)
    → action_by_type fields raw type ≡ ok made
    → ActionIsAllowed fields made
unfolding action_by_type
action_by_type-ActionIsAllowed fields raw type made h =
    elim (Bool-cases (type == "update_record")) [
      | inl a ↦
          let (writes, checked, last) =
            >>=-eq-ok (normalize_write_fields fields (get "fields" raw)) _ (rw a at h) in
          subst (ActionIsAllowed fields) (ok_inj last)
            (normalize_write_fields-MayWrite fields _ writes checked)
      | inr a ↦ elim (Bool-cases (type == "create_record")) [
        | inl b ↦
            let (writes, checked, last) =
              >>=-eq-ok (normalize_write_fields fields (get "fields" raw)) _ (rw (a, b) at h) in
            subst (ActionIsAllowed fields) (ok_inj last)
              (normalize_write_fields-MayWrite fields _ writes checked)
        | inr b ↦ elim (Bool-cases (type == "notify")) [
          | inl c ↦ normalize_notify-ActionIsAllowed fields raw made (rw (a, b, c) at h)
          | inr c ↦ absurd (cc (rw (a, b, c) at h))
        ]
      ]
    ]

normalize_action-ActionIsAllowed :
    (fields : FieldTypes) (value : Json) (made : Action)
    → normalize_action fields value ≡ ok made
    → ActionIsAllowed fields made
unfolding normalize_action
normalize_action-ActionIsAllowed fields (obj ms) made h =
    action_by_type-ActionIsAllowed fields (members_dict ms) _ made h
normalize_action-ActionIsAllowed fields _ made h = absurd (cc)

normalize_each-allowed :
    (fields : FieldTypes) (items : List Json) (made : List Action)
    → normalize_each fields items ≡ ok made
    → All (ActionIsAllowed fields) made × (length made ≡ length items)
unfolding normalize_each
normalize_each-allowed fields [] made h =
    subst (λ xs. All (ActionIsAllowed fields) xs × (length xs ≡ 0)) (ok_inj h) (tt, refl)
normalize_each-allowed fields (raw ∷ items) made h =
    let (action, one, rest) = >>=-eq-ok (normalize_action fields raw) _ h in
    let (actions, others, last) = >>=-eq-ok (normalize_each fields items) _ rest in
    let (allowed, as_many) = normalize_each-allowed fields items actions others in
    subst (λ xs. All (ActionIsAllowed fields) xs × (length xs ≡ suc (length items))) (ok_inj last)
      ((normalize_action-ActionIsAllowed fields raw action one, allowed), ap suc as_many)

pub normalize_actions-allowed :
    (fields : FieldTypes) (value : Json) (made : List Action)
    → normalize_actions fields value ≡ ok made
    → All (ActionIsAllowed fields) made × (1 ≤ length made) × (length made ≤ 32)
unfolding normalize_actions
normalize_actions-allowed fields (arr items) made h =
    let xs : List Json = items_list items in
    let (u, sized, last) =
      >>=-eq-ok (guard (not (is_empty xs) && leb (length xs) 32) bad_actions) _ h in
    let (allowed, as_many) = normalize_each-allowed fields xs made last in
    let size : (1 ≤ length xs) × (length xs ≤ 32) =
      list_size xs (guard-ok (not (is_empty xs) && leb (length xs) 32) bad_actions sized) in
    (allowed, omega (arith, as_many, size), omega (arith, as_many, size))
  where
    list_size :
        (xs : List Json)
        → (not (is_empty xs) && leb (length xs) 32) ≡ true
        → (1 ≤ length xs) × (length xs ≤ 32)
    list_size [] k = absurd (cc)
    list_size (x ∷ xs) k = ground arith
normalize_actions-allowed fields _ made h = absurd (cc)
