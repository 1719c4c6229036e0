-- ===== src/Automation/Normal/Bounds.antt =====
-- How large a normalised condition can be (app/services/automation/validation.py).
use qtable_server.Base.{
  ℕ, zero, suc, ◌+◌, ◌≤◌, max, String, false, Option, none, some, List, [], ◌∷◌, ◌≡◌, subst, ltb,
  Dict, lookup, ◌==◌, ◌||◌, string_eq, arith, Bool-cases, inl, inr,
}
use qtable_server.Base.Result.{Result, ok, ok_inj, >>=-eq-ok}
use qtable_server.Json.{Json, obj, members_dict, get}
use qtable_server.Automation.{Condition, Conditions, group, test, nil, cons}
use qtable_server.Automation.Normal.{
  Python, AutomationValidationError, FieldTypes, normalize_items, normalize_group, normalize_test,
  normalize_conditions, normalize_object, checked_test, test_value, is_blank, is_group, group_op,
  items_or_empty, no_condition, require_field,
}

-- How many items the groups of a condition hold, and how deep they are nested.
unfoldable mutual
  pub item_count : Condition → ℕ
  item_count (group is_and cs) = item_counts cs
  item_count (test field_id operator value) = 0

  pub item_counts : Conditions → ℕ
  item_counts nil = 0
  item_counts (cons c cs) = suc (item_count c) + item_counts cs

unfoldable mutual
  pub nesting : Condition → ℕ
  nesting (group is_and cs) = nestings cs
  nesting (test field_id operator value) = 0

  pub nestings : Conditions → ℕ
  nestings nil = 0
  nestings (cons c cs) = max (suc (nesting c)) (nestings cs)

-- The counter goes up by the items, and stays within the bound.
record IsCounted (levels counter : ℕ) (made : Condition × ℕ) : Type 0 where
  counted : counter + item_count made.0 ≡ made.1
  bounded : counter ≤ 64 → made.1 ≤ 64
  shallow : nesting made.0 ≤ levels

record AreCounted (levels counter : ℕ) (made : Conditions × ℕ) : Type 0 where
  all_counted : counter + item_counts made.0 ≡ made.1
  all_bounded : counter ≤ 64 → made.1 ≤ 64
  all_shallow : nestings made.0 ≤ suc levels

counted_cons :
    (levels counter : ℕ) (c : Condition × ℕ) (cs : Conditions × ℕ)
    → ltb 64 (suc counter) ≡ false
    → IsCounted levels (suc counter) c
    → AreCounted levels c.1 cs
    → AreCounted levels counter (cons c.0 cs.0, cs.1)
unfolding item_counts nestings
counted_cons levels counter c cs room one rest = record {
  all_counted = omega (arith, one.counted, rest.all_counted);
  all_bounded = λ h. rest.all_bounded (one.bounded (ground arith));
  all_shallow = omega (arith, one.shallow, rest.all_shallow);
}

module _ (levels : ℕ) (normalize : Json → ℕ → Result AutomationValidationError (Condition × ℕ))
    (each : (item : Json) (counter : ℕ) (made : Condition × ℕ)
      → normalize item counter ≡ ok made
      → IsCounted levels counter made) where
  normalize_items-AreCounted :
      (items : List Json) (counter : ℕ) (made : Conditions × ℕ)
      → normalize_items normalize items counter ≡ ok made
      → AreCounted levels counter made
  unfolding normalize_items item_counts nestings
  normalize_items-AreCounted [] counter made h =
      subst (AreCounted levels counter) (ok_inj h)
        (record { all_counted = omega arith; all_bounded = λ k. k; all_shallow = omega arith })
  normalize_items-AreCounted (item ∷ items) counter made h =
      elim (Bool-cases (ltb 64 (suc counter))) [
        | inl full ↦ absurd (cc (rw full at h))
        | inr room ↦
            let (c, one, rest) = >>=-eq-ok (normalize item (suc counter)) _ (rw room at h) in
            let (cs, others, last) = >>=-eq-ok (normalize_items normalize items c.1) _ rest in
            subst (AreCounted levels counter) (ok_inj last) (
              counted_cons levels counter c cs room (each item (suc counter) c one)
                (normalize_items-AreCounted items c.1 cs others))
      ]

  normalize_group-IsCounted :
      (conditions : Dict Json) (counter : ℕ) (made : Condition × ℕ)
      → normalize_group normalize conditions counter ≡ ok made
      → IsCounted (suc levels) counter made
  unfolding normalize_group item_count nesting
  normalize_group-IsCounted conditions counter made h =
      let (is_and, _, first) = >>=-eq-ok (group_op conditions) _ h in
      let (items, _, second) = >>=-eq-ok (items_or_empty (get "items" conditions)) _ first in
      let (cs, all, last) = >>=-eq-ok (normalize_items normalize items counter) _ second in
      let c : AreCounted levels counter cs = normalize_items-AreCounted items counter cs all in
      subst (IsCounted (suc levels) counter) (ok_inj last)
        (record { counted = c.all_counted; bounded = c.all_bounded; shallow = c.all_shallow })

abbrev IsLeaf : Condition → Type 0
IsLeaf (group is_and cs) = ⊥
IsLeaf (test field_id operator value) = Unit

leaf-IsCounted :
    (levels counter : ℕ) (c : Condition) → IsLeaf c → IsCounted levels counter (c, counter)
unfolding item_count nesting
leaf-IsCounted levels counter (group is_and cs) leaf = absurd leaf
leaf-IsCounted levels counter (test field_id operator value) leaf = record {
  counted = omega arith;
  bounded = λ h. h;
  shallow = omega arith;
}

blank-IsCounted : (levels counter : ℕ) → IsCounted levels counter (no_condition, counter)
unfolding item_count nesting
blank-IsCounted levels counter = record {
  counted = omega arith;
  bounded = λ h. h;
  shallow = omega arith;
}

module _ (python : Python) where
  checked_test-IsLeaf :
      (field_id field_type : String) (value : Option Json) (operator : Option String)
      (c : Condition)
      → checked_test python field_id field_type value operator ≡ ok c
      → IsLeaf c
  unfolding checked_test
  checked_test-IsLeaf field_id field_type value none c h = absurd (cc)
  checked_test-IsLeaf field_id field_type value (some operator) c h =
      elim (Bool-cases (operator == "empty" || operator == "not_empty")) [
        | inl bare ↦ subst IsLeaf (ok_inj (rw bare at h)) tt
        | inr compared ↦
            let (v, _, last) =
              >>=-eq-ok (test_value python field_type operator value) _ (rw compared at h) in
            subst IsLeaf (ok_inj last) tt
      ]

  normalize_test-IsLeaf :
      (fields : FieldTypes) (conditions : Dict Json) (c : Condition)
      → normalize_test python fields conditions ≡ ok c
      → IsLeaf c
  unfolding normalize_test
  normalize_test-IsLeaf fields conditions c h =
      let (field, _, last) = >>=-eq-ok (require_field fields (get "fieldId" conditions)) _ h in
      checked_test-IsLeaf field.0 field.1 (lookup "value" conditions) _ c last

  normalize_object-IsCounted :
      (levels : ℕ) (normalize : Json → ℕ → Result AutomationValidationError (Condition × ℕ))
      → ((item : Json) (counter : ℕ) (made : Condition × ℕ)
          → normalize item counter ≡ ok made
          → IsCounted levels counter made)
      → (fields : FieldTypes) (conditions : Json) (counter : ℕ) (made : Condition × ℕ)
      → normalize_object python normalize fields conditions counter ≡ ok made
      → IsCounted (suc levels) counter made
  unfolding normalize_object
  normalize_object-IsCounted levels normalize each fields (obj ms) counter made h =
      elim (Bool-cases (is_group (members_dict ms))) [
        | inl grouped ↦
            normalize_group-IsCounted levels normalize each (members_dict ms) counter made
              (rw grouped at h)
        | inr single ↦
            let (c, one, last) =
              >>=-eq-ok (normalize_test python fields (members_dict ms)) _ (rw single at h) in
            subst (IsCounted (suc levels) counter) (ok_inj last) (
              leaf-IsCounted (suc levels) counter c
                (normalize_test-IsLeaf fields (members_dict ms) c one))
      ]
  normalize_object-IsCounted levels normalize each fields _ counter made h = absurd (cc)

  normalize_conditions-IsCounted :
      (levels : ℕ) (fields : FieldTypes) (conditions : Json) (counter : ℕ) (made : Condition × ℕ)
      → normalize_conditions python levels fields conditions counter ≡ ok made
      → IsCounted levels counter made
  unfolding normalize_conditions
  normalize_conditions-IsCounted zero fields conditions counter made h =
      elim (Bool-cases (is_blank conditions)) [
        | inl blank ↦
            subst (IsCounted zero counter) (ok_inj (rw blank at h)) (blank-IsCounted zero counter)
        | inr full ↦ absurd (cc (rw full at h))
      ]
  normalize_conditions-IsCounted (suc levels) fields conditions counter made h =
      elim (Bool-cases (is_blank conditions)) [
        | inl blank ↦
            subst (IsCounted (suc levels) counter) (ok_inj (rw blank at h))
              (blank-IsCounted (suc levels) counter)
        | inr full ↦
            normalize_object-IsCounted levels (normalize_conditions python levels fields)
              (normalize_conditions-IsCounted levels fields) fields conditions counter made
              (rw full at h)
      ]

  -- Conditions that are accepted hold at most 64 items in all, in groups nested at most nine deep.
  pub normalize_conditions-bounds :
      (fields : FieldTypes) (conditions : Json) (c : Condition) (n : ℕ)
      → normalize_conditions python 9 fields conditions 0 ≡ ok (c, n)
      → (item_count c ≤ 64) × (nesting c ≤ 9)
  normalize_conditions-bounds fields conditions c n h =
      let s : IsCounted 9 0 (c, n) =
        normalize_conditions-IsCounted 9 fields conditions 0 (c, n) h in
      (omega (arith, s.counted, s.bounded (omega arith)), s.shallow)
