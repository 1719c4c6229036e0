-- ===== src/RowPermission/Mask.antt =====
-- Masking of links to rows that the user may not read (`sanitize_relation_values_for_user`).
use qtable_server.Base.{
  String, Bool, true, false, Option, none, some, List, [], ◌∷◌, ◌++◌, ◌≡◌, refl, sym, ap, ◌∙◌,
  subst, map, ◌==◌, string_eq, Dict, lookup, insert, lookup-insert, filter, contains, All, arith,
  eq_iff, inl, inr, Bool-cases, Option-cases,
}
use qtable_server.Json.{
  Json, null, str, arr, items_list, list_items, items_list-list_items, or_null, get,
}
use qtable_server.Base.Result.{Result-cases, ok, err, ◌>>=◌}
use qtable_server.Relation.{
  RelationValue, untouched, unlinked, single, many, RelationError, value_ids, is_relation_field,
  get_target_table_id, relation_allows_multiple, relation_record_ids, normalize_relation_value,
}
use qtable_server.Relation.Normalize.{IsNormalValue, normalize-IsNormalValue}
use qtable_server.RowPermission.{text_of}
use qtable_server.RowPermission.Access.{
  field_id_of, linked_or_none, first_or_null, mask_value, mask_at, mask_field, mask_fields,
}

-- The ids that a stored value shows.
abbrev pub shown_ids : Json → List Json
shown_ids null = []
shown_ids (arr xs) = items_list xs
shown_ids value = value ∷ []

-- Every id shown is in the set.
abbrev pub ShowsOnly : List String → Json → Type 0
ShowsOnly allowed value = All (λ id. contains (text_of id) allowed ≡ true) (shown_ids value)

filter-All :
    (allowed : List String) (ids : List Json)
    → All
        (λ id. contains (text_of id) allowed ≡ true)
        (filter (λ id. contains (text_of id) allowed) ids)
filter-All allowed [] = tt
filter-All allowed (x ∷ ids) = elim (Bool-cases (contains (text_of x) allowed)) [
  | inl shown ↦ rw shown (shown, filter-All allowed ids)
  | inr hidden ↦ rw hidden (filter-All allowed ids)
]

nothing_shown : (allowed : List String) → ShowsOnly allowed null
nothing_shown allowed = tt

module _ (field : Dict Json) (allowed : List String) where
  abbrev visible_of : Json → List Json
  visible_of value = filter (λ id. contains (text_of id) allowed) (linked_or_none field value)

  mask_value-many :
      (value : Json)
      → relation_allows_multiple field ≡ true
      → mask_value field allowed value ≡ arr (list_items (visible_of value))
  unfolding mask_value
  mask_value-many value m = rw m

  mask_value-single :
      (value : Json)
      → relation_allows_multiple field ≡ false
      → mask_value field allowed value ≡ first_or_null (visible_of value)
  unfolding mask_value
  mask_value-single value m = rw m

abbrev IsText : Json → Type 0
IsText (str s) = Unit
IsText _ = ⊥

texts-str : (ids : List String) → All IsText (map str ids)
texts-str [] = tt
texts-str (x ∷ ids) = (tt, texts-str ids)

value_ids-IsText :
    (multiple : Bool) (w : RelationValue) → IsNormalValue multiple w → All IsText (value_ids w)
value_ids-IsText multiple (untouched value) n = absurd n
value_ids-IsText multiple unlinked n = tt
value_ids-IsText multiple (single x) n = (tt, tt)
value_ids-IsText multiple (many ids) n = texts-str ids

linked_bad :
    (field : Dict Json) (value : Json) (e : RelationError)
    → normalize_relation_value field value ≡ err e
    → linked_or_none field value ≡ []
unfolding linked_or_none relation_record_ids
linked_bad field value e bad = rw (bad, linked_or_none, ◌>>=◌)

linked_good :
    (field : Dict Json) (value : Json) (w : RelationValue)
    → normalize_relation_value field value ≡ ok w
    → linked_or_none field value ≡ value_ids w
unfolding linked_or_none relation_record_ids
linked_good field value w good = rw (good, linked_or_none, ◌>>=◌)

linked-IsText :
    (field : Dict Json) (value : Json)
    → is_relation_field field ≡ true
    → All IsText (linked_or_none field value)
linked-IsText field value r = elim (Result-cases (normalize_relation_value field value)) [
  | inl (e, bad) ↦ rw (linked_bad field value e bad) tt
  | inr (w, good) ↦ rw (linked_good field value w good) (
      value_ids-IsText (relation_allows_multiple field) w
        (normalize-IsNormalValue field value w r good))
]

filter-IsText : (p : Json → Bool) (ids : List Json) → All IsText ids → All IsText (filter p ids)
filter-IsText p [] a = tt
filter-IsText p (x ∷ ids) a = elim (Bool-cases (p x)) [
  | inl kept ↦ rw kept (a.0, filter-IsText p ids a.1)
  | inr out ↦ rw out (filter-IsText p ids a.1)
]

first-ShowsOnly :
    (allowed : List String) (ids : List Json)
    → All IsText ids
    → All (λ id. contains (text_of id) allowed ≡ true) ids
    → ShowsOnly allowed (first_or_null ids)
first-ShowsOnly allowed [] t a = tt
first-ShowsOnly allowed (str x ∷ ids) t a = (a.0, tt)
first-ShowsOnly allowed (x ∷ ids) t a = absurd t.0

mask_value-ShowsOnly :
    (field : Dict Json) (allowed : List String) (value : Json)
    → is_relation_field field ≡ true
    → ShowsOnly allowed (mask_value field allowed value)
mask_value-ShowsOnly field allowed value r = elim (Bool-cases (relation_allows_multiple field)) [
  | inl m ↦
      rw (mask_value-many field allowed value m)
        (rw items_list-list_items (filter-All allowed (linked_or_none field value)))
  | inr m ↦ rw (mask_value-single field allowed value m) (
      first-ShowsOnly allowed _
        (filter-IsText _ (linked_or_none field value) (linked-IsText field value r))
        (filter-All allowed (linked_or_none field value)))
]

mask_field_missing :
    (ab : Dict (Option (List String))) (field rec : Dict Json)
    → lookup (field_id_of field) rec ≡ none
    → mask_field ab field rec ≡ rec
unfolding mask_field
mask_field_missing ab field rec h = ground arith

mask_field_there :
    (ab : Dict (Option (List String))) (field rec : Dict Json) (v : Json) (allowed : List String)
    → (field_id_of field == "") ≡ false
    → lookup (field_id_of field) rec ≡ some v
    → lookup (get_target_table_id field) ab ≡ some (some allowed)
    → mask_field ab field rec
      ≡ insert (field_id_of field) (mask_value field allowed (get (field_id_of field) rec)) rec
unfolding mask_field mask_at
mask_field_there ab field rec v allowed named there target = ground arith

get-insert_self : (k : String) (v : Json) (d : Dict Json) → get k (insert k v d) ≡ v
get-insert_self k v d = ground (arith, lookup-insert k k v d, eq_iff k k)

get-missing : (k : String) (d : Dict Json) → lookup k d ≡ none → get k d ≡ null
get-missing k d h = rw (h, get)

-- A round for a field shows only what that field's target allows.
mask_field-ShowsOnly :
    (ab : Dict (Option (List String))) (field rec : Dict Json) (allowed : List String)
    → is_relation_field field ≡ true
    → (field_id_of field == "") ≡ false
    → lookup (get_target_table_id field) ab ≡ some (some allowed)
    → ShowsOnly allowed (get (field_id_of field) (mask_field ab field rec))
mask_field-ShowsOnly ab field rec allowed r named target =
    elim (Option-cases (lookup (field_id_of field) rec)) [
      | inl missing ↦
          subst (ShowsOnly allowed)
            (sym (
              ap (get (field_id_of field)) (mask_field_missing ab field rec missing)
              ∙ get-missing (field_id_of field) rec missing))
            tt
      | inr (v, there) ↦
          subst (ShowsOnly allowed)
            (sym (
              ap (get (field_id_of field))
                (mask_field_there ab field rec v allowed named there target)
              ∙ get-insert_self (field_id_of field) _ rec))
            (mask_value-ShowsOnly field allowed (get (field_id_of field) rec) r)
    ]

mask_at-other :
    (field : Dict Json) (i k : String) (a : Option (Option (List String))) (rec : Dict Json)
    → (i == k) ≡ false
    → lookup k (mask_at field i a rec) ≡ lookup k rec
unfolding mask_at
mask_at-other field i k none rec other = refl
mask_at-other field i k (some none) rec other = refl
mask_at-other field i k (some (some allowed)) rec other =
    ground (arith, lookup-insert i k (mask_value field allowed (get i rec)) rec)

-- A round for another field leaves the value alone.
mask_field-other :
    (ab : Dict (Option (List String))) (field rec : Dict Json) (k : String)
    → (field_id_of field == k) ≡ false
    → lookup k (mask_field ab field rec) ≡ lookup k rec
unfolding mask_field
mask_field-other ab field rec k other = ground (
  arith,
  mask_at-other field (field_id_of field) k (lookup (get_target_table_id field) ab) rec other,
)

mask_fields-others :
    (ab : Dict (Option (List String))) (fields : List (Dict Json)) (rec : Dict Json) (k : String)
    → All (λ f. (field_id_of f == k) ≡ false) fields
    → lookup k (mask_fields ab fields rec) ≡ lookup k rec
unfolding mask_fields
mask_fields-others ab [] rec k others = refl
mask_fields-others ab (f ∷ fields) rec k others =
    mask_fields-others ab fields (mask_field ab f rec) k others.1
    ∙ mask_field-other ab f rec k others.0

-- After the rounds for all fields, a field shows only what its target allows, where no later field
-- has its id.
pub mask_fields-ShowsOnly :
    (ab : Dict (Option (List String))) (before : List (Dict Json)) (field : Dict Json)
    (after : List (Dict Json)) (rec : Dict Json) (allowed : List String)
    → is_relation_field field ≡ true
    → (field_id_of field == "") ≡ false
    → All (λ f. (field_id_of f == field_id_of field) ≡ false) after
    → lookup (get_target_table_id field) ab ≡ some (some allowed)
    → ShowsOnly allowed (get (field_id_of field) (mask_fields ab (before ++ field ∷ after) rec))
unfolding mask_fields
mask_fields-ShowsOnly ab [] field after rec allowed r named others target =
    subst (λ o. ShowsOnly allowed (or_null o))
      (sym (mask_fields-others ab after (mask_field ab field rec) (field_id_of field) others))
      (mask_field-ShowsOnly ab field rec allowed r named target)
mask_fields-ShowsOnly ab (f ∷ before) field after rec allowed r named others target =
    mask_fields-ShowsOnly ab before field after (mask_field ab f rec) allowed r named others target
