-- ===== src/Relation/Normalize.antt =====
-- What `normalize_relation_value` returns (app/services/relation_engine.py).
use qtable_server.Base.{
  String, Bool, true, false, List, [], ◌∷◌, ◌≡◌, refl, sym, ap, ◌∙◌, subst, ◌||◌, map, string_eq,
  if◌then◌else◌, Dict, arith, inl, inr, Bool-cases,
}
use qtable_server.Base.Result.{ok, ◌>>=◌, >>=-eq-ok, ok_inj}
use qtable_server.Json.{Json, null, str, is_null, is_empty_str, items_list-list_items}
use qtable_server.Relation.{
  RelationValue, untouched, unlinked, single, many, is_relation_field, collect_ids, raw_values,
  pack_ids, normalize_relation_value, stored, relation_allows_multiple,
}
use qtable_server.Relation.Canonical.{
  IsRecordId, IsCanonical, collect_ids-IsCanonical, collect_ids-str,
}

-- The canonical form: distinct, stripped ids, 200 at most, where the field allows several; one
-- such id or none where it does not.
abbrev pub IsNormalValue : Bool → RelationValue → Type 0
IsNormalValue multiple (untouched value) = ⊥
IsNormalValue multiple unlinked = multiple ≡ false
IsNormalValue multiple (single record_id) = (multiple ≡ false) × IsRecordId record_id
IsNormalValue multiple (many ids) = (multiple ≡ true) × IsCanonical ids

IsCanonical-empty : IsCanonical []
IsCanonical-empty = record { each = tt; distinct = tt; bounded = omega arith }

pack_ids-IsNormalValue :
    (multiple : Bool) (ids : List String) (w : RelationValue)
    → IsCanonical ids
    → pack_ids multiple ids ≡ ok w
    → IsNormalValue multiple w
unfolding pack_ids
pack_ids-IsNormalValue true ids w c h = subst (IsNormalValue true) (ok_inj h) (refl, c)
pack_ids-IsNormalValue false [] w c h = subst (IsNormalValue false) (ok_inj h) refl
pack_ids-IsNormalValue false (x ∷ []) w c h =
    subst (IsNormalValue false) (ok_inj h) (refl, c.each.0)
pack_ids-IsNormalValue false (x ∷ y ∷ ids) w c h = absurd (cc)

normalize_blank :
    (field : Dict Json) (value : Json)
    → is_relation_field field ≡ true
    → (is_null value || is_empty_str value) ≡ true
    → normalize_relation_value field value
      ≡ ok (if relation_allows_multiple field then many [] else unlinked)
unfolding normalize_relation_value
normalize_blank field value r b = rw r (rw b)

normalize_given :
    (field : Dict Json) (value : Json)
    → is_relation_field field ≡ true
    → (is_null value || is_empty_str value) ≡ false
    → normalize_relation_value field value
      ≡ (collect_ids (raw_values value) [] [] >>= pack_ids (relation_allows_multiple field))
unfolding normalize_relation_value
normalize_given field value r b = rw r (rw b)

blank-IsNormalValue :
    (multiple : Bool) → IsNormalValue multiple (if multiple then many [] else unlinked)
blank-IsNormalValue true = (refl, IsCanonical-empty)
blank-IsNormalValue false = refl

-- Whatever value a relation field is given, what normalisation returns is canonical: distinct
-- stripped ids of at most 256 characters, 200 at most, in a list exactly when the field allows
-- several.
pub normalize-IsNormalValue :
    (field : Dict Json) (value : Json) (w : RelationValue)
    → is_relation_field field ≡ true
    → normalize_relation_value field value ≡ ok w
    → IsNormalValue (relation_allows_multiple field) w
normalize-IsNormalValue field value w r h =
    elim (Bool-cases (is_null value || is_empty_str value)) [
      | inl b ↦
          subst (IsNormalValue (relation_allows_multiple field))
            (ok_inj (sym (normalize_blank field value r b) ∙ h))
            (blank-IsNormalValue (relation_allows_multiple field))
      | inr b ↦ collected (
          >>=-eq-ok (collect_ids (raw_values value) [] []) _
            (sym (normalize_given field value r b) ∙ h))
    ]
  where
    collected :
        (ids : List String) × (collect_ids (raw_values value) [] [] ≡ ok ids)
          × (pack_ids (relation_allows_multiple field) ids ≡ ok w)
        → IsNormalValue (relation_allows_multiple field) w
    collected (ids, e, p) =
        pack_ids-IsNormalValue (relation_allows_multiple field) ids w
          (collect_ids-IsCanonical (raw_values value) [] [] ids (λ y. refl) IsCanonical-empty e) p

untouched_eq :
    (field : Dict Json) (value : Json)
    → is_relation_field field ≡ false
    → normalize_relation_value field value ≡ ok (untouched value)
unfolding normalize_relation_value
untouched_eq field value r = rw r

IsNormalValue-normalize :
    (field : Dict Json) (w : RelationValue)
    → is_relation_field field ≡ true
    → IsNormalValue (relation_allows_multiple field) w
    → normalize_relation_value field (stored w) ≡ ok w
IsNormalValue-normalize field (untouched value) r n = absurd n
IsNormalValue-normalize field unlinked r n =
    normalize_blank field null r refl ∙ ap (λ (m : Bool). ok (if m then many [] else unlinked)) n
IsNormalValue-normalize field (single x) r n =
    normalize_given field (str x) r n.1.nonempty
    ∙ ap (λ m. m >>= pack_ids (relation_allows_multiple field))
        (collect_ids-str (x ∷ []) [] [] (λ y. refl) (n.1, tt) (refl, tt) (omega arith))
    ∙ ap (λ m. pack_ids m (x ∷ [])) n.0
    ∙ unfold pack_ids in refl
IsNormalValue-normalize field (many ids) r n =
    normalize_given field (stored (many ids)) r refl
    ∙ ap (λ l. collect_ids l [] [] >>= pack_ids (relation_allows_multiple field))
        (items_list-list_items (map str ids))
    ∙ ap (λ m. m >>= pack_ids (relation_allows_multiple field))
        (collect_ids-str ids [] [] (λ y. refl) n.1.each n.1.distinct (omega (arith, n.1.bounded)))
    ∙ ap (λ m. pack_ids m ids) n.0
    ∙ unfold pack_ids in refl

-- Normalising what was stored gives the same value back: a stored relation value is a fixed point.
pub normalize-stored :
    (field : Dict Json) (value : Json) (w : RelationValue)
    → normalize_relation_value field value ≡ ok w
    → normalize_relation_value field (stored w) ≡ ok w
normalize-stored field value w h = elim (Bool-cases (is_relation_field field)) [
  | inl r ↦ IsNormalValue-normalize field w r (normalize-IsNormalValue field value w r h)
  | inr r ↦
      let e : untouched value ≡ w = ok_inj (sym (untouched_eq field value r) ∙ h) in
      rw (← e) (untouched_eq field value r)
]
