-- ===== src/Relation/Unlink.antt =====
-- Removing a deleted record from the values that link to it (`remove_linked_record`).
use qtable_server.Base.{
  String, Bool, true, false, not, List, [], ◌∷◌, ◌≡◌, refl, sym, ap, ◌∙◌, ◌==◌, string_eq, Dict,
  filter, contains, arith, eq_iff, inl, inr, Bool-cases, suc, ◌≤◌, length, length-filter-le,
}
use qtable_server.Base.Result.{ok, ◌>>=◌, >>=-eq-ok, ok_inj}
use qtable_server.Json.{Json}
use qtable_server.Relation.{
  RelationValue, untouched, unlinked, single, many, is_relation_field, normalize_relation_value,
  texts_eq, unlink, remove_linked_record,
}

-- The ids that a normalised value links to.
abbrev pub linked_ids : RelationValue → List String
linked_ids (untouched value) = []
linked_ids unlinked = []
linked_ids (single record_id) = record_id ∷ []
linked_ids (many ids) = ids

texts_eq_refl : (xs : List String) → texts_eq xs xs ≡ true
unfolding texts_eq
texts_eq_refl [] = refl
texts_eq_refl (x ∷ xs) = ground (arith, texts_eq_refl xs, eq_iff x x)

texts_eq-length : (xs ys : List String) → texts_eq xs ys ≡ true → length xs ≡ length ys
unfolding texts_eq
texts_eq-length [] [] h = refl
texts_eq-length [] (y ∷ ys) h = cc
texts_eq-length (x ∷ xs) [] h = cc
texts_eq-length (x ∷ xs) (y ∷ ys) h = ground (arith, texts_eq-length xs ys)

abbrev without : String → List String → List String
without k xs = filter (λ item. not (item == k)) xs

contains-without : (k : String) (xs : List String) → contains k (without k xs) ≡ false
contains-without k [] = refl
contains-without k (x ∷ xs) = ground (arith, contains-without k xs)

without-absent : (k : String) (xs : List String) → contains k xs ≡ false → without k xs ≡ xs
without-absent k [] h = refl
without-absent k (x ∷ xs) h = ground (arith, without-absent k xs)

without-present :
    (k : String) (xs : List String) → contains k xs ≡ true → suc (length (without k xs)) ≤ length xs
without-present k [] h = cc
without-present k (x ∷ xs) h =
    ground (arith, without-present k xs, length-filter-le (λ item. not (item == k)) xs)

changed-contains :
    (k : String) (xs : List String) → not (texts_eq (without k xs) xs) ≡ contains k xs
changed-contains k xs = elim (Bool-cases (contains k xs)) [
  | inl there ↦
      rw there (ground (arith, texts_eq-length (without k xs) xs, without-present k xs there))
  | inr absent ↦ rw absent (rw (without-absent k xs absent) (ap not (texts_eq_refl xs)))
]

unlink_lem :
    (k : String) (v : RelationValue)
    → (linked_ids (unlink k v).0 ≡ without k (linked_ids v))
      × (contains k (linked_ids (unlink k v).0) ≡ false)
      × ((unlink k v).1 ≡ contains k (linked_ids v))
unfolding unlink
unlink_lem k (untouched value) = (refl, refl, refl)
unlink_lem k unlinked = (refl, refl, refl)
unlink_lem k (single x) = ground arith
unlink_lem k (many ids) = (refl, contains-without k ids, changed-contains k ids)

removal :
    (field : Dict Json) (value : Json) (k : String)
    → is_relation_field field ≡ true
    → remove_linked_record field value k
      ≡ (normalize_relation_value field value >>= λ normalized. ok (unlink k normalized))
unfolding remove_linked_record
removal field value k r = rw r

-- Removing a deleted record from a relation value keeps every other link, in order, leaves no link
-- to the record, and reports a change exactly when the value linked to it.
pub remove_linked_record_lem :
    (field : Dict Json) (value : Json) (k : String) (w : RelationValue) (changed : Bool)
    → is_relation_field field ≡ true
    → remove_linked_record field value k ≡ ok (w, changed)
    → (v : RelationValue) × (normalize_relation_value field value ≡ ok v)
      × (linked_ids w ≡ filter (λ item. not (item == k)) (linked_ids v))
      × (contains k (linked_ids w) ≡ false)
      × (changed ≡ contains k (linked_ids v))
remove_linked_record_lem field value k w changed r h =
    let (v, e, u) =
      >>=-eq-ok (normalize_relation_value field value) _ (sym (removal field value k r) ∙ h) in
    let pair : unlink k v ≡ (w, changed) = ok_inj u in
    let facts = unlink_lem k v in
    (
      v,
      e,
      ap (λ p. linked_ids p.0) (sym pair) ∙ facts.0,
      ap (λ p. contains k (linked_ids p.0)) (sym pair) ∙ facts.1,
      ap (λ p. p.1) (sym pair) ∙ facts.2,
    )
