-- ===== src/TableStore/Fields.antt =====
-- What the field operations of app/services/smart_table_store/file_backend.py leave in the files.
use mathlib.Core.Path.{ap₂}
use qtable_server.Base.{
  suc, String, Bool, true, false, not, Option, none, some, List, [], ◌∷◌, ◌++◌, ◌≡◌, refl, sym, ap,
  ◌∙◌, subst, inl, inr, arith, eq_iff, ◌==◌, string_eq, nat_eq, Dict, lookup, insert, erase,
  has_key, filter, any, length, map, All, contains, ◌&&◌, ◌||◌, lookup-insert, lookup-erase,
  length-filter-le, Bool-cases, Option-cases,
}
use qtable_server.Base.Result.{Result, ok, err, >>=-eq-ok, ok_inj}
use qtable_server.Json.{
  Json, bool, obj, str, get, or_null, truthy, dict_members, members_dict-dict_members,
}
use qtable_server.AutoNumber.{AutoNumberError, type_is, property_dict}
use qtable_server.TableStore.{
  Table, Files, TableError, save_table, has_id, field_by_id, put_first, fields_in_order, in_order,
  reordered, set_hidden, set_all_hidden, hidden_in, is_hidden_field, hidden_field_ids,
  update_field_visibility_file, delete_field_file, lift, ◌>>=◌, ◌>>◌, pure,
}
use qtable_server.TableStore.Records.{load-then, without_id, none_left}

-- A field has at most one of two ids.
has_id-eq : (j k : String) (f : Dict Json) → has_id k f ≡ true → has_id j f ≡ (j == k)
unfolding has_id type_is
has_id-eq j k f h = type_is-eq (get "id" f) h
  where
    type_is-eq : (v : Json) → type_is k v ≡ true → type_is j v ≡ (j == k)
    type_is-eq (str x) e = ground (arith, eq_iff j k, eq_iff x j, eq_iff x k)
    type_is-eq v e = ground arith

in_order-contains :
    (k : String) (f : Dict Json) (order : List String)
    → has_id k f ≡ true
    → in_order order f ≡ contains k order
in_order-contains k f [] h = refl
in_order-contains k f (j ∷ order) h = ground (arith, has_id-eq j k f, in_order-contains k f order)

left_out :
    (k : String) (order : List String) (fields : List (Dict Json))
    → any (has_id k) (filter (λ f. not (in_order order f)) fields)
      ≡ (not (contains k order) && any (has_id k) fields)
left_out k order [] = ground arith
left_out k order (f ∷ fields) = elim (Bool-cases (has_id k f)) [
  | inl here ↦ elim (Bool-cases (contains k order)) [
    | inl named ↦
        rw (in_order-contains k f order here, named) (left_out k order fields ∙ rw named refl)
    | inr unnamed ↦ rw (in_order-contains k f order here, unnamed, here) refl
  ]
  | inr other ↦ elim (Bool-cases (in_order order f)) [
    | inl named ↦ rw (named, other) (left_out k order fields)
    | inr unnamed ↦ rw (unnamed, other) (left_out k order fields)
  ]
]

field_by_id-none :
    (id : String) (fields : List (Dict Json))
    → field_by_id id fields ≡ none
    → any (has_id id) fields ≡ false
unfolding field_by_id
field_by_id-none id [] h = refl
field_by_id-none id (f ∷ fields) h = ground (arith, field_by_id-none id fields)

field_by_id-some :
    (id : String) (fields : List (Dict Json)) (g : Dict Json)
    → field_by_id id fields ≡ some g
    → (has_id id g ≡ true) × (any (has_id id) fields ≡ true)
unfolding field_by_id
field_by_id-some id [] g h = cc
field_by_id-some id (f ∷ fields) g h = elim (Option-cases (field_by_id id fields)) [
  | inl gone ↦ ground arith
  | inr (g', found) ↦ let later = field_by_id-some id fields g' found in ground arith
]

put_first-any :
    (k id : String) (order : List String) (fields rest : List (Dict Json)) (o : Option (Dict Json))
    → field_by_id id fields ≡ o
    → any (has_id k) rest ≡ (contains k order && any (has_id k) fields)
    → any (has_id k) (put_first o rest) ≡ (contains k (id ∷ order) && any (has_id k) fields)
unfolding put_first
put_first-any k id order fields rest none e h =
    let absent = field_by_id-none id fields e in ground (arith, eq_iff id k)
put_first-any k id order fields rest (some g) e h =
    let (named, among) = field_by_id-some id fields g e in
    ground (arith, eq_iff id k, eq_iff k id, has_id-eq k id g named)

put_in_order :
    (k : String) (order : List String) (fields : List (Dict Json))
    → any (has_id k) (fields_in_order order fields) ≡ (contains k order && any (has_id k) fields)
unfolding fields_in_order
put_in_order k [] fields = refl
put_in_order k (id ∷ order) fields =
    put_first-any k id order fields (fields_in_order order fields) (field_by_id id fields) refl
      (put_in_order k order fields)

any-append :
    (p : Dict Json → Bool) (xs ys : List (Dict Json)) → any p (xs ++ ys) ≡ (any p xs || any p ys)
any-append p [] ys = refl
any-append p (x ∷ xs) ys = ground (arith, any-append p xs ys)

-- Reordering the fields of a table neither drops a field nor makes one up: an id is the id of a
-- field afterwards exactly when it was before, also where the order repeats ids or names none.
pub reordered-same_ids :
    (field_order : List String) (fields : List (Dict Json)) (k : String)
    → any (has_id k) (reordered field_order fields) ≡ any (has_id k) fields
unfolding reordered
reordered-same_ids field_order fields k =
    any-append (has_id k) (fields_in_order field_order fields) _
    ∙ ground (arith, put_in_order k field_order fields, left_out k field_order fields)

hidden_of :
    (prop : Dict Json) (b : Bool)
    → lookup "hidden" prop ≡ some (bool b)
    → hidden_in (obj (dict_members prop)) ≡ b
unfolding truthy
hidden_of prop b at =
    rw (members_dict-dict_members prop) (ap (λ o. truthy (or_null o)) at ∙ shown b)
  where
    shown : (c : Bool) → truthy (bool c) ≡ c
    shown true = refl
    shown false = refl

hidden_now :
    (hidden : List String) (f g : Dict Json)
    → set_hidden hidden f ≡ ok g
    → (is_hidden_field g ≡ in_order hidden f) × (get "id" g ≡ get "id" f)
unfolding set_hidden is_hidden_field
hidden_now hidden f g h =
    let (prop, given, e) = >>=-eq-ok (property_dict (get "property" f)) _ h in
    let prop' : Dict Json = insert "hidden" (bool (in_order hidden f)) prop in
    let eq : insert "property" (obj (dict_members prop')) f ≡ g = ok_inj e in
    (
      ap is_hidden_field (sym eq)
          ∙ ap (λ o. hidden_in (or_null o))
              (lookup-insert "property" "property" (obj (dict_members prop')) f)
          ∙ hidden_of prop' (in_order hidden f)
              (lookup-insert "hidden" "hidden" (bool (in_order hidden f)) prop),
      ap (get "id") (sym eq)
          ∙ ap or_null (lookup-insert "property" "id" (obj (dict_members prop')) f),
    )

-- After a call that sets the visibility of the fields, the hidden ids that the store reports are
-- the ids of the fields that the call named, in the order of the fields, and no others.
hidden_ids-set_all :
    (hidden : List String) (fields fields' : List (Dict Json))
    → set_all_hidden hidden fields ≡ ok fields'
    → map (get "id") (filter is_hidden_field fields')
      ≡ map (get "id") (filter (in_order hidden) fields)
unfolding set_all_hidden
hidden_ids-set_all hidden [] fields' h = let e : [] ≡ fields' = ok_inj h in rw (← e) refl
hidden_ids-set_all hidden (f ∷ fields) fields' h =
    let (g, here, h₁) = >>=-eq-ok (set_hidden hidden f) _ h in
    let (rest, later, e) = >>=-eq-ok (set_all_hidden hidden fields) _ h₁ in
    let (shown, same) = hidden_now hidden f g here in
    let eq : g ∷ rest ≡ fields' = ok_inj e in
    rw (← eq) (both g rest shown same (hidden_ids-set_all hidden fields rest later))
  where
    both :
        (g : Dict Json) (rest : List (Dict Json))
        → is_hidden_field g ≡ in_order hidden f
        → get "id" g ≡ get "id" f
        → map (get "id") (filter is_hidden_field rest)
          ≡ map (get "id") (filter (in_order hidden) fields)
        → map (get "id") (filter is_hidden_field (g ∷ rest))
          ≡ map (get "id") (filter (in_order hidden) (f ∷ fields))
    both g rest shown same ih = elim (Bool-cases (in_order hidden f)) [
      | inl named ↦ rw (shown, named) (ap₂ (λ x xs. x ∷ xs) same ih)
      | inr unnamed ↦ rw (shown, unnamed) ih
    ]

visibility_saved :
    (table_id : String) (store : Table) (files after : Files) (done : Bool)
    (r : Result AutoNumberError (List (Dict Json)))
    → (lift r >>= (λ fields. save_table table_id (record store { fields = fields }) >> pure true))
        files
      ≡ (ok done, after)
    → (fields : List (Dict Json)) × (r ≡ ok fields)
      × (after ≡ insert table_id (record store { fields = fields }) files)
unfolding save_table ◌>>◌
visibility_saved table_id store files after done (err x) run = cc
visibility_saved table_id store files after done (ok fields) run =
    (fields, refl, ap (λ p. p.1) (sym run))

-- A call that sets the visibility of the fields of a stored table and returns: the table is saved
-- with the named fields hidden and no other, and its rows and every other table are as they were.
pub update_field_visibility_file_lem :
    (template : Table) (table_id : String) (hidden : List String) (files after : Files)
    (store : Table) (done : Bool)
    → lookup table_id files ≡ some store
    → update_field_visibility_file template table_id hidden files ≡ (ok done, after)
    → (fields : List (Dict Json)) × (after
        ≡ insert table_id (record store { fields = fields }) files)
      × (hidden_field_ids (record store { fields = fields })
          ≡ map (get "id") (filter (in_order hidden) store.fields))
unfolding update_field_visibility_file hidden_field_ids
update_field_visibility_file_lem template table_id hidden files after store done h e =
    let (fields, good, eq) =
      visibility_saved table_id store files after done (set_all_hidden hidden store.fields)
        (sym (load-then template table_id store files _ h) ∙ e) in
    (fields, eq, hidden_ids-set_all hidden store.fields fields good)

-- What deleting a field did: nothing without a field of the id, and else no field has the id, the
-- other fields keep their order, and no row has a cell of it.
pub data IsFieldDeleted (table_id field_id : String) (files : Files) (store : Table)
    : Result TableError Bool × Files → Type 0 where
  absent :
      any (has_id field_id) store.fields ≡ false
      → IsFieldDeleted table_id field_id files store (ok false, files)
  deleted :
      (fields records : List (Dict Json))
      → any (has_id field_id) store.fields ≡ true
      → fields ≡ without_id field_id store.fields
      → any (has_id field_id) fields ≡ false
      → All (λ r. has_key field_id r ≡ false) records
      → length records ≡ length store.records
      → IsFieldDeleted table_id field_id files store
          (ok true, insert table_id (record store { fields = fields; records = records }) files)

same_length :
    (id : String) (rows : List (Dict Json))
    → (length (without_id id rows) == length rows) ≡ not (any (has_id id) rows)
same_length id [] = ground arith
same_length id (r ∷ rows) =
    ground (arith, same_length id rows, length-filter-le (λ x. not (has_id id x)) rows)

erased-All :
    (k : String) (rows : List (Dict Json)) → All (λ r. has_key k r ≡ false) (map (erase k) rows)
erased-All k [] = tt
erased-All k (r ∷ rows) = (ground (arith, eq_iff k k, lookup-erase k k r), erased-All k rows)

length-map-erase :
    (k : String) (rows : List (Dict Json)) → length (map (erase k) rows) ≡ length rows
length-map-erase k [] = refl
length-map-erase k (r ∷ rows) = ap suc (length-map-erase k rows)

-- Deleting a field of a stored table never fails: without a field of the id it reports so and
-- writes nothing; else no field has the id any more, the others keep their order, and no row keeps
-- a cell of it.
pub delete_field_file-IsFieldDeleted :
    (template : Table) (table_id field_id : String) (files : Files) (store : Table)
    → lookup table_id files ≡ some store
    → IsFieldDeleted table_id field_id files store
        (delete_field_file template table_id field_id files)
unfolding delete_field_file save_table ◌>>◌
delete_field_file-IsFieldDeleted template table_id field_id files store h =
    subst (IsFieldDeleted table_id field_id files store)
      (sym (load-then template table_id store files _ h))
      (elim (Bool-cases (length (without_id field_id store.fields) == length store.fields)) [
        | inl all ↦ rw all (absent (ground (arith, same_length field_id store.fields)))
        | inr fewer ↦ rw fewer (
            deleted (without_id field_id store.fields) (map (erase field_id) store.records)
              (ground (arith, same_length field_id store.fields)) refl
              (none_left field_id store.fields) (erased-All field_id store.records)
              (length-map-erase field_id store.records))
      ])
