-- ===== src/RowPermission/Sanitize.antt =====
-- No link to an unreadable row leaves `sanitize_relation_values_for_user`.
use qtable_server.Base.{
  ℕ, String, Bool, true, false, Option, some, List, [], ◌∷◌, ◌++◌, ◌≡◌, refl, sym, ap, ◌∙◌, ◌&&◌,
  ◌||◌, map, ◌==◌, string_eq, Dict, lookup, has_key, lookup-insert, filter, any, contains, is_empty,
  All, arith, eq_iff, inl, inr, Bool-cases, Option-cases,
}
use qtable_server.Json.{Json, get}
use qtable_server.Permission.{permission_allows, get_effective_permission_for_item}
use qtable_server.Relation.{is_relation_field, get_target_table_id}
use qtable_server.RowPermission.{
  RowDb, get_row_permission_policy, row_is_visible, text_of, allowed_record_ids,
}
use qtable_server.RowPermission.Access.{
  readable_targets, add_target, targets_of, field_id_of, mask_fields, sanitize_records,
  sanitize_relation_values_for_user,
}
use qtable_server.RowPermission.Visible.{allowed_record_ids_lem}
use qtable_server.RowPermission.Mask.{shown_ids, mask_fields-ShowsOnly}

module _ (db : RowDb) (user_id : ℕ) where
  -- Every entry of the map is what the user may read of its table.
  abbrev Reads : Dict (Option (List String)) → Type 0
  Reads ab =
      (t : String) (a : Option (List String))
      → lookup t ab ≡ some a
      → a ≡ readable_targets db user_id t

  add_target-Reads :
      (t : String) (ab : Dict (Option (List String)))
      → Reads ab
      → Reads (add_target db user_id t ab)
  unfolding add_target
  add_target-Reads t ab r k a h = elim (Bool-cases (t == "" || has_key t ab)) [
    | inl skip ↦ r k a (rw skip at h)
    | inr new ↦ elim (Bool-cases (t == k)) [
      | inl same ↦
          rw (← (eq_iff t k).0 same)
            (ground (arith, lookup-insert t k (readable_targets db user_id t) ab))
      | inr other ↦ r k a (ground (arith, lookup-insert t k (readable_targets db user_id t) ab))
    ]
  ]

  add_target-keeps :
      (t k : String) (ab : Dict (Option (List String))) (a : Option (List String))
      → lookup k ab ≡ some a
      → lookup k (add_target db user_id t ab) ≡ some a
  unfolding add_target
  add_target-keeps t k ab a h = elim (Bool-cases (t == k)) [
    | inl same ↦ rw ((eq_iff t k).0 same) (ground arith)
    | inr other ↦ ground (arith, lookup-insert t k (readable_targets db user_id t) ab)
  ]

  add_target-has :
      (t : String) (ab : Dict (Option (List String)))
      → (t == "") ≡ false
      → (a : Option (List String)) × (lookup t (add_target db user_id t ab) ≡ some a)
  unfolding add_target
  add_target-has t ab named = elim (Option-cases (lookup t ab)) [
    | inl new ↦ (
      readable_targets db user_id t,
      ground (arith, lookup-insert t t (readable_targets db user_id t) ab, eq_iff t t),
    )
    | inr (a, old) ↦ (a, ground arith)
  ]

  targets_of-Reads :
      (fields : List (Dict Json)) (ab : Dict (Option (List String)))
      → Reads ab
      → Reads (targets_of db user_id fields ab)
  unfolding targets_of
  targets_of-Reads [] ab r = r
  targets_of-Reads (f ∷ fields) ab r =
      targets_of-Reads fields _ (add_target-Reads (get_target_table_id f) ab r)

  targets_of-keeps :
      (fields : List (Dict Json)) (ab : Dict (Option (List String))) (k : String)
      (a : Option (List String))
      → lookup k ab ≡ some a
      → lookup k (targets_of db user_id fields ab) ≡ some a
  unfolding targets_of
  targets_of-keeps [] ab k a h = h
  targets_of-keeps (f ∷ fields) ab k a h =
      targets_of-keeps fields _ k a (add_target-keeps (get_target_table_id f) k ab a h)

  targets_of-has :
      (before : List (Dict Json)) (f : Dict Json) (after : List (Dict Json))
      (ab : Dict (Option (List String)))
      → (get_target_table_id f == "") ≡ false
      → (a : Option (List String)) × (lookup
            (get_target_table_id f)
            (targets_of db user_id (before ++ f ∷ after) ab)
          ≡ some a)
  unfolding targets_of
  targets_of-has [] f after ab named =
      let (a, h) = add_target-has (get_target_table_id f) ab named in
      (a, targets_of-keeps after _ (get_target_table_id f) a h)
  targets_of-has (g ∷ before) f after ab named = targets_of-has before f after _ named

  lookup-targets_of :
      (before : List (Dict Json)) (f : Dict Json) (after : List (Dict Json))
      → (get_target_table_id f == "") ≡ false
      → lookup (get_target_table_id f) (targets_of db user_id (before ++ f ∷ after) [])
        ≡ some (readable_targets db user_id (get_target_table_id f))
  lookup-targets_of before f after named =
      let (a, h) = targets_of-has before f after [] named in
      h
      ∙ ap some
          (targets_of-Reads (before ++ f ∷ after) [] (λ t b e. cc) (get_target_table_id f) a h)

-- The user may read the table, and it has a row of this id that its policy shows to the user.
abbrev pub is_readable : RowDb → ℕ → String → String → Bool
is_readable db user_id table_id k =
    let permission = get_effective_permission_for_item db.workspace user_id table_id in
    permission_allows permission "read"
    && any
        (λ r.
          r.table_id == table_id
          && (row_is_visible (get_row_permission_policy db table_id) user_id permission r
              && r.id == k))
        db.records

readable_denied :
    (db : RowDb) (user_id : ℕ) (t : String)
    → permission_allows (get_effective_permission_for_item db.workspace user_id t) "read" ≡ false
    → readable_targets db user_id t ≡ some []
unfolding readable_targets
readable_denied db user_id t h = rw h

readable_some :
    (db : RowDb) (user_id : ℕ) (t : String) (allowed : List String)
    → permission_allows (get_effective_permission_for_item db.workspace user_id t) "read" ≡ true
    → readable_targets db user_id t ≡ some allowed
    → allowed
      ≡ allowed_record_ids db t user_id
          (get_effective_permission_for_item db.workspace user_id t)
          (some (get_row_permission_policy db t))
unfolding readable_targets
readable_some db user_id t allowed r h = ground arith

-- A set of readable targets is exact: an id is in it exactly when the user may read the table and
-- a row of that id is visible to the user.
pub readable_targets_lem :
    (db : RowDb) (user_id : ℕ) (table_id : String) (allowed : List String) (k : String)
    → readable_targets db user_id table_id ≡ some allowed
    → contains k allowed ≡ is_readable db user_id table_id k
readable_targets_lem db user_id table_id allowed k h =
    let permission = get_effective_permission_for_item db.workspace user_id table_id in
    let policy = get_row_permission_policy db table_id in
    elim (Bool-cases (permission_allows permission "read")) [
      | inr denied ↦
          rw denied (ap (contains k) (nothing h (readable_denied db user_id table_id denied)))
      | inl reads ↦ rw reads (
          ap (contains k) (readable_some db user_id table_id allowed reads h)
          ∙ allowed_record_ids_lem db table_id user_id permission policy k)
    ]
  where
    nothing : {o : Option (List String)} {xs ys : List String} → o ≡ some xs → o ≡ some ys → xs ≡ ys
    nothing p q = cc

All-readable :
    (db : RowDb) (user_id : ℕ) (t : String) (allowed : List String) (ids : List Json)
    → readable_targets db user_id t ≡ some allowed
    → All (λ id. contains (text_of id) allowed ≡ true) ids
    → All (λ id. is_readable db user_id t (text_of id) ≡ true) ids
All-readable db user_id t allowed [] h a = tt
All-readable db user_id t allowed (x ∷ ids) h a = (
  sym (readable_targets_lem db user_id t allowed (text_of x) h) ∙ a.0,
  All-readable db user_id t allowed ids h a.1,
)

All-map :
    (P : Dict Json → Type 0) (f : Dict Json → Dict Json) (records : List (Dict Json))
    → ((rec : Dict Json) → P (f rec))
    → All P (map f records)
All-map P f [] h = tt
All-map P f (rec ∷ records) h = (h rec, All-map P f records h)

sanitize_none :
    (db : RowDb) (fields : List (Dict Json)) (user_id : ℕ)
    → sanitize_relation_values_for_user db fields [] user_id ≡ []
unfolding sanitize_relation_values_for_user
sanitize_none db fields user_id = ground arith

is_empty-middle :
    (before : List (Dict Json)) (f : Dict Json) (after : List (Dict Json))
    → is_empty (before ++ f ∷ after) ≡ false
is_empty-middle [] f after = refl
is_empty-middle (g ∷ before) f after = refl

sanitize_some :
    (db : RowDb) (fields : List (Dict Json)) (rec : Dict Json) (records : List (Dict Json))
    (user_id : ℕ) (before : List (Dict Json)) (field : Dict Json) (after : List (Dict Json))
    → filter is_relation_field fields ≡ before ++ field ∷ after
    → sanitize_relation_values_for_user db fields (rec ∷ records) user_id
      ≡ map
          (mask_fields
            (targets_of db user_id (before ++ field ∷ after) [])
            (before ++ field ∷ after))
          (rec ∷ records)
unfolding sanitize_relation_values_for_user
sanitize_some db fields rec records user_id before field after split =
    ap (λ fs. sanitize_records db user_id fs (rec ∷ records)) split
    ∙ rw (is_empty-middle before field after)

-- Where some rows of a link's target are closed to the user, every id that a sanitised record
-- still shows in that field is the id of a row that the user may read: the user may read the
-- table, and its row policy shows the row. The field has an id that no later relation field has.
pub sanitize-readable :
    (db : RowDb) (fields records : List (Dict Json)) (user_id : ℕ) (before : List (Dict Json))
    (field : Dict Json) (after : List (Dict Json)) (allowed : List String)
    → filter is_relation_field fields ≡ before ++ field ∷ after
    → is_relation_field field ≡ true
    → (field_id_of field == "") ≡ false
    → All (λ f. (field_id_of f == field_id_of field) ≡ false) after
    → (get_target_table_id field == "") ≡ false
    → readable_targets db user_id (get_target_table_id field) ≡ some allowed
    → All
        (λ rec.
          All
            (λ id. is_readable db user_id (get_target_table_id field) (text_of id) ≡ true)
            (shown_ids (get (field_id_of field) rec)))
        (sanitize_relation_values_for_user db fields records user_id)
sanitize-readable db fields [] user_id before field after allowed split r named others target
      some_hidden =
    rw (sanitize_none db fields user_id) tt
sanitize-readable db fields (rec ∷ records) user_id before field after allowed split r named others
      target some_hidden =
    rw (sanitize_some db fields rec records user_id before field after split) (
      All-map _ _ (rec ∷ records) (λ s.
        All-readable db user_id (get_target_table_id field) allowed _ some_hidden (
          mask_fields-ShowsOnly _ before field after s allowed r named others
            (lookup-targets_of db user_id before field after target ∙ ap some some_hidden))))
