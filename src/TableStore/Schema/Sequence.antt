-- ===== src/TableStore/Schema/Sequence.antt =====
-- An edit of an auto-number field keeps its sequence (`update_field_file`).
use qtable_server.Base.{
  ℕ, String, Option, true, none, some, List, ◌∷◌, ◌++◌, ◌≡◌, sym, ap, ◌∙◌, Dict, lookup, insert,
  lookup-insert,
}
use qtable_server.Base.Result.{Result, ok, err, >>=-eq-ok, ok_inj}
use qtable_server.Base.Int.{ℤ, pos}
use qtable_server.Json.{Json, int, obj, dict_members, get, or_null}
use qtable_server.AutoNumber.{
  AutoNumberError, property_dict, next_of, get_default, type_is, is_auto_number_field,
  normalize_auto_number_property, allocate_auto_number_values,
}
use qtable_server.AutoNumber.Normal.{
  IsNormal, normalize-IsNormal, normalize-preserve, IsNormal-normalize,
}
use qtable_server.AutoNumber.Allocate.{next_of-at, allocate-same}
use qtable_server.TableStore.Schema.{
  keep_sequence, renumber, updated_field, merge_updates, split_at_id, update_field_file,
}
use qtable_server.TableStore.Create.{with_property}
use qtable_server.TableStore.Records.{load-then}
use qtable_server.TableStore.{Table, Files, save_table, lift, pure, ◌>>=◌, ◌>>◌}

kept_from :
    (current wanted property : Dict Json)
    → IsNormal current
    → normalize_auto_number_property
        (obj (dict_members (insert "start" (get "start" current) wanted)))
        (some (next_of current))
      ≡ ok property
    → (get "start" property ≡ get "start" current) × (next_of property ≡ next_of current)
kept_from current wanted property n h =
    let at : get "start" current ≡ int n.start = ap or_null n.start_at in
    let (start, next) =
      normalize-preserve (insert "start" (get "start" current) wanted) property n.start
        (next_of current) (simp lookup-insert (ap some at))
        (rw (next_of-at current n.next n.next_at) n.start_le_next) h in
    (start ∙ sym at, next)

keep_sequence_lem :
    (stored requested : Json) (property : Dict Json)
    → keep_sequence stored requested ≡ ok property
    → (current : Dict Json) × (normalize_auto_number_property stored none ≡ ok current)
      × (normalize_auto_number_property (obj (dict_members property)) none ≡ ok property)
      × (get "start" property ≡ get "start" current)
      × (next_of property ≡ next_of current)
unfolding keep_sequence
keep_sequence_lem stored requested property h =
    let (current, normal, h₁) = >>=-eq-ok (normalize_auto_number_property stored none) _ h in
    let (wanted, is_dict, h₂) = >>=-eq-ok (property_dict requested) _ h₁ in
    let n = normalize-IsNormal stored none current normal in
    let (start, next) = kept_from current wanted property n h₂ in
    (current, normal, IsNormal-normalize property (normalize-IsNormal _ _ property h₂), start, next)

-- An edit of an auto-number field that was asked to stay one went through `keep_sequence`.
updated_field-keeps :
    (field : Dict Json) (field_id : String) (updates : Dict Json) (records : List (Dict Json))
    (next_field : Dict Json) (rows : List (Dict Json))
    → is_auto_number_field field ≡ true
    → type_is "autoNumber" (get_default "type" (get "type" field) updates) ≡ true
    → updated_field field field_id updates records ≡ ok (next_field, rows)
    → (requested : Json) × (property : Dict Json) × (keep_sequence (get "property" field) requested
        ≡ ok property)
      × (get "property" next_field ≡ obj (dict_members property))
      × (rows ≡ records)
unfolding updated_field renumber
updated_field-keeps field field_id updates records next_field rows numbered stays h =
    let asked : Json = get_default "property" (get "property" field) updates in
    let ((property, made), renumbered, h₁) =
      >>=-eq-ok (renumber field field_id asked records) _ (rw stays at h) in
    let (kept, keeps, h₂) =
      >>=-eq-ok (keep_sequence (get "property" field) asked) _ (rw numbered at renumbered) in
    let same : (kept, records) ≡ (property, made) = ok_inj h₂ in
    let out : (with_property property (merge_updates updates field), made) ≡ (next_field, rows) =
      ok_inj h₁ in
    (
      asked,
      property,
      keeps ∙ ap (λ p. ok p.0) same,
      ap (λ p. get "property" p.0) (sym out) ∙ simp lookup-insert,
      sym (ap (λ p. p.1) out) ∙ sym (ap (λ p. p.1) same),
    )

saved_field :
    (table_id : String) (store : Table) (before after : List (Dict Json)) (files files' : Files)
    (next_field : Dict Json) (r : Result AutoNumberError (Dict Json × List (Dict Json)))
    → (lift r >>= (λ (g, records).
          save_table table_id (record store { fields = before ++ g ∷ after; records = records })
          >> pure (some g)))
        files
      ≡ (ok (some next_field), files')
    → (rows : List (Dict Json)) × (r ≡ ok (next_field, rows))
      × (files'
          ≡ insert table_id
              (record store { fields = before ++ next_field ∷ after; records = rows })
              files)
unfolding ◌>>=◌ ◌>>◌ save_table
saved_field table_id store before after files files' next_field (err e) h =
    absurd (cc (ap (λ p. p.0) h))
saved_field table_id store before after files files' next_field (ok (g, rows)) h =
    let same : g ≡ next_field = some_inj (ok_inj (ap (λ p. p.0) h)) in
    (
      rows,
      ap (λ f. ok (f, rows)) same,
      sym (ap (λ p. p.1) h)
          ∙ ap
              (λ f.
                insert table_id (record store { fields = before ++ f ∷ after; records = rows })
                  files)
              same,
    )
  where
    some_inj : {a b : Dict Json} → ◌≡◌ {A = Option (Dict Json)} (some a) (some b) → a ≡ b
    some_inj e = cc

-- An edit of an auto-number field that leaves the type out, or asks for the same type, keeps the
-- sequence, whatever property it asks for: the start is the stored one, and the next numbers that the
-- field is given, however many, are those it would have been given without the edit. Only the field
-- changes: the other fields, the rows and the other tables stay.
pub update_field_file-keeps_sequence :
    (template : Table) (table_id field_id : String) (updates : Dict Json) (files files' : Files)
    (store : Table) (before after : List (Dict Json)) (field next_field : Dict Json)
    → lookup table_id files ≡ some store
    → split_at_id field_id store.fields ≡ some (before, field, after)
    → is_auto_number_field field ≡ true
    → type_is "autoNumber" (get_default "type" (get "type" field) updates) ≡ true
    → update_field_file template table_id field_id updates files ≡ (ok (some next_field), files')
    → (files' ≡ insert table_id (record store { fields = before ++ next_field ∷ after }) files)
      × ((old new : Dict Json) × (normalize_auto_number_property (get "property" field) none
            ≡ ok old)
          × (get "property" next_field ≡ obj (dict_members new))
          × (get "start" new ≡ get "start" old))
      × ((n : ℕ)
          → (numbers : List ℤ) × (d e : Dict Json) × (allocate_auto_number_values
                (get "property" field)
                (pos n)
              ≡ ok (numbers, d))
            × (allocate_auto_number_values (get "property" next_field) (pos n) ≡ ok (numbers, e)))
unfolding update_field_file
update_field_file-keeps_sequence template table_id field_id updates files files' store before after
      field next_field stored found numbered stays h =
    let ran = sym (load-then template table_id store files _ stored) ∙ h in
    let (rows, edited, saved) =
      saved_field table_id store before after files files' next_field
        (updated_field field field_id updates store.records) (rw found at ran) in
    let (requested, property, keeps, at, unmoved) =
      updated_field-keeps field field_id updates store.records next_field rows numbered stays
        edited in
    let (current, normal, again, start, next) =
      keep_sequence_lem (get "property" field) requested property keeps in
    (
      saved
          ∙ ap
              (λ rs.
                insert table_id
                  (record store { fields = before ++ next_field ∷ after; records = rs }) files)
              unmoved,
      (current, property, normal, at, start),
      λ n.
          allocate-same (get "property" field) (get "property" next_field) current property n normal
            (ap (λ v. normalize_auto_number_property v none) at ∙ again) (sym next),
    )
