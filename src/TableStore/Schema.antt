-- ===== src/TableStore/Schema.antt =====
-- Adding and changing fields in app/services/smart_table_store/file_backend.py.
pub mod Sequence
pub mod Seed
use qtable_server.Base.{
  ℕ, zero, suc, String, Bool, true, false, not, Option, none, some, List, [], ◌∷◌, ◌++◌, ◌≡◌, refl,
  filter, leb, if◌then◌else◌, Dict, lookup, insert, length,
}
use qtable_server.Base.Int.{ℤ, pos, negsuc}
use qtable_server.Base.Result
use qtable_server.Base.Result.{Result, ok, err}
use qtable_server.Json.{Json, null, int, str, obj, dict_members, get, is_null}
use qtable_server.AutoNumber.{
  AutoNumberError, type_is, is_auto_number_field, property_dict, get_default, next_of,
  normalize_auto_number_property, allocate_auto_number_values,
}
use qtable_server.TableStore.{
  Table, Op, ◌>>=◌, ◌>>◌, pure, lift, load_table, save_table, has_id, field_key,
}
use qtable_server.TableStore.Create.{with_property}

-- `for record, number in zip(records, values): record[id] = number`
unfoldable pub number_records : String → List ℤ → List (Dict Json) → List (Dict Json)
number_records id [] records = records
number_records id (n ∷ ns) [] = []
number_records id (n ∷ ns) (r ∷ records) = insert id (int n) r ∷ number_records id ns records

-- A property that becomes an auto-number sequence over rows that are there: its next number is its
-- start, whatever the client sent.
unfoldable pub seed_numbers : Json → List (Dict Json) → Result AutoNumberError (List ℤ × Dict Json)
seed_numbers property records =
    Result.◌>>=◌ (normalize_auto_number_property property none) (λ normal.
      allocate_auto_number_values
        (obj (dict_members (insert "nextNumber" (get "start" normal) normal)))
        (pos (length records)))

-- `fields.insert(index, field)`, or at the end without an index in range.
unfoldable pub insert_at : ℕ → Dict Json → List (Dict Json) → List (Dict Json)
insert_at zero f fields = f ∷ fields
insert_at (suc i) f [] = f ∷ []
insert_at (suc i) f (g ∷ fields) = g ∷ insert_at i f fields

unfoldable pub place_field : Option ℤ → Dict Json → List (Dict Json) → List (Dict Json)
place_field (some (pos i)) f fields =
    if leb i (length fields) then insert_at i f fields else fields ++ f ∷ []
place_field _ f fields = fields ++ f ∷ []

-- The field and the rows of `add_field_file`; `id` is the id of the field.
unfoldable pub seeded_field :
    Dict Json → String → List (Dict Json) → Result AutoNumberError (Dict Json × List (Dict Json))
seeded_field field id records =
    if is_auto_number_field field
    then Result.◌>>=◌ (seed_numbers (get "property" field) records) (λ (values, next_property).
      ok (with_property next_property field, number_records id values records))
    else ok (field, records)

-- `field.update({k: v for k, v in updates.items() if v is not None})`
unfoldable pub merge_updates : Dict Json → Dict Json → Dict Json
merge_updates [] field = field
merge_updates (e ∷ updates) field =
    merge_updates updates (if is_null e.1 then field else insert e.0 e.1 field)

-- The property of a field that stays an auto-number field: the start and the next number stay.
unfoldable pub keep_sequence : Json → Json → Result AutoNumberError (Dict Json)
keep_sequence stored requested =
    Result.◌>>=◌ (normalize_auto_number_property stored none) (λ current.
      Result.◌>>=◌ (property_dict requested) (λ wanted.
        normalize_auto_number_property
          (obj (dict_members (insert "start" (get "start" current) wanted)))
          (some (next_of current))))

-- The new property and the rows, for a field whose next type is `autoNumber`.
unfoldable pub renumber :
    Dict Json
    → String
    → Json
    → List (Dict Json)
    → Result AutoNumberError (Dict Json × List (Dict Json))
renumber field field_id next_property records =
    if is_auto_number_field field
    then Result.◌>>=◌ (keep_sequence (get "property" field) next_property)
        (λ property. ok (property, records))
    else Result.◌>>=◌ (seed_numbers next_property records)
        (λ (values, property). ok (property, number_records field_id values records))

-- The body of the loop of `update_field_file`, at the field with the id.
unfoldable pub updated_field :
    Dict Json
    → String
    → Dict Json
    → List (Dict Json)
    → Result AutoNumberError (Dict Json × List (Dict Json))
updated_field field field_id updates records =
    if type_is "autoNumber" (get_default "type" (get "type" field) updates)
    then Result.◌>>=◌
        (renumber field field_id (get_default "property" (get "property" field) updates) records)
        (λ (property, rows). ok (with_property property (merge_updates updates field), rows))
    else ok (merge_updates updates field, records)

-- The fields before the first one with the id, that field, and those behind it.
unfoldable pub split_at_id :
    String → List (Dict Json) → Option (List (Dict Json) × Dict Json × List (Dict Json))
split_at_id id [] = none
split_at_id id (f ∷ fields) =
    if has_id id f then some ([], f, fields) else elim (split_at_id id fields) [
      | none ↦ none
      | some (before, g, after) ↦ some (f ∷ before, g, after)
    ]

module _ (template : Table) where
  unfoldable pub add_field_file : String → Dict Json → String → Option ℤ → Op (Dict Json)
  add_field_file table_id field id index = load_table template table_id >>= λ store.
      lift (seeded_field field id store.records) >>= λ (next_field, records).
      save_table table_id
        (record store { fields = place_field index next_field store.fields; records = records })
      >> pure next_field

  unfoldable pub update_field_file : String → String → Dict Json → Op (Option (Dict Json))
  update_field_file table_id field_id updates = load_table template table_id >>= λ store.
      elim (split_at_id field_id store.fields) [
        | none ↦ pure none
        | some (before, field, after) ↦
            lift (updated_field field field_id updates store.records) >>= λ (next_field, records).
            save_table table_id
              (record store { fields = before ++ next_field ∷ after; records = records })
            >> pure (some next_field)
      ]
