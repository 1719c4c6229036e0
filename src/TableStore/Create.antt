-- ===== src/TableStore/Create.antt =====
-- Row creation in app/services/smart_table_store/file_backend.py. Clock readings are arguments.
use qtable_server.Base.{
  ℕ, zero, suc, ◌+◌, String, true, false, not, Option, none, some, List, [], ◌∷◌, ◌++◌, ◌&&◌, min,
  max, ◌==◌, string_eq, if◌then◌else◌, Dict, lookup, insert, length,
}
use qtable_server.Base.Int.{ℤ, pos, negsuc}
use qtable_server.Base.Result.{Result, ok, err}
use qtable_server.Base.Result
use qtable_server.Json.{Json, null, int, str, obj, dict_members, get}
use qtable_server.AutoNumber.{AutoNumberError, is_auto_number_field, allocate_auto_number_values}
use qtable_server.TableStore.{
  Table, Op, ◌>>=◌, ◌>>◌, pure, lift, load_table, save_table, generate_id, field_key,
}

-- `field["property"] = next_property`
abbrev pub with_property : Dict Json → Dict Json → Dict Json
with_property next_property field = insert "property" (obj (dict_members next_property)) field

abbrev pub Allocated : Type 0
Allocated = List (Dict Json) × Dict (List ℤ)

-- `values[index]`
abbrev pub value_at : List ℤ → ℕ → Json
value_at [] i = null
value_at (v ∷ vs) zero = int v
value_at (v ∷ vs) (suc i) = value_at vs i

-- The outcome for the rest of the fields, behind this field as it came or as it was advanced.
abbrev keep_field : Dict Json → Result AutoNumberError Allocated → Result AutoNumberError Allocated
keep_field field (err e) = err e
keep_field field (ok (fields, values)) = ok (field ∷ fields, values)

-- `if fid and is_auto_number_field(field)`
unfoldable pub numbered_key : Dict Json → Option String
numbered_key field = elim (field_key field) [
  | none ↦ none
  | some id ↦ if not (id == "") && is_auto_number_field field then some id else none
]

-- The loop that allocates numbers for every auto-number field, left to right.
unfoldable pub allocate_fields :
    ℤ → List (Dict Json) → Dict (List ℤ) → Result AutoNumberError Allocated
allocate_fields amount [] auto_values = ok ([], auto_values)
allocate_fields amount (field ∷ fields) auto_values = elim (numbered_key field) [
  | none ↦ keep_field field (allocate_fields amount fields auto_values)
  | some id ↦ elim (allocate_auto_number_values (get "property" field) amount) [
    | err e ↦ err e
    | ok (values, next_property) ↦
        keep_field (with_property next_property field)
          (allocate_fields amount fields (insert id values auto_values))
  ]
]

-- The cell of a field: the number allocated at the row's index, and else the value given.
unfoldable pub cell_of : Dict (List ℤ) → ℕ → Dict Json → String → Json
cell_of auto_values index given id = elim (lookup id auto_values) [
  | some values ↦ value_at values index
  | none ↦ get id given
]

unfoldable pub put_cell : Dict (List ℤ) → ℕ → Dict Json → Option String → Dict Json → Dict Json
put_cell auto_values index given none row = row
put_cell auto_values index given (some id) row = insert id (cell_of auto_values index given id) row

-- The loop over the fields that fills one new row.
unfoldable pub fill_row : List (Dict Json) → Dict (List ℤ) → ℕ → Dict Json → Dict Json → Dict Json
unfolding put_cell
fill_row [] auto_values index given row = row
fill_row (field ∷ fields) auto_values index given row =
    fill_row fields auto_values index given (put_cell auto_values index given (field_key field) row)

-- `{"id": record_id, **data}`
abbrev pub new_row : String → List (Dict Json) → Dict (List ℤ) → ℕ → Dict Json → Dict Json
new_row record_id fields auto_values index given =
    fill_row fields auto_values index given (("id", str record_id) ∷ [])

-- The rows of a batch with the values that the client gave, each at its reading of the clock.
unfoldable pub rows_with_data :
    List (Dict Json) → Dict (List ℤ) → ℕ → List (Dict Json × ℕ) → List (Dict Json)
rows_with_data fields auto_values index [] = []
rows_with_data fields auto_values index ((given, ms) ∷ batch) =
    new_row (generate_id "r" ms) fields auto_values index given
    ∷ rows_with_data fields auto_values (suc index) batch

-- The rows of `create_records_file`: one reading of the clock, and consecutive ids.
unfoldable pub blank_rows : List (Dict Json) → Dict (List ℤ) → ℕ → ℕ → ℕ → List (Dict Json)
blank_rows fields auto_values base_id index zero = []
blank_rows fields auto_values base_id index (suc amount) =
    new_row (generate_id "r" (base_id + index)) fields auto_values index []
    ∷ blank_rows fields auto_values base_id (suc index) amount

-- `max(1, min(999, int(count)))`
unfoldable pub batch_amount : ℤ → ℕ
batch_amount (pos n) = max 1 (min 999 n)
batch_amount (negsuc n) = 1

-- The end of the creations: the rows are appended and the advanced fields are saved.
unfoldable pub append_rows :
    String → Table → List (Dict Json) → List (Dict Json) → Op (List (Dict Json))
append_rows table_id store fields created =
    save_table table_id (record store { fields = fields; records = store.records ++ created })
    >> pure created

-- `create_record_file` allocates field by field; an empty id is a key here, and its field is
-- numbered too.
unfoldable pub fill_single :
    List (Dict Json) → Dict Json → Result AutoNumberError (List (Dict Json) × Dict Json)
fill_single [] row = ok ([], row)
fill_single (field ∷ fields) row = elim (field_key field) [
  | none ↦ Result.◌>>=◌ (fill_single fields row) (λ (fs, r). ok (field ∷ fs, r))
  | some id ↦ elim (is_auto_number_field field) [
    | false ↦ Result.◌>>=◌ (fill_single fields (insert id null row)) (λ (fs, r). ok (field ∷ fs, r))
    | true ↦
        Result.◌>>=◌ (allocate_auto_number_values (get "property" field) (pos 1))
          (λ (values, next_property).
            Result.◌>>=◌ (fill_single fields (insert id (value_at values 0) row))
              (λ (fs, r). ok (with_property next_property field ∷ fs, r)))
  ]
]

module _ (template : Table) where
  unfoldable pub create_record_file : String → ℕ → Op (Dict Json)
  create_record_file table_id ms = load_table template table_id >>= λ store.
      lift (fill_single store.fields (("id", str (generate_id "r" ms)) ∷ [])) >>= λ (fields, row).
      save_table table_id (record store { fields = fields; records = store.records ++ row ∷ [] })
      >> pure row

  unfoldable pub create_records_with_data_file :
      String → List (Dict Json × ℕ) → Op (List (Dict Json))
  create_records_with_data_file table_id batch = load_table template table_id >>= λ store.
      lift (allocate_fields (pos (length batch)) store.fields []) >>= λ (fields, auto_values).
      append_rows table_id store fields (rows_with_data fields auto_values 0 batch)

  unfoldable pub create_records_file : String → ℤ → ℕ → Op (List (Dict Json))
  create_records_file table_id count ms = load_table template table_id >>= λ store.
      lift (allocate_fields (pos (batch_amount count)) store.fields []) >>= λ (fields, auto_values).
      append_rows table_id store fields (blank_rows fields auto_values ms 0 (batch_amount count))
