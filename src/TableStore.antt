-- ===== src/TableStore.antt =====
-- The file backend of the table store: app/services/smart_table_store/file_backend.py and the
-- loading and saving of app/services/smart_table_store/helpers.py. The files are a dictionary from
-- table ids to decoded tables; a key that a table lacks reads as an empty list. An operation
-- returns its result or the error that it raised, with the files as it left them.
pub mod Create
pub mod Schema
pub mod Views
mod Records
mod Fields
mod ViewRules
mod Batches
mod Tests
use Prim.Native.String.{◌++◌ as join_text}
use qtable_server.Base.{
  ℕ, zero, suc, String, Bool, true, false, not, Option, none, some, List, [], ◌∷◌, ◌++◌, ◌&&◌, ◌||◌,
  map, ◌==◌, string_eq, nat_eq, if◌then◌else◌, Dict, lookup, has_key, insert, erase, filter, find,
  any, length, contains, ltb,
}
use qtable_server.Base.Int.{ℤ, pos}
use qtable_server.Base.Result
use qtable_server.Base.Result.{Result, ok, err}
use qtable_server.Json.{Json, null, bool, str, obj, dict_members, members_dict, truthy, get}
use qtable_server.Text.{str_nat}
use qtable_server.AutoNumber.{AutoNumberError, type_is, property_dict}

pub record Table : Type 0 where
  pub fields : List (Dict Json)
  pub records : List (Dict Json)
  pub views : List (Dict Json)
  pub filters : List Json
  pub sorts : List Json
  pub group_config : Json

abbrev pub Files : Type 0
Files = Dict Table

-- A failed auto-number allocation, the `ImportError` of a name that helpers.py does not define, or the
-- `KeyError` of a key that is not there.
pub data TableError : Type 0 where
  auto_number : AutoNumberError → TableError
  import_error key_error : TableError

abbrev pub Op : Type 0 → Type 0
Op A = Files → Result TableError A × Files

-- The rest of an operation behind a call that returned, or that raised.
unfoldable pub and_then :
    {A B : Type 0} → Result TableError A × Files → (A → Op B) → Result TableError B × Files
and_then (ok a, files) f = f a files
and_then (err e, files) f = (err e, files)

infixl 5 ◌>>=◌ ◌>>◌
unfoldable pub ◌>>=◌ : {A B : Type 0} → Op A → (A → Op B) → Op B
unfolding and_then
◌>>=◌ m f files = and_then (m files) f

unfoldable pub ◌>>◌ : {A B : Type 0} → Op A → Op B → Op B
unfolding ◌>>=◌
m >> k = m >>= (λ _. k)

abbrev pub pure : {A : Type 0} → A → Op A
pure a files = (ok a, files)

abbrev pub lift : {A : Type 0} → Result AutoNumberError A → Op A
lift (ok a) files = (ok a, files)
lift (err e) files = (err (auto_number e), files)

-- `_load_table_json`: a table without a file starts from the template, which is written.
unfoldable pub load_table : Table → String → Op Table
load_table template table_id files = elim (lookup table_id files) [
  | some table ↦ (ok table, files)
  | none ↦ (ok template, insert table_id template files)
]

unfoldable pub save_table : String → Table → Op (Unit {0})
save_table table_id table files = (ok tt, insert table_id table files)

-- `f"{prefix}{int(time.time() * 1000)}"`, at a reading of the clock in milliseconds.
unfoldable pub generate_id : String → ℕ → String
generate_id prefix ms = join_text prefix (str_nat ms)

-- `x.get("id") == id`
unfoldable pub has_id : String → Dict Json → Bool
unfolding type_is
has_id id d = type_is id (get "id" d)

-- A field's id as a key of a record; a field without one is passed over.
unfoldable pub field_key : Dict Json → Option String
field_key field = elim (get "id" field) [ str s ↦ some s | _ ↦ none ]

-- `get_full_store_for_table`: the ids of the fields whose property says that they are hidden.
abbrev pub hidden_in : Json → Bool
hidden_in (obj ms) = truthy (get "hidden" (members_dict ms))
hidden_in property = false

unfoldable pub is_hidden_field : Dict Json → Bool
is_hidden_field field = hidden_in (get "property" field)

unfoldable pub hidden_field_ids : Table → List Json
hidden_field_ids table = map (get "id") (filter is_hidden_field table.fields)

-- The loop of `update_record_file`: the first record with the id is changed.
unfoldable pub set_cell :
    String → String → Json → List (Dict Json) → Option (List (Dict Json) × Dict Json)
set_cell record_id field_id value [] = none
set_cell record_id field_id value (r ∷ records) =
    if has_id record_id r
    then some (insert field_id value r ∷ records, insert field_id value r)
    else elim (set_cell record_id field_id value records) [
      | none ↦ none
      | some (rest, changed) ↦ some (r ∷ rest, changed)
    ]

-- What `update_record_file` does with the outcome of its loop.
unfoldable pub save_changed :
    String → Table → Option (List (Dict Json) × Dict Json) → Op (Option (Dict Json))
save_changed table_id store none = pure none
save_changed table_id store (some (records, changed)) =
    save_table table_id (record store { records = records }) >> pure (some changed)

-- `idmap.get(record_id)`: the position of the last record with the id, on the records as loaded.
unfoldable pub last_with_id : String → List (Dict Json) → Option ℕ
last_with_id record_id [] = none
last_with_id record_id (r ∷ records) = elim (last_with_id record_id records) [
  | some i ↦ some (suc i)
  | none ↦ if has_id record_id r then some 0 else none
]

-- `rec[field_id] = value` for the record at a position.
unfoldable pub set_cell_at : ℕ → String → Json → List (Dict Json) → List (Dict Json)
set_cell_at i field_id value [] = []
set_cell_at zero field_id value (r ∷ records) = insert field_id value r ∷ records
set_cell_at (suc i) field_id value (r ∷ records) = r ∷ set_cell_at i field_id value records

pub record Patch : Type 0 where
  pub record_id : String
  pub field_id : String
  pub value : Json

-- The loop of `apply_record_patches_file`: the records, and how many patches found theirs.
unfoldable pub apply_patches :
    List (Dict Json) → List Patch → List (Dict Json) → ℕ → List (Dict Json) × ℕ
apply_patches loaded [] records count = (records, count)
apply_patches loaded (p ∷ patches) records count = elim (last_with_id p.record_id loaded) [
  | none ↦ apply_patches loaded patches records count
  | some i ↦ apply_patches loaded patches (set_cell_at i p.field_id p.value records) (suc count)
]

module _ (template : Table) where
  unfoldable pub update_record_file : String → String → String → Json → Op (Option (Dict Json))
  update_record_file table_id record_id field_id value = load_table template table_id >>= λ store.
      save_changed table_id store (set_cell record_id field_id value store.records)

  unfoldable pub apply_record_patches_file : String → List Patch → Op ℕ
  apply_record_patches_file table_id patches = load_table template table_id >>= λ store.
      let (records, count) = apply_patches store.records patches store.records 0 in
      save_table table_id (record store { records = records }) >> pure count

  unfoldable pub delete_record_file : String → String → Op Bool
  delete_record_file table_id record_id = load_table template table_id >>= λ store.
      let kept = filter (λ r. not (has_id record_id r)) store.records in
      save_table table_id (record store { records = kept })
      >> pure (ltb (length kept) (length store.records))

  unfoldable pub delete_field_file : String → String → Op Bool
  delete_field_file table_id field_id = load_table template table_id >>= λ store.
      let kept = filter (λ f. not (has_id field_id f)) store.fields in
      if length kept == length store.fields
      then pure false
      else save_table table_id
          (record store { fields = kept; records = map (erase field_id) store.records })
        >> pure true

-- `id_to_field.get(fid)`: the last field with the id.
unfoldable pub field_by_id : String → List (Dict Json) → Option (Dict Json)
field_by_id id [] = none
field_by_id id (f ∷ fields) = elim (field_by_id id fields) [
  | some g ↦ some g
  | none ↦ if has_id id f then some f else none
]

unfoldable pub put_first : Option (Dict Json) → List (Dict Json) → List (Dict Json)
put_first none fields = fields
put_first (some f) fields = f ∷ fields

-- `[id_to_field[fid] for fid in field_order if fid in id_to_field]`
unfoldable pub fields_in_order : List String → List (Dict Json) → List (Dict Json)
unfolding put_first
fields_in_order [] fields = []
fields_in_order (id ∷ field_order) fields =
    put_first (field_by_id id fields) (fields_in_order field_order fields)

abbrev pub in_order : List String → Dict Json → Bool
in_order field_order f = any (λ id. has_id id f) field_order

-- The fields named by the order, then those that it leaves out.
unfoldable pub reordered : List String → List (Dict Json) → List (Dict Json)
reordered field_order fields =
    fields_in_order field_order fields ++ filter (λ f. not (in_order field_order f)) fields

-- `prop = dict(f.get("property") or {}); prop["hidden"] = ...`, with the error of `dict()`.
unfoldable pub set_hidden : List String → Dict Json → Result AutoNumberError (Dict Json)
set_hidden hidden f = Result.◌>>=◌ (property_dict (get "property" f)) (λ prop.
    ok (insert "property" (obj (dict_members (insert "hidden" (bool (in_order hidden f)) prop))) f))

-- The loop of `update_field_visibility_file`.
unfoldable pub set_all_hidden :
    List String → List (Dict Json) → Result AutoNumberError (List (Dict Json))
set_all_hidden hidden [] = ok []
set_all_hidden hidden (f ∷ fields) =
    Result.◌>>=◌ (set_hidden hidden f)
      (λ g. Result.◌>>=◌ (set_all_hidden hidden fields) (λ rest. ok (g ∷ rest)))

-- `{"fieldId": config.get("fieldId"), "order": config.get("order", "asc")}`
unfoldable pub group_of : Dict Json → Json
group_of config = obj (
    dict_members (
      ("fieldId", get "fieldId" config)
      ∷ ("order", elim (lookup "order" config) [ none ↦ str "asc" | some v ↦ v ])
      ∷ []))

module _ (template : Table) where
  unfoldable pub reorder_fields_file : String → List String → Op Bool
  reorder_fields_file table_id field_order = load_table template table_id >>= λ store.
      save_table table_id (record store { fields = reordered field_order store.fields })
      >> pure true

  unfoldable pub update_field_visibility_file : String → List String → Op Bool
  update_field_visibility_file table_id hidden = load_table template table_id >>= λ store.
      lift (set_all_hidden hidden store.fields) >>= λ fields.
      save_table table_id (record store { fields = fields }) >> pure true

  -- `update_filters_file`, and `clear_filters_file` at the empty list.
  unfoldable pub update_filters_file : String → List Json → Op Bool
  update_filters_file table_id filters = load_table template table_id >>= λ store.
      save_table table_id (record store { filters = filters }) >> pure true

  unfoldable pub clear_filters_file : String → Op Bool
  clear_filters_file table_id = load_table template table_id >>= λ store.
      save_table table_id (record store { filters = [] }) >> pure true

  unfoldable pub update_sorts_file : String → List Json → Op Bool
  update_sorts_file table_id sorts = load_table template table_id >>= λ store.
      save_table table_id (record store { sorts = sorts }) >> pure true

  unfoldable pub clear_sorts_file : String → Op Bool
  clear_sorts_file table_id = load_table template table_id >>= λ store.
      save_table table_id (record store { sorts = [] }) >> pure true

  unfoldable pub update_group_config_file : String → Dict Json → Op Json
  update_group_config_file table_id config = load_table template table_id >>= λ store.
      save_table table_id (record store { group_config = group_of config })
      >> pure (group_of config)
