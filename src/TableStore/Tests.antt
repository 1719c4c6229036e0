-- ===== src/TableStore/Tests.antt =====
-- The table store theorems at a small table.
use qtable_server.Base.{
  ℕ, suc, ◌≤◌, String, Bool, true, false, none, some, List, [], ◌∷◌, ◌≡◌, refl, arith, Dict, length,
  lookup, insert, string_eq,
}
use qtable_server.Base.Int.{ℤ, pos, ◌+ℤ◌}
use qtable_server.Base.Result.{ok, err}
use qtable_server.Json.{Json, null, int, str, bool, obj, dict_members, get, truthy}
use qtable_server.AutoNumber.{
  normalize_auto_number_property, allocate_auto_number_values, property_dict, prefix_of, ranged,
  next_number, updated, max_ℤ, int_of, range_from, type_is, is_auto_number_field, get_default,
}
use qtable_server.Text.{char_count}
use qtable_server.TableStore.{
  Table, Files, key_error, has_id, set_hidden, set_all_hidden, update_record_file,
  delete_field_file, update_field_visibility_file, load_table, save_table, lift, ◌>>◌,
  apply_record_patches_file, apply_patches, last_with_id, set_cell_at,
}
use qtable_server.TableStore.Records.{IsUpdated, update_record_file-IsUpdated}
use qtable_server.TableStore.Fields.{IsFieldDeleted, delete_field_file-IsFieldDeleted}
use qtable_server.TableStore.Views.{
  kept_views, set_file_table_default_view_id, make_default, create_view_file, delete_view_file,
  remove_view,
}
use qtable_server.TableStore.ViewRules.{delete_view_file-keeps_one}
use qtable_server.TableStore.Schema.{
  seed_numbers, keep_sequence, split_at_id, update_field_file, updated_field, renumber,
  merge_updates,
}
use qtable_server.TableStore.Schema.Sequence.{update_field_file-keeps_sequence}

abbrev title : Dict Json
title = ("id", str "f1") ∷ ("type", str "text") ∷ []

abbrev number : Dict Json
number = ("id", str "f2") ∷ ("type", str "autoNumber") ∷ []

abbrev row : String → Dict Json
row id = ("id", str id) ∷ ("f1", str "x") ∷ []

abbrev view : String → Dict Json
view id = ("id", str id) ∷ []

abbrev blank : Table
blank = record {
  fields = [];
  records = [];
  views = [];
  filters = [];
  sorts = [];
  group_config = null;
}

abbrev tasks : Table
tasks = record blank {
  fields = title ∷ number ∷ [];
  records = row "r1" ∷ row "r2" ∷ [];
  views = view "v1" ∷ view "v2" ∷ [];
}

abbrev files : Files
files = ("t1", tasks) ∷ []

update_record_file-IsUpdated_example :
    IsUpdated "t1" "r2" "f1"
      (str "y")
      files
      tasks
      (update_record_file blank "t1" "r2" "f1" (str "y") files)
update_record_file-IsUpdated_example =
    update_record_file-IsUpdated blank "t1" "r2" "f1" (str "y") files tasks refl

delete_field_file-IsFieldDeleted_example :
    IsFieldDeleted "t1" "f1" files tasks (delete_field_file blank "t1" "f1" files)
delete_field_file-IsFieldDeleted_example =
    delete_field_file-IsFieldDeleted blank "t1" "f1" files tasks refl

abbrev shown : Bool → Dict Json → Dict Json
shown hidden f = insert "property" (obj (dict_members (("hidden", bool hidden) ∷ []))) f

abbrev f1_hidden : Files
f1_hidden = ("t1", record tasks { fields = shown true title ∷ shown false number ∷ [] }) ∷ []

hides_f1 : update_field_visibility_file blank "t1" ("f1" ∷ []) files ≡ (ok true, f1_hidden)
unfolding update_field_visibility_file load_table save_table lift ◌>>◌ set_all_hidden set_hidden
    has_id type_is property_dict truthy
hides_f1 = refl

view_without_id :
    create_view_file blank "t1" [] (("t1", blank) ∷ [])
    ≡ (err key_error, ("t1", record blank { views = [] ∷ [] }) ∷ [])
unfolding create_view_file make_default load_table save_table ◌>>◌
view_without_id = refl

abbrev one_view : Table
one_view = record tasks { views = view "v2" ∷ [] }

v1_deleted : lookup "t1" (delete_view_file blank "t1" "v1" files).1 ≡ some one_view
unfolding delete_view_file remove_view load_table save_table ◌>>◌ has_id type_is truthy
    set_file_table_default_view_id
v1_deleted = refl

one_v1 : length tasks.views ≤ suc (length (kept_views "v1" tasks))
unfolding has_id type_is
one_v1 = omega arith

delete_view_file-keeps_one_example : 1 ≤ length one_view.views
delete_view_file-keeps_one_example =
    delete_view_file-keeps_one blank "t1" "v1" files tasks one_view refl (omega arith) one_v1
      v1_deleted

abbrev sent_rows : List (Dict Json × ℕ)
sent_rows = (("f1", str "a") ∷ ("f2", int (pos 99)) ∷ [], 5) ∷ ([], 6) ∷ []

abbrev numbered : ℕ → Dict Json
numbered next =
    ("nextNumber", int (pos next))
    ∷ ("prefix", str "")
    ∷ ("digits", int (pos 3))
    ∷ ("start", int (pos 1))
    ∷ []

-- A client that sends a next number of its own does not choose the first number.
seeded_from_one :
    seed_numbers (obj (dict_members (("nextNumber", int (pos 50)) ∷ []))) tasks.records
    ≡ ok (pos 1 ∷ pos 2 ∷ [], numbered 3)
unfolding seed_numbers allocate_auto_number_values range_from ◌+ℤ◌ normalize_auto_number_property
    property_dict prefix_of ranged next_number updated max_ℤ int_of char_count
seeded_from_one = refl

-- An edit that asks for another start and another next number.
abbrev requested : Json
requested = obj (
    dict_members (
      ("nextNumber", int (pos 1))
      ∷ ("prefix", str "")
      ∷ ("digits", int (pos 3))
      ∷ ("start", int (pos 40))
      ∷ []))

kept_at_three : keep_sequence (obj (dict_members (numbered 3))) requested ≡ ok (numbered 3)
unfolding keep_sequence normalize_auto_number_property property_dict prefix_of ranged next_number
    updated max_ℤ int_of char_count
kept_at_three = refl

abbrev number_field : ℕ → Dict Json
number_field next =
    ("id", str "n")
    ∷ ("type", str "autoNumber")
    ∷ ("property", obj (dict_members (numbered next)))
    ∷ []

abbrev counted_table : Table
counted_table = record blank { fields = number_field 3 ∷ [] }

abbrev edit : Dict Json
edit = ("property", requested) ∷ []

field_found : split_at_id "n" counted_table.fields ≡ some ([], number_field 3, [])
unfolding split_at_id has_id type_is
field_found = refl

field_numbered : is_auto_number_field (number_field 3) ≡ true
unfolding is_auto_number_field type_is
field_numbered = refl

type_left_out : type_is "autoNumber" (get_default "type" (get "type" (number_field 3)) edit) ≡ true
unfolding type_is
type_left_out = refl

edited :
    update_field_file blank "t1" "n" edit (("t1", counted_table) ∷ [])
    ≡ (ok (some (number_field 3)), ("t1", counted_table) ∷ [])
unfolding update_field_file updated_field renumber merge_updates split_at_id keep_sequence
    normalize_auto_number_property property_dict prefix_of ranged next_number updated max_ℤ int_of
    char_count is_auto_number_field type_is has_id load_table save_table ◌>>◌
edited = refl

update_field_file-keeps_sequence_example :
    (◌≡◌ {A = Files} (("t1", counted_table) ∷ []) (
      insert "t1"
        (record counted_table { fields = number_field 3 ∷ [] })
        (("t1", counted_table) ∷ [])))
    × ((old new : Dict Json) × (normalize_auto_number_property
            (get "property" (number_field 3))
            none
          ≡ ok old)
        × (get "property" (number_field 3) ≡ obj (dict_members new))
        × (get "start" new ≡ get "start" old))
    × ((n : ℕ)
        → (numbers : List ℤ) × (d e : Dict Json) × (allocate_auto_number_values
              (get "property" (number_field 3))
              (pos n)
            ≡ ok (numbers, d))
          × (allocate_auto_number_values (get "property" (number_field 3)) (pos n)
              ≡ ok (numbers, e)))
update_field_file-keeps_sequence_example =
    update_field_file-keeps_sequence blank "t1" "n" edit (("t1", counted_table) ∷ [])
      (("t1", counted_table) ∷ []) counted_table [] [] (number_field 3) (number_field 3) refl
      field_found field_numbered type_left_out edited

-- A type of null leaves the type as it is and the property is taken as it was sent.
null_type_resets :
    update_field_file blank "t1" "n" (("type", null) ∷ edit) (("t1", counted_table) ∷ []) ≡ (
      ok (some (("id", str "n") ∷ ("type", str "autoNumber") ∷ ("property", requested) ∷ [])),
      (
        "t1",
        record counted_table {
          fields =
              (("id", str "n") ∷ ("type", str "autoNumber") ∷ ("property", requested) ∷ []) ∷ [];
        },
      )
          ∷ [],
    )
unfolding update_field_file updated_field merge_updates split_at_id type_is has_id load_table
    save_table ◌>>◌
null_type_resets = refl

-- The last record with the id takes the patches, and a patch of no record is not counted.
patched :
    apply_record_patches_file blank "t1"
      (record { record_id = "r2"; field_id = "f1"; value = null }
        ∷ record { record_id = "r3"; field_id = "f1"; value = null }
        ∷ [])
      files
    ≡ (ok 1, ("t1", record tasks { records = row "r1" ∷ insert "f1" null (row "r2") ∷ [] }) ∷ [])
unfolding apply_record_patches_file apply_patches last_with_id set_cell_at load_table save_table
    ◌>>◌ has_id type_is
patched = refl
