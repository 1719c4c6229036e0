-- ===== src/TableStore/Views.antt =====
-- The views of a table in app/services/smart_table_store/file_backend.py. Setting the default view
-- imports `_workspace_file_path` from helpers.py, which has no such name, so it always raises.
use qtable_server.Base.{
  String, Bool, true, false, not, Option, none, some, List, [], ◌∷◌, ◌++◌, ◌&&◌, ◌==◌, nat_eq, leb,
  if◌then◌else◌, Dict, lookup, insert, filter, find, length,
}
use qtable_server.Base.Result.{err}
use qtable_server.Json.{Json, null, str, obj, dict_members, get, truthy}
use qtable_server.TableStore.{
  Table, Op, import_error, key_error, ◌>>=◌, ◌>>◌, pure, load_table, save_table, has_id,
}

unfoldable pub set_file_table_default_view_id : String → Json → Op (Unit {0})
set_file_table_default_view_id table_id view_id files = (err import_error, files)

-- The loops over the views: the first view with the id gets a key set.
unfoldable pub set_view :
    String → String → Json → List (Dict Json) → Option (List (Dict Json) × Dict Json)
set_view view_id key value [] = none
set_view view_id key value (v ∷ views) =
    if has_id view_id v
    then some (insert key value v ∷ views, insert key value v)
    else elim (set_view view_id key value views) [
      | none ↦ none
      | some (rest, changed) ↦ some (v ∷ rest, changed)
    ]

-- `first_view and first_view.get("id")`
abbrev pub first_view_id : List (Dict Json) → Json
first_view_id [] = null
first_view_id (v ∷ views) = get "id" v

abbrev pub first_has_id : List (Dict Json) → Bool
first_has_id views = truthy (first_view_id views)

-- The views that `delete_view_file` keeps.
abbrev pub kept_views : String → Table → List (Dict Json)
kept_views view_id store = filter (λ v. not (has_id view_id v)) store.views

-- The end of `delete_view_file`, once it has looked for the view.
unfoldable pub remove_view : String → String → Table → Option (Dict Json) → Op Bool
remove_view table_id view_id store none = pure false
remove_view table_id view_id store (some removed) =
    save_table table_id (record store { views = kept_views view_id store })
    >> (if truthy (get "id" removed) && first_has_id (kept_views view_id store)
        then (set_file_table_default_view_id table_id (first_view_id (kept_views view_id store))
            >> pure true)
        else pure true)

-- `_set_file_table_default_view_id(table_id, view_data["id"])`
unfoldable pub make_default : String → Dict Json → Op (Unit {0})
make_default table_id view files = elim (lookup "id" view) [
  | none ↦ (err key_error, files)
  | some id ↦ set_file_table_default_view_id table_id id files
]

module _ (template : Table) where
  set_view_key : String → String → String → Json → Op (Option (Dict Json))
  set_view_key table_id view_id key value = load_table template table_id >>= λ store.
      elim (set_view view_id key value store.views) [
        | none ↦ pure none
        | some (views, changed) ↦
            save_table table_id (record store { views = views }) >> pure (some changed)
      ]

  unfoldable pub update_view_config_file : String → String → Dict Json → Op (Option (Dict Json))
  unfolding set_view_key
  update_view_config_file table_id view_id config =
      set_view_key table_id view_id "config" (obj (dict_members config))

  unfoldable pub rename_view_file : String → String → String → Op (Option (Dict Json))
  unfolding set_view_key
  rename_view_file table_id view_id name = set_view_key table_id view_id "name" (str name)

  unfoldable pub create_view_file : String → Dict Json → Op (Dict Json)
  unfolding make_default
  create_view_file table_id view = load_table template table_id >>= λ store.
      let views = store.views ++ view ∷ [] in
      save_table table_id (record store { views = views })
      >> (if length views == 1 then (make_default table_id view >> pure view) else pure view)

  unfoldable pub copy_view_file : String → String → Dict Json → Op (Option (Dict Json))
  copy_view_file table_id source_view_id new_view = load_table template table_id >>= λ store.
      elim (find (has_id source_view_id) store.views) [
        | none ↦ pure none
        | some source ↦
            save_table table_id (record store { views = store.views ++ new_view ∷ [] })
            >> pure (some new_view)
      ]

  unfoldable pub delete_view_file : String → String → Op Bool
  delete_view_file table_id view_id = load_table template table_id >>= λ store.
      if leb (length store.views) 1
      then pure false
      else remove_view table_id view_id store (find (has_id view_id) store.views)
