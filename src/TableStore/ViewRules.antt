-- ===== src/TableStore/ViewRules.antt =====
-- What creating and deleting views leaves in the files, also where the call raises
-- (app/services/smart_table_store/file_backend.py).
use qtable_server.Base.{
  suc, ◌≤◌, String, false, Option, none, some, [], ◌∷◌, ◌≡◌, refl, sym, ap, ◌∙◌, ◌⊎◌, subst, inl,
  inr, arith, eq_iff, string_eq, nat_eq, Dict, leb, lookup, insert, find, length, ◌&&◌,
  lookup-insert, Bool-cases, Option-cases, has_key, if◌then◌else◌,
}
use qtable_server.Base.Result.{err}
use qtable_server.Json.{Json, get, truthy}
use qtable_server.TableStore.{Table, Files, import_error, key_error, save_table, has_id, ◌>>◌}
use qtable_server.TableStore.Records.{load-then}
use qtable_server.TableStore.Views.{
  set_file_table_default_view_id, make_default, first_has_id, kept_views, remove_view,
  create_view_file, delete_view_file,
}

-- The first view of a stored table is saved, and then the call raises: for the missing key where the
-- view has no id, and else for the name that cannot be imported.
pub create_view_file-first_view :
    (template : Table) (table_id : String) (view : Dict Json) (files : Files) (store : Table)
    → lookup table_id files ≡ some store
    → store.views ≡ []
    → create_view_file template table_id view files ≡ (
      err (if has_key "id" view then import_error else key_error),
      insert table_id (record store { views = view ∷ [] }) files,
    )
unfolding create_view_file save_table ◌>>◌ set_file_table_default_view_id make_default
create_view_file-first_view template table_id view files store h e =
    load-then template table_id store files _ h
    ∙ rw e (elim (Option-cases (lookup "id" view)) [
      | inl absent ↦ rw (absent, has_key, make_default) refl
      | inr (id, there) ↦ rw (there, has_key, make_default) refl
    ])

lookup-inserted : (k : String) (t : Table) (files : Files) → lookup k (insert k t files) ≡ some t
lookup-inserted k t files = ground (arith, eq_iff k k, lookup-insert k k t files)

remove_leaves :
    (table_id view_id : String) (store : Table) (files : Files) (o : Option (Dict Json))
    → ((remove_view table_id view_id store o files).1 ≡ files)
      ⊎ ((remove_view table_id view_id store o files).1
          ≡ insert table_id (record store { views = kept_views view_id store }) files)
unfolding remove_view save_table ◌>>◌ set_file_table_default_view_id
remove_leaves table_id view_id store files none = inl refl
remove_leaves table_id view_id store files (some removed) =
    elim (Bool-cases (truthy (get "id" removed) && first_has_id (kept_views view_id store))) [
      | inl default_moves ↦ rw default_moves (inr refl)
      | inr stays ↦ rw stays (inr refl)
    ]

-- The files are as they were, or the table had two views and lost those with the id.
delete_leaves :
    (template : Table) (table_id view_id : String) (files : Files) (store : Table)
    → lookup table_id files ≡ some store
    → ((delete_view_file template table_id view_id files).1 ≡ files)
      ⊎ (((delete_view_file template table_id view_id files).1
            ≡ insert table_id (record store { views = kept_views view_id store }) files)
          × (leb (length store.views) 1 ≡ false))
unfolding delete_view_file
delete_leaves template table_id view_id files store h =
    subst
      (λ p.
        (p.1 ≡ files)
        ⊎ ((p.1 ≡ insert table_id (record store { views = kept_views view_id store }) files)
            × (leb (length store.views) 1 ≡ false)))
      (sym (load-then template table_id store files _ h))
      (elim (Bool-cases (leb (length store.views) 1)) [
        | inl last ↦ rw last (inl refl)
        | inr more ↦
            rw more
              (elim (remove_leaves table_id view_id store files
                (find (has_id view_id) store.views)) [
                  | inl same ↦ inl same
                  | inr saved ↦ inr (saved, refl)
                ])
      ])

-- Where at most one view has the id, deleting a view never takes the last view of a table, whether
-- the call returns or raises.
pub delete_view_file-keeps_one :
    (template : Table) (table_id view_id : String) (files : Files) (store store' : Table)
    → lookup table_id files ≡ some store
    → 1 ≤ length store.views
    → length store.views ≤ suc (length (kept_views view_id store))
    → lookup table_id (delete_view_file template table_id view_id files).1 ≡ some store'
    → 1 ≤ length store'.views
delete_view_file-keeps_one template table_id view_id files store store' h some_view once after =
    elim (delete_leaves template table_id view_id files store h) [
      | inl same ↦
          subst (λ t. 1 ≤ length t.views)
            (some_inj (sym h ∙ ap (lookup table_id) (sym same) ∙ after)) some_view
      | inr (saved, more) ↦
          subst (λ t. 1 ≤ length t.views)
            (some_inj (
              sym
                (lookup-inserted table_id (record store { views = kept_views view_id store }) files)
              ∙ ap (lookup table_id) (sym saved)
              ∙ after))
            (ground (arith, once, more))
    ]
  where
    some_inj : {a b : Table} → ◌≡◌ {A = Option Table} (some a) (some b) → a ≡ b
    some_inj e = cc
