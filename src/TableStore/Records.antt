-- ===== src/TableStore/Records.antt =====
-- What the row operations of app/services/smart_table_store/file_backend.py leave in the files.
use qtable_server.Base.{
  String, true, false, not, Option, none, some, List, [], ◌∷◌, ◌++◌, ◌≡◌, refl, sym, ap, ◌∙◌, subst,
  ◌⊎◌, inl, inr, arith, ◌==◌, string_eq, if◌then◌else◌, Dict, ltb, lookup, insert, filter, any,
  length, lookup-insert, length-filter-le, Bool-cases, Option-cases,
}
use qtable_server.Base.Result.{Result, ok}
use qtable_server.Json.{Json}
use qtable_server.TableStore.{
  Table, Files, TableError, Op, ◌>>=◌, ◌>>◌, and_then, load_table, save_table, has_id, set_cell,
  save_changed, update_record_file, delete_record_file,
}

abbrev pub without_id : String → List (Dict Json) → List (Dict Json)
without_id id rows = filter (λ r. not (has_id id r)) rows

shorter :
    (id : String) (rows : List (Dict Json))
    → ltb (length (without_id id rows)) (length rows) ≡ any (has_id id) rows
shorter id [] = refl
shorter id (r ∷ rows) =
    ground (arith, shorter id rows, length-filter-le (λ x. not (has_id id x)) rows)

pub none_left :
    (id : String) (rows : List (Dict Json)) → any (has_id id) (without_id id rows) ≡ false
none_left id [] = refl
none_left id (r ∷ rows) = ground (arith, none_left id rows)

load-stored :
    (template : Table) (table_id : String) (store : Table) (files : Files)
    → lookup table_id files ≡ some store
    → load_table template table_id files ≡ (ok store, files)
unfolding load_table
load-stored template table_id store files h = rw (h, load_table) refl

pub load-then :
    {A : Type 0} (template : Table) (table_id : String) (store : Table) (files : Files)
    (f : Table → Op A)
    → lookup table_id files ≡ some store
    → (load_table template table_id >>= f) files ≡ f store files
unfolding ◌>>=◌
load-then template table_id store files f h =
    ap (λ p. and_then p f) (load-stored template table_id store files h)

delete_runs :
    (template : Table) (table_id record_id : String) (files : Files) (store : Table)
    → lookup table_id files ≡ some store
    → delete_record_file template table_id record_id files ≡ (
      ok (ltb (length (without_id record_id store.records)) (length store.records)),
      insert table_id (record store { records = without_id record_id store.records }) files,
    )
unfolding delete_record_file save_table ◌>>◌
delete_runs template table_id record_id files store h = load-then template table_id store files _ h

-- Deleting a record of a stored table never fails, says whether a row had the id, leaves no row
-- with it, and keeps every other row in its order and every other table.
pub delete_record_file_lem :
    (template : Table) (table_id record_id : String) (files : Files) (store : Table) (k : String)
    → lookup table_id files ≡ some store
    → (rows : List (Dict Json)) × (after : Files) × (delete_record_file template table_id record_id
          files
        ≡ (ok (any (has_id record_id) store.records), after))
      × (lookup k after
          ≡ (if table_id == k then some (record store { records = rows }) else lookup k files))
      × (rows ≡ filter (λ r. not (has_id record_id r)) store.records)
      × (any (has_id record_id) rows ≡ false)
delete_record_file_lem template table_id record_id files store k h = (
  without_id record_id store.records,
  insert table_id (record store { records = without_id record_id store.records }) files,
  delete_runs template table_id record_id files store h
      ∙ ap
          (λ b. (
            ok b,
            insert table_id (record store { records = without_id record_id store.records }) files,
          ))
          (shorter record_id store.records),
  lookup-insert table_id k _ files,
  refl,
  none_left record_id store.records,
)

-- The first row with the id is the one that changes, in one cell.
pub record IsCellSet (record_id field_id : String) (value : Json) (rows rows' : List (Dict Json))
    (changed : Dict Json) : Type 0 where
  pub before : List (Dict Json)
  pub row : Dict Json
  pub after : List (Dict Json)
  pub was : rows ≡ before ++ row ∷ after
  pub found : has_id record_id row ≡ true
  pub first : any (has_id record_id) before ≡ false
  pub set : changed ≡ insert field_id value row
  pub becomes : rows' ≡ before ++ changed ∷ after

set_later :
    {record_id field_id : String} {value : Json} (r : Dict Json) (rows rest : List (Dict Json))
    (c : Dict Json) (rows' : List (Dict Json)) (changed : Dict Json)
    → has_id record_id r ≡ false
    → IsCellSet record_id field_id value rows rest c
    → rows' ≡ r ∷ rest
    → changed ≡ c
    → IsCellSet record_id field_id value (r ∷ rows) rows' changed
set_later r rows rest c rows' changed later s e d = record {
  before = r ∷ s.before;
  row = s.row;
  after = s.after;
  was = ap (λ t. r ∷ t) s.was;
  found = s.found;
  first = rw later s.first;
  set = d ∙ s.set;
  becomes = e ∙ ap (λ t. r ∷ t) (s.becomes ∙ ap (λ x. s.before ++ x ∷ s.after) (sym d));
}

set_cell-IsCellSet :
    (record_id field_id : String) (value : Json) (rows rows' : List (Dict Json))
    (changed : Dict Json)
    → set_cell record_id field_id value rows ≡ some (rows', changed)
    → IsCellSet record_id field_id value rows rows' changed
unfolding set_cell
set_cell-IsCellSet record_id field_id value [] rows' changed h = cc
set_cell-IsCellSet record_id field_id value (r ∷ rows) rows' changed h =
    elim (Bool-cases (has_id record_id r)) [
      | inl here ↦ record {
        before = [];
        row = r;
        after = rows;
        was = refl;
        found = here;
        first = refl;
        set = ground arith;
        becomes = ground arith;
      }
      | inr later ↦ elim (Option-cases (set_cell record_id field_id value rows)) [
        | inl gone ↦ ground arith
        | inr ((rest, c), found) ↦
            set_later r rows rest c rows' changed later
              (set_cell-IsCellSet record_id field_id value rows rest c found) (ground arith)
              (ground arith)
      ]
    ]

set_cell-none :
    (record_id field_id : String) (value : Json) (rows : List (Dict Json))
    → set_cell record_id field_id value rows ≡ none
    → any (has_id record_id) rows ≡ false
unfolding set_cell
set_cell-none record_id field_id value [] h = refl
set_cell-none record_id field_id value (r ∷ rows) h =
    ground (arith, set_cell-none record_id field_id value rows)

update_runs :
    (template : Table) (table_id record_id field_id : String) (value : Json) (files : Files)
    (store : Table)
    → lookup table_id files ≡ some store
    → update_record_file template table_id record_id field_id value files
      ≡ save_changed table_id store (set_cell record_id field_id value store.records) files
unfolding update_record_file
update_runs template table_id record_id field_id value files store h =
    load-then template table_id store files _ h

-- What a cell update did: nothing without a row of the id, and else the first row of the id has
-- the cell set and is returned, and every other row and table is as it was.
pub data IsUpdated (table_id record_id field_id : String) (value : Json) (files : Files)
    (store : Table) : Result TableError (Option (Dict Json)) × Files → Type 0 where
  missing :
      any (has_id record_id) store.records ≡ false
      → IsUpdated table_id record_id field_id value files store (ok none, files)
  updated :
      (rows : List (Dict Json)) (changed : Dict Json)
      → IsCellSet record_id field_id value store.records rows changed
      → IsUpdated table_id record_id field_id value files store
          (ok (some changed), insert table_id (record store { records = rows }) files)

-- An update of a cell of a stored table never fails: without a row of the id it returns nothing
-- and writes nothing; else it sets the cell of the first such row, returns that row, and keeps all
-- other rows and tables.
pub update_record_file-IsUpdated :
    (template : Table) (table_id record_id field_id : String) (value : Json) (files : Files)
    (store : Table)
    → lookup table_id files ≡ some store
    → IsUpdated table_id record_id field_id value files store
        (update_record_file template table_id record_id field_id value files)
unfolding save_changed save_table ◌>>◌
update_record_file-IsUpdated template table_id record_id field_id value files store h =
    subst (IsUpdated table_id record_id field_id value files store)
      (sym (update_runs template table_id record_id field_id value files store h))
      (outcome (Option-cases (set_cell record_id field_id value store.records)))
  where
    outcome :
        (set_cell record_id field_id value store.records ≡ none)
          ⊎ ((a : List (Dict Json) × Dict Json) × (set_cell record_id field_id value store.records
                ≡ some a))
        → IsUpdated table_id record_id field_id value files store
            (save_changed table_id store (set_cell record_id field_id value store.records) files)
    outcome (inl e) = rw e (missing (set_cell-none record_id field_id value store.records e))
    outcome (inr ((rows, changed), e)) = rw e (
        updated rows changed
          (set_cell-IsCellSet record_id field_id value store.records rows changed e))
