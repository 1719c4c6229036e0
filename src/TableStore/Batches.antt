-- ===== src/TableStore/Batches.antt =====
-- Batches of new rows (app/services/smart_table_store/file_backend.py).
use qtable_server.Base.{
  ℕ, zero, suc, ◌+◌, ◌≤◌, String, Bool, false, Option, none, some, List, [], ◌∷◌, ◌++◌, ◌≡◌, refl,
  sym, ◌∙◌, subst, inl, inr, arith, eq_iff, ◌==◌, string_eq, nat_eq, if◌then◌else◌, Dict, lookup,
  insert, any, lookup-insert, Bool-cases, Option-cases,
}
use qtable_server.Base.Int.{ℤ, pos, negsuc}
use qtable_server.Base.Result.{Result, ok, err}
use qtable_server.Json.{Json, str, get}
use qtable_server.AutoNumber.{AutoNumberError}
use qtable_server.TableStore.{
  Table, Files, TableError, save_table, generate_id, field_key, lift, ◌>>=◌, ◌>>◌,
}
use qtable_server.TableStore.Records.{load-then}
use qtable_server.TableStore.Create.{
  Allocated, cell_of, value_at, new_row, put_cell, fill_row, allocate_fields, append_rows,
  blank_rows, batch_amount, create_records_file,
}

abbrev is_key : String → Option String → Bool
is_key id none = false
is_key id (some k) = k == id

-- Some field has the id.
abbrev pub is_field_id : String → List (Dict Json) → Bool
is_field_id id fields = any (λ f. is_key id (field_key f)) fields

put_cell-lookup :
    (auto_values : Dict (List ℤ)) (index : ℕ) (given : Dict Json) (o : Option String)
    (row : Dict Json) (id : String)
    → lookup id (put_cell auto_values index given o row)
      ≡ (if is_key id o then some (cell_of auto_values index given id) else lookup id row)
unfolding put_cell
put_cell-lookup auto_values index given none row id = refl
put_cell-lookup auto_values index given (some k) row id = elim (Bool-cases (k == id)) [
  | inl same ↦
      subst
        (λ i.
          lookup id (insert k (cell_of auto_values index given k) row)
          ≡ (if k == id then some (cell_of auto_values index given i) else lookup id row))
        ((eq_iff k id).0 same) (lookup-insert k id (cell_of auto_values index given k) row)
  | inr other ↦
      rw other (lookup-insert k id (cell_of auto_values index given k) row ∙ rw other refl)
]

-- A filled row holds, under the id of every field, the number allocated for the row where the
-- field has numbers, whatever value was given, and else the value given; under any other key it
-- holds what it held before.
pub fill_row-lookup :
    (fields : List (Dict Json)) (auto_values : Dict (List ℤ)) (index : ℕ) (given row : Dict Json)
    (id : String)
    → lookup id (fill_row fields auto_values index given row)
      ≡ (if is_field_id id fields then some (cell_of auto_values index given id) else lookup id row)
unfolding fill_row
fill_row-lookup [] auto_values index given row id = refl
fill_row-lookup (field ∷ fields) auto_values index given row id =
    fill_row-lookup fields auto_values index given
      (put_cell auto_values index given (field_key field) row) id
    ∙ ground (arith, put_cell-lookup auto_values index given (field_key field) row id)

-- The cell of a field in the new row at an index: the number at the index where the field has
-- numbers, and else the value given.
abbrev pub NumberOrGiven : Option (List ℤ) → ℕ → Json → Json → Type 0
NumberOrGiven none index given cell = cell ≡ given
NumberOrGiven (some numbers) index given cell = cell ≡ value_at numbers index

-- A new row: it has an id, and under the id of every field its cell, and nothing else.
abbrev pub IsNewRow : String → List (Dict Json) → Dict (List ℤ) → ℕ → Dict Json → Dict Json → Type 0
IsNewRow record_id fields auto_values index given row =
    (key : String)
    → if is_field_id key fields
      then ((cell : Json) × (lookup key row ≡ some cell)
          × NumberOrGiven (lookup key auto_values) index (get key given) cell)
      else (lookup key row ≡ (if "id" == key then some (str record_id) else none))

-- The rows of a batch, each of its own values and with the numbers at its own place.
abbrev pub AreNewRows :
    List (Dict Json) → Dict (List ℤ) → ℕ → List (String × Dict Json) → List (Dict Json) → Type 0
AreNewRows fields auto_values index [] [] = Unit
AreNewRows fields auto_values index [] (row ∷ rows) = ⊥
AreNewRows fields auto_values index (asked ∷ batch) [] = ⊥
AreNewRows fields auto_values index ((record_id, given) ∷ batch) (row ∷ rows) =
    IsNewRow record_id fields auto_values index given row
    × AreNewRows fields auto_values (suc index) batch rows

cell_of-NumberOrGiven :
    (auto_values : Dict (List ℤ)) (index : ℕ) (given : Dict Json) (key : String)
    → NumberOrGiven
        (lookup key auto_values)
        index
        (get key given)
        (cell_of auto_values index given key)
unfolding cell_of
cell_of-NumberOrGiven auto_values index given key = elim (Option-cases (lookup key auto_values)) [
  | inl unnumbered ↦
      let given_cell : cell_of auto_values index given key ≡ get key given =
        rw (cell_of, unnumbered) in
      rw unnumbered given_cell
  | inr (numbers, there) ↦
      let numbered_cell : cell_of auto_values index given key ≡ value_at numbers index =
        rw (cell_of, there) in
      rw there numbered_cell
]

new_row-IsNewRow :
    (record_id : String) (fields : List (Dict Json)) (auto_values : Dict (List ℤ)) (index : ℕ)
    (given : Dict Json)
    → IsNewRow record_id fields auto_values index given
        (new_row record_id fields auto_values index given)
new_row-IsNewRow record_id fields auto_values index given key =
    let filled = fill_row-lookup fields auto_values index given (("id", str record_id) ∷ []) key in
    elim (Bool-cases (is_field_id key fields)) [
      | inl field ↦ rw field (
        cell_of auto_values index given key,
        filled ∙ rw field refl,
        cell_of-NumberOrGiven auto_values index given key,
      )
      | inr other ↦ rw other (filled ∙ rw other refl)
    ]

abbrev pub ids_and_values : List (Dict Json × ℕ) → List (String × Dict Json)
ids_and_values [] = []
ids_and_values ((given, ms) ∷ batch) = (generate_id "r" ms, given) ∷ ids_and_values batch

-- What a batch call did: a failed allocation raises and writes nothing; else the new rows, one for
-- each of the batch and filled as it asks, stand behind the old ones, and the fields are those that the allocation
-- advanced.
pub data IsBatch (table_id : String) (amount : ℤ) (batch : List (String × Dict Json))
    (files : Files) (store : Table) : Result TableError (List (Dict Json)) × Files → Type 0 where
  failed :
      (e : AutoNumberError)
      → allocate_fields amount store.fields [] ≡ err e
      → IsBatch table_id amount batch files store (err (TableError.auto_number e), files)
  created :
      (fields : List (Dict Json)) (auto_values : Dict (List ℤ)) (rows : List (Dict Json))
      → allocate_fields amount store.fields [] ≡ ok (fields, auto_values)
      → AreNewRows fields auto_values 0 batch rows
      → IsBatch table_id amount batch files store (
        ok rows,
        insert table_id (record store { fields = fields; records = store.records ++ rows }) files,
      )

IsBatch-outcome :
    (table_id : String) (amount : ℤ) (batch : List (String × Dict Json)) (files : Files)
    (store : Table) (rows : List (Dict Json) → Dict (List ℤ) → List (Dict Json))
    → ((fields : List (Dict Json)) (auto_values : Dict (List ℤ))
        → AreNewRows fields auto_values 0 batch (rows fields auto_values))
    → (r : Result AutoNumberError Allocated) → allocate_fields amount store.fields [] ≡ r
    → IsBatch table_id amount batch files store (
        (lift r >>= (λ (fields, auto_values).
            append_rows table_id store fields (rows fields auto_values)))
          files)
unfolding append_rows save_table ◌>>◌
IsBatch-outcome table_id amount batch files store rows filled (err e) h = failed e h
IsBatch-outcome table_id amount batch files store rows filled (ok (fields, auto_values)) h =
    created fields auto_values (rows fields auto_values) h (filled fields auto_values)

-- Blank rows: no values, and consecutive ids.
abbrev pub blanks : ℕ → ℕ → ℕ → List (String × Dict Json)
blanks base_id index zero = []
blanks base_id index (suc amount) =
    (generate_id "r" (base_id + index), []) ∷ blanks base_id (suc index) amount

blank_rows-AreNewRows :
    (fields : List (Dict Json)) (auto_values : Dict (List ℤ)) (base_id index amount : ℕ)
    → AreNewRows fields auto_values index
        (blanks base_id index amount)
        (blank_rows fields auto_values base_id index amount)
unfolding blank_rows
blank_rows-AreNewRows fields auto_values base_id index zero = tt
blank_rows-AreNewRows fields auto_values base_id index (suc amount) = (
  new_row-IsNewRow (generate_id "r" (base_id + index)) fields auto_values index [],
  blank_rows-AreNewRows fields auto_values base_id (suc index) amount,
)

batch_amount-bounds : (count : ℤ) → (1 ≤ batch_amount count) × (batch_amount count ≤ 999)
unfolding batch_amount
batch_amount-bounds (pos n) = (omega arith, omega arith)
batch_amount-bounds (negsuc n) = (omega arith, omega arith)

-- Creating blank rows in a stored table: whatever count is asked for, between 1 and 999 rows are
-- made, all or none: if a number cannot be allocated the call raises and no file changes.
pub create_records_file-IsBatch :
    (template : Table) (table_id : String) (count : ℤ) (ms : ℕ) (files : Files) (store : Table)
    → lookup table_id files ≡ some store
    → IsBatch table_id
        (pos (batch_amount count))
        (blanks ms 0 (batch_amount count))
        files
        store
        (create_records_file template table_id count ms files)
      × (1 ≤ batch_amount count)
      × (batch_amount count ≤ 999)
unfolding create_records_file
create_records_file-IsBatch template table_id count ms files store h = (
  subst (IsBatch table_id (pos (batch_amount count)) (blanks ms 0 (batch_amount count)) files store)
      (sym (load-then template table_id store files _ h))
      (IsBatch-outcome table_id (pos (batch_amount count)) (blanks ms 0 (batch_amount count)) files
        store (λ fields auto_values. blank_rows fields auto_values ms 0 (batch_amount count))
        (λ fields auto_values. blank_rows-AreNewRows fields auto_values ms 0 (batch_amount count)) _
        refl),
  (batch_amount-bounds count).0,
  (batch_amount-bounds count).1,
)
