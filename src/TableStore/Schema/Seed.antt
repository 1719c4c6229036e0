-- ===== src/TableStore/Schema/Seed.antt =====
-- Numbering the rows that are there when a field becomes an auto-number field (`add_field_file` and
-- `update_field_file` in app/services/smart_table_store/file_backend.py).
use qtable_server.Base.{
  none, some, List, ◌≡◌, sym, ap, ◌∙◌, subst, arith, string_eq, Dict, lookup, insert, lookup-insert,
  length,
}
use qtable_server.Base.Int.{ℤ, pos}
use qtable_server.Base.Result.{ok, >>=-eq-ok, ok_inj}
use qtable_server.Json.{Json, int, obj, dict_members, get, or_null}
use qtable_server.AutoNumber.{next_of, normalize_auto_number_property}
use qtable_server.AutoNumber.Normal.{IsNormal, normalize-IsNormal, IsNormal-normalize}
use qtable_server.AutoNumber.Allocate.{Ascending, allocate-Ascending, next_of-at}
use qtable_server.TableStore.Schema.{seed_numbers}

reset-next :
    (normal : Dict Json) (n : IsNormal normal)
    → lookup "nextNumber" (insert "nextNumber" (get "start" normal) normal) ≡ some (int n.start)
reset-next normal n = simp lookup-insert (ap some (ap or_null n.start_at))

-- The normal property with its next number put back to its start.
reset-IsNormal :
    (normal : Dict Json)
    → IsNormal normal
    → IsNormal (insert "nextNumber" (get "start" normal) normal)
reset-IsNormal normal n = record {
  prefix = n.prefix;
  digits = n.digits;
  start = n.start;
  next = n.start;
  prefix_at = simp lookup-insert n.prefix_at;
  prefix_fits = n.prefix_fits;
  digits_at = simp lookup-insert n.digits_at;
  digits_low = n.digits_low;
  digits_high = n.digits_high;
  start_at = simp lookup-insert n.start_at;
  start_low = n.start_low;
  start_high = n.start_high;
  next_at = reset-next normal n;
  start_le_next = omega arith;
}

-- Seeding gives one number to each row, ascending from the start of the property that the client
-- sent, whatever next number it sent, up to the next number that is stored.
pub seed_numbers-Ascending :
    (property : Json) (records : List (Dict Json)) (values : List ℤ) (stored : Dict Json)
    → seed_numbers property records ≡ ok (values, stored)
    → (normal : Dict Json) × (first : ℤ) × (normalize_auto_number_property property none
        ≡ ok normal)
      × (lookup "start" normal ≡ some (int first))
      × (length values ≡ length records)
      × Ascending first (next_of stored) values
      × IsNormal stored
unfolding seed_numbers
seed_numbers-Ascending property records values stored h =
    let (normal, e, h₁) = >>=-eq-ok (normalize_auto_number_property property none) _ h in
    let n = normalize-IsNormal property none normal e in
    let reset = insert "nextNumber" (get "start" normal) normal in
    let rn = reset-IsNormal normal n in
    let (prop, again, size, rising, is_normal) =
      allocate-Ascending (obj (dict_members reset)) (pos (length records)) values stored h₁ in
    let same : prop ≡ reset = ok_inj (sym again ∙ IsNormal-normalize reset rn) in
    let first : next_of prop ≡ n.start =
      ap next_of same ∙ next_of-at reset n.start (reset-next normal n) in
    (
      normal,
      n.start,
      e,
      n.start_at,
      size,
      subst (λ x. Ascending x (next_of stored) values) first rising,
      is_normal,
    )
