-- ===== src/AutoNumber/Tests.antt =====
-- The auto-number theorems at small properties.
use qtable_server.Base.{ℕ, ◌+◌, none, some, [], ◌∷◌, ◌++◌, ◌≡◌, refl, arith, Dict, length}
use qtable_server.Base.Int.{pos, pos_part, ◌+ℤ◌}
use qtable_server.Base.Result.{ok, err}
use qtable_server.Json.{Json, int, str, obj, dict_members}
use qtable_server.Text.{char_count, parse_int, strip, lstrip, rstrip, read_signed}
use qtable_server.AutoNumber.{
  AutoNumberError, normalize_auto_number_property, allocate_auto_number_values, next_of,
  property_dict, prefix_of, ranged, next_number, updated, max_ℤ, int_of, range_from,
}
use qtable_server.AutoNumber.Normal.{IsNormal}
use qtable_server.AutoNumber.Allocate.{Ascending, allocate-Ascending, allocate-allocate}

-- A property as a client sends it, with a start that is a text.
abbrev sent : Dict Json
sent = ("prefix", str "T-") ∷ ("start", str " 5 ") ∷ []

abbrev tickets : ℕ → Dict Json
tickets next =
    ("prefix", str "T-")
    ∷ ("start", int (pos 5))
    ∷ ("digits", int (pos 3))
    ∷ ("nextNumber", int (pos next))
    ∷ []

sent_normal : normalize_auto_number_property (obj (dict_members sent)) none ≡ ok (tickets 5)
unfolding normalize_auto_number_property property_dict prefix_of ranged next_number updated max_ℤ
    int_of char_count parse_int strip lstrip rstrip read_signed
sent_normal = refl

zero_digits :
    normalize_auto_number_property (obj (dict_members (("digits", int (pos 0)) ∷ []))) none
    ≡ err AutoNumberError.digits_range
unfolding normalize_auto_number_property property_dict prefix_of ranged int_of char_count
zero_digits = refl

first_two :
    allocate_auto_number_values (obj (dict_members sent)) (pos 2)
    ≡ ok (pos 5 ∷ pos 6 ∷ [], tickets 7)
unfolding ◌+ℤ◌ allocate_auto_number_values range_from normalize_auto_number_property property_dict
    prefix_of ranged next_number updated max_ℤ int_of char_count parse_int strip lstrip rstrip
    read_signed
first_two = refl

one_more :
    allocate_auto_number_values (obj (dict_members (tickets 7))) (pos 1)
    ≡ ok (pos 7 ∷ [], tickets 8)
unfolding ◌+ℤ◌ allocate_auto_number_values range_from normalize_auto_number_property property_dict
    prefix_of ranged next_number updated max_ℤ int_of char_count
one_more = refl

kept_at_nine :
    normalize_auto_number_property (obj (dict_members (tickets 7))) (some (pos 9)) ≡ ok (tickets 9)
unfolding normalize_auto_number_property property_dict prefix_of ranged next_number updated max_ℤ
    int_of char_count
kept_at_nine = refl

tickets-IsNormal : IsNormal (tickets 5)
unfolding char_count
tickets-IsNormal = record {
  prefix = "T-";
  digits = pos 3;
  start = pos 5;
  next = pos 5;
  prefix_at = refl;
  prefix_fits = omega arith;
  digits_at = refl;
  digits_low = omega arith;
  digits_high = omega arith;
  start_at = refl;
  start_low = omega arith;
  start_high = omega arith;
  next_at = refl;
  start_le_next = omega arith;
}

allocate-Ascending_example :
    (prop : Dict Json) × (normalize_auto_number_property (obj (dict_members sent)) none ≡ ok prop)
    × (length (pos 5 ∷ pos 6 ∷ []) ≡ pos_part (pos 2))
    × Ascending (next_of prop) (next_of (tickets 7)) (pos 5 ∷ pos 6 ∷ [])
    × IsNormal (tickets 7)
allocate-Ascending_example =
    allocate-Ascending (obj (dict_members sent)) (pos 2) (pos 5 ∷ pos 6 ∷ []) (tickets 7) first_two

allocate-allocate_example :
    allocate_auto_number_values (obj (dict_members sent)) (pos (2 + 1))
    ≡ ok ((pos 5 ∷ pos 6 ∷ []) ++ pos 7 ∷ [], tickets 8)
allocate-allocate_example =
    allocate-allocate (obj (dict_members sent)) 2 1 (pos 5 ∷ pos 6 ∷ []) (pos 7 ∷ []) (tickets 7)
      (tickets 8) first_two one_more
