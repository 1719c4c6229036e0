-- ===== src/AutoNumber/Format.antt =====
-- The text of an auto-number cell: `format_auto_number` of app/services/auto_number_engine.py.
use Prim.Native.String.{◌++◌ as join_text}
use qtable_server.Base.{
  ℕ, zero, suc, ◌-◌, String, none, some, [], ◌∷◌, ◌≡◌, refl, ◌||◌, if◌then◌else◌, Dict,
}
use qtable_server.Base.Int.{ℤ, pos, negsuc, pos_part}
use qtable_server.Base.Result.{Result, ok, ◌>>=◌}
use qtable_server.Json.{Json, int, str, get, is_null, is_empty_str, obj, dict_members}
use qtable_server.Text.{str_nat, decimal, char_count}
use qtable_server.AutoNumber.{
  AutoNumberError, int_of, normalize_auto_number_property, property_dict, prefix_of, ranged,
  next_number, updated, max_ℤ,
}
use qtable_server.RowPermission.{text_of}

unfoldable zeros : ℕ → String
zeros zero = ""
zeros (suc n) = join_text "0" (zeros n)

-- `f"{number:0{width}d}"`: the sign counts for the width.
unfoldable pub zero_padded : ℕ → ℤ → String
unfolding zeros
zero_padded width (pos n) = join_text (zeros (width - char_count (str_nat n))) (str_nat n)
zero_padded width (negsuc n) =
    join_text "-" (join_text (zeros (width - suc (char_count (str_nat (suc n))))) (str_nat (suc n)))

abbrev key_text : Json → String
key_text (str s) = s
key_text _ = ""

abbrev key_number : Json → ℕ
key_number (int n) = pos_part n
key_number _ = 0

unfoldable pub format_auto_number : Dict Json → Json → Result AutoNumberError String
format_auto_number field value =
    if is_null value || is_empty_str value
    then ok ""
    else normalize_auto_number_property (get "property" field) none >>= λ prop.
        elim (int_of value) [
          | none ↦ ok (text_of value)
          | some number ↦ ok (
              join_text (key_text (get "prefix" prop))
                (zero_padded (key_number (get "digits" prop)) number))
        ]

padded_sample :
    format_auto_number
      (("property", obj (dict_members (("prefix", str "T-") ∷ []))) ∷ [])
      (int (pos 7))
    ≡ ok "T-007"
unfolding format_auto_number zero_padded str_nat decimal char_count int_of
    normalize_auto_number_property property_dict prefix_of ranged next_number updated max_ℤ
padded_sample = refl
