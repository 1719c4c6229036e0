-- ===== src/Automation/Executor/Recipients.antt =====
-- Whom a notification of app/services/automation/executor.py goes to.
use qtable_server.Base.{
  ℕ, ◌<◌, String, Bool, false, not, Option, none, some, List, [], ◌∷◌, ◌&&◌, ◌==◌, nat_eq,
  string_eq, any, All, Dict,
}
use qtable_server.Base.Int.{ℤ, pos, negsuc}
use qtable_server.Json.{Json, get}
use qtable_server.Automation.Services.{Services}
use qtable_server.Automation.Actions.{member_ids}

abbrev pub has_number : ℕ → List ℕ → Bool
has_number n ns = any (λ m. m == n) ns

-- Ascending, so that no number is there twice.
abbrev pub Increasing : List ℕ → Type 0
Increasing [] = Unit
Increasing (n ∷ ns) = All (λ m. n < m) ns × Increasing ns

abbrev pub names : ℕ → ℤ → Bool
names n (pos m) = m == n
names n (negsuc m) = false

-- The value of a record's field names a user.
abbrev pub field_names : ℕ → Option String → Dict Json → Bool
field_names n none record_data = false
field_names n (some field_id) record_data =
    not (field_id == "") && any (names n) (member_ids (get field_id record_data))
