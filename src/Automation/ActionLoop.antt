-- ===== src/Automation/ActionLoop.antt =====
-- The loop over the actions of a run in app/services/automation/executor.py, with the results that it
-- stores.

use qtable_server.Base.{
  ℕ, suc, Bool, true, false, Option, none, some, List, [], ◌∷◌, ◌==◌, string_eq, nat_eq, ltb,
  if◌then◌else◌, Dict, find,
}
use qtable_server.Base.Result.{Result, ok, err}
use qtable_server.Json.{Json}
use qtable_server.Automation.{Action, action_type, done, broke, ActionResult}
use qtable_server.Automation.Services.{
  Failure, failure_code, error_message, requires_session_rollback, Call, Transaction,
}

abbrev pub is_done : ActionResult → Bool
is_done r = elim r.outcome [ done detail ↦ true | broke code message ↦ false ]

-- `existing_results[index] = ...`, read back in the order of the keys.
unfoldable pub put_result : ActionResult → List ActionResult → List ActionResult
put_result r [] = r ∷ []
put_result r (s ∷ rs) =
    if r.index == s.index
    then r ∷ rs
    else if ltb r.index s.index
    then r ∷ s ∷ rs
    else s ∷ put_result r rs

-- The dict that is built from the stored list: a later item of an index takes the place of an earlier.
unfoldable pub existing_results : List ActionResult → List ActionResult → List ActionResult
existing_results taken [] = taken
existing_results taken (r ∷ rs) = existing_results (put_result r taken) rs

abbrev pub result_at : ℕ → List ActionResult → Option ActionResult
result_at index results = find (λ r. r.index == index) results

-- `existing_results.get(index, {}).get("status") == "succeeded"`
unfoldable pub is_done_at : ℕ → List ActionResult → Bool
is_done_at index results = elim (result_at index results) [ none ↦ false | some r ↦ is_done r ]

abbrev pub done_result : ℕ → Action → Dict Json → ActionResult
done_result index action detail = record {
  index = index;
  type = action_type action;
  outcome = done detail;
}

abbrev pub broke_result : ℕ → Action → Failure → ActionResult
broke_result index action failure = record {
  index = index;
  type = action_type action;
  outcome = broke (failure_code failure) (error_message failure);
}

-- How a run leaves its loop: the session, the results that stand, and the failure if there is one.
pub data Ended (World : Type 0) : Type 0 where
  ended : World → List ActionResult → Option Failure → Ended World

-- An action that raises. A rollback takes back its result, and those of its writes that the action
-- has not committed itself; else the recovery commits both.
unfoldable pub give_up :
    {World : Type 0}
    → Transaction World
    → World
    → ℕ
    → Action
    → List ActionResult
    → Failure
    → Ended World
give_up transaction after index action results failure =
    if requires_session_rollback failure
    then ended (transaction.rollback after) results (some failure)
    else ended (transaction.commit after) (put_result (broke_result index action failure) results)
        (some failure)

-- The result of an action is committed before the next one starts.
unfoldable pub after_action :
    {World : Type 0}
    → Transaction World
    → (World → List ActionResult → Ended World)
    → ℕ
    → Action
    → List ActionResult
    → World × Result Failure (Dict Json)
    → Ended World
after_action transaction rest index action results (w, ok detail) =
    rest (transaction.commit w) (put_result (done_result index action detail) results)
after_action transaction rest index action results (w, err failure) =
    give_up transaction w index action results failure

-- The loop over the actions; `perform` runs one.
unfoldable pub run_actions :
    {World : Type 0}
    → Transaction World
    → (ℕ → Action → Call World (Dict Json))
    → ℕ
    → List Action
    → World
    → List ActionResult
    → Ended World
run_actions transaction perform index [] w results = ended w results none
run_actions transaction perform index (action ∷ actions) w results =
    let rest = run_actions transaction perform (suc index) actions in
    if is_done_at index results
    then rest w results
    else after_action transaction rest index action results (perform index action w)
