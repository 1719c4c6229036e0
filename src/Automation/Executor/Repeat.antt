-- ===== src/Automation/Executor/Repeat.antt =====
-- A retry of app/services/automation/executor.py takes up where the last run stopped: what has
-- succeeded is not done again.
use qtable_server.Base.{
  ℕ, suc, ◌≤◌, Bool, true, false, Option, none, some, List, [], ◌∷◌, ◌≡◌, refl, sym, subst, ap, ◌∙◌,
  Dict, ◌==◌, nat_eq, if◌then◌else◌, arith, Bool-cases, inl, inr,
}
use qtable_server.Base.Result.{Result, ok, err}
use qtable_server.Json.{Json}
use qtable_server.Automation.{Action, ActionResult}
use qtable_server.Automation.Services.{Failure, Call, Transaction, requires_session_rollback}
use qtable_server.Automation.ActionLoop.{
  is_done, run_actions, Ended, ended, give_up, after_action, put_result, result_at, is_done_at,
  done_result, broke_result,
}
use qtable_server.Automation.Executor.Results.{
  result_at-put_result, put_result-Ascending, Ascending,
}

abbrev found_done : Option ActionResult → Bool
found_done o = elim o [ none ↦ false | some r ↦ is_done r ]

pub is_done_at-put_result :
    (i : ℕ) (r : ActionResult) (rs : List ActionResult)
    → is_done_at i (put_result r rs) ≡ (if r.index == i then is_done r else is_done_at i rs)
unfolding is_done_at
is_done_at-put_result i r rs =
    subst (λ o. found_done o ≡ (if r.index == i then is_done r else found_done (result_at i rs)))
      (sym (result_at-put_result i r rs)) (ground arith)

module _ {World : Type 0} (session : Transaction World)
    (p q : ℕ → Action → Call World (Dict Json)) where
  -- The two ways of performing agree on every action from an index on that has not succeeded.
  abbrev pub AgreeFrom : ℕ → List ActionResult → Type 0
  AgreeFrom index results =
      (i : ℕ)
      → index ≤ i
      → is_done_at i results ≡ false
      → (action : Action) (w : World) → p i action w ≡ q i action w

  after_done :
      (index : ℕ) (action : Action) (detail : Dict Json) (results : List ActionResult)
      → AgreeFrom index results
      → AgreeFrom (suc index) (put_result (done_result index action detail) results)
  after_done index action detail results agree i le open_at =
      agree i (omega arith)
        (ground (arith, is_done_at-put_result i (done_result index action detail) results, open_at))

  same_after :
      (index : ℕ) (action : Action) (f g : World → List ActionResult → Ended World)
      (results : List ActionResult) (made : World × Result Failure (Dict Json))
      → ((w : World) (next : List ActionResult) → AgreeFrom (suc index) next → f w next ≡ g w next)
      → AgreeFrom index results
      → after_action session f index action results made
        ≡ after_action session g index action results made
  unfolding after_action
  same_after index action f g results (w, err failure) rest agree = refl
  same_after index action f g results (w, ok detail) rest agree =
      rest (session.commit w) (put_result (done_result index action detail) results)
        (after_done index action detail results agree)

  same_runs :
      (index : ℕ) (actions : List Action) (w : World) (results : List ActionResult)
      → AgreeFrom index results
      → run_actions session p index actions w results
        ≡ run_actions session q index actions w results
  unfolding run_actions
  same_runs index [] w results agree = refl
  same_runs index (action ∷ actions) w results agree =
      elim (Bool-cases (is_done_at index results)) [
        | inl already ↦
            rw already (same_runs (suc index) actions w results (λ i le. agree i (omega arith)))
        | inr pending ↦ rw pending (
            ap
              (after_action session (run_actions session p (suc index) actions) index action
                results)
              (agree index (omega arith) pending action w)
            ∙ same_after index action (run_actions session p (suc index) actions)
                (run_actions session q (suc index) actions) results (q index action w)
                (same_runs (suc index) actions) agree)
      ]

  -- A run depends on how an action is performed only where the action has not succeeded before: an
  -- action whose success is stored is not performed again, whatever performing it would do.
  pub run_actions-only_pending :
      (actions : List Action) (w : World) (results : List ActionResult)
      → ((i : ℕ)
          → is_done_at i results ≡ false
          → (action : Action) (v : World) → p i action v ≡ q i action v)
      → run_actions session p 0 actions w results ≡ run_actions session q 0 actions w results
  run_actions-only_pending actions w results agree = same_runs 0 actions w results (λ i le. agree i)

abbrev pub results_of : {World : Type 0} → Ended World → List ActionResult
results_of (ended w results failure) = results

module _ {World : Type 0} (session : Transaction World) (P : List ActionResult → Type 0)
    (keep : (r : ActionResult) (rs : List ActionResult)
      → is_done_at r.index rs ≡ false
      → P rs
      → P (put_result r rs)) where
  give_up-inv :
      (after : World) (index : ℕ) (action : Action) (results : List ActionResult)
      (failure : Failure)
      → is_done_at index results ≡ false
      → P results
      → P (results_of (give_up session after index action results failure))
  unfolding give_up
  give_up-inv after index action results failure pending h =
      elim (Bool-cases (requires_session_rollback failure)) [
        | inl lost ↦ rw lost h
        | inr kept ↦ rw kept (keep (broke_result index action failure) results pending h)
      ]

  after_action-inv :
      (f : World → List ActionResult → Ended World) (index : ℕ) (action : Action)
      (results : List ActionResult) (made : World × Result Failure (Dict Json))
      → ((w : World) (next : List ActionResult) → P next → P (results_of (f w next)))
      → is_done_at index results ≡ false
      → P results
      → P (results_of (after_action session f index action results made))
  unfolding after_action
  after_action-inv f index action results (w, err failure) rest pending h =
      give_up-inv w index action results failure pending h
  after_action-inv f index action results (w, ok detail) rest pending h =
      rest (session.commit w) (put_result (done_result index action detail) results)
        (keep (done_result index action detail) results pending h)

  -- What every write of a pending result keeps, the whole loop keeps.
  pub run_actions-inv :
      (perform : ℕ → Action → Call World (Dict Json)) (index : ℕ) (actions : List Action)
      (w : World) (results : List ActionResult)
      → P results
      → P (results_of (run_actions session perform index actions w results))
  unfolding run_actions
  run_actions-inv perform index [] w results h = h
  run_actions-inv perform index (action ∷ actions) w results h =
      elim (Bool-cases (is_done_at index results)) [
        | inl already ↦ rw already (run_actions-inv perform (suc index) actions w results h)
        | inr pending ↦ rw pending (
            after_action-inv (run_actions session perform (suc index) actions) index action results
              (perform index action w) (run_actions-inv perform (suc index) actions) pending h)
      ]

kept_by_put :
    (i : ℕ) (r s : ActionResult) (rs : List ActionResult)
    → is_done s ≡ true
    → is_done_at r.index rs ≡ false
    → result_at i rs ≡ some s
    → result_at i (put_result r rs) ≡ some s
unfolding is_done_at
kept_by_put i r s rs good pending h =
    rw (result_at-put_result i r rs) (elim (Bool-cases (r.index == i)) [
      | inl here ↦ absurd (ground arith)
      | inr other ↦ rw other h
    ])

-- A success that is stored for an action is still stored, with its detail, after any further run,
-- whatever fails in it.
pub run_actions-keep :
    {World : Type 0} (session : Transaction World) (perform : ℕ → Action → Call World (Dict Json))
    (actions : List Action) (w : World) (results : List ActionResult) (i : ℕ) (s : ActionResult)
    → is_done s ≡ true
    → result_at i results ≡ some s
    → result_at i (results_of (run_actions session perform 0 actions w results)) ≡ some s
run_actions-keep session perform actions w results i s good h =
    run_actions-inv session (λ rs. result_at i rs ≡ some s) (λ r rs. kept_by_put i r s rs good)
      perform 0 actions w results h

pub run_actions-Ascending :
    {World : Type 0} (session : Transaction World) (perform : ℕ → Action → Call World (Dict Json))
    (actions : List Action) (w : World) (results : List ActionResult)
    → Ascending results
    → Ascending (results_of (run_actions session perform 0 actions w results))
run_actions-Ascending session perform actions w results h =
    run_actions-inv session Ascending (λ r rs _. put_result-Ascending r rs) perform 0 actions w
      results h
