-- ===== src/Automation/Executor/Retries.antt =====
-- Retries end: app/services/automation/executor.py runs an execution a bounded number of times, each
-- after a bounded delay.
use qtable_server.Base.{
  ℕ, zero, suc, ◌+◌, ◌*◌, ◌^◌, ◌-◌, ◌<◌, ◌≤◌, min, String, Bool, true, false, List, [], ◌∷◌, ◌≡◌,
  refl, ap, ◌||◌, ◌&&◌, if◌then◌else◌, leb, length, arith, Bool-cases, inl, inr,
}
use qtable_server.Automation.{AutomationRule, AutomationEvent, AutomationExecution, ExecutionStatus}
use qtable_server.Automation.Services.{Failure, Services}
use qtable_server.Automation.Executor.{
  is_terminal, is_retryable, start_run, skip_run, succeed_run, fail_run, run, retry_delay,
}
use qtable_server.Automation.Executor.Cases.{run_started-cases}

pow_pos : (n : ℕ) → 1 ≤ 2 ^ n
pow_pos zero = omega arith
pow_pos (suc n) = omega (arith, pow_pos n)

pow-suc : (n : ℕ) → 2 ^ suc n ≡ 2 * 2 ^ n
pow-suc n = omega arith

delay_at : (n : ℕ) → retry_delay (suc n) ≡ min 300 (5 * 2 ^ n)
unfolding retry_delay
delay_at n = let same : suc n - 1 ≡ n = omega arith in ap (λ (m : ℕ). min 300 (5 * 2 ^ m)) same

-- The delay before a retry is at least 5 and at most 300 seconds, never shrinks, and doubles from
-- one attempt to the next until it reaches the bound.
pub retry_delay_bounds :
    (attempt : ℕ)
    → (5 ≤ retry_delay attempt)
      × (retry_delay attempt ≤ 300)
      × (retry_delay attempt ≤ retry_delay (suc attempt))
      × (retry_delay (suc (suc attempt)) ≡ min 300 (2 * retry_delay (suc attempt)))
retry_delay_bounds zero = unfold retry_delay in omega arith
retry_delay_bounds (suc n) = omega (
  arith,
  pow_pos n,
  delay_at n,
  delay_at (suc n),
  delay_at (suc (suc n)),
  pow-suc n,
  pow-suc (suc n),
)

-- What holds of an execution after a run: it is over, or waits for one of the retries left.
record IsSettled (retries : ℕ) (before after : AutomationExecution) : Type 0 where
  counted : after.attempt ≡ suc before.attempt
  over_or_again :
      (is_terminal after.status || (is_retryable after.status && leb after.attempt retries)) ≡ true

failed-IsSettled :
    (retries now : ℕ) (ids : List String) (failure : Failure) (before e : AutomationExecution)
    → e.attempt ≡ suc before.attempt
    → IsSettled retries before (fail_run retries now ids failure e)
unfolding fail_run
failed-IsSettled retries now ids failure before e h = elim (Bool-cases (leb e.attempt retries)) [
  | inl again ↦ rw again (record { counted = h; over_or_again = rw again })
  | inr last ↦ rw last (record { counted = h; over_or_again = ground arith })
]

terminal_stops :
    (status : ExecutionStatus) → is_terminal status ≡ true → is_retryable status ≡ false
terminal_stops status h = ground arith

waits : (a b c : Bool) → a ≡ false → (a || (b && c)) ≡ true → b ≡ true
waits a b c h k = ground arith

module _ (services : Services) where
  open services use {World}

  run-IsSettled :
      (rule : AutomationRule) (event : AutomationEvent) (started finished : ℕ) (w : World)
      (e : AutomationExecution)
      → IsSettled rule.max_retries e (run services rule event started finished w e).1
  unfolding run start_run skip_run succeed_run
  run-IsSettled rule event started finished w e =
      run_started-cases services rule event finished w (start_run started e)
        (IsSettled rule.max_retries e)
        (λ code message. record { counted = refl; over_or_again = refl })
        (λ results ids a. record { counted = refl; over_or_again = refl })
        (λ ids failure.
          failed-IsSettled rule.max_retries finished ids failure e (start_run started e) refl)
        (λ results ids failure a.
          failed-IsSettled rule.max_retries finished ids failure e
            (record (start_run started e) { action_results = results }) refl)

  -- A round of the worker: the times of the run, and what others have done to the session before it.
  pub record Round : Type 0 where
    pub started : ℕ
    pub finished : ℕ
    pub meanwhile : World → World

  -- The runs of one execution, as long as it may be run.
  unfoldable pub run_rounds :
      AutomationRule
      → AutomationEvent
      → List Round
      → World
      → AutomationExecution
      → World × AutomationExecution
  run_rounds rule event [] w e = (w, e)
  run_rounds rule event (round ∷ rounds) w e =
      let (v, after) = run services rule event round.started round.finished (round.meanwhile w) e in
      let rest = run_rounds rule event rounds v after in
      if is_retryable e.status then rest else (w, e)

  run_rounds-over :
      (rule : AutomationRule) (event : AutomationEvent) (rounds : List Round) (w : World)
      (e : AutomationExecution)
      → is_terminal e.status ≡ true
      → run_rounds rule event rounds w e ≡ (w, e)
  unfolding run_rounds
  run_rounds-over rule event [] w e h = refl
  run_rounds-over rule event (round ∷ rounds) w e h = rw (terminal_stops e.status h)

  settles :
      (rule : AutomationRule) (event : AutomationEvent) (rounds : List Round) (w : World)
      (e : AutomationExecution)
      → (is_terminal e.status || (is_retryable e.status && leb e.attempt rule.max_retries)) ≡ true
      → rule.max_retries < e.attempt + length rounds
      → is_terminal (run_rounds rule event rounds w e).1.status ≡ true
  unfolding run_rounds
  settles rule event [] w e h n = ground arith
  settles rule event (round ∷ rounds) w e h n = elim (Bool-cases (is_terminal e.status)) [
    | inl over ↦ rw (terminal_stops e.status over) over
    | inr open_still ↦
        let again = waits (is_terminal e.status) (is_retryable e.status) _ open_still h in
        let v : World × AutomationExecution =
          run services rule event round.started round.finished (round.meanwhile w) e in
        let s : IsSettled rule.max_retries e v.1 =
          run-IsSettled rule event round.started round.finished (round.meanwhile w) e in
        rw again (settles rule event rounds v.0 v.1 s.over_or_again (omega (arith, s.counted)))
  ]

  -- An execution that may be run reaches a final status: after at most one run more than the retries
  -- that its attempts have left, whatever happens to the session between the runs and however each
  -- run ends; a final status then stays.
  pub run_rounds-terminal :
      (rule : AutomationRule) (event : AutomationEvent) (round : Round) (rounds : List Round)
      (w : World) (e : AutomationExecution)
      → is_retryable e.status ≡ true
      → rule.max_retries ≤ e.attempt + length rounds
      → is_terminal (run_rounds rule event (round ∷ rounds) w e).1.status ≡ true
  unfolding run_rounds
  run_rounds-terminal rule event round rounds w e h n =
      let v : World × AutomationExecution =
        run services rule event round.started round.finished (round.meanwhile w) e in
      let s : IsSettled rule.max_retries e v.1 =
        run-IsSettled rule event round.started round.finished (round.meanwhile w) e in
      rw h (settles rule event rounds v.0 v.1 s.over_or_again (omega (arith, s.counted)))
