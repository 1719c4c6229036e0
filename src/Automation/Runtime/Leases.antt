-- ===== src/Automation/Runtime/Leases.antt =====
-- The leases that claims take on events (app/services/automation/runtime.py).
use qtable_server.Base.{
  ℕ, ◌+◌, ◌<◌, String, Bool, true, false, List, [], ◌∷◌, ◌≡◌, refl, sym, ap, ◌∙◌, ◌==◌, ◌&&◌, ◌||◌,
  string_eq, if◌then◌else◌, filter, sort_by, any, arith, eq_iff, Bool-cases, inl, inr, any-take,
  any-sort_by, any-filter,
}
use qtable_server.Automation.{AutomationEvent, Queue}
use qtable_server.Automation.QueueRows.{
  is_claimable, claim_event, claim_all, claim_events, write_event, set_event, batch_size,
  available_before, claimable_batch,
}

abbrev pub has_event : String → List AutomationEvent → Bool
has_event id events = any (λ v. v.id == id) events

-- Whether an event of an id could be claimed at a time.
abbrev open_at : ℕ → String → List AutomationEvent → Bool
open_at t id events = any (λ v. v.id == id && is_claimable t v) events

open_at-write_event :
    (t : ℕ) (id : String) (event : AutomationEvent) (events : List AutomationEvent)
    → open_at t id (write_event event events) ≡ (
        if event.id == id then is_claimable t event && has_event id events else open_at t id events)
unfolding write_event
open_at-write_event t id event [] = ground arith
open_at-write_event t id event (v ∷ events) = ground (
  arith,
  open_at-write_event t id event events,
  eq_iff v.id event.id,
  eq_iff event.id id,
  eq_iff v.id id,
)

held :
    (now t : ℕ) (event : AutomationEvent)
    → t < now + 300
    → is_claimable t (claim_event now event) ≡ false
unfolding is_claimable claim_event
held now t event h = ground arith

has_event-claim_all :
    (now : ℕ) (id : String) (events : List AutomationEvent) (queue : Queue)
    → has_event id (claim_all now events queue).1 ≡ has_event id events
unfolding claim_all claim_event
has_event-claim_all now id [] queue = refl
has_event-claim_all now id (event ∷ events) queue =
    ap (λ b. event.id == id || b)
      (has_event-claim_all now id events (set_event (claim_event now event) queue))

module _ (now t : ℕ) (early : t < now + 300) (id : String) where
  open_at-claim_all :
      (events : List AutomationEvent) (queue : Queue)
      → open_at t id (claim_all now events queue).0.events
        ≡ (if has_event id events then false else open_at t id queue.events)
  unfolding claim_all claim_event
  open_at-claim_all [] queue = refl
  open_at-claim_all (event ∷ events) queue =
      open_at-claim_all events (set_event (claim_event now event) queue)
      ∙ ground (
        arith,
        open_at-write_event t id (claim_event now event) queue.events,
        held now t event early,
      )

  open_at-claimable_batch :
      (limit : ℕ) (events : List AutomationEvent)
      → has_event id (claimable_batch t limit events) ≡ true
      → open_at t id events ≡ true
  open_at-claimable_batch limit events h =
      let p : AutomationEvent → Bool = λ v. v.id == id in
      sym (any-filter p (is_claimable t) events)
      ∙ sym (any-sort_by p available_before (filter (is_claimable t) events))
      ∙ any-take p (batch_size limit) (sort_by available_before (filter (is_claimable t) events)) h

-- What workers do to the events between two claims of one of them: further claims, and writes of an
-- event.
pub data Step : Type 0 where
  claim : ℕ → ℕ → Step
  write : AutomationEvent → Step

abbrev pub take_step : Step → Queue → Queue
take_step (claim t limit) queue = (claim_events t limit queue).0
take_step (write event) queue = set_event event queue

abbrev pub take_steps : List Step → Queue → Queue
take_steps [] queue = queue
take_steps (step ∷ steps) queue = take_steps steps (take_step step queue)

-- The claims are before a time, and the writes are of other events.
abbrev pub AreOthers : ℕ → String → List Step → Type 0
AreOthers until id [] = Unit
AreOthers until id (claim t limit ∷ steps) = (t < until) × AreOthers until id steps
AreOthers until id (write event ∷ steps) = ((event.id == id) ≡ false) × AreOthers until id steps

module _ (until : ℕ) (id : String) where
  -- Nobody could claim the event before the time.
  abbrev IsShut : Queue → Type 0
  IsShut queue = (t : ℕ) → t < until → open_at t id queue.events ≡ false

  claim_all-other :
      (now t : ℕ) (events : List AutomationEvent) (queue : Queue)
      → has_event id events ≡ false
      → open_at t id (claim_all now events queue).0.events ≡ open_at t id queue.events
  unfolding claim_all claim_event
  claim_all-other now t [] queue h = refl
  claim_all-other now t (event ∷ events) queue h =
      claim_all-other now t events (set_event (claim_event now event) queue) (ground (arith, h))
      ∙ ground (arith, h, open_at-write_event t id (claim_event now event) queue.events)

  batch-free :
      (t limit : ℕ) (queue : Queue)
      → t < until
      → IsShut queue
      → has_event id (claimable_batch t limit queue.events) ≡ false
  batch-free t limit queue early shut =
      elim (Bool-cases (has_event id (claimable_batch t limit queue.events))) [
        | inl taken ↦ absurd (
            cc
              (shut t early, open_at-claimable_batch t t (omega arith) id limit queue.events taken))
        | inr free ↦ free
      ]

  take_steps-IsShut :
      (steps : List Step) (queue : Queue)
      → AreOthers until id steps
      → IsShut queue
      → IsShut (take_steps steps queue)
  unfolding claim_events
  take_steps-IsShut [] queue others shut = shut
  take_steps-IsShut (claim now limit ∷ steps) queue others shut =
      take_steps-IsShut steps (claim_events now limit queue).0 others.1 (λ t early.
        claim_all-other now t (claimable_batch now limit queue.events) queue
          (batch-free now limit queue others.0 shut)
        ∙ shut t early)
  take_steps-IsShut (write event ∷ steps) queue others shut =
      take_steps-IsShut steps (set_event event queue) others.1
        (λ t early. open_at-write_event t id event queue.events ∙ rw (others.0) (shut t early))

-- An event that a worker has claimed is in no other claim of the next 300 seconds, whatever claims
-- are made and whatever other events are written in between, as long as nothing writes the event
-- itself.
pub claim_events-exclusive :
    (now t limit other_limit : ℕ) (id : String) (queue : Queue) (steps : List Step)
    → t < now + 300
    → has_event id (claim_events now limit queue).1 ≡ true
    → AreOthers (now + 300) id steps
    → has_event id
        (claim_events t other_limit (take_steps steps (claim_events now limit queue).0)).1
      ≡ false
unfolding claim_events
claim_events-exclusive now t limit other_limit id queue steps early mine others =
    let batch : List AutomationEvent = claimable_batch now limit queue.events in
    let next : Queue = take_steps steps (claim_all now batch queue).0 in
    let shut : IsShut (now + 300) id next =
      take_steps-IsShut (now + 300) id steps (claim_all now batch queue).0 others (λ s before.
        open_at-claim_all now s before id batch queue
        ∙ rw (sym (has_event-claim_all now id batch queue) ∙ mine)) in
    has_event-claim_all t id (claimable_batch t other_limit next.events) next
    ∙ batch-free (now + 300) id t other_limit next early shut
