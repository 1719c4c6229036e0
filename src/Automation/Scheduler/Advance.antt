-- ===== src/Automation/Scheduler/Advance.antt =====
-- A rule whose time has come is taken once (app/services/automation/scheduler.py).
use qtable_server.Base.{
  ℕ, ◌+◌, ◌≤◌, ◌<◌, String, Bool, true, false, Option, none, some, List, [], ◌∷◌, ◌≡◌, refl, sym,
  ap, ◌∙◌, ◌&&◌, ◌==◌, string_eq, if◌then◌else◌, any, find, any-take, any-filter, any-sort_by,
  filter, sort_by, min, max, arith, eq_iff, Bool-cases, Option-cases, inl, inr,
}
use qtable_server.RowPermission.{RowDb, TableRecord}
use qtable_server.Automation.{
  Trigger, record_created, record_updated, scheduled, due_date, manual, AutomationRule, Queue,
}
use qtable_server.Automation.Events.{Synthetic, queue_synthetic_automation_event}
use qtable_server.Automation.Scheduler.{
  Calendar, run_interval, advance_next_run, rescheduled, write_rule, is_due_rule, due_rules,
  queue_by_trigger, scan_rules, scan_due_automations, queue_due_record, queue_due_records,
  queue_due_rule, queue_scheduled_rule, due_call, scheduled_call, runtime_permission, time_of,
  runs_before,
}

run_interval_pos : (trigger : Trigger) → 1 ≤ run_interval trigger
unfolding run_interval
run_interval_pos (scheduled interval) = ground arith
run_interval_pos (due_date field_id offset scan_interval) = ground arith
run_interval_pos record_created = omega arith
run_interval_pos (record_updated field_ids from to) = omega arith
run_interval_pos manual = omega arith

advanced_later :
    (now t : ℕ) (rule : AutomationRule)
    → t < now + 60
    → is_due_rule t (rescheduled rule now) ≡ false
unfolding is_due_rule advance_next_run
advanced_later now t rule h = ground (arith, run_interval_pos rule.trigger)

abbrev due_at : ℕ → String → List AutomationRule → Bool
due_at t id rules = any (λ r. r.id == id && is_due_rule t r) rules

abbrev pub has_rule : String → List AutomationRule → Bool
has_rule id rules = any (λ r. r.id == id) rules

due_at-write_rule :
    (t : ℕ) (id : String) (rule : AutomationRule) (rules : List AutomationRule)
    → due_at t id (write_rule rule rules)
      ≡ (if rule.id == id then is_due_rule t rule && has_rule id rules else due_at t id rules)
unfolding write_rule
due_at-write_rule t id rule [] = ground arith
due_at-write_rule t id rule (r ∷ rules) = ground (
  arith,
  due_at-write_rule t id rule rules,
  eq_iff r.id rule.id,
  eq_iff rule.id id,
  eq_iff r.id id,
)

synthetic_keeps_rules :
    (clock : ℕ) (call : Synthetic) (queue : Queue)
    → (queue_synthetic_automation_event clock call queue).0.rules ≡ queue.rules
unfolding queue_synthetic_automation_event
synthetic_keeps_rules clock call queue =
    elim (Option-cases (find (λ v. v.id == call.event_id) queue.events)) [
      | inl fresh ↦ rw fresh
      | inr (v, there) ↦ rw there
    ]

module _ (calendar : Calendar) where
  due_record_keeps_rules :
      (clock : ℕ) (rule : AutomationRule) (field_id : String) (offset : ℕ) (r : TableRecord)
      (due : Option ℕ) (queue : Queue) (n : ℕ)
      → (queue_due_record calendar clock rule field_id offset r due queue n).0.rules ≡ queue.rules
  unfolding queue_due_record
  due_record_keeps_rules clock rule field_id offset r none queue n = refl
  due_record_keeps_rules clock rule field_id offset r (some due) queue n =
      synthetic_keeps_rules clock (due_call calendar rule field_id offset r due) queue

  due_records_keep_rules :
      (clock : ℕ) (rule : AutomationRule) (field_id : String) (offset : ℕ)
      (due_of : TableRecord → Option ℕ) (rows : List TableRecord) (queue : Queue) (n : ℕ)
      → (queue_due_records calendar clock rule field_id offset due_of rows queue n).0.rules
        ≡ queue.rules
  unfolding queue_due_records
  due_records_keep_rules clock rule field_id offset due_of [] queue n = refl
  due_records_keep_rules clock rule field_id offset due_of (r ∷ rows) queue n =
      let made : Queue × ℕ =
        queue_due_record calendar clock rule field_id offset r (due_of r) queue n in
      due_records_keep_rules clock rule field_id offset due_of rows made.0 made.1
      ∙ due_record_keeps_rules clock rule field_id offset r (due_of r) queue n

  due_rule_keeps_rules :
      (db : RowDb) (clock : ℕ) (rule : AutomationRule) (field_id : String) (offset now : ℕ)
      (queue : Queue)
      → (queue_due_rule calendar db clock rule field_id offset now queue).0.rules ≡ queue.rules
  unfolding queue_due_rule
  due_rule_keeps_rules db clock rule field_id offset now queue =
      elim (Bool-cases (field_id == "")) [
        | inl blank ↦ rw blank
        | inr named ↦ elim (Option-cases rule.run_as_user_id) [
          | inl gone ↦ rw (named, gone)
          | inr (user_id, there) ↦ elim (Option-cases (runtime_permission db rule user_id)) [
            | inl denied ↦ rw (named, there, denied)
            | inr (permission, allowed) ↦
                rw (named, there, allowed)
                  (due_records_keep_rules clock rule field_id offset _ _ queue 0)
          ]
        ]
      ]

  trigger_keeps_rules :
      (db : RowDb) (clock : ℕ) (rule : AutomationRule) (now : ℕ) (trigger : Trigger) (queue : Queue)
      → (queue_by_trigger calendar db clock rule now trigger queue).0.rules ≡ queue.rules
  unfolding queue_by_trigger queue_scheduled_rule
  trigger_keeps_rules db clock rule now (scheduled interval) queue =
      synthetic_keeps_rules clock (scheduled_call calendar rule (time_of rule.next_run_at)) queue
  trigger_keeps_rules db clock rule now (due_date field_id offset scan_interval) queue =
      due_rule_keeps_rules db clock rule field_id offset now queue
  trigger_keeps_rules db clock rule now record_created queue = refl
  trigger_keeps_rules db clock rule now (record_updated field_ids from to) queue = refl
  trigger_keeps_rules db clock rule now manual queue = refl

  module _ (db : RowDb) (clock now t : ℕ) (early : t < now + 60) (id : String) where
    due_at-scan_rules :
        (rules : List AutomationRule) (queue : Queue) (s d : ℕ)
        → due_at t id (scan_rules calendar db clock now rules queue s d).0.rules
          ≡ (if has_rule id rules then false else due_at t id queue.rules)
    unfolding scan_rules
    due_at-scan_rules [] queue s d = refl
    due_at-scan_rules (rule ∷ rules) queue s d =
        let made : Queue × ℕ × ℕ = queue_by_trigger calendar db clock rule now rule.trigger queue in
        due_at-scan_rules rules
          (record made.0 { rules = write_rule (rescheduled rule now) made.0.rules }) (s + made.1)
          (d + made.2)
        ∙ ground (
          arith,
          due_at-write_rule t id (rescheduled rule now) made.0.rules,
          ap (due_at t id) (trigger_keeps_rules db clock rule now rule.trigger queue),
          advanced_later now t rule early,
        )

  due_at-due_rules :
      (t limit : ℕ) (id : String) (rules : List AutomationRule)
      → has_rule id (due_rules t limit rules) ≡ true
      → due_at t id rules ≡ true
  unfolding due_rules
  due_at-due_rules t limit id rules h =
      let p : AutomationRule → Bool = λ r. r.id == id in
      sym (any-filter p (is_due_rule t) rules)
      ∙ sym (any-sort_by p runs_before (filter (is_due_rule t) rules))
      ∙ any-take p (max 1 (min 500 limit)) (sort_by runs_before (filter (is_due_rule t) rules)) h

  due_at-scan_other :
      (db : RowDb) (clock now t : ℕ) (id : String) (rules : List AutomationRule) (queue : Queue)
      (s d : ℕ)
      → has_rule id rules ≡ false
      → due_at t id (scan_rules calendar db clock now rules queue s d).0.rules
        ≡ due_at t id queue.rules
  unfolding scan_rules
  due_at-scan_other db clock now t id [] queue s d h = refl
  due_at-scan_other db clock now t id (rule ∷ rules) queue s d h =
      let made : Queue × ℕ × ℕ = queue_by_trigger calendar db clock rule now rule.trigger queue in
      due_at-scan_other db clock now t id rules
        (record made.0 { rules = write_rule (rescheduled rule now) made.0.rules }) (s + made.1)
        (d + made.2) (ground (arith, h))
      ∙ ground (
        arith,
        h,
        due_at-write_rule t id (rescheduled rule now) made.0.rules,
        ap (due_at t id) (trigger_keeps_rules db clock rule now rule.trigger queue),
      )

  -- Scans one after another, each with the rows it reads, its clock, its time and its limit.
  abbrev pub scan_all : List (RowDb × ℕ × ℕ × ℕ) → Queue → Queue
  scan_all [] queue = queue
  scan_all ((db, clock, now, limit) ∷ scans) queue =
      scan_all scans (scan_due_automations calendar db clock now limit queue).0

  abbrev pub AreBefore : ℕ → List (RowDb × ℕ × ℕ × ℕ) → Type 0
  AreBefore until [] = Unit
  AreBefore until ((db, clock, now, limit) ∷ scans) = (now < until) × AreBefore until scans

  module _ (until : ℕ) (id : String) where
    abbrev IsOff : List AutomationRule → Type 0
    IsOff rules = (t : ℕ) → t < until → due_at t id rules ≡ false

    not_due :
        (t limit : ℕ) (rules : List AutomationRule)
        → t < until
        → IsOff rules
        → has_rule id (due_rules t limit rules) ≡ false
    not_due t limit rules early off = elim (Bool-cases (has_rule id (due_rules t limit rules))) [
      | inl again ↦ absurd (cc (off t early, due_at-due_rules t limit id rules again))
      | inr free ↦ free
    ]

    scan_all-IsOff :
        (scans : List (RowDb × ℕ × ℕ × ℕ)) (queue : Queue)
        → AreBefore until scans
        → IsOff queue.rules
        → IsOff (scan_all scans queue).rules
    unfolding scan_due_automations
    scan_all-IsOff [] queue before off = off
    scan_all-IsOff ((db, clock, now, limit) ∷ scans) queue before off =
        scan_all-IsOff scans (scan_due_automations calendar db clock now limit queue).0 before.1
          (λ t early.
            due_at-scan_other db clock now t id (due_rules now limit queue.rules) queue 0 0
              (not_due now limit queue.rules before.0 off)
            ∙ off t early)

  -- A rule that a scan takes up is taken up by no other scan of the next minute, however many scans
  -- are made in between, as long as only scans write the rules.
  pub scan_due_automations-once :
      (db : RowDb) (clock now t limit other_limit : ℕ) (id : String) (queue : Queue)
      (scans : List (RowDb × ℕ × ℕ × ℕ))
      → t < now + 60
      → has_rule id (due_rules now limit queue.rules) ≡ true
      → AreBefore (now + 60) scans
      → has_rule id (
          due_rules t other_limit
            (scan_all scans (scan_due_automations calendar db clock now limit queue).0).rules)
        ≡ false
  unfolding scan_due_automations
  scan_due_automations-once db clock now t limit other_limit id queue scans early taken before =
      let first : Queue = (scan_due_automations calendar db clock now limit queue).0 in
      not_due (now + 60) id t other_limit (scan_all scans first).rules early (
        scan_all-IsOff (now + 60) id scans first before (λ s soon.
          due_at-scan_rules db clock now s soon id (due_rules now limit queue.rules) queue 0 0
          ∙ rw taken))
