-- ===== src/Automation/Rules/Identity.antt =====
-- Whose rights a rule runs with, and what a rule that is kept is like
-- (app/services/automation/repository.py).
use qtable_server.Base.{
  ℕ, suc, String, Bool, true, false, Option, none, some, List, ◌≡◌, refl, sym, ap, ◌∙◌, subst, ◌⊎◌,
  inl, inr, string_eq, find,
}
use qtable_server.Base.Result.{Result, ok, err, ok_inj, guard, >>=-eq-ok, guard-ok}
use qtable_server.Permission.{WorkspaceDb, permission_allows, get_effective_permission_for_item}
use qtable_server.Automation.{Trigger, Condition, AutomationRule, Action}
use qtable_server.Automation.Normal.{AutomationValidationError}
use qtable_server.Automation.Definition.{AutomationDefinition, validate_automation_definition}
use qtable_server.Automation.Rules.{
  no_access, is_live, or_missing, get_automation, require_permission, checked_name, Surroundings,
  Edit, is_semantic_change, merged_draft, renamed, described, redefine, touched, redefined,
  update_automation, or_invalid,
}

-- What a rule does, with whose rights, and in which version.
abbrev pub behaviour :
    AutomationRule → Trigger × Condition × List Action × String × ℕ × Option ℕ × ℕ
behaviour rule = (
  rule.trigger, rule.conditions, rule.actions, rule.timezone, rule.max_retries, rule.run_as_user_id,
  rule.version,
)

pub renamed_same :
    (rule named : AutomationRule) (name : Option String)
    → renamed rule name ≡ ok named
    → behaviour named ≡ behaviour rule
renamed_same rule named none h = ap behaviour (sym (ok_inj h))
renamed_same rule named (some name) h =
    let (n, _, last) = >>=-eq-ok (checked_name name) _ h in ap behaviour (sym (ok_inj last))

pub described_same :
    (rule : AutomationRule) (description : Option String)
    → behaviour (described rule description) ≡ behaviour rule
described_same rule none = refl
described_same rule (some s) = refl

pub or_invalid-ok :
    {A : Type 0} (r : Result AutomationValidationError A) (a : A) → or_invalid r ≡ ok a → r ≡ ok a
or_invalid-ok (ok b) a h = cc
or_invalid-ok (err e) a h = absurd (cc)

-- The edit left what the rule does as it is, or made a new version that runs as the user.
abbrev pub RunsAsEditor : ℕ → AutomationRule → AutomationRule → Type 0
RunsAsEditor user_id rule after =
    (behaviour after ≡ behaviour rule)
    ⊎ ((after.run_as_user_id ≡ some user_id) × (after.version ≡ suc rule.version))

pub get_automation-may_edit :
    (db : WorkspaceDb) (rules : List AutomationRule) (user_id : ℕ) (automation_id required : String)
    (rule : AutomationRule)
    → get_automation db rules user_id automation_id required ≡ ok rule
    → (find (is_live automation_id) rules ≡ some rule)
      × (permission_allows (get_effective_permission_for_item db user_id rule.table_id) required
          ≡ true)
unfolding get_automation require_permission
get_automation-may_edit db rules user_id automation_id required rule h =
    let (found, there, rest) = >>=-eq-ok (or_missing (find (is_live automation_id) rules)) _ h in
    let allowed : Bool =
      permission_allows (get_effective_permission_for_item db user_id found.table_id) required in
    let (u, granted, last) = >>=-eq-ok (guard allowed no_access) _ rest in
    let same : found ≡ rule = ok_inj last in
    (
      or_missing-some (find (is_live automation_id) rules) rule (there ∙ ap ok same),
      subst
          (λ r.
            permission_allows (get_effective_permission_for_item db user_id r.table_id) required
            ≡ true)
          same (guard-ok allowed no_access granted),
    )
  where
    or_missing-some :
        (o : Option AutomationRule) (r : AutomationRule) → or_missing o ≡ ok r → o ≡ some r
    or_missing-some none r k = absurd (cc)
    or_missing-some (some s) r k = cc

module _ (around : Surroundings) where
  redefined-RunsAsEditor :
      (user_id : ℕ) (rule after : AutomationRule) (edit : Edit) (semantic : Bool)
      → redefined around user_id rule edit semantic ≡ ok after
      → RunsAsEditor user_id rule after
  unfolding redefined redefine
  redefined-RunsAsEditor user_id rule after edit false h = inl (ap behaviour (sym (ok_inj h)))
  redefined-RunsAsEditor user_id rule after edit true h =
      let checked : Result AutomationValidationError AutomationDefinition =
        validate_automation_definition around.python around.is_known_zone
          (around.fields rule.table_id) (merged_draft rule edit) in
      let (definition, _, last) = >>=-eq-ok (or_invalid checked) _ h in
      subst (RunsAsEditor user_id rule) (ok_inj last) (inr (refl, refl))

  -- An edit that succeeds is one of a rule that is not deleted, by a user who may edit its table; and
  -- it leaves what the rule does and whose rights it has as they are, or it makes a new version that
  -- runs with the rights of that user: nobody decides what happens in another's name.
  pub update_automation-RunsAsEditor :
      (rules after_rules : List AutomationRule) (user_id : ℕ) (automation_id : String) (edit : Edit)
      (after : AutomationRule)
      → update_automation around rules user_id automation_id edit ≡ ok (after_rules, after)
      → (rule : AutomationRule) × (find (is_live automation_id) rules ≡ some rule)
        × (permission_allows
              (get_effective_permission_for_item around.workspace user_id rule.table_id)
              "edit"
            ≡ true)
        × RunsAsEditor user_id rule after
  unfolding update_automation
  update_automation-RunsAsEditor rules after_rules user_id automation_id edit after h =
      let (rule, got, first) =
        >>=-eq-ok (get_automation around.workspace rules user_id automation_id "edit") _ h in
      let (named, kept, second) = >>=-eq-ok (renamed rule edit.name) _ first in
      let described_rule : AutomationRule = described named edit.description in
      let (changed, made, last) =
        >>=-eq-ok (redefined around user_id described_rule edit (is_semantic_change edit)) _
          second in
      let (there, allowed) =
        get_automation-may_edit around.workspace rules user_id automation_id "edit" rule got in
      let same : behaviour described_rule ≡ behaviour rule =
        described_same named edit.description ∙ renamed_same rule named edit.name kept in
      let out : touched around user_id changed ≡ after = ap (λ p. p.1) (ok_inj last) in
      (
        rule,
        there,
        allowed,
        subst (RunsAsEditor user_id rule) out (
            carried user_id rule described_rule changed same (
              redefined-RunsAsEditor user_id described_rule changed edit (is_semantic_change edit)
                made)),
      )
    where
      carried :
          (user : ℕ) (old mid new : AutomationRule)
          → behaviour mid ≡ behaviour old
          → RunsAsEditor user mid new
          → RunsAsEditor user old (touched around user new)
      carried user old mid new same (inl kept) = inl (kept ∙ same)
      carried user old mid new same (inr (owner, version)) =
          inr (owner, version ∙ ap (λ b. suc b.6) same)
