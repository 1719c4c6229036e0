-- ===== src/Automation/Rules/Bounded.antt =====
-- Every rule that is kept is within the limits of app/services/automation/validation.py, whichever
-- operations of app/services/automation/repository.py have been called.
use qtable_server.Base.{
  ℕ, ◌≤◌, String, Bool, true, false, Option, some, List, [], ◌∷◌, ◌++◌, ◌≡◌, refl, sym, ap, ◌∙◌,
  subst, ◌==◌, string_eq, find, length, All, arith, Bool-cases, inl, inr,
}
use qtable_server.Base.Result.{Result, ok, ok_inj, guard, >>=-eq-ok}
use qtable_server.Permission.{permission_allows, get_effective_permission_for_item}
use qtable_server.Automation.{AutomationRule}
use qtable_server.Automation.Normal.{AutomationValidationError}
use qtable_server.Automation.Normal.Bounds.{item_count, nesting}
use qtable_server.Automation.Definition.{
  AutomationDefinition, Draft, validate_automation_definition,
}
use qtable_server.Automation.Definition.Triggers.{TriggerIsWithin}
use qtable_server.Automation.Definition.Limits.{
  IsWithinLimits, validate_automation_definition-IsWithinLimits,
}
use qtable_server.Automation.Scheduler.{write_rule}
use qtable_server.Automation.Rules.{
  no_access, is_live, get_automation, require_permission, checked_name, Surroundings,
  table_workspace, new_rule, Edit, is_semantic_change, merged_draft, renamed, described, redefine,
  touched, create_automation, redefined, update_automation, set_automation_enabled,
  delete_automation, or_invalid,
}
use qtable_server.Automation.Rules.Identity.{
  behaviour, renamed_same, described_same, or_invalid-ok, get_automation-may_edit,
}

pub record IsBounded (rule : AutomationRule) : Type 0 where
  pub trigger_limits : TriggerIsWithin rule.trigger
  pub condition_items : item_count rule.conditions ≤ 64
  pub condition_nesting : nesting rule.conditions ≤ 9
  pub some_action : 1 ≤ length rule.actions
  pub few_actions : length rule.actions ≤ 32
  pub few_retries : rule.max_retries ≤ 10

same_limits :
    (rule after : AutomationRule)
    → IsBounded rule
    → after.trigger ≡ rule.trigger
    → after.conditions ≡ rule.conditions
    → after.actions ≡ rule.actions
    → after.max_retries ≡ rule.max_retries
    → IsBounded after
same_limits rule after b trigger conditions actions retries = record {
  trigger_limits = subst TriggerIsWithin (sym trigger) b.trigger_limits;
  condition_items = omega (arith, ap item_count conditions, b.condition_items);
  condition_nesting = omega (arith, ap nesting conditions, b.condition_nesting);
  some_action = omega (arith, ap length actions, b.some_action);
  few_actions = omega (arith, ap length actions, b.few_actions);
  few_retries = omega (arith, retries, b.few_retries);
}

-- Being within the limits depends on what the rule does only.
IsBounded-same :
    (rule after : AutomationRule)
    → behaviour after ≡ behaviour rule
    → IsBounded rule
    → IsBounded after
IsBounded-same rule after same b =
    same_limits rule after b (ap (λ x. x.0) same) (ap (λ x. x.1) same) (ap (λ x. x.2) same)
      (ap (λ x. x.4) same)

find-All :
    {A : Type 0} (P : A → Type 0) (p : A → Bool) (xs : List A) (x : A)
    → find p xs ≡ some x
    → All P xs
    → P x
find-All P p [] x h all = absurd (cc)
find-All P p (y ∷ ys) x h all = elim (Bool-cases (p y)) [
  | inl hit ↦ subst P (some_inj (rw hit at h)) all.0
  | inr miss ↦ find-All P p ys x (rw miss at h) all.1
]
  where
    some_inj : {B : Type 0} {a b : B} → ◌≡◌ {A = Option B} (some a) (some b) → a ≡ b
    some_inj k = cc

write_rule-All :
    (P : AutomationRule → Type 0) (rule : AutomationRule) (rules : List AutomationRule)
    → P rule
    → All P rules
    → All P (write_rule rule rules)
unfolding write_rule
write_rule-All P rule [] one all = tt
write_rule-All P rule (r ∷ rules) one all = elim (Bool-cases (r.id == rule.id)) [
  | inl here ↦ rw here (one, write_rule-All P rule rules one all.1)
  | inr other ↦ rw other (all.0, write_rule-All P rule rules one all.1)
]

append-All :
    {A : Type 0} (P : A → Type 0) (xs : List A) (y : A) → All P xs → P y → All P (xs ++ y ∷ [])
append-All P [] y all one = (one, tt)
append-All P (x ∷ xs) y all one = (all.0, append-All P xs y all.1 one)

-- The calls of the repository that succeed, one after another, each in its own surroundings.
pub data Step : List AutomationRule → List AutomationRule → Type 1 where
  create :
      (around : Surroundings) (rules after : List AutomationRule) (id : String) (user_id : ℕ)
      (table_id name : String) (draft : Draft) (description : Option String) (enabled : Bool)
      (rule : AutomationRule)
      → create_automation around rules id user_id table_id name draft description enabled
        ≡ ok (after, rule)
      → Step rules after
  update :
      (around : Surroundings) (rules after : List AutomationRule) (user_id : ℕ)
      (automation_id : String) (edit : Edit) (rule : AutomationRule)
      → update_automation around rules user_id automation_id edit ≡ ok (after, rule)
      → Step rules after
  enable :
      (around : Surroundings) (rules after : List AutomationRule) (user_id : ℕ)
      (automation_id : String) (enabled : Bool) (rule : AutomationRule)
      → set_automation_enabled around rules user_id automation_id enabled ≡ ok (after, rule)
      → Step rules after
  delete :
      (around : Surroundings) (rules after : List AutomationRule) (user_id : ℕ)
      (automation_id : String)
      → delete_automation around rules user_id automation_id ≡ ok after
      → Step rules after

pub data Reach (rules : List AutomationRule) : List AutomationRule → Type 1 where
  here : Reach rules rules
  next : {a b : List AutomationRule} → Reach rules a → Step a b → Reach rules b

module _ (around : Surroundings) where
  redefined-IsBounded :
      (user_id : ℕ) (rule after : AutomationRule) (edit : Edit) (semantic : Bool)
      → IsBounded rule
      → redefined around user_id rule edit semantic ≡ ok after
      → IsBounded after
  unfolding redefined redefine
  redefined-IsBounded user_id rule after edit false b h = subst IsBounded (ok_inj h) b
  redefined-IsBounded user_id rule after edit true b h =
      let draft : Draft = merged_draft rule edit in
      let checked : Result AutomationValidationError AutomationDefinition =
        validate_automation_definition around.python around.is_known_zone
          (around.fields rule.table_id) draft in
      let (d, valid, last) = >>=-eq-ok (or_invalid checked) _ h in
      let limits : IsWithinLimits (around.fields rule.table_id) d =
        validate_automation_definition-IsWithinLimits around.python around.is_known_zone
          (around.fields rule.table_id) draft d (or_invalid-ok checked d valid) in
      subst IsBounded (ok_inj last) (record {
        trigger_limits = limits.trigger_limits;
        condition_items = limits.condition_items;
        condition_nesting = limits.condition_nesting;
        some_action = limits.some_action;
        few_actions = limits.few_actions;
        few_retries = limits.few_retries;
      })

  create-All :
      (rules : List AutomationRule) (id : String) (user_id : ℕ) (table_id name : String)
      (draft : Draft) (description : Option String) (enabled : Bool)
      (made : List AutomationRule × AutomationRule)
      → All IsBounded rules
      → create_automation around rules id user_id table_id name draft description enabled ≡ ok made
      → All IsBounded made.0
  unfolding create_automation new_rule require_permission
  create-All rules id user_id table_id name draft description enabled made all h =
      let checked : Result AutomationValidationError AutomationDefinition =
        validate_automation_definition around.python around.is_known_zone (around.fields table_id)
          draft in
      let (workspace_id, _, first) =
        >>=-eq-ok (table_workspace around.workspace around.is_table_item table_id) _ h in
      let allowed : Bool =
        permission_allows (get_effective_permission_for_item around.workspace user_id table_id)
          "edit" in
      let (u, _, second) = >>=-eq-ok (guard allowed no_access) _ first in
      let (n, _, third) = >>=-eq-ok (checked_name name) _ second in
      let (d, valid, last) = >>=-eq-ok (or_invalid checked) _ third in
      let limits : IsWithinLimits (around.fields table_id) d =
        validate_automation_definition-IsWithinLimits around.python around.is_known_zone
          (around.fields table_id) draft d (or_invalid-ok checked d valid) in
      subst (λ m. All IsBounded m.0) (ok_inj last)
        (append-All IsBounded rules _ all (record {
          trigger_limits = limits.trigger_limits;
          condition_items = limits.condition_items;
          condition_nesting = limits.condition_nesting;
          some_action = limits.some_action;
          few_actions = limits.few_actions;
          few_retries = limits.few_retries;
        }))

  update-All :
      (rules : List AutomationRule) (user_id : ℕ) (automation_id : String) (edit : Edit)
      (made : List AutomationRule × AutomationRule)
      → All IsBounded rules
      → update_automation around rules user_id automation_id edit ≡ ok made
      → All IsBounded made.0
  unfolding update_automation
  update-All rules user_id automation_id edit made all h =
      let (rule, got, first) =
        >>=-eq-ok (get_automation around.workspace rules user_id automation_id "edit") _ h in
      let (named, kept, second) = >>=-eq-ok (renamed rule edit.name) _ first in
      let mid : AutomationRule = described named edit.description in
      let (changed, done, last) =
        >>=-eq-ok (redefined around user_id mid edit (is_semantic_change edit)) _ second in
      let (there, _) =
        get_automation-may_edit around.workspace rules user_id automation_id "edit" rule got in
      let before : IsBounded mid =
        IsBounded-same rule mid
          (described_same named edit.description ∙ renamed_same rule named edit.name kept)
          (find-All IsBounded (is_live automation_id) rules rule there all) in
      let after : IsBounded changed =
        redefined-IsBounded user_id mid changed edit (is_semantic_change edit) before done in
      subst (λ m. All IsBounded m.0) (ok_inj last)
        (write_rule-All IsBounded (touched around user_id changed) rules
          (IsBounded-same changed (touched around user_id changed) refl after) all)

  enable-All :
      (rules : List AutomationRule) (user_id : ℕ) (automation_id : String) (enabled : Bool)
      (made : List AutomationRule × AutomationRule)
      → All IsBounded rules
      → set_automation_enabled around rules user_id automation_id enabled ≡ ok made
      → All IsBounded made.0
  unfolding set_automation_enabled
  enable-All rules user_id automation_id enabled made all h =
      let (rule, got, last) =
        >>=-eq-ok (get_automation around.workspace rules user_id automation_id "edit") _ h in
      let (there, _) =
        get_automation-may_edit around.workspace rules user_id automation_id "edit" rule got in
      let b : IsBounded rule = find-All IsBounded (is_live automation_id) rules rule there all in
      subst (λ m. All IsBounded m.0) (ok_inj last)
        (write_rule-All IsBounded _ rules (same_limits rule _ b refl refl refl refl) all)

  delete-All :
      (rules : List AutomationRule) (user_id : ℕ) (automation_id : String)
      (made : List AutomationRule)
      → All IsBounded rules
      → delete_automation around rules user_id automation_id ≡ ok made
      → All IsBounded made
  unfolding delete_automation
  delete-All rules user_id automation_id made all h =
      let (rule, got, last) =
        >>=-eq-ok (get_automation around.workspace rules user_id automation_id "edit") _ h in
      let (there, _) =
        get_automation-may_edit around.workspace rules user_id automation_id "edit" rule got in
      let b : IsBounded rule = find-All IsBounded (is_live automation_id) rules rule there all in
      subst (All IsBounded) (ok_inj last)
        (write_rule-All IsBounded _ rules (same_limits rule _ b refl refl refl refl) all)

Step-IsBounded :
    {rules after : List AutomationRule}
    → Step rules after
    → All IsBounded rules
    → All IsBounded after
Step-IsBounded (create around rules after id user_id table_id name draft description enabled rule h)
      all =
    create-All around rules id user_id table_id name draft description enabled (after, rule) all h
Step-IsBounded (update around rules after user_id automation_id edit rule h) all =
    update-All around rules user_id automation_id edit (after, rule) all h
Step-IsBounded (enable around rules after user_id automation_id enabled rule h) all =
    enable-All around rules user_id automation_id enabled (after, rule) all h
Step-IsBounded (delete around rules after user_id automation_id h) all =
    delete-All around rules user_id automation_id after all h

-- Whatever users create, edit, switch and delete, and whatever they send, every rule that is kept has
-- a schedule within its bounds, at most 64 conditions nested at most nine deep, 1 to 32 actions and at
-- most 10 retries.
pub Reach-IsBounded :
    {rules after : List AutomationRule}
    → All IsBounded rules
    → Reach rules after
    → All IsBounded after
Reach-IsBounded all here = all
Reach-IsBounded all (next r step) = Step-IsBounded step (Reach-IsBounded all r)
