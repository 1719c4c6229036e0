-- ===== src/Experience/Saved.antt =====
-- A saved preference is what is read afterwards (app/services/workspace_experience.py).
use qtable_server.Base.{
  ℕ, String, Bool, Option, none, some, List, [], ◌∷◌, ◌≡◌, refl, sym, ap, ◌∙◌, inl, inr, ◌&&◌, ◌==◌,
  string_eq, nat_eq, find, Bool-cases,
}
use qtable_server.Base.Result.{Result, ok, ◌>>=◌, >>=-eq-ok, ok_inj}
use qtable_server.Experience.{
  ExperienceDb, ExperienceWorkspace, ExperienceMember, ExperienceError, Experience, joined,
  workspace_and_member, serialize, get_workspace_experience, normalize_optional_mode,
  write_user_mode, set_user_experience_mode,
}

abbrev of_user : ℕ → String → ExperienceMember → Bool
of_user user_id workspace_id m = m.workspace_id == workspace_id && m.user_id == user_id

find-write_user_mode :
    (user_id : ℕ) (workspace_id : String) (mode : Option String) (rows : List ExperienceMember)
    (m : ExperienceMember)
    → find (of_user user_id workspace_id) rows ≡ some m
    → find (of_user user_id workspace_id) (write_user_mode user_id workspace_id mode rows)
      ≡ some (record m { experience_mode = mode })
unfolding write_user_mode
find-write_user_mode user_id workspace_id mode [] m h = cc
find-write_user_mode user_id workspace_id mode (r ∷ rows) m h =
    elim (Bool-cases (of_user user_id workspace_id r)) [
      | inl here ↦ rw here (
          rw here (
            ap (λ o. elim o [ none ↦ none | some x ↦ some (record x { experience_mode = mode }) ])
              (rw here at h)))
      | inr other ↦
          rw other
            (rw other (find-write_user_mode user_id workspace_id mode rows m (rw other at h)))
    ]

joined-ok :
    (o : Option ExperienceWorkspace) (p : Option ExperienceMember) (w : ExperienceWorkspace)
    (m : ExperienceMember)
    → joined o p ≡ ok (w, m)
    → (o ≡ some w) × (p ≡ some m)
unfolding joined
joined-ok none p w m h = cc
joined-ok (some w') none w m h = cc
joined-ok (some w') (some m') w m h = (ap (λ x. some x.0) (ok_inj h), ap (λ x. some x.1) (ok_inj h))

joined-write :
    (db : ExperienceDb) (user_id : ℕ) (workspace_id : String) (mode : Option String)
    (w : ExperienceWorkspace) (m : ExperienceMember)
    → workspace_and_member db user_id workspace_id ≡ ok (w, m)
    → workspace_and_member
        (record db { members = write_user_mode user_id workspace_id mode db.members })
        user_id
        workspace_id
      ≡ ok (w, record m { experience_mode = mode })
unfolding workspace_and_member joined
joined-write db user_id workspace_id mode w m h =
    let (there, member) = joined-ok _ _ w m h in
    rw (there, find-write_user_mode user_id workspace_id mode db.members m member) refl

-- What a call that sets a user's mode answers is what a later read answers for that user, where the
-- answer is a value as well as where it is an error.
pub get-set_user_experience_mode :
    (db db' : ExperienceDb) (user_id : ℕ) (workspace_id : String) (mode : Option String)
    (answer : Result ExperienceError Experience)
    → set_user_experience_mode db user_id workspace_id mode ≡ ok (db', answer)
    → get_workspace_experience db' user_id workspace_id ≡ answer
unfolding set_user_experience_mode get_workspace_experience
get-set_user_experience_mode db db' user_id workspace_id mode answer h =
    let ((w, m), there, h₁) = >>=-eq-ok (workspace_and_member db user_id workspace_id) _ h in
    let (next, known, h₂) = >>=-eq-ok (normalize_optional_mode mode) _ h₁ in
    let made = ok_inj h₂ in
    ap (λ p. get_workspace_experience p.0 user_id workspace_id) (sym made)
    ∙ ap (λ r. r >>= (λ x. serialize x.0 x.1)) (joined-write db user_id workspace_id next w m there)
    ∙ ap (λ p. p.1) made
