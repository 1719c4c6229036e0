-- ===== src/Experience.antt =====
-- The experience preference of a workspace: app/services/workspace_experience.py, over the columns of
-- app/models/workspace_member.py that it reads. A query is a search of a list of rows.
pub mod Saved
mod Tests
use qtable_server.Base.{
  ℕ, String, Bool, true, false, not, Option, none, some, List, [], ◌∷◌, ◌&&◌, ◌||◌, ◌==◌, string_eq,
  nat_eq, if◌then◌else◌, find,
}
use qtable_server.Base.Result.{Result, ok, err, ◌>>=◌, ◌>>◌, guard}
use qtable_server.Text.{strip, lower_eq}
use qtable_server.Permission.{WorkspaceRole, owner, editor, viewer}

pub record ExperienceWorkspace : Type 0 where
  pub id : String
  pub experience_mode : Option String

pub record ExperienceMember : Type 0 where
  pub user_id : ℕ
  pub workspace_id : String
  pub role : WorkspaceRole
  pub experience_mode : Option String

pub record ExperienceDb : Type 0 where
  pub workspaces : List ExperienceWorkspace
  pub members : List ExperienceMember

pub data ExperienceError : Type 0 where
  invalid_mode no_access only_owner : ExperienceError

-- A text that is one of the two modes after `strip` and `lower`.
unfoldable pub known_mode : String → Result ExperienceError String
known_mode value =
    if lower_eq (strip value) "simple"
    then ok "simple"
    else if lower_eq (strip value) "advanced"
    then ok "advanced"
    else err invalid_mode

-- `normalize_experience_mode(value, allow_none=True)`
unfoldable pub normalize_optional_mode : Option String → Result ExperienceError (Option String)
normalize_optional_mode none = ok none
normalize_optional_mode (some value) = known_mode value >>= λ mode. ok (some mode)

unfoldable pub joined :
    Option ExperienceWorkspace
    → Option ExperienceMember
    → Result ExperienceError (ExperienceWorkspace × ExperienceMember)
joined none m = err no_access
joined (some w) none = err no_access
joined (some w) (some m) = ok (w, m)

-- The join of the workspace and the member of the user in it.
unfoldable pub workspace_and_member :
    ExperienceDb → ℕ → String → Result ExperienceError (ExperienceWorkspace × ExperienceMember)
workspace_and_member db user_id workspace_id =
    joined (find (λ w. w.id == workspace_id) db.workspaces)
      (find (λ m. m.workspace_id == workspace_id && m.user_id == user_id) db.members)

pub record Experience : Type 0 where
  pub workspace_id : String
  pub workspace_default_mode : String
  pub user_mode : Option String
  pub effective_mode : String
  pub follows_workspace_default : Bool
  pub can_manage_workspace_default : Bool

-- `normalize(workspace.experience_mode) if workspace.experience_mode else "simple"`
unfoldable pub default_mode : Option String → Result ExperienceError String
default_mode none = ok "simple"
default_mode (some mode) = if mode == "" then ok "simple" else known_mode mode

abbrev pub is_owner : WorkspaceRole → Bool
is_owner owner = true
is_owner editor = false
is_owner viewer = false

abbrev or_default : Option String → String → String
or_default none default = default
or_default (some mode) default = mode

abbrev is_none : Option String → Bool
is_none none = true
is_none (some mode) = false

unfoldable pub serialize :
    ExperienceWorkspace → ExperienceMember → Result ExperienceError Experience
serialize w m = default_mode w.experience_mode >>= λ workspace_default.
    normalize_optional_mode m.experience_mode >>= λ user_override. ok (record {
      workspace_id = w.id;
      workspace_default_mode = workspace_default;
      user_mode = user_override;
      effective_mode = or_default user_override workspace_default;
      follows_workspace_default = is_none user_override;
      can_manage_workspace_default = is_owner m.role;
    })

unfoldable pub get_workspace_experience :
    ExperienceDb → ℕ → String → Result ExperienceError Experience
get_workspace_experience db user_id workspace_id =
    workspace_and_member db user_id workspace_id >>= λ (w, m). serialize w m

-- The row of the member with the mode written to it.
unfoldable pub write_user_mode :
    ℕ → String → Option String → List ExperienceMember → List ExperienceMember
write_user_mode user_id workspace_id mode [] = []
write_user_mode user_id workspace_id mode (m ∷ rows) =
    if m.workspace_id == workspace_id && m.user_id == user_id
    then record m { experience_mode = mode } ∷ rows
    else m ∷ write_user_mode user_id workspace_id mode rows

unfoldable pub write_default_mode :
    String → Option String → List ExperienceWorkspace → List ExperienceWorkspace
write_default_mode workspace_id mode [] = []
write_default_mode workspace_id mode (w ∷ rows) =
    if w.id == workspace_id
    then record w { experience_mode = mode } ∷ rows
    else w ∷ write_default_mode workspace_id mode rows

-- The database is committed before the answer is built from the rows.
unfoldable pub set_user_experience_mode :
    ExperienceDb
    → ℕ
    → String
    → Option String
    → Result ExperienceError (ExperienceDb × Result ExperienceError Experience)
set_user_experience_mode db user_id workspace_id mode =
    workspace_and_member db user_id workspace_id >>= λ (w, m).
    normalize_optional_mode mode >>= λ next. ok (
      record db { members = write_user_mode user_id workspace_id next db.members },
      serialize w (record m { experience_mode = next }),
    )

-- The mode is no text that is empty, so what `or` falls back to is never taken.
unfoldable pub set_workspace_default_experience_mode :
    ExperienceDb
    → ℕ
    → String
    → String
    → Result ExperienceError (ExperienceDb × Result ExperienceError Experience)
set_workspace_default_experience_mode db user_id workspace_id mode =
    workspace_and_member db user_id workspace_id >>= λ (w, m).
    guard (is_owner m.role) only_owner
    >> (known_mode mode >>= λ next. ok (
      record db { workspaces = write_default_mode workspace_id (some next) db.workspaces },
      serialize (record w { experience_mode = some next }) m,
    ))
