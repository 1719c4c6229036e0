-- ===== src/Experience/Tests.antt =====
-- The preference of one member of one workspace.
use qtable_server.Base.{String, false, Option, none, some, [], ◌∷◌, ◌≡◌, refl}
use qtable_server.Base.Result.{ok, err}
use qtable_server.Text.{strip, lstrip, rstrip, is_space, lower_eq}
use qtable_server.Permission.{viewer}
use qtable_server.Experience.{
  ExperienceDb, ExperienceError, Experience, set_user_experience_mode,
  set_workspace_default_experience_mode, workspace_and_member, joined, known_mode,
  normalize_optional_mode, default_mode, serialize, write_user_mode,
}

abbrev with_mode : Option String → ExperienceDb
with_mode mode = record {
  workspaces = record { id = "w"; experience_mode = none } ∷ [];
  members = record { user_id = 7; workspace_id = "w"; role = viewer; experience_mode = mode } ∷ [];
}

abbrev advanced : Experience
advanced = record {
  workspace_id = "w";
  workspace_default_mode = "simple";
  user_mode = some "advanced";
  effective_mode = "advanced";
  follows_workspace_default = false;
  can_manage_workspace_default = false;
}

advanced_set :
    set_user_experience_mode (with_mode none) 7 "w" (some " Advanced")
    ≡ ok (with_mode (some "advanced"), ok advanced)
unfolding set_user_experience_mode workspace_and_member joined known_mode normalize_optional_mode
    default_mode serialize write_user_mode strip lstrip rstrip is_space lower_eq
advanced_set = refl

viewer_refused :
    set_workspace_default_experience_mode (with_mode none) 7 "w" "advanced"
    ≡ err ExperienceError.only_owner
unfolding set_workspace_default_experience_mode workspace_and_member joined
viewer_refused = refl
