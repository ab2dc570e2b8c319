-- ===== src/App/Target.antt =====
-- What an analysis is about (internal/githubapp/target.go, `Validate` and `ID`). The hash behind an id is a
-- parameter.
use glassroot.Common.{
  ℕ, String, Bool, not, ◌||◌, ◌&&◌, all, codes, byte_length, is_lower_hex, has_control, str_eq,
  Result, ok, ◌>>◌, reject_if, ◌==◌,
}
use glassroot.Common.Int.{ℤ, nonpositive}

pub data Code : Type 0 where
  invalid_target invalid_object_id invalid_installation_id invalid_repository_id : Code
  invalid_pull_request_number unsupported_action foreign_check_run projection_invalid
        delivery_conflict :
      Code

pub record AnalysisTarget : Type 0 where
  pub installation_id : ℤ
  pub base_repository_id : ℤ
  pub head_repository_id : ℤ
  pub pull_request_number : ℤ
  pub base_commit_id : String
  pub head_commit_id : String
  pub analysis_profile_version : String

abbrev pub lower_hex : String → ℕ → Bool
lower_hex s n = byte_length (codes s) == n && all is_lower_hex (codes s)

unfoldable pub valid_git_object_id : String → Bool
valid_git_object_id s = lower_hex s 40 || lower_hex s 64

-- The schema version is the constant of the callers here, which the first test of the source accepts.
unfoldable pub validate : AnalysisTarget → Result Code (Unit {0})
validate t = do
  reject_if
      (nonpositive t.installation_id
        || nonpositive t.base_repository_id
        || nonpositive t.head_repository_id
        || nonpositive t.pull_request_number)
      invalid_target
  reject_if
      (not (valid_git_object_id t.base_commit_id) || not (valid_git_object_id t.head_commit_id))
      invalid_object_id
  reject_if (str_eq t.analysis_profile_version "" || has_control t.analysis_profile_version)
      invalid_target

unfoldable pub target_id : (AnalysisTarget → String) → AnalysisTarget → Result Code String
target_id hash t = do validate t; ok (hash t)
