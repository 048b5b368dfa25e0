-- ===== src/Model/Repo.antt =====
-- deepwiki/internal/model/repo.go: repositories. RepoStats has the fields of a task's Stats.
use godeepwiki.Common.{ℕ, String}
use godeepwiki.Model.Task.{Stats}

pub record Repo : Type 0 where
  pub repo_id : String
  pub repo_url : String
  pub branch : String
  pub commit_hash : String
  pub local_path : String
  pub state : String
  pub stats : Stats
  pub created_at : ℕ
  pub updated_at : ℕ

abbrev pub repo_state_ingesting : String
repo_state_ingesting = "ingesting"

abbrev pub repo_state_ready : String
repo_state_ready = "ready"

abbrev pub repo_state_error : String
repo_state_error = "error"
