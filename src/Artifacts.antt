-- ===== src/Artifacts.antt =====
-- artifacts/models.py: an artifact row
-- (packages/backend/platform-core/src/anytoolai_platform_core/artifacts).
use anytoolai_platform.Prelude.{ℕ, String, Option}
use anytoolai_platform.Json.{Json, Fields}

pub data ArtifactStatus : Type 0 where
  created stored failed : ArtifactStatus

pub record ArtifactRecord : Type 0 where
  pub tenant_id : String
  pub region : String
  pub product_id : String
  pub frontend_id : String
  pub scenario_session_id : String
  pub artifact_type : String
  pub id : String
  pub status : ArtifactStatus
  pub job_id : Option String
  pub action_run_id : Option String
  pub content_text : Option String
  pub content_json : Option Json
  pub object_storage_key : Option String
  pub metadata : Fields
  pub created_at : ℕ

abbrev pub artifact_key : ArtifactRecord → String
artifact_key a = a.id
