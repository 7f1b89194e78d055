-- ===== src/Workflows/Models.antt =====
-- workflows/models.py: a job row and its status.
use anytoolai_platform.Prelude.{ℕ, String, Bool, Option, eqb}
use anytoolai_platform.Json.{Fields}

pub data JobStatus : Type 0 where
  created running succeeded failed canceled : JobStatus

pub data JobConsumptionMode : Type 0 where
  legacy unmetered reserved : JobConsumptionMode

abbrev pub status_rank : JobStatus → ℕ
status_rank created = 0
status_rank running = 1
status_rank succeeded = 2
status_rank failed = 3
status_rank canceled = 4

-- `is` on two members of the enumeration
abbrev pub status_eq : JobStatus → JobStatus → Bool
status_eq a b = eqb (status_rank a) (status_rank b)

abbrev pub mode_rank : JobConsumptionMode → ℕ
mode_rank legacy = 0
mode_rank unmetered = 1
mode_rank reserved = 2

abbrev pub mode_eq : JobConsumptionMode → JobConsumptionMode → Bool
mode_eq a b = eqb (mode_rank a) (mode_rank b)

pub record JobRecord : Type 0 where
  pub tenant_id : String
  pub region : String
  pub product_id : String
  pub frontend_id : String
  pub scenario_session_id : String
  pub workflow_id : String
  pub workflow_version : ℕ
  pub id : String
  pub status : JobStatus
  pub consumption_mode : JobConsumptionMode
  pub input_artifact_id : Option String
  pub result_artifact_id : Option String
  pub error_code : Option String
  pub error_message_safe : Option String
  pub started_at : Option ℕ
  pub completed_at : Option ℕ
  pub created_at : ℕ
  pub metadata : Fields

abbrev pub job_id : JobRecord → String
job_id j = j.id
