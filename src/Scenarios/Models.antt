-- ===== src/Scenarios/Models.antt =====
-- scenarios/models.py: a scenario definition and a scenario-session row.
use anytoolai_platform.Prelude.{ℕ, String, Bool, Option, List, eqb}
use anytoolai_platform.Json.{Fields}

pub data ScenarioSessionStatus : Type 0 where
  started waiting_for_user running completed failed expired : ScenarioSessionStatus

abbrev pub session_rank : ScenarioSessionStatus → ℕ
session_rank started = 0
session_rank waiting_for_user = 1
session_rank running = 2
session_rank completed = 3
session_rank failed = 4
session_rank expired = 5

-- `==` on two members of the enumeration
abbrev pub session_status_eq : ScenarioSessionStatus → ScenarioSessionStatus → Bool
session_status_eq a b = eqb (session_rank a) (session_rank b)

pub record ScenarioDefinition : Type 0 where
  pub scenario_id : String
  pub version : ℕ
  pub workflow_id : String
  pub allowed_next_actions : List String
  pub schema_version : ℕ
  pub metadata : Fields
  pub internal_only : Bool

pub record ScenarioSessionRecord : Type 0 where
  pub tenant_id : String
  pub region : String
  pub product_id : String
  pub frontend_id : String
  pub scenario_id : String
  pub scenario_version : ℕ
  pub id : String
  pub guest_id : Option String
  pub user_id : Option String
  pub status : ScenarioSessionStatus
  pub current_checkpoint_id : Option String
  pub current_step : Option String
  pub scenario_chain_id : Option String
  pub parent_scenario_session_id : Option String
  pub source_frontend_instance_id : Option String
  pub idempotency_key : Option String
  pub idempotency_request_hash : Option String
  pub metadata : Fields
  pub created_at : ℕ
  pub started_at : ℕ
  pub last_event_at : ℕ
  pub completed_at : Option ℕ
  pub expires_at : Option ℕ

abbrev pub session_id : ScenarioSessionRecord → String
session_id s = s.id
