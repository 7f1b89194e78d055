-- ===== src/Handoffs/Models.antt =====
-- handoffs/models.py: a handoff row, its status, and the result of a transition.
use anytoolai_platform.Prelude.{ℕ, String, Bool, Option, eqb}
use anytoolai_platform.Json.{Fields}

pub data HandoffStatus : Type 0 where
  created viewed accepted declined consumed expired failed : HandoffStatus

pub data HandoffStartPolicy : Type 0 where
  immediate deferred : HandoffStartPolicy

abbrev pub handoff_rank : HandoffStatus → ℕ
handoff_rank created = 0
handoff_rank viewed = 1
handoff_rank accepted = 2
handoff_rank declined = 3
handoff_rank consumed = 4
handoff_rank expired = 5
handoff_rank failed = 6

-- `is` on two members of the enumeration
abbrev pub handoff_status_eq : HandoffStatus → HandoffStatus → Bool
handoff_status_eq a b = eqb (handoff_rank a) (handoff_rank b)

pub record HandoffRecord : Type 0 where
  pub handoff_definition_id : String
  pub tenant_id : String
  pub region : String
  pub token_hash : String
  pub source_product_id : String
  pub source_frontend_id : String
  pub source_scenario_id : String
  pub source_scenario_session_id : String
  pub source_job_id : String
  pub source_artifact_id : String
  pub target_product_id : String
  pub target_frontend_id : String
  pub target_scenario_id : String
  pub scenario_chain_id : String
  pub consent_required : Bool
  pub target_start_policy : HandoffStartPolicy
  pub context_payload : Fields
  pub preview_payload : Fields
  pub expires_at : ℕ
  pub id : String
  pub status : HandoffStatus
  pub target_scenario_session_id : Option String
  pub target_job_id : Option String
  pub created_by_guest_id : Option String
  pub accepted_by_guest_id : Option String
  pub accepted_from_frontend_instance_id : Option String
  pub error_code : Option String
  pub metadata : Fields
  pub created_at : ℕ
  pub updated_at : ℕ
  pub viewed_at : Option ℕ
  pub accepted_at : Option ℕ
  pub declined_at : Option ℕ
  pub consumed_at : Option ℕ
  pub expired_at : Option ℕ
  pub failed_at : Option ℕ

pub record HandoffTransitionResult : Type 0 where
  pub record_ : HandoffRecord
  pub changed : Bool

abbrev pub handoff_key : HandoffRecord → String
handoff_key h = h.id
