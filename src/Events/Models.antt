-- ===== src/Events/Models.antt =====
-- events/envelope.py and context/execution_context.py: the row of the event log, and the context of
-- an execution. The settings of a local run, which the modelled code does not read, are left out.
use anytoolai_platform.Prelude.{ℕ, String, Option}
use anytoolai_platform.Json.{Fields}

pub record EventEnvelope : Type 0 where
  pub event_id : String
  pub event_type : String
  pub timestamp : ℕ
  pub tenant_id : String
  pub region : String
  pub product_id : Option String
  pub frontend_id : Option String
  pub guest_id : Option String
  pub user_id : Option String
  pub scenario_session_id : Option String
  pub scenario_chain_id : Option String
  pub job_id : Option String
  pub workflow_id : Option String
  pub workflow_version : Option ℕ
  pub action_run_id : Option String
  pub action_type : Option String
  pub action_config_id : Option String
  pub provider_policy_ref : Option String
  pub provider_call_id : Option String
  pub provider : Option String
  pub model : Option String
  pub physical_call_index : Option ℕ
  pub pydantic_run_id : Option String
  pub litellm_response_id : Option String
  pub artifact_id : Option String
  pub handoff_id : Option String
  pub result_status : Option String
  pub error_code : Option String
  pub acquisition_source : Option String
  pub schema_version : ℕ
  pub metadata : Fields
  pub properties : Fields

pub record ExecutionContext : Type 0 where
  pub tenant_id : String
  pub region : String
  pub product_id : String
  pub frontend_id : String
  pub scenario_session_id : Option String
  pub job_id : Option String
  pub workflow_id : Option String
  pub workflow_version : Option ℕ
  pub step_id : Option String
  pub guest_id : Option String
  pub user_id : Option String
  pub scenario_chain_id : Option String
  pub action_type : Option String
  pub action_config_id : Option String
  pub artifact_id : Option String
  pub handoff_id : Option String
  pub provider : Option String
  pub model : Option String
  pub acquisition_source : Option String
  pub action_run_id : Option String
  pub provider_policy_ref : Option String
  pub provider_call_id : Option String
  pub physical_call_index : Option ℕ
  pub pydantic_run_id : Option String
  pub litellm_response_id : Option String

-- The column's name is that of the record's field.
abbrev pub event_key : EventEnvelope → String
event_key e = e.event_id
