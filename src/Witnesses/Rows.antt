-- ===== src/Witnesses/Rows.antt =====
-- One row of each table.
use anytoolai_platform.Prelude.{some, none, true, false, [], ◌∷◌}
use anytoolai_platform.Json.{empty}
use anytoolai_platform.Store.{Store}
use anytoolai_platform.Workflows.Models.{JobRecord, JobStatus, JobConsumptionMode}
use anytoolai_platform.Scenarios.Models.{
  ScenarioSessionRecord, ScenarioSessionStatus, ScenarioDefinition,
}
use anytoolai_platform.Handoffs.Models.{HandoffRecord, HandoffStatus, HandoffStartPolicy}
use anytoolai_platform.Handoffs.Repository.{Scope}
use anytoolai_platform.Scenarios.Sessions.{SessionScope}
use anytoolai_platform.Quotas.Models.{
  ExecutionOwner, ExecutionOwnerKind, ReservationState, ExecutionReservation, QuotaDimension,
  QuotaUsageRecord, PaidAllowance, PaidAllowanceUsageRecord,
}

abbrev pub job : JobRecord
job = record {
  tenant_id = "t1";
  region = "eu";
  product_id = "p1";
  frontend_id = "f1";
  scenario_session_id = "s1";
  workflow_id = "w1";
  workflow_version = 1;
  id = "j1";
  status = JobStatus.running;
  consumption_mode = JobConsumptionMode.reserved;
  input_artifact_id = none;
  result_artifact_id = none;
  error_code = none;
  error_message_safe = none;
  started_at = some 5;
  completed_at = none;
  created_at = 1;
  metadata = empty;
}

abbrev pub failed_job : JobRecord
failed_job = record job { status = JobStatus.failed; completed_at = some 9 }

abbrev pub session : ScenarioSessionRecord
session = record {
  tenant_id = "t1";
  region = "eu";
  product_id = "p1";
  frontend_id = "f1";
  scenario_id = "sc1";
  scenario_version = 1;
  id = "s1";
  guest_id = some "g1";
  user_id = none;
  status = ScenarioSessionStatus.running;
  current_checkpoint_id = none;
  current_step = none;
  scenario_chain_id = some "c1";
  parent_scenario_session_id = none;
  source_frontend_instance_id = none;
  idempotency_key = none;
  idempotency_request_hash = none;
  metadata = empty;
  created_at = 1;
  started_at = 1;
  last_event_at = 1;
  completed_at = none;
  expires_at = none;
}

abbrev pub session_scope : SessionScope
session_scope = record { tenant_id = "t1"; region = "eu"; product_id = "p1"; frontend_id = "f1" }

abbrev pub definition : ScenarioDefinition
definition = record {
  scenario_id = "sc1";
  version = 1;
  workflow_id = "w1";
  allowed_next_actions = "share" ∷ "refine" ∷ [];
  schema_version = 1;
  metadata = empty;
  internal_only = false;
}

abbrev pub handoff : HandoffRecord
handoff = record {
  handoff_definition_id = "hd1";
  tenant_id = "t1";
  region = "eu";
  token_hash = "hash";
  source_product_id = "p1";
  source_frontend_id = "f1";
  source_scenario_id = "sc1";
  source_scenario_session_id = "s1";
  source_job_id = "j1";
  source_artifact_id = "a1";
  target_product_id = "p2";
  target_frontend_id = "f2";
  target_scenario_id = "sc2";
  scenario_chain_id = "c1";
  consent_required = true;
  target_start_policy = HandoffStartPolicy.immediate;
  context_payload = empty;
  preview_payload = empty;
  expires_at = 100;
  id = "h1";
  status = HandoffStatus.viewed;
  target_scenario_session_id = none;
  target_job_id = none;
  created_by_guest_id = some "g1";
  accepted_by_guest_id = none;
  accepted_from_frontend_instance_id = none;
  error_code = none;
  metadata = empty;
  created_at = 1;
  updated_at = 1;
  viewed_at = some 2;
  accepted_at = none;
  declined_at = none;
  consumed_at = none;
  expired_at = none;
  failed_at = none;
}

abbrev pub declined_handoff : HandoffRecord
declined_handoff = record handoff { status = HandoffStatus.declined; declined_at = some 9 }

abbrev pub scope : Scope
scope = record { tenant_id = "t1"; region = "eu" }

abbrev pub guest_owner : ExecutionOwner
guest_owner = record {
  tenant_id = "t1";
  region = "eu";
  owner_kind = ExecutionOwnerKind.guest;
  owner_id = "g1";
}

-- Two of three uses spent before reservations came, and the third one held.
abbrev pub usage : QuotaUsageRecord
usage = record {
  tenant_id = "t1";
  region = "eu";
  guest_id = "g1";
  product_id = "p1";
  quota_policy_id = "q1";
  quota_dimension = QuotaDimension.product;
  dimension_key = "p1";
  period_key = "lifetime";
  limit_count = 3;
  scenario_id = none;
  id = "u1";
  used_count = 2;
  reserved_count = 1;
  legacy_used_count = 2;
  created_at = 1;
  updated_at = 1;
  metadata = empty;
}

abbrev pub paid_owner : ExecutionOwner
paid_owner = record guest_owner { owner_kind = ExecutionOwnerKind.portal_user; owner_id = "u7" }

abbrev pub allowance : PaidAllowance
allowance = record {
  owner = paid_owner;
  allowance_id = "al1";
  product_id = "p1";
  metric_key = "runs";
  unit = "scenario_run";
  quantity = 2;
}

abbrev pub paid_usage : PaidAllowanceUsageRecord
paid_usage = record {
  allowance = allowance;
  id = "b1";
  used_count = 0;
  reserved_count = 0;
  created_at = 1;
  updated_at = 1;
}

abbrev pub reservation : ExecutionReservation
reservation = record {
  owner = guest_owner;
  scenario_session_id = "s1";
  job_id = "j1";
  product_id = "p1";
  scenario_id = "sc1";
  frontend_id = "f1";
  guest_quota_usage_id = some "u1";
  paid_allowance_usage_id = none;
  replay_namespace = none;
  replay_key = none;
  request_hash = none;
  handoff_id = none;
  id = "r1";
  state = ReservationState.reserved;
  result_artifact_id = none;
  created_at = 1;
  updated_at = 1;
  finalized_at = none;
}

abbrev pub store : Store
store = record {
  usages = usage ∷ [];
  allowances = paid_usage ∷ [];
  reservations = reservation ∷ [];
  jobs = job ∷ [];
  sessions = session ∷ [];
  handoffs = handoff ∷ [];
  artifacts = [];
  events = [];
}

-- The same, after the job failed and the handoff was declined.
abbrev pub ended_store : Store
ended_store = record store { jobs = failed_job ∷ []; handoffs = declined_handoff ∷ [] }
