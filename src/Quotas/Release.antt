-- ===== src/Quotas/Release.antt =====
-- quotas/finalization.py: `_lock_execution`, `_context` and `release_execution`. A row lock leaves
-- the store as it is.
pub mod Books
pub mod Balanced
pub mod Replayed
use anytoolai_platform.Prelude.{
  ℕ, String, Bool, true, false, not, ◌||◌, Option, none, some, List, if◌then◌else◌, is_none,
}
use anytoolai_platform.Prelude.Table.{select}
use anytoolai_platform.Store.{
  Store, Error, value_error, runtime_error, no_result_found, Result, ok, err, Tx, ◌>>=◌, ◌>>◌, pure,
  raise, refuse_if, require_some,
}
use anytoolai_platform.Workflows.Models.{JobRecord, JobConsumptionMode, mode_eq}
use anytoolai_platform.Workflows.Jobs
use anytoolai_platform.Scenarios.Models.{ScenarioSessionRecord, started, running, session_status_eq}
use anytoolai_platform.Scenarios.Sessions
use anytoolai_platform.Scenarios.Service.{Minted, mark_failed}
use anytoolai_platform.Events.Models.{ExecutionContext}
use anytoolai_platform.Quotas.Models.{
  guest, portal_user, kind_eq, ReservationState, reserved, released, state_eq, ExecutionReservation,
  reservation_key, usage_key, paid_key, ConsumptionTransition,
}
use anytoolai_platform.Quotas.Reservations.{get_by_job}
use anytoolai_platform.Quotas.Settlement.{
  BucketLink, in_usages, in_allowances, bucket, is_failed_or_canceled, transition, terminal_replay,
}
use anytoolai_platform.Quotas.Events.{quota_released, metadata_str, emit_execution_quota_event}

pub record LockedExecution : Type 0 where
  pub job : JobRecord
  pub scenario : Option ScenarioSessionRecord
  pub reservation : ExecutionReservation

-- The job, of the consumption mode that has a reservation.
unfoldable pub lock_job : String → Tx JobRecord
unfolding Jobs.get
lock_job job_id = do
  found ← Jobs.get job_id
  job ← require_some found (value_error "metered terminal transition requires a reserved job")
  refuse_if (not (mode_eq job.consumption_mode JobConsumptionMode.reserved))
      (value_error "metered terminal transition requires a reserved job")
  pure job

-- SELECT id … WITH FOR UPDATE, by `scalar_one()`
unfoldable pub lock_reservation : String → Tx (Unit {0})
lock_reservation k s = elim (select reservation_key k s.reservations) [
  | none ↦ err (no_result_found "execution_reservations")
  | some r ↦ ok (tt, s)
]

unfoldable pub lock_bucket : BucketLink → Tx (Unit {0})
lock_bucket (in_usages k) s = elim (select usage_key k s.usages) [
  | none ↦ err (no_result_found "guest_quota_usage")
  | some b ↦ ok (tt, s)
]
lock_bucket (in_allowances k) s = elim (select paid_key k s.allowances) [
  | none ↦ err (no_result_found "paid_allowance_usage")
  | some b ↦ ok (tt, s)
]

-- The reservation's own scope, even of a job that lost its links.
unfoldable pub original_scope : ExecutionReservation → Sessions.SessionScope
original_scope r = record {
  tenant_id = r.owner.tenant_id;
  region = r.owner.region;
  product_id = r.product_id;
  frontend_id = r.frontend_id;
}

unfoldable pub lock_execution : String → Tx LockedExecution
unfolding lock_job get_by_job Sessions.get original_scope lock_reservation bucket lock_bucket
lock_execution job_id = do
  job ← lock_job job_id
  found ← get_by_job job_id
  original ← require_some found (runtime_error "reserved job lacks its reservation")
  scenario ← Sessions.get (original_scope original) original.scenario_session_id
  lock_reservation original.id
  again ← get_by_job job_id
  reservation ← require_some again (runtime_error "assertion")
  link ← bucket reservation
  lock_bucket link
  pure (record { job = job; scenario = scenario; reservation = reservation })

unfoldable pub chain_of : Option ScenarioSessionRecord → Option String
chain_of none = none
chain_of (some x) = x.scenario_chain_id

-- `_context`
unfoldable pub context :
    JobRecord → Option ScenarioSessionRecord → ExecutionReservation → ExecutionContext
unfolding chain_of metadata_str
context j x r = record {
  tenant_id = r.owner.tenant_id;
  region = r.owner.region;
  product_id = r.product_id;
  frontend_id = r.frontend_id;
  scenario_session_id = some r.scenario_session_id;
  job_id = some j.id;
  workflow_id = some j.workflow_id;
  workflow_version = some j.workflow_version;
  step_id = none;
  guest_id = if kind_eq r.owner.owner_kind guest then some r.owner.owner_id else none;
  user_id = if kind_eq r.owner.owner_kind portal_user then some r.owner.owner_id else none;
  scenario_chain_id = chain_of x;
  action_type = none;
  action_config_id = none;
  artifact_id = none;
  handoff_id = r.handoff_id;
  provider = none;
  model = none;
  acquisition_source = metadata_str j.metadata "acquisition_source";
  action_run_id = none;
  provider_policy_ref = none;
  provider_call_id = none;
  physical_call_index = none;
  pydantic_run_id = none;
  litellm_response_id = none;
}

unfoldable pub release_error_code : Option String → String
release_error_code none = "workflow_execution_cancelled"
release_error_code (some code) = code

module _ (sha256_hex : String → String) (casefold : String → String)
    (platform_events : List String) where
  -- A session that has not ended fails with its job.
  unfoldable pub fail_open_scenario :
      Minted → JobRecord → Option ScenarioSessionRecord → ExecutionReservation → Tx (Unit {0})
  unfolding mark_failed release_error_code context
  fail_open_scenario m j none r = pure tt
  fail_open_scenario m j (some x) r =
      let failing =
        mark_failed sha256_hex casefold platform_events m
          (record x { completed_at = j.completed_at }) (release_error_code j.error_code)
          (some (context j (some x) r)) in
      if session_status_eq x.status started || session_status_eq x.status running
      then (failing >>= λ updated. pure tt)
      else pure tt

  -- Past the checks.
  unfoldable pub release_reserved : Minted → LockedExecution → Tx ConsumptionTransition
  unfolding transition emit_execution_quota_event context fail_open_scenario
  release_reserved m x = do
    done ← transition (m.clock 6) x.reservation released none
    emit_execution_quota_event sha256_hex casefold platform_events m quota_released done.reservation
        (context x.job x.scenario done.reservation)
    fail_open_scenario m x.job x.scenario x.reservation
    pure done

  unfoldable pub release_locked : Minted → LockedExecution → Tx ConsumptionTransition
  unfolding terminal_replay is_failed_or_canceled release_reserved
  release_locked m x =
      if state_eq x.reservation.state reserved
      then refuse_if (not (is_failed_or_canceled x.job.status))
          (runtime_error "release requires terminal failure or cancellation")
        >> release_reserved m x
      else terminal_replay x.job x.reservation

  unfoldable pub release_execution : Minted → String → Tx ConsumptionTransition
  unfolding lock_execution release_locked
  release_execution m job_id = do locked ← lock_execution job_id; release_locked m locked
