-- ===== src/Scenarios/Service.antt =====
-- scenarios/service.py: `ScenarioSessionService`, which writes a session and its events. The instants
-- and identifiers that each step mints are functions of the number of the step.
pub mod Started
use anytoolai_platform.Prelude.{
  ℕ, String, ◌==◌, Bool, true, false, not, Option, none, some, List, holds_text, or_text,
  or_instant, if◌then◌else◌,
}
use anytoolai_platform.Json.{Json, integer, text, Fields, empty, field}
use anytoolai_platform.Json.Dict.{insert}
use anytoolai_platform.Store.{
  Store, Error, runtime_error, integrity_error, Result, ok, err, Tx, ◌>>=◌, ◌>>◌, pure, raise,
  require_some,
}
use anytoolai_platform.Events.Models.{ExecutionContext}
use anytoolai_platform.Events.Emitter.{Emission, emit}
use anytoolai_platform.Scenarios.Models.{
  ScenarioSessionStatus, started, waiting_for_user, running, completed, failed, expired,
  session_status_eq, ScenarioSessionRecord,
}
use anytoolai_platform.Scenarios.Checkpoints.{processing, result_ready, failed_checkpoint}
use anytoolai_platform.Scenarios.Sessions.{update, scope_of}
use anytoolai_platform.Scenarios.Idempotency.{IdempotencyKey, create, get_by_idempotency_key}

-- What the clock and the minting of event identifiers return.
pub record Minted : Type 0 where
  pub clock : ℕ → ℕ
  pub event_ids : ℕ → String

-- An event of this process, at the emitter's own instant.
unfoldable pub event : String → Option String → Fields → Emission
event event_type result_status properties = record {
  event_type = event_type;
  result_status = result_status;
  properties = some properties;
  timestamp = none;
  replay = false;
  event_id = none;
}

abbrev pub session_status_value : ScenarioSessionStatus → String
session_status_value started = "started"
session_status_value waiting_for_user = "waiting_for_user"
session_status_value running = "running"
session_status_value completed = "completed"
session_status_value failed = "failed"
session_status_value expired = "expired"

unfoldable pub context_from_record : ScenarioSessionRecord → ExecutionContext
context_from_record r = record {
  tenant_id = r.tenant_id;
  region = r.region;
  product_id = r.product_id;
  frontend_id = r.frontend_id;
  scenario_session_id = some r.id;
  job_id = none;
  workflow_id = none;
  workflow_version = none;
  step_id = none;
  guest_id = r.guest_id;
  user_id = r.user_id;
  scenario_chain_id = r.scenario_chain_id;
  action_type = none;
  action_config_id = none;
  artifact_id = none;
  handoff_id = none;
  provider = none;
  model = none;
  acquisition_source = none;
  action_run_id = none;
  provider_policy_ref = none;
  provider_call_id = none;
  physical_call_index = none;
  pydantic_run_id = none;
  litellm_response_id = none;
}

unfoldable pub event_context_from_record :
    ScenarioSessionRecord → Option ExecutionContext → ExecutionContext
unfolding context_from_record
event_context_from_record r none = context_from_record r
event_context_from_record r (some c) = record (context_from_record r) {
  job_id = c.job_id;
  workflow_id = c.workflow_id;
  workflow_version = c.workflow_version;
  handoff_id = c.handoff_id;
  acquisition_source = c.acquisition_source;
}

unfoldable pub scenario_properties : ScenarioSessionRecord → Fields
scenario_properties r =
    field "scenario_id" (text r.scenario_id)
      (field "scenario_version" (integer r.scenario_version) empty)

-- The row that a terminal mark writes.
unfoldable pub ended_values :
    ScenarioSessionStatus → String → ℕ → ℕ → ScenarioSessionRecord → ScenarioSessionRecord
ended_values status checkpoint_id completed_at now r = record r {
  status = status;
  current_checkpoint_id = some checkpoint_id;
  completed_at = or_instant r.completed_at completed_at;
  last_event_at = now;
}

unfoldable pub running_values : ℕ → ScenarioSessionRecord → ScenarioSessionRecord
running_values now r = record r {
  status = running;
  current_checkpoint_id = or_text r.current_checkpoint_id processing;
  last_event_at = now;
}

unfoldable pub checkpoint_values : String → ℕ → ScenarioSessionRecord → ScenarioSessionRecord
checkpoint_values checkpoint_id now r = record r {
  current_checkpoint_id = some checkpoint_id;
  last_event_at = now;
}

-- `properties or {}`
unfoldable pub given_properties : Option Fields → Fields
given_properties none = empty
given_properties (some d) = d

unfoldable pub mark_running : ℕ → ScenarioSessionRecord → Tx ScenarioSessionRecord
unfolding update running_values scope_of
mark_running now r =
    if session_status_eq r.status started
    then update (scope_of r) (running_values now r)
    else pure r

-- The row that won the race for the key.
unfoldable pub existing_row : Option ScenarioSessionRecord → Tx (ScenarioSessionRecord × Bool)
existing_row found = do
  row ← require_some found (runtime_error "scenario session idempotency race but no row found")
  pure (row, false)

module _ (sha256_hex : String → String) (casefold : String → String)
    (platform_events : List String) where
  unfoldable pub emit_event : Minted → ℕ → Emission → ExecutionContext → Tx (Unit {0})
  unfolding emit
  emit_event m n a c = do
    stored ← emit sha256_hex casefold platform_events a c (m.clock n) (m.event_ids n)
    pure tt

  unfoldable pub emit_started :
      Minted → ScenarioSessionRecord → Option ExecutionContext → Tx (Unit {0})
  unfolding emit_event event scenario_properties event_context_from_record
  emit_started m stored context =
      emit_event m 0 (event "scenario.started" none (scenario_properties stored))
        (event_context_from_record stored context)

  unfoldable pub start :
      Minted → ScenarioSessionRecord → Option ExecutionContext → Tx ScenarioSessionRecord
  unfolding create emit_started
  start m r context = do stored ← create r; emit_started m stored context; pure stored

  unfoldable pub raced :
      (String → String → Bool) → IdempotencyKey → Tx (ScenarioSessionRecord × Bool)
  unfolding get_by_idempotency_key existing_row
  raced id_before k = do found ← get_by_idempotency_key id_before k; existing_row found

  -- With a key, where the collation orders identifiers.
  unfoldable pub start_keyed :
      (String → String → Bool)
      → Minted
      → ScenarioSessionRecord
      → Option ExecutionContext
      → IdempotencyKey
      → Tx (ScenarioSessionRecord × Bool)
  unfolding create emit_started raced
  start_keyed id_before m r context k s = elim (create r s) [
    | ok (stored, s') ↦ (emit_started m stored context >> pure (stored, true)) s'
    | err (integrity_error constraint) ↦
        if constraint == "uq_scenario_sessions_idempotency_key"
        then raced id_before k s
        else err (integrity_error constraint)
    | err e ↦ err e
  ]

  unfoldable pub start_or_get_existing :
      (String → String → Bool)
      → Minted
      → ScenarioSessionRecord
      → Option ExecutionContext
      → Tx (ScenarioSessionRecord × Bool)
  unfolding start start_keyed
  start_or_get_existing id_before m r context = elim r.idempotency_key [
    | none ↦ start m r context >>= λ stored. pure (stored, true)
    | some key ↦ start_keyed id_before m r context (record {
      tenant_id = r.tenant_id;
      region = r.region;
      product_id = r.product_id;
      scenario_id = r.scenario_id;
      guest_id = r.guest_id;
      idempotency_key = key;
    })
  ]

  unfoldable pub checkpoint :
      Minted → ScenarioSessionRecord → String → Option Fields → Tx ScenarioSessionRecord
  unfolding update checkpoint_values scope_of given_properties emit_event event context_from_record
      insert
  checkpoint m r checkpoint_id properties = do
    updated ← update (scope_of r) (checkpoint_values checkpoint_id (m.clock 0) r)
    emit_event m 1
        (event "scenario.checkpoint_reached" none
          (insert "checkpoint_id" (text checkpoint_id) (given_properties properties)))
        (context_from_record updated)
    pure updated

  -- `scenario.checkpoint_reached`, unless the session was there
  unfoldable pub emit_checkpoint :
      Minted → ScenarioSessionRecord → String → Fields → ExecutionContext → Tx (Unit {0})
  unfolding emit_event event
  emit_checkpoint m before checkpoint_id properties context =
      if holds_text before.current_checkpoint_id checkpoint_id
      then pure tt
      else emit_event m 2 (event "scenario.checkpoint_reached" none properties) context

  unfoldable pub mark_completed :
      Minted → ScenarioSessionRecord → Option ExecutionContext → Tx ScenarioSessionRecord
  unfolding update ended_values scope_of emit_checkpoint emit_event event event_context_from_record
      scenario_properties
  mark_completed m r context = do
    updated ← update (scope_of r) (ended_values completed result_ready (m.clock 0) (m.clock 1) r)
    emit_checkpoint m r result_ready
        (field "checkpoint_id" (text result_ready) (scenario_properties updated))
        (event_context_from_record updated context)
    emit_event m 3
        (event "scenario.completed" (some (session_status_value updated.status))
          (scenario_properties updated))
        (event_context_from_record updated context)
    pure updated

  unfoldable pub mark_failed :
      Minted → ScenarioSessionRecord → String → Option ExecutionContext → Tx ScenarioSessionRecord
  unfolding update ended_values scope_of emit_checkpoint emit_event event event_context_from_record
      scenario_properties
  mark_failed m r error_code context = do
    updated ← update (scope_of r) (ended_values failed failed_checkpoint (m.clock 0) (m.clock 1) r)
    emit_checkpoint m r failed_checkpoint
        (field "checkpoint_id" (text failed_checkpoint)
          (field "error_code" (text error_code) (scenario_properties updated)))
        (event_context_from_record updated context)
    emit_event m 3
        (event "scenario.failed" (some (session_status_value updated.status))
          (field "error_code" (text error_code) (scenario_properties updated)))
        (event_context_from_record updated context)
    pure updated
