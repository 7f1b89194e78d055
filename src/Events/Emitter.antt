-- ===== src/Events/Emitter.antt =====
-- events/emitter.py: `EventEmitter.emit`, with `build_replay_event_id` of events/repository.py and
-- `digest_parts` of common/hashing.py. The taxonomy of event types, which is read from a file, SHA-256
-- in hexadecimal and `str.casefold` are parameters; the clock's instant and a minted identifier are
-- arguments.
pub mod Checks
pub mod Stored
use anytoolai_platform.Prelude.{
  ℕ, String, ◌==◌, Bool, true, false, not, ◌||◌, Option, none, some, List, [], ◌∷◌, ltb, is_some,
  or_instant, if◌then◌else◌,
}
use Prim.Native.String
use anytoolai_platform.Prelude.Texts.{is_blank, strip, length, join}
use anytoolai_platform.Prelude.Texts.Decimal.{decimal, decimal3}
use anytoolai_platform.Json.{text, Fields, empty}
use anytoolai_platform.Json.Dict.{lookup}
use anytoolai_platform.Store.{
  Store, Error, value_error, Result, ok, err, Tx, ◌>>=◌, ◌>>◌, pure, raise, refuse_if,
}
use anytoolai_platform.Events.Models.{EventEnvelope, ExecutionContext}
use anytoolai_platform.Events.Sanitizer.{sanitize_event_properties}
use anytoolai_platform.Events.Log.{create, event_properties_step_id}

abbrev pub max_client_event_id_length : ℕ
max_client_event_id_length = 128

-- The arguments of one call, beside the context.
pub record Emission : Type 0 where
  pub event_type : String
  pub result_status : Option String
  pub properties : Option Fields
  pub timestamp : Option ℕ
  pub replay : Bool
  pub event_id : Option String

unfoldable pub validate_event_type : List String → String → Tx (Unit {0})
validate_event_type [] event_type = raise (value_error "unknown platform event type")
validate_event_type (known ∷ platform_events) event_type =
    let rest = validate_event_type platform_events event_type in
    if known == event_type then pure tt else rest

unfoldable pub require_dimension : String → String → Tx (Unit {0})
unfolding is_blank
require_dimension value message = refuse_if (is_blank value) (value_error message)

unfoldable pub validate_client_event_id : String → Tx (Unit {0})
unfolding is_blank
validate_client_event_id event_id = do
  refuse_if (is_blank event_id) (value_error "event_id must not be empty")
  refuse_if (ltb max_client_event_id_length (length event_id))
      (value_error "event_id must be at most 128 characters")

-- The client's identifier, stripped and validated.
unfoldable pub client_event_id : Bool → Option String → Tx (Option String)
unfolding strip validate_client_event_id
client_event_id replay none = pure none
client_event_id replay (some event_id) = do
  refuse_if replay (value_error "event_id and replay are mutually exclusive")
  validate_client_event_id (strip event_id)
  pure (some (strip event_id))

unfoldable pub extract_error_code : Fields → Option String
unfolding lookup
extract_error_code properties = elim (lookup "error_code" properties) [
  | some (text s) ↦ if s == "" then none else some s
  | _ ↦ none
]

unfoldable pub replay_event_order_rank : String → ℕ
replay_event_order_rank e =
    if e == "workflow.started"
    then 10
    else if e == "workflow.step_started"
    then 20
    else if e == "action.started"
    then 30
    else if e == "provider.request_started"
    then 40
    else if e == "provider.request_succeeded" || e == "provider.request_failed"
    then 50
    else if e == "artifact.created"
    then 60
    else if e == "action.succeeded" || e == "action.failed"
    then 70
    else if e == "workflow.step_skipped"
        || e == "workflow.step_succeeded"
        || e == "workflow.step_failed"
    then 80
    else if e == "workflow.succeeded" || e == "workflow.failed" || e == "workflow.canceled"
    then 90
    else 999

-- `value or ""`
unfoldable pub or_empty_text : Option String → String
or_empty_text none = ""
or_empty_text (some s) = s

-- `"" if value is None else str(value)`
unfoldable pub shown_if_some : Option ℕ → String
unfolding decimal
shown_if_some none = ""
shown_if_some (some n) = decimal n

unfoldable pub replay_parts :
    String → ExecutionContext → Option String → Option String → Option String → List String
unfolding or_empty_text shown_if_some
replay_parts event_type c result_status error_code step_id =
    "replay_v1"
    ∷ event_type
    ∷ c.tenant_id
    ∷ c.region
    ∷ c.product_id
    ∷ c.frontend_id
    ∷ or_empty_text c.scenario_session_id
    ∷ or_empty_text c.job_id
    ∷ or_empty_text c.workflow_id
    ∷ shown_if_some c.workflow_version
    ∷ or_empty_text c.action_run_id
    ∷ or_empty_text c.action_type
    ∷ or_empty_text c.action_config_id
    ∷ or_empty_text c.provider_policy_ref
    ∷ or_empty_text c.provider_call_id
    ∷ or_empty_text c.provider
    ∷ or_empty_text c.model
    ∷ shown_if_some c.physical_call_index
    ∷ or_empty_text c.pydantic_run_id
    ∷ or_empty_text c.litellm_response_id
    ∷ or_empty_text c.artifact_id
    ∷ or_empty_text c.handoff_id
    ∷ or_empty_text result_status
    ∷ or_empty_text error_code
    ∷ or_empty_text step_id
    ∷ []

-- `properties or {}`
unfoldable pub or_no_properties : Option Fields → Fields
or_no_properties none = empty
or_no_properties (some d) = d

unfoldable pub envelope_of : Emission → ExecutionContext → Fields → String → ℕ → EventEnvelope
unfolding extract_error_code
envelope_of a c sanitized event_id now = record {
  event_id = event_id;
  event_type = a.event_type;
  timestamp = or_now a.timestamp;
  tenant_id = c.tenant_id;
  region = c.region;
  product_id = some c.product_id;
  frontend_id = some c.frontend_id;
  guest_id = c.guest_id;
  user_id = c.user_id;
  scenario_session_id = c.scenario_session_id;
  scenario_chain_id = c.scenario_chain_id;
  job_id = c.job_id;
  workflow_id = c.workflow_id;
  workflow_version = c.workflow_version;
  action_run_id = c.action_run_id;
  action_type = c.action_type;
  action_config_id = c.action_config_id;
  provider_policy_ref = c.provider_policy_ref;
  provider_call_id = c.provider_call_id;
  provider = c.provider;
  model = c.model;
  physical_call_index = c.physical_call_index;
  pydantic_run_id = c.pydantic_run_id;
  litellm_response_id = c.litellm_response_id;
  artifact_id = c.artifact_id;
  handoff_id = c.handoff_id;
  result_status = a.result_status;
  error_code = extract_error_code sanitized;
  acquisition_source = c.acquisition_source;
  schema_version = 1;
  metadata = empty;
  properties = sanitized;
}
  where
    or_now : Option ℕ → ℕ
    or_now none = now
    or_now (some t) = t

module _ (sha256_hex : String → String) where
  unfoldable pub digest_parts : List String → String
  unfolding join
  digest_parts parts = sha256_hex (join "\u{1f}" parts)

  unfoldable pub build_replay_event_id :
      String → ExecutionContext → Option String → Option String → Option String → String
  unfolding replay_parts digest_parts replay_event_order_rank decimal3
  build_replay_event_id event_type c result_status error_code step_id =
      String.◌++◌ "event_replay_" (
        String.◌++◌ (decimal3 (replay_event_order_rank event_type)) (
          String.◌++◌ "_"
            (digest_parts (replay_parts event_type c result_status error_code step_id))))

  -- `event_id or (build_replay_event_id(…) if replay else new_ordered_id("event"))`
  unfoldable pub resolved_event_id :
      Emission → ExecutionContext → Fields → Option String → String → String
  unfolding build_replay_event_id extract_error_code event_properties_step_id
  resolved_event_id a c sanitized (some event_id) fresh_id = event_id
  resolved_event_id a c sanitized none fresh_id =
      if a.replay
      then build_replay_event_id a.event_type c a.result_status (extract_error_code sanitized)
          (event_properties_step_id sanitized)
      else fresh_id

module _ (sha256_hex : String → String) (casefold : String → String)
    (platform_events : List String) where
  unfoldable pub emit : Emission → ExecutionContext → ℕ → String → Tx EventEnvelope
  unfolding validate_event_type require_dimension client_event_id sanitize_event_properties
      or_no_properties resolved_event_id envelope_of create
  emit a c now fresh_id = do
    validate_event_type platform_events a.event_type
    require_dimension c.tenant_id "missing required event dimension: tenant_id"
    require_dimension c.region "missing required event dimension: region"
    client_id ← client_event_id a.replay a.event_id
    let sanitized = sanitize_event_properties casefold (or_no_properties a.properties) in
        create (a.replay || is_some client_id) (
          envelope_of a c sanitized (resolved_event_id sha256_hex a c sanitized client_id fresh_id)
            now)
