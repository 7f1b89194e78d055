-- ===== src/Witnesses/Events.antt =====
-- events/emitter.py and events/replay.py on concrete events.
use anytoolai_platform.Prelude.{
  String, true, false, none, some, [], ◌∷◌, ◌≡◌, refl, ◌==◌, inl, inr, Bool-cases, if◌then◌else◌,
}
use anytoolai_platform.Prelude.Table.{select, insert}
use anytoolai_platform.Prelude.Texts.{strip}
use anytoolai_platform.Json.{integer, text, object, Fields, empty, field}
use anytoolai_platform.Store.{Store, after}
use anytoolai_platform.Events.Models.{EventEnvelope, ExecutionContext}
use anytoolai_platform.Events.Sanitizer.{sanitize_event_properties}
use anytoolai_platform.Events.Sanitizer.Bounded.{bounded}
use anytoolai_platform.Events.Sanitizer.Bounds.{properties_bounded}
use anytoolai_platform.Events.Sanitizer.Clean.{fields_clean, properties_clean}
use anytoolai_platform.Events.Replay.Order.{
  call_next, call_observe, IsCausal, run_calls, sequencer-IsCausal,
}
use anytoolai_platform.Events.Emitter.{Emission, emit, envelope_of}
use anytoolai_platform.Events.Emitter.Stored.{LogIsSafe, emit-LogIsSafe, emit_once}
use anytoolai_platform.Events.Emitter.Checks.{OkOrRefused}
use anytoolai_platform.Events.Log.{stored_row}
use anytoolai_platform.Witnesses.Rows.{store}

abbrev folded : String → String
folded s = s

abbrev digest : String → String
digest s = "0"

abbrev raw : Fields
raw = field "api_key" (text "k") (
    field "input_tokens" (integer 3)
      (field "nested" (object (field "password" (object empty) empty)) empty))

abbrev execution : ExecutionContext
execution = record {
  tenant_id = "t1";
  region = "eu";
  product_id = "p1";
  frontend_id = "f1";
  scenario_session_id = some "s1";
  job_id = none;
  workflow_id = none;
  workflow_version = none;
  step_id = none;
  guest_id = some "g1";
  user_id = none;
  scenario_chain_id = none;
  action_type = none;
  action_config_id = none;
  artifact_id = none;
  handoff_id = none;
  provider = none;
  model = none;
  acquisition_source = none;
  action_run_id = none;
  provider_policy_ref = none;
  provider_call_id = none;
  physical_call_index = none;
  pydantic_run_id = none;
  litellm_response_id = none;
}

abbrev first_call : Emission
first_call = record {
  event_type = "quota.checked";
  result_status = none;
  properties = some raw;
  timestamp = none;
  replay = false;
  event_id = some "abc";
}

abbrev second_call : Emission
second_call = record first_call { properties = none; event_id = some " abc" }

abbrev stored_first : EventEnvelope
stored_first =
    stored_row (envelope_of first_call execution (sanitize_event_properties folded raw) "abc" 5)

abbrev logged : Store
logged = record store { events = stored_first ∷ [] }

logged_safe : LogIsSafe folded logged
unfolding select stored_row envelope_of
logged_safe k = elim (Bool-cases ("abc" == k)) [
  | inl e ↦ rw (e, if◌then◌else◌) (properties_clean folded refl raw, properties_bounded folded raw)
  | inr e ↦ rw (e, if◌then◌else◌) tt
]

properties_bounded_example : bounded 8 (object (sanitize_event_properties folded raw)) ≡ true
properties_bounded_example = properties_bounded folded raw

properties_clean_example : fields_clean folded (sanitize_event_properties folded raw) ≡ true
properties_clean_example = properties_clean folded refl raw

emit-LogIsSafe_example : LogIsSafe folded (
    after
      (emit digest folded ("quota.checked" ∷ []) second_call execution 5 "event_1" logged)
      logged)
emit-LogIsSafe_example =
    emit-LogIsSafe digest folded ("quota.checked" ∷ []) refl second_call execution 5 "event_1"
      logged logged_safe

sequencer-IsCausal_example : IsCausal (some 3) (
    run_calls
      (call_next 2 ∷ call_observe 9 ∷ call_next 5 ∷ [])
      (record { last_timestamp = some 3 }))
sequencer-IsCausal_example =
    sequencer-IsCausal (call_next 2 ∷ call_observe 9 ∷ call_next 5 ∷ [])
      (record { last_timestamp = some 3 })

emit_once_example :
    OkOrRefused
      (emit digest folded ("quota.checked" ∷ []) second_call execution 6 "event_2")
      logged
      stored_first
unfolding strip emit insert select
emit_once_example =
    emit_once digest folded ("quota.checked" ∷ []) first_call second_call execution execution 5 6
      "event_1" "event_2" "abc" " abc" store logged stored_first refl refl refl refl
