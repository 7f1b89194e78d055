-- ===== src/Quotas/Events.antt =====
-- quotas/events.py: the events of a bucket, and `metadata_str` of common/metadata.py.
use anytoolai_platform.Prelude.{String, ◌==◌, false, Option, none, some, List, eqb, if◌then◌else◌}
use anytoolai_platform.Json.{boolean, integer, text, Fields, empty, field}
use anytoolai_platform.Json.Dict.{lookup, update}
use anytoolai_platform.Store.{runtime_error, Tx, ◌>>=◌, require_some}
use anytoolai_platform.Events.Models.{ExecutionContext}
use anytoolai_platform.Events.Emitter.{Emission}
use anytoolai_platform.Scenarios.Service.{Minted, emit_event}
use anytoolai_platform.Quotas.Models.{
  ExecutionOwnerKind, guest, portal_user, ReservationState, reserved, consumed, released,
  ExecutionReservation, UsageBucket, guest_bucket, paid_bucket, ConsumptionReadback,
}
use anytoolai_platform.Quotas.Readback.{read_consumption}
use anytoolai_platform.Quotas.States.{dimension_value}

pub data ExecutionQuotaEvent : Type 0 where
  quota_reserved quota_consumed quota_released quota_capacity_reserved : ExecutionQuotaEvent

abbrev pub event_value : ExecutionQuotaEvent → String
event_value quota_reserved = "quota.reserved"
event_value quota_consumed = "quota.consumed"
event_value quota_released = "quota.released"
event_value quota_capacity_reserved = "quota.capacity_reserved"

abbrev pub kind_value : ExecutionOwnerKind → String
kind_value guest = "guest"
kind_value portal_user = "portal_user"

abbrev pub state_value : ReservationState → String
state_value reserved = "reserved"
state_value consumed = "consumed"
state_value released = "released"

-- `metadata_str`
unfoldable pub metadata_str : Fields → String → Option String
unfolding lookup
metadata_str metadata key = elim (lookup key metadata) [
  | some (text s) ↦ if s == "" then none else some s
  | _ ↦ none
]

unfoldable pub state_properties : ConsumptionReadback → Fields
state_properties c = field "owner_kind" (text (kind_value c.owner.owner_kind)) (
    field "owner_id" (text c.owner.owner_id) (
      field "quantity" (integer c.quantity) (
        field "used_count" (integer c.used) (
          field "successful_used_count" (integer c.successful_used) (
            field "legacy_used_count" (integer c.legacy_used) (
              field "reserved_count" (integer c.reserved) (
                field "remaining_count" (integer c.remaining) (
                  field "available_count" (integer c.available)
                    (field "exhausted" (boolean (eqb c.remaining 0)) empty)))))))))

unfoldable pub bucket_properties : UsageBucket → Fields
bucket_properties (paid_bucket b) = field "paid_allowance_usage_id" (text b.id) (
    field "allowance_id" (text b.allowance.allowance_id) (
      field "metric_key" (text b.allowance.metric_key)
        (field "unit" (text b.allowance.unit) empty)))
bucket_properties (guest_bucket b) = field "guest_quota_usage_id" (text b.id) (
    field "quota_policy_id" (text b.quota_policy_id) (
      field "quota_dimension" (text (dimension_value b.quota_dimension)) (
        field "quota_dimension_key" (text b.dimension_key)
          (field "period_key" (text b.period_key) (field "unit" (text "scenario_run") empty)))))

-- The arguments of `emit`, at the instant of the readback.
unfoldable pub bucket_event : ExecutionQuotaEvent → ConsumptionReadback → Fields → String → Emission
unfolding update state_properties bucket_properties
bucket_event event_type c properties result_status = record {
  event_type = event_value event_type;
  result_status = some result_status;
  properties = some (update (update properties (state_properties c)) (bucket_properties c.bucket));
  timestamp = some c.read_at;
  replay = false;
  event_id = none;
}

-- `guest_quota_usage_id`, or else the paid one
unfoldable pub original_bucket : ExecutionReservation → Option String
original_bucket r = elim r.guest_quota_usage_id [
  | none ↦ r.paid_allowance_usage_id
  | some k ↦ some k
]

module _ (sha256_hex : String → String) (casefold : String → String)
    (platform_events : List String) where
  unfoldable pub emit_bucket_quota_event :
      Minted
      → ExecutionQuotaEvent
      → ConsumptionReadback
      → ExecutionContext
      → Fields
      → String
      → Tx (Unit {0})
  unfolding emit_event bucket_event
  emit_bucket_quota_event m event_type c context properties result_status =
      emit_event sha256_hex casefold platform_events m 4
        (bucket_event event_type c properties result_status) context

  unfoldable pub emit_execution_quota_event :
      Minted → ExecutionQuotaEvent → ExecutionReservation → ExecutionContext → Tx (Unit {0})
  unfolding original_bucket read_consumption emit_bucket_quota_event
  emit_execution_quota_event m event_type r context = do
    bucket_id ←
        require_some (original_bucket r) (runtime_error "reservation lacks its original bucket")
    found ← read_consumption (m.clock 5) r.owner bucket_id
    state ← require_some found (runtime_error "reservation lacks its owned usage bucket")
    emit_bucket_quota_event m event_type state
        (record context { artifact_id = r.result_artifact_id })
        (field "reservation_id" (text r.id) (field "scenario_id" (text r.scenario_id) empty))
        (state_value r.state)

  unfoldable pub emit_capacity_reserved :
      Minted → ConsumptionReadback → ExecutionContext → String → Tx (Unit {0})
  unfolding emit_bucket_quota_event
  emit_capacity_reserved m c context scenario_id =
      emit_bucket_quota_event m quota_capacity_reserved c context
        (field "scenario_id" (text scenario_id)
          (field "error_code" (text "quota_capacity_reserved") empty))
        "failed"
