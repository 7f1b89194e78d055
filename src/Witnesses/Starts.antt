-- ===== src/Witnesses/Starts.antt =====
-- Starts and quota states, on the sample rows.
use anytoolai_platform.Prelude.{◌≡◌, ◌==◌, String, Bool, refl, some, none, [], ◌∷◌}
use anytoolai_platform.Prelude.Table.{select, exists, insert, find}
use anytoolai_platform.Json.{empty}
use anytoolai_platform.Store.{Store, integrity_error, ok, err}
use anytoolai_platform.Scenarios.Models.{ScenarioSessionRecord}
use anytoolai_platform.Scenarios.Sessions.{get}
use anytoolai_platform.Scenarios.Idempotency.{
  IdempotencyKey, constrained_key, create, get_by_idempotency_key,
}
use anytoolai_platform.Scenarios.Idempotency.Starts.{started_once}
use anytoolai_platform.Quotas.Models.{QuotaUsageRecord, QuotaUnit, QuotaPeriod, QuotaDimension}
use anytoolai_platform.Quotas.States.{
  QuotaPolicy, ResolvedQuotaDimension, ResolvedQuotaPeriod, state_from_usage,
  state_from_empty_usage, get_usage, ensure_usage, usage_metadata,
}
use anytoolai_platform.Quotas.States.Fresh.{fresh_state_same}
use anytoolai_platform.Handoffs.Models.{HandoffRecord, HandoffStatus}
use anytoolai_platform.Handoffs.Repository
use anytoolai_platform.Handoffs.Repository.Tokens.{
  scope_of, get_by_token_hash, created_found_by_token,
}
use anytoolai_platform.Witnesses.Rows.{handoff, session, store, guest_owner}

abbrev keyed : ScenarioSessionRecord
keyed = record session { idempotency_key = some "key" }

abbrev again : ScenarioSessionRecord
again = record keyed { id = "s2"; created_at = 4 }

abbrev key : IdempotencyKey
key = record {
  tenant_id = "t1";
  region = "eu";
  product_id = "p1";
  scenario_id = "sc1";
  guest_id = some "g1";
  idempotency_key = "key";
}

abbrev no_sessions : Store
no_sessions = record store { sessions = [] }

abbrev one_session : Store
one_session = record store { sessions = keyed ∷ [] }

abbrev by_id : String → String → Bool
by_id a b = a == b

started_once_example :
    (get_by_idempotency_key by_id key one_session ≡ ok (some keyed, one_session))
    × (create again one_session ≡ err (integrity_error "uq_scenario_sessions_idempotency_key"))
unfolding constrained_key create insert select get exists
started_once_example =
    started_once by_id keyed again keyed key no_sessions one_session refl refl refl refl

abbrev policy : QuotaPolicy
policy = record {
  quota_policy_id = "q1";
  unit = QuotaUnit.scenario_run;
  limit_count = 3;
  period = QuotaPeriod.lifetime;
  dimension = QuotaDimension.product;
  schema_version = 1;
  metadata = empty;
}

abbrev dimension : ResolvedQuotaDimension
dimension = record {
  quota_dimension = QuotaDimension.product;
  dimension_key = "p1";
  scenario_id = none;
}

abbrev period : ResolvedQuotaPeriod
period = record {
  period = QuotaPeriod.lifetime;
  period_key = "lifetime";
  starts_at = none;
  ends_at = none;
}

abbrev no_usages : Store
no_usages = record store { usages = [] }

abbrev first_usage : QuotaUsageRecord
unfolding usage_metadata
first_usage = record {
  tenant_id = "t1";
  region = "eu";
  guest_id = "g1";
  product_id = "p1";
  quota_policy_id = "q1";
  quota_dimension = QuotaDimension.product;
  dimension_key = "p1";
  period_key = "lifetime";
  limit_count = 3;
  scenario_id = none;
  id = "u9";
  used_count = 0;
  reserved_count = 0;
  legacy_used_count = 0;
  created_at = 1;
  updated_at = 2;
  metadata = usage_metadata policy dimension;
}

fresh_state_same_example :
    state_from_usage 5 first_usage policy period
    ≡ state_from_empty_usage 5 "g1" "p1" policy dimension period
unfolding get_usage ensure_usage find exists insert select
fresh_state_same_example =
    fresh_state_same guest_owner "p1" policy dimension period "u9" 1 2 5 no_usages
      (record no_usages { usages = first_usage ∷ [] }) first_usage refl refl

-- The handoff of the sample store before anybody viewed it, and a store without handoffs.
abbrev new_handoff : HandoffRecord
new_handoff = record handoff { status = HandoffStatus.created; viewed_at = none }

abbrev handed_over : Store
handed_over = record store { handoffs = new_handoff ∷ [] }

created_found_by_token_example :
    get_by_token_hash (scope_of new_handoff) "hash" handed_over ≡ ok (some new_handoff, handed_over)
unfolding Repository.create exists insert select
created_found_by_token_example =
    created_found_by_token new_handoff new_handoff (record store { handoffs = [] }) handed_over refl
