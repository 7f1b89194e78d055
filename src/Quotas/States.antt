-- ===== src/Quotas/States.antt =====
-- quotas/service.py: the quota state that a client sees, from a stored bucket or from none. The
-- instants and identifiers that the code mints are arguments, as is the resolved period.
pub mod Fresh
use anytoolai_platform.Prelude.{
  ℕ, ◌-◌, String, ◌==◌, Bool, true, false, Option, none, some, eqb, leb, if◌then◌else◌,
}
use anytoolai_platform.Json.{Fields, empty, field, text}
use anytoolai_platform.Store.{Error, platform_error, Result, ok, err, Tx}
use anytoolai_platform.Quotas.Models.{
  QuotaUnit, scenario_run, QuotaPeriod, lifetime, calendar_day, calendar_week, calendar_month,
  QuotaDimension, product, scenario, ExecutionOwner, guest, QuotaUsageRecord, guest_bucket,
  ConsumptionReadback,
}
use anytoolai_platform.Quotas.Readback.{consumption_from_bucket}
use anytoolai_platform.Quotas.Usage.{UsageDimension}
use anytoolai_platform.Quotas.Usage

pub record QuotaPolicy : Type 0 where
  pub quota_policy_id : String
  pub unit : QuotaUnit
  pub limit_count : ℕ
  pub period : QuotaPeriod
  pub dimension : QuotaDimension
  pub schema_version : ℕ
  pub metadata : Fields

pub record ResolvedQuotaPeriod : Type 0 where
  pub period : QuotaPeriod
  pub period_key : String
  pub starts_at : Option ℕ
  pub ends_at : Option ℕ

pub record ResolvedQuotaDimension : Type 0 where
  pub quota_dimension : QuotaDimension
  pub dimension_key : String
  pub scenario_id : Option String

pub record QuotaState : Type 0 where
  pub guest_id : String
  pub product_id : String
  pub quota_policy_id : String
  pub quota_dimension : QuotaDimension
  pub dimension_key : String
  pub scenario_id : Option String
  pub unit : QuotaUnit
  pub period : QuotaPeriod
  pub period_key : String
  pub limit_count : ℕ
  pub used_count : ℕ
  pub successful_used_count : ℕ
  pub legacy_used_count : ℕ
  pub reserved_count : ℕ
  pub available_count : ℕ
  pub remaining_count : ℕ
  pub exhausted : Bool
  pub resets_at : Option ℕ
  pub read_at : ℕ

-- By the policy's dimension; a scenario's needs the scenario (`if not scenario_id`).
unfoldable pub resolve_scenario_dimension : Option String → Result ResolvedQuotaDimension
resolve_scenario_dimension none = err (platform_error "quota_dimension_required")
resolve_scenario_dimension (some k) =
    if k == ""
    then err (platform_error "quota_dimension_required")
    else ok (record { quota_dimension = scenario; dimension_key = k; scenario_id = some k })

unfoldable pub dimension_of :
    QuotaDimension → String → Option String → Result ResolvedQuotaDimension
unfolding resolve_scenario_dimension
dimension_of product product_id scenario_id =
    ok (record { quota_dimension = product; dimension_key = product_id; scenario_id = none })
dimension_of scenario product_id scenario_id = resolve_scenario_dimension scenario_id

unfoldable pub resolve_dimension :
    QuotaPolicy → String → Option String → Result ResolvedQuotaDimension
unfolding dimension_of
resolve_dimension policy product_id scenario_id =
    dimension_of policy.dimension product_id scenario_id

abbrev pub unit_value : QuotaUnit → String
unit_value scenario_run = "scenario_run"

abbrev pub period_value : QuotaPeriod → String
period_value lifetime = "lifetime"
period_value calendar_day = "calendar_day"
period_value calendar_week = "calendar_week"
period_value calendar_month = "calendar_month"

abbrev pub dimension_value : QuotaDimension → String
dimension_value product = "product"
dimension_value scenario = "scenario"

unfoldable pub usage_metadata : QuotaPolicy → ResolvedQuotaDimension → Fields
usage_metadata policy d = field "unit" (text (unit_value policy.unit)) (
    field "period" (text (period_value policy.period)) (
      field "quota_dimension" (text (dimension_value d.quota_dimension))
        (field "dimension_key" (text d.dimension_key) empty)))

-- The arguments that `_ensure_usage` and `_get_usage` pass on.
unfoldable pub usage_dimension :
    ExecutionOwner
    → String
    → QuotaPolicy
    → ResolvedQuotaDimension
    → ResolvedQuotaPeriod
    → UsageDimension
usage_dimension o product_id policy d p = record {
  tenant_id = o.tenant_id;
  region = o.region;
  guest_id = o.owner_id;
  product_id = product_id;
  quota_policy_id = policy.quota_policy_id;
  quota_dimension = d.quota_dimension;
  dimension_key = d.dimension_key;
  period_key = p.period_key;
}

unfoldable pub ensure_usage :
    ExecutionOwner
    → String
    → QuotaPolicy
    → ResolvedQuotaDimension
    → ResolvedQuotaPeriod
    → String
    → ℕ
    → ℕ
    → Tx QuotaUsageRecord
unfolding usage_dimension usage_metadata Usage.ensure_usage
ensure_usage o product_id policy d p new_id created updated =
    Usage.ensure_usage (usage_dimension o product_id policy d p) d.scenario_id policy.limit_count
      (some (usage_metadata policy d)) new_id created updated

unfoldable pub get_usage :
    ExecutionOwner
    → String
    → QuotaPolicy
    → ResolvedQuotaDimension
    → ResolvedQuotaPeriod
    → Tx (Option QuotaUsageRecord)
unfolding usage_dimension Usage.get_by_dimension
get_usage o product_id policy d p = Usage.get_by_dimension (usage_dimension o product_id policy d p)

unfoldable pub owner_of : QuotaUsageRecord → ExecutionOwner
owner_of r = record {
  tenant_id = r.tenant_id;
  region = r.region;
  owner_kind = guest;
  owner_id = r.guest_id;
}

-- The state under the policy's limit, whatever limit the row was stored with.
unfoldable pub state_from_usage :
    ℕ → QuotaUsageRecord → QuotaPolicy → ResolvedQuotaPeriod → QuotaState
unfolding consumption_from_bucket owner_of
state_from_usage now r policy p =
    let readback : ConsumptionReadback =
      consumption_from_bucket now (owner_of r)
        (guest_bucket (record r { limit_count = policy.limit_count })) in
    record {
      guest_id = r.guest_id;
      product_id = r.product_id;
      quota_policy_id = r.quota_policy_id;
      quota_dimension = r.quota_dimension;
      dimension_key = r.dimension_key;
      scenario_id = r.scenario_id;
      unit = policy.unit;
      period = policy.period;
      period_key = r.period_key;
      limit_count = policy.limit_count;
      used_count = r.used_count;
      successful_used_count = readback.successful_used;
      legacy_used_count = readback.legacy_used;
      reserved_count = readback.reserved;
      available_count = readback.available;
      remaining_count = readback.remaining;
      exhausted = eqb readback.remaining 0;
      resets_at = p.ends_at;
      read_at = readback.read_at;
    }

unfoldable pub state_from_empty_usage :
    ℕ → String → String → QuotaPolicy → ResolvedQuotaDimension → ResolvedQuotaPeriod → QuotaState
state_from_empty_usage now guest_id product_id policy d p = record {
  guest_id = guest_id;
  product_id = product_id;
  quota_policy_id = policy.quota_policy_id;
  quota_dimension = d.quota_dimension;
  dimension_key = d.dimension_key;
  scenario_id = d.scenario_id;
  unit = policy.unit;
  period = policy.period;
  period_key = p.period_key;
  limit_count = policy.limit_count;
  used_count = 0;
  successful_used_count = 0;
  legacy_used_count = 0;
  reserved_count = 0;
  available_count = policy.limit_count;
  remaining_count = policy.limit_count;
  exhausted = leb policy.limit_count 0;
  resets_at = p.ends_at;
  read_at = now;
}
