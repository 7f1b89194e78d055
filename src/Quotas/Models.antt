-- ===== src/Quotas/Models.antt =====
-- quotas/models.py: the rows that count executions and reserve capacity. Instants are numbers. What
-- the constructors check of their fields is not part of the rows.
use anytoolai_platform.Prelude.{ℕ, String, Bool, true, false, Option, eqb, ◌==◌, ◌&&◌}
use anytoolai_platform.Json.{Fields}

pub data QuotaUnit : Type 0 where
  scenario_run : QuotaUnit

pub data QuotaPeriod : Type 0 where
  lifetime calendar_day calendar_week calendar_month : QuotaPeriod

pub data QuotaDimension : Type 0 where
  product scenario : QuotaDimension

abbrev pub dimension_eq : QuotaDimension → QuotaDimension → Bool
dimension_eq product product = true
dimension_eq scenario scenario = true
dimension_eq _ _ = false

pub data ExecutionOwnerKind : Type 0 where
  guest portal_user : ExecutionOwnerKind

abbrev pub kind_eq : ExecutionOwnerKind → ExecutionOwnerKind → Bool
kind_eq guest guest = true
kind_eq portal_user portal_user = true
kind_eq _ _ = false

pub data ReservationState : Type 0 where
  reserved consumed released : ReservationState

abbrev pub state_rank : ReservationState → ℕ
state_rank reserved = 0
state_rank consumed = 1
state_rank released = 2

-- `is` on two members of the enumeration
abbrev pub state_eq : ReservationState → ReservationState → Bool
state_eq a b = eqb (state_rank a) (state_rank b)

pub data ExecutionReplayNamespace : Type 0 where
  start handoff : ExecutionReplayNamespace

abbrev pub namespace_eq : ExecutionReplayNamespace → ExecutionReplayNamespace → Bool
namespace_eq start start = true
namespace_eq handoff handoff = true
namespace_eq _ _ = false

pub record ExecutionOwner : Type 0 where
  pub tenant_id : String
  pub region : String
  pub owner_kind : ExecutionOwnerKind
  pub owner_id : String

-- The dataclass equality.
abbrev pub owner_eq : ExecutionOwner → ExecutionOwner → Bool
owner_eq a b =
    a.tenant_id == b.tenant_id
    && a.region == b.region
    && kind_eq a.owner_kind b.owner_kind
    && a.owner_id == b.owner_id

pub record PaidAllowance : Type 0 where
  pub owner : ExecutionOwner
  pub allowance_id : String
  pub product_id : String
  pub metric_key : String
  pub unit : String
  pub quantity : ℕ

-- The dataclass equality.
abbrev pub allowance_eq : PaidAllowance → PaidAllowance → Bool
allowance_eq a b =
    owner_eq a.owner b.owner
    && a.allowance_id == b.allowance_id
    && a.product_id == b.product_id
    && a.metric_key == b.metric_key
    && a.unit == b.unit
    && eqb a.quantity b.quantity

pub record PaidAllowanceUsageRecord : Type 0 where
  pub allowance : PaidAllowance
  pub id : String
  pub used_count : ℕ
  pub reserved_count : ℕ
  pub created_at : ℕ
  pub updated_at : ℕ

abbrev pub paid_key : PaidAllowanceUsageRecord → String
paid_key r = r.id

pub record ExecutionReservation : Type 0 where
  pub owner : ExecutionOwner
  pub scenario_session_id : String
  pub job_id : String
  pub product_id : String
  pub scenario_id : String
  pub frontend_id : String
  pub guest_quota_usage_id : Option String
  pub paid_allowance_usage_id : Option String
  pub replay_namespace : Option ExecutionReplayNamespace
  pub replay_key : Option String
  pub request_hash : Option String
  pub handoff_id : Option String
  pub id : String
  pub state : ReservationState
  pub result_artifact_id : Option String
  pub created_at : ℕ
  pub updated_at : ℕ
  pub finalized_at : Option ℕ

abbrev pub reservation_key : ExecutionReservation → String
reservation_key r = r.id

pub record QuotaUsageRecord : Type 0 where
  pub tenant_id : String
  pub region : String
  pub guest_id : String
  pub product_id : String
  pub quota_policy_id : String
  pub quota_dimension : QuotaDimension
  pub dimension_key : String
  pub period_key : String
  pub limit_count : ℕ
  pub scenario_id : Option String
  pub id : String
  pub used_count : ℕ
  pub reserved_count : ℕ
  pub legacy_used_count : ℕ
  pub created_at : ℕ
  pub updated_at : ℕ
  pub metadata : Fields

abbrev pub usage_key : QuotaUsageRecord → String
usage_key r = r.id

-- `QuotaUsageRecord | PaidAllowanceUsageRecord`
pub data UsageBucket : Type 0 where
  guest_bucket : QuotaUsageRecord → UsageBucket
  paid_bucket : PaidAllowanceUsageRecord → UsageBucket

pub record ConsumptionReadback : Type 0 where
  pub owner : ExecutionOwner
  pub bucket : UsageBucket
  pub quantity : ℕ
  pub used : ℕ
  pub successful_used : ℕ
  pub legacy_used : ℕ
  pub reserved : ℕ
  pub remaining : ℕ
  pub available : ℕ
  pub read_at : ℕ

pub record ConsumptionTransition : Type 0 where
  pub applied : Bool
  pub reservation : ExecutionReservation
  pub became_exhausted : Bool
