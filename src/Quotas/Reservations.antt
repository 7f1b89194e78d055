-- ===== src/Quotas/Reservations.antt =====
-- quotas/execution_repository.py: `ExecutionReservationRepository`, the reservation rows. Of the
-- table's constraints (storage/db.py) the primary key and the three unique ones are modelled.
use anytoolai_platform.Prelude.{
  String, ◌==◌, Bool, false, not, ◌&&◌, ◌||◌, Option, none, some, holds_text, is_none,
  if◌then◌else◌,
}
use anytoolai_platform.Prelude.Table.{select, find, exists, insert}
use anytoolai_platform.Store.{
  Store, value_error, runtime_error, integrity_error, ok, err, Tx, ◌>>=◌, ◌>>◌, pure, refuse_if,
  require_some,
}
use anytoolai_platform.Workflows.Models.{JobRecord, JobConsumptionMode, mode_eq, job_id}
use anytoolai_platform.Scenarios.Models.{ScenarioSessionRecord, session_id}
use anytoolai_platform.Quotas.Models.{
  product, dimension_eq, ExecutionOwnerKind, guest, portal_user, reserved, state_eq,
  ExecutionReplayNamespace, namespace_eq, ExecutionOwner, owner_eq, ExecutionReservation,
  reservation_key, QuotaUsageRecord, usage_key, PaidAllowanceUsageRecord, paid_key,
}

unfoldable pub get_by_job : String → Tx (Option ExecutionReservation)
get_by_job k s = ok (find (λ r. r.job_id == k) s.reservations, s)

-- SQL's `replay_namespace = n`
holds_namespace : Option ExecutionReplayNamespace → ExecutionReplayNamespace → Bool
holds_namespace none n = false
holds_namespace (some a) n = namespace_eq a n

-- The columns of the unique constraint `uq_execution_reservations_owner_replay`.
has_replay :
    ExecutionOwner
    → String
    → String
    → ExecutionReplayNamespace
    → String
    → ExecutionReservation
    → Bool
unfolding holds_namespace
has_replay o product_ scenario_ namespace key r =
    owner_eq r.owner o
    && r.product_id == product_
    && r.scenario_id == scenario_
    && holds_namespace r.replay_namespace namespace
    && holds_text r.replay_key key

unfoldable pub find_replay :
    ExecutionOwner
    → String
    → String
    → ExecutionReplayNamespace
    → String
    → Tx (Option ExecutionReservation)
unfolding has_replay
find_replay o product_ scenario_ namespace key s =
    ok (find (has_replay o product_ scenario_ namespace key) s.reservations, s)

-- The job is a reserved one, in the reservation's scope.
job_links : ExecutionReservation → JobRecord → Bool
job_links r j =
    j.scenario_session_id == r.scenario_session_id
    && mode_eq j.consumption_mode JobConsumptionMode.reserved
    && j.tenant_id == r.owner.tenant_id
    && j.region == r.owner.region
    && j.product_id == r.product_id
    && j.frontend_id == r.frontend_id

-- So is the session that it belongs to.
session_links : ExecutionReservation → ScenarioSessionRecord → Bool
session_links r x =
    x.tenant_id == r.owner.tenant_id
    && x.region == r.owner.region
    && x.product_id == r.product_id
    && x.frontend_id == r.frontend_id
    && x.scenario_id == r.scenario_id

-- The joined row exists, and a guest's session belongs to that guest.
unfoldable pub guest_links :
    ExecutionOwnerKind → ExecutionReservation → ScenarioSessionRecord → Tx (Unit {0})
guest_links guest r x =
    refuse_if (not (holds_text x.guest_id r.owner.owner_id))
      (value_error "reservation guest must match the scenario owner")
guest_links portal_user r x = pure tt

unfoldable pub joined_session : ExecutionReservation → Store → Option ScenarioSessionRecord
unfolding job_links session_links
joined_session r s = elim (select job_id r.job_id s.jobs) [
  | none ↦ none
  | some j ↦ elim (select session_id j.scenario_session_id s.sessions) [
    | none ↦ none
    | some x ↦ if job_links r j && session_links r x then some x else none
  ]
]

unfoldable pub require_execution_link : ExecutionReservation → Tx (Unit {0})
unfolding joined_session guest_links
require_execution_link r s = elim (joined_session r s) [
  | none ↦ err (value_error "reservation requires a reserved job and matching scenario dimensions")
  | some x ↦ guest_links r.owner.owner_kind r x s
]

guest_bucket_links : ExecutionReservation → QuotaUsageRecord → Bool
guest_bucket_links r b =
    b.guest_id == r.owner.owner_id
    && (dimension_eq b.quota_dimension product || holds_text b.scenario_id r.scenario_id)
    && b.tenant_id == r.owner.tenant_id
    && b.region == r.owner.region
    && b.product_id == r.product_id

paid_bucket_links : ExecutionReservation → PaidAllowanceUsageRecord → Bool
paid_bucket_links r b =
    b.allowance.owner.owner_id == r.owner.owner_id
    && b.allowance.owner.tenant_id == r.owner.tenant_id
    && b.allowance.owner.region == r.owner.region
    && b.allowance.product_id == r.product_id

linked_guest_bucket : ExecutionReservation → Store → Bool
unfolding guest_bucket_links
linked_guest_bucket r s = elim r.guest_quota_usage_id [
  | none ↦ false
  | some k ↦ elim (select usage_key k s.usages) [ none ↦ false | some b ↦ guest_bucket_links r b ]
]

linked_paid_bucket : ExecutionReservation → Store → Bool
unfolding paid_bucket_links
linked_paid_bucket r s = elim r.paid_allowance_usage_id [
  | none ↦ false
  | some k ↦ elim (select paid_key k s.allowances) [ none ↦ false | some b ↦ paid_bucket_links r b ]
]

-- The bucket is of the owner's kind, and is the only one.
unfoldable pub bucket_links : ExecutionOwnerKind → ExecutionReservation → Store → Bool
unfolding linked_guest_bucket linked_paid_bucket
bucket_links guest r s = is_none r.paid_allowance_usage_id && linked_guest_bucket r s
bucket_links portal_user r s = is_none r.guest_quota_usage_id && linked_paid_bucket r s

unfoldable pub require_bucket_link : ExecutionReservation → Tx (Unit {0})
unfolding bucket_links
require_bucket_link r s =
    if bucket_links r.owner.owner_kind r s
    then ok (tt, s)
    else err (value_error "reservation bucket must match owner, scope and product")

unfoldable pub validate_links : ExecutionReservation → Tx (Unit {0})
unfolding require_execution_link require_bucket_link
validate_links r = do require_execution_link r; require_bucket_link r

-- Both replay columns are set and a row of the same owner and scope has the same ones.
unfoldable pub replay_taken :
    Option ExecutionReplayNamespace → Option String → ExecutionReservation → Store → Bool
unfolding has_replay
replay_taken (some n) (some key) r s =
    exists (has_replay r.owner r.product_id r.scenario_id n key) s.reservations
replay_taken _ _ r s = false

unfoldable pub unique_taken : ExecutionReservation → Store → Bool
unfolding replay_taken
unique_taken r s =
    exists (λ x. x.scenario_session_id == r.scenario_session_id) s.reservations
    || exists (λ x. x.job_id == r.job_id) s.reservations
    || replay_taken r.replay_namespace r.replay_key r s

unfoldable pub insert_row : ExecutionReservation → Tx (Unit {0})
unfolding unique_taken
insert_row r s = elim (insert reservation_key r s.reservations) [
  | none ↦ err (integrity_error "execution_reservations primary key")
  | some rows ↦
      if unique_taken r s
      then err (integrity_error "execution_reservations unique constraint")
      else ok (tt, record s { reservations = rows })
]

unfoldable pub create : ExecutionReservation → Tx ExecutionReservation
unfolding validate_links insert_row get_by_job
create r = do
  refuse_if (not (state_eq r.state reserved))
      (value_error "new execution reservation must be reserved")
  validate_links r
  insert_row r
  stored ← get_by_job r.job_id
  require_some stored (runtime_error "execution reservation round-trip failed after create")
