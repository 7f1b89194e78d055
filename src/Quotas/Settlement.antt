-- ===== src/Quotas/Settlement.antt =====
-- quotas/finalization.py: the terminal transition of a reservation and of its bucket.
pub mod Steps
use anytoolai_platform.Prelude.{
  ℕ, ◌+◌, ◌-◌, String, Bool, true, false, not, ◌&&◌, ◌||◌, Option, none, some, ltb, leb, opt_eq,
  one_if,
}
use anytoolai_platform.Prelude.Table.{select, update_where}
use anytoolai_platform.Store.{
  runtime_error, no_result_found, ok, err, Tx, ◌>>=◌, ◌>>◌, pure, raise, refuse_if,
}
use anytoolai_platform.Workflows.Models.{
  JobStatus, succeeded, failed, canceled, status_eq, JobRecord,
}
use anytoolai_platform.Quotas.Models.{
  ExecutionOwnerKind, guest, portal_user, ReservationState, reserved, consumed, state_eq,
  ExecutionReservation, reservation_key, QuotaUsageRecord, usage_key, PaidAllowanceUsageRecord,
  paid_key, ConsumptionTransition,
}
use anytoolai_platform.Quotas.Usage
use anytoolai_platform.Quotas.Paid

-- The table and row that a reservation holds capacity in.
pub data BucketLink : Type 0 where
  in_usages in_allowances : String → BucketLink

guest_link : Option String → Tx BucketLink
guest_link none = raise (runtime_error "reservation lacks its original bucket")
guest_link (some k) = pure (in_usages k)

paid_link : Option String → Tx BucketLink
paid_link none = raise (runtime_error "reservation lacks its original bucket")
paid_link (some k) = pure (in_allowances k)

bucket_of_kind : ExecutionOwnerKind → ExecutionReservation → Tx BucketLink
unfolding guest_link paid_link
bucket_of_kind guest r = guest_link r.guest_quota_usage_id
bucket_of_kind portal_user r = paid_link r.paid_allowance_usage_id

-- `_bucket`
unfoldable pub bucket : ExecutionReservation → Tx BucketLink
unfolding bucket_of_kind
bucket r = bucket_of_kind r.owner.owner_kind r

-- The used count and the quantity of the bucket, by `one()`.
unfoldable pub read_counts : BucketLink → Tx (ℕ × ℕ)
read_counts (in_usages k) s = elim (select usage_key k s.usages) [
  | none ↦ err (no_result_found "guest_quota_usage")
  | some b ↦ ok ((b.used_count, b.limit_count), s)
]
read_counts (in_allowances k) s = elim (select paid_key k s.allowances) [
  | none ↦ err (no_result_found "paid_allowance_usage")
  | some b ↦ ok ((b.used_count, b.allowance.quantity), s)
]

unfoldable pub guest_holds : QuotaUsageRecord → Bool
guest_holds b = ltb 0 b.reserved_count

unfoldable pub paid_holds : PaidAllowanceUsageRecord → Bool
paid_holds b = ltb 0 b.reserved_count

unfoldable pub settled_guest : Bool → ℕ → QuotaUsageRecord → QuotaUsageRecord
settled_guest consume now b = record b {
  reserved_count = b.reserved_count - 1;
  used_count = b.used_count + one_if consume;
  updated_at = now;
}

unfoldable pub settled_paid : Bool → ℕ → PaidAllowanceUsageRecord → PaidAllowanceUsageRecord
settled_paid consume now b = record b {
  reserved_count = b.reserved_count - 1;
  used_count = b.used_count + one_if consume;
  updated_at = now;
}

-- UPDATE of the counters WHERE the bucket holds a reservation
unfoldable pub settle_bucket : Bool → ℕ → BucketLink → Tx Bool
unfolding guest_holds paid_holds settled_guest settled_paid
settle_bucket consume now (in_usages k) = Usage.update_row k guest_holds (settled_guest consume now)
settle_bucket consume now (in_allowances k) =
    Paid.update_row k paid_holds (settled_paid consume now)

unfoldable pub is_reserved : ExecutionReservation → Bool
is_reserved r = state_eq r.state reserved

unfoldable pub final_values :
    ReservationState → Option String → ℕ → ExecutionReservation → ExecutionReservation
final_values state artifact now r = record r {
  state = state;
  result_artifact_id = artifact;
  finalized_at = some now;
  updated_at = now;
}

-- UPDATE execution_reservations WHERE the row is still reserved
unfoldable pub settle_reservation : ReservationState → Option String → ℕ → String → Tx Bool
unfolding is_reserved final_values
settle_reservation state artifact now k s =
    elim (update_where reservation_key k is_reserved (final_values state artifact now)
      s.reservations) [
        | none ↦ ok (false, s)
        | some rows ↦ ok (true, record s { reservations = rows })
      ]

-- `_transition`
unfoldable pub transition :
    ℕ → ExecutionReservation → ReservationState → Option String → Tx ConsumptionTransition
unfolding bucket read_counts settle_bucket settle_reservation
transition now r state artifact = do
  link ← bucket r
  counts ← read_counts link
  settled ← settle_bucket (state_eq state consumed) now link
  refuse_if (not settled) (runtime_error "reservation counter integrity failure")
  arbitrated ← settle_reservation state artifact now r.id
  refuse_if (not arbitrated) (runtime_error "reservation terminal arbitration failure")
  pure (record {
    applied = true;
    reservation = final_values state artifact now r;
    became_exhausted =
        state_eq state consumed && ltb counts.0 counts.1 && leb counts.1 (counts.0 + 1);
  })

unfoldable pub is_failed_or_canceled : JobStatus → Bool
is_failed_or_canceled a = status_eq a failed || status_eq a canceled

replay_of : ReservationState → JobRecord → ExecutionReservation → Tx ConsumptionTransition
unfolding is_failed_or_canceled
replay_of consumed j r = do
  refuse_if (not (status_eq j.status succeeded && opt_eq j.result_artifact_id r.result_artifact_id))
      (runtime_error "consumed reservation lacks its durable succeeded job")
  pure (record { applied = false; reservation = r; became_exhausted = false })
replay_of _ j r = do
  refuse_if (not (is_failed_or_canceled j.status))
      (runtime_error "released reservation lacks its durable terminal job")
  pure (record { applied = false; reservation = r; became_exhausted = false })

-- `_terminal_replay`
unfoldable pub terminal_replay : JobRecord → ExecutionReservation → Tx ConsumptionTransition
unfolding replay_of
terminal_replay j r = replay_of r.state j r
