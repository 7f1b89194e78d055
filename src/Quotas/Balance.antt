-- ===== src/Quotas/Balance.antt =====
-- When the books of the quota tables balance: the counters of each bucket are the numbers of the
-- reservations that hold it and that have spent it.
use anytoolai_platform.Prelude.{String, Bool, ◌&&◌, holds_text, List}
use anytoolai_platform.Prelude.Table.{count}
use anytoolai_platform.Store.{Store}
use anytoolai_platform.Quotas.Models.{
  guest, portal_user, kind_eq, reserved, consumed, state_eq, ExecutionReservation, QuotaUsageRecord,
  usage_key, PaidAllowanceUsageRecord, paid_key,
}
use anytoolai_platform.Quotas.Ledger.{Balanced}

-- The reservation draws on the guest bucket, or the paid one, of that id.
abbrev pub in_usage : String → ExecutionReservation → Bool
in_usage k r = kind_eq r.owner.owner_kind guest && holds_text r.guest_quota_usage_id k

abbrev pub in_allowance : String → ExecutionReservation → Bool
in_allowance k r = kind_eq r.owner.owner_kind portal_user && holds_text r.paid_allowance_usage_id k

abbrev pub holds_usage : String → ExecutionReservation → Bool
holds_usage k r = state_eq r.state reserved && in_usage k r

abbrev pub spent_usage : String → ExecutionReservation → Bool
spent_usage k r = state_eq r.state consumed && in_usage k r

abbrev pub holds_allowance : String → ExecutionReservation → Bool
holds_allowance k r = state_eq r.state reserved && in_allowance k r

abbrev pub spent_allowance : String → ExecutionReservation → Bool
spent_allowance k r = state_eq r.state consumed && in_allowance k r

-- The guest buckets against the reservations. What was used before reservations came is `legacy`.
abbrev pub UsagesBalance : List QuotaUsageRecord → List ExecutionReservation → Type 0
UsagesBalance rows rs =
    Balanced usage_key (λ b. b.reserved_count) (λ b. b.used_count) (λ b. b.legacy_used_count) rows
      (λ k. count (holds_usage k) rs) (λ k. count (spent_usage k) rs)

abbrev pub AllowancesBalance : List PaidAllowanceUsageRecord → List ExecutionReservation → Type 0
AllowancesBalance rows rs =
    Balanced paid_key (λ b. b.reserved_count) (λ b. b.used_count) (λ b. 0) rows
      (λ k. count (holds_allowance k) rs) (λ k. count (spent_allowance k) rs)

pub record IsBalanced (s : Store) : Type 0 where
  pub usages : UsagesBalance s.usages s.reservations
  pub allowances : AllowancesBalance s.allowances s.reservations
