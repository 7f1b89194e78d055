-- ===== src/Quotas/Readback.antt =====
-- quotas/readback.py: the counters of a bucket as a client reads them. A row's legacy count is at
-- most its used count (a check constraint of the table), so the difference of the two is exact.
use anytoolai_platform.Prelude.{ℕ, ◌-◌, String, Option, none, some}
use anytoolai_platform.Store.{Tx, ◌>>=◌, pure}
use anytoolai_platform.Quotas.Models.{
  ExecutionOwnerKind, guest, portal_user, ExecutionOwner, UsageBucket, guest_bucket, paid_bucket,
  ConsumptionReadback, QuotaUsageRecord, PaidAllowanceUsageRecord,
}
use anytoolai_platform.Quotas.Usage
use anytoolai_platform.Quotas.Paid

quantity_of : UsageBucket → ℕ
quantity_of (guest_bucket r) = r.limit_count
quantity_of (paid_bucket r) = r.allowance.quantity

legacy_of : UsageBucket → ℕ
legacy_of (guest_bucket r) = r.legacy_used_count
legacy_of (paid_bucket r) = 0

used_of : UsageBucket → ℕ
used_of (guest_bucket r) = r.used_count
used_of (paid_bucket r) = r.used_count

reserved_of : UsageBucket → ℕ
reserved_of (guest_bucket r) = r.reserved_count
reserved_of (paid_bucket r) = r.reserved_count

-- `max(a - b, 0)` is the subtraction of natural numbers.
unfoldable pub consumption_from_bucket : ℕ → ExecutionOwner → UsageBucket → ConsumptionReadback
unfolding quantity_of legacy_of used_of reserved_of
consumption_from_bucket now o b = record {
  owner = o;
  bucket = b;
  quantity = quantity_of b;
  used = used_of b;
  successful_used = used_of b - legacy_of b;
  legacy_used = legacy_of b;
  reserved = reserved_of b;
  remaining = quantity_of b - used_of b;
  available = quantity_of b - used_of b - reserved_of b;
  read_at = now;
}

unfoldable pub read_guest :
    ℕ → ExecutionOwner → Option QuotaUsageRecord → Option ConsumptionReadback
unfolding consumption_from_bucket
read_guest now o none = none
read_guest now o (some r) = some (consumption_from_bucket now o (guest_bucket r))

unfoldable pub read_paid :
    ℕ → ExecutionOwner → Option PaidAllowanceUsageRecord → Option ConsumptionReadback
unfolding consumption_from_bucket
read_paid now o none = none
read_paid now o (some r) = some (consumption_from_bucket now o (paid_bucket r))

unfoldable pub read_kind :
    ExecutionOwnerKind → ℕ → ExecutionOwner → String → Tx (Option ConsumptionReadback)
unfolding read_guest read_paid
read_kind portal_user now o k = do row ← Paid.get_owned o k; pure (read_paid now o row)
read_kind guest now o k = do row ← Usage.get_owned o k; pure (read_guest now o row)

unfoldable pub read_consumption : ℕ → ExecutionOwner → String → Tx (Option ConsumptionReadback)
unfolding read_kind
read_consumption now o k = read_kind o.owner_kind now o k
