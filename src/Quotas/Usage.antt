-- ===== src/Quotas/Usage.antt =====
-- quotas/repository.py: `QuotaUsageRepository`, the guest quota buckets.
use anytoolai_platform.Prelude.{
  ℕ, ◌+◌, String, ◌==◌, Bool, true, false, ◌&&◌, Option, none, some, eqb, ltb, if◌then◌else◌, ◌≡◌,
  arith, Option-cases, inl, inr,
}
use anytoolai_platform.Prelude.Table.{select, find, exists, update_where, insert}
use anytoolai_platform.Json.{Fields, empty}
use anytoolai_platform.Store.{
  Store, lookup_error, runtime_error, integrity_error, no_result_found, ok, err, Tx, ◌>>=◌, ◌>>◌,
  pure, refuse_if, require_some,
}
use anytoolai_platform.Quotas.Models.{
  QuotaDimension, dimension_eq, ExecutionOwner, QuotaUsageRecord, usage_key,
}

-- The columns of the unique constraint `guest_quota_usage` dimension.
pub record UsageDimension : Type 0 where
  pub tenant_id : String
  pub region : String
  pub guest_id : String
  pub product_id : String
  pub quota_policy_id : String
  pub quota_dimension : QuotaDimension
  pub dimension_key : String
  pub period_key : String

-- `_usage_dimension_filters`
unfoldable pub has_dimension : UsageDimension → QuotaUsageRecord → Bool
has_dimension d r =
    r.tenant_id == d.tenant_id
    && r.region == d.region
    && r.guest_id == d.guest_id
    && r.product_id == d.product_id
    && r.quota_policy_id == d.quota_policy_id
    && dimension_eq r.quota_dimension d.quota_dimension
    && r.dimension_key == d.dimension_key
    && r.period_key == d.period_key

unfoldable pub get : String → Tx (Option QuotaUsageRecord)
get k s = ok (select usage_key k s.usages, s)

unfoldable pub owned_by : ExecutionOwner → QuotaUsageRecord → Bool
owned_by o r = r.tenant_id == o.tenant_id && r.region == o.region && r.guest_id == o.owner_id

unfoldable pub only_if :
    (QuotaUsageRecord → Bool) → Option QuotaUsageRecord → Option QuotaUsageRecord
only_if test none = none
only_if test (some r) = if test r then some r else none

unfoldable pub get_owned : ExecutionOwner → String → Tx (Option QuotaUsageRecord)
unfolding owned_by only_if
get_owned o k s = ok (only_if (owned_by o) (select usage_key k s.usages), s)

unfoldable pub get_by_dimension : UsageDimension → Tx (Option QuotaUsageRecord)
unfolding has_dimension
get_by_dimension d s = ok (find (has_dimension d) s.usages, s)

-- `_require_stored_usage`
unfoldable pub require_stored_usage : Option QuotaUsageRecord → Tx QuotaUsageRecord
require_stored_usage stored = require_some stored (runtime_error "quota usage round-trip failed")

limit_values : ℕ → ℕ → QuotaUsageRecord → QuotaUsageRecord
limit_values limit now r = record r { limit_count = limit; updated_at = now }

any_row : QuotaUsageRecord → Bool
any_row r = true

-- UPDATE guest_quota_usage SET f WHERE id = k AND cond
unfoldable pub update_row :
    String → (QuotaUsageRecord → Bool) → (QuotaUsageRecord → QuotaUsageRecord) → Tx Bool
update_row k cond f s = elim (update_where usage_key k cond f s.usages) [
  | none ↦ ok (false, s)
  | some rows ↦ ok (true, record s { usages = rows })
]

write_limit : ℕ → ℕ → QuotaUsageRecord → Tx QuotaUsageRecord
unfolding update_row limit_values any_row get require_stored_usage
write_limit limit now r = do
  changed ← update_row r.id any_row (limit_values limit now)
  refuse_if (if changed then false else true) (lookup_error "quota usage not found")
  stored ← get r.id
  require_stored_usage stored

unfoldable pub sync_limit : ℕ → ℕ → QuotaUsageRecord → Tx QuotaUsageRecord
unfolding write_limit
sync_limit limit now r = if eqb r.limit_count limit then pure r else write_limit limit now r

-- INSERT … ON CONFLICT (dimension) DO NOTHING
unfoldable pub execute_usage_insert : UsageDimension → QuotaUsageRecord → Tx (Unit {0})
unfolding has_dimension
execute_usage_insert d r s =
    if exists (has_dimension d) s.usages then ok (tt, s) else elim (insert usage_key r s.usages) [
      | none ↦ err (integrity_error "guest_quota_usage primary key")
      | some rows ↦ ok (tt, record s { usages = rows })
    ]

unfoldable pub or_empty : Option Fields → Fields
or_empty none = empty
or_empty (some m) = m

-- The row that `ensure_usage` would insert: `new_id` and the two instants are its defaults.
unfoldable pub new_usage :
    UsageDimension → Option String → ℕ → Option Fields → String → ℕ → ℕ → QuotaUsageRecord
unfolding or_empty
new_usage d scenario limit metadata new_id created updated = record {
  tenant_id = d.tenant_id;
  region = d.region;
  guest_id = d.guest_id;
  product_id = d.product_id;
  quota_policy_id = d.quota_policy_id;
  quota_dimension = d.quota_dimension;
  dimension_key = d.dimension_key;
  period_key = d.period_key;
  limit_count = limit;
  scenario_id = scenario;
  id = new_id;
  used_count = 0;
  reserved_count = 0;
  legacy_used_count = 0;
  created_at = created;
  updated_at = updated;
  metadata = or_empty metadata;
}

-- The rest of `ensure_usage`, by whether the bucket exists.
unfoldable pub ensure_from :
    UsageDimension
    → Option String
    → ℕ
    → Option Fields
    → String
    → ℕ
    → ℕ
    → Option QuotaUsageRecord
    → Tx QuotaUsageRecord
unfolding new_usage execute_usage_insert get_by_dimension require_stored_usage sync_limit
ensure_from d scenario limit metadata new_id created updated (some existing) =
    sync_limit limit updated existing
ensure_from d scenario limit metadata new_id created updated none = do
  execute_usage_insert d (new_usage d scenario limit metadata new_id created updated)
  stored ← get_by_dimension d
  require_stored_usage stored

-- `updated` is the one instant that is read where the limit of an existing row changes, too.
unfoldable pub ensure_usage :
    UsageDimension → Option String → ℕ → Option Fields → String → ℕ → ℕ → Tx QuotaUsageRecord
unfolding get_by_dimension ensure_from
ensure_usage d scenario limit metadata new_id created updated = do
  existing ← get_by_dimension d
  ensure_from d scenario limit metadata new_id created updated existing

unfoldable pub has_capacity : QuotaUsageRecord → Bool
has_capacity r = ltb (r.used_count + r.reserved_count) r.limit_count

unfoldable pub reserved_values : ℕ → QuotaUsageRecord → QuotaUsageRecord
reserved_values now r = record r { reserved_count = r.reserved_count + 1; updated_at = now }

-- SELECT id … FOR NO KEY UPDATE, by `scalar_one`
unfoldable pub lock_row : String → Tx (Unit {0})
lock_row k s = elim (select usage_key k s.usages) [
  | none ↦ err (no_result_found "guest_quota_usage")
  | some r ↦ ok (tt, s)
]

unfoldable pub reserved_row : String → Bool → Tx (Option QuotaUsageRecord)
unfolding get require_stored_usage
reserved_row k false = pure none
reserved_row k true = do found ← get k; stored ← require_stored_usage found; pure (some stored)

unfoldable pub reserve_if_available : ℕ → QuotaUsageRecord → Tx (Option QuotaUsageRecord)
unfolding lock_row update_row has_capacity reserved_values reserved_row
reserve_if_available now r = do
  lock_row r.id
  changed ← update_row r.id has_capacity (reserved_values now)
  reserved_row r.id changed

-- An UPDATE that changes a row writes that table and no other.
pub update_row-wrote :
    (k : String) (cond : QuotaUsageRecord → Bool) (f : QuotaUsageRecord → QuotaUsageRecord)
    (s t : Store)
    → update_row k cond f s ≡ ok (true, t)
    → (update_where usage_key k cond f s.usages ≡ some t.usages)
      × (t.reservations ≡ s.reservations)
      × (t.allowances ≡ s.allowances)
unfolding update_row
update_row-wrote k cond f s t e = elim (Option-cases (update_where usage_key k cond f s.usages)) [
  | inl n ↦ absurd (ground arith)
  | inr (rows, y) ↦ (ground arith, ground arith, ground arith)
]
