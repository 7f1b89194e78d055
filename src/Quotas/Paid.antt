-- ===== src/Quotas/Paid.antt =====
-- quotas/execution_repository.py: `PaidAllowanceUsageRepository`, the paid allowance buckets. A
-- `PaidAllowance` always has a Portal owner, so its row holds the owner's kind too.
use anytoolai_platform.Prelude.{
  ℕ, ◌+◌, String, ◌==◌, Bool, true, false, not, ◌&&◌, Option, none, some, ltb, if◌then◌else◌, ◌≡◌,
  arith, Option-cases, inl, inr,
}
use anytoolai_platform.Prelude.Table.{select, find, exists, update_where, insert}
use anytoolai_platform.Store.{
  Store, value_error, runtime_error, integrity_error, no_result_found, ok, err, Tx, ◌>>=◌, ◌>>◌,
  pure, refuse_if, require_some,
}
use anytoolai_platform.Quotas.Models.{
  ExecutionOwner, PaidAllowance, allowance_eq, PaidAllowanceUsageRecord, paid_key,
}

-- The unique constraint `uq_paid_allowance_usage_scope_allowance`.
unfoldable pub has_allowance : String → String → String → PaidAllowanceUsageRecord → Bool
has_allowance tenant region allowance r =
    r.allowance.owner.tenant_id == tenant
    && r.allowance.owner.region == region
    && r.allowance.allowance_id == allowance

unfoldable pub get : String → String → String → Tx (Option PaidAllowanceUsageRecord)
unfolding has_allowance
get tenant region allowance s = ok (find (has_allowance tenant region allowance) s.allowances, s)

unfoldable pub owned_by : ExecutionOwner → PaidAllowanceUsageRecord → Bool
owned_by o r =
    r.allowance.owner.tenant_id == o.tenant_id
    && r.allowance.owner.region == o.region
    && r.allowance.owner.owner_id == o.owner_id

unfoldable pub only_if :
    (PaidAllowanceUsageRecord → Bool)
    → Option PaidAllowanceUsageRecord
    → Option PaidAllowanceUsageRecord
only_if test none = none
only_if test (some r) = if test r then some r else none

unfoldable pub get_owned : ExecutionOwner → String → Tx (Option PaidAllowanceUsageRecord)
unfolding owned_by only_if
get_owned o k s = ok (only_if (owned_by o) (select paid_key k s.allowances), s)

-- INSERT … ON CONFLICT (scope, allowance) DO NOTHING
unfoldable pub insert_binding : PaidAllowanceUsageRecord → Tx (Unit {0})
unfolding has_allowance
insert_binding r s =
    if exists
      (has_allowance r.allowance.owner.tenant_id r.allowance.owner.region r.allowance.allowance_id)
      s.allowances
    then ok (tt, s)
    else elim (insert paid_key r s.allowances) [
      | none ↦ err (integrity_error "paid_allowance_usage primary key")
      | some rows ↦ ok (tt, record s { allowances = rows })
    ]

unfoldable pub new_binding : PaidAllowance → String → ℕ → ℕ → PaidAllowanceUsageRecord
new_binding a new_id created updated = record {
  allowance = a;
  id = new_id;
  used_count = 0;
  reserved_count = 0;
  created_at = created;
  updated_at = updated;
}

-- The first binding of an allowance is immutable.
unfoldable pub ensure_usage : PaidAllowance → String → ℕ → ℕ → Tx PaidAllowanceUsageRecord
unfolding insert_binding new_binding get
ensure_usage a new_id created updated = do
  insert_binding (new_binding a new_id created updated)
  found ← get a.owner.tenant_id a.owner.region a.allowance_id
  stored ← require_some found (runtime_error "paid allowance round-trip failed after ensure")
  refuse_if (not (allowance_eq stored.allowance a))
      (value_error "paid allowance binding cannot change")
  pure stored

unfoldable pub has_capacity : PaidAllowanceUsageRecord → Bool
has_capacity r = ltb (r.used_count + r.reserved_count) r.allowance.quantity

unfoldable pub reserved_values : ℕ → PaidAllowanceUsageRecord → PaidAllowanceUsageRecord
reserved_values now r = record r { reserved_count = r.reserved_count + 1; updated_at = now }

-- SELECT id … FOR NO KEY UPDATE, by `scalar_one`
unfoldable pub lock_row : String → Tx (Unit {0})
lock_row k s = elim (select paid_key k s.allowances) [
  | none ↦ err (no_result_found "paid_allowance_usage")
  | some r ↦ ok (tt, s)
]

-- UPDATE paid_allowance_usage SET f WHERE id = k AND cond
unfoldable pub update_row :
    String
    → (PaidAllowanceUsageRecord → Bool)
    → (PaidAllowanceUsageRecord → PaidAllowanceUsageRecord)
    → Tx Bool
update_row k cond f s = elim (update_where paid_key k cond f s.allowances) [
  | none ↦ ok (false, s)
  | some rows ↦ ok (true, record s { allowances = rows })
]

unfoldable pub reserve_if_available : ℕ → PaidAllowanceUsageRecord → Tx Bool
unfolding lock_row update_row has_capacity reserved_values
reserve_if_available now r = do lock_row r.id; update_row r.id has_capacity (reserved_values now)

-- An UPDATE that changes a row writes that table and no other.
pub update_row-wrote :
    (k : String) (cond : PaidAllowanceUsageRecord → Bool)
    (f : PaidAllowanceUsageRecord → PaidAllowanceUsageRecord) (s t : Store)
    → update_row k cond f s ≡ ok (true, t)
    → (update_where paid_key k cond f s.allowances ≡ some t.allowances)
      × (t.reservations ≡ s.reservations)
      × (t.usages ≡ s.usages)
unfolding update_row
update_row-wrote k cond f s t e =
    elim (Option-cases (update_where paid_key k cond f s.allowances)) [
      | inl n ↦ absurd (ground arith)
      | inr (rows, y) ↦ (ground arith, ground arith, ground arith)
    ]
