-- ===== src/Quotas/Isolation.antt =====
-- The owners of the buckets that a readback shows.
use anytoolai_platform.Prelude.{
  ℕ, String, ◌≡◌, refl, sym, some, arith, eq_iff, Option-cases, Bool-cases, inl, inr,
}
use mathlib.Core.Path.{subst}
use anytoolai_platform.Prelude.Table.{select}
use anytoolai_platform.Store.{Store, ok}
use anytoolai_platform.Quotas.Models.{
  usage_key, paid_key, ExecutionOwner, ExecutionOwnerKind, guest, portal_user, UsageBucket,
  guest_bucket, paid_bucket, ConsumptionReadback,
}
use anytoolai_platform.Quotas.Readback.{
  read_consumption, consumption_from_bucket, read_kind, read_guest, read_paid,
}
use anytoolai_platform.Quotas.Usage
use anytoolai_platform.Quotas.Paid

-- The owner of the bucket: it names the tenant, the region and the guest or the portal user (a paid
-- allowance always has a portal user).
abbrev pub IsOwnedBy : ExecutionOwner → UsageBucket → Type 0
IsOwnedBy o (guest_bucket r) =
    (o.owner_kind ≡ guest)
    × (r.tenant_id ≡ o.tenant_id)
    × (r.region ≡ o.region)
    × (r.guest_id ≡ o.owner_id)
IsOwnedBy o (paid_bucket r) =
    (o.owner_kind ≡ portal_user)
    × (r.allowance.owner.tenant_id ≡ o.tenant_id)
    × (r.allowance.owner.region ≡ o.region)
    × (r.allowance.owner.owner_id ≡ o.owner_id)

guest_read :
    (now : ℕ) (o : ExecutionOwner) (k : String) (s t : Store) (c : ConsumptionReadback)
    → o.owner_kind ≡ guest
    → read_kind guest now o k s ≡ ok (some c, t)
    → IsOwnedBy o c.bucket
unfolding read_kind Usage.get_owned read_guest consumption_from_bucket Usage.only_if Usage.owned_by
guest_read now o k s t c kind e = elim (Option-cases (select usage_key k s.usages)) [
  | inl n ↦ absurd (ground arith)
  | inr (r, y) ↦ elim (Bool-cases (Usage.owned_by o r)) [
    | inl mine ↦
        let same : c.bucket ≡ guest_bucket r = ground arith in
        subst (IsOwnedBy o) (sym same) (
          kind,
          ground (arith, eq_iff r.tenant_id o.tenant_id),
          ground (arith, eq_iff r.region o.region),
          ground (arith, eq_iff r.guest_id o.owner_id),
        )
    | inr other ↦ absurd (ground arith)
  ]
]

paid_read :
    (now : ℕ) (o : ExecutionOwner) (k : String) (s t : Store) (c : ConsumptionReadback)
    → o.owner_kind ≡ portal_user
    → read_kind portal_user now o k s ≡ ok (some c, t)
    → IsOwnedBy o c.bucket
unfolding read_kind Paid.get_owned read_paid consumption_from_bucket Paid.only_if Paid.owned_by
paid_read now o k s t c kind e = elim (Option-cases (select paid_key k s.allowances)) [
  | inl n ↦ absurd (ground arith)
  | inr (r, y) ↦ elim (Bool-cases (Paid.owned_by o r)) [
    | inl mine ↦
        let same : c.bucket ≡ paid_bucket r = ground arith in
        subst (IsOwnedBy o) (sym same) (
          kind,
          ground (arith, eq_iff r.allowance.owner.tenant_id o.tenant_id),
          ground (arith, eq_iff r.allowance.owner.region o.region),
          ground (arith, eq_iff r.allowance.owner.owner_id o.owner_id),
        )
    | inr other ↦ absurd (ground arith)
  ]
]

read_of_kind :
    (kind : ExecutionOwnerKind) (now : ℕ) (o : ExecutionOwner) (k : String) (s t : Store)
    (c : ConsumptionReadback)
    → o.owner_kind ≡ kind
    → read_kind kind now o k s ≡ ok (some c, t)
    → IsOwnedBy o c.bucket
read_of_kind guest now o k s t c kind e = guest_read now o k s t c kind e
read_of_kind portal_user now o k s t c kind e = paid_read now o k s t c kind e

-- Whatever identifier an owner asks with, a bucket that a readback shows is of the owner's kind, and
-- in the owner's tenant, region and name.
pub read_consumption-IsOwnedBy :
    (now : ℕ) (o : ExecutionOwner) (k : String) (s t : Store) (c : ConsumptionReadback)
    → read_consumption now o k s ≡ ok (some c, t)
    → IsOwnedBy o c.bucket
unfolding read_consumption
read_consumption-IsOwnedBy now o k s t c e = read_of_kind o.owner_kind now o k s t c refl e
