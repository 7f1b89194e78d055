-- ===== src/Quotas/Admission.antt =====
-- The readback of a bucket, against its admission of one more execution.
use anytoolai_platform.Prelude.{
  ℕ, ◌≡◌, refl, ap, ◌∙◌, if◌then◌else◌, Bool, true, false, Option, none, some, ltb, arith,
  Bool-cases, inl, inr,
}
use anytoolai_platform.Prelude.Table.{select, modify, update_where_at, select-modify_self}
use anytoolai_platform.Store.{Store, Result, ok, err, >>=-ok}
use anytoolai_platform.Quotas.Models.{
  ExecutionOwner, QuotaUsageRecord, usage_key, PaidAllowanceUsageRecord, paid_key, guest_bucket,
  paid_bucket,
}
use anytoolai_platform.Quotas.Readback.{consumption_from_bucket}
use anytoolai_platform.Quotas.Usage
use anytoolai_platform.Quotas.Paid

-- Whether the guest bucket gave, and the paid one.
abbrev pub guest_admitted : Result (Option QuotaUsageRecord × Store) → Bool
guest_admitted (ok (some r, s)) = true
guest_admitted _ = false

abbrev pub paid_admitted : Result (Bool × Store) → Bool
paid_admitted (ok (b, s)) = b
paid_admitted (err e) = false

module _ (now : ℕ) (r x : QuotaUsageRecord) (s : Store)
    (there : select usage_key r.id s.usages ≡ some x) where
  locked : Usage.lock_row r.id s ≡ ok (tt, s)
  unfolding Usage.lock_row
  locked = rw (there, Usage.lock_row) refl

  abbrev admitted_store : Store
  admitted_store = record s { usages = modify usage_key r.id (Usage.reserved_values now) s.usages }

  wrote :
      Usage.has_capacity x ≡ true
      → Usage.update_row r.id Usage.has_capacity (Usage.reserved_values now) s
        ≡ ok (true, admitted_store)
  unfolding Usage.update_row
  wrote c =
      rw
        (
          update_where_at usage_key r.id Usage.has_capacity (Usage.reserved_values now) s.usages x
              true there c,
          Usage.update_row,
        )
        refl

  wrote_nothing :
      Usage.has_capacity x ≡ false
      → Usage.update_row r.id Usage.has_capacity (Usage.reserved_values now) s ≡ ok (false, s)
  unfolding Usage.update_row
  wrote_nothing c =
      rw
        (
          update_where_at usage_key r.id Usage.has_capacity (Usage.reserved_values now) s.usages x
              false there c,
          Usage.update_row,
        )
        refl

  read_back :
      Usage.reserved_row r.id true admitted_store
      ≡ ok (some (Usage.reserved_values now x), admitted_store)
  unfolding Usage.reserved_row Usage.get Usage.require_stored_usage Usage.reserved_values
  read_back =
      rw
        (select-modify_self usage_key (Usage.reserved_values now) (λ b. refl) r.id s.usages x there)
        refl

  guest_hit :
      Usage.has_capacity x ≡ true → guest_admitted (Usage.reserve_if_available now r s) ≡ true
  unfolding Usage.reserve_if_available
  guest_hit c = ap guest_admitted (
      >>=-ok (Usage.lock_row r.id) _ s s tt locked
      ∙ >>=-ok (Usage.update_row r.id Usage.has_capacity (Usage.reserved_values now))
          (Usage.reserved_row r.id) s admitted_store true (wrote c)
      ∙ read_back)

  guest_miss :
      Usage.has_capacity x ≡ false → guest_admitted (Usage.reserve_if_available now r s) ≡ false
  unfolding Usage.reserve_if_available Usage.reserved_row
  guest_miss c = ap guest_admitted (
      >>=-ok (Usage.lock_row r.id) _ s s tt locked
      ∙ >>=-ok (Usage.update_row r.id Usage.has_capacity (Usage.reserved_values now))
          (Usage.reserved_row r.id) s s false (wrote_nothing c))

-- A stored guest bucket admits one more execution exactly if a readback of it shows some as
-- available.
pub guest_admits_available :
    (now : ℕ) (o : ExecutionOwner) (r x : QuotaUsageRecord) (s : Store)
    → select usage_key r.id s.usages ≡ some x
    → guest_admitted (Usage.reserve_if_available now r s)
      ≡ ltb 0 (consumption_from_bucket now o (guest_bucket x)).available
unfolding consumption_from_bucket Usage.has_capacity
guest_admits_available now o r x s there = elim (Bool-cases (Usage.has_capacity x)) [
  | inl c ↦ guest_hit now r x s there c ∙ ground arith
  | inr c ↦ guest_miss now r x s there c ∙ ground arith
]

module _ (now : ℕ) (r x : PaidAllowanceUsageRecord) (s : Store)
    (there : select paid_key r.id s.allowances ≡ some x) (b : Bool) where
  paid_locked : Paid.lock_row r.id s ≡ ok (tt, s)
  unfolding Paid.lock_row
  paid_locked = rw (there, Paid.lock_row) refl

  paid_update :
      Paid.has_capacity x ≡ b
      → paid_admitted (Paid.update_row r.id Paid.has_capacity (Paid.reserved_values now) s) ≡ b
  unfolding Paid.update_row
  paid_update c =
      rw
        (
          update_where_at paid_key r.id Paid.has_capacity (Paid.reserved_values now) s.allowances x
              b there c,
          Paid.update_row,
          paid_admitted,
        )
        (if_written b)
    where
      if_written :
          (b : Bool)
          → paid_admitted
              (elim (if b
                  then some (modify paid_key r.id (Paid.reserved_values now) s.allowances)
                  else none)
                as (λ z. Result (Bool × Store)) [
                  | none ↦ ok (false, s)
                  | some rows ↦ ok (true, record s { allowances = rows })
                ])
            ≡ b
      if_written true = refl
      if_written false = refl

  paid_result : Paid.has_capacity x ≡ b → paid_admitted (Paid.reserve_if_available now r s) ≡ b
  unfolding Paid.reserve_if_available
  paid_result c =
      ap paid_admitted (
        >>=-ok (Paid.lock_row r.id)
          (λ _. Paid.update_row r.id Paid.has_capacity (Paid.reserved_values now)) s s tt
          paid_locked)
      ∙ paid_update c

-- A stored paid bucket admits one more execution exactly if a readback of it shows some as
-- available.
pub paid_admits_available :
    (now : ℕ) (o : ExecutionOwner) (r x : PaidAllowanceUsageRecord) (s : Store)
    → select paid_key r.id s.allowances ≡ some x
    → paid_admitted (Paid.reserve_if_available now r s)
      ≡ ltb 0 (consumption_from_bucket now o (paid_bucket x)).available
unfolding consumption_from_bucket Paid.has_capacity
paid_admits_available now o r x s there = elim (Bool-cases (Paid.has_capacity x)) [
  | inl c ↦ paid_result now r x s there true c ∙ ground arith
  | inr c ↦ paid_result now r x s there false c ∙ ground arith
]
