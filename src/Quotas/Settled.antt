-- ===== src/Quotas/Settled.antt =====
-- The books of the quota tables after the terminal transition of a reservation.
use mathlib.Core.Path.{subst}
use anytoolai_platform.Prelude.{
  ℕ, String, ◌≡◌, ◌≢◌, refl, Bool, true, Option, some, arith, one_if, Option-cases, inl, inr,
}
use anytoolai_platform.Prelude.Table.{select, update_where}
use anytoolai_platform.Store.{after, Store, ok}
use anytoolai_platform.Store.Commits.{after-Commits}
use anytoolai_platform.Quotas.Models.{
  guest, portal_user, ReservationState, reserved, consumed, state_eq, ExecutionReservation,
  reservation_key, usage_key, paid_key, QuotaUsageRecord, PaidAllowanceUsageRecord,
}
use anytoolai_platform.Quotas.Ledger.{Balanced-update_where, Shifts, Balanced-same}
use anytoolai_platform.Quotas.Balance.{IsBalanced}
use anytoolai_platform.Quotas.Tallies.{
  usage_link, allowance_link, usage_tallies, allowance_tallies, allowances_untouched,
  usages_untouched,
}
use anytoolai_platform.Quotas.Usage
use anytoolai_platform.Quotas.Paid
use anytoolai_platform.Quotas.Settlement.Steps.{Commits-transition}
use anytoolai_platform.Quotas.Settlement.{
  BucketLink, in_usages, in_allowances, bucket, guest_holds, paid_holds, settled_guest,
  settled_paid, settle_bucket, settle_reservation, transition, is_reserved, final_values,
}

guest-Shifts :
    (consume : Bool) (now : ℕ) (b : QuotaUsageRecord)
    → guest_holds b ≡ true
    → Shifts
        (λ x. x.reserved_count)
        (λ x. x.used_count)
        (λ x. x.legacy_used_count)
        0
        1
        (one_if consume)
        b
        (settled_guest consume now b)
unfolding guest_holds settled_guest
guest-Shifts consume now b h = record {
  held_shift = ground arith;
  used_shift = refl;
  base_same = refl;
}

paid-Shifts :
    (consume : Bool) (now : ℕ) (b : PaidAllowanceUsageRecord)
    → paid_holds b ≡ true
    → Shifts
        (λ x. x.reserved_count)
        (λ x. x.used_count)
        (λ x. 0)
        0
        1
        (one_if consume)
        b
        (settled_paid consume now b)
unfolding paid_holds settled_paid
paid-Shifts consume now b h = record {
  held_shift = ground arith;
  used_shift = refl;
  base_same = refl;
}

-- What the two UPDATE statements write when each changes its row.
pub settled_usages :
    (consume : Bool) (now : ℕ) (k : String) (s t : Store)
    → settle_bucket consume now (in_usages k) s ≡ ok (true, t)
    → (update_where usage_key k guest_holds (settled_guest consume now) s.usages ≡ some t.usages)
      × (t.reservations ≡ s.reservations)
      × (t.allowances ≡ s.allowances)
unfolding settle_bucket
settled_usages consume now k s t e =
    Usage.update_row-wrote k guest_holds (settled_guest consume now) s t e

pub settled_allowances :
    (consume : Bool) (now : ℕ) (k : String) (s t : Store)
    → settle_bucket consume now (in_allowances k) s ≡ ok (true, t)
    → (update_where paid_key k paid_holds (settled_paid consume now) s.allowances
        ≡ some t.allowances)
      × (t.reservations ≡ s.reservations)
      × (t.usages ≡ s.usages)
unfolding settle_bucket
settled_allowances consume now k s t e =
    Paid.update_row-wrote k paid_holds (settled_paid consume now) s t e

pub settled_reservations :
    (state : ReservationState) (artifact : Option String) (now : ℕ) (k : String) (s t : Store)
    → settle_reservation state artifact now k s ≡ ok (true, t)
    → (update_where reservation_key k is_reserved (final_values state artifact now) s.reservations
        ≡ some t.reservations)
      × (t.usages ≡ s.usages)
      × (t.allowances ≡ s.allowances)
unfolding settle_reservation
settled_reservations state artifact now k s t e =
    elim (Option-cases (
      update_where reservation_key k is_reserved (final_values state artifact now)
        s.reservations)) [
          | inl n ↦ absurd (ground arith)
          | inr (rows, y) ↦ (ground arith, ground arith, ground arith)
        ]

module _ (now : ℕ) (r : ExecutionReservation) (state : ReservationState) (artifact : Option String)
    (ends : state ≢ reserved) (s t u : Store)
    (there : select reservation_key r.id s.reservations ≡ some r) (bal : IsBalanced s)
    (arbitrated : settle_reservation state artifact now r.id t ≡ ok (true, u)) where
  -- Through the guest bucket.
  IsBalanced-by_usage :
      (k : String)
      → (r.owner.owner_kind ≡ guest) × (r.guest_quota_usage_id ≡ some k)
      → settle_bucket (state_eq state consumed) now (in_usages k) s ≡ ok (true, t)
      → IsBalanced u
  unfolding settled_guest
  IsBalanced-by_usage k link settled =
      let (wrote, same_rs, same_as) = settled_usages (state_eq state consumed) now k s t settled in
      let (final, same_us, same_as') =
        settled_reservations state artifact now r.id t u arbitrated in
      let final' =
        subst
          (λ x.
            update_where reservation_key r.id is_reserved (final_values state artifact now) x
            ≡ some u.reservations)
          same_rs final in
      record {
        usages = rw same_us (
            Balanced-update_where usage_key (λ b. b.reserved_count) (λ b. b.used_count)
              (λ b. b.legacy_used_count) k guest_holds (settled_guest (state_eq state consumed) now)
              0 1 (one_if (state_eq state consumed)) s.usages t.usages _ _ _ _ (λ b. refl)
              (guest-Shifts (state_eq state consumed) now) wrote
              (usage_tallies r state artifact now ends s.reservations u.reservations there final' k
                link.0 link.1)
              bal.usages);
        allowances =
            rw (same_as', same_as)
              (Balanced-same paid_key (λ b. b.reserved_count) (λ b. b.used_count) (λ b. 0)
                s.allowances _ _ _ _
                (λ j.
                  allowances_untouched r state artifact now ends s.reservations u.reservations there
                    final' j link.0)
                bal.allowances);
      }

  -- Through the paid one.
  IsBalanced-by_allowance :
      (k : String)
      → (r.owner.owner_kind ≡ portal_user) × (r.paid_allowance_usage_id ≡ some k)
      → settle_bucket (state_eq state consumed) now (in_allowances k) s ≡ ok (true, t)
      → IsBalanced u
  unfolding settled_paid
  IsBalanced-by_allowance k link settled =
      let (wrote, same_rs, same_us) =
        settled_allowances (state_eq state consumed) now k s t settled in
      let (final, same_us', same_as) =
        settled_reservations state artifact now r.id t u arbitrated in
      let final' =
        subst
          (λ x.
            update_where reservation_key r.id is_reserved (final_values state artifact now) x
            ≡ some u.reservations)
          same_rs final in
      record {
        usages =
            rw (same_us', same_us)
              (Balanced-same usage_key (λ b. b.reserved_count) (λ b. b.used_count)
                (λ b. b.legacy_used_count) s.usages _ _ _ _
                (λ j.
                  usages_untouched r state artifact now ends s.reservations u.reservations there
                    final' j link.0)
                bal.usages);
        allowances = rw same_as (
            Balanced-update_where paid_key (λ b. b.reserved_count) (λ b. b.used_count) (λ b. 0) k
              paid_holds (settled_paid (state_eq state consumed) now) 0 1
              (one_if (state_eq state consumed)) s.allowances t.allowances _ _ _ _ (λ b. refl)
              (paid-Shifts (state_eq state consumed) now) wrote
              (allowance_tallies r state artifact now ends s.reservations u.reservations there
                final' k link.0 link.1)
              bal.allowances);
      }

-- Through whichever bucket it found.
IsBalanced-after :
    (now : ℕ) (r : ExecutionReservation) (state : ReservationState) (artifact : Option String)
    (s : Store)
    → state ≢ reserved
    → select reservation_key r.id s.reservations ≡ some r
    → IsBalanced s
    → (link : BucketLink) (t u : Store) → bucket r s ≡ ok (link, s)
    → settle_bucket (state_eq state consumed) now link s ≡ ok (true, t)
    → settle_reservation state artifact now r.id t ≡ ok (true, u)
    → IsBalanced u
IsBalanced-after now r state artifact s ends there bal (in_usages k) t u linked settled arbitrated =
    IsBalanced-by_usage now r state artifact ends s t u there bal arbitrated k
      (usage_link r k s s linked) settled
IsBalanced-after now r state artifact s ends there bal (in_allowances k) t u linked settled
      arbitrated =
    IsBalanced-by_allowance now r state artifact ends s t u there bal arbitrated k
      (allowance_link r k s s linked) settled

-- A terminal transition (to consumed or released) of a stored reservation, committed or rolled
-- back, keeps the books balanced: in every bucket of both tables the reserved counter is the number
-- of reservations that hold it, and the used counter is the legacy uses and the number of those
-- consumed from it.
pub transition-IsBalanced :
    (now : ℕ) (r : ExecutionReservation) (state : ReservationState) (artifact : Option String)
    (s : Store)
    → state ≢ reserved
    → select reservation_key r.id s.reservations ≡ some r
    → IsBalanced s
    → IsBalanced (after (transition now r state artifact s) s)
transition-IsBalanced now r state artifact s ends there bal =
    after-Commits IsBalanced (transition now r state artifact) s bal (
      Commits-transition IsBalanced now r state artifact s
        (IsBalanced-after now r state artifact s ends there bal))
