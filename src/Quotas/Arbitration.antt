-- ===== src/Quotas/Arbitration.antt =====
-- The arbitration between terminal transitions, by the state of the reservation.
use anytoolai_platform.Prelude.{
  ℕ, String, ◌≡◌, ◌≢◌, refl, Bool, true, false, Option, some, arith, Option-cases, inl, inr, sym,
}
use mathlib.Core.Path.{subst}
use anytoolai_platform.Prelude.Table.{select, update_where, update_where_cases, select-modify_self}
use anytoolai_platform.Store.{Store, ok}
use anytoolai_platform.Store.Commits.{Commits}
use anytoolai_platform.Quotas.Models.{
  ReservationState, reserved, consumed, state_eq, ExecutionReservation, reservation_key, usage_key,
  paid_key, ConsumptionTransition,
}
use anytoolai_platform.Quotas.Usage
use anytoolai_platform.Quotas.Paid
use anytoolai_platform.Quotas.Settlement.{
  BucketLink, in_usages, in_allowances, guest_holds, paid_holds, settled_guest, settled_paid,
  settle_bucket, settle_reservation, is_reserved, final_values, transition,
}
use anytoolai_platform.Quotas.Settlement.Steps.{Commits-transition}
use anytoolai_platform.Quotas.Settled.{settled_reservations}

-- The reservation of that id is stored and no longer reserved.
abbrev pub IsFinal : String → Store → Type 0
IsFinal k s =
    (x : ExecutionReservation) × (select reservation_key k s.reservations ≡ some x)
    × (is_reserved x ≡ false)

pub reservations-settle_bucket :
    (consume : Bool) (now : ℕ) (link : BucketLink) (s t : Store) (b : Bool)
    → settle_bucket consume now link s ≡ ok (b, t)
    → t.reservations ≡ s.reservations
unfolding settle_bucket Usage.update_row Paid.update_row
reservations-settle_bucket consume now (in_usages k) s t b e =
    elim (Option-cases
      (update_where usage_key k guest_holds (settled_guest consume now) s.usages)) [
        | inl n ↦ ground arith
        | inr (rows, y) ↦ ground arith
      ]
reservations-settle_bucket consume now (in_allowances k) s t b e =
    elim (Option-cases
      (update_where paid_key k paid_holds (settled_paid consume now) s.allowances)) [
        | inl n ↦ ground arith
        | inr (rows, y) ↦ ground arith
      ]

final_state :
    (state : ReservationState) (artifact : Option String) (now : ℕ) (x : ExecutionReservation)
    → state ≢ reserved
    → is_reserved (final_values state artifact now x) ≡ false
unfolding is_reserved final_values
final_state state artifact now x ends = ground arith

settle_reservation-IsFinal :
    (state : ReservationState) (artifact : Option String) (now : ℕ) (k : String) (s t : Store)
    → state ≢ reserved
    → settle_reservation state artifact now k s ≡ ok (true, t)
    → IsFinal k t
unfolding final_values
settle_reservation-IsFinal state artifact now k s t ends e =
    let (x, there, passed, wrote) =
      update_where_cases reservation_key k is_reserved (final_values state artifact now)
        s.reservations t.reservations (settled_reservations state artifact now k s t e).0 in
    (
      final_values state artifact now x,
      rw wrote (
          select-modify_self reservation_key (final_values state artifact now) (λ y. refl) k
            s.reservations x there),
      final_state state artifact now x ends,
    )

-- The second arbitration changes no row.
settle_reservation-lost :
    (state : ReservationState) (artifact : Option String) (now : ℕ) (k : String) (s t : Store)
    (c : Bool)
    → IsFinal k s
    → settle_reservation state artifact now k s ≡ ok (c, t)
    → c ≡ false
unfolding settle_reservation update_where
settle_reservation-lost state artifact now k s t c (x, there, final) e = ground arith

transition-IsFinal :
    (now : ℕ) (r : ExecutionReservation) (state : ReservationState) (artifact : Option String)
    (s : Store)
    → state ≢ reserved
    → Commits s (IsFinal r.id) (transition now r state artifact)
transition-IsFinal now r state artifact s ends =
    Commits-transition (IsFinal r.id) now r state artifact s λ link t u linked settled arbitrated.
      settle_reservation-IsFinal state artifact now r.id t u ends arbitrated

transition-lost :
    (now : ℕ) (r : ExecutionReservation) (state : ReservationState) (artifact : Option String)
    (s : Store)
    → IsFinal r.id s
    → Commits s (λ t. ⊥) (transition now r state artifact)
transition-lost now r state artifact s (x, there, final) =
    Commits-transition (λ t. ⊥) now r state artifact s
      λ link t u linked settled arbitrated. contradiction (
        settle_reservation-lost state artifact now r.id t u true
          (
            x,
            rw (reservations-settle_bucket (state_eq state consumed) now link s t true settled)
                there,
            final,
          )
          arbitrated)
  where
    contradiction : true ≡ false → ⊥
    contradiction e = ground arith

-- After a terminal transition of a reservation that committed, no other terminal transition of it
-- commits, from any copy of the row and to any state.
pub settled_once :
    (now : ℕ) (r : ExecutionReservation) (state : ReservationState) (artifact : Option String)
    (now' : ℕ) (r' : ExecutionReservation) (state' : ReservationState) (artifact' : Option String)
    (s t u : Store) (x y : ConsumptionTransition)
    → state ≢ reserved
    → transition now r state artifact s ≡ ok (x, t)
    → r'.id ≡ r.id
    → transition now' r' state' artifact' t ≢ ok (y, u)
settled_once now r state artifact now' r' state' artifact' s t u x y ends e same =
    (transition-lost now' r' state' artifact' t (
        subst (λ k. IsFinal k t) (sym same)
          ((transition-IsFinal now r state artifact s ends).at x t e))).at
      y u
