-- ===== src/Quotas/Tallies.antt =====
-- What the terminal transition of a reservation does to the tallies of each bucket.
use mathlib.Core.Path.{subst}
use mathlib.Core.Option.{some-injective}
use anytoolai_platform.Prelude.{
  ℕ, ◌+◌, String, ◌≡◌, ◌≢◌, sym, ◌∙◌, Bool, true, Option, some, List, arith, one_if, eq_iff,
}
use anytoolai_platform.Prelude.Table.{select, update_where, update_where_cases, count, count-modify}
use anytoolai_platform.Store.{Store, ok}
use anytoolai_platform.Quotas.Models.{
  guest, portal_user, ReservationState, reserved, consumed, state_eq, ExecutionReservation,
  reservation_key,
}
use anytoolai_platform.Quotas.Ledger.{TalliesShift}
use anytoolai_platform.Quotas.Balance.{holds_usage, spent_usage, holds_allowance, spent_allowance}
use anytoolai_platform.Quotas.Settlement.{
  in_usages, in_allowances, bucket, is_reserved, final_values,
}

pub usage_link :
    (r : ExecutionReservation) (k : String) (s t : Store)
    → bucket r s ≡ ok (in_usages k, t)
    → (r.owner.owner_kind ≡ guest) × (r.guest_quota_usage_id ≡ some k)
unfolding bucket
usage_link r k s t e = ground arith

pub allowance_link :
    (r : ExecutionReservation) (k : String) (s t : Store)
    → bucket r s ≡ ok (in_allowances k, t)
    → (r.owner.owner_kind ≡ portal_user) × (r.paid_allowance_usage_id ≡ some k)
unfolding bucket
allowance_link r k s t e = ground arith

reserved_of : (a : ReservationState) → state_eq a reserved ≡ true → a ≡ reserved
reserved_of a h = ground arith

module _ (r : ExecutionReservation) (state : ReservationState) (artifact : Option String) (now : ℕ)
    (ends : state ≢ reserved) (rows rows' : List ExecutionReservation)
    (there : select reservation_key r.id rows ≡ some r)
    (wrote : update_where reservation_key r.id is_reserved (final_values state artifact now) rows
      ≡ some rows') where
  abbrev ended : ExecutionReservation
  ended = final_values state artifact now r

  was_reserved : r.state ≡ reserved
  unfolding is_reserved
  was_reserved =
      let (x, found, passed, now_) =
        update_where_cases reservation_key r.id is_reserved (final_values state artifact now) rows
          rows' wrote in
      reserved_of r.state
        (subst (λ y. is_reserved y ≡ true) (some-injective x r (sym found ∙ there)) passed)

  moved :
      (test : ExecutionReservation → Bool)
      → count test rows' + one_if (test r) ≡ count test rows + one_if (test ended)
  moved test =
      let (x, found, passed, now_) =
        update_where_cases reservation_key r.id is_reserved (final_values state artifact now) rows
          rows' wrote in
      rw now_
        (count-modify reservation_key test r.id (final_values state artifact now) rows r there)

  -- The reservation leaves the bucket that it holds; consumed, it is spent there.
  pub usage_tallies :
      (k : String)
      → r.owner.owner_kind ≡ guest
      → r.guest_quota_usage_id ≡ some k
      → TalliesShift k 0 1
          (one_if (state_eq state consumed))
          (λ j. count (holds_usage j) rows)
          (λ j. count (spent_usage j) rows)
          (λ j. count (holds_usage j) rows')
          (λ j. count (spent_usage j) rows')
  unfolding final_values
  usage_tallies k is_guest link = record {
    held_at = ground (arith, moved (holds_usage k), was_reserved, ends, eq_iff k k);
    spent_at = ground (arith, moved (spent_usage k), was_reserved, eq_iff k k);
    held_elsewhere = λ j other. ground (arith, moved (holds_usage j), was_reserved, ends);
    spent_elsewhere = λ j other. ground (arith, moved (spent_usage j), was_reserved);
  }

  pub allowance_tallies :
      (k : String)
      → r.owner.owner_kind ≡ portal_user
      → r.paid_allowance_usage_id ≡ some k
      → TalliesShift k 0 1
          (one_if (state_eq state consumed))
          (λ j. count (holds_allowance j) rows)
          (λ j. count (spent_allowance j) rows)
          (λ j. count (holds_allowance j) rows')
          (λ j. count (spent_allowance j) rows')
  unfolding final_values
  allowance_tallies k is_portal link = record {
    held_at = ground (arith, moved (holds_allowance k), was_reserved, ends, eq_iff k k);
    spent_at = ground (arith, moved (spent_allowance k), was_reserved, eq_iff k k);
    held_elsewhere = λ j other. ground (arith, moved (holds_allowance j), was_reserved, ends);
    spent_elsewhere = λ j other. ground (arith, moved (spent_allowance j), was_reserved);
  }

  -- The buckets of the other kind keep their tallies.
  pub allowances_untouched :
      (j : String)
      → r.owner.owner_kind ≡ guest
      → (count (holds_allowance j) rows' ≡ count (holds_allowance j) rows)
        × (count (spent_allowance j) rows' ≡ count (spent_allowance j) rows)
  unfolding final_values
  allowances_untouched j is_guest =
      (ground (arith, moved (holds_allowance j)), ground (arith, moved (spent_allowance j)))

  pub usages_untouched :
      (j : String)
      → r.owner.owner_kind ≡ portal_user
      → (count (holds_usage j) rows' ≡ count (holds_usage j) rows)
        × (count (spent_usage j) rows' ≡ count (spent_usage j) rows)
  unfolding final_values
  usages_untouched j is_portal =
      (ground (arith, moved (holds_usage j)), ground (arith, moved (spent_usage j)))
