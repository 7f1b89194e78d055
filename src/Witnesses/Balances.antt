-- ===== src/Witnesses/Balances.antt =====
-- The books of the quota tables, on the sample rows.
use anytoolai_platform.Prelude.{
  none, ◌≡◌, ◌+◌, ◌≤◌, Bool, true, false, List, [], ◌∷◌, one_if, ◌≢◌, ◌==◌, refl, some, Bool-cases,
  inl, inr, arith,
}
use anytoolai_platform.Prelude.Table.{select, count, update_where, modify}
use anytoolai_platform.Quotas.Models.{consumed, reserved}
use anytoolai_platform.Quotas.Balance.{IsBalanced}
use anytoolai_platform.Quotas.Settlement.{transition}
use anytoolai_platform.Quotas.Settled.{transition-IsBalanced}
use anytoolai_platform.Witnesses.Rows.{reservation, store}
use anytoolai_platform.Store.{Store, ok, after}
use anytoolai_platform.Quotas.Models.{
  released, ConsumptionTransition, paid_bucket, ExecutionReservation,
}
use anytoolai_platform.Quotas.Readback.{read_consumption, consumption_from_bucket}
use anytoolai_platform.Quotas.Usage
use anytoolai_platform.Quotas.Paid
use anytoolai_platform.Quotas.Reservations.{create}
use anytoolai_platform.Quotas.Quantities.{
  PaidCall, ensures, reserves, NeverOversold, run_calls, run_calls-NeverOversold,
}
use anytoolai_platform.Quotas.Arbitration.{settled_once}
use anytoolai_platform.Quotas.Admission.{
  guest_admitted, paid_admitted, guest_admits_available, paid_admits_available,
}
use anytoolai_platform.Quotas.Isolation.{IsOwnedBy, read_consumption-IsOwnedBy}
use anytoolai_platform.Quotas.Uniqueness.{IsOneEach, one_reservation_each}
use anytoolai_platform.Witnesses.Rows.{usage, paid_usage, allowance, guest_owner, paid_owner}

pub store-IsBalanced : IsBalanced store
unfolding select count
store-IsBalanced = record {
  usages = λ k. elim (Bool-cases ("u1" == k)) [
    | inl same ↦ rw same (refl, refl)
    | inr other ↦ rw other (refl, refl)
  ];
  allowances = λ k. elim (Bool-cases ("b1" == k)) [
    | inl same ↦ rw same (refl, refl)
    | inr other ↦ rw other (refl, refl)
  ];
}

consumed-≢-reserved : consumed ≢ reserved
consumed-≢-reserved e = ground arith

transition-IsBalanced_example :
    IsBalanced (after (transition 9 reservation consumed (some "a1") store) store)
unfolding select
transition-IsBalanced_example =
    transition-IsBalanced 9 reservation consumed (some "a1") store consumed-≢-reserved refl
      store-IsBalanced

-- Two reservations of the paid bucket, and its binding again.
abbrev paid_calls : List PaidCall
paid_calls = reserves 4 paid_usage ∷ ensures allowance "b2" 5 5 ∷ reserves 6 paid_usage ∷ []

store-NeverOversold : NeverOversold store
unfolding select
store-NeverOversold k = elim (Bool-cases ("b1" == k)) [
  | inl same ↦ rw same (omega arith)
  | inr other ↦ rw other tt
]

run_calls-NeverOversold_example : NeverOversold (run_calls paid_calls store)
run_calls-NeverOversold_example = run_calls-NeverOversold paid_calls store store-NeverOversold

abbrev settled_reservation : ExecutionReservation
settled_reservation = record reservation {
  state = consumed;
  result_artifact_id = some "a1";
  finalized_at = some 9;
  updated_at = 9;
}

-- The store after the third use was consumed.
abbrev settled_store : Store
settled_store = record store {
  usages = record usage { reserved_count = 0; used_count = 3; updated_at = 9 } ∷ [];
  reservations = settled_reservation ∷ [];
}

abbrev exhausting : ConsumptionTransition
exhausting = record { applied = true; reservation = settled_reservation; became_exhausted = true }

settled_once_example :
    transition 10 settled_reservation released none settled_store ≢ ok (exhausting, store)
unfolding transition select update_where modify Usage.update_row
settled_once_example =
    settled_once 9 reservation consumed (some "a1") 10 settled_reservation released none store
      settled_store store exhausting exhausting consumed-≢-reserved refl refl

guest_admits_available_example : guest_admitted (Usage.reserve_if_available 9 usage store) ≡ false
unfolding select consumption_from_bucket
guest_admits_available_example = guest_admits_available 9 guest_owner usage usage store refl

paid_admits_available_example : paid_admitted (Paid.reserve_if_available 9 paid_usage store) ≡ true
unfolding select consumption_from_bucket
paid_admits_available_example = paid_admits_available 9 paid_owner paid_usage paid_usage store refl

read_consumption-IsOwnedBy_example : IsOwnedBy paid_owner (paid_bucket paid_usage)
unfolding read_consumption consumption_from_bucket Paid.get_owned select
read_consumption-IsOwnedBy_example =
    read_consumption-IsOwnedBy 9 paid_owner "b1" store store
      (consumption_from_bucket 9 paid_owner (paid_bucket paid_usage)) refl

store-IsOneEach : IsOneEach store
unfolding count
store-IsOneEach = record {
  by_job = λ v. at_most (("j1" == v));
  by_session = λ v. at_most (("s1" == v));
}
  where
    at_most : (b : Bool) → one_if b + 0 ≤ 1
    at_most true = omega arith
    at_most false = omega arith

one_reservation_each_example :
    IsOneEach (after (create (record reservation { id = "r2" }) store) store)
    × IsOneEach (after (transition 9 reservation released none store) store)
one_reservation_each_example =
    one_reservation_each (record reservation { id = "r2" }) reservation 9 released none store
      store-IsOneEach
