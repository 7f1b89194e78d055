-- ===== src/Quotas/Settlement/Steps.antt =====
-- What a terminal transition that commits went through.
use mathlib.Core.Path.{subst}
use anytoolai_platform.Prelude.{ℕ, String, ◌≡◌, refl, Bool, true, false, not, Option, arith}
use anytoolai_platform.Store.{Store, ok, runtime_error}
use anytoolai_platform.Store.Ensures.{Reads, Reads-pure}
use anytoolai_platform.Store.Commits.{
  Commits, Commits-Reads, Commits-step, Commits-refuse_if, Commits-last,
}
use anytoolai_platform.Quotas.Models.{ReservationState, consumed, state_eq, ExecutionReservation}
use anytoolai_platform.Quotas.Settlement.{
  BucketLink, in_usages, in_allowances, bucket, read_counts, settle_bucket, settle_reservation,
  transition,
}

pub Reads-bucket : (r : ExecutionReservation) → Reads (bucket r)
unfolding bucket
Reads-bucket r = record { at = λ s a s' e. ground arith }

Reads-read_counts : (l : BucketLink) → Reads (read_counts l)
unfolding read_counts
Reads-read_counts (in_usages k) = record { at = λ s a s' e. ground arith }
Reads-read_counts (in_allowances k) = record { at = λ s a s' e. ground arith }

not-false : (b : Bool) → not b ≡ false → b ≡ true
not-false true h = refl
not-false false h = cc

-- It found its bucket, settled it, and then won the arbitration of the reservation.
pub Commits-transition :
    (P : Store → Type 0) (now : ℕ) (r : ExecutionReservation) (state : ReservationState)
    (artifact : Option String) (s : Store)
    → ((link : BucketLink) (t u : Store)
        → bucket r s ≡ ok (link, s)
        → settle_bucket (state_eq state consumed) now link s ≡ ok (true, t)
        → settle_reservation state artifact now r.id t ≡ ok (true, u)
        → P u)
    → Commits s P (transition now r state artifact)
unfolding transition
Commits-transition P now r state artifact s won =
    Commits-Reads s P (bucket r) _ (Reads-bucket r) λ link linked.
      Commits-Reads s P (read_counts link) _ (Reads-read_counts link) λ counts read.
        Commits-step s P (settle_bucket (state_eq state consumed) now link) _ λ b t settled.
          Commits-refuse_if t P (not b) (runtime_error "reservation counter integrity failure") _
            λ yes_b.
              Commits-step t P (settle_reservation state artifact now r.id) _ λ c u arbitrated.
                Commits-refuse_if u P (not c)
                  (runtime_error "reservation terminal arbitration failure") _
                  λ yes_c.
                    Commits-last u P _
                      (won link t u linked
                        (subst (λ x. settle_bucket (state_eq state consumed) now link s ≡ ok (x, t))
                          (not-false b yes_b) settled)
                        (subst (λ x. settle_reservation state artifact now r.id t ≡ ok (x, u))
                          (not-false c yes_c) arbitrated))
                      (Reads-pure _)
