-- ===== src/Quotas/Release/Replayed.antt =====
-- quotas/finalization.py: `release_execution` of an execution that has been settled.
use anytoolai_platform.Prelude.{String, false, List, some, ◌≡◌, refl, sym, ap, ◌∙◌, if◌then◌else◌}
use anytoolai_platform.Store.{Store, ok, after, >>=-eq-ok}
use anytoolai_platform.Store.Commits.{after-Commits}
use anytoolai_platform.Scenarios.Service.{Minted}
use anytoolai_platform.Quotas.Models.{reserved, state_eq, ExecutionReservation}
use anytoolai_platform.Quotas.Reservations.{get_by_job}
use anytoolai_platform.Quotas.Settlement.{terminal_replay}
use anytoolai_platform.Quotas.Release.Balanced.{Reads-terminal_replay, lock_execution-found}
use anytoolai_platform.Quotas.Release.{
  LockedExecution, lock_execution, release_locked, release_execution,
}

module _ (sha256_hex : String → String) (casefold : String → String)
    (platform_events : List String) where
  release_locked-replays :
      (m : Minted) (x : LockedExecution)
      → state_eq x.reservation.state reserved ≡ false
      → release_locked sha256_hex casefold platform_events m x ≡ terminal_replay x.job x.reservation
  unfolding release_locked
  release_locked-replays m x h = rw (h, if◌then◌else◌) refl

  -- The release of an execution whose reservation is no longer reserved, returning or raising,
  -- leaves the store as it is.
  pub release_settled_same :
      (m : Minted) (job_id : String) (r : ExecutionReservation) (s : Store)
      → get_by_job job_id s ≡ ok (some r, s)
      → state_eq r.state reserved ≡ false
      → after (release_execution sha256_hex casefold platform_events m job_id s) s ≡ s
  unfolding release_execution
  release_settled_same m job_id r s is_r settled =
      after-Commits (λ t. t ≡ s) (release_execution sha256_hex casefold platform_events m job_id) s
        refl
        (record {
          at = λ a u e.
              let (x, t, e₁, e₂) =
                >>=-eq-ok (lock_execution job_id)
                  (release_locked sha256_hex casefold platform_events m) s e in
              let (same, found) = lock_execution-found job_id s x t e₁ in
              let same_row : x.reservation ≡ r = cc in
              let replays =
                release_locked-replays m x
                  (ap (λ y. state_eq y.state reserved) same_row ∙ settled) in
              (Reads-terminal_replay x.job x.reservation).at t a u
                (sym (ap (λ f. f t) replays) ∙ e₂)
              ∙ same;
        })
