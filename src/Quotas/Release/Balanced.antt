-- ===== src/Quotas/Release/Balanced.antt =====
-- quotas/finalization.py: the books of the quota tables after `release_execution`.
use anytoolai_platform.Prelude.{
  String, ◌==◌, Bool, true, false, not, Option, none, some, List, ◌≡◌, ◌≢◌, refl, arith,
  if◌then◌else◌,
}
use mathlib.Core.Path.{subst}
use anytoolai_platform.Prelude.Table.{select, find}
use anytoolai_platform.Store.{
  Store, Error, value_error, runtime_error, ok, Tx, ◌>>=◌, >>=-eq-ok, pure, require_some, refuse_if,
  after,
}
use anytoolai_platform.Store.Ensures.{
  Reads, Ensures-read_then, Reads-pure, Reads-require_some, Reads-refuse_if,
}
use anytoolai_platform.Store.Commits.{
  Commits, Commits-step, Commits-refuse_if, Commits-last, after-Commits,
}
use anytoolai_platform.Workflows.Models.{JobRecord, JobConsumptionMode, mode_eq}
use anytoolai_platform.Workflows.Jobs
use anytoolai_platform.Workflows.Jobs.Writes.{Reads-get}
use anytoolai_platform.Scenarios.Sessions
use anytoolai_platform.Scenarios.Sessions.Terminal
use anytoolai_platform.Scenarios.Service.{Minted}
use anytoolai_platform.Quotas.Models.{
  reserved, released, state_eq, ExecutionReservation, reservation_key,
}
use anytoolai_platform.Quotas.Balance.{IsBalanced}
use anytoolai_platform.Quotas.Reservations.{get_by_job}
use anytoolai_platform.Quotas.Settled.{transition-IsBalanced}
use anytoolai_platform.Quotas.Settlement.{
  BucketLink, in_usages, in_allowances, bucket, transition, is_failed_or_canceled, terminal_replay,
}
use anytoolai_platform.Quotas.Settlement.Steps.{Reads-bucket}
use anytoolai_platform.Quotas.Events.{quota_released, emit_execution_quota_event}
use anytoolai_platform.Quotas.Release.Books.{
  IsBalanced-SameBooks, LeavesBooks, LeavesBooks-bind, LeavesBooks-Reads,
  LeavesBooks-fail_open_scenario, LeavesBooks-emit_execution_quota_event,
}
use anytoolai_platform.Quotas.Release.{
  LockedExecution, lock_job, lock_reservation, lock_bucket, original_scope, lock_execution, context,
  fail_open_scenario, release_reserved, release_locked, release_execution,
}

-- From `s` the step only reads, and `Q` holds of what it returns.
record Finds {A : Type 0} (s : Store) (Q : A → Type 0) (m : Tx A) : Type 0 where
  at : (a : A) (s' : Store) → m s ≡ ok (a, s') → (s' ≡ s) × Q a

module _ {A B : Type 0} (s : Store) (Q : B → Type 0) where
  Finds-Reads :
      (m : Tx A) (f : A → Tx B)
      → Reads m
      → ((a : A) → m s ≡ ok (a, s) → Finds s Q (f a))
      → Finds s Q (m >>= f)
  Finds-Reads m f hm hf = record {
    at = λ b s' e.
        let (a, t, e₁, e₂) = >>=-eq-ok m f s e in
        let same = hm.at s a t e₁ in
        (hf a (subst (λ x. m s ≡ ok (a, x)) same e₁)).at b s'
          (subst (λ x. f a x ≡ ok (b, s')) same e₂);
  }

  Finds-require_some :
      (o : Option A) (x : Error) (f : A → Tx B)
      → ((a : A) → o ≡ some a → Finds s Q (f a))
      → Finds s Q (require_some o x >>= f)
  Finds-require_some none x f h = record { at = λ a s' e. cc }
  Finds-require_some (some v) x f h = record { at = (h v refl).at }

Finds-pure : {A : Type 0} (s : Store) (Q : A → Type 0) (a : A) → Q a → Finds s Q (pure a)
Finds-pure s Q a q = record { at = λ b s' e. let same : a ≡ b = cc in (cc, subst Q same q) }

Reads-lock_job : (k : String) → Reads (lock_job k)
unfolding lock_job
Reads-lock_job k = Ensures-read_then _ (Jobs.get k) _ (Reads-get k) λ found.
    Ensures-read_then _ (require_some found _) _
      (Reads-require_some found (value_error "metered terminal transition requires a reserved job"))
      λ job.
        Ensures-read_then _
          (refuse_if (not (mode_eq job.consumption_mode JobConsumptionMode.reserved))
            (value_error "metered terminal transition requires a reserved job"))
          _
          (Reads-refuse_if (not (mode_eq job.consumption_mode JobConsumptionMode.reserved))
            (value_error "metered terminal transition requires a reserved job"))
          λ _. Reads-pure (λ s. job)

Reads-lock_reservation : (k : String) → Reads (lock_reservation k)
unfolding lock_reservation
Reads-lock_reservation k = record { at = λ s a s' e. ground arith }

Reads-lock_bucket : (l : BucketLink) → Reads (lock_bucket l)
unfolding lock_bucket
Reads-lock_bucket (in_usages k) = record { at = λ s a s' e. ground arith }
Reads-lock_bucket (in_allowances k) = record { at = λ s a s' e. ground arith }

pub Reads-terminal_replay : (j : JobRecord) (r : ExecutionReservation) → Reads (terminal_replay j r)
unfolding terminal_replay
Reads-terminal_replay j r = record { at = λ s a s' e. ground arith }

Reads-get_by_job : (k : String) → Reads (get_by_job k)
unfolding get_by_job
Reads-get_by_job k = Reads-pure (λ s. find (λ r. r.job_id == k) s.reservations)

-- The locked reservation is the one that its job finds.
Finds-lock_execution :
    (k : String) (s : Store)
    → Finds s (λ x. get_by_job k s ≡ ok (some x.reservation, s)) (lock_execution k)
unfolding lock_execution
Finds-lock_execution k s = Finds-Reads s _ (lock_job k) _ (Reads-lock_job k) λ job _.
    Finds-Reads s _ (get_by_job k) _ (Reads-get_by_job k) λ found _.
      Finds-require_some s _ found (runtime_error "reserved job lacks its reservation") _
        λ original _.
          Finds-Reads s _ (Sessions.get (original_scope original) original.scenario_session_id) _
            (Terminal.Reads-get (original_scope original) original.scenario_session_id)
            λ scenario _.
              Finds-Reads s _ (lock_reservation original.id) _ (Reads-lock_reservation original.id)
                λ _ _. Finds-Reads s _ (get_by_job k) _ (Reads-get_by_job k) λ again read.
                  Finds-require_some s _ again (runtime_error "assertion") _ λ r is_r.
                    Finds-Reads s _ (bucket r) _ (Reads-bucket r) λ link _.
                      Finds-Reads s _ (lock_bucket link) _ (Reads-lock_bucket link) λ _ _.
                        Finds-pure s _ (record { job = job; scenario = scenario; reservation = r })
                          (subst (λ o. get_by_job k s ≡ ok (o, s)) is_r read)

pub lock_execution-found :
    (k : String) (s : Store) (x : LockedExecution) (t : Store)
    → lock_execution k s ≡ ok (x, t)
    → (t ≡ s) × (get_by_job k s ≡ ok (some x.reservation, s))
lock_execution-found k s x t e = (Finds-lock_execution k s).at x t e

released-≢-reserved : released ≢ reserved
released-≢-reserved e = ground arith

Commits-LeavesBooks :
    {A : Type 0} (s : Store) (m : Tx A) → IsBalanced s → LeavesBooks m → Commits s IsBalanced m
Commits-LeavesBooks s m bal h = record { at = λ a t e. IsBalanced-SameBooks s t (h.at s a t e) bal }

module _ (sha256_hex : String → String) (casefold : String → String)
    (platform_events : List String) where
  Commits-release_reserved :
      (m : Minted) (x : LockedExecution) (s : Store)
      → select reservation_key x.reservation.id s.reservations ≡ some x.reservation
      → IsBalanced s
      → Commits s IsBalanced (release_reserved sha256_hex casefold platform_events m x)
  unfolding release_reserved
  Commits-release_reserved m x s there bal =
      Commits-step s IsBalanced (transition (m.clock 6) x.reservation released none) _ λ done t e.
        Commits-LeavesBooks t _
          (subst (λ y. IsBalanced (after y s)) e
            (transition-IsBalanced (m.clock 6) x.reservation released none s released-≢-reserved
              there bal))
          (LeavesBooks-bind
            (emit_execution_quota_event sha256_hex casefold platform_events m quota_released
              done.reservation (context x.job x.scenario done.reservation))
            _
            (LeavesBooks-emit_execution_quota_event sha256_hex casefold platform_events m
              quota_released done.reservation (context x.job x.scenario done.reservation))
            λ _.
              LeavesBooks-bind
                (fail_open_scenario sha256_hex casefold platform_events m x.job x.scenario
                  x.reservation)
                _
                (LeavesBooks-fail_open_scenario sha256_hex casefold platform_events m x.job
                  x.scenario x.reservation)
                λ _. LeavesBooks-Reads (pure done) (Reads-pure (λ s. done)))

  Commits-release_locked :
      (m : Minted) (x : LockedExecution) (s : Store)
      → select reservation_key x.reservation.id s.reservations ≡ some x.reservation
      → IsBalanced s
      → Commits s IsBalanced (release_locked sha256_hex casefold platform_events m x)
  unfolding release_locked
  Commits-release_locked m x s there bal =
      by_state (state_eq x.reservation.state reserved)
        (Commits-refuse_if s IsBalanced (not (is_failed_or_canceled x.job.status))
          (runtime_error "release requires terminal failure or cancellation") _
          (λ _. Commits-release_reserved m x s there bal))
        (Commits-last s IsBalanced (terminal_replay x.job x.reservation) bal
          (Reads-terminal_replay x.job x.reservation))
    where
      by_state :
          {A : Type 0} (b : Bool) {m n : Tx A}
          → Commits s IsBalanced m
          → Commits s IsBalanced n
          → Commits s IsBalanced (if b then m else n)
      by_state true h k = h
      by_state false h k = k

  -- The release of the execution of a job, with its quota event and the failing of its open
  -- session, committed or rolled back, keeps the books of the quota tables balanced, if the
  -- reservation that the job finds is the row under its identifier.
  pub release_execution-IsBalanced :
      (m : Minted) (job_id : String) (s : Store)
      → ((r : ExecutionReservation)
          → get_by_job job_id s ≡ ok (some r, s)
          → select reservation_key r.id s.reservations ≡ some r)
      → IsBalanced s
      → IsBalanced (after (release_execution sha256_hex casefold platform_events m job_id s) s)
  unfolding release_execution
  release_execution-IsBalanced m job_id s keyed bal =
      after-Commits IsBalanced (release_execution sha256_hex casefold platform_events m job_id) s
        bal
        (record {
          at = λ a u e.
              let (x, t, e₁, e₂) =
                >>=-eq-ok (lock_execution job_id)
                  (release_locked sha256_hex casefold platform_events m) s e in
              let (same, found) = lock_execution-found job_id s x t e₁ in
              (Commits-release_locked m x s (keyed x.reservation found) bal).at a u (
                subst (λ y. release_locked sha256_hex casefold platform_events m x y ≡ ok (a, u))
                  same e₂);
        })
