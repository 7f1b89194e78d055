-- ===== src/Workflows/Jobs/Lifecycle.antt =====
-- The calls of the job repository, against the state machine of a job.
use anytoolai_platform.Prelude.{
  ℕ, String, ◌≡◌, ◌∙◌, refl, ◌==◌, Bool, true, false, not, Option, none, some, List, [], ◌∷◌, arith,
  is_none,
}
use anytoolai_platform.Prelude.Table.{select, Related}
use anytoolai_platform.Store.Ensures.{
  Ensures, Reads, Ensures-then_read, Ensures-read_then, Reads-refuse_if, Ensures-refuse_if,
  Ensures-require_some, Ensures-checked, after-Ensures,
}
use mathlib.Core.Path.{subst, sym}
use anytoolai_platform.Json.{Fields}
use anytoolai_platform.Store.{Store, ok, lookup_error, runtime_error, after}
use anytoolai_platform.Workflows.Models.{
  JobStatus, created, running, succeeded, failed, canceled, status_eq, JobRecord, job_id,
}
use anytoolai_platform.Workflows.Jobs.{
  get, create, claim_created, cancel_created, mark_succeeded, mark_failed, mark_canceled,
  mark_failed_from_created, update, update_status, require_valid_success_record,
  check_result_artifact, claim_values, cancel_values, as_failed, as_canceled, update_values,
  require_update_invariants,
}
use anytoolai_platform.Workflows.Jobs.Writes.{
  Moves, stays, claimed_, canceled_before, failed_before, done, broken, stopped, RowMoves, JobsMove,
  JobsMove-refl, Reads-get, Reads-require_stored, JobsMove-update_status, JobsMove-transition_from,
  JobsMove-conditional, JobsMove-create, status_eq→≡,
}

-- One call of the repository that may write.
pub data JobCall : Type 0 where
  creates : JobRecord → JobCall
  claims : ℕ → String → Option Fields → JobCall
  cancels_created : ℕ → String → Option Fields → JobCall
  succeeds : JobRecord → JobCall
  fails : ℕ → JobRecord → JobCall
  cancels : ℕ → JobRecord → JobCall
  fails_from_created : ℕ → JobRecord → JobCall
  updates : JobRecord → JobCall

-- The store after the call: what it wrote, or nothing where it raises.
unfoldable pub run_call : JobCall → Store → Store
run_call (creates j) s = after (create j s) s
run_call (claims now k m) s = after (claim_created now k m s) s
run_call (cancels_created now k m) s = after (cancel_created now k m s) s
run_call (succeeds j) s = after (mark_succeeded j s) s
run_call (fails now j) s = after (mark_failed now j s) s
run_call (cancels now j) s = after (mark_canceled now j s) s
run_call (fails_from_created now j) s = after (mark_failed_from_created now j s) s
run_call (updates j) s = after (update j s) s

pub run_calls : List JobCall → Store → Store
run_calls [] s = s
run_calls (c ∷ cs) s = run_calls cs (run_call c s)

Reads-success : (j : JobRecord) → Reads (require_valid_success_record j)
unfolding require_valid_success_record check_result_artifact
Reads-success j = Ensures-require_some _ j.result_artifact_id _ _ λ artifact e.
    Ensures-refuse_if _ (artifact == "") _ _ λ present.
      Ensures-refuse_if _ (is_none j.completed_at) _ _
        λ timed. record { at = λ s a s' h. ground arith }

JobsMove-mark_succeeded : (j : JobRecord) → Ensures JobsMove (mark_succeeded j)
unfolding mark_succeeded
JobsMove-mark_succeeded j =
    Ensures-read_then JobsMove (require_valid_success_record j) _ (Reads-success j)
      λ _. JobsMove-transition_from running j succeeded done

update_keeps_status :
    (existing r : JobRecord) (a : Unit {0}) (s s' : Store)
    → require_update_invariants existing r s ≡ ok (a, s')
    → status_eq r.status existing.status ≡ true
unfolding require_update_invariants
update_keeps_status existing r a s s' h = ground arith

Reads-require_update_invariants :
    (existing r : JobRecord) → Reads (require_update_invariants existing r)
unfolding require_update_invariants
Reads-require_update_invariants existing r =
    Ensures-refuse_if _ (not (status_eq r.status existing.status)) _ _ λ _. Reads-refuse_if _ _

JobsMove-update : (r : JobRecord) → Ensures JobsMove (update r)
unfolding update update_values
JobsMove-update r = Ensures-read_then JobsMove (get r.id) _ (Reads-get r.id) λ found.
    Ensures-require_some JobsMove found (lookup_error "job not found") _ λ existing e.
      Ensures-checked JobsMove (require_update_invariants existing r) _
        (Reads-require_update_invariants existing r)
        λ a s s' h.
          Ensures-then_read JobsMove (update_status r.id existing.status (update_values r)) _
            (JobsMove-update_status r.id existing.status (update_values r) (λ x. refl)
              λ x same.
                subst (Moves x.status)
                  (status_eq→≡ x.status existing.status same
                    ∙ sym (
                        status_eq→≡ r.status existing.status
                          (update_keeps_status existing r a s s' h)))
                  stays)
            λ changed.
              Ensures-refuse_if _ (not changed) (runtime_error "job state changed during update") _
                λ _. Reads-require_stored r.id

-- Every call of the job repository, returning or raising, moves each stored job by at most one edge
-- of the job state machine and loses none.
pub run_call-JobsMove : (c : JobCall) (s : Store) → JobsMove s (run_call c s)
unfolding run_call
run_call-JobsMove (creates j) s =
    after-Ensures JobsMove (create j) s (JobsMove-refl s) (JobsMove-create j)
run_call-JobsMove (claims now k m) s =
    after-Ensures JobsMove (claim_created now k m) s (JobsMove-refl s) (
      unfold claim_created in
      JobsMove-conditional k (claim_values now m) running (λ r. refl) (λ r. refl) claimed_)
run_call-JobsMove (cancels_created now k m) s =
    after-Ensures JobsMove (cancel_created now k m) s (JobsMove-refl s) (
      unfold cancel_created in
      JobsMove-conditional k (cancel_values now m) canceled (λ r. refl) (λ r. refl) canceled_before)
run_call-JobsMove (succeeds j) s =
    after-Ensures JobsMove (mark_succeeded j) s (JobsMove-refl s) (JobsMove-mark_succeeded j)
run_call-JobsMove (fails now j) s =
    after-Ensures JobsMove (mark_failed now j) s (JobsMove-refl s)
      (unfold mark_failed in JobsMove-transition_from running (as_failed now j) failed broken)
run_call-JobsMove (cancels now j) s =
    after-Ensures JobsMove (mark_canceled now j) s (JobsMove-refl s) (
      unfold mark_canceled in JobsMove-transition_from running (as_canceled now j) canceled stopped)
run_call-JobsMove (fails_from_created now j) s =
    after-Ensures JobsMove (mark_failed_from_created now j) s (JobsMove-refl s) (
      unfold mark_failed_from_created in
      JobsMove-transition_from created (as_failed now j) failed failed_before)
run_call-JobsMove (updates j) s =
    after-Ensures JobsMove (update j) s (JobsMove-refl s) (JobsMove-update j)

-- The status is one that the lifecycle does not leave.
abbrev pub is_terminal : JobStatus → Bool
is_terminal succeeded = true
is_terminal failed = true
is_terminal canceled = true
is_terminal _ = false

Moves-terminal : {a b : JobStatus} → Moves a b → is_terminal a ≡ true → b ≡ a
Moves-terminal stays h = refl
Moves-terminal claimed_ h = cc
Moves-terminal canceled_before h = cc
Moves-terminal failed_before h = cc
Moves-terminal done h = cc
Moves-terminal broken h = cc
Moves-terminal stopped h = cc

-- One row, with its status, was kept.
terminal_row :
    (j : JobRecord) (o : Option JobRecord)
    → Related RowMoves (some j) o
    → is_terminal j.status ≡ true
    → (j' : JobRecord) × (o ≡ some j') × (j'.status ≡ j.status)
terminal_row j none m h = absurd m
terminal_row j (some j') m h = (j', refl, Moves-terminal m h)

-- Once a job has succeeded, failed or been canceled, no sequence of repository calls changes its
-- status or removes it.
pub job_terminal_forever :
    (cs : List JobCall) (s : Store) (k : String) (j : JobRecord)
    → select job_id k s.jobs ≡ some j
    → is_terminal j.status ≡ true
    → (j' : JobRecord) × (select job_id k (run_calls cs s).jobs ≡ some j') × (j'.status ≡ j.status)
unfolding run_calls
job_terminal_forever [] s k j e h = (j, e, refl)
job_terminal_forever (c ∷ cs) s k j e h =
    let (j₁, e₁, same₁) =
      terminal_row j (select job_id k (run_call c s).jobs)
        (subst (λ o. Related RowMoves o (select job_id k (run_call c s).jobs)) e
          (run_call-JobsMove c s k))
        h in
    let (j₂, e₂, same₂) =
      job_terminal_forever cs (run_call c s) k j₁ e₁
        (subst (λ x. is_terminal x ≡ true) (sym same₁) h) in
    (j₂, e₂, same₂ ∙ same₁)
