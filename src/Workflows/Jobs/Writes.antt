-- ===== src/Workflows/Jobs/Writes.antt =====
-- The moves of a job's status, and which of them each write of the repository makes.
use anytoolai_platform.Prelude.{
  String, ◌≡◌, refl, Bool, true, false, Option, none, some, arith, Option-cases, inl, inr, ◌⊎◌,
}
use anytoolai_platform.Prelude.Table.{
  select, update_where, insert, Related, Related-refl, update_where-Related, insert-Related,
}
use anytoolai_platform.Store.Ensures.{
  Ensures, Reads, Ensures-then_read, Ensures-read_then, Reads-pure, Reads-raise, Reads-require_some,
  Reads-if, Ensures-refuse_if,
}
use mathlib.Core.Path.{subst₂, sym}
use anytoolai_platform.Store.{Store, ok, lookup_error, runtime_error, require_some, pure}
use anytoolai_platform.Workflows.Models.{
  JobStatus, created, running, succeeded, failed, canceled, status_eq, JobRecord, job_id,
}
use anytoolai_platform.Workflows.Jobs.{
  get, create, update_status, transition_from, insert_row, require_valid_scenario_session_link,
  conditional_transition_from_created, claimed, settled, require_stored, resolve_unchanged,
  transition_values,
}

-- The moves that a job may make in one call.
pub data Moves : JobStatus → JobStatus → Type 0 where
  stays : {a : JobStatus} → Moves a a
  claimed_ : Moves created running
  canceled_before : Moves created canceled
  failed_before : Moves created failed
  done : Moves running succeeded
  broken : Moves running failed
  stopped : Moves running canceled

abbrev pub RowMoves : JobRecord → JobRecord → Type 0
RowMoves a b = Moves a.status b.status

-- Every job that was there is still there, in the status that it had or one move on.
abbrev pub JobsMove : Store → Store → Type 0
JobsMove s s' = (k : String) → Related RowMoves (select job_id k s.jobs) (select job_id k s'.jobs)

pub JobsMove-refl : (s : Store) → JobsMove s s
JobsMove-refl s k = Related-refl RowMoves (λ r. stays) (select job_id k s.jobs)

-- The jobs are as they were, or one row was updated.
jobs-update_status :
    (k : String) (from : JobStatus) (f : JobRecord → JobRecord) (s s' : Store) (a : Bool)
    → update_status k from f s ≡ ok (a, s')
    → (s'.jobs ≡ s.jobs)
      ⊎ (update_where job_id k (λ j. status_eq j.status from) f s.jobs ≡ some s'.jobs)
unfolding update_status
jobs-update_status k from f s s' a e =
    elim (Option-cases (update_where job_id k (λ j. status_eq j.status from) f s.jobs)) [
      | inl n ↦ inl (ground arith)
      | inr (rows, y) ↦ inr (ground arith)
    ]

pub JobsMove-update_status :
    (k : String) (from : JobStatus) (f : JobRecord → JobRecord)
    → ((r : JobRecord) → (f r).id ≡ r.id)
    → ((r : JobRecord) → status_eq r.status from ≡ true → Moves r.status (f r).status)
    → Ensures JobsMove (update_status k from f)
JobsMove-update_status k from f keeps moves = record {
  at = λ s a s' e. elim (jobs-update_status k from f s s' a e) [
    | inl same ↦ λ j. rw same (Related-refl RowMoves (λ r. stays) (select job_id j s.jobs))
    | inr wrote ↦
        update_where-Related job_id RowMoves (λ r. stays) k (λ j. status_eq j.status from) f keeps
          moves s.jobs s'.jobs wrote
  ];
}

JobsMove-insert_row : (j : JobRecord) → Ensures JobsMove (insert_row j)
unfolding insert_row
JobsMove-insert_row j = record {
  at = λ s a s' e. elim (Option-cases (insert job_id j s.jobs)) [
    | inl n ↦ absurd (ground arith)
    | inr (rows, y) ↦ insert-Related job_id RowMoves (λ r. stays) j s.jobs s'.jobs (ground arith)
  ];
}

Reads-link : (j : JobRecord) → Reads (require_valid_scenario_session_link j)
unfolding require_valid_scenario_session_link
Reads-link j = record { at = λ s a s' e. ground arith }

pub Reads-get : (k : String) → Reads (get k)
unfolding get
Reads-get k = Reads-pure (λ s. select job_id k s.jobs)

pub Reads-require_stored : (k : String) → Reads (require_stored k)
unfolding require_stored
Reads-require_stored k =
    Ensures-read_then _ (get k) (λ o. require_some o (runtime_error "job round-trip failed"))
      (Reads-get k) λ o. Reads-require_some o (runtime_error "job round-trip failed")

Reads-resolve_unchanged :
    (expected : JobStatus) (o : Option JobRecord) → Reads (resolve_unchanged expected o)
unfolding resolve_unchanged
Reads-resolve_unchanged expected none = Reads-raise (lookup_error "job not found")
Reads-resolve_unchanged expected (some j) =
    Reads-if (status_eq j.status expected) _ _ (Reads-pure (λ s. j))
      (Reads-raise (runtime_error "job cannot transition"))

Reads-settled : (k : String) (expected : JobStatus) (b : Bool) → Reads (settled k expected b)
unfolding settled
Reads-settled k expected true = Reads-require_stored k
Reads-settled k expected false =
    Ensures-read_then _ (get k) (resolve_unchanged expected) (Reads-get k)
      (Reads-resolve_unchanged expected)

pub Reads-claimed : (k : String) (b : Bool) → Reads (claimed k b)
unfolding claimed
Reads-claimed k false = Reads-pure (λ s. none)
Reads-claimed k true =
    Ensures-read_then _ (require_stored k) (λ j. pure (some j)) (Reads-require_stored k)
      λ j. Reads-pure (λ s. some j)

pub status_eq→≡ : (a b : JobStatus) → status_eq a b ≡ true → a ≡ b
status_eq→≡ a b h = ground arith

pub JobsMove-transition_from :
    (from : JobStatus) (r : JobRecord) (expected : JobStatus)
    → Moves from expected
    → Ensures JobsMove (transition_from from r expected)
unfolding transition_from transition_values
JobsMove-transition_from from r expected h = Ensures-refuse_if JobsMove _ _ _ λ is_expected.
    Ensures-then_read JobsMove (update_status r.id from (transition_values r))
      (settled r.id expected)
      (JobsMove-update_status r.id from (transition_values r) (λ x. refl)
        λ x is_from.
          subst₂ Moves (sym (status_eq→≡ x.status from is_from))
            (sym (status_eq→≡ r.status expected (ground arith))) h)
      (Reads-settled r.id expected)

pub JobsMove-conditional :
    (k : String) (f : JobRecord → JobRecord) (to : JobStatus)
    → ((r : JobRecord) → (f r).id ≡ r.id)
    → ((r : JobRecord) → (f r).status ≡ to)
    → Moves created to
    → Ensures JobsMove (conditional_transition_from_created k f)
unfolding conditional_transition_from_created
JobsMove-conditional k f to keeps sets h =
    Ensures-then_read JobsMove (update_status k created f) (claimed k)
      (JobsMove-update_status k created f keeps λ x is_created.
        subst₂ Moves (sym (status_eq→≡ x.status created is_created)) (sym (sets x)) h)
      (Reads-claimed k)

pub JobsMove-create : (j : JobRecord) → Ensures JobsMove (create j)
unfolding create
JobsMove-create j =
    Ensures-read_then JobsMove _ _ (Reads-link j)
      λ _. Ensures-then_read JobsMove _ _ (JobsMove-insert_row j) λ _. Reads-require_stored j.id
