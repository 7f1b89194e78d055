-- ===== src/Workflows/Jobs.antt =====
-- workflows/repository.py: `JobRepository`, the lifecycle of a job row.
pub mod Writes
pub mod Lifecycle
pub mod Claims
use anytoolai_platform.Prelude.{
  ℕ, String, ◌==◌, Bool, true, false, not, ◌&&◌, ◌||◌, Option, none, some, List, eqb, is_none,
  or_text, or_instant, if◌then◌else◌,
}
use anytoolai_platform.Prelude.Table.{select, update_where, insert}
use anytoolai_platform.Json.{Fields}
use anytoolai_platform.Store.{
  Store, Error, value_error, lookup_error, runtime_error, integrity_error, Result, ok, err, Tx,
  ◌>>=◌, ◌>>◌, pure, raise, refuse_if, require_some,
}
use anytoolai_platform.Scenarios.Models.{ScenarioSessionRecord, session_id}
use anytoolai_platform.Artifacts.{ArtifactRecord, artifact_key}
use anytoolai_platform.Workflows.Models.{
  JobStatus, created, running, succeeded, failed, canceled, status_eq, mode_eq, JobRecord, job_id,
}

unfoldable pub get : String → Tx (Option JobRecord)
get k s = ok (select job_id k s.jobs, s)

-- `_require_stored_job` over a fresh read
pub require_stored : String → Tx JobRecord
unfolding get
require_stored k = do stored ← get k; require_some stored (runtime_error "job round-trip failed")

-- The linked session has the job's id and dimensions.
session_matches : JobRecord → ScenarioSessionRecord → Bool
session_matches j r =
    r.tenant_id == j.tenant_id
    && r.region == j.region
    && r.product_id == j.product_id
    && r.frontend_id == j.frontend_id

require_valid_scenario_session_link : JobRecord → Tx (Unit {0})
unfolding session_matches
require_valid_scenario_session_link j s =
    if j.scenario_session_id == ""
    then err (value_error "job create requires scenario_session_id")
    else elim (select session_id j.scenario_session_id s.sessions) [
      | none ↦ err (lookup_error "job scenario session link is invalid")
      | some r ↦
          if session_matches j r
          then ok (tt, s)
          else err (lookup_error "job scenario session link is invalid")
    ]

insert_row : JobRecord → Tx (Unit {0})
insert_row j s = elim (insert job_id j s.jobs) [
  | none ↦ err (integrity_error "jobs primary key")
  | some rows ↦ ok (tt, record s { jobs = rows })
]

unfoldable pub create : JobRecord → Tx JobRecord
unfolding require_valid_scenario_session_link insert_row require_stored
create j = do require_valid_scenario_session_link j; insert_row j; require_stored j.id

-- UPDATE jobs SET f WHERE id = k AND status = from, with whether a row changed
pub update_status : String → JobStatus → (JobRecord → JobRecord) → Tx Bool
update_status k from f s = elim (update_where job_id k (λ j. status_eq j.status from) f s.jobs) [
  | none ↦ ok (false, s)
  | some rows ↦ ok (true, record s { jobs = rows })
]

or_metadata : Option Fields → Fields → Fields
or_metadata none m = m
or_metadata (some n) m = n

-- The columns that a claim sets, and those of a cancellation.
unfoldable pub claim_values : ℕ → Option Fields → JobRecord → JobRecord
unfolding or_metadata
claim_values now m j = record j {
  status = running;
  started_at = some now;
  metadata = or_metadata m j.metadata;
}

unfoldable pub cancel_values : ℕ → Option Fields → JobRecord → JobRecord
unfolding or_metadata
cancel_values now m j = record j {
  status = canceled;
  completed_at = some now;
  metadata = or_metadata m j.metadata;
}

unfoldable pub claimed : String → Bool → Tx (Option JobRecord)
unfolding require_stored
claimed k false = pure none
claimed k true = do stored ← require_stored k; pure (some stored)

pub conditional_transition_from_created : String → (JobRecord → JobRecord) → Tx (Option JobRecord)
unfolding update_status claimed
conditional_transition_from_created k f = do changed ← update_status k created f; claimed k changed

unfoldable pub claim_created : ℕ → String → Option Fields → Tx (Option JobRecord)
unfolding conditional_transition_from_created claim_values
claim_created now k m = conditional_transition_from_created k (claim_values now m)

unfoldable pub cancel_created : ℕ → String → Option Fields → Tx (Option JobRecord)
unfolding conditional_transition_from_created cancel_values
cancel_created now k m = conditional_transition_from_created k (cancel_values now m)

-- The columns that a terminal transition takes from the record given.
transition_values : JobRecord → JobRecord → JobRecord
transition_values r j = record j {
  status = r.status;
  result_artifact_id = r.result_artifact_id;
  error_code = r.error_code;
  error_message_safe = r.error_message_safe;
  started_at = r.started_at;
  completed_at = r.completed_at;
  metadata = r.metadata;
}

-- No row changed: the job is missing, is already where it should go, or cannot go there.
resolve_unchanged : JobStatus → Option JobRecord → Tx JobRecord
resolve_unchanged expected none = raise (lookup_error "job not found")
resolve_unchanged expected (some j) =
    if status_eq j.status expected then pure j else raise (runtime_error "job cannot transition")

settled : String → JobStatus → Bool → Tx JobRecord
unfolding resolve_unchanged require_stored get
settled k expected true = require_stored k
settled k expected false = do existing ← get k; resolve_unchanged expected existing

-- The body that `_transition_from_running` and `_transition_from_created` share.
pub transition_from : JobStatus → JobRecord → JobStatus → Tx JobRecord
unfolding update_status transition_values settled
transition_from from r expected = do
  refuse_if (not (status_eq r.status expected)) (value_error "job transition requires status")
  changed ← update_status r.id from (transition_values r)
  settled r.id expected changed

transition_from_running : JobRecord → JobStatus → Tx JobRecord
unfolding transition_from
transition_from_running = transition_from running

transition_from_created : JobRecord → JobStatus → Tx JobRecord
unfolding transition_from
transition_from_created = transition_from created

-- The result artifact exists and belongs to the job and to its session.
check_result_artifact : JobRecord → String → Tx (Unit {0})
check_result_artifact j a s = elim (select artifact_key a s.artifacts) [
  | none ↦ err (lookup_error "result artifact not found")
  | some row ↦ elim row.job_id [
    | none ↦ err (value_error "result artifact must belong to the same job")
    | some owner ↦
        if owner == j.id
        then (if row.scenario_session_id == j.scenario_session_id
            then ok (tt, s)
            else err (value_error "result artifact must match scenario_session_id"))
        else err (value_error "result artifact must belong to the same job")
  ]
]

require_valid_success_record : JobRecord → Tx (Unit {0})
unfolding check_result_artifact
require_valid_success_record j = do
  artifact ← require_some j.result_artifact_id (value_error "succeeded requires result_artifact_id")
  refuse_if (artifact == "") (value_error "succeeded requires result_artifact_id")
  refuse_if (is_none j.completed_at) (value_error "succeeded requires completed_at")
  check_result_artifact j artifact

unfoldable pub mark_succeeded : JobRecord → Tx JobRecord
unfolding require_valid_success_record transition_from_running
mark_succeeded j = do require_valid_success_record j; transition_from_running j succeeded

-- The record with the defaults of a failure, and of a cancellation.
as_failed : ℕ → JobRecord → JobRecord
as_failed now j = record j {
  status = failed;
  error_code = or_text j.error_code "workflow_execution_failed";
  error_message_safe = or_text j.error_message_safe "Workflow execution failed.";
  completed_at = or_instant j.completed_at now;
}

as_canceled : ℕ → JobRecord → JobRecord
as_canceled now j = record j { status = canceled; completed_at = or_instant j.completed_at now }

unfoldable pub mark_failed : ℕ → JobRecord → Tx JobRecord
unfolding as_failed transition_from_running
mark_failed now j = transition_from_running (as_failed now j) failed

unfoldable pub mark_canceled : ℕ → JobRecord → Tx JobRecord
unfolding as_canceled transition_from_running
mark_canceled now j = transition_from_running (as_canceled now j) canceled

unfoldable pub mark_failed_from_created : ℕ → JobRecord → Tx JobRecord
unfolding as_failed transition_from_created
mark_failed_from_created now j = transition_from_created (as_failed now j) failed

-- The fields that `update` may not change agree.
same_immutable_fields : JobRecord → JobRecord → Bool
same_immutable_fields r e =
    r.tenant_id == e.tenant_id
    && r.region == e.region
    && r.product_id == e.product_id
    && r.frontend_id == e.frontend_id
    && r.scenario_session_id == e.scenario_session_id
    && r.workflow_id == e.workflow_id
    && eqb r.workflow_version e.workflow_version
    && mode_eq r.consumption_mode e.consumption_mode
    && eqb r.created_at e.created_at

require_update_invariants : JobRecord → JobRecord → Tx (Unit {0})
unfolding same_immutable_fields
require_update_invariants existing r = do
  refuse_if (not (status_eq r.status existing.status))
      (value_error "job status changes must use repository lifecycle methods")
  refuse_if (not (same_immutable_fields r existing)) (value_error "update cannot change field")

-- Every column but the id.
update_values : JobRecord → JobRecord → JobRecord
update_values r j = record r { id = j.id }

unfoldable pub update : JobRecord → Tx JobRecord
unfolding get require_update_invariants update_status update_values require_stored
update r = do
  found ← get r.id
  existing ← require_some found (lookup_error "job not found")
  require_update_invariants existing r
  changed ← update_status r.id existing.status (update_values r)
  refuse_if (not changed) (runtime_error "job state changed during update")
  require_stored r.id
