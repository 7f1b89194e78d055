-- ===== src/Witnesses/Lifecycles.antt =====
-- The lifecycles of jobs, handoffs and sessions, on the sample rows.
use anytoolai_platform.Prelude.{◌≡◌, ◌∷◌, [], refl, some, none, true, not, List, inl, ◌↔◌}
use anytoolai_platform.Prelude.Table.{select, update_where, modify}
use anytoolai_platform.Store.{Store, ok, after}
use anytoolai_platform.Workflows.Jobs.{claim_created, cancel_created}
use anytoolai_platform.Workflows.Jobs.Claims.{claimed_once}
use anytoolai_platform.Workflows.Models.{JobRecord, job_id, JobStatus}
use anytoolai_platform.Workflows.Jobs.Writes.{JobsMove}
use anytoolai_platform.Workflows.Jobs.Lifecycle.{
  JobCall, claims, succeeds, updates, run_call, run_calls, run_call-JobsMove, job_terminal_forever,
}
use anytoolai_platform.Handoffs.Models.{HandoffRecord, handoff_key}
use anytoolai_platform.Handoffs.Repository.{claim_accept, expire_if_due, in_scope, status_in}
use anytoolai_platform.Handoffs.Repository.Writes.{HandoffsMove}
use anytoolai_platform.Handoffs.Repository.Lifecycle.{HandoffCall, expires_due, marks_viewed}
use anytoolai_platform.Handoffs.Repository.Lifecycle
use anytoolai_platform.Handoffs.Repository.Outcomes.{
  handoff_terminal_forever, accept_xor_expire, did_claim, did_change,
}
use anytoolai_platform.Scenarios.Sessions.{update}
use anytoolai_platform.Scenarios.Sessions.Terminal.{SessionsKeep, update-SessionsKeep}
use anytoolai_platform.Scenarios.Models.{ScenarioDefinition}
use anytoolai_platform.Scenarios.Checkpoints.{
  result_ready, contains, validate_next_action, resolve_checkpoint_state,
}
use anytoolai_platform.Scenarios.Checkpoints.Actions.{IsReady, next_action_iff}
use anytoolai_platform.Witnesses.Rows.{
  job, failed_job, session, session_scope, definition, handoff, declined_handoff, scope, store,
  ended_store,
}

-- A success, then a second claim and an update of the job that failed.
abbrev late_calls : List JobCall
late_calls = succeeds job ∷ claims 8 "j1" none ∷ updates job ∷ []

abbrev late_handoff_calls : List HandoffCall
late_handoff_calls = marks_viewed scope 8 "h1" ∷ expires_due scope 200 "h1" ∷ []

run_call-JobsMove_example : JobsMove store (run_call (claims 8 "j1" none) store)
run_call-JobsMove_example = run_call-JobsMove (claims 8 "j1" none) store

job_terminal_forever_example :
    (j : JobRecord) × (select job_id "j1" (run_calls late_calls ended_store).jobs ≡ some j)
    × (j.status ≡ JobStatus.failed)
unfolding select
job_terminal_forever_example = job_terminal_forever late_calls ended_store "j1" failed_job refl refl

run_call-HandoffsMove_example :
    HandoffsMove store (Lifecycle.run_call (expires_due scope 200 "h1") store)
run_call-HandoffsMove_example = Lifecycle.run_call-HandoffsMove (expires_due scope 200 "h1") store

handoff_terminal_forever_example :
    (h : HandoffRecord) × (select handoff_key "h1"
        (Lifecycle.run_calls late_handoff_calls ended_store).handoffs
      ≡ some h)
    × (h.status ≡ declined_handoff.status)
unfolding select
handoff_terminal_forever_example =
    handoff_terminal_forever late_handoff_calls ended_store "h1" declined_handoff refl refl

accept_xor_expire_example :
    (did_claim (claim_accept scope 99 (some "g1") none "h1" store) ≡ true)
    × (did_change (expire_if_due scope 99 "h1" store) ≡ not true)
unfolding select in_scope status_in
accept_xor_expire_example =
    accept_xor_expire scope 99 (some "g1") none "h1" store handoff refl refl refl refl

update-SessionsKeep_example : SessionsKeep store (after (update session_scope session store) store)
update-SessionsKeep_example = update-SessionsKeep session_scope session store

-- The session still runs, and its job has succeeded.
abbrev done_job : JobRecord
done_job = record job { status = JobStatus.succeeded }

next_action_iff_example :
    (validate_next_action "result_ready"
        (resolve_checkpoint_state (some definition) session (some done_job))
        "refine"
      ≡ none)
    ↔ (("result_ready" ≡ result_ready)
        × IsReady session (some done_job)
        × (d : ScenarioDefinition) × (some definition ≡ some d)
        × (contains d.allowed_next_actions "refine" ≡ true))
next_action_iff_example =
    next_action_iff (some definition) session (some done_job) "result_ready" "refine"

-- The job waits for a worker, and a worker claims it.
abbrev waiting_store : Store
waiting_store = record store {
  jobs = record job { status = JobStatus.created; started_at = none } ∷ [];
}

claimed_once_example :
    (claim_created 8 "j1" none store ≡ ok (none, store))
    × (cancel_created 8 "j1" none store ≡ ok (none, store))
unfolding claim_created select update_where modify
claimed_once_example = claimed_once 5 8 "j1" none none waiting_store store job (inl refl)
