-- ===== src/Scenarios/Checkpoints.antt =====
-- scenarios/checkpoints.py and scenarios/next_actions.py: the checkpoint that a client sees, and
-- whether it allows a next action.
pub mod Actions
use anytoolai_platform.Prelude.{
  String, ◌==◌, ◌≡◌, refl, ◌⊎◌, inl, inr, Bool, true, false, not, ◌&&◌, ◌||◌, Option, none, some,
  List, [], ◌∷◌, holds_text, is_some, arith, if◌then◌else◌, eq_iff,
}
use anytoolai_platform.Store.{Error, platform_error}
use anytoolai_platform.Workflows.Models.{
  JobStatus, created, running, succeeded, failed, canceled, JobRecord,
}
use anytoolai_platform.Scenarios.Models.{
  ScenarioSessionStatus, session_status_eq, ScenarioDefinition, ScenarioSessionRecord,
}
use anytoolai_platform.Scenarios.Sessions.{is_terminal}

abbrev pub processing : String
processing = "processing"

abbrev pub result_ready : String
result_ready = "result_ready"

abbrev pub failed_checkpoint : String
failed_checkpoint = "failed"

abbrev pub handoff_ready : String
handoff_ready = "handoff_ready"

pub record ScenarioCheckpointState : Type 0 where
  pub checkpoint_id : String
  pub actionable : Bool
  pub allowed_next_actions : List String

status_of_job : JobStatus → ScenarioSessionStatus
status_of_job created = ScenarioSessionStatus.started
status_of_job running = ScenarioSessionStatus.running
status_of_job succeeded = ScenarioSessionStatus.completed
status_of_job _ = ScenarioSessionStatus.failed

unfoldable pub resolve_effective_status :
    ScenarioSessionRecord → Option JobRecord → ScenarioSessionStatus
unfolding is_terminal status_of_job
resolve_effective_status s job =
    if is_terminal s.status
    then s.status
    else elim job [ none ↦ s.status | some j ↦ status_of_job j.status ]

-- The stored checkpoint, where it is one of those that a running session keeps.
kept_checkpoint : Option String → String
kept_checkpoint none = processing
kept_checkpoint (some c) = if c == processing || c == handoff_ready then c else processing

unfoldable pub resolved_checkpoint_id : ScenarioSessionRecord → Option JobRecord → String
unfolding kept_checkpoint
resolved_checkpoint_id s job =
    if holds_text s.current_checkpoint_id result_ready
    then result_ready
    else if holds_text s.current_checkpoint_id failed_checkpoint
    then failed_checkpoint
    else if session_status_eq (resolve_effective_status s job) ScenarioSessionStatus.completed
    then result_ready
    else if session_status_eq (resolve_effective_status s job) ScenarioSessionStatus.failed
    then failed_checkpoint
    else kept_checkpoint s.current_checkpoint_id

granted : Option ScenarioDefinition → String → ScenarioCheckpointState
granted none c = record { checkpoint_id = c; actionable = false; allowed_next_actions = [] }
granted (some d) c =
    if c == result_ready
    then record {
      checkpoint_id = c;
      actionable = true;
      allowed_next_actions = d.allowed_next_actions;
    }
    else record { checkpoint_id = c; actionable = false; allowed_next_actions = [] }

unfoldable pub resolve_checkpoint_state :
    Option ScenarioDefinition → ScenarioSessionRecord → Option JobRecord → ScenarioCheckpointState
unfolding granted
resolve_checkpoint_state scenario s job = granted scenario (resolved_checkpoint_id s job)

-- `in` on a tuple of texts
pub contains : List String → String → Bool
contains [] a = false
contains (b ∷ bs) a = b == a || contains bs a

-- `none` where the action is allowed, else the error that is raised.
unfoldable pub validate_next_action : String → ScenarioCheckpointState → String → Option Error
unfolding contains
validate_next_action expected current action =
    if not (expected == current.checkpoint_id)
    then some (platform_error "scenario_checkpoint_conflict")
    else if not current.actionable
    then some (platform_error "scenario_checkpoint_not_actionable")
    else if not (contains current.allowed_next_actions action)
    then some (platform_error "scenario_next_action_not_allowed")
    else none
