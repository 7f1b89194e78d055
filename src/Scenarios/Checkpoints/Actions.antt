-- ===== src/Scenarios/Checkpoints/Actions.antt =====
-- What an allowed next action says of the session, its job and its definition.
use anytoolai_platform.Prelude.{
  String, ◌≡◌, ◌≢◌, ◌⊎◌, inl, inr, refl, true, false, Option, none, some, holds_text, arith,
  Bool-cases, eq_iff, eq_refl, ap, if◌then◌else◌, ◌↔◌,
}
use anytoolai_platform.Workflows.Models.{JobStatus, succeeded, JobRecord}
use anytoolai_platform.Scenarios.Models.{
  ScenarioSessionStatus, session_status_eq, ScenarioDefinition, ScenarioSessionRecord,
}
use anytoolai_platform.Scenarios.Sessions.{is_terminal}
use anytoolai_platform.Scenarios.Checkpoints.{
  result_ready, failed_checkpoint, resolve_effective_status, resolved_checkpoint_id,
  resolve_checkpoint_state, granted, contains, validate_next_action, status_of_job, kept_checkpoint,
}

pub next_action_allowed :
    (scenario : Option ScenarioDefinition) (s : ScenarioSessionRecord) (job : Option JobRecord)
    (expected action : String)
    → validate_next_action expected (resolve_checkpoint_state scenario s job) action ≡ none
    → (d : ScenarioDefinition) × (scenario ≡ some d)
      × (expected ≡ result_ready)
      × (resolved_checkpoint_id s job ≡ result_ready)
      × (contains d.allowed_next_actions action ≡ true)
unfolding validate_next_action resolve_checkpoint_state granted
next_action_allowed none s job expected action h = absurd (ground arith)
next_action_allowed (some d) s job expected action h =
    let c : String = resolved_checkpoint_id s job in
    (
      d,
      cc,
      ground (arith, eq_iff expected c, eq_iff c result_ready),
      ground (arith, eq_iff c result_ready),
      ground (arith, eq_iff c result_ready),
    )

status_of_job_completed :
    (a : JobStatus) → status_of_job a ≡ ScenarioSessionStatus.completed → a ≡ succeeded
unfolding status_of_job
status_of_job_completed a h = ground arith

kept-ne-result_ready : (c : Option String) → kept_checkpoint c ≢ result_ready
unfolding kept_checkpoint
kept-ne-result_ready none h = absurd (ground (arith, eq_iff "processing" result_ready))
kept-ne-result_ready (some c) h = ground (
  arith,
  eq_iff c "processing",
  eq_iff c "handoff_ready",
  eq_iff "processing" result_ready,
  eq_iff "handoff_ready" result_ready,
)

eq→completed :
    (a : ScenarioSessionStatus)
    → session_status_eq a ScenarioSessionStatus.completed ≡ true
    → a ≡ ScenarioSessionStatus.completed
eq→completed a h = ground arith

completed_or_stored :
    (s : ScenarioSessionRecord) (job : Option JobRecord)
    → resolved_checkpoint_id s job ≡ result_ready
    → (holds_text s.current_checkpoint_id result_ready ≡ true)
      ⊎ (session_status_eq (resolve_effective_status s job) ScenarioSessionStatus.completed ≡ true)
unfolding resolved_checkpoint_id
completed_or_stored s job h = elim (Bool-cases (holds_text s.current_checkpoint_id result_ready)) [
  | inl stored ↦ inl stored
  | inr other ↦
      elim (Bool-cases
        (session_status_eq (resolve_effective_status s job) ScenarioSessionStatus.completed)) [
          | inl done ↦ inr done
          | inr open_ ↦ absurd (
              ground
                (arith, eq_iff "failed" result_ready, kept-ne-result_ready s.current_checkpoint_id))
        ]
]

-- The session shows its result: its checkpoint says so, or else says no failure, and the session is
-- completed or, short of a failure and an expiry, its job succeeded.
abbrev pub IsReady : ScenarioSessionRecord → Option JobRecord → Type 0
IsReady s job =
    (s.current_checkpoint_id ≡ some result_ready)
    ⊎ ((s.current_checkpoint_id ≢ some failed_checkpoint)
        × ((s.status ≡ ScenarioSessionStatus.completed)
            ⊎ ((s.status ≢ ScenarioSessionStatus.failed)
                × (s.status ≢ ScenarioSessionStatus.expired)
                × (j : JobRecord) × (job ≡ some j)
                × (j.status ≡ succeeded))))

holds_text-some : (o : Option String) (k : String) → holds_text o k ≡ true → o ≡ some k
holds_text-some none k h = cc
holds_text-some (some c) k h = ap some ((eq_iff c k).0 h)

some-holds_text : (o : Option String) (k : String) → o ≡ some k → holds_text o k ≡ true
some-holds_text o k e = rw e (eq_refl k)

live-not_ended :
    (a : ScenarioSessionStatus)
    → is_terminal a ≡ false
    → (a ≢ ScenarioSessionStatus.failed) × (a ≢ ScenarioSessionStatus.expired)
unfolding is_terminal
live-not_ended a h = (λ e. ground arith, λ e. ground arith)

completed_by :
    (s : ScenarioSessionRecord) (job : Option JobRecord)
    → resolve_effective_status s job ≡ ScenarioSessionStatus.completed
    → (s.status ≡ ScenarioSessionStatus.completed)
      ⊎ ((s.status ≢ ScenarioSessionStatus.failed)
          × (s.status ≢ ScenarioSessionStatus.expired)
          × (j : JobRecord) × (job ≡ some j)
          × (j.status ≡ succeeded))
unfolding resolve_effective_status
completed_by s none h = inl (ground arith)
completed_by s (some j) h = elim (Bool-cases (is_terminal s.status)) [
  | inl ended ↦ inl (ground arith)
  | inr live ↦
      let (open_, current) = live-not_ended s.status live in
      inr (open_, current, j, refl, status_of_job_completed j.status (ground arith))
]

resolved-IsReady :
    (s : ScenarioSessionRecord) (job : Option JobRecord)
    → resolved_checkpoint_id s job ≡ result_ready
    → IsReady s job
unfolding resolved_checkpoint_id
resolved-IsReady s job h = elim (Bool-cases (holds_text s.current_checkpoint_id result_ready)) [
  | inl stored ↦ inl (holds_text-some s.current_checkpoint_id result_ready stored)
  | inr other ↦ inr (
    λ e.
        let broken = some-holds_text s.current_checkpoint_id failed_checkpoint e in
        ground (arith, eq_iff "failed" result_ready, other, broken, h),
    elim (completed_or_stored s job h) [
      | inl stored ↦ absurd (ground arith)
      | inr done ↦ completed_by s job (eq→completed (resolve_effective_status s job) done)
    ],
  )
]

by_job :
    (a : ScenarioSessionStatus) (j : JobRecord)
    → a ≢ ScenarioSessionStatus.failed
    → a ≢ ScenarioSessionStatus.expired
    → j.status ≡ succeeded
    → (if is_terminal a then a else status_of_job j.status) ≡ ScenarioSessionStatus.completed
unfolding is_terminal status_of_job
by_job ScenarioSessionStatus.failed j nf ne e = absurd (nf refl)
by_job ScenarioSessionStatus.expired j nf ne e = absurd (ne refl)
by_job ScenarioSessionStatus.completed j nf ne e = refl
by_job ScenarioSessionStatus.started j nf ne e = rw e refl
by_job ScenarioSessionStatus.waiting_for_user j nf ne e = rw e refl
by_job ScenarioSessionStatus.running j nf ne e = rw e refl

effective_completed :
    (s : ScenarioSessionRecord) (job : Option JobRecord)
    → (s.status ≡ ScenarioSessionStatus.completed)
      ⊎ ((s.status ≢ ScenarioSessionStatus.failed)
          × (s.status ≢ ScenarioSessionStatus.expired)
          × (j : JobRecord) × (job ≡ some j)
          × (j.status ≡ succeeded))
    → resolve_effective_status s job ≡ ScenarioSessionStatus.completed
unfolding resolve_effective_status is_terminal
effective_completed s job (inl e) = ground arith
effective_completed s job (inr (nf, ne, j, e, d)) = rw e (by_job s.status j nf ne d)

IsReady-resolved :
    (s : ScenarioSessionRecord) (job : Option JobRecord)
    → IsReady s job
    → resolved_checkpoint_id s job ≡ result_ready
unfolding resolved_checkpoint_id
IsReady-resolved s job (inl e) =
    rw (some-holds_text s.current_checkpoint_id result_ready e, if◌then◌else◌) refl
IsReady-resolved s job (inr (sound, c)) =
    elim (Bool-cases (holds_text s.current_checkpoint_id failed_checkpoint)) [
      | inl broken ↦
          absurd (sound (holds_text-some s.current_checkpoint_id failed_checkpoint broken))
      | inr kept ↦ ground (arith, kept, effective_completed s job c)
    ]

allowed_at :
    (d : ScenarioDefinition) (s : ScenarioSessionRecord) (job : Option JobRecord) (action : String)
    → resolved_checkpoint_id s job ≡ result_ready
    → contains d.allowed_next_actions action ≡ true
    → validate_next_action result_ready (resolve_checkpoint_state (some d) s job) action ≡ none
unfolding validate_next_action resolve_checkpoint_state granted
allowed_at d s job action at listed = rw (at, listed) refl

-- A next action passes validation against the resolved checkpoint exactly if the client named
-- result_ready, the scenario is configured and lists the action, and the session is ready: its
-- checkpoint is stored as result_ready, or it is not stored as failed, and the session is
-- completed, or it has neither failed nor expired and its job succeeded.
pub next_action_iff :
    (scenario : Option ScenarioDefinition) (s : ScenarioSessionRecord) (job : Option JobRecord)
    (expected action : String)
    → (validate_next_action expected (resolve_checkpoint_state scenario s job) action ≡ none) ↔ (
        (expected ≡ result_ready)
        × IsReady s job
        × (d : ScenarioDefinition) × (scenario ≡ some d)
        × (contains d.allowed_next_actions action ≡ true))
next_action_iff scenario s job expected action = (
  λ h.
      let (d, e, named, at, listed) = next_action_allowed scenario s job expected action h in
      (named, resolved-IsReady s job at, d, e, listed),
  λ (named, ready, d, e, listed).
      rw (e, named) (allowed_at d s job action (IsReady-resolved s job ready) listed),
)
