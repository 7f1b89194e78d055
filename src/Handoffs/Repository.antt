-- ===== src/Handoffs/Repository.antt =====
-- handoffs/repository.py: `HandoffRepository`, the lifecycle of a handoff row. A call in another
-- tenant or region finds no row.
pub mod Writes
pub mod Lifecycle
pub mod Outcomes
pub mod Tokens
use anytoolai_platform.Prelude.{
  ℕ, String, ◌==◌, Bool, true, false, not, ◌&&◌, ◌||◌, Option, none, some, List, [], ◌∷◌, eqb, ltb,
  leb, is_none, opt_eq, holds_text, if◌then◌else◌,
}
use anytoolai_platform.Prelude.Table.{select, update_where, insert, exists}
use anytoolai_platform.Store.{
  Store, Error, value_error, lookup_error, runtime_error, integrity_error, Result, ok, err, Tx,
  ◌>>=◌, ◌>>◌, pure, raise, refuse_if, require_some,
}
use anytoolai_platform.Scenarios.Models.{ScenarioSessionRecord, session_id}
use anytoolai_platform.Workflows.Models.{JobRecord, job_id}
use anytoolai_platform.Handoffs.Models.{
  HandoffStatus, created, viewed, accepted, declined, consumed, expired, failed, handoff_status_eq,
  HandoffRecord, HandoffTransitionResult, handoff_key,
}

-- The `tenant_id` and `region` of every statement.
pub record Scope : Type 0 where
  pub tenant_id : String
  pub region : String

unfoldable pub in_scope : Scope → HandoffRecord → Bool
in_scope c h = h.tenant_id == c.tenant_id && h.region == c.region

scoped : Scope → Option HandoffRecord → Option HandoffRecord
unfolding in_scope
scoped c none = none
scoped c (some h) = if in_scope c h then some h else none

unfoldable pub get_by_id : Scope → String → Tx (Option HandoffRecord)
unfolding scoped
get_by_id c k s = ok (scoped c (select handoff_key k s.handoffs), s)

pub require : Scope → String → Tx HandoffRecord
unfolding get_by_id
require c k = do row ← get_by_id c k; require_some row (lookup_error "handoff not found")

-- The unique column `token_hash`.
unfoldable pub token_taken : HandoffRecord → Store → Bool
token_taken h s = exists (λ x. x.token_hash == h.token_hash) s.handoffs

unfoldable pub insert_row : HandoffRecord → Tx (Unit {0})
unfolding token_taken
insert_row h s = elim (insert handoff_key h s.handoffs) [
  | none ↦ err (integrity_error "product_handoffs primary key")
  | some rows ↦
      if token_taken h s
      then err (integrity_error "product_handoffs token_hash")
      else ok (tt, record s { handoffs = rows })
]

unfoldable pub create : HandoffRecord → Tx HandoffRecord
unfolding insert_row get_by_id
create h = do
  refuse_if (not (handoff_status_eq h.status created))
      (value_error "handoff creation requires status=created")
  insert_row h
  stored ← get_by_id (record { tenant_id = h.tenant_id; region = h.region }) h.id
  require_some stored (runtime_error "handoff round-trip failed after create")

-- `status.in_(statuses)`
unfoldable pub status_in : List HandoffStatus → HandoffStatus → Bool
status_in [] a = false
status_in (b ∷ bs) a = handoff_status_eq a b || status_in bs a

-- `error_code.is_(None)`
failure_not_reserved : HandoffRecord → Bool
failure_not_reserved h = is_none h.error_code

-- UPDATE product_handoffs SET f WHERE id = k AND scope AND status IN from AND extra
pub update_row :
    Scope
    → String
    → List HandoffStatus
    → (HandoffRecord → Bool)
    → (HandoffRecord → HandoffRecord)
    → Tx Bool
update_row c k from extra f s =
    elim (update_where handoff_key k (λ h. in_scope c h && status_in from h.status && extra h) f
      s.handoffs) [ none ↦ ok (false, s) | some rows ↦ ok (true, record s { handoffs = rows }) ]

abbrev pub waiting : List HandoffStatus
waiting = created ∷ viewed ∷ []

-- `_require` after a transition, with whether the transition changed the row
pub transition_result : Scope → String → Bool → Tx HandoffTransitionResult
unfolding require
transition_result c k changed = do
  row ← require c k
  pure (record { record_ = row; changed = changed })

still_open : ℕ → HandoffRecord → Bool
unfolding failure_not_reserved
still_open now h = ltb now h.expires_at && failure_not_reserved h

viewed_values : ℕ → HandoffRecord → HandoffRecord
viewed_values now h = record h { status = viewed; viewed_at = some now; updated_at = now }

unfoldable pub mark_viewed : Scope → ℕ → String → Tx HandoffTransitionResult
unfolding update_row still_open viewed_values transition_result
mark_viewed c now k = do
  changed ← update_row c k (created ∷ []) (still_open now) (viewed_values now)
  transition_result c k changed

accepted_values : ℕ → Option String → Option String → HandoffRecord → HandoffRecord
accepted_values now guest frontend h = record h {
  status = accepted;
  accepted_at = some now;
  accepted_by_guest_id = guest;
  accepted_from_frontend_instance_id = frontend;
  updated_at = now;
}

pub claimed : Scope → String → Bool → Tx (Option HandoffRecord)
unfolding require
claimed c k false = pure none
claimed c k true = do row ← require c k; pure (some row)

unfoldable pub claim_accept :
    Scope → ℕ → Option String → Option String → String → Tx (Option HandoffRecord)
unfolding update_row still_open accepted_values claimed
claim_accept c now guest frontend k = do
  changed ← update_row c k waiting (still_open now) (accepted_values now guest frontend)
  claimed c k changed

failed_values : ℕ → String → HandoffRecord → HandoffRecord
failed_values now code h = record h {
  status = failed;
  failed_at = some now;
  error_code = some code;
  updated_at = now;
}

unfoldable pub finalize_quota_failure_recovery :
    Scope → ℕ → String → String → Tx HandoffTransitionResult
unfolding update_row failure_not_reserved failed_values transition_result
finalize_quota_failure_recovery c now code k = do
  changed ← update_row c k waiting failure_not_reserved (failed_values now code)
  transition_result c k changed

declined_values : ℕ → HandoffRecord → HandoffRecord
declined_values now h = record h { status = declined; declined_at = some now; updated_at = now }

unfoldable pub decline : Scope → ℕ → String → Tx HandoffTransitionResult
unfolding update_row still_open declined_values transition_result
decline c now k = do
  changed ← update_row c k waiting (still_open now) (declined_values now)
  transition_result c k changed

due : ℕ → HandoffRecord → Bool
unfolding failure_not_reserved
due now h = leb h.expires_at now && failure_not_reserved h

expired_values : ℕ → HandoffRecord → HandoffRecord
expired_values now h = record h { status = expired; expired_at = some now; updated_at = now }

unfoldable pub expire_if_due : Scope → ℕ → String → Tx HandoffTransitionResult
unfolding update_row due expired_values transition_result
expire_if_due c now k = do
  changed ← update_row c k waiting (due now) (expired_values now)
  transition_result c k changed

any_row : HandoffRecord → Bool
any_row h = true

consumed_values : ℕ → HandoffRecord → HandoffRecord
consumed_values now h = record h { status = consumed; consumed_at = some now; updated_at = now }

unfoldable pub consume : Scope → ℕ → String → String → Tx HandoffTransitionResult
unfolding require update_row any_row consumed_values transition_result
consume c now target k = do
  row ← require c k
  refuse_if (not (holds_text row.target_job_id target))
      (value_error "handoff consume requires its linked target job")
  changed ← update_row c k (accepted ∷ []) any_row (consumed_values now)
  transition_result c k changed

unfoldable pub mark_failed : Scope → ℕ → String → String → Tx HandoffTransitionResult
unfolding update_row any_row failed_values transition_result
mark_failed c now code k = do
  changed ← update_row c k waiting any_row (failed_values now code)
  transition_result c k changed

-- The target session continues the handoff's source, in the handoff's target.
session_fits : HandoffRecord → ScenarioSessionRecord → Bool
session_fits h r =
    r.tenant_id == h.tenant_id
    && r.region == h.region
    && r.product_id == h.target_product_id
    && r.frontend_id == h.target_frontend_id
    && r.scenario_id == h.target_scenario_id
    && holds_text r.parent_scenario_session_id h.source_scenario_session_id

job_fits : HandoffRecord → String → JobRecord → Bool
job_fits h session j =
    j.scenario_session_id == session
    && j.tenant_id == h.tenant_id
    && j.region == h.region
    && j.product_id == h.target_product_id
    && j.frontend_id == h.target_frontend_id

require_target_session : HandoffRecord → String → Tx (Unit {0})
unfolding session_fits
require_target_session h session s = elim (select session_id session s.sessions) [
  | none ↦ err (lookup_error "target scenario session not found")
  | some r ↦
      if session_fits h r
      then ok (tt, s)
      else err (value_error "target scenario session does not match handoff")
]

require_target_job : HandoffRecord → String → Option String → Tx (Unit {0})
unfolding job_fits
require_target_job h session none s = ok (tt, s)
require_target_job h session (some job) s = elim (select job_id job s.jobs) [
  | none ↦ err (value_error "target job must belong to target scenario session")
  | some j ↦
      if job_fits h session j
      then ok (tt, s)
      else err (value_error "target job must belong to target scenario session")
]

pub require_target_rows : Scope → String → String → Option String → Tx (Unit {0})
unfolding require require_target_session require_target_job
require_target_rows c k session job = do
  h ← require c k
  require_target_session h session
  require_target_job h session job

unattached : HandoffRecord → Bool
unattached h = is_none h.target_scenario_session_id

attached_values : ℕ → String → Option String → HandoffRecord → HandoffRecord
attached_values now session job h = record h {
  target_scenario_session_id = some session;
  target_job_id = job;
  updated_at = now;
}

-- The statement, which the unique column `target_scenario_session_id` may refuse.
pub attach_row : Scope → ℕ → String → Option String → String → Tx Bool
unfolding update_row unattached attached_values
attach_row c now session job k s =
    elim (update_row c k (accepted ∷ []) unattached (attached_values now session job) s) [
      | err e ↦ err e
      | ok (changed, s') ↦
          if changed && exists (λ x. holds_text x.target_scenario_session_id session) s.handoffs
          then err (integrity_error "product_handoffs target_scenario_session_id")
          else ok (changed, s')
    ]

unfoldable pub attach_target : Scope → ℕ → String → Option String → String → Tx HandoffRecord
unfolding require_target_rows attach_row require
attach_target c now session job k = do
  require_target_rows c k session job
  changed ← attach_row c now session job k
  refuse_if (not changed) (runtime_error "handoff target cannot be attached")
  require c k
