-- ===== src/Handoffs/Repository/Lifecycle.antt =====
-- The calls of the handoff repository, against the state machine of a handoff.
use anytoolai_platform.Prelude.{
  ℕ, String, ◌≡◌, refl, Bool, true, not, Option, List, [], ◌∷◌, holds_text,
}
use anytoolai_platform.Store.{Store, value_error, runtime_error, after, ◌>>=◌}
use anytoolai_platform.Store.Ensures.{
  Ensures, Ensures-then_read, Ensures-read_then, Ensures-refuse_if, after-Ensures,
}
use anytoolai_platform.Handoffs.Models.{
  HandoffStatus, created, viewed, accepted, consumed, HandoffRecord,
}
use anytoolai_platform.Handoffs.Repository.{
  Scope, require, status_in, waiting, update_row, transition_result, attach_row,
  require_target_rows, create, mark_viewed, claim_accept, finalize_quota_failure_recovery, decline,
  expire_if_due, consume, mark_failed, attach_target, still_open, viewed_values, accepted_values,
  failed_values, failure_not_reserved, declined_values, due, expired_values, any_row,
  consumed_values,
}
use anytoolai_platform.Handoffs.Repository.Writes.{
  Moves, views, accepts_, declines_, expires, fails_, consumes_, HandoffsMove, HandoffsMove-refl,
  HandoffsMove-update_row, HandoffsMove-create, HandoffsMove-attach_row, Reads-require,
  Reads-transition_result, Reads-claimed, Reads-require_target_rows,
}

-- One call of the repository that may write.
pub data HandoffCall : Type 0 where
  creates : HandoffRecord → HandoffCall
  marks_viewed : Scope → ℕ → String → HandoffCall
  claims : Scope → ℕ → Option String → Option String → String → HandoffCall
  recovers_quota : Scope → ℕ → String → String → HandoffCall
  attaches : Scope → ℕ → String → Option String → String → HandoffCall
  declines : Scope → ℕ → String → HandoffCall
  expires_due : Scope → ℕ → String → HandoffCall
  consumes : Scope → ℕ → String → String → HandoffCall
  fails : Scope → ℕ → String → String → HandoffCall

-- The store after the call: what it wrote, or nothing where it raises.
unfoldable pub run_call : HandoffCall → Store → Store
run_call (creates h) s = after (create h s) s
run_call (marks_viewed c now k) s = after (mark_viewed c now k s) s
run_call (claims c now guest frontend k) s = after (claim_accept c now guest frontend k s) s
run_call (recovers_quota c now code k) s = after (finalize_quota_failure_recovery c now code k s) s
run_call (attaches c now session job k) s = after (attach_target c now session job k s) s
run_call (declines c now k) s = after (decline c now k s) s
run_call (expires_due c now k) s = after (expire_if_due c now k s) s
run_call (consumes c now target k) s = after (consume c now target k s) s
run_call (fails c now code k) s = after (mark_failed c now code k s) s

unfoldable pub run_calls : List HandoffCall → Store → Store
run_calls [] s = s
run_calls (c ∷ cs) s = run_calls cs (run_call c s)

from_created : (a : HandoffStatus) → status_in (created ∷ []) a ≡ true → Moves a viewed
unfolding status_in
from_created created h = views
from_created _ h = cc

from_accepted : (a : HandoffStatus) → status_in (accepted ∷ []) a ≡ true → Moves a consumed
unfolding status_in
from_accepted accepted h = consumes_
from_accepted _ h = cc

module _ (c : Scope) (k : String) (from : List HandoffStatus) (extra : HandoffRecord → Bool)
    (f : HandoffRecord → HandoffRecord) (keeps : (r : HandoffRecord) → (f r).id ≡ r.id)
    (moves : (r : HandoffRecord)
      → status_in from r.status ≡ true
      → Moves r.status (f r).status) where
  HandoffsMove-transition :
      Ensures HandoffsMove
        (update_row c k from extra f >>= λ changed. transition_result c k changed)
  HandoffsMove-transition =
      Ensures-then_read HandoffsMove (update_row c k from extra f)
        (λ changed. transition_result c k changed)
        (HandoffsMove-update_row c k from extra f keeps moves) (Reads-transition_result c k)

HandoffsMove-claim_accept :
    (c : Scope) (now : ℕ) (guest frontend : Option String) (k : String)
    → Ensures HandoffsMove (claim_accept c now guest frontend k)
unfolding claim_accept
HandoffsMove-claim_accept c now guest frontend k =
    Ensures-then_read HandoffsMove _ _
      (HandoffsMove-update_row c k waiting (still_open now) (accepted_values now guest frontend)
        (λ r. refl) (λ r h. accepts_ h))
      (Reads-claimed c k)

HandoffsMove-consume :
    (c : Scope) (now : ℕ) (target k : String) → Ensures HandoffsMove (consume c now target k)
unfolding consume
HandoffsMove-consume c now target k =
    Ensures-read_then HandoffsMove (require c k) _ (Reads-require c k) λ row.
      Ensures-refuse_if HandoffsMove (not (holds_text row.target_job_id target))
        (value_error "handoff consume requires its linked target job") _
        λ _.
          HandoffsMove-transition c k (accepted ∷ []) any_row (consumed_values now) (λ r. refl)
            (λ r h. from_accepted r.status h)

HandoffsMove-attach_target :
    (c : Scope) (now : ℕ) (session : String) (job : Option String) (k : String)
    → Ensures HandoffsMove (attach_target c now session job k)
unfolding attach_target
HandoffsMove-attach_target c now session job k =
    Ensures-read_then HandoffsMove (require_target_rows c k session job) _
      (Reads-require_target_rows c k session job)
      λ _.
        Ensures-then_read HandoffsMove (attach_row c now session job k) _
          (HandoffsMove-attach_row c now session job k)
          λ changed.
            Ensures-refuse_if _ (not changed) (runtime_error "handoff target cannot be attached") _
              λ _. Reads-require c k

-- Every call of the handoff repository, returning or raising, moves each stored handoff by at most
-- one edge of the handoff state machine and loses none.
pub run_call-HandoffsMove : (x : HandoffCall) (s : Store) → HandoffsMove s (run_call x s)
unfolding run_call
run_call-HandoffsMove (creates h) s =
    after-Ensures HandoffsMove (create h) s (HandoffsMove-refl s) (HandoffsMove-create h)
run_call-HandoffsMove (marks_viewed c now k) s =
    after-Ensures HandoffsMove (mark_viewed c now k) s (HandoffsMove-refl s) (
      unfold mark_viewed in
      HandoffsMove-transition c k (created ∷ []) (still_open now) (viewed_values now) (λ r. refl)
        (λ r h. from_created r.status h))
run_call-HandoffsMove (claims c now guest frontend k) s =
    after-Ensures HandoffsMove (claim_accept c now guest frontend k) s (HandoffsMove-refl s)
      (HandoffsMove-claim_accept c now guest frontend k)
run_call-HandoffsMove (recovers_quota c now code k) s =
    after-Ensures HandoffsMove (finalize_quota_failure_recovery c now code k) s
      (HandoffsMove-refl s)
      (unfold finalize_quota_failure_recovery in
        HandoffsMove-transition c k waiting failure_not_reserved (failed_values now code)
          (λ r. refl) (λ r h. fails_ h))
run_call-HandoffsMove (attaches c now session job k) s =
    after-Ensures HandoffsMove (attach_target c now session job k) s (HandoffsMove-refl s)
      (HandoffsMove-attach_target c now session job k)
run_call-HandoffsMove (declines c now k) s =
    after-Ensures HandoffsMove (decline c now k) s (HandoffsMove-refl s) (
      unfold decline in
      HandoffsMove-transition c k waiting (still_open now) (declined_values now) (λ r. refl)
        (λ r h. declines_ h))
run_call-HandoffsMove (expires_due c now k) s =
    after-Ensures HandoffsMove (expire_if_due c now k) s (HandoffsMove-refl s) (
      unfold expire_if_due in
      HandoffsMove-transition c k waiting (due now) (expired_values now) (λ r. refl)
        (λ r h. expires h))
run_call-HandoffsMove (consumes c now target k) s =
    after-Ensures HandoffsMove (consume c now target k) s (HandoffsMove-refl s)
      (HandoffsMove-consume c now target k)
run_call-HandoffsMove (fails c now code k) s =
    after-Ensures HandoffsMove (mark_failed c now code k) s (HandoffsMove-refl s) (
      unfold mark_failed in
      HandoffsMove-transition c k waiting any_row (failed_values now code) (λ r. refl)
        (λ r h. fails_ h))
