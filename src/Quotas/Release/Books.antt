-- ===== src/Quotas/Release/Books.antt =====
-- quotas/finalization.py: the steps of a release that leave the quota tables as they are.
use anytoolai_platform.Prelude.{
  ℕ, String, Bool, true, false, not, ◌||◌, Option, none, some, List, ◌≡◌, refl, sym, ap, ◌∙◌, arith,
  Option-cases, inl, inr, holds_text, if◌then◌else◌,
}
use mathlib.Core.Path.{subst}
use anytoolai_platform.Prelude.Table.{update_where}
use anytoolai_platform.Store.{
  Store, lookup_error, runtime_error, ok, Tx, ◌>>=◌, >>=-eq-ok, pure, require_some,
}
use anytoolai_platform.Store.Ensures.{
  Reads, Ensures, Reads-pure, Ensures-read_then, Reads-require_some,
}
use anytoolai_platform.Store.Commits.{
  Commits, Ensures-Commits, Commits-Reads, Commits-step, Commits-require_some, Commits-refuse_if,
  Commits-last,
}
use anytoolai_platform.Json.{Fields, text, field, empty}
use anytoolai_platform.Events.Models.{ExecutionContext}
use anytoolai_platform.Events.Emitter.{Emission}
use anytoolai_platform.Events.Emitter.Stored.{KeepsRest}
use anytoolai_platform.Scenarios.Models.{
  ScenarioSessionRecord, session_id, session_status_eq, started, running, failed,
}
use anytoolai_platform.Scenarios.Sessions.{
  SessionScope, get, in_scope, update_values, write_row, refused, require_stored, scope_of, update,
}
use anytoolai_platform.Scenarios.Sessions.Terminal.{Reads-get, Reads-require_stored}
use anytoolai_platform.Scenarios.Checkpoints.{failed_checkpoint}
use anytoolai_platform.Scenarios.Service.{
  Minted, emit_event, emit_checkpoint, mark_failed, event, ended_values, scenario_properties,
  event_context_from_record, session_status_value,
}
use anytoolai_platform.Scenarios.Service.Started.{emit_event-KeepsRest}
use anytoolai_platform.Workflows.Models.{JobRecord}
use anytoolai_platform.Quotas.Balance.{IsBalanced}
use anytoolai_platform.Quotas.Models.{
  ExecutionOwner, ExecutionOwnerKind, guest, portal_user, ExecutionReservation,
}
use anytoolai_platform.Quotas.Events.{
  ExecutionQuotaEvent, original_bucket, emit_bucket_quota_event, bucket_event,
  emit_execution_quota_event, state_value,
}
use anytoolai_platform.Quotas.Readback.{read_consumption, read_kind, read_paid, read_guest}
use anytoolai_platform.Quotas.Usage
use anytoolai_platform.Quotas.Paid
use anytoolai_platform.Quotas.Release.{fail_open_scenario, release_error_code, context}

pub record SameBooks (s t : Store) : Type 0 where
  pub usages : t.usages ≡ s.usages
  pub allowances : t.allowances ≡ s.allowances
  pub reservations : t.reservations ≡ s.reservations

pub SameBooks-refl : (s : Store) → SameBooks s s
SameBooks-refl s = record { usages = refl; allowances = refl; reservations = refl }

pub SameBooks-trans : (s t u : Store) → SameBooks s t → SameBooks t u → SameBooks s u
SameBooks-trans s t u h k = record {
  usages = k.usages ∙ h.usages;
  allowances = k.allowances ∙ h.allowances;
  reservations = k.reservations ∙ h.reservations;
}

pub IsBalanced-SameBooks : (s t : Store) → SameBooks s t → IsBalanced s → IsBalanced t
IsBalanced-SameBooks s t h bal = record {
  usages = rw (h.usages, h.reservations) bal.usages;
  allowances = rw (h.allowances, h.reservations) bal.allowances;
}

SameBooks-KeepsRest : (s t : Store) → KeepsRest s t → SameBooks s t
SameBooks-KeepsRest s t (es, e) = record {
  usages = ap (λ x. x.usages) e;
  allowances = ap (λ x. x.allowances) e;
  reservations = ap (λ x. x.reservations) e;
}

SameBooks-write_row :
    (c : SessionScope) (k : String) (r : ScenarioSessionRecord) (s t : Store) (b : Bool)
    → write_row c k r s ≡ ok (b, t)
    → SameBooks s t
unfolding write_row
SameBooks-write_row c k r s t b e =
    elim (Option-cases (update_where session_id k (in_scope c) (update_values r) s.sessions)) [
      | inl n ↦ record {
        usages = ground arith;
        allowances = ground arith;
        reservations = ground arith;
      }
      | inr (rows, y) ↦ record {
        usages = ground arith;
        allowances = ground arith;
        reservations = ground arith;
      }
    ]

Commits-update :
    (c : SessionScope) (r : ScenarioSessionRecord) (s : Store)
    → Commits s (SameBooks s) (update c r)
unfolding update
Commits-update c r s = Commits-Reads s _ (get c r.id) _ (Reads-get c r.id) λ found read.
    Commits-require_some s _ found (lookup_error "scenario session not found") _ λ x is_x.
      Commits-refuse_if s _ (refused x.status r.status)
        (runtime_error "scenario is already terminal") _
        λ allowed. Commits-step s _ (write_row c r.id r) _ λ b t wrote.
          Commits-refuse_if t _ (not b) (lookup_error "scenario session not found") _ λ _.
            Commits-last t _ (require_stored (scope_of x) r.id)
              (SameBooks-write_row c r.id r s t b wrote) (Reads-require_stored (scope_of x) r.id)

-- Whenever the step returns, the quota tables are as before.
abbrev pub LeavesBooks : {A : Type 0} → Tx A → Type 0
LeavesBooks m = Ensures SameBooks m

pub LeavesBooks-bind :
    {A B : Type 0} (m : Tx A) (f : A → Tx B)
    → LeavesBooks m
    → ((a : A) → LeavesBooks (f a))
    → LeavesBooks (m >>= f)
LeavesBooks-bind m f hm hf = record {
  at = λ s b u e.
      let (a, t, e₁, e₂) = >>=-eq-ok m f s e in
      SameBooks-trans s t u (hm.at s a t e₁) ((hf a).at t b u e₂);
}

pub LeavesBooks-Reads : {A : Type 0} (m : Tx A) → Reads m → LeavesBooks m
LeavesBooks-Reads m h = record {
  at = λ s a t e. subst (SameBooks s) (sym (h.at s a t e)) (SameBooks-refl s);
}

LeavesBooks-if :
    {A : Type 0} (b : Bool) (m n : Tx A)
    → LeavesBooks m
    → LeavesBooks n
    → LeavesBooks (if b then m else n)
LeavesBooks-if true m n h k = h
LeavesBooks-if false m n h k = k

LeavesBooks-update : (c : SessionScope) (r : ScenarioSessionRecord) → LeavesBooks (update c r)
LeavesBooks-update c r = Ensures-Commits SameBooks (update c r) (Commits-update c r)

Reads-read_kind :
    (kind : ExecutionOwnerKind) (now : ℕ) (o : ExecutionOwner) (k : String)
    → Reads (read_kind kind now o k)
unfolding read_kind Paid.get_owned Usage.get_owned
Reads-read_kind portal_user now o k =
    Ensures-read_then _ (Paid.get_owned o k) _ (Reads-pure _)
      (λ row. Reads-pure (λ s. read_paid now o row))
Reads-read_kind guest now o k =
    Ensures-read_then _ (Usage.get_owned o k) _ (Reads-pure _)
      (λ row. Reads-pure (λ s. read_guest now o row))

Reads-read_consumption :
    (now : ℕ) (o : ExecutionOwner) (k : String) → Reads (read_consumption now o k)
unfolding read_consumption
Reads-read_consumption now o k = Reads-read_kind o.owner_kind now o k

module _ (sha256_hex : String → String) (casefold : String → String)
    (platform_events : List String) where
  LeavesBooks-emit_event :
      (m : Minted) (n : ℕ) (a : Emission) (c : ExecutionContext)
      → LeavesBooks (emit_event sha256_hex casefold platform_events m n a c)
  LeavesBooks-emit_event m n a c = record {
    at = λ s u t h.
        SameBooks-KeepsRest s t
          (emit_event-KeepsRest sha256_hex casefold platform_events m n a c s t h);
  }

  LeavesBooks-emit_checkpoint :
      (m : Minted) (x : ScenarioSessionRecord) (k : String) (d : Fields) (c : ExecutionContext)
      → LeavesBooks (emit_checkpoint sha256_hex casefold platform_events m x k d c)
  unfolding emit_checkpoint
  LeavesBooks-emit_checkpoint m x k d c =
      LeavesBooks-if (holds_text x.current_checkpoint_id k) _ _
        (LeavesBooks-Reads (pure tt) (Reads-pure (λ s. tt)))
        (LeavesBooks-emit_event m 2 (event "scenario.checkpoint_reached" none d) c)

  pub LeavesBooks-mark_failed :
      (m : Minted) (x : ScenarioSessionRecord) (code : String) (c : Option ExecutionContext)
      → LeavesBooks (mark_failed sha256_hex casefold platform_events m x code c)
  unfolding mark_failed
  LeavesBooks-mark_failed m x code c =
      LeavesBooks-bind
        (update (scope_of x) (ended_values failed failed_checkpoint (m.clock 0) (m.clock 1) x)) _
        (LeavesBooks-update (scope_of x)
          (ended_values failed failed_checkpoint (m.clock 0) (m.clock 1) x))
        λ y.
          LeavesBooks-bind
            (emit_checkpoint sha256_hex casefold platform_events m x failed_checkpoint
              (field "checkpoint_id" (text failed_checkpoint)
                (field "error_code" (text code) (scenario_properties y)))
              (event_context_from_record y c))
            _
            (LeavesBooks-emit_checkpoint m x failed_checkpoint
              (field "checkpoint_id" (text failed_checkpoint)
                (field "error_code" (text code) (scenario_properties y)))
              (event_context_from_record y c))
            λ _.
              LeavesBooks-bind
                (emit_event sha256_hex casefold platform_events m 3
                  (event "scenario.failed" (some (session_status_value y.status))
                    (field "error_code" (text code) (scenario_properties y)))
                  (event_context_from_record y c))
                _
                (LeavesBooks-emit_event m 3
                  (event "scenario.failed" (some (session_status_value y.status))
                    (field "error_code" (text code) (scenario_properties y)))
                  (event_context_from_record y c))
                λ _. LeavesBooks-Reads (pure y) (Reads-pure (λ s. y))

  pub LeavesBooks-fail_open_scenario :
      (m : Minted) (j : JobRecord) (o : Option ScenarioSessionRecord) (r : ExecutionReservation)
      → LeavesBooks (fail_open_scenario sha256_hex casefold platform_events m j o r)
  unfolding fail_open_scenario
  LeavesBooks-fail_open_scenario m j none r = LeavesBooks-Reads (pure tt) (Reads-pure (λ s. tt))
  LeavesBooks-fail_open_scenario m j (some x) r =
      LeavesBooks-if (session_status_eq x.status started || session_status_eq x.status running) _ _
        (LeavesBooks-bind
          (mark_failed sha256_hex casefold platform_events m
            (record x { completed_at = j.completed_at }) (release_error_code j.error_code)
            (some (context j (some x) r)))
          _
          (LeavesBooks-mark_failed m (record x { completed_at = j.completed_at })
            (release_error_code j.error_code) (some (context j (some x) r)))
          (λ y. LeavesBooks-Reads (pure tt) (Reads-pure (λ s. tt))))
        (LeavesBooks-Reads (pure tt) (Reads-pure (λ s. tt)))

  pub LeavesBooks-emit_execution_quota_event :
      (m : Minted) (e : ExecutionQuotaEvent) (r : ExecutionReservation) (c : ExecutionContext)
      → LeavesBooks (emit_execution_quota_event sha256_hex casefold platform_events m e r c)
  unfolding emit_execution_quota_event emit_bucket_quota_event
  LeavesBooks-emit_execution_quota_event m e r c =
      LeavesBooks-bind (require_some (original_bucket r) _) _
        (LeavesBooks-Reads _ (
          Reads-require_some (original_bucket r)
            (runtime_error "reservation lacks its original bucket")))
        λ k.
          LeavesBooks-bind (read_consumption (m.clock 5) r.owner k) _
            (LeavesBooks-Reads _ (Reads-read_consumption (m.clock 5) r.owner k))
            λ found.
              LeavesBooks-bind (require_some found _) _
                (LeavesBooks-Reads _ (
                  Reads-require_some found
                    (runtime_error "reservation lacks its owned usage bucket")))
                λ state.
                  LeavesBooks-emit_event m 4
                    (bucket_event e state
                      (field "reservation_id" (text r.id)
                        (field "scenario_id" (text r.scenario_id) empty))
                      (state_value r.state))
                    (record c { artifact_id = r.result_artifact_id })
