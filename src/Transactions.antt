-- ===== src/Transactions.antt =====
-- storage/transactions.py: a transaction with its recovery and cleanup callbacks
-- (packages/backend/platform-core/src/anytoolai_platform_core/storage/transactions.py). A callback
-- is a parameter: it takes the world (the database and what else callbacks touch) to the next world,
-- with the text of the exception where it raises. Exceptions outside `Exception`, such as an
-- interrupt, are not modelled for callbacks.
pub mod Registration
pub mod Order
pub mod Recovery
use anytoolai_platform.Prelude.{
  ℕ, ◌+◌, String, Bool, true, false, not, ◌&&◌, ◌||◌, Option, none, some, List, [], ◌∷◌, ◌++◌, eqb,
  ltb, leb, if◌then◌else◌,
}

pub data RollbackRecoveryPhase : Type 0 where
  quota_exhaustion artifact_rows provider_rows action_rows atom_lab_links workflow_rows
        workflow_events action_events provider_events artifact_events :
      RollbackRecoveryPhase

abbrev pub phase_value : RollbackRecoveryPhase → ℕ
phase_value quota_exhaustion = 5
phase_value artifact_rows = 10
phase_value provider_rows = 20
phase_value action_rows = 30
phase_value atom_lab_links = 35
phase_value workflow_rows = 40
phase_value workflow_events = 50
phase_value action_events = 60
phase_value provider_events = 70
phase_value artifact_events = 80

module _ (World : Type 0) where
  pub record Registered : Type 0 where
    pub phase : ℕ
    pub order : ℕ
    pub callback : World → Option String × World
    pub critical : Bool

  -- The entries of `session.info`: the callbacks and the next order, of each of the two kinds. A
  -- cleanup callback has no phase; it stands with phase 0.
  pub record SessionInfo : Type 0 where
    pub rollback_callbacks : List Registered
    pub rollback_order : ℕ
    pub cleanup_callbacks : List Registered
    pub cleanup_order : ℕ

  unfoldable pub register_rollback_recovery_callback :
      (World → Option String × World) → RollbackRecoveryPhase → Bool → SessionInfo → SessionInfo
  register_rollback_recovery_callback callback phase critical info = record info {
    rollback_callbacks =
        info.rollback_callbacks
        ++ (record {
          phase = phase_value phase;
          order = info.rollback_order;
          callback = callback;
          critical = critical;
        })
          ∷ [];
    rollback_order = info.rollback_order + 1;
  }

  unfoldable pub register_transaction_cleanup_callback :
      (World → Option String × World) → Bool → SessionInfo → SessionInfo
  register_transaction_cleanup_callback callback critical info = record info {
    cleanup_callbacks =
        info.cleanup_callbacks
        ++ (record {
          phase = 0;
          order = info.cleanup_order;
          callback = callback;
          critical = critical;
        })
          ∷ [];
    cleanup_order = info.cleanup_order + 1;
  }

  -- The key `(phase, order)` of a is at most that of b.
  unfoldable pub key_leb : Registered → Registered → Bool
  key_leb a b = ltb a.phase b.phase || eqb a.phase b.phase && leb a.order b.order

  unfoldable pub place : Registered → List Registered → List Registered
  unfolding key_leb
  place r [] = r ∷ []
  place r (x ∷ xs) = let rest = place r xs in if key_leb r x then r ∷ x ∷ xs else x ∷ rest

  -- `sorted`, which is stable
  unfoldable pub sorted : List Registered → List Registered
  unfolding place
  sorted [] = []
  sorted (r ∷ rs) = place r (sorted rs)

  -- `_run_rollback_recovery_callbacks`: the error that it raises, the notes that it adds, and the
  -- world.
  unfoldable pub run_recovery :
      List Registered → List String → World → Option String × List String × World
  run_recovery [] notes w = (none, notes, w)
  run_recovery (c ∷ cs) notes w =
      let ran = c.callback w in
      let silent = run_recovery cs notes ran.1 in
      elim ran.0 [
        | none ↦ silent
        | some failure ↦
            let noted = run_recovery cs (notes ++ failure ∷ []) ran.1 in
            if c.critical
            then (some "critical rollback recovery callback failed", notes, ran.1)
            else noted
      ]

  -- `_run_transaction_cleanup_callbacks`, with whether an exception is active.
  unfoldable pub run_cleanup :
      Bool → Bool → List Registered → List String → World → Option String × List String × World
  run_cleanup active suppress [] notes w = (none, notes, w)
  run_cleanup active suppress (c ∷ cs) notes w =
      let ran = c.callback w in
      let silent = run_cleanup active suppress cs notes ran.1 in
      elim ran.0 [
        | none ↦ silent
        | some failure ↦
            let noted = run_cleanup active suppress cs (notes ++ failure ∷ []) ran.1 in
            if c.critical && not suppress
            then (some "critical transaction cleanup callback failed", notes, ran.1)
            else if active
            then noted
            else (some failure, notes, ran.1)
      ]

  -- How the boundary is left: with the error that its caller sees, if any, and the world.
  unfoldable pub leave_failed : String → SessionInfo → World → Option String × World
  unfolding sorted run_recovery run_cleanup
  leave_failed error info w =
      let (recovery_error, notes, recovered) = run_recovery (sorted info.rollback_callbacks) [] w in
      elim recovery_error [
        | none ↦
            let (cleanup_error, notes', cleaned) =
              run_cleanup true false (sorted info.cleanup_callbacks) notes recovered in
            elim cleanup_error [ none ↦ (some error, cleaned) | some e ↦ (some e, cleaned) ]
        | some e ↦
            let (cleanup_error, notes', cleaned) =
              run_cleanup true true (sorted info.cleanup_callbacks) notes recovered in
            elim cleanup_error [ none ↦ (some e, cleaned) | some e' ↦ (some e', cleaned) ]
      ]

  unfoldable pub leave_committed : SessionInfo → World → Option String × World
  unfolding sorted run_cleanup
  leave_committed info w =
      let (cleanup_error, notes, cleaned) =
        run_cleanup false false (sorted info.cleanup_callbacks) [] w in
      (cleanup_error, cleaned)

  -- The body leaves the session's callbacks and the world as it would commit it, or raises with the
  -- callbacks that it registered until then; then the world is the one before it. A commit that fails
  -- is a body that raises.
  pub data Body : Type 0 where
    returns : SessionInfo → World → Body
    raises : String → SessionInfo → Body

  unfoldable pub transaction_boundary : (World → Body) → World → Option String × World
  unfolding leave_failed leave_committed
  transaction_boundary body w = elim (body w) [
    | returns info w' ↦ leave_committed info w'
    | raises error info ↦ leave_failed error info w
  ]
