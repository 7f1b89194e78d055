-- ===== src/Transactions/Registration.antt =====
-- The callbacks of a transaction as they are registered, and the order that their phases ask for.
use anytoolai_platform.Prelude.{
  ℕ, ◌+◌, String, Bool, ◌≡◌, refl, sym, ap, ◌∙◌, Option, List, [], ◌∷◌, ◌++◌, eqb, Bool-cases, inl,
  inr, if◌then◌else◌,
}
use anytoolai_platform.Transactions.{
  RollbackRecoveryPhase, quota_exhaustion, artifact_rows, provider_rows, action_rows,
  atom_lab_links, workflow_rows, workflow_events, action_events, provider_events, artifact_events,
  phase_value, Registered, SessionInfo, register_rollback_recovery_callback,
  register_transaction_cleanup_callback,
}

-- The phases, from the first to the last.
abbrev pub phases : List RollbackRecoveryPhase
phases =
    quota_exhaustion ∷ artifact_rows ∷ provider_rows ∷ action_rows ∷ atom_lab_links ∷ workflow_rows
    ∷ workflow_events ∷ action_events ∷ provider_events ∷ artifact_events ∷ []

abbrev same_phase : RollbackRecoveryPhase → RollbackRecoveryPhase → Bool
same_phase p q = eqb (phase_value p) (phase_value q)

-- One registration of a callback.
pub data Call (World : Type 0) : Type 0 where
  recovers : (World → Option String × World) → RollbackRecoveryPhase → Bool → Call World
  cleans : (World → Option String × World) → Bool → Call World

append_one : {A : Type 0} (xs ys : List A) (x : A) → (xs ++ x ∷ []) ++ ys ≡ xs ++ x ∷ ys
append_one [] ys x = refl
append_one (y ∷ xs) ys x = ap (λ l. y ∷ l) (append_one xs ys x)

append_none : {A : Type 0} (xs : List A) → xs ++ [] ≡ xs
append_none [] = refl
append_none (x ∷ xs) = ap (λ l. x ∷ l) (append_none xs)

module _ {World : Type 0} where
  unfoldable pub register_all : List (Call World) → SessionInfo World → SessionInfo World
  unfolding register_rollback_recovery_callback register_transaction_cleanup_callback
  register_all [] info = info
  register_all (recovers f p critical ∷ calls) info =
      register_all calls (register_rollback_recovery_callback World f p critical info)
  register_all (cleans f critical ∷ calls) info =
      register_all calls (register_transaction_cleanup_callback World f critical info)

  abbrev pub none_registered : SessionInfo World
  none_registered = record {
    rollback_callbacks = [];
    rollback_order = 0;
    cleanup_callbacks = [];
    cleanup_order = 0;
  }

  -- The recovery callbacks of one phase, as they were registered.
  unfoldable pub in_phase :
      RollbackRecoveryPhase → List (Call World) → List (World → Option String × World)
  in_phase p [] = []
  in_phase p (recovers f q critical ∷ calls) =
      let rest = in_phase p calls in if same_phase q p then f ∷ rest else rest
  in_phase p (cleans f critical ∷ calls) = in_phase p calls

  unfoldable pub phase_by_phase :
      List RollbackRecoveryPhase → List (Call World) → List (World → Option String × World)
  unfolding in_phase
  phase_by_phase [] calls = []
  phase_by_phase (p ∷ ps) calls = in_phase p calls ++ phase_by_phase ps calls

  unfoldable pub cleanups : List (Call World) → List (World → Option String × World)
  cleanups [] = []
  cleanups (recovers f p critical ∷ calls) = cleanups calls
  cleanups (cleans f critical ∷ calls) = f ∷ cleanups calls

  unfoldable pub callbacks : List (Registered World) → List (World → Option String × World)
  callbacks [] = []
  callbacks (r ∷ rs) = r.callback ∷ callbacks rs

  -- The rows that the calls append, from an order number on.
  unfoldable pub recovery_rows : ℕ → List (Call World) → List (Registered World)
  recovery_rows n [] = []
  recovery_rows n (recovers f p critical ∷ calls) =
      (record { phase = phase_value p; order = n; callback = f; critical = critical })
      ∷ recovery_rows (n + 1) calls
  recovery_rows n (cleans f critical ∷ calls) = recovery_rows n calls

  unfoldable pub cleanup_rows : ℕ → List (Call World) → List (Registered World)
  cleanup_rows n [] = []
  cleanup_rows n (recovers f p critical ∷ calls) = cleanup_rows n calls
  cleanup_rows n (cleans f critical ∷ calls) =
      (record { phase = 0; order = n; callback = f; critical = critical })
      ∷ cleanup_rows (n + 1) calls

  pub registered_rows :
      (calls : List (Call World)) (info : SessionInfo World)
      → ((register_all calls info).rollback_callbacks
          ≡ info.rollback_callbacks ++ recovery_rows info.rollback_order calls)
        × ((register_all calls info).cleanup_callbacks
            ≡ info.cleanup_callbacks ++ cleanup_rows info.cleanup_order calls)
  unfolding register_all recovery_rows cleanup_rows
  registered_rows [] info =
      (sym (append_none info.rollback_callbacks), sym (append_none info.cleanup_callbacks))
  registered_rows (recovers f p critical ∷ calls) info =
      let (a, b) =
        registered_rows calls (register_rollback_recovery_callback World f p critical info) in
      (a ∙ append_one info.rollback_callbacks _ _, b)
  registered_rows (cleans f critical ∷ calls) info =
      let (a, b) =
        registered_rows calls (register_transaction_cleanup_callback World f critical info) in
      (a, b ∙ append_one info.cleanup_callbacks _ _)

  -- The rows of one phase, and those of the phases one after the other.
  unfoldable pub rows_in : RollbackRecoveryPhase → List (Registered World) → List (Registered World)
  rows_in p [] = []
  rows_in p (r ∷ rs) =
      let rest = rows_in p rs in if eqb r.phase (phase_value p) then r ∷ rest else rest

  unfoldable pub rows_by :
      List RollbackRecoveryPhase → List (Registered World) → List (Registered World)
  unfolding rows_in
  rows_by [] rs = []
  rows_by (p ∷ ps) rs = rows_in p rs ++ rows_by ps rs

  pub rows_by-none : (ps : List RollbackRecoveryPhase) → [] ≡ rows_by ps []
  unfolding rows_by rows_in
  rows_by-none [] = refl
  rows_by-none (p ∷ ps) = rows_by-none ps

  callbacks-append :
      (xs ys : List (Registered World)) → callbacks (xs ++ ys) ≡ callbacks xs ++ callbacks ys
  unfolding callbacks
  callbacks-append [] ys = refl
  callbacks-append (x ∷ xs) ys = ap (λ l. x.callback ∷ l) (callbacks-append xs ys)

  callbacks-rows_in :
      (p : RollbackRecoveryPhase) (calls : List (Call World)) (n : ℕ)
      → callbacks (rows_in p (recovery_rows n calls)) ≡ in_phase p calls
  unfolding callbacks rows_in recovery_rows in_phase
  callbacks-rows_in p [] n = refl
  callbacks-rows_in p (recovers f q critical ∷ calls) n = elim (Bool-cases (same_phase q p)) [
    | inl same ↦ rw (same, if◌then◌else◌) (ap (λ l. f ∷ l) (callbacks-rows_in p calls (n + 1)))
    | inr other ↦ rw (other, if◌then◌else◌) (callbacks-rows_in p calls (n + 1))
  ]
  callbacks-rows_in p (cleans f critical ∷ calls) n = callbacks-rows_in p calls n

  pub callbacks-rows_by :
      (ps : List RollbackRecoveryPhase) (calls : List (Call World)) (n : ℕ)
      → callbacks (rows_by ps (recovery_rows n calls)) ≡ phase_by_phase ps calls
  unfolding callbacks rows_by phase_by_phase
  callbacks-rows_by [] calls n = refl
  callbacks-rows_by (p ∷ ps) calls n =
      callbacks-append (rows_in p (recovery_rows n calls)) (rows_by ps (recovery_rows n calls))
      ∙ rw (callbacks-rows_in p calls n, callbacks-rows_by ps calls n) refl
