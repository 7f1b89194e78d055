-- ===== src/Witnesses/Recovery.antt =====
-- A failed transaction with two recovery callbacks, of which one raises, and a cleanup.
use anytoolai_platform.Prelude.{◌≡◌, String, true, false, Option, some, none, List, [], ◌∷◌, refl}
use anytoolai_platform.Transactions.{
  workflow_rows, workflow_events, Registered, SessionInfo, Body, raises, sorted,
  transaction_boundary,
}
use anytoolai_platform.Transactions.Registration.{
  Call, recovers, cleans, register_all, none_registered, callbacks, phase_by_phase, cleanups,
}
use anytoolai_platform.Transactions.Order.{run_phase_by_phase}
use anytoolai_platform.Transactions.Recovery.{run_all, failure_runs_callbacks}

abbrev writes : String → List String → Option String × List String
writes what log = (none, what ∷ log)

abbrev breaks : List String → Option String × List String
breaks log = (some "ValueError: broken", log)

abbrev events : Registered (List String)
events = record { phase = 50; order = 0; callback = writes "events"; critical = false }

abbrev rows : Registered (List String)
rows = record { phase = 40; order = 1; callback = writes "rows"; critical = false }

abbrev broken : Registered (List String)
broken = record { phase = 40; order = 2; callback = breaks; critical = false }

abbrev unlock : Registered (List String)
unlock = record { phase = 0; order = 0; callback = writes "unlocked"; critical = false }

abbrev info : SessionInfo (List String)
info = record {
  rollback_callbacks = events ∷ rows ∷ broken ∷ [];
  rollback_order = 3;
  cleanup_callbacks = unlock ∷ [];
  cleanup_order = 1;
}

abbrev failing : List String → Body (List String)
failing log = raises "quota_exhausted" info

-- Events are registered before the rows that they tell of, with a cleanup between.
abbrev calls : List (Call (List String))
calls =
    recovers (writes "events") workflow_events false
    ∷ cleans (writes "unlocked") false
    ∷ recovers (writes "rows") workflow_rows false
    ∷ recovers breaks workflow_rows true
    ∷ []

run_phase_by_phase_example :
    (callbacks (sorted (List String) (register_all calls none_registered).rollback_callbacks)
      ≡ writes "rows" ∷ breaks ∷ writes "events" ∷ [])
    × (callbacks (sorted (List String) (register_all calls none_registered).cleanup_callbacks)
        ≡ writes "unlocked" ∷ [])
unfolding phase_by_phase cleanups
run_phase_by_phase_example = run_phase_by_phase calls

failure_runs_callbacks_example :
    transaction_boundary (List String) failing []
    ≡ (some "quota_exhausted", "unlocked" ∷ "events" ∷ "rows" ∷ [])
unfolding run_all sorted
failure_runs_callbacks_example =
    failure_runs_callbacks failing [] "quota_exhausted" info refl (refl, (refl, (refl, tt)))
      (refl, tt)
