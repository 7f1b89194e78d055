-- ===== src/Witnesses/Releases.antt =====
-- The release of a failed execution, and two starts of a session with one key, on the sample rows.
use anytoolai_platform.Prelude.{
  String, ◌==◌, eqb, if◌then◌else◌, Bool, false, none, some, List, [], ◌∷◌, ◌≡◌, refl,
}
use mathlib.Core.Path.{subst}
use anytoolai_platform.Prelude.Table.{select, find, exists, insert}
use anytoolai_platform.Store.{Store, ok, after}
use anytoolai_platform.Scenarios.Models.{ScenarioSessionRecord}
use anytoolai_platform.Scenarios.Idempotency.{IdempotencyKey, constrained_key}
use anytoolai_platform.Scenarios.Service.{Minted, start_or_get_existing}
use anytoolai_platform.Scenarios.Service.Started.{start_again}
use anytoolai_platform.Quotas.Balance.{IsBalanced}
use anytoolai_platform.Quotas.Models.{released, ExecutionReservation, reservation_key}
use anytoolai_platform.Quotas.Reservations.{get_by_job}
use anytoolai_platform.Quotas.Release.{release_execution}
use anytoolai_platform.Quotas.Release.Balanced.{release_execution-IsBalanced}
use anytoolai_platform.Quotas.Release.Replayed.{release_settled_same}
use anytoolai_platform.Witnesses.Balances.{store-IsBalanced}
use anytoolai_platform.Witnesses.Rows.{session, store, ended_store, reservation}

abbrev digest : String → String
digest s = "0"

abbrev folded : String → String
folded s = s

abbrev platform_events : List String
platform_events =
    "scenario.started" ∷ "scenario.checkpoint_reached" ∷ "scenario.failed" ∷ "quota.released" ∷ []

abbrev minted : Minted
minted = record {
  clock = λ n. 10;
  event_ids = λ n. if eqb n 3 then "e3" else if eqb n 4 then "e4" else "e";
}

-- A later process, with its own identifiers.
abbrev minted_again : Minted
minted_again = record { clock = λ n. 20; event_ids = λ n. "f" }

ended_store-IsBalanced : IsBalanced ended_store
ended_store-IsBalanced = record {
  usages = store-IsBalanced.usages;
  allowances = store-IsBalanced.allowances;
}

ended_store-keyed :
    (r : ExecutionReservation)
    → get_by_job "j1" ended_store ≡ ok (some r, ended_store)
    → select reservation_key r.id ended_store.reservations ≡ some r
unfolding get_by_job find select
ended_store-keyed r e =
    let same : reservation ≡ r = cc in
    subst (λ x. select reservation_key x.id ended_store.reservations ≡ some x) same refl

release_execution-IsBalanced_example :
    IsBalanced
      (after (release_execution digest folded platform_events minted "j1" ended_store) ended_store)
release_execution-IsBalanced_example =
    release_execution-IsBalanced digest folded platform_events minted "j1" ended_store
      ended_store-keyed ended_store-IsBalanced

abbrev keyed : ScenarioSessionRecord
keyed = record session { idempotency_key = some "key" }

abbrev again : ScenarioSessionRecord
again = record keyed { id = "s2"; created_at = 4 }

abbrev key : IdempotencyKey
key = record {
  tenant_id = "t1";
  region = "eu";
  product_id = "p1";
  scenario_id = "sc1";
  guest_id = some "g1";
  idempotency_key = "key";
}

abbrev by_id : String → String → Bool
by_id a b = a == b

abbrev no_sessions : Store
no_sessions = record store { sessions = [] }

-- The store that the first start leaves.
abbrev one_start : Store
one_start =
    after (start_or_get_existing digest folded platform_events by_id minted keyed none no_sessions)
      no_sessions

start_again_example :
    start_or_get_existing digest folded platform_events by_id minted_again again none one_start
    ≡ ok ((keyed, false), one_start)
unfolding start_or_get_existing constrained_key insert select exists
start_again_example =
    start_again digest folded platform_events by_id minted minted_again keyed again keyed none none
      key no_sessions one_start refl refl refl refl

-- The reservation after its release.
abbrev released_reservation : ExecutionReservation
released_reservation = record reservation {
  state = released;
  finalized_at = some 10;
  updated_at = 10;
}

abbrev released_store : Store
released_store = record ended_store { reservations = released_reservation ∷ [] }

release_settled_same_example :
    after
      (release_execution digest folded platform_events minted_again "j1" released_store)
      released_store
    ≡ released_store
unfolding get_by_job find
release_settled_same_example =
    release_settled_same digest folded platform_events minted_again "j1" released_reservation
      released_store refl refl
