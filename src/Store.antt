-- ===== src/Store.antt =====
-- The database that the repositories share, and a transaction over it. An exception leaves no
-- write: the transaction (or savepoint) that it leaves is rolled back, so an error has no store.
-- Instants read from the clock and minted identifiers are arguments of each operation.
pub mod Ensures
pub mod Commits
use anytoolai_platform.Prelude.{String, ◌≡◌, refl, Bool, true, false, Option, none, some, List}
use anytoolai_platform.Quotas.Models.{
  QuotaUsageRecord, PaidAllowanceUsageRecord, ExecutionReservation,
}
use anytoolai_platform.Workflows.Models.{JobRecord}
use anytoolai_platform.Scenarios.Models.{ScenarioSessionRecord}
use anytoolai_platform.Handoffs.Models.{HandoffRecord}
use anytoolai_platform.Artifacts.{ArtifactRecord}
use anytoolai_platform.Events.Models.{EventEnvelope}

pub record Store : Type 0 where
  pub usages : List QuotaUsageRecord
  pub allowances : List PaidAllowanceUsageRecord
  pub reservations : List ExecutionReservation
  pub jobs : List JobRecord
  pub sessions : List ScenarioSessionRecord
  pub handoffs : List HandoffRecord
  pub artifacts : List ArtifactRecord
  pub events : List EventEnvelope

-- The exceptions, with the fixed part of their message (the code, for a platform error).
pub data Error : Type 0 where
  value_error lookup_error runtime_error integrity_error no_result_found : String → Error
  platform_error : String → Error

pub data Result {ℓ} (A : Type ℓ) : Type ℓ where
  ok : A → Result A
  err : Error → Result A

abbrev pub Tx : Type 0 → Type 0
Tx A = Store → Result (A × Store)

infixl 5 ◌>>=◌ ◌>>◌
abbrev pub ◌>>=◌ : {A B : Type 0} → Tx A → (A → Tx B) → Tx B
◌>>=◌ m f s = elim (m s) [ err e ↦ err e | ok (a, s') ↦ f a s' ]

abbrev pub ◌>>◌ : {B : Type 0} → Tx (Unit {0}) → Tx B → Tx B
m >> k = m >>= λ _. k

abbrev pub pure : {A : Type 0} → A → Tx A
pure a s = ok (a, s)

abbrev pub raise : {A : Type 0} → Error → Tx A
raise e s = err e

-- `if test: raise e`
abbrev pub refuse_if : Bool → Error → Tx (Unit {0})
refuse_if true e s = err e
refuse_if false e s = ok (tt, s)

-- `if x is None: raise e`, or an index that must exist
abbrev pub require_some : {A : Type 0} → Option A → Error → Tx A
require_some none e s = err e
require_some (some a) e s = ok (a, s)

-- What a caller keeps after a transaction: the writes, or nothing.
abbrev pub after : {A : Type 0} → Result (A × Store) → Store → Store
after (ok (a, s')) s = s'
after (err e) s = s

-- One step of a transaction that returns.
pub >>=-ok :
    {A B : Type 0} (m : Tx A) (f : A → Tx B) (s s' : Store) (a : A)
    → m s ≡ ok (a, s')
    → (m >>= f) s ≡ f a s'
>>=-ok m f s s' a e = rw (e, ◌>>=◌)

pub >>=-eq-ok :
    {A B : Type 0} (m : Tx A) (f : A → Tx B) (s : Store) {r : B × Store}
    → (m >>= f) s ≡ ok r
    → (a : A) × (s' : Store) × (m s ≡ ok (a, s')) × (f a s' ≡ ok r)
>>=-eq-ok {A} {B} m f s {r} h = go (m s) refl h
  where
    go :
        (x : Result (A × Store))
        → m s ≡ x
        → elim x [ err e ↦ err e | ok (a, s') ↦ f a s' ] ≡ ok r
        → (a : A) × (s' : Store) × (m s ≡ ok (a, s')) × (f a s' ≡ ok r)
    go (ok (a, s')) e h = (a, s', e, h)
    go (err x) e h = cc

-- One that raises.
pub >>=-err :
    {A B : Type 0} (m : Tx A) (f : A → Tx B) (s : Store) (x : Error)
    → m s ≡ err x
    → (m >>= f) s ≡ err x
>>=-err m f s x e = rw (e, ◌>>=◌) refl
