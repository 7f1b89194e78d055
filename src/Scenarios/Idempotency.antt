-- ===== src/Scenarios/Idempotency.antt =====
-- scenarios/repository.py: creation of a session, and its lookup by idempotency key. The order of
-- two identifiers is the database's collation, a parameter.
pub mod Starts
use anytoolai_platform.Prelude.{
  ℕ, String, ◌==◌, Bool, true, false, ◌&&◌, ◌||◌, Option, none, some, List, [], ◌∷◌, ◌++◌, eqb, ltb,
  opt_eq, holds_text, if◌then◌else◌, ◌≡◌, refl, ◌∙◌, arith, eq_refl, Bool-cases, Option-cases, inl,
  inr,
}
use anytoolai_platform.Prelude.Table.{select, exists, insert, insert_cases, select-append}
use anytoolai_platform.Store.{Store, Error, integrity_error, ok, err, Tx, ◌>>=◌, ◌>>◌, >>=-eq-ok}
use anytoolai_platform.Scenarios.Models.{ScenarioSessionRecord, session_id}
use anytoolai_platform.Scenarios.Sessions.{SessionScope, scope_of, require_stored}

-- The columns of the unique constraint `uq_scenario_sessions_idempotency_key`, with the key itself.
pub record IdempotencyKey : Type 0 where
  pub tenant_id : String
  pub region : String
  pub product_id : String
  pub scenario_id : String
  pub guest_id : Option String
  pub idempotency_key : String

-- `_idempotency_key_filters`: a missing guest is compared by IS NULL.
unfoldable pub has_key : IdempotencyKey → ScenarioSessionRecord → Bool
has_key c r =
    r.tenant_id == c.tenant_id
    && r.region == c.region
    && r.product_id == c.product_id
    && r.scenario_id == c.scenario_id
    && opt_eq r.guest_id c.guest_id
    && holds_text r.idempotency_key c.idempotency_key

-- The key that a row takes in the unique constraint, in which NULL differs from NULL.
unfoldable pub constrained_key : ScenarioSessionRecord → Option IdempotencyKey
constrained_key r = elim r.guest_id [
  | none ↦ none
  | some g ↦ elim r.idempotency_key [
    | none ↦ none
    | some k ↦ some (record {
      tenant_id = r.tenant_id;
      region = r.region;
      product_id = r.product_id;
      scenario_id = r.scenario_id;
      guest_id = some g;
      idempotency_key = k;
    })
  ]
]

unfoldable pub key_taken : ScenarioSessionRecord → Store → Bool
unfolding constrained_key has_key
key_taken r s = elim (constrained_key r) [ none ↦ false | some c ↦ exists (has_key c) s.sessions ]

-- A row that violates both constraints is reported under its primary key, the older index.
unfoldable pub insert_row : ScenarioSessionRecord → Tx (Unit {0})
unfolding key_taken
insert_row r s = elim (insert session_id r s.sessions) [
  | none ↦ err (integrity_error "scenario_sessions primary key")
  | some rows ↦
      if key_taken r s
      then err (integrity_error "uq_scenario_sessions_idempotency_key")
      else ok (tt, record s { sessions = rows })
]

unfoldable pub create : ScenarioSessionRecord → Tx ScenarioSessionRecord
unfolding insert_row require_stored scope_of
create r = do insert_row r; require_stored (scope_of r) r.id

module _ (id_before : String → String → Bool) where
  -- ORDER BY created_at, id
  unfoldable pub earlier : ScenarioSessionRecord → ScenarioSessionRecord → Bool
  earlier a b =
      ltb a.created_at b.created_at || eqb a.created_at b.created_at && id_before a.id b.id

  unfoldable pub pick : ScenarioSessionRecord → Option ScenarioSessionRecord → ScenarioSessionRecord
  unfolding earlier
  pick r none = r
  pick r (some x) = if earlier x r then x else r

  -- … WHERE test ORDER BY … LIMIT 1
  unfoldable pub oldest :
      (ScenarioSessionRecord → Bool) → List ScenarioSessionRecord → Option ScenarioSessionRecord
  unfolding pick
  oldest test [] = none
  oldest test (r ∷ rs) = let rest = oldest test rs in if test r then some (pick r rest) else rest

  unfoldable pub get_by_idempotency_key : IdempotencyKey → Tx (Option ScenarioSessionRecord)
  unfolding oldest has_key
  get_by_idempotency_key c s = ok (oldest (has_key c) s.sessions, s)
