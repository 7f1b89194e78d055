-- ===== src/Scenarios/Sessions.antt =====
-- scenarios/repository.py: `ScenarioSessionRepository`, the scenario-session rows.
pub mod Terminal
use anytoolai_platform.Prelude.{
  ℕ, String, ◌==◌, Bool, true, false, not, ◌&&◌, ◌||◌, Option, none, some, List, [], ◌∷◌, eqb, ltb,
  opt_eq, holds_text, if◌then◌else◌,
}
use anytoolai_platform.Prelude.Table.{select, update_where, insert}
use anytoolai_platform.Store.{
  Store, Error, lookup_error, runtime_error, integrity_error, Result, ok, err, Tx, ◌>>=◌, ◌>>◌,
  pure, refuse_if, require_some,
}
use anytoolai_platform.Scenarios.Models.{
  ScenarioSessionStatus, started, waiting_for_user, running, completed, failed, expired,
  session_status_eq, ScenarioSessionRecord, session_id,
}

-- The columns of `_scenario_session_scope_filters`.
pub record SessionScope : Type 0 where
  pub tenant_id : String
  pub region : String
  pub product_id : String
  pub frontend_id : String

pub in_scope : SessionScope → ScenarioSessionRecord → Bool
in_scope c r =
    r.tenant_id == c.tenant_id
    && r.region == c.region
    && r.product_id == c.product_id
    && r.frontend_id == c.frontend_id

only_if :
    (ScenarioSessionRecord → Bool) → Option ScenarioSessionRecord → Option ScenarioSessionRecord
only_if test none = none
only_if test (some r) = if test r then some r else none

unfoldable pub get : SessionScope → String → Tx (Option ScenarioSessionRecord)
unfolding in_scope only_if
get c k s = ok (only_if (in_scope c) (select session_id k s.sessions), s)

in_tenant : String → String → ScenarioSessionRecord → Bool
in_tenant tenant region r = r.tenant_id == tenant && r.region == region

unfoldable pub get_in_scope : String → String → String → Tx (Option ScenarioSessionRecord)
unfolding in_tenant only_if
get_in_scope tenant region k s =
    ok (only_if (in_tenant tenant region) (select session_id k s.sessions), s)

unfoldable pub scope_of : ScenarioSessionRecord → SessionScope
scope_of r = record {
  tenant_id = r.tenant_id;
  region = r.region;
  product_id = r.product_id;
  frontend_id = r.frontend_id;
}

-- `_require_stored_scenario_session` over a fresh read
unfoldable pub require_stored : SessionScope → String → Tx ScenarioSessionRecord
unfolding get
require_stored c k = do
  stored ← get c k
  require_some stored (runtime_error "scenario session round-trip failed")

unfoldable pub is_terminal : ScenarioSessionStatus → Bool
is_terminal completed = true
is_terminal failed = true
is_terminal expired = true
is_terminal _ = false

-- Every column but the id and the scope.
pub update_values : ScenarioSessionRecord → ScenarioSessionRecord → ScenarioSessionRecord
update_values r x = record r {
  id = x.id;
  tenant_id = x.tenant_id;
  region = x.region;
  product_id = x.product_id;
  frontend_id = x.frontend_id;
}

-- UPDATE scenario_sessions WHERE id = k AND scope
unfoldable pub write_row : SessionScope → String → ScenarioSessionRecord → Tx Bool
unfolding in_scope update_values
write_row c k r s = elim (update_where session_id k (in_scope c) (update_values r) s.sessions) [
  | none ↦ ok (false, s)
  | some rows ↦ ok (true, record s { sessions = rows })
]

-- The status may not change once it is terminal.
pub refused : ScenarioSessionStatus → ScenarioSessionStatus → Bool
unfolding is_terminal
refused existing new = not (session_status_eq existing new) && is_terminal existing

unfoldable pub update : SessionScope → ScenarioSessionRecord → Tx ScenarioSessionRecord
unfolding get refused write_row require_stored scope_of
update c r = do
  found ← get c r.id
  existing ← require_some found (lookup_error "scenario session not found")
  refuse_if (refused existing.status r.status) (runtime_error "scenario is already terminal")
  changed ← write_row c r.id r
  refuse_if (not changed) (lookup_error "scenario session not found")
  require_stored (scope_of existing) r.id
