-- ===== src/Events/Log.antt =====
-- events/repository.py: `EventLogRepository`, and `sequence_existing_replay_event` of
-- events/replay.py, which writes through it. The order of texts in an ORDER BY, the collation, is a
-- parameter.
pub mod Retries
use anytoolai_platform.Prelude.{
  ℕ, String, ◌==◌, Bool, true, false, not, ◌&&◌, ◌||◌, Option, none, some, List, [], ◌∷◌, eqb, ltb,
  leb, opt_eq, holds_text, is_some, if◌then◌else◌,
}
use anytoolai_platform.Prelude.Table.{select, update_where, insert}
use anytoolai_platform.Json.{text, Fields, empty}
use anytoolai_platform.Json.Dict.{lookup}
use anytoolai_platform.Store.{
  Store, Error, value_error, runtime_error, integrity_error, Result, ok, err, Tx, ◌>>=◌, ◌>>◌, pure,
  raise, refuse_if, require_some,
}
use anytoolai_platform.Events.Models.{EventEnvelope, event_key}
use anytoolai_platform.Events.Replay.{ReplayTimestampSequencer, next, is_replay_owned_event_id}

unfoldable pub get : String → Tx (Option EventEnvelope)
get event_id s = ok (select event_key event_id s.events, s)

unfoldable pub require_stored_event : Option EventEnvelope → Tx EventEnvelope
require_stored_event stored = require_some stored (runtime_error "event round-trip failed")

-- The two fields that are no columns read as their defaults.
unfoldable pub stored_row : EventEnvelope → EventEnvelope
stored_row e = record e { schema_version = 1; metadata = empty }

unfoldable pub insert_event : EventEnvelope → Tx (Unit {0})
unfolding stored_row
insert_event e s = elim (insert event_key (stored_row e) s.events) [
  | none ↦ err (integrity_error "event_log primary key")
  | some rows ↦ ok (tt, record s { events = rows })
]

unfoldable pub read_back : String → Tx EventEnvelope
unfolding get require_stored_event
read_back event_id = do stored ← get event_id; require_stored_event stored

-- `except sa.exc.IntegrityError`, after the savepoint is rolled back
unfoldable pub existing_or_raise : Error → String → Tx EventEnvelope
unfolding get
existing_or_raise e event_id = do stored ← get event_id; require_some stored e

unfoldable pub create_tolerant : EventEnvelope → Tx EventEnvelope
unfolding insert_event read_back existing_or_raise
create_tolerant e s = elim (insert_event e s) [
  | ok (_, s') ↦ read_back e.event_id s'
  | err (integrity_error m) ↦ existing_or_raise (integrity_error m) e.event_id s
  | err x ↦ err x
]

-- `allow_existing_event_id` first
unfoldable pub create : Bool → EventEnvelope → Tx EventEnvelope
unfolding create_tolerant insert_event read_back
create true e = create_tolerant e
create false e = insert_event e >> read_back e.event_id

unfoldable pub set_timestamp : ℕ → EventEnvelope → EventEnvelope
set_timestamp t e = record e { timestamp = t }

-- An UPDATE of no row is no error.
unfoldable pub write_timestamp : String → ℕ → Tx (Unit {0})
unfolding set_timestamp
write_timestamp event_id t s =
    elim (update_where event_key event_id (λ e. true) (set_timestamp t) s.events) [
      | none ↦ ok (tt, s)
      | some rows ↦ ok (tt, record s { events = rows })
    ]

unfoldable pub update_replay_event_timestamp : String → ℕ → Tx EventEnvelope
unfolding write_timestamp read_back is_replay_owned_event_id
update_replay_event_timestamp event_id t = do
  refuse_if (not (is_replay_owned_event_id event_id))
      (value_error "only replay-owned event timestamps may be repaired")
  write_timestamp event_id t
  read_back event_id

-- The event, repaired where it must be, and the sequencer that has advanced.
unfoldable pub sequence_existing_replay_event :
    ReplayTimestampSequencer → EventEnvelope → Tx (EventEnvelope × ReplayTimestampSequencer)
unfolding next update_replay_event_timestamp
sequence_existing_replay_event q e =
    let (t, q') = next e.timestamp q in
    if eqb t e.timestamp || not (is_replay_owned_event_id e.event_id)
    then pure (e, q')
    else update_replay_event_timestamp e.event_id t >>= λ stored. pure (stored, q')

-- `_event_properties_step_id`
unfoldable pub event_properties_step_id : Fields → Option String
unfolding lookup
event_properties_step_id properties = elim (lookup "step_id" properties) [
  | some (text s) ↦ if s == "" then none else some s
  | _ ↦ none
]

pub record EventQuery : Type 0 where
  pub event_type : String
  pub job_id : Option String
  pub action_run_id : Option String
  pub provider_call_id : Option String
  pub artifact_id : Option String
  pub step_id : Option String

-- A condition that is only there with an argument.
unfoldable pub matches_if_given : Option String → Option String → Bool
matches_if_given none column = true
matches_if_given (some k) column = holds_text column k

unfoldable pub matches_query : EventQuery → EventEnvelope → Bool
unfolding matches_if_given event_properties_step_id
matches_query q e =
    e.event_type == q.event_type
    && matches_if_given q.job_id e.job_id
    && matches_if_given q.action_run_id e.action_run_id
    && matches_if_given q.provider_call_id e.provider_call_id
    && matches_if_given q.artifact_id e.artifact_id
    && matches_if_given q.step_id (event_properties_step_id e.properties)

module _ (text_leb : String → String → Bool) where
  -- ORDER BY timestamp, event_id
  unfoldable pub comes_first : EventEnvelope → EventEnvelope → Bool
  comes_first e f =
      ltb e.timestamp f.timestamp || eqb e.timestamp f.timestamp && text_leb e.event_id f.event_id

  unfoldable pub sooner : EventEnvelope → Option EventEnvelope → Option EventEnvelope
  unfolding comes_first
  sooner e none = some e
  sooner e (some f) = if comes_first e f then some e else some f

  unfoldable pub first_match : EventQuery → List EventEnvelope → Option EventEnvelope
  unfolding matches_query sooner
  first_match q [] = none
  first_match q (e ∷ es) =
      let rest = first_match q es in if matches_query q e then sooner e rest else rest

  unfoldable pub find_event : EventQuery → Tx (Option EventEnvelope)
  unfolding first_match
  find_event q s = ok (first_match q s.events, s)

  unfoldable pub exists_event : EventQuery → Tx Bool
  unfolding find_event
  exists_event q = do found ← find_event q; pure (is_some found)

  unfoldable pub event_timestamp : EventQuery → Tx (Option ℕ)
  unfolding find_event
  event_timestamp q = do
    found ← find_event q
    pure (elim found [ none ↦ none | some e ↦ some e.timestamp ])
