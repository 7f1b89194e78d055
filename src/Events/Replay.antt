-- ===== src/Events/Replay.antt =====
-- events/replay.py: the timestamps of replayed events. An instant is its number of microseconds.
pub mod Order
use anytoolai_platform.Prelude.{
  ℕ, suc, String, Bool, Option, none, some, List, [], ◌∷◌, leb, ltb, if◌then◌else◌,
}
use anytoolai_platform.Prelude.Texts.{starts_with}

-- `last_timestamp`
pub record ReplayTimestampSequencer : Type 0 where
  pub last_timestamp : Option ℕ

-- The timestamp that is due, and the sequencer that has kept it.
unfoldable pub next : ℕ → ReplayTimestampSequencer → ℕ × ReplayTimestampSequencer
next preferred q = elim q.last_timestamp [
  | none ↦ (preferred, record { last_timestamp = some preferred })
  | some last ↦
      let timestamp = if leb preferred last then suc last else preferred in
      (timestamp, record { last_timestamp = some timestamp })
]

unfoldable pub observe : ℕ → ReplayTimestampSequencer → ReplayTimestampSequencer
observe timestamp q = elim q.last_timestamp [
  | none ↦ record { last_timestamp = some timestamp }
  | some last ↦ if ltb last timestamp then record { last_timestamp = some timestamp } else q
]

abbrev pub replay_event_id_prefix : String
replay_event_id_prefix = "event_replay_"

unfoldable pub is_replay_owned_event_id : String → Bool
is_replay_owned_event_id event_id = starts_with event_id replay_event_id_prefix
