-- ===== src/Events.antt =====
-- The event subsystem: the log, its emitter and the replay of events
-- (packages/backend/platform-core/src/anytoolai_platform_core/events).
pub mod Models
pub mod Sanitizer
pub mod Replay
pub mod Log
pub mod Emitter
