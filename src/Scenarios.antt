-- ===== src/Scenarios.antt =====
-- Scenario sessions
-- (packages/backend/platform-core/src/anytoolai_platform_core/scenarios).
pub mod Models
pub mod Sessions
pub mod Idempotency
pub mod Checkpoints
pub mod Service
