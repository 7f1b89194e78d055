-- ===== src/Workflows.antt =====
-- The workflow subsystem: jobs and their lifecycle
-- (packages/backend/platform-core/src/anytoolai_platform_core/workflows).
pub mod Models
pub mod Jobs
pub mod Errors
pub mod Mappings
