-- ===== src/Handoffs.antt =====
-- Product handoffs
-- (packages/backend/platform-core/src/anytoolai_platform_core/handoffs).
pub mod Models
pub mod Repository
pub mod Preview
pub mod Mapping
