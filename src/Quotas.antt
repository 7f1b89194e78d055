-- ===== src/Quotas.antt =====
-- Quotas, paid allowances and execution reservations
-- (packages/backend/platform-core/src/anytoolai_platform_core/quotas).
pub mod Models
pub mod Ledger
pub mod Readback
pub mod Usage
pub mod Paid
pub mod Reservations
pub mod Settlement
pub mod Balance
pub mod Tallies
pub mod Settled
pub mod Quantities
pub mod Arbitration
pub mod Admission
pub mod Isolation
pub mod Uniqueness
pub mod States
pub mod Events
pub mod Release
