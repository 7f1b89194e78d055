-- ===== src/Witnesses.antt =====
-- Sample rows and stores, and the theorems of the library applied to them.
pub mod Rows
mod Mappings
mod Events
mod Handoffs
mod Lifecycles
mod Balances
mod Starts
mod Recovery
mod Releases
