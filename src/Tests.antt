-- ===== src/Tests.antt =====
-- Runs of the code on small inputs, and the theorems applied to them.
pub mod Toys
pub mod Issuance
mod Decisions
pub mod Enforcement
mod Signals
pub mod Contract
pub mod Sidecars
mod Identity
mod Processes
mod Histories
pub mod Grants
mod Admissions
