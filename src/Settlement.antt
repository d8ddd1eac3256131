-- ===== src/Settlement.antt =====
-- `SettlementLifecycleManager` of backend/payments/settlementLifecycleManager.ts: the two-phase
-- settlement of an external payment.
pub mod State
pub mod Reconcile
pub mod Commit
pub mod Rules
pub mod Record
pub mod Phases
pub mod Evidence
pub mod Balance
pub mod Booking
pub mod Outcome
mod Tests
