-- ===== src/Recovery.antt =====
-- pkg/recovery: what the controller does about failed pods, failed nodes and slow nodes.
pub mod Ledger
pub mod Jobs
pub mod Tracker
pub mod Controller
pub mod Loop
pub mod Guard
pub mod Deletes
pub mod Handlers
pub mod NodeError
pub mod Refined
mod RecoveryTests
