-- ===== src/Worker.antt =====
-- The host worker of console/worker.py.
pub mod State
pub mod Host
pub mod Request
pub mod Checks
pub mod Act
pub mod Stop
pub mod Start
pub mod Capture
pub mod Prepare
pub mod Reconcile
pub mod Execute
pub mod Steps
pub mod Safe
pub mod History
pub mod Reports
pub mod World
pub mod Tests
