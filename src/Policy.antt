-- ===== src/Policy.antt =====
-- The backup policy of console/policy.py.
pub mod Record
pub mod Evaluate
pub mod Plan
pub mod Retention
pub mod Health
mod Tests
