-- ===== src/Preflight.antt =====
-- src/autoperf/preflight.py: grading the selector table on a device.
pub mod Grade
pub mod Walk
pub mod Trail
pub mod Cover
pub mod Members
pub mod Covered
pub mod Summary
pub mod Tally
pub mod Placed
pub mod Verdict
pub mod Session
