-- ===== src/Campaigns.antt =====
-- src/autoperf/campaigns.py: campaigns of many runs.
pub mod Plan
pub mod PlanBounds
pub mod Balance
pub mod Create
pub mod Created
pub mod Status
pub mod Cancel
pub mod Deleted
pub mod Cancelled
pub mod Execute
pub mod Executed
pub mod Sweep
pub mod Swept
pub mod Orphaned
pub mod Repeat
pub mod Flaky
