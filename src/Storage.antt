-- ===== src/Storage.antt =====
-- src/autoperf/storage.py: the SQLite tables and the operations on them. Each operation is one
-- transaction and a function from the tables to the tables; `now` is what its clock reads.
pub mod Rows
pub mod Runs
pub mod Claims
pub mod Queue
pub mod Campaigns
pub mod Baselines
pub mod Aggregates
pub mod Qualities
pub mod Judged
pub mod Baselined
pub mod Exclusive
pub mod RunClaims
pub mod PreflightClaims
pub mod PreflightGrants
pub mod Release
pub mod Inserted
pub mod Reach
