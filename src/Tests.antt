-- ===== src/Tests.antt =====
-- Concrete databases, and each theorem at an input of them.
mod Rows
mod Claims
mod Runs
mod Screens
mod Grades
mod Plans
mod Batches
mod Loops
mod Sweeps
mod Reports
mod Analyses
mod Waits
mod Supervisors
mod Stats
