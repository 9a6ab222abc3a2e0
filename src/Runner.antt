-- ===== src/Runner.antt =====
-- src/autoperf/runner.py: TestRunner.
pub mod Start
pub mod Outcome
pub mod Sampling
pub mod Driving
pub mod Loop
pub mod Ending
pub mod Frame
pub mod Plan
pub mod Spaced
pub mod Rounds
pub mod Scheduled
pub mod Sampled
pub mod Run
pub mod Ended
pub mod Stopped
pub mod Cancelled
pub mod Quality
pub mod Resurrection
