-- ===== src/Adapters.antt =====
-- src/autoperf/adapters.py: the actions that find an element first.
pub mod Lookup
pub mod Retries
pub mod Trusted
pub mod Focus
pub mod Reached
pub mod Polling
pub mod Polled
pub mod States
