-- ===== src/Jobs.antt =====
-- src/app/jobs.py: the job ledger and the Redis locks.
pub mod Ledger
pub mod Locks
pub mod Enqueuing
pub mod Keys
pub mod Exclusion
pub mod Settling
pub mod Covered
pub mod Outcomes
pub mod Race
pub mod Named
pub mod Rows
