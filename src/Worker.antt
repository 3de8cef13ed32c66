-- ===== src/Worker.antt =====
-- src/app/worker.py: the tasks that RQ runs.
pub mod Whisper
pub mod Ends
pub mod Locks
pub mod Caches
pub mod Diarize
pub mod DiarizeEnds
pub mod DiarizeLocks
