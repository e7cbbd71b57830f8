-- ===== src/Jobs.antt =====
-- internal/usecase, the background side: executing a story or email job, and completing it.
pub mod Executer
pub mod Apart
pub mod Completion
pub mod Handlers
pub mod Keeps
pub mod Exhausted
pub mod Success
pub mod Overwrite
pub mod Robust
pub mod Pool
pub mod Journey
pub mod Survival
pub mod Statuses
pub mod Stuck
