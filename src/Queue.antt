-- ===== src/Queue.antt =====
-- internal/infrastructure/queue and its helpers: the background work.
pub mod Backoff
pub mod Codec
pub mod Task
pub mod Worker
pub mod Delivery
pub mod Scheduler
pub mod Reading
pub mod Rounds
pub mod Due
