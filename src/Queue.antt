-- ===== src/Queue.antt =====
-- api/src/services/queue.ts: the job queue over Redis, or over memory where no Redis is configured.
pub mod Platform
pub mod World
pub mod Memory
pub mod Service
pub mod Spec
pub mod Sample
pub mod Tests
