-- ===== src/Executor.antt =====
-- api/src/services/executor.ts: running a job's code in a subprocess of the API server.
pub mod Languages
pub mod Process
pub mod Ends
pub mod Failed
pub mod Run
pub mod Phases
pub mod Memory
pub mod Redis
pub mod Tests
