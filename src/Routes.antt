-- ===== src/Routes.antt =====
-- The route handlers of api/src/routes. A handler is an action on the state of the server process that
-- returns a `Reply`; the parts of a request that Fastify has parsed are arguments.
pub mod Execute
pub mod Root
pub mod Polling
pub mod WorkerRun
pub mod WorkerApi
pub mod Health
pub mod Executions
pub mod Stats
pub mod Workers
pub mod Requests
pub mod Tests
